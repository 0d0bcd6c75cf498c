-- ===== src/Cpu.antt =====
-- The CPU module, in cpu/src: the registers, the translation of addresses, the instructions and the
-- cycle that executes them.
pub mod Estado
pub mod Registros
pub mod Mmu
pub mod Instrucciones
pub mod Ciclo
