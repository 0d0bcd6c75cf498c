-- ===== src/Kernel.antt =====
-- The kernel, kernel/src.
pub mod Estado
pub mod Colas
pub mod Recursos
pub mod Archivos
pub mod Salida
pub mod Disco
pub mod Segmentos
pub mod Ciclo
pub mod Nucleo
pub mod Procesos
