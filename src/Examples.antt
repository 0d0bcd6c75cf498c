-- ===== src/Examples.antt =====
-- The theorems applied to concrete data, and tests of the definitions.
mod Data
mod Wire
mod Memoria
mod Estado
mod Compactacion
mod Filesystem
mod Kernel
mod Nucleo
mod Cpu
mod Communication
