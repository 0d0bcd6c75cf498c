-- ===== src/Filesystem.antt =====
-- The file system module, filesystem/src.
pub mod Estado
pub mod Calculo
pub mod Truncar
pub mod Acceso
pub mod Servidor
