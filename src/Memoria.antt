-- ===== src/Memoria.antt =====
-- The memory module, memoria/src, over the bit array of libs/src/bitarray.c.
pub mod Bitarray
pub mod Algoritmos
pub mod Espacio
pub mod Estado
pub mod Datos
pub mod Segmentos
pub mod Borrado
pub mod Compactacion
