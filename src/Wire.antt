-- ===== src/Wire.antt =====
-- libs/src/package.c, libs/include/package.h and libs/src/communication.c: the messages that the
-- modules exchange, as bytes. Encoders and decoders here, their laws in the child modules.
pub mod Bytes
pub mod Types
pub mod Instruccion
pub mod Segments
pub mod Messages
pub mod Contexto
pub mod Duplicados
pub mod Package
pub mod Communication
