-- ===== src/Blake2b.antt =====
-- vendors/ocaml-blake2/src/blake2b-ref.c, with the byte helpers of blake2-impl.h and the types of
-- blake2.h: the BLAKE2b hash that lib_crypto builds its identifiers on.
pub mod Bytes
pub mod Codec
pub mod Compress
pub mod State
pub mod Api
pub mod Spec
pub mod Refine
pub mod Valid
pub mod Finish
pub mod Stream
pub mod OneShot
pub mod Counter
mod Tests
