-- ===== src/Midl.antt =====
-- vendors/ocaml-lmdb/src/midl.c: the ID lists of the LMDB store below lib_storage.
pub mod Search
pub mod Idl
pub mod Content
pub mod Append
pub mod Lookup
pub mod Need
pub mod Id2l
pub mod Id2lInsert
mod Tests
