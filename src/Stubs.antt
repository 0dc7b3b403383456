-- ===== src/Stubs.antt =====
-- The OCaml bindings: vendors/ocaml-lmdb/src/lmdb_stubs.c, vendors/ocaml-secp256k1/src/secp256k1_wrap.c,
-- vendors/ocaml-hacl/src/hacl_stubs.c and vendors/ocaml-uecc/src/uecc_stubs.c.
pub mod Value
pub mod Env
pub mod Data
pub mod Secp256k1
pub mod Hacl
pub mod Uecc
mod Combine
mod Handles
mod Outcome
mod Custom
mod Lengths
pub mod Types
pub mod Reads
pub mod Apply
pub mod DataExternals
pub mod DataResults
mod DataTyped
pub mod EnvExternals
pub mod EnvResults
pub mod TxnResults
mod EnvTyped
mod Refusals
mod Tests
mod CryptoTests
