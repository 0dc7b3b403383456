-- ===== src/Lib.antt =====
-- A verification library for the C code of the repository: the hashing, curve and storage code
-- under vendors/ that the OCaml libraries (lib_crypto, lib_storage, and through them lib_p2p and
-- the shell) reach by foreign calls.
--
-- * Blake2b, for vendors/ocaml-blake2/src/blake2b-ref.c, blake2-impl.h and blake2.h. A state is the
--   record State (t[2] and f[2] are two fields each, `buf` the 128 bytes with what is stale in
--   them); blake2b_init, init_key, update, final and blake2b are init, init_key, update, final and
--   blake2b, and the ml_ functions the OCaml entry points. Bytes and words are natural numbers,
--   and each wrap of uint64_t is written out. Blake2b.Spec has the abstract view: what waits in
--   the buffer, absorbed byte by byte.
-- * Uecc, for the multi-precision integers of vendors/ocaml-uecc/src/uECC.c, with 64-bit words.
--   An array of num_words words is a list, lowest word first; a function that writes an array
--   returns it, with its carry. Uecc.Value gives the number that an array stands for.
--   Uecc.Mult has the product and the square with their three registers as a record, Uecc.Mmod the
--   remainder, with its two buffers as the one that the index picks, and the inverse. Where the code
--   has switches, the model follows vendors/ocaml-uecc/src/dune: uECC_SQUARE_FUNC is on,
--   uECC_VLI_NATIVE_LITTLE_ENDIAN is off and the optimization level is 3; words have 64 bits, with
--   128-bit integers for products.
-- * Uecc.Curve, Points, Keys, Hmac, Ecdsa, Verify and Deterministic, for the curves of the same file:
--   uECC_Curve_t is the records Params and Curve, XYcZ_add is co_z_add, XYcZ_addC is
--   co_z_add_conjugate, EccPoint_mult is point_mult, and the functions of keys and signatures have
--   the names of the code. Uecc.P256 and Uecc.Points have curve-specific.h: secp256r1 with its fast
--   reduction, and the default functions of a curve. The function of uECC_set_rng, with a state of
--   its own, and the hash of a uECC_HashContext are parameters. Uecc.Formulas has the formulas of
--   the points on numbers.
-- * Midl, for vendors/ocaml-lmdb/src/midl.c and midl.h. An MDB_IDL is the record Idl with its two
--   header words and its cells; malloc and realloc are the parameter Allocator with their
--   documented laws. The room that mdb_midl_grow adds is an int: the conversions to it from an
--   unsigned and from a size_t, and back with its sign, are written out, and a number of 2 ^ 31 or
--   more turns negative there. An MDB_ID2L is the record Id2l.
-- * Stubs, for the OCaml bindings vendors/ocaml-lmdb/src/lmdb_stubs.c,
--   vendors/ocaml-secp256k1/src/secp256k1_wrap.c, vendors/ocaml-hacl/src/hacl_stubs.c and
--   vendors/ocaml-uecc/src/uecc_stubs.c. Stubs.Value has the OCaml values and the macros that read
--   and build them; Env and Data have the stubs of LMDB, Secp256k1, Hacl and Uecc those of the
--   others, each under the name of its C function or of what follows caml_secp256k1_. The calls of
--   LMDB, libsecp256k1 and HACL are records of functions over a state, which are parameters; the
--   stubs of uECC call the functions of Uecc on a store of buffers. Stubs.Types has the OCaml types,
--   EnvExternals and DataExternals the external declarations of vendors/ocaml-lmdb/src/lmdb.ml, and
--   Custom the order of custom blocks. Lengths has the buffer that read_chunk of
--   src/lib_p2p/p2p_socket.ml opens.
-- * Prelude, the shared names: tests, lists by native numbers, words, and the laws of the bitwise
--   operations.
--
-- The parts meet in the OCaml code: it hashes by Blake2b, signs on P-256 by uECC, seals the chunks
-- of the peer-to-peer layer by HACL and stores by LMDB, each through its stubs. Loops are
-- structural, or recursions on fuel that is the length of the input (absorb_blocks, each round
-- taking 128 bytes), the count of positions (search_loop, each round leaving fewer) or the width of
-- a word (count_bits); the theorems hold with that fuel. mod_inv has a round for each bit of its
-- two numbers, as a round takes a bit from one of them; the last loops of the reduction of
-- secp256r1 have 10 rounds, as what they start from is below 8 times 2 ^ 256; fill_t has a round
-- for each byte, as a hash is not empty. `none` is where fuel runs out, and in uECC_verify also
-- where points[0] would be read; in the stubs it is where a value of another shape would be read,
-- or an array overrun.
--
-- Not modelled: the curves other than secp256r1, uECC for 8-bit and 32-bit words, what a signature
-- buffer holds where signing fails, the clearing of stack memory, null checks that a caller in
-- OCaml cannot fail, aliasing of the arguments of one call, allocation sizes past the address
-- space, mdb_midl_xmerge and mdb_midl_sort, the collection of OCaml values and the lifetime of
-- handles, the LMDB engine mdb.c, HACL and libsecp256k1, which are copies of other projects, and
-- the OCaml code but for the declarations and the buffer named above.
pub mod Prelude
pub mod Blake2b
pub mod Uecc
pub mod Midl
pub mod Stubs
