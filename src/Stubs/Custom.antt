-- ===== src/Stubs/Custom.antt =====
-- Gen_custom_block of vendors/ocaml-lmdb/src/lmdb_stubs.c and vendors/ocaml-uecc/src/uecc_stubs.c: the
-- order of the custom blocks, which is that of the pointers in them.
use tezos_master_lib_p2p.Prelude.{Option, some, ◌>>=◌, ltb, ◌==◌, if◌then◌else◌}
use tezos_master_lib_p2p.Prelude.Int.{ℤ, pos, negsuc}
use tezos_master_lib_p2p.Stubs.Value.{Value, custom_val}

-- compare_env, compare_txn, compare_cursor and compare_curve.
unfoldable compare_custom : Value → Value → Option ℤ
compare_custom a b = do
  aa ← custom_val a
  bb ← custom_val b
  some (if aa == bb then pos 0 else if ltb aa bb then negsuc 0 else pos 1)
