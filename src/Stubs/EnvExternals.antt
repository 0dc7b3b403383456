-- ===== src/Stubs/EnvExternals.antt =====
-- The external declarations of vendors/ocaml-lmdb/src/lmdb.ml for environments, transactions and
-- databases; a Unix.file_descr and a Unix.file_perm are ints.
use tezos_master_lib_p2p.Prelude.{List, [], ◌∷◌, Option}
use tezos_master_lib_p2p.Stubs.Value.{Value}
use tezos_master_lib_p2p.Stubs.Types.{
  OcamlType, int_type, bool_type, unit_type, string_type, handle_type, nativeint_type, int64_type,
  option_type, result_type, ints_type,
}
use tezos_master_lib_p2p.Stubs.Apply.{apply1, apply2, apply3, apply4}
use tezos_master_lib_p2p.Stubs.Env.{
  EnvCalls, stub_mdb_version, stub_mdb_strerror, stub_mdb_env_create, stub_mdb_env_set_maxreaders,
  stub_mdb_env_set_maxdbs, stub_mdb_env_set_mapsize, stub_mdb_env_open, stub_mdb_env_close,
  stub_mdb_env_copy2, stub_mdb_env_copyfd2, stub_mdb_env_stat, stub_mdb_env_info, stub_mdb_env_sync,
  stub_mdb_env_set_flags, stub_mdb_env_get_flags, stub_mdb_env_get_path, stub_mdb_env_get_fd,
  stub_mdb_env_get_maxreaders, stub_mdb_env_get_maxkeysize, stub_mdb_txn_begin, stub_mdb_txn_id,
  stub_mdb_txn_env, stub_mdb_txn_commit, stub_mdb_txn_abort, stub_mdb_txn_reset, stub_mdb_txn_renew,
  stub_mdb_dbi_open, stub_mdb_stat, stub_mdb_dbi_flags, stub_mdb_drop,
}

pub data EnvExternal : Type 0 where
  version : EnvExternal
  strerror : EnvExternal
  create : EnvExternal
  set_maxreaders : EnvExternal
  set_maxdbs : EnvExternal
  set_mapsize : EnvExternal
  opendir : EnvExternal
  closedir : EnvExternal
  copy : EnvExternal
  copyfd : EnvExternal
  stat : EnvExternal
  envinfo : EnvExternal
  sync : EnvExternal
  setclear_flags : EnvExternal
  get_flags : EnvExternal
  get_path : EnvExternal
  get_fd : EnvExternal
  get_maxreaders : EnvExternal
  get_maxkeysize : EnvExternal
  txn_begin : EnvExternal
  get_txn_id : EnvExternal
  get_txn_env : EnvExternal
  commit_txn : EnvExternal
  abort_txn : EnvExternal
  reset_ro_txn : EnvExternal
  renew_ro_txn : EnvExternal
  opendb : EnvExternal
  db_stat : EnvExternal
  db_flags : EnvExternal
  db_drop : EnvExternal

-- The types of the parameters, and that of the result.
abbrev pub env_parameters : EnvExternal → List OcamlType
env_parameters version = unit_type ∷ []
env_parameters strerror = int_type ∷ []
env_parameters create = unit_type ∷ []
env_parameters set_maxreaders = handle_type ∷ int_type ∷ []
env_parameters set_maxdbs = handle_type ∷ int_type ∷ []
env_parameters set_mapsize = handle_type ∷ int64_type ∷ []
env_parameters opendir = handle_type ∷ string_type ∷ int_type ∷ int_type ∷ []
env_parameters closedir = handle_type ∷ []
env_parameters copy = handle_type ∷ string_type ∷ int_type ∷ []
env_parameters copyfd = handle_type ∷ int_type ∷ int_type ∷ []
env_parameters stat = handle_type ∷ []
env_parameters envinfo = handle_type ∷ []
env_parameters sync = handle_type ∷ bool_type ∷ []
env_parameters setclear_flags = handle_type ∷ int_type ∷ bool_type ∷ []
env_parameters get_flags = handle_type ∷ []
env_parameters get_path = handle_type ∷ []
env_parameters get_fd = handle_type ∷ []
env_parameters get_maxreaders = handle_type ∷ []
env_parameters get_maxkeysize = handle_type ∷ []
env_parameters txn_begin = handle_type ∷ int_type ∷ option_type handle_type ∷ []
env_parameters get_txn_id = handle_type ∷ []
env_parameters get_txn_env = handle_type ∷ []
env_parameters commit_txn = handle_type ∷ []
env_parameters abort_txn = handle_type ∷ []
env_parameters reset_ro_txn = handle_type ∷ []
env_parameters renew_ro_txn = handle_type ∷ []
env_parameters opendb = handle_type ∷ option_type string_type ∷ int_type ∷ []
env_parameters db_stat = handle_type ∷ nativeint_type ∷ []
env_parameters db_flags = handle_type ∷ nativeint_type ∷ []
env_parameters db_drop = handle_type ∷ nativeint_type ∷ bool_type ∷ []

abbrev pub env_result : EnvExternal → OcamlType
env_result version = ints_type 3
env_result strerror = string_type
env_result create = result_type handle_type
env_result set_maxreaders = int_type
env_result set_maxdbs = int_type
env_result set_mapsize = int_type
env_result opendir = int_type
env_result closedir = unit_type
env_result copy = int_type
env_result copyfd = int_type
env_result stat = ints_type 6
env_result envinfo = ints_type 5
env_result sync = int_type
env_result setclear_flags = int_type
env_result get_flags = int_type
env_result get_path = string_type
env_result get_fd = int_type
env_result get_maxreaders = int_type
env_result get_maxkeysize = int_type
env_result txn_begin = result_type handle_type
env_result get_txn_id = int_type
env_result get_txn_env = handle_type
env_result commit_txn = int_type
env_result abort_txn = unit_type
env_result reset_ro_txn = unit_type
env_result renew_ro_txn = int_type
env_result opendb = result_type nativeint_type
env_result db_stat = result_type (ints_type 6)
env_result db_flags = result_type int_type
env_result db_drop = int_type

-- The stub that the declaration names.
abbrev pub run_env : {W : Type 0} → EnvCalls W → EnvExternal → W → List Value → Option (W × Value)
run_env mdb version w = apply1 (stub_mdb_version mdb w)
run_env mdb strerror w = apply1 (stub_mdb_strerror mdb w)
run_env mdb create w = apply1 (stub_mdb_env_create mdb w)
run_env mdb set_maxreaders w = apply2 (stub_mdb_env_set_maxreaders mdb w)
run_env mdb set_maxdbs w = apply2 (stub_mdb_env_set_maxdbs mdb w)
run_env mdb set_mapsize w = apply2 (stub_mdb_env_set_mapsize mdb w)
run_env mdb opendir w = apply4 (stub_mdb_env_open mdb w)
run_env mdb closedir w = apply1 (stub_mdb_env_close mdb w)
run_env mdb copy w = apply3 (stub_mdb_env_copy2 mdb w)
run_env mdb copyfd w = apply3 (stub_mdb_env_copyfd2 mdb w)
run_env mdb stat w = apply1 (stub_mdb_env_stat mdb w)
run_env mdb envinfo w = apply1 (stub_mdb_env_info mdb w)
run_env mdb sync w = apply2 (stub_mdb_env_sync mdb w)
run_env mdb setclear_flags w = apply3 (stub_mdb_env_set_flags mdb w)
run_env mdb get_flags w = apply1 (stub_mdb_env_get_flags mdb w)
run_env mdb get_path w = apply1 (stub_mdb_env_get_path mdb w)
run_env mdb get_fd w = apply1 (stub_mdb_env_get_fd mdb w)
run_env mdb get_maxreaders w = apply1 (stub_mdb_env_get_maxreaders mdb w)
run_env mdb get_maxkeysize w = apply1 (stub_mdb_env_get_maxkeysize mdb w)
run_env mdb txn_begin w = apply3 (stub_mdb_txn_begin mdb w)
run_env mdb get_txn_id w = apply1 (stub_mdb_txn_id mdb w)
run_env mdb get_txn_env w = apply1 (stub_mdb_txn_env mdb w)
run_env mdb commit_txn w = apply1 (stub_mdb_txn_commit mdb w)
run_env mdb abort_txn w = apply1 (stub_mdb_txn_abort mdb w)
run_env mdb reset_ro_txn w = apply1 (stub_mdb_txn_reset mdb w)
run_env mdb renew_ro_txn w = apply1 (stub_mdb_txn_renew mdb w)
run_env mdb opendb w = apply3 (stub_mdb_dbi_open mdb w)
run_env mdb db_stat w = apply2 (stub_mdb_stat mdb w)
run_env mdb db_flags w = apply2 (stub_mdb_dbi_flags mdb w)
run_env mdb db_drop w = apply3 (stub_mdb_drop mdb w)
