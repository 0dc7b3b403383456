-- ===== src/Stubs/EnvTyped.antt =====
-- The external declarations of environments, transactions and databases against their stubs.
use tezos_master_lib_p2p.Prelude.{List, true, ◌≡◌, Returns}
use tezos_master_lib_p2p.Stubs.Value.{Value}
use tezos_master_lib_p2p.Stubs.Types.{
  int_type, bool_type, unit_type, string_type, handle_type, nativeint_type, int64_type, option_type,
  result_type, ints_type, has_type, accepts,
}
use tezos_master_lib_p2p.Stubs.Apply.{apply1-Typed, apply2-Typed, apply3-Typed, apply4-Typed}
use tezos_master_lib_p2p.Stubs.Env.{
  EnvCalls, stub_mdb_version, stub_mdb_strerror, stub_mdb_env_create, stub_mdb_env_set_maxreaders,
  stub_mdb_env_set_maxdbs, stub_mdb_env_set_mapsize, stub_mdb_env_open, stub_mdb_env_close,
  stub_mdb_env_copy2, stub_mdb_env_copyfd2, stub_mdb_env_stat, stub_mdb_env_info, stub_mdb_env_sync,
  stub_mdb_env_set_flags, stub_mdb_env_get_flags, stub_mdb_env_get_path, stub_mdb_env_get_fd,
  stub_mdb_env_get_maxreaders, stub_mdb_env_get_maxkeysize, stub_mdb_txn_begin, stub_mdb_txn_id,
  stub_mdb_txn_env, stub_mdb_txn_commit, stub_mdb_txn_abort, stub_mdb_txn_reset, stub_mdb_txn_renew,
  stub_mdb_dbi_open, stub_mdb_stat, stub_mdb_dbi_flags, stub_mdb_drop,
}
use tezos_master_lib_p2p.Stubs.EnvExternals.{
  EnvExternal, version, strerror, create, set_maxreaders, set_maxdbs, set_mapsize, opendir,
  closedir, copy, copyfd, stat, envinfo, sync, setclear_flags, get_flags, get_path, get_fd,
  get_maxreaders, get_maxkeysize, txn_begin, get_txn_id, get_txn_env, commit_txn, abort_txn,
  reset_ro_txn, renew_ro_txn, opendb, db_stat, db_flags, db_drop, env_parameters, env_result,
  run_env,
}
use tezos_master_lib_p2p.Stubs.EnvResults.{
  version-Typed, strerror-Typed, create-Typed, set_maxreaders-Typed, set_maxdbs-Typed,
  set_mapsize-Typed, opendir-Typed, closedir-Typed, copy-Typed, copyfd-Typed, stat-Typed,
  envinfo-Typed, sync-Typed, setclear_flags-Typed, get_flags-Typed, get_path-Typed, get_fd-Typed,
  get_maxreaders-Typed, get_maxkeysize-Typed,
}
use tezos_master_lib_p2p.Stubs.TxnResults.{
  txn_begin-Typed, get_txn_id-Typed, get_txn_env-Typed, commit_txn-Typed, abort_txn-Typed,
  reset_ro_txn-Typed, renew_ro_txn-Typed, opendb-Typed, db_stat-Typed, db_flags-Typed,
  db_drop-Typed,
}

module _ {W : Type 0} (mdb : EnvCalls W) (w : W) where
  -- On arguments of the types that lmdb.ml declares, every stub of environments, transactions and
  -- databases returns a value, which has the type that lmdb.ml declares for its result.
  pub run_env-Typed :
      (e : EnvExternal) (args : List Value)
      → accepts (env_parameters e) args ≡ true
      → Returns (λ r. has_type (env_result e) r.1 ≡ true) (run_env mdb e w args)
  run_env-Typed version args h =
      apply1-Typed (ints_type 3) unit_type (stub_mdb_version mdb w) (version-Typed mdb w) args h
  run_env-Typed strerror args h =
      apply1-Typed string_type int_type (stub_mdb_strerror mdb w) (strerror-Typed mdb w) args h
  run_env-Typed create args h =
      apply1-Typed (result_type handle_type) unit_type (stub_mdb_env_create mdb w)
        (create-Typed mdb w) args h
  run_env-Typed set_maxreaders args h =
      apply2-Typed int_type handle_type int_type (stub_mdb_env_set_maxreaders mdb w)
        (set_maxreaders-Typed mdb w) args h
  run_env-Typed set_maxdbs args h =
      apply2-Typed int_type handle_type int_type (stub_mdb_env_set_maxdbs mdb w)
        (set_maxdbs-Typed mdb w) args h
  run_env-Typed set_mapsize args h =
      apply2-Typed int_type handle_type int64_type (stub_mdb_env_set_mapsize mdb w)
        (set_mapsize-Typed mdb w) args h
  run_env-Typed opendir args h =
      apply4-Typed int_type handle_type string_type int_type int_type (stub_mdb_env_open mdb w)
        (opendir-Typed mdb w) args h
  run_env-Typed closedir args h =
      apply1-Typed unit_type handle_type (stub_mdb_env_close mdb w) (closedir-Typed mdb w) args h
  run_env-Typed copy args h =
      apply3-Typed int_type handle_type string_type int_type (stub_mdb_env_copy2 mdb w)
        (copy-Typed mdb w) args h
  run_env-Typed copyfd args h =
      apply3-Typed int_type handle_type int_type int_type (stub_mdb_env_copyfd2 mdb w)
        (copyfd-Typed mdb w) args h
  run_env-Typed stat args h =
      apply1-Typed (ints_type 6) handle_type (stub_mdb_env_stat mdb w) (stat-Typed mdb w) args h
  run_env-Typed envinfo args h =
      apply1-Typed (ints_type 5) handle_type (stub_mdb_env_info mdb w) (envinfo-Typed mdb w) args h
  run_env-Typed sync args h =
      apply2-Typed int_type handle_type bool_type (stub_mdb_env_sync mdb w) (sync-Typed mdb w) args
        h
  run_env-Typed setclear_flags args h =
      apply3-Typed int_type handle_type int_type bool_type (stub_mdb_env_set_flags mdb w)
        (setclear_flags-Typed mdb w) args h
  run_env-Typed get_flags args h =
      apply1-Typed int_type handle_type (stub_mdb_env_get_flags mdb w) (get_flags-Typed mdb w) args
        h
  run_env-Typed get_path args h =
      apply1-Typed string_type handle_type (stub_mdb_env_get_path mdb w) (get_path-Typed mdb w) args
        h
  run_env-Typed get_fd args h =
      apply1-Typed int_type handle_type (stub_mdb_env_get_fd mdb w) (get_fd-Typed mdb w) args h
  run_env-Typed get_maxreaders args h =
      apply1-Typed int_type handle_type (stub_mdb_env_get_maxreaders mdb w)
        (get_maxreaders-Typed mdb w) args h
  run_env-Typed get_maxkeysize args h =
      apply1-Typed int_type handle_type (stub_mdb_env_get_maxkeysize mdb w)
        (get_maxkeysize-Typed mdb w) args h
  run_env-Typed txn_begin args h =
      apply3-Typed (result_type handle_type) handle_type int_type (option_type handle_type)
        (stub_mdb_txn_begin mdb w) (txn_begin-Typed mdb w) args h
  run_env-Typed get_txn_id args h =
      apply1-Typed int_type handle_type (stub_mdb_txn_id mdb w) (get_txn_id-Typed mdb w) args h
  run_env-Typed get_txn_env args h =
      apply1-Typed handle_type handle_type (stub_mdb_txn_env mdb w) (get_txn_env-Typed mdb w) args h
  run_env-Typed commit_txn args h =
      apply1-Typed int_type handle_type (stub_mdb_txn_commit mdb w) (commit_txn-Typed mdb w) args h
  run_env-Typed abort_txn args h =
      apply1-Typed unit_type handle_type (stub_mdb_txn_abort mdb w) (abort_txn-Typed mdb w) args h
  run_env-Typed reset_ro_txn args h =
      apply1-Typed unit_type handle_type (stub_mdb_txn_reset mdb w) (reset_ro_txn-Typed mdb w) args
        h
  run_env-Typed renew_ro_txn args h =
      apply1-Typed int_type handle_type (stub_mdb_txn_renew mdb w) (renew_ro_txn-Typed mdb w) args h
  run_env-Typed opendb args h =
      apply3-Typed (result_type nativeint_type) handle_type (option_type string_type) int_type
        (stub_mdb_dbi_open mdb w) (opendb-Typed mdb w) args h
  run_env-Typed db_stat args h =
      apply2-Typed (result_type (ints_type 6)) handle_type nativeint_type (stub_mdb_stat mdb w)
        (db_stat-Typed mdb w) args h
  run_env-Typed db_flags args h =
      apply2-Typed (result_type int_type) handle_type nativeint_type (stub_mdb_dbi_flags mdb w)
        (db_flags-Typed mdb w) args h
  run_env-Typed db_drop args h =
      apply3-Typed int_type handle_type nativeint_type bool_type (stub_mdb_drop mdb w)
        (db_drop-Typed mdb w) args h
