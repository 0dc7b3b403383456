-- ===== src/Stubs/DataTyped.antt =====
-- The external declarations of data and cursors against their stubs.
use tezos_master_lib_p2p.Prelude.{List, true, false, arith, ◌≡◌, Returns}
use tezos_master_lib_p2p.Stubs.Value.{Value}
use tezos_master_lib_p2p.Stubs.Types.{
  int_type, unit_type, string_type, buffer_type, handle_type, nativeint_type, option_type,
  result_type, pair_type, has_type, accepts,
}
use tezos_master_lib_p2p.Stubs.Apply.{
  apply1-Typed, apply2-Typed, apply3-Typed, apply4-Typed, apply5-Typed,
}
use tezos_master_lib_p2p.Stubs.Data.{
  DataCalls, stub_mdb_get, stub_mdb_put, stub_mdb_put_string, stub_mdb_del, stub_mdb_del_string,
  stub_mdb_cursor_open, stub_mdb_cursor_close, stub_mdb_cursor_renew, stub_mdb_cursor_txn,
  stub_mdb_cursor_get, stub_mdb_cursor_put, stub_mdb_cursor_put_string, stub_mdb_cursor_del,
  stub_mdb_cursor_count,
}
use tezos_master_lib_p2p.Stubs.DataExternals.{
  DataExternal, get, put, put_string, del, del_string, opencursor, cursor_close, cursor_renew,
  cursor_txn, cursor_db, cursor_get_op, cursor_put, cursor_put_string, cursor_del, cursor_count,
  data_parameters, data_result, run_data, is_cursor_db,
}
use tezos_master_lib_p2p.Stubs.DataResults.{
  get-Typed, put-Typed, put_string-Typed, del-Typed, del_string-Typed, opencursor-Typed,
  cursor_close-Typed, cursor_renew-Typed, cursor_txn-Typed, cursor_get_op-Typed, cursor_put-Typed,
  cursor_put_string-Typed, cursor_del-Typed, cursor_count-Typed,
}

module _ {W : Type 0} (mdb : DataCalls W) (w : W) where
  -- On arguments of the types that lmdb.ml declares, every stub of data and cursors but that of
  -- cursor_db returns a value, which has the type that lmdb.ml declares for its result.
  pub run_data-Typed :
      (e : DataExternal) (args : List Value)
      → is_cursor_db e ≡ false
      → accepts (data_parameters e) args ≡ true
      → Returns (λ r. has_type (data_result e) r.1 ≡ true) (run_data mdb e w args)
  run_data-Typed get args d h =
      apply3-Typed (result_type buffer_type) handle_type nativeint_type string_type
        (stub_mdb_get mdb w) (get-Typed mdb w) args h
  run_data-Typed put args d h =
      apply5-Typed int_type handle_type nativeint_type string_type buffer_type int_type
        (stub_mdb_put mdb w) (put-Typed mdb w) args h
  run_data-Typed put_string args d h =
      apply5-Typed int_type handle_type nativeint_type string_type string_type int_type
        (stub_mdb_put_string mdb w) (put_string-Typed mdb w) args h
  run_data-Typed del args d h =
      apply4-Typed int_type handle_type nativeint_type string_type (option_type buffer_type)
        (stub_mdb_del mdb w) (del-Typed mdb w) args h
  run_data-Typed del_string args d h =
      apply4-Typed int_type handle_type nativeint_type string_type (option_type string_type)
        (stub_mdb_del_string mdb w) (del_string-Typed mdb w) args h
  run_data-Typed opencursor args d h =
      apply2-Typed (result_type handle_type) handle_type nativeint_type (stub_mdb_cursor_open mdb w)
        (opencursor-Typed mdb w) args h
  run_data-Typed cursor_close args d h =
      apply1-Typed unit_type handle_type (stub_mdb_cursor_close mdb w) (cursor_close-Typed mdb w)
        args h
  run_data-Typed cursor_renew args d h =
      apply2-Typed int_type handle_type handle_type (stub_mdb_cursor_renew mdb w)
        (cursor_renew-Typed mdb w) args h
  run_data-Typed cursor_txn args d h =
      apply1-Typed handle_type handle_type (stub_mdb_cursor_txn mdb w) (cursor_txn-Typed mdb w) args
        h
  run_data-Typed cursor_db args d h = absurd (ground (arith, d))
  run_data-Typed cursor_get_op args d h =
      apply4-Typed (result_type (pair_type buffer_type buffer_type)) handle_type
        (option_type string_type) (option_type buffer_type) int_type (stub_mdb_cursor_get mdb w)
        (cursor_get_op-Typed mdb w) args h
  run_data-Typed cursor_put args d h =
      apply4-Typed int_type handle_type string_type buffer_type int_type (stub_mdb_cursor_put mdb w)
        (cursor_put-Typed mdb w) args h
  run_data-Typed cursor_put_string args d h =
      apply4-Typed int_type handle_type string_type string_type int_type
        (stub_mdb_cursor_put_string mdb w) (cursor_put_string-Typed mdb w) args h
  run_data-Typed cursor_del args d h =
      apply2-Typed int_type handle_type int_type (stub_mdb_cursor_del mdb w)
        (cursor_del-Typed mdb w) args h
  run_data-Typed cursor_count args d h =
      apply1-Typed (result_type int_type) handle_type (stub_mdb_cursor_count mdb w)
        (cursor_count-Typed mdb w) args h
