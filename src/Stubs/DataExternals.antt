-- ===== src/Stubs/DataExternals.antt =====
-- The external declarations of vendors/ocaml-lmdb/src/lmdb.ml for data and cursors; the constant
-- constructors of cursor_op are ints.
use tezos_master_lib_p2p.Prelude.{Bool, true, false, List, [], ◌∷◌, Option}
use tezos_master_lib_p2p.Stubs.Value.{Value}
use tezos_master_lib_p2p.Stubs.Types.{
  OcamlType, int_type, unit_type, string_type, buffer_type, handle_type, nativeint_type,
  option_type, result_type, pair_type,
}
use tezos_master_lib_p2p.Stubs.Apply.{apply1, apply2, apply3, apply4, apply5}
use tezos_master_lib_p2p.Stubs.Data.{
  DataCalls, stub_mdb_get, stub_mdb_put, stub_mdb_put_string, stub_mdb_del, stub_mdb_del_string,
  stub_mdb_cursor_open, stub_mdb_cursor_close, stub_mdb_cursor_renew, stub_mdb_cursor_txn,
  stub_mdb_cursor_dbi, stub_mdb_cursor_get, stub_mdb_cursor_put, stub_mdb_cursor_put_string,
  stub_mdb_cursor_del, stub_mdb_cursor_count,
}

pub data DataExternal : Type 0 where
  get : DataExternal
  put : DataExternal
  put_string : DataExternal
  del : DataExternal
  del_string : DataExternal
  opencursor : DataExternal
  cursor_close : DataExternal
  cursor_renew : DataExternal
  cursor_txn : DataExternal
  cursor_db : DataExternal
  cursor_get_op : DataExternal
  cursor_put : DataExternal
  cursor_put_string : DataExternal
  cursor_del : DataExternal
  cursor_count : DataExternal

-- The types of the parameters, and that of the result.
abbrev pub data_parameters : DataExternal → List OcamlType
data_parameters get = handle_type ∷ nativeint_type ∷ string_type ∷ []
data_parameters put = handle_type ∷ nativeint_type ∷ string_type ∷ buffer_type ∷ int_type ∷ []
data_parameters put_string =
    handle_type ∷ nativeint_type ∷ string_type ∷ string_type ∷ int_type ∷ []
data_parameters del = handle_type ∷ nativeint_type ∷ string_type ∷ option_type buffer_type ∷ []
data_parameters del_string =
    handle_type ∷ nativeint_type ∷ string_type ∷ option_type string_type ∷ []
data_parameters opencursor = handle_type ∷ nativeint_type ∷ []
data_parameters cursor_close = handle_type ∷ []
data_parameters cursor_renew = handle_type ∷ handle_type ∷ []
data_parameters cursor_txn = handle_type ∷ []
data_parameters cursor_db = handle_type ∷ []
data_parameters cursor_get_op =
    handle_type ∷ option_type string_type ∷ option_type buffer_type ∷ int_type ∷ []
data_parameters cursor_put = handle_type ∷ string_type ∷ buffer_type ∷ int_type ∷ []
data_parameters cursor_put_string = handle_type ∷ string_type ∷ string_type ∷ int_type ∷ []
data_parameters cursor_del = handle_type ∷ int_type ∷ []
data_parameters cursor_count = handle_type ∷ []

abbrev pub data_result : DataExternal → OcamlType
data_result get = result_type buffer_type
data_result put = int_type
data_result put_string = int_type
data_result del = int_type
data_result del_string = int_type
data_result opencursor = result_type handle_type
data_result cursor_close = unit_type
data_result cursor_renew = int_type
data_result cursor_txn = handle_type
data_result cursor_db = nativeint_type
data_result cursor_get_op = result_type (pair_type buffer_type buffer_type)
data_result cursor_put = int_type
data_result cursor_put_string = int_type
data_result cursor_del = int_type
data_result cursor_count = result_type int_type

-- The stub that the declaration names.
abbrev pub run_data :
    {W : Type 0} → DataCalls W → DataExternal → W → List Value → Option (W × Value)
run_data mdb get w = apply3 (stub_mdb_get mdb w)
run_data mdb put w = apply5 (stub_mdb_put mdb w)
run_data mdb put_string w = apply5 (stub_mdb_put_string mdb w)
run_data mdb del w = apply4 (stub_mdb_del mdb w)
run_data mdb del_string w = apply4 (stub_mdb_del_string mdb w)
run_data mdb opencursor w = apply2 (stub_mdb_cursor_open mdb w)
run_data mdb cursor_close w = apply1 (stub_mdb_cursor_close mdb w)
run_data mdb cursor_renew w = apply2 (stub_mdb_cursor_renew mdb w)
run_data mdb cursor_txn w = apply1 (stub_mdb_cursor_txn mdb w)
run_data mdb cursor_db w = apply1 (stub_mdb_cursor_dbi mdb w)
run_data mdb cursor_get_op w = apply4 (stub_mdb_cursor_get mdb w)
run_data mdb cursor_put w = apply4 (stub_mdb_cursor_put mdb w)
run_data mdb cursor_put_string w = apply4 (stub_mdb_cursor_put_string mdb w)
run_data mdb cursor_del w = apply2 (stub_mdb_cursor_del mdb w)
run_data mdb cursor_count w = apply1 (stub_mdb_cursor_count mdb w)

abbrev pub is_cursor_db : DataExternal → Bool
is_cursor_db cursor_db = true
is_cursor_db _ = false
