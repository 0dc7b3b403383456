-- ===== src/Stubs/Tests.antt =====
-- The stubs with calls that count, at concrete arguments.
use tezos_master_lib_p2p.Prelude.{
  ℕ, suc, ◌≡◌, refl, [], ◌∷◌, true, false, none, some, ◌>>=◌, Returns, arith,
}
use tezos_master_lib_p2p.Prelude.Int.{pos, negsuc, residue, signed}
use tezos_master_lib_p2p.Stubs.Value.{
  Value, immediate, block, field, end, string, custom, nativeint, outside, val_int, val_unit,
  ok_value, result_value, int_val, option_val,
}
use tezos_master_lib_p2p.Stubs.Env.{
  EnvCalls, Stat, EnvInfo, stub_mdb_dbi_open, stub_mdb_stat, stub_mdb_dbi_flags, stub_mdb_dbi_close,
  caml_mdb_stat,
}
use tezos_master_lib_p2p.Stubs.Data.{
  DataCalls, MdbVal, stub_mdb_cursor_dbi, stub_mdb_get, stub_mdb_cursor_open, stub_mdb_cursor_get,
  stub_mdb_cursor_get_string, alloc_mdb_val_ba,
}
use tezos_master_lib_p2p.Stubs.Handles.{cursor_dbi-unreadable, dbi_open-handle}
use tezos_master_lib_p2p.Stubs.Outcome.{outcome, checked, found, lookups-outcome}
use tezos_master_lib_p2p.Stubs.Types.{has_type, result_type, buffer_type, nativeint_type}
use tezos_master_lib_p2p.Stubs.DataExternals.{get, run_data}
use tezos_master_lib_p2p.Stubs.DataTyped.{run_data-Typed}
use tezos_master_lib_p2p.Stubs.EnvExternals.{opendb, run_env}
use tezos_master_lib_p2p.Stubs.EnvTyped.{run_env-Typed}

-- What a call finds.
abbrev entry : MdbVal
entry = record { mv_size = 3; mv_data = outside 40 }

abbrev pages : Stat
pages = record {
  psize = pos 4096;
  depth = pos 1;
  branch_pages = 0;
  leaf_pages = 1;
  overflow_pages = 0;
  entries = 2;
}

abbrev info : EnvInfo
info = record {
  mapsize = 1048576;
  last_pgno = 3;
  last_txnid = 5;
  maxreaders = pos 126;
  numreaders = pos 1;
}

-- Each call adds one to the state and gives the code 0.
abbrev env_calls : EnvCalls ℕ
env_calls = record {
  version = λ w. (w, pos 0, pos 9, pos 70);
  strerror = λ n. 111 ∷ 107 ∷ [];
  env_create = λ w. (suc w, pos 0, 1);
  env_open = λ w e p f m. (suc w, pos 0);
  env_close = λ w e. suc w;
  env_copy2 = λ w e p f. (suc w, pos 0);
  env_copyfd2 = λ w e d f. (suc w, pos 0);
  env_stat = λ w e. (suc w, pages);
  env_info = λ w e. (suc w, info);
  env_sync = λ w e f. (suc w, pos 0);
  env_set_flags = λ w e f o. (suc w, pos 0);
  env_get_flags = λ w e. (w, pos 0);
  env_get_path = λ w e. (w, 47 ∷ []);
  env_get_fd = λ w e. (w, pos 3);
  env_set_mapsize = λ w e s. (suc w, pos 0);
  env_set_maxreaders = λ w e r. (suc w, pos 0);
  env_get_maxreaders = λ w e. (w, pos 126);
  env_set_maxdbs = λ w e d. (suc w, pos 0);
  env_get_maxkeysize = λ w e. (w, pos 511);
  txn_begin = λ w e parent f. (suc w, pos 0, 2);
  txn_env = λ w t. (w, 1);
  txn_id = λ w t. (w, 5);
  txn_commit = λ w t. (suc w, pos 0);
  txn_abort = λ w t. suc w;
  txn_reset = λ w t. suc w;
  txn_renew = λ w t. (suc w, pos 0);
  dbi_open = λ w t name f. (suc w, pos 0, 7);
  stat = λ w t d. (w, pos 0, pages);
  dbi_flags = λ w t d. (w, pos 0, pos 0);
  dbi_close = λ w e d. suc w;
  drop = λ w t d f. (suc w, pos 0);
}

abbrev data_calls : DataCalls ℕ
data_calls = record {
  get = λ w t d k. (w, negsuc 30797, entry);
  put = λ w t d k v f. (suc w, pos 0);
  del = λ w t d k v. (suc w, pos 0);
  cursor_open = λ w t d. (suc w, pos 0, 9);
  cursor_close = λ w c. suc w;
  cursor_renew = λ w t c. (suc w, pos 0);
  cursor_txn = λ w c. (w, 2);
  cursor_dbi = λ w c. (w, 7);
  cursor_get = λ w c k v o. (w, pos 0, entry, entry);
  cursor_put = λ w c k v f. (suc w, pos 0);
  cursor_del = λ w c f. (suc w, pos 0);
  cursor_count = λ w c. (w, pos 0, 1);
}

cursor_dbi-unreadable_example :
    (handle : Value) × (stub_mdb_cursor_dbi data_calls 0 (custom 9) ≡ some (0, handle))
    × (handle ≡ immediate (pos 7))
    × (has_type nativeint_type handle ≡ false)
    × (stub_mdb_get data_calls 0 (custom 2) handle (string (1 ∷ [])) ≡ none)
    × (stub_mdb_cursor_open data_calls 0 (custom 2) handle ≡ none)
    × (stub_mdb_stat env_calls 0 (custom 2) handle ≡ none)
    × (stub_mdb_dbi_flags env_calls 0 (custom 2) handle ≡ none)
    × (stub_mdb_dbi_close env_calls 0 (custom 2) handle ≡ none)
cursor_dbi-unreadable_example =
    cursor_dbi-unreadable env_calls data_calls 0 9 (custom 2) (string (1 ∷ []))

dbi_open-handle_example :
    (handle : Value) × (stub_mdb_dbi_open env_calls 0 (custom 2) val_unit (val_int (pos 0))
      ≡ some (1, ok_value handle))
    × (stub_mdb_get data_calls 4 (custom 2) handle (string (1 ∷ []))
        ≡ some (4, result_value (negsuc 30797) (alloc_mdb_val_ba entry)))
    × (stub_mdb_stat env_calls 4 (custom 2) handle
        ≡ some (4, result_value (pos 0) (caml_mdb_stat pages)))
unfolding option_val int_val residue signed
dbi_open-handle_example =
    dbi_open-handle env_calls data_calls 0 1 4 2 2 7 val_unit (val_int (pos 0)) none (pos 0)
      (1 ∷ []) refl refl refl (omega arith)

lookups-outcome_example :
    ((stub_mdb_get data_calls 0 (custom 2) (nativeint 7) (string (1 ∷ [])) >>= λ r. outcome r.1)
      ≡ some (checked (negsuc 30797) (found entry)))
    × ((stub_mdb_cursor_get data_calls 0 (custom 9) val_unit val_unit (val_int (pos 8)) >>= λ r.
          outcome r.1)
        ≡ some (checked (pos 0) (block 0 (field (found entry) (field (found entry) end)))))
    × ((stub_mdb_cursor_get_string data_calls 0 (custom 9) val_unit val_unit (val_int (pos 8))
          >>= λ r. outcome r.1)
        ≡ some (checked (pos 0) (block 0 (field (found entry) (field (found entry) end)))))
unfolding int_val residue signed
lookups-outcome_example =
    lookups-outcome data_calls 0 2 7 9 (1 ∷ []) (val_int (pos 8)) (pos 8) (omega arith) refl

run_data-Typed_example :
    Returns
      (λ r. has_type (result_type buffer_type) r.1 ≡ true)
      (run_data data_calls get 0 (custom 2 ∷ nativeint 7 ∷ string (1 ∷ []) ∷ []))
run_data-Typed_example =
    run_data-Typed data_calls 0 get (custom 2 ∷ nativeint 7 ∷ string (1 ∷ []) ∷ []) refl refl

run_env-Typed_example :
    Returns
      (λ r. has_type (result_type nativeint_type) r.1 ≡ true)
      (run_env env_calls opendb 0 (custom 2 ∷ val_unit ∷ val_int (pos 0) ∷ []))
run_env-Typed_example =
    run_env-Typed env_calls 0 opendb (custom 2 ∷ val_unit ∷ val_int (pos 0) ∷ []) refl
