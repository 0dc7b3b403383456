-- ===== src/Stubs/TxnResults.antt =====
-- The stubs of transactions and databases at the types of their declarations.
use tezos_master_lib_p2p.Prelude.{◌≡◌, refl, true, some-Returns}
use tezos_master_lib_p2p.Stubs.Value.{
  Value, custom_val, dbi_val, int_val, string_val, option_val, val_long,
}
use tezos_master_lib_p2p.Stubs.Types.{
  int_type, bool_type, unit_type, string_type, handle_type, nativeint_type, option_type,
  result_type, ints_type, has_type,
}
use tezos_master_lib_p2p.Stubs.Reads.{
  int-Reads, bool-Reads, handle-Reads, nativeint-Reads, string-Reads, option-Reads,
  result_value-typed,
}
use tezos_master_lib_p2p.Stubs.Apply.{Typed, reading}
use tezos_master_lib_p2p.Stubs.Env.{
  EnvCalls, stub_mdb_txn_begin, stub_mdb_txn_id, stub_mdb_txn_env, stub_mdb_txn_commit,
  stub_mdb_txn_abort, stub_mdb_txn_reset, stub_mdb_txn_renew, stub_mdb_dbi_open, stub_mdb_stat,
  stub_mdb_dbi_flags, stub_mdb_drop, caml_mdb_stat,
}

module _ {W : Type 0} (mdb : EnvCalls W) (w : W) where
  pub txn_begin-Typed :
      (a b c : Value)
      → has_type handle_type a ≡ true
      → has_type int_type b ≡ true
      → has_type (option_type handle_type) c ≡ true
      → Typed (result_type handle_type) (stub_mdb_txn_begin mdb w a b c)
  unfolding stub_mdb_txn_begin
  txn_begin-Typed a b c ha hb hc =
      reading (option_type handle_type) (result_type handle_type) (option_val custom_val) c
        (option-Reads handle_type custom_val handle-Reads) hc
        (λ x2. reading handle_type (result_type handle_type) custom_val a handle-Reads ha (λ x0.
          reading int_type (result_type handle_type) int_val b int-Reads hb
            (λ x1. some-Returns _ (result_value-typed handle_type _ _ refl))))

  pub get_txn_id-Typed :
      (a : Value) → has_type handle_type a ≡ true → Typed int_type (stub_mdb_txn_id mdb w a)
  unfolding stub_mdb_txn_id val_long
  get_txn_id-Typed a ha =
      reading handle_type int_type custom_val a handle-Reads ha (λ x0. some-Returns _ refl)

  pub get_txn_env-Typed :
      (a : Value) → has_type handle_type a ≡ true → Typed handle_type (stub_mdb_txn_env mdb w a)
  unfolding stub_mdb_txn_env
  get_txn_env-Typed a ha =
      reading handle_type handle_type custom_val a handle-Reads ha (λ x0. some-Returns _ refl)

  pub commit_txn-Typed :
      (a : Value) → has_type handle_type a ≡ true → Typed int_type (stub_mdb_txn_commit mdb w a)
  unfolding stub_mdb_txn_commit
  commit_txn-Typed a ha =
      reading handle_type int_type custom_val a handle-Reads ha (λ x0. some-Returns _ refl)

  pub abort_txn-Typed :
      (a : Value) → has_type handle_type a ≡ true → Typed unit_type (stub_mdb_txn_abort mdb w a)
  unfolding stub_mdb_txn_abort
  abort_txn-Typed a ha =
      reading handle_type unit_type custom_val a handle-Reads ha (λ x0. some-Returns _ refl)

  pub reset_ro_txn-Typed :
      (a : Value) → has_type handle_type a ≡ true → Typed unit_type (stub_mdb_txn_reset mdb w a)
  unfolding stub_mdb_txn_reset
  reset_ro_txn-Typed a ha =
      reading handle_type unit_type custom_val a handle-Reads ha (λ x0. some-Returns _ refl)

  pub renew_ro_txn-Typed :
      (a : Value) → has_type handle_type a ≡ true → Typed int_type (stub_mdb_txn_renew mdb w a)
  unfolding stub_mdb_txn_renew
  renew_ro_txn-Typed a ha =
      reading handle_type int_type custom_val a handle-Reads ha (λ x0. some-Returns _ refl)

  pub opendb-Typed :
      (a b c : Value)
      → has_type handle_type a ≡ true
      → has_type (option_type string_type) b ≡ true
      → has_type int_type c ≡ true
      → Typed (result_type nativeint_type) (stub_mdb_dbi_open mdb w a b c)
  unfolding stub_mdb_dbi_open
  opendb-Typed a b c ha hb hc =
      reading (option_type string_type) (result_type nativeint_type) (option_val string_val) b
        (option-Reads string_type string_val string-Reads) hb
        (λ x1. reading handle_type (result_type nativeint_type) custom_val a handle-Reads ha (λ x0.
          reading int_type (result_type nativeint_type) int_val c int-Reads hc
            (λ x2. some-Returns _ (result_value-typed nativeint_type _ _ refl))))

  pub db_stat-Typed :
      (a b : Value)
      → has_type handle_type a ≡ true
      → has_type nativeint_type b ≡ true
      → Typed (result_type (ints_type 6)) (stub_mdb_stat mdb w a b)
  unfolding stub_mdb_stat caml_mdb_stat val_long
  db_stat-Typed a b ha hb =
      reading handle_type (result_type (ints_type 6)) custom_val a handle-Reads ha (λ x0.
        reading nativeint_type (result_type (ints_type 6)) dbi_val b nativeint-Reads hb
          (λ x1. some-Returns _ (result_value-typed (ints_type 6) _ _ refl)))

  pub db_flags-Typed :
      (a b : Value)
      → has_type handle_type a ≡ true
      → has_type nativeint_type b ≡ true
      → Typed (result_type int_type) (stub_mdb_dbi_flags mdb w a b)
  unfolding stub_mdb_dbi_flags
  db_flags-Typed a b ha hb =
      reading handle_type (result_type int_type) custom_val a handle-Reads ha (λ x0.
        reading nativeint_type (result_type int_type) dbi_val b nativeint-Reads hb
          (λ x1. some-Returns _ (result_value-typed int_type _ _ refl)))

  pub db_drop-Typed :
      (a b c : Value)
      → has_type handle_type a ≡ true
      → has_type nativeint_type b ≡ true
      → has_type bool_type c ≡ true
      → Typed int_type (stub_mdb_drop mdb w a b c)
  unfolding stub_mdb_drop
  db_drop-Typed a b c ha hb hc = reading handle_type int_type custom_val a handle-Reads ha (λ x0.
      reading nativeint_type int_type dbi_val b nativeint-Reads hb
        (λ x1. reading bool_type int_type int_val c bool-Reads hc (λ x2. some-Returns _ refl)))
