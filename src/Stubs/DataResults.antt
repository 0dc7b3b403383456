-- ===== src/Stubs/DataResults.antt =====
-- The stubs of data and cursors, one by one, at the types of their declarations.
use tezos_master_lib_p2p.Prelude.{◌≡◌, refl, true, some-Returns}
use tezos_master_lib_p2p.Stubs.Value.{Value, custom_val, dbi_val, int_val, option_val, val_long}
use tezos_master_lib_p2p.Stubs.Types.{
  int_type, unit_type, string_type, buffer_type, handle_type, nativeint_type, option_type,
  result_type, pair_type, has_type,
}
use tezos_master_lib_p2p.Stubs.Reads.{
  int-Reads, handle-Reads, nativeint-Reads, option-Reads, string_mdb_val-Reads, ba_mdb_val-Reads,
  result_value-typed,
}
use tezos_master_lib_p2p.Stubs.Apply.{Typed, reading}
use tezos_master_lib_p2p.Stubs.Data.{
  DataCalls, string_mdb_val, ba_mdb_val, alloc_mdb_val_ba, cursor_got, stub_mdb_get, stub_mdb_put,
  stub_mdb_put_string, stub_mdb_del, stub_mdb_del_string, stub_mdb_cursor_open,
  stub_mdb_cursor_close, stub_mdb_cursor_renew, stub_mdb_cursor_txn, stub_mdb_cursor_get,
  stub_mdb_cursor_put, stub_mdb_cursor_put_string, stub_mdb_cursor_del, stub_mdb_cursor_count,
}

module _ {W : Type 0} (mdb : DataCalls W) (w : W) where
  pub get-Typed :
      (a b c : Value)
      → has_type handle_type a ≡ true
      → has_type nativeint_type b ≡ true
      → has_type string_type c ≡ true
      → Typed (result_type buffer_type) (stub_mdb_get mdb w a b c)
  unfolding stub_mdb_get alloc_mdb_val_ba
  get-Typed a b c ha hb hc =
      reading string_type (result_type buffer_type) string_mdb_val c string_mdb_val-Reads hc (λ x2.
        reading handle_type (result_type buffer_type) custom_val a handle-Reads ha (λ x0.
          reading nativeint_type (result_type buffer_type) dbi_val b nativeint-Reads hb
            (λ x1. some-Returns _ (result_value-typed buffer_type _ _ refl))))

  pub put-Typed :
      (a b c d e : Value)
      → has_type handle_type a ≡ true
      → has_type nativeint_type b ≡ true
      → has_type string_type c ≡ true
      → has_type buffer_type d ≡ true
      → has_type int_type e ≡ true
      → Typed int_type (stub_mdb_put mdb w a b c d e)
  unfolding stub_mdb_put
  put-Typed a b c d e ha hb hc hd he =
      reading string_type int_type string_mdb_val c string_mdb_val-Reads hc (λ x2.
        reading buffer_type int_type ba_mdb_val d ba_mdb_val-Reads hd (λ x3.
          reading handle_type int_type custom_val a handle-Reads ha (λ x0.
            reading nativeint_type int_type dbi_val b nativeint-Reads hb (λ x1.
              reading int_type int_type int_val e int-Reads he (λ x4. some-Returns _ refl)))))

  pub put_string-Typed :
      (a b c d e : Value)
      → has_type handle_type a ≡ true
      → has_type nativeint_type b ≡ true
      → has_type string_type c ≡ true
      → has_type string_type d ≡ true
      → has_type int_type e ≡ true
      → Typed int_type (stub_mdb_put_string mdb w a b c d e)
  unfolding stub_mdb_put_string
  put_string-Typed a b c d e ha hb hc hd he =
      reading string_type int_type string_mdb_val c string_mdb_val-Reads hc (λ x2.
        reading string_type int_type string_mdb_val d string_mdb_val-Reads hd (λ x3.
          reading handle_type int_type custom_val a handle-Reads ha (λ x0.
            reading nativeint_type int_type dbi_val b nativeint-Reads hb (λ x1.
              reading int_type int_type int_val e int-Reads he (λ x4. some-Returns _ refl)))))

  pub del-Typed :
      (a b c d : Value)
      → has_type handle_type a ≡ true
      → has_type nativeint_type b ≡ true
      → has_type string_type c ≡ true
      → has_type (option_type buffer_type) d ≡ true
      → Typed int_type (stub_mdb_del mdb w a b c d)
  unfolding stub_mdb_del
  del-Typed a b c d ha hb hc hd =
      reading string_type int_type string_mdb_val c string_mdb_val-Reads hc (λ x2.
        reading (option_type buffer_type) int_type (option_val ba_mdb_val) d
          (option-Reads buffer_type ba_mdb_val ba_mdb_val-Reads) hd
          (λ x3. reading handle_type int_type custom_val a handle-Reads ha (λ x0.
            reading nativeint_type int_type dbi_val b nativeint-Reads hb
              (λ x1. some-Returns _ refl))))

  pub del_string-Typed :
      (a b c d : Value)
      → has_type handle_type a ≡ true
      → has_type nativeint_type b ≡ true
      → has_type string_type c ≡ true
      → has_type (option_type string_type) d ≡ true
      → Typed int_type (stub_mdb_del_string mdb w a b c d)
  unfolding stub_mdb_del_string
  del_string-Typed a b c d ha hb hc hd =
      reading string_type int_type string_mdb_val c string_mdb_val-Reads hc (λ x2.
        reading (option_type string_type) int_type (option_val string_mdb_val) d
          (option-Reads string_type string_mdb_val string_mdb_val-Reads) hd
          (λ x3. reading handle_type int_type custom_val a handle-Reads ha (λ x0.
            reading nativeint_type int_type dbi_val b nativeint-Reads hb
              (λ x1. some-Returns _ refl))))

  pub opencursor-Typed :
      (a b : Value)
      → has_type handle_type a ≡ true
      → has_type nativeint_type b ≡ true
      → Typed (result_type handle_type) (stub_mdb_cursor_open mdb w a b)
  unfolding stub_mdb_cursor_open
  opencursor-Typed a b ha hb =
      reading handle_type (result_type handle_type) custom_val a handle-Reads ha (λ x0.
        reading nativeint_type (result_type handle_type) dbi_val b nativeint-Reads hb
          (λ x1. some-Returns _ (result_value-typed handle_type _ _ refl)))

  pub cursor_close-Typed :
      (a : Value) → has_type handle_type a ≡ true → Typed unit_type (stub_mdb_cursor_close mdb w a)
  unfolding stub_mdb_cursor_close
  cursor_close-Typed a ha =
      reading handle_type unit_type custom_val a handle-Reads ha (λ x0. some-Returns _ refl)

  pub cursor_renew-Typed :
      (a b : Value)
      → has_type handle_type a ≡ true
      → has_type handle_type b ≡ true
      → Typed int_type (stub_mdb_cursor_renew mdb w a b)
  unfolding stub_mdb_cursor_renew
  cursor_renew-Typed a b ha hb =
      reading handle_type int_type custom_val a handle-Reads ha (λ x0.
        reading handle_type int_type custom_val b handle-Reads hb (λ x1. some-Returns _ refl))

  pub cursor_txn-Typed :
      (a : Value) → has_type handle_type a ≡ true → Typed handle_type (stub_mdb_cursor_txn mdb w a)
  unfolding stub_mdb_cursor_txn
  cursor_txn-Typed a ha =
      reading handle_type handle_type custom_val a handle-Reads ha (λ x0. some-Returns _ refl)

  pub cursor_get_op-Typed :
      (a b c d : Value)
      → has_type handle_type a ≡ true
      → has_type (option_type string_type) b ≡ true
      → has_type (option_type buffer_type) c ≡ true
      → has_type int_type d ≡ true
      → Typed (result_type (pair_type buffer_type buffer_type)) (stub_mdb_cursor_get mdb w a b c d)
  unfolding stub_mdb_cursor_get cursor_got alloc_mdb_val_ba
  cursor_get_op-Typed a b c d ha hb hc hd =
      reading (option_type string_type) (result_type (pair_type buffer_type buffer_type))
        (option_val string_mdb_val) b (option-Reads string_type string_mdb_val string_mdb_val-Reads)
        hb
        (λ x1.
          reading (option_type buffer_type) (result_type (pair_type buffer_type buffer_type))
            (option_val ba_mdb_val) c (option-Reads buffer_type ba_mdb_val ba_mdb_val-Reads) hc
            (λ x2.
              reading handle_type (result_type (pair_type buffer_type buffer_type)) custom_val a
                handle-Reads ha
                (λ x0.
                  reading int_type (result_type (pair_type buffer_type buffer_type)) int_val d
                    int-Reads hd
                    (λ x3.
                      some-Returns _
                        (result_value-typed (pair_type buffer_type buffer_type) _ _ refl)))))

  pub cursor_put-Typed :
      (a b c d : Value)
      → has_type handle_type a ≡ true
      → has_type string_type b ≡ true
      → has_type buffer_type c ≡ true
      → has_type int_type d ≡ true
      → Typed int_type (stub_mdb_cursor_put mdb w a b c d)
  unfolding stub_mdb_cursor_put
  cursor_put-Typed a b c d ha hb hc hd =
      reading string_type int_type string_mdb_val b string_mdb_val-Reads hb (λ x1.
        reading buffer_type int_type ba_mdb_val c ba_mdb_val-Reads hc (λ x2.
          reading handle_type int_type custom_val a handle-Reads ha
            (λ x0. reading int_type int_type int_val d int-Reads hd (λ x3. some-Returns _ refl))))

  pub cursor_put_string-Typed :
      (a b c d : Value)
      → has_type handle_type a ≡ true
      → has_type string_type b ≡ true
      → has_type string_type c ≡ true
      → has_type int_type d ≡ true
      → Typed int_type (stub_mdb_cursor_put_string mdb w a b c d)
  unfolding stub_mdb_cursor_put_string
  cursor_put_string-Typed a b c d ha hb hc hd =
      reading string_type int_type string_mdb_val b string_mdb_val-Reads hb (λ x1.
        reading string_type int_type string_mdb_val c string_mdb_val-Reads hc (λ x2.
          reading handle_type int_type custom_val a handle-Reads ha
            (λ x0. reading int_type int_type int_val d int-Reads hd (λ x3. some-Returns _ refl))))

  pub cursor_del-Typed :
      (a b : Value)
      → has_type handle_type a ≡ true
      → has_type int_type b ≡ true
      → Typed int_type (stub_mdb_cursor_del mdb w a b)
  unfolding stub_mdb_cursor_del
  cursor_del-Typed a b ha hb =
      reading handle_type int_type custom_val a handle-Reads ha
        (λ x0. reading int_type int_type int_val b int-Reads hb (λ x1. some-Returns _ refl))

  pub cursor_count-Typed :
      (a : Value)
      → has_type handle_type a ≡ true
      → Typed (result_type int_type) (stub_mdb_cursor_count mdb w a)
  unfolding stub_mdb_cursor_count val_long
  cursor_count-Typed a ha =
      reading handle_type (result_type int_type) custom_val a handle-Reads ha
        (λ x0. some-Returns _ (result_value-typed int_type _ _ refl))
