-- ===== src/Stubs/Outcome.antt =====
-- What OCaml reads from the results of vendors/ocaml-lmdb/src/lmdb_stubs.c.
use tezos_master_lib_p2p.Prelude.{
  ℕ, ◌≡◌, refl, ap, ◌∙◌, List, length, Bool, true, false, not, ◌<◌, ◌^◌, ◌%◌, arith, Option, none,
  some, ◌>>=◌, ◌⊎◌, inl, inr, if◌then◌else◌, ◌==◌,
}
use tezos_master_lib_p2p.Prelude.Int.{ℤ, pos, negsuc}
use tezos_master_lib_p2p.Stubs.Value.{
  Value, immediate, block, field, end, custom, string, nativeint, is_nonzero, result_value,
  error_value, ok_value, bigarray, option_val, int_val, dbi_val, val_unit, ocaml_string,
}
use tezos_master_lib_p2p.Stubs.Data.{
  DataCalls, MdbVal, alloc_mdb_val_ba, cursor_got, stub_mdb_get, stub_mdb_cursor_get,
  stub_mdb_cursor_get_string, string_mdb_val,
}

-- A value matched as an OCaml result: Ok has tag 0, and Error of an int tag 1.
abbrev pub error_code : Value → Option (ℤ ⊎ Value)
error_code (immediate z) = some (inl z)
error_code _ = none

abbrev pub outcome : Value → Option (ℤ ⊎ Value)
outcome (block tag (field v end)) =
    if tag == 0 then some (inr v) else if tag == 1 then error_code v else none
outcome _ = none

-- A return code that is not 0 is an error.
abbrev pub checked : ℤ → Value → ℤ ⊎ Value
checked ret v = if is_nonzero ret then inl ret else inr v

outcome-result_value : (ret : ℤ) (v : Value) → outcome (result_value ret v) ≡ some (checked ret v)
unfolding result_value
outcome-result_value (pos n) v = go (n == 0)
  where
    go :
        (b : Bool)
        → outcome (if not b then error_value (pos n) else ok_value v)
          ≡ some (if not b then inl (pos n) else inr v)
    go true = refl
    go false = refl
outcome-result_value (negsuc n) v = refl

-- The bigarray of what LMDB found.
abbrev pub found : MdbVal → Value
found v = bigarray (record { data_val = v.mv_data; dim = v.mv_size })

module _ {W : Type 0} (mdb : DataCalls W) (w : W) where
  get-outcome :
      (txn dbi : ℕ) (key : List ℕ)
      → dbi < 2 ^ 32
      → (stub_mdb_get mdb w (custom txn) (nativeint dbi) (string key) >>= λ r. outcome r.1) ≡ (
          let r = mdb.get w txn dbi (record { mv_size = length key; mv_data = ocaml_string key }) in
          some (checked r.1 (found r.2)))
  unfolding stub_mdb_get dbi_val string_mdb_val alloc_mdb_val_ba
  get-outcome txn dbi key small =
      let k : MdbVal = record { mv_size = length key; mv_data = ocaml_string key } in
      let r = mdb.get w txn (dbi % 2 ^ 32) k in
      outcome-result_value r.1 (found r.2)
      ∙ ap (λ (d : ℕ). let r = mdb.get w txn d k in some (checked r.1 (found r.2)))
          {x = dbi % 2 ^ 32} {y = dbi} (omega (arith, small))

  cursor_get-outcome :
      (cursor : ℕ) (z : ℤ)
      → (cursor_got mdb (mdb.cursor_get w cursor none none z) >>= λ r. outcome r.1) ≡ (
          let r = mdb.cursor_get w cursor none none z in
          some (checked r.1 (block 0 (field (found r.2) (field (found r.3) end)))))
  unfolding cursor_got alloc_mdb_val_ba
  cursor_get-outcome cursor z =
      let r = mdb.cursor_get w cursor none none z in
      outcome-result_value r.1 (block 0 (field (found r.2) (field (found r.3) end)))

  -- For a handle below 2 ^ 32, OCaml reads from stub_mdb_get the code of mdb_get as an error where
  -- it is not 0, and otherwise Ok of a bigarray of the size and the memory that mdb_get found. For
  -- an operation of 32 bits, it reads from stub_mdb_cursor_get and stub_mdb_cursor_get_string, with
  -- no key and no data given, the code of mdb_cursor_get or Ok of the key and the data found.
  pub lookups-outcome :
      (txn dbi cursor : ℕ) (key : List ℕ) (op : Value) (z : ℤ)
      → dbi < 2 ^ 32
      → int_val op ≡ some z
      → ((stub_mdb_get mdb w (custom txn) (nativeint dbi) (string key) >>= λ r. outcome r.1) ≡ (
          let r = mdb.get w txn dbi (record { mv_size = length key; mv_data = ocaml_string key }) in
          some (checked r.1 (found r.2))))
        × ((stub_mdb_cursor_get mdb w (custom cursor) val_unit val_unit op >>= λ r. outcome r.1) ≡ (
            let r = mdb.cursor_get w cursor none none z in
            some (checked r.1 (block 0 (field (found r.2) (field (found r.3) end))))))
        × ((stub_mdb_cursor_get_string mdb w (custom cursor) val_unit val_unit op >>= λ r.
              outcome r.1)
            ≡ (let r = mdb.cursor_get w cursor none none z in
                some (checked r.1 (block 0 (field (found r.2) (field (found r.3) end))))))
  unfolding stub_mdb_cursor_get stub_mdb_cursor_get_string option_val
  lookups-outcome txn dbi cursor key op z small operation =
      let read =
        ap
          (λ (o : Option ℤ).
            (o >>= λ n. cursor_got mdb (mdb.cursor_get w cursor none none n)) >>= λ r. outcome r.1)
          operation
        ∙ cursor_get-outcome cursor z in
      (get-outcome txn dbi key small, read, read)
