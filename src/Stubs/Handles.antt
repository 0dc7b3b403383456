-- ===== src/Stubs/Handles.antt =====
-- The handles of databases in vendors/ocaml-lmdb/src/lmdb_stubs.c, which lmdb.ml takes for a nativeint.
use tezos_master_lib_p2p.Prelude.{
  ℕ, ◌<◌, ◌^◌, ◌%◌, ◌≡◌, refl, ap, ◌∙◌, bind-fails, List, length, Option, none, some, false, ◌>>=◌,
  arith,
}
use tezos_master_lib_p2p.Prelude.Int.{ℤ, pos}
use tezos_master_lib_p2p.Stubs.Value.{
  Value, immediate, custom, string, nativeint, ok_value, result_value, option_val, string_val,
  ocaml_string, dbi_val, custom_val, int_val,
}
use tezos_master_lib_p2p.Stubs.Env.{
  EnvCalls, stub_mdb_dbi_open, stub_mdb_stat, stub_mdb_dbi_flags, stub_mdb_dbi_close, caml_mdb_stat,
}
use tezos_master_lib_p2p.Stubs.Data.{
  DataCalls, stub_mdb_cursor_dbi, stub_mdb_cursor_open, stub_mdb_get, string_mdb_val,
  alloc_mdb_val_ba,
}
use tezos_master_lib_p2p.Stubs.Types.{has_type}
use tezos_master_lib_p2p.Stubs.DataExternals.{cursor_db, data_result}

module _ {W : Type 0} (env : EnvCalls W) (mdb : DataCalls W) where
  -- A handle that is an immediate integer.
  module _ (w : W) (txn key : Value) (z : ℤ) where
    get-immediate : stub_mdb_get mdb w txn (immediate z) key ≡ none
    unfolding stub_mdb_get dbi_val
    get-immediate = bind-fails (string_mdb_val key) (λ k. bind-fails (custom_val txn) (λ t. refl))

    cursor_open-immediate : stub_mdb_cursor_open mdb w txn (immediate z) ≡ none
    unfolding stub_mdb_cursor_open dbi_val
    cursor_open-immediate = bind-fails (custom_val txn) (λ t. refl)

    stat-immediate : stub_mdb_stat env w txn (immediate z) ≡ none
    unfolding stub_mdb_stat dbi_val
    stat-immediate = bind-fails (custom_val txn) (λ t. refl)

    dbi_flags-immediate : stub_mdb_dbi_flags env w txn (immediate z) ≡ none
    unfolding stub_mdb_dbi_flags dbi_val
    dbi_flags-immediate = bind-fails (custom_val txn) (λ t. refl)

    dbi_close-immediate : stub_mdb_dbi_close env w txn (immediate z) ≡ none
    unfolding stub_mdb_dbi_close dbi_val
    dbi_close-immediate = bind-fails (custom_val txn) (λ t. refl)

  -- stub_mdb_cursor_dbi calls mdb_cursor_dbi once and returns, in the state that the call leaves, the
  -- handle that it gives as an immediate integer, which is no nativeint, the type that lmdb.ml
  -- declares; stub_mdb_get, stub_mdb_cursor_open, stub_mdb_stat, stub_mdb_dbi_flags and
  -- stub_mdb_dbi_close, called with that value in that state, read it as the nativeint that it is not.
  pub cursor_dbi-unreadable :
      (w : W) (cursor : ℕ) (txn key : Value)
      → (handle : Value) × (stub_mdb_cursor_dbi mdb w (custom cursor)
          ≡ some ((mdb.cursor_dbi w cursor).0, handle))
        × (handle ≡ immediate (pos (mdb.cursor_dbi w cursor).1))
        × (has_type (data_result cursor_db) handle ≡ false)
        × (stub_mdb_get mdb (mdb.cursor_dbi w cursor).0 txn handle key ≡ none)
        × (stub_mdb_cursor_open mdb (mdb.cursor_dbi w cursor).0 txn handle ≡ none)
        × (stub_mdb_stat env (mdb.cursor_dbi w cursor).0 txn handle ≡ none)
        × (stub_mdb_dbi_flags env (mdb.cursor_dbi w cursor).0 txn handle ≡ none)
        × (stub_mdb_dbi_close env (mdb.cursor_dbi w cursor).0 txn handle ≡ none)
  unfolding stub_mdb_cursor_dbi
  cursor_dbi-unreadable w cursor txn key =
      let r = mdb.cursor_dbi w cursor in
      (
        immediate (pos r.1),
        refl,
        refl,
        refl,
        get-immediate r.0 txn key (pos r.1),
        cursor_open-immediate r.0 txn key (pos r.1),
        stat-immediate r.0 txn key (pos r.1),
        dbi_flags-immediate r.0 txn key (pos r.1),
        dbi_close-immediate r.0 txn key (pos r.1),
      )

  -- dbi_val reads back a handle of 32 bits.
  get-handle :
      (w : W) (txn dbi : ℕ) (key : List ℕ)
      → dbi < 2 ^ 32
      → stub_mdb_get mdb w (custom txn) (nativeint dbi) (string key) ≡ (
          let r = mdb.get w txn dbi (record { mv_size = length key; mv_data = ocaml_string key }) in
          some (r.0, result_value r.1 (alloc_mdb_val_ba r.2)))
  unfolding stub_mdb_get dbi_val string_mdb_val
  get-handle w txn dbi key h =
      ap
        (λ (d : ℕ).
          let r = mdb.get w txn d (record { mv_size = length key; mv_data = ocaml_string key }) in
          some (r.0, result_value r.1 (alloc_mdb_val_ba r.2)))
        {x = dbi % 2 ^ 32} {y = dbi} (omega (arith, h))

  stat-handle :
      (w : W) (txn dbi : ℕ)
      → dbi < 2 ^ 32
      → stub_mdb_stat env w (custom txn) (nativeint dbi)
        ≡ (let r = env.stat w txn dbi in some (r.0, result_value r.1 (caml_mdb_stat r.2)))
  unfolding stub_mdb_stat dbi_val
  stat-handle w txn dbi h =
      ap (λ (d : ℕ). let r = env.stat w txn d in some (r.0, result_value r.1 (caml_mdb_stat r.2)))
        {x = dbi % 2 ^ 32} {y = dbi} (omega (arith, h))

  opened_ok :
      {w' : W} {dbi : ℕ}
      → ◌≡◌ {A = Option (W × Value)}
          (some (w', result_value (pos 0) (nativeint dbi)))
          (some (w', ok_value (nativeint dbi)))
  unfolding result_value
  opened_ok = refl

  dbi_open-ok :
      (w w' : W) (txn dbi : ℕ) (name flags : Value) (db_name : Option (List ℕ)) (f : ℤ)
      → option_val string_val name ≡ some db_name
      → int_val flags ≡ some f
      → env.dbi_open w txn db_name f ≡ (w', pos 0, dbi)
      → stub_mdb_dbi_open env w (custom txn) name flags ≡ some (w', ok_value (nativeint dbi))
  unfolding stub_mdb_dbi_open
  dbi_open-ok w w' txn dbi name flags db_name f named flagged opened =
      ap
        (λ (o : Option (Option (List ℕ))). o >>= λ n. int_val flags >>= λ g.
          let r = env.dbi_open w txn n g in some (r.0, result_value r.1 (nativeint r.2)))
        named
      ∙ ap
          (λ (o : Option ℤ). o >>= λ g.
            let r = env.dbi_open w txn db_name g in some (r.0, result_value r.1 (nativeint r.2)))
          flagged
      ∙ ap (λ (r : W × ℤ × ℕ). some (r.0, result_value r.1 (nativeint r.2))) opened
      ∙ opened_ok

  -- A database that LMDB opens, its handle below 2 ^ 32, is Ok of a value, with which stub_mdb_get
  -- and stub_mdb_stat on any later state call LMDB on that database.
  pub dbi_open-handle :
      (w w' v : W) (txn t dbi : ℕ) (name flags : Value) (db_name : Option (List ℕ)) (f : ℤ)
      (key : List ℕ)
      → option_val string_val name ≡ some db_name
      → int_val flags ≡ some f
      → env.dbi_open w txn db_name f ≡ (w', pos 0, dbi)
      → dbi < 2 ^ 32
      → (handle : Value) × (stub_mdb_dbi_open env w (custom txn) name flags
          ≡ some (w', ok_value handle))
        × (stub_mdb_get mdb v (custom t) handle (string key) ≡ (
            let r = mdb.get v t dbi (record { mv_size = length key; mv_data = ocaml_string key }) in
            some (r.0, result_value r.1 (alloc_mdb_val_ba r.2))))
        × (stub_mdb_stat env v (custom t) handle
            ≡ (let r = env.stat v t dbi in some (r.0, result_value r.1 (caml_mdb_stat r.2))))
  dbi_open-handle w w' v txn t dbi name flags db_name f key named flagged opened small = (
    nativeint dbi,
    dbi_open-ok w w' txn dbi name flags db_name f named flagged opened,
    get-handle v t dbi key small,
    stat-handle v t dbi small,
  )
