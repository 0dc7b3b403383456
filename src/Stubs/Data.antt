-- ===== src/Stubs/Data.antt =====
-- The keys, data and cursors of vendors/ocaml-lmdb/src/lmdb_stubs.c. The calls of LMDB are parameters.
use tezos_master_lib_p2p.Prelude.{ℕ, Option, some, ◌>>=◌, length}
use tezos_master_lib_p2p.Prelude.Int.{ℤ, pos}
use tezos_master_lib_p2p.Stubs.Value.{
  Value, end, field, block, custom, bigarray, Memory, ocaml_string, val_int, val_long, int_val,
  string_val, ba_val, custom_val, dbi_val, result_value, option_val,
}
use tezos_master_lib_p2p.Stubs.Env.{returning, returning_unit}

-- MDB_val.
pub record MdbVal : Type 0 where
  pub mv_size : ℕ
  pub mv_data : Memory

-- The calls of LMDB on keys and cursors. A key or data that a stub has not set is `none`.
pub record DataCalls (W : Type 0) : Type 0 where
  pub get : W → ℕ → ℕ → MdbVal → W × ℤ × MdbVal
  pub put : W → ℕ → ℕ → MdbVal → MdbVal → ℤ → W × ℤ
  pub del : W → ℕ → ℕ → MdbVal → Option MdbVal → W × ℤ
  pub cursor_open : W → ℕ → ℕ → W × ℤ × ℕ
  pub cursor_close : W → ℕ → W
  pub cursor_renew : W → ℕ → ℕ → W × ℤ
  pub cursor_txn : W → ℕ → W × ℕ
  pub cursor_dbi : W → ℕ → W × ℕ
  pub cursor_get : W → ℕ → Option MdbVal → Option MdbVal → ℤ → W × ℤ × MdbVal × MdbVal
  pub cursor_put : W → ℕ → MdbVal → MdbVal → ℤ → W × ℤ
  pub cursor_del : W → ℕ → ℤ → W × ℤ
  pub cursor_count : W → ℕ → W × ℤ × ℕ

-- An MDB_val of an OCaml string, and of a bigarray.
unfoldable pub string_mdb_val : Value → Option MdbVal
string_mdb_val v = do
  s ← string_val v
  some (record { mv_size = length s; mv_data = ocaml_string s })

unfoldable pub ba_mdb_val : Value → Option MdbVal
ba_mdb_val v = do b ← ba_val v; some (record { mv_size = b.dim; mv_data = b.data_val })

-- alloc_mdb_val_ba, of a pointer that is not NULL.
unfoldable pub alloc_mdb_val_ba : MdbVal → Value
alloc_mdb_val_ba v = bigarray (record { data_val = v.mv_data; dim = v.mv_size })

module _ {W : Type 0} (mdb : DataCalls W) where
  unfoldable pub stub_mdb_get : W → Value → Value → Value → Option (W × Value)
  stub_mdb_get w txn dbi key = do
    k ← string_mdb_val key
    t ← custom_val txn
    d ← dbi_val dbi
    let r = mdb.get w t d k
    some (r.0, result_value r.1 (alloc_mdb_val_ba r.2))

  unfoldable pub stub_mdb_put : W → Value → Value → Value → Value → Value → Option (W × Value)
  stub_mdb_put w txn dbi key data_value flags = do
    k ← string_mdb_val key
    v ← ba_mdb_val data_value
    t ← custom_val txn
    d ← dbi_val dbi
    f ← int_val flags
    returning (mdb.put w t d k v f)

  unfoldable pub stub_mdb_put_string :
      W → Value → Value → Value → Value → Value → Option (W × Value)
  stub_mdb_put_string w txn dbi key data_value flags = do
    k ← string_mdb_val key
    v ← string_mdb_val data_value
    t ← custom_val txn
    d ← dbi_val dbi
    f ← int_val flags
    returning (mdb.put w t d k v f)

  unfoldable pub stub_mdb_del : W → Value → Value → Value → Value → Option (W × Value)
  stub_mdb_del w txn dbi key data_value = do
    k ← string_mdb_val key
    vp ← option_val ba_mdb_val data_value
    t ← custom_val txn
    d ← dbi_val dbi
    returning (mdb.del w t d k vp)

  unfoldable pub stub_mdb_del_string : W → Value → Value → Value → Value → Option (W × Value)
  stub_mdb_del_string w txn dbi key data_value = do
    k ← string_mdb_val key
    vp ← option_val string_mdb_val data_value
    t ← custom_val txn
    d ← dbi_val dbi
    returning (mdb.del w t d k vp)

  unfoldable pub stub_mdb_cursor_open : W → Value → Value → Option (W × Value)
  stub_mdb_cursor_open w txn dbi = do
    t ← custom_val txn
    d ← dbi_val dbi
    let r = mdb.cursor_open w t d
    some (r.0, result_value r.1 (custom r.2))

  unfoldable pub stub_mdb_cursor_close : W → Value → Option (W × Value)
  stub_mdb_cursor_close w cursor = do c ← custom_val cursor; returning_unit (mdb.cursor_close w c)

  unfoldable pub stub_mdb_cursor_renew : W → Value → Value → Option (W × Value)
  stub_mdb_cursor_renew w txn cursor = do
    t ← custom_val txn
    c ← custom_val cursor
    returning (mdb.cursor_renew w t c)

  unfoldable pub stub_mdb_cursor_txn : W → Value → Option (W × Value)
  stub_mdb_cursor_txn w cursor = do
    c ← custom_val cursor
    let r = mdb.cursor_txn w c
    some (r.0, custom r.1)

  -- Val_int of the MDB_dbi.
  unfoldable pub stub_mdb_cursor_dbi : W → Value → Option (W × Value)
  stub_mdb_cursor_dbi w cursor = do
    c ← custom_val cursor
    let r = mdb.cursor_dbi w c
    some (r.0, val_int (pos r.1))

  -- The end of both cursor_get stubs.
  unfoldable pub cursor_got : W × ℤ × MdbVal × MdbVal → Option (W × Value)
  cursor_got r = some (
    r.0,
    result_value r.1 (block 0 (field (alloc_mdb_val_ba r.2) (field (alloc_mdb_val_ba r.3) end))),
  )

  unfoldable pub stub_mdb_cursor_get : W → Value → Value → Value → Value → Option (W × Value)
  stub_mdb_cursor_get w cursor key data_value op = do
    k ← option_val string_mdb_val key
    v ← option_val ba_mdb_val data_value
    c ← custom_val cursor
    o ← int_val op
    cursor_got (mdb.cursor_get w c k v o)

  unfoldable pub stub_mdb_cursor_get_string : W → Value → Value → Value → Value → Option (W × Value)
  stub_mdb_cursor_get_string w cursor key data_value op = do
    k ← option_val string_mdb_val key
    v ← option_val string_mdb_val data_value
    c ← custom_val cursor
    o ← int_val op
    cursor_got (mdb.cursor_get w c k v o)

  unfoldable pub stub_mdb_cursor_put : W → Value → Value → Value → Value → Option (W × Value)
  stub_mdb_cursor_put w cursor key data_value flags = do
    k ← string_mdb_val key
    v ← ba_mdb_val data_value
    c ← custom_val cursor
    f ← int_val flags
    returning (mdb.cursor_put w c k v f)

  unfoldable pub stub_mdb_cursor_put_string : W → Value → Value → Value → Value → Option (W × Value)
  stub_mdb_cursor_put_string w cursor key data_value flags = do
    k ← string_mdb_val key
    v ← string_mdb_val data_value
    c ← custom_val cursor
    f ← int_val flags
    returning (mdb.cursor_put w c k v f)

  unfoldable pub stub_mdb_cursor_del : W → Value → Value → Option (W × Value)
  stub_mdb_cursor_del w cursor flags = do
    c ← custom_val cursor
    f ← int_val flags
    returning (mdb.cursor_del w c f)

  unfoldable pub stub_mdb_cursor_count : W → Value → Option (W × Value)
  stub_mdb_cursor_count w cursor = do
    c ← custom_val cursor
    let r = mdb.cursor_count w c
    some (r.0, result_value r.1 (val_long r.2))
