-- ===== src/Stubs/Env.antt =====
-- The environments, transactions and databases of vendors/ocaml-lmdb/src/lmdb_stubs.c. The calls of
-- LMDB are parameters, over a state of its own; handles are numbers. A stub gives the state and the
-- value that it returns, and `none` where an argument has another shape than the C code takes it for.
use tezos_master_lib_p2p.Prelude.{ℕ, List, Option, some, ◌>>=◌}
use tezos_master_lib_p2p.Prelude.Int.{ℤ}
use tezos_master_lib_p2p.Stubs.Value.{
  Value, end, field, block, string, custom, nativeint, val_int, val_long, val_unit, int_val,
  string_val, custom_val, dbi_val, int64_val, result_value, option_val,
}

-- MDB_stat and MDB_envinfo.
pub record Stat : Type 0 where
  pub psize : ℤ
  pub depth : ℤ
  pub branch_pages : ℕ
  pub leaf_pages : ℕ
  pub overflow_pages : ℕ
  pub entries : ℕ

pub record EnvInfo : Type 0 where
  pub mapsize : ℕ
  pub last_pgno : ℕ
  pub last_txnid : ℕ
  pub maxreaders : ℤ
  pub numreaders : ℤ

-- The calls of LMDB on environments, transactions and databases: the return code, and what the call
-- writes through its pointers.
pub record EnvCalls (W : Type 0) : Type 0 where
  pub version : W → W × ℤ × ℤ × ℤ
  pub strerror : ℤ → List ℕ
  pub env_create : W → W × ℤ × ℕ
  pub env_open : W → ℕ → List ℕ → ℤ → ℤ → W × ℤ
  pub env_close : W → ℕ → W
  pub env_copy2 : W → ℕ → List ℕ → ℤ → W × ℤ
  pub env_copyfd2 : W → ℕ → ℤ → ℤ → W × ℤ
  pub env_stat : W → ℕ → W × Stat
  pub env_info : W → ℕ → W × EnvInfo
  pub env_sync : W → ℕ → ℤ → W × ℤ
  pub env_set_flags : W → ℕ → ℤ → ℤ → W × ℤ
  pub env_get_flags : W → ℕ → W × ℤ
  pub env_get_path : W → ℕ → W × List ℕ
  pub env_get_fd : W → ℕ → W × ℤ
  pub env_set_mapsize : W → ℕ → ℤ → W × ℤ
  pub env_set_maxreaders : W → ℕ → ℤ → W × ℤ
  pub env_get_maxreaders : W → ℕ → W × ℤ
  pub env_set_maxdbs : W → ℕ → ℤ → W × ℤ
  pub env_get_maxkeysize : W → ℕ → W × ℤ
  pub txn_begin : W → ℕ → Option ℕ → ℤ → W × ℤ × ℕ
  pub txn_env : W → ℕ → W × ℕ
  pub txn_id : W → ℕ → W × ℕ
  pub txn_commit : W → ℕ → W × ℤ
  pub txn_abort : W → ℕ → W
  pub txn_reset : W → ℕ → W
  pub txn_renew : W → ℕ → W × ℤ
  pub dbi_open : W → ℕ → Option (List ℕ) → ℤ → W × ℤ × ℕ
  pub stat : W → ℕ → ℕ → W × ℤ × Stat
  pub dbi_flags : W → ℕ → ℕ → W × ℤ × ℤ
  pub dbi_close : W → ℕ → ℕ → W
  pub drop : W → ℕ → ℕ → ℤ → W × ℤ

-- return Val_int(ret), and Val_unit.
abbrev pub returning : {W : Type 0} → W × ℤ → Option (W × Value)
returning r = some (r.0, val_int r.1)

abbrev pub returning_unit : {W : Type 0} → W → Option (W × Value)
returning_unit w = some (w, val_unit)

-- A tuple of five or six fields.
unfoldable pub caml_mdb_stat : Stat → Value
caml_mdb_stat s = block 0 (
    field (val_int s.psize) (
      field (val_int s.depth) (
        field (val_long s.branch_pages) (
          field (val_long s.leaf_pages)
            (field (val_long s.overflow_pages) (field (val_long s.entries) end))))))

module _ {W : Type 0} (mdb : EnvCalls W) where
  unfoldable pub stub_mdb_version : W → Value → Option (W × Value)
  stub_mdb_version w u =
      let r = mdb.version w in
      some (r.0, block 0 (field (val_int r.1) (field (val_int r.2) (field (val_int r.3) end))))

  unfoldable pub stub_mdb_strerror : W → Value → Option (W × Value)
  stub_mdb_strerror w errno = do n ← int_val errno; some (w, string (mdb.strerror n))

  unfoldable pub stub_mdb_env_create : W → Value → Option (W × Value)
  stub_mdb_env_create w u = let r = mdb.env_create w in some (r.0, result_value r.1 (custom r.2))

  unfoldable pub stub_mdb_env_open : W → Value → Value → Value → Value → Option (W × Value)
  stub_mdb_env_open w env path flags mode = do
    e ← custom_val env
    p ← string_val path
    f ← int_val flags
    m ← int_val mode
    returning (mdb.env_open w e p f m)

  unfoldable pub stub_mdb_env_close : W → Value → Option (W × Value)
  stub_mdb_env_close w env = do e ← custom_val env; returning_unit (mdb.env_close w e)

  unfoldable pub stub_mdb_env_copy2 : W → Value → Value → Value → Option (W × Value)
  stub_mdb_env_copy2 w env path flags = do
    e ← custom_val env
    p ← string_val path
    f ← int_val flags
    returning (mdb.env_copy2 w e p f)

  unfoldable pub stub_mdb_env_copyfd2 : W → Value → Value → Value → Option (W × Value)
  stub_mdb_env_copyfd2 w env fd flags = do
    e ← custom_val env
    d ← int_val fd
    f ← int_val flags
    returning (mdb.env_copyfd2 w e d f)

  unfoldable pub stub_mdb_env_stat : W → Value → Option (W × Value)
  stub_mdb_env_stat w env = do
    e ← custom_val env
    let r = mdb.env_stat w e
    some (r.0, caml_mdb_stat r.1)

  unfoldable pub stub_mdb_env_info : W → Value → Option (W × Value)
  stub_mdb_env_info w env = do
    e ← custom_val env
    let r = mdb.env_info w e
    let i = r.1
    some (
      r.0,
      block 0 (
          field (val_long i.mapsize) (
            field (val_long i.last_pgno) (
              field (val_long i.last_txnid)
                (field (val_int i.maxreaders) (field (val_int i.numreaders) end))))),
    )

  unfoldable pub stub_mdb_env_sync : W → Value → Value → Option (W × Value)
  stub_mdb_env_sync w env force = do
    e ← custom_val env
    f ← int_val force
    returning (mdb.env_sync w e f)

  unfoldable pub stub_mdb_env_set_flags : W → Value → Value → Value → Option (W × Value)
  stub_mdb_env_set_flags w env flags onoff = do
    e ← custom_val env
    f ← int_val flags
    o ← int_val onoff
    returning (mdb.env_set_flags w e f o)

  unfoldable pub stub_mdb_env_get_flags : W → Value → Option (W × Value)
  stub_mdb_env_get_flags w env = do e ← custom_val env; returning (mdb.env_get_flags w e)

  unfoldable pub stub_mdb_env_get_path : W → Value → Option (W × Value)
  stub_mdb_env_get_path w env = do
    e ← custom_val env
    let r = mdb.env_get_path w e
    some (r.0, string r.1)

  unfoldable pub stub_mdb_env_get_fd : W → Value → Option (W × Value)
  stub_mdb_env_get_fd w env = do e ← custom_val env; returning (mdb.env_get_fd w e)

  unfoldable pub stub_mdb_env_set_mapsize : W → Value → Value → Option (W × Value)
  stub_mdb_env_set_mapsize w env size = do
    e ← custom_val env
    s ← int64_val size
    returning (mdb.env_set_mapsize w e s)

  unfoldable pub stub_mdb_env_set_maxreaders : W → Value → Value → Option (W × Value)
  stub_mdb_env_set_maxreaders w env readers = do
    e ← custom_val env
    r ← int_val readers
    returning (mdb.env_set_maxreaders w e r)

  unfoldable pub stub_mdb_env_get_maxreaders : W → Value → Option (W × Value)
  stub_mdb_env_get_maxreaders w env = do e ← custom_val env; returning (mdb.env_get_maxreaders w e)

  unfoldable pub stub_mdb_env_set_maxdbs : W → Value → Value → Option (W × Value)
  stub_mdb_env_set_maxdbs w env dbs = do
    e ← custom_val env
    d ← int_val dbs
    returning (mdb.env_set_maxdbs w e d)

  unfoldable pub stub_mdb_env_get_maxkeysize : W → Value → Option (W × Value)
  stub_mdb_env_get_maxkeysize w env = do e ← custom_val env; returning (mdb.env_get_maxkeysize w e)

  unfoldable pub stub_mdb_txn_begin : W → Value → Value → Value → Option (W × Value)
  stub_mdb_txn_begin w env flags parent = do
    parent_txn ← option_val custom_val parent
    e ← custom_val env
    f ← int_val flags
    let r = mdb.txn_begin w e parent_txn f
    some (r.0, result_value r.1 (custom r.2))

  unfoldable pub stub_mdb_txn_env : W → Value → Option (W × Value)
  stub_mdb_txn_env w txn = do t ← custom_val txn; let r = mdb.txn_env w t; some (r.0, custom r.1)

  unfoldable pub stub_mdb_txn_id : W → Value → Option (W × Value)
  stub_mdb_txn_id w txn = do t ← custom_val txn; let r = mdb.txn_id w t; some (r.0, val_long r.1)

  unfoldable pub stub_mdb_txn_commit : W → Value → Option (W × Value)
  stub_mdb_txn_commit w txn = do t ← custom_val txn; returning (mdb.txn_commit w t)

  unfoldable pub stub_mdb_txn_abort : W → Value → Option (W × Value)
  stub_mdb_txn_abort w txn = do t ← custom_val txn; returning_unit (mdb.txn_abort w t)

  unfoldable pub stub_mdb_txn_reset : W → Value → Option (W × Value)
  stub_mdb_txn_reset w txn = do t ← custom_val txn; returning_unit (mdb.txn_reset w t)

  unfoldable pub stub_mdb_txn_renew : W → Value → Option (W × Value)
  stub_mdb_txn_renew w txn = do t ← custom_val txn; returning (mdb.txn_renew w t)

  unfoldable pub stub_mdb_dbi_open : W → Value → Value → Value → Option (W × Value)
  stub_mdb_dbi_open w txn name flags = do
    db_name ← option_val string_val name
    t ← custom_val txn
    f ← int_val flags
    let r = mdb.dbi_open w t db_name f
    some (r.0, result_value r.1 (nativeint r.2))

  unfoldable pub stub_mdb_stat : W → Value → Value → Option (W × Value)
  stub_mdb_stat w txn dbi = do
    t ← custom_val txn
    d ← dbi_val dbi
    let r = mdb.stat w t d
    some (r.0, result_value r.1 (caml_mdb_stat r.2))

  unfoldable pub stub_mdb_dbi_flags : W → Value → Value → Option (W × Value)
  stub_mdb_dbi_flags w txn dbi = do
    t ← custom_val txn
    d ← dbi_val dbi
    let r = mdb.dbi_flags w t d
    some (r.0, result_value r.1 (val_int r.2))

  unfoldable pub stub_mdb_dbi_close : W → Value → Value → Option (W × Value)
  stub_mdb_dbi_close w env dbi = do
    e ← custom_val env
    d ← dbi_val dbi
    returning_unit (mdb.dbi_close w e d)

  unfoldable pub stub_mdb_drop : W → Value → Value → Value → Option (W × Value)
  stub_mdb_drop w txn dbi del = do
    t ← custom_val txn
    d ← dbi_val dbi
    f ← int_val del
    returning (mdb.drop w t d f)
