-- ===== src/Stubs/Uecc.antt =====
-- vendors/ocaml-uecc/src/uecc_stubs.c, over the functions of Uecc. The store gives the bytes behind an
-- address; a call writes the first bytes of a buffer. A curve is the number of its kind. A buffer is
-- left alone where a call fails.
use tezos_master_lib_p2p.Prelude.{
  ℕ, List, Bool, true, false, Option, none, some, ◌>>=◌, ltb, ◌==◌, if◌then◌else◌, overwrite, take,
}
use tezos_master_lib_p2p.Prelude.Int.{pos}
use tezos_master_lib_p2p.Uecc.Curve.{Curve}
use tezos_master_lib_p2p.Uecc.Keys.{
  make_key, valid_public_key, compute_public_key, compress_point, decompress_point, shared_secret,
  private_key_size, public_key_size,
}
use tezos_master_lib_p2p.Uecc.Ecdsa.{sign}
use tezos_master_lib_p2p.Uecc.Verify.{verify}
use tezos_master_lib_p2p.Stubs.Value.{
  Value, immediate, custom, outside, val_int, val_unit, int_val, ba_val, custom_val,
}

abbrev pub Store : Type 0
Store = ℕ → List ℕ

-- The first bytes of a buffer written.
unfoldable pub write_buffer : Store → ℕ → List ℕ → Store
write_buffer m a bytes = λ x. if x == a then overwrite 0 bytes (m x) else m x

-- The address of a bigarray.
unfoldable pub address : Value → Option ℕ
address v = do b ← ba_val v; elim b.data_val [ outside a ↦ some a | _ ↦ none ]

-- Caml_ba_array_val(v)->dim[0].
unfoldable pub dim_val : Value → Option ℕ
dim_val v = do b ← ba_val v; some b.dim

abbrev pub bool_value : Bool → Value
bool_value b = immediate (pos (if b then 1 else 0))

-- uECC_curve_stub; another kind leaves the curve unset.
unfoldable pub curve_stub : Value → Option Value
curve_stub kind = do
  k ← int_val kind
  elim k [ pos n ↦ if ltb n 5 then some (custom n) else none | _ ↦ none ]

module _ {S : Type 0} (rng : Option (S → ℕ → S × Option (List ℕ))) (curves : ℕ → Option Curve) where
  -- Curve_val.
  unfoldable pub curve_val : Value → Option Curve
  curve_val v = custom_val v >>= curves

  unfoldable pub private_key_size_stub : Value → Option Value
  private_key_size_stub curve = do
    c ← curve_val curve
    some (val_int (pos (private_key_size c.params)))

  unfoldable pub public_key_size_stub : Value → Option Value
  public_key_size_stub curve = do
    c ← curve_val curve
    some (val_int (pos (public_key_size c.params)))

  -- The state is that of the random source.
  unfoldable pub make_key_stub : Store → S → Value → Value → Value → Option (Store × S × Value)
  make_key_stub m s pk sk curve = do
    p ← address pk
    k ← address sk
    c ← curve_val curve
    r ← make_key rng c s
    some (
      elim r.1 [ none ↦ m | some keys ↦ write_buffer (write_buffer m k keys.1) p keys.0 ],
      r.0,
      elim r.1 [ none ↦ bool_value false | some keys ↦ bool_value true ],
    )

  unfoldable pub valid_public_key_stub : Store → Value → Value → Option Value
  valid_public_key_stub m pk curve = do
    p ← address pk
    c ← curve_val curve
    valid ← valid_public_key c (m p)
    some (bool_value valid)

  unfoldable pub compute_public_key_stub : Store → Value → Value → Value → Option (Store × Value)
  compute_public_key_stub m sk pk curve = do
    k ← address sk
    p ← address pk
    c ← curve_val curve
    r ← compute_public_key c (m k)
    elim r [
      | none ↦ some (m, bool_value false)
      | some public ↦ some (write_buffer m p public, bool_value true)
    ]

  unfoldable pub compress_stub : Store → Value → Value → Value → Option (Store × Value)
  compress_stub m pk cpk curve = do
    p ← address pk
    a ← address cpk
    c ← curve_val curve
    some (write_buffer m a (compress_point c.params (m p)), val_unit)

  unfoldable pub decompress_stub : Store → Value → Value → Value → Option (Store × Value)
  decompress_stub m cpk pk curve = do
    a ← address cpk
    p ← address pk
    c ← curve_val curve
    public ← decompress_point c (m a)
    some (write_buffer m p public, val_unit)

  unfoldable pub shared_secret_stub :
      Store → S → Value → Value → Value → Value → Option (Store × S × Value)
  shared_secret_stub m s pk sk secret curve = do
    p ← address pk
    k ← address sk
    a ← address secret
    c ← curve_val curve
    r ← shared_secret rng c s (m p) (m k)
    some (
      elim r.1 [ none ↦ m | some shared ↦ write_buffer m a shared.0 ],
      r.0,
      elim r.1 [ none ↦ bool_value false | some shared ↦ bool_value shared.1 ],
    )

  unfoldable pub sign_stub : Store → S → Value → Value → Value → Value → Option (Store × S × Value)
  sign_stub m s sk msg signature curve = do
    k ← address sk
    h ← address msg
    size ← dim_val msg
    g ← address signature
    c ← curve_val curve
    r ← sign rng c (m k) (take size (m h)) s
    some (
      elim r.1 [ none ↦ m | some bytes ↦ write_buffer m g bytes ],
      r.0,
      elim r.1 [ none ↦ bool_value false | some bytes ↦ bool_value true ],
    )

  unfoldable pub verify_stub : Store → Value → Value → Value → Value → Option Value
  verify_stub m pk msg signature curve = do
    p ← address pk
    h ← address msg
    size ← dim_val msg
    g ← address signature
    c ← curve_val curve
    ok ← verify c (m p) (take size (m h)) (m g)
    some (bool_value ok)
