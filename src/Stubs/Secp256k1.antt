-- ===== src/Stubs/Secp256k1.antt =====
-- vendors/ocaml-secp256k1/src/secp256k1_wrap.c. The calls of libsecp256k1 are parameters, over a state
-- that has the memory behind the pointers; a context is a number, and `none` is NULL. A stub gives the
-- state and the value that it returns, and `none` where an argument has another shape than the C code
-- takes it for, or an array would be overrun. caml_failwith is a `failure`.
use tezos_master_lib_p2p.Prelude.{
  ℕ, zero, suc, List, [], ◌∷◌, Bool, true, false, Option, none, some, ◌>>=◌, length, ◌==◌,
  if◌then◌else◌,
}
use tezos_master_lib_p2p.Prelude.Int.{ℤ, pos}
use tezos_master_lib_p2p.Stubs.Value.{
  Value, immediate, custom, Memory, val_int, val_bool, val_unit, int_val, ba_val, custom_val,
  field0, field1, is_nonzero,
}

-- SECP256K1_EC_COMPRESSED and SECP256K1_EC_UNCOMPRESSED.
abbrev pub ec_compressed : ℕ
ec_compressed = 258

abbrev pub ec_uncompressed : ℕ
ec_uncompressed = 2

pub record Secp256k1 (W : Type 0) : Type 0 where
  pub context_create : W → ℤ → W × Option ℕ
  pub context_destroy : W → ℕ → W
  pub context_randomize : W → ℕ → Memory → W × ℤ
  pub context_clone : W → ℕ → W × Option ℕ
  pub ec_seckey_verify : W → ℕ → Memory → W × ℤ
  pub ec_privkey_negate : W → ℕ → Memory → W × ℤ
  pub ec_privkey_tweak_add : W → ℕ → Memory → Memory → W × ℤ
  pub ec_privkey_tweak_mul : W → ℕ → Memory → Memory → W × ℤ
  pub ec_pubkey_create : W → ℕ → Memory → Memory → W × ℤ
  pub ec_pubkey_serialize : W → ℕ → Memory → ℕ → Memory → ℕ → W × ℕ
  pub ec_pubkey_parse : W → ℕ → Memory → Memory → ℕ → W × ℤ
  pub ec_pubkey_negate : W → ℕ → Memory → W × ℤ
  pub ec_pubkey_tweak_add : W → ℕ → Memory → Memory → W × ℤ
  pub ec_pubkey_tweak_mul : W → ℕ → Memory → Memory → W × ℤ
  pub ec_pubkey_combine : W → ℕ → Memory → List Memory → ℕ → W × ℤ
  pub signature_parse_compact : W → ℕ → Memory → Memory → W × ℤ
  pub signature_parse_der : W → ℕ → Memory → Memory → ℕ → W × ℤ
  pub signature_normalize : W → ℕ → Memory → Memory → W × ℤ
  pub ecdsa_verify : W → ℕ → Memory → Memory → Memory → W × ℤ
  pub ecdsa_sign : W → ℕ → Memory → Memory → Memory → W × ℤ
  pub signature_serialize_der : W → ℕ → Memory → ℕ → Memory → W × ℤ × ℕ
  pub signature_serialize_compact : W → ℕ → Memory → Memory → W × ℤ
  pub recoverable_parse_compact : W → ℕ → Memory → Memory → ℤ → W × ℤ
  pub sign_recoverable : W → ℕ → Memory → Memory → Memory → W × ℤ
  pub recoverable_serialize_compact : W → ℕ → Memory → Memory → W × ℤ
  pub recoverable_convert : W → ℕ → Memory → Memory → W × ℤ
  pub ecdsa_recover : W → ℕ → Memory → Memory → Memory → W × ℤ

-- What a stub that may call caml_failwith does.
pub data Answer : Type 0 where
  value : Value → Answer
  failure : Answer

abbrev pub returning_bool : {W : Type 0} → W × ℤ → Option (W × Value)
returning_bool r = some (r.0, val_bool r.1)

-- Caml_ba_data_val.
unfoldable pub data_val : Value → Option Memory
data_val v = do b ← ba_val v; some b.data_val

-- The test Field(pks, 1) != Val_unit.
unfoldable pub is_unit : Value → Bool
is_unit (immediate z) = if is_nonzero z then false else true
is_unit _ = false

-- The loop of combine, with room for `room` pointers more.
unfoldable pub key_pointers : ℕ → Value → Option (List Memory)
key_pointers zero pks = do next ← field1 pks; if is_unit next then some [] else none
key_pointers (suc room) pks = field1 pks >>= λ next. elim (is_unit next) [
  | true ↦ some []
  | false ↦ field0 pks >>= λ v. data_val v >>= λ k. key_pointers room next >>= λ ks. some (k ∷ ks)
]

module _ {W : Type 0} (secp : Secp256k1 W) where
  -- The finalizer of a context.
  unfoldable pub context_destroy : W → Value → Option W
  context_destroy w ctx = do c ← custom_val ctx; some (secp.context_destroy w c)

  unfoldable pub context_create : W → Value → Option (W × Answer)
  context_create w flags = do
    f ← int_val flags
    let r = secp.context_create w f
    some (r.0, elim r.1 [ none ↦ failure | some ctx ↦ value (custom ctx) ])

  unfoldable pub context_clone : W → Value → Option (W × Answer)
  context_clone w ctx = do
    c ← custom_val ctx
    let r = secp.context_clone w c
    some (r.0, elim r.1 [ none ↦ failure | some new ↦ value (custom new) ])

  -- The stubs that pass a context and one, two or three pointers.
  unfoldable pub call1 : (W → ℕ → Memory → W × ℤ) → W → Value → Value → Option (W × ℤ)
  call1 call w ctx a = do c ← custom_val ctx; x ← data_val a; some (call w c x)

  unfoldable pub call2 :
      (W → ℕ → Memory → Memory → W × ℤ) → W → Value → Value → Value → Option (W × ℤ)
  call2 call w ctx a b = do c ← custom_val ctx; x ← data_val a; y ← data_val b; some (call w c x y)

  unfoldable pub call3 :
      (W → ℕ → Memory → Memory → Memory → W × ℤ)
      → W
      → Value
      → Value
      → Value
      → Value
      → Option (W × ℤ)
  call3 call w ctx a b d = do
    c ← custom_val ctx
    x ← data_val a
    y ← data_val b
    z ← data_val d
    some (call w c x y z)

  unfoldable pub context_randomize : W → Value → Value → Option (W × Value)
  context_randomize w ctx seed = call1 secp.context_randomize w ctx seed >>= returning_bool

  unfoldable pub ec_seckey_verify : W → Value → Value → Option (W × Value)
  ec_seckey_verify w ctx sk = call1 secp.ec_seckey_verify w ctx sk >>= returning_bool

  unfoldable pub ec_privkey_negate : W → Value → Value → Option (W × Value)
  ec_privkey_negate w ctx sk = call1 secp.ec_privkey_negate w ctx sk >>= λ r. some (r.0, val_unit)

  unfoldable pub ec_privkey_tweak_add : W → Value → Value → Value → Option (W × Value)
  ec_privkey_tweak_add w ctx sk tweak =
      call2 secp.ec_privkey_tweak_add w ctx sk tweak >>= returning_bool

  unfoldable pub ec_privkey_tweak_mul : W → Value → Value → Value → Option (W × Value)
  ec_privkey_tweak_mul w ctx sk tweak =
      call2 secp.ec_privkey_tweak_mul w ctx sk tweak >>= returning_bool

  unfoldable pub ec_pubkey_create : W → Value → Value → Value → Option (W × Value)
  ec_pubkey_create w ctx buf sk = call2 secp.ec_pubkey_create w ctx buf sk >>= returning_bool

  unfoldable pub ec_pubkey_serialize : W → Value → Value → Value → Option (W × Value)
  ec_pubkey_serialize w ctx buf pk = do
    b ← ba_val buf
    c ← custom_val ctx
    k ← data_val pk
    let flags = if b.dim == 33 then ec_compressed else ec_uncompressed
    let r = secp.ec_pubkey_serialize w c b.data_val b.dim k flags
    some (r.0, val_int (pos r.1))

  unfoldable pub ec_pubkey_parse : W → Value → Value → Value → Option (W × Value)
  ec_pubkey_parse w ctx buf pk = do
    c ← custom_val ctx
    x ← data_val buf
    b ← ba_val pk
    returning_bool (secp.ec_pubkey_parse w c x b.data_val b.dim)

  unfoldable pub ec_pubkey_negate : W → Value → Value → Option (W × Value)
  ec_pubkey_negate w ctx pk = call1 secp.ec_pubkey_negate w ctx pk >>= λ r. some (r.0, val_unit)

  unfoldable pub ec_pubkey_tweak_add : W → Value → Value → Value → Option (W × Value)
  ec_pubkey_tweak_add w ctx pk tweak =
      call2 secp.ec_pubkey_tweak_add w ctx pk tweak >>= returning_bool

  unfoldable pub ec_pubkey_tweak_mul : W → Value → Value → Value → Option (W × Value)
  ec_pubkey_tweak_mul w ctx pk tweak =
      call2 secp.ec_pubkey_tweak_mul w ctx pk tweak >>= returning_bool

  unfoldable pub ec_pubkey_combine : W → Value → Value → Value → Option (W × Value)
  ec_pubkey_combine w ctx out pks = do
    cpks ← key_pointers 1024 pks
    c ← custom_val ctx
    o ← data_val out
    let r = secp.ec_pubkey_combine w c o cpks (length cpks)
    some (r.0, val_int r.1)

  unfoldable pub signature_parse_compact : W → Value → Value → Value → Option (W × Value)
  signature_parse_compact w ctx buf signature =
      call2 secp.signature_parse_compact w ctx buf signature >>= returning_bool

  unfoldable pub signature_parse_der : W → Value → Value → Value → Option (W × Value)
  signature_parse_der w ctx buf signature = do
    c ← custom_val ctx
    x ← data_val buf
    b ← ba_val signature
    returning_bool (secp.signature_parse_der w c x b.data_val b.dim)

  unfoldable pub signature_normalize : W → Value → Value → Value → Option (W × Value)
  signature_normalize w ctx buf signature =
      call2 secp.signature_normalize w ctx buf signature >>= returning_bool

  unfoldable pub ecdsa_verify : W → Value → Value → Value → Value → Option (W × Value)
  ecdsa_verify w ctx pubkey msg signature =
      call3 secp.ecdsa_verify w ctx signature msg pubkey >>= returning_bool

  unfoldable pub ecdsa_sign : W → Value → Value → Value → Value → Option (W × Value)
  ecdsa_sign w ctx buf seckey msg = call3 secp.ecdsa_sign w ctx buf msg seckey >>= returning_bool

  unfoldable pub signature_serialize_der : W → Value → Value → Value → Option (W × Value)
  signature_serialize_der w ctx buf signature = do
    b ← ba_val buf
    c ← custom_val ctx
    s ← data_val signature
    let r = secp.signature_serialize_der w c b.data_val b.dim s
    some (r.0, if is_nonzero r.1 then val_int (pos r.2) else val_int r.1)

  unfoldable pub signature_serialize_compact : W → Value → Value → Value → Option (W × Value)
  signature_serialize_compact w ctx buf signature =
      call2 secp.signature_serialize_compact w ctx buf signature >>= λ r. some (r.0, val_unit)

  unfoldable pub recoverable_parse_compact : W → Value → Value → Value → Value → Option (W × Value)
  recoverable_parse_compact w ctx buf signature recid = do
    c ← custom_val ctx
    x ← data_val buf
    s ← data_val signature
    i ← int_val recid
    returning_bool (secp.recoverable_parse_compact w c x s i)

  unfoldable pub sign_recoverable : W → Value → Value → Value → Value → Option (W × Value)
  sign_recoverable w ctx buf seckey msg =
      call3 secp.sign_recoverable w ctx buf msg seckey >>= returning_bool

  -- The number is the recid that the call writes.
  unfoldable pub recoverable_serialize_compact : W → Value → Value → Value → Option (W × Value)
  recoverable_serialize_compact w ctx buf signature =
      call2 secp.recoverable_serialize_compact w ctx buf signature >>= λ r. some (r.0, val_int r.1)

  unfoldable pub recoverable_convert : W → Value → Value → Value → Option (W × Value)
  recoverable_convert w ctx buf signature =
      call2 secp.recoverable_convert w ctx buf signature >>= λ r. some (r.0, val_unit)

  unfoldable pub ecdsa_recover : W → Value → Value → Value → Value → Option (W × Value)
  ecdsa_recover w ctx buf signature msg =
      call3 secp.ecdsa_recover w ctx buf signature msg >>= returning_bool
