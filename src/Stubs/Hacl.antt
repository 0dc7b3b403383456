-- ===== src/Stubs/Hacl.antt =====
-- vendors/ocaml-hacl/src/hacl_stubs.c. The calls of HACL are parameters, over a state that has the
-- memory behind the pointers. A length is a 64-bit word, and the lengths that the stubs lower by 32
-- wrap.
use tezos_master_lib_p2p.Prelude.{ℕ, ◌+◌, ◌-◌, Option, ◌>>=◌, u64, word64_mod}
use tezos_master_lib_p2p.Prelude.Int.{ℤ}
use tezos_master_lib_p2p.Stubs.Value.{Value, Memory, int_val, ba_val}
use tezos_master_lib_p2p.Stubs.Env.{returning, returning_unit}
use tezos_master_lib_p2p.Stubs.Secp256k1.{data_val, returning_bool}

-- dim[0] - 32 as a 64-bit word.
unfoldable pub body_length : ℕ → ℕ
body_length dim = u64 (dim + word64_mod - 32)

-- The functions of one of the two hashes.
pub record Sha2 (W : Type 0) : Type 0 where
  pub init : W → Memory → W
  pub update : W → Memory → Memory → W
  pub update_last : W → Memory → Memory → ℤ → W
  pub finish : W → Memory → Memory → W

pub record Hacl (W : Type 0) : Type 0 where
  pub randombytes : W → Memory → ℕ → W
  pub hmac : W → Memory → Memory → ℕ → Memory → ℕ → W
  pub sha256 : Sha2 W
  pub sha512 : Sha2 W
  pub scalarmult : W → Memory → Memory → Memory → W
  pub secretbox_easy : W → Memory → Memory → ℕ → Memory → Memory → W
  pub secretbox_open_detached : W → Memory → Memory → Memory → ℕ → Memory → Memory → W × ℤ
  pub box_beforenm : W → Memory → Memory → Memory → W
  pub box_easy_afternm : W → Memory → Memory → ℕ → Memory → Memory → W
  pub box_open_easy_afternm : W → Memory → Memory → ℕ → Memory → Memory → W × ℤ
  pub secret_to_public : W → Memory → Memory → W
  pub ed25519_sign : W → Memory → Memory → Memory → ℕ → W
  pub ed25519_verify : W → Memory → Memory → ℕ → Memory → W × ℤ

module _ {W : Type 0} where
  unfoldable pub ml_randombytes : Hacl W → W → Value → Option (W × Value)
  ml_randombytes hacl w buf = do
    b ← ba_val buf
    returning_unit (hacl.randombytes w b.data_val b.dim)

  unfoldable pub ml_hmac : Hacl W → W → Value → Value → Value → Option (W × Value)
  ml_hmac hacl w mac key message = do
    m ← data_val mac
    k ← ba_val key
    d ← ba_val message
    returning_unit (hacl.hmac w m k.data_val k.dim d.data_val d.dim)

  -- The four stubs of SHA2_256, and those of SHA2_512.
  unfoldable pub ml_sha2_init : Sha2 W → W → Value → Option (W × Value)
  ml_sha2_init sha w state = do s ← data_val state; returning_unit (sha.init w s)

  unfoldable pub ml_sha2_update : Sha2 W → W → Value → Value → Option (W × Value)
  ml_sha2_update sha w state message = do
    s ← data_val state
    d ← data_val message
    returning_unit (sha.update w s d)

  unfoldable pub ml_sha2_update_last : Sha2 W → W → Value → Value → Value → Option (W × Value)
  ml_sha2_update_last sha w state message datalen = do
    s ← data_val state
    d ← data_val message
    n ← int_val datalen
    returning_unit (sha.update_last w s d n)

  unfoldable pub ml_sha2_finish : Sha2 W → W → Value → Value → Option (W × Value)
  ml_sha2_finish sha w state hash = do
    s ← data_val state
    h ← data_val hash
    returning_unit (sha.finish w s h)

  unfoldable pub ml_scalarmult : Hacl W → W → Value → Value → Value → Option (W × Value)
  ml_scalarmult hacl w pk sk basepoint = do
    p ← data_val pk
    s ← data_val sk
    b ← data_val basepoint
    returning_unit (hacl.scalarmult w p s b)

  unfoldable pub ml_secretbox_easy : Hacl W → W → Value → Value → Value → Value → Option (W × Value)
  ml_secretbox_easy hacl w c m n k = do
    cp ← data_val c
    mb ← ba_val m
    np ← data_val n
    kp ← data_val k
    returning_unit (hacl.secretbox_easy w cp mb.data_val (body_length mb.dim) np kp)

  unfoldable pub ml_secretbox_open_detached :
      Hacl W → W → Value → Value → Value → Value → Value → Option (W × Value)
  ml_secretbox_open_detached hacl w m c mac n k = do
    mp ← data_val m
    cb ← ba_val c
    ap ← data_val mac
    np ← data_val n
    kp ← data_val k
    returning (hacl.secretbox_open_detached w mp cb.data_val ap (body_length cb.dim) np kp)

  unfoldable pub ml_box_beforenm : Hacl W → W → Value → Value → Value → Option (W × Value)
  ml_box_beforenm hacl w k pk sk = do
    kp ← data_val k
    p ← data_val pk
    s ← data_val sk
    returning_unit (hacl.box_beforenm w kp p s)

  unfoldable pub ml_box_easy_afternm :
      Hacl W → W → Value → Value → Value → Value → Option (W × Value)
  ml_box_easy_afternm hacl w c m n k = do
    cp ← data_val c
    mb ← ba_val m
    np ← data_val n
    kp ← data_val k
    returning_unit (hacl.box_easy_afternm w cp mb.data_val (body_length mb.dim) np kp)

  unfoldable pub ml_box_open_easy_afternm :
      Hacl W → W → Value → Value → Value → Value → Option (W × Value)
  ml_box_open_easy_afternm hacl w m c n k = do
    mp ← data_val m
    cb ← ba_val c
    np ← data_val n
    kp ← data_val k
    returning (hacl.box_open_easy_afternm w mp cb.data_val (body_length cb.dim) np kp)

  unfoldable pub ml_secret_to_public : Hacl W → W → Value → Value → Option (W × Value)
  ml_secret_to_public hacl w pk sk = do
    p ← data_val pk
    s ← data_val sk
    returning_unit (hacl.secret_to_public w p s)

  unfoldable pub ml_ed25519_sign : Hacl W → W → Value → Value → Value → Option (W × Value)
  ml_ed25519_sign hacl w signature sk m = do
    g ← data_val signature
    s ← data_val sk
    mb ← ba_val m
    returning_unit (hacl.ed25519_sign w g s mb.data_val mb.dim)

  unfoldable pub ml_ed25519_verify : Hacl W → W → Value → Value → Value → Option (W × Value)
  ml_ed25519_verify hacl w pk m signature = do
    p ← data_val pk
    mb ← ba_val m
    g ← data_val signature
    returning_bool (hacl.ed25519_verify w p mb.data_val mb.dim g)
