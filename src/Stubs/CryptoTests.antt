-- ===== src/Stubs/CryptoTests.antt =====
-- The stubs of keys and boxes with calls that count, at concrete arguments.
use tezos_master_lib_p2p.Prelude.{
  ℕ, suc, ◌+◌, ◌<◌, ◌≡◌, refl, [], ◌∷◌, false, Option, none, some, ◌⊎◌, arith, replicate,
  if◌then◌else◌, ◌==◌,
}
use tezos_master_lib_p2p.Prelude.Int.{pos}
use tezos_master_lib_p2p.Stubs.Value.{bigarray, custom, Bigarray, outside, val_int}
use tezos_master_lib_p2p.Stubs.Secp256k1.{Secp256k1, ec_pubkey_combine}
use tezos_master_lib_p2p.Stubs.Hacl.{Hacl, Sha2, ml_box_open_easy_afternm}
use tezos_master_lib_p2p.Stubs.Uecc.{Store, bool_value, compute_public_key_stub, verify_stub}
use tezos_master_lib_p2p.Stubs.Combine.{list_value, ec_pubkey_combine-drops_last}
use tezos_master_lib_p2p.Stubs.Lengths.{chunk_buffer, box_open-chunk}
use tezos_master_lib_p2p.Stubs.Refusals.{
  buffer, compute_public_key_stub-refuses, verify_stub-refuses,
}
use tezos_master_lib_p2p.Uecc.Curve.{Curve, bits_to_bytes}
use tezos_master_lib_p2p.Uecc.Points.{secp256r1}
use tezos_master_lib_p2p.Uecc.P256Order.{secp256r1-HasOrder, zeros-IsBytes}

-- Each call adds one to the state and gives 1.
abbrev secp_calls : Secp256k1 ℕ
secp_calls = record {
  context_create = λ w f. (suc w, some 1);
  context_destroy = λ w c. suc w;
  context_randomize = λ w c s. (suc w, pos 1);
  context_clone = λ w c. (suc w, some 2);
  ec_seckey_verify = λ w c s. (w, pos 1);
  ec_privkey_negate = λ w c s. (suc w, pos 1);
  ec_privkey_tweak_add = λ w c s t. (suc w, pos 1);
  ec_privkey_tweak_mul = λ w c s t. (suc w, pos 1);
  ec_pubkey_create = λ w c b s. (suc w, pos 1);
  ec_pubkey_serialize = λ w c b d k f. (suc w, d);
  ec_pubkey_parse = λ w c b k d. (suc w, pos 1);
  ec_pubkey_negate = λ w c k. (suc w, pos 1);
  ec_pubkey_tweak_add = λ w c k t. (suc w, pos 1);
  ec_pubkey_tweak_mul = λ w c k t. (suc w, pos 1);
  ec_pubkey_combine = λ w c o ks n. (suc w, pos (if n == 0 then 0 else 1));
  signature_parse_compact = λ w c b s. (suc w, pos 1);
  signature_parse_der = λ w c b s d. (suc w, pos 1);
  signature_normalize = λ w c b s. (suc w, pos 1);
  ecdsa_verify = λ w c s m k. (w, pos 1);
  ecdsa_sign = λ w c b m k. (suc w, pos 1);
  signature_serialize_der = λ w c b d s. (suc w, pos 1, d);
  signature_serialize_compact = λ w c b s. (suc w, pos 1);
  recoverable_parse_compact = λ w c b s i. (suc w, pos 1);
  sign_recoverable = λ w c b m k. (suc w, pos 1);
  recoverable_serialize_compact = λ w c b s. (suc w, pos 0);
  recoverable_convert = λ w c b s. (suc w, pos 1);
  ecdsa_recover = λ w c b s m. (suc w, pos 1);
}

abbrev key_at : ℕ → Bigarray
key_at a = record { data_val = outside a; dim = 64 }

ec_pubkey_combine-drops_last_example :
    ec_pubkey_combine secp_calls 0
      (custom 1)
      (bigarray (key_at 9))
      (list_value (key_at 5 ∷ key_at 6 ∷ []))
    ≡ some (1, val_int (pos 1))
ec_pubkey_combine-drops_last_example =
    ec_pubkey_combine-drops_last secp_calls 0 1 (key_at 9) (key_at 6) (key_at 5 ∷ [])

abbrev sha_calls : Sha2 ℕ
sha_calls = record {
  init = λ w s. suc w;
  update = λ w s d. suc w;
  update_last = λ w s d n. suc w;
  finish = λ w s h. suc w;
}

-- The state after an opened box is the length that the call was given.
abbrev hacl_calls : Hacl ℕ
hacl_calls = record {
  randombytes = λ w b n. suc w;
  hmac = λ w m k kl d dl. suc w;
  sha256 = sha_calls;
  sha512 = sha_calls;
  scalarmult = λ w p s b. suc w;
  secretbox_easy = λ w c m l n k. suc w;
  secretbox_open_detached = λ w m c a l n k. (suc w, pos 0);
  box_beforenm = λ w k p s. suc w;
  box_easy_afternm = λ w c m l n k. suc w;
  box_open_easy_afternm = λ w m c l n k. (l, pos 0);
  secret_to_public = λ w p s. suc w;
  ed25519_sign = λ w g s m l. suc w;
  ed25519_verify = λ w p m l g. (w, pos 1);
}

box_open-chunk_example :
    (len : ℕ) × (ml_box_open_easy_afternm hacl_calls 0
        (bigarray (chunk_buffer 8 5))
        (bigarray (chunk_buffer 8 5))
        (bigarray (key_at 1))
        (bigarray (key_at 2))
      ≡ some (len, val_int (pos 0)))
    × ((32 + len ≡ 5 + 16) ⊎ ((5 < 16) × (5 + 16 < len)))
box_open-chunk_example = box_open-chunk hacl_calls 0 (key_at 1) (key_at 2) 8 5 (omega arith)

abbrev curve_of : ℕ → Option Curve
curve_of n = if n == 3 then some secp256r1 else none

-- A memory of zeros: private keys of 32 bytes, and signatures of 64.
abbrev zero_memory : Store
zero_memory a = if a == 1 then replicate 32 0 else replicate 64 0

compute_public_key_stub-refuses_example :
    compute_public_key_stub {S = ℕ} none curve_of zero_memory (buffer 1 32) (buffer 2 64) (custom 3)
    ≡ some (zero_memory, bool_value false)
unfolding bits_to_bytes
compute_public_key_stub-refuses_example =
    compute_public_key_stub-refuses {S = ℕ} none curve_of secp256r1 secp256r1-HasOrder zero_memory 3
      refl 1 2 32 64 (zeros-IsBytes 32) (omega arith) refl

verify_stub-refuses_example :
    verify_stub {S = ℕ} none curve_of zero_memory
      (buffer 2 64)
      (buffer 3 32)
      (buffer 4 64)
      (custom 3)
    ≡ some (bool_value false)
verify_stub-refuses_example =
    verify_stub-refuses {S = ℕ} none curve_of secp256r1 secp256r1-HasOrder zero_memory 3 refl 2 3 4
      64 32 64 (zeros-IsBytes 32) (zeros-IsBytes 32) refl refl
