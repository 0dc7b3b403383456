-- ===== src/Uecc/Deterministic.antt =====
-- uECC_sign_deterministic of vendors/ocaml-uecc/src/uECC.c, and the calls of the curves by accessors.
-- The bytes of T are read as words of a little-endian machine.
use tezos_master_lib_p2p.Prelude.{
  ℕ, zero, suc, ◌*◌, List, [], ◌∷◌, ◌++◌, true, false, Option, none, some, ◌>>=◌, length, take,
  drop, replicate, ltb, leb, if◌then◌else◌,
}
use tezos_master_lib_p2p.Blake2b.Bytes.{load64}
use tezos_master_lib_p2p.Uecc.Curve.{Params, Curve, bits_to_words, bits_to_bytes}
use tezos_master_lib_p2p.Uecc.Keys.{mask_top, max_tries}
use tezos_master_lib_p2p.Uecc.Points.{regular_mult}
use tezos_master_lib_p2p.Uecc.Hmac.{HashContext, hmac_init, hmac_update, hmac_finish, update_v}
use tezos_master_lib_p2p.Uecc.Ecdsa.{sign_with_k}

-- num_words words of memory.
unfoldable pub words_at : ℕ → List ℕ → List ℕ
words_at zero bytes = []
words_at (suc num_words) bytes = load64 (take 8 bytes) ∷ words_at num_words (drop 8 bytes)

-- T[num_n_words - 1] &= mask >> (num_n_words * 64 - num_n_bits), where a bit is to be cleared.
unfoldable pub mask_t : Params → List ℕ → List ℕ
mask_t c t =
    let num_n_words = bits_to_words c.num_n_bits in
    if ltb c.num_n_bits (num_n_words * 64) then mask_top num_n_words c.num_n_bits t else t

-- The hash state and the buffers K and V.
pub record Drbg (H : Type 0) : Type 0 where
  pub h : H
  pub k : List ℕ
  pub v : List ℕ

module _ {H : Type 0} (ctx : HashContext H) where
  -- HMAC_update of each part.
  unfoldable pub absorb : H → List (List ℕ) → H
  absorb h [] = h
  absorb h (m ∷ ms) = absorb (hmac_update ctx h m) ms

  -- K = HMAC_K(V || byte || suffix), with the parts of the suffix as they are taken, and V = HMAC_K(V).
  unfoldable pub rekey : ℕ → List (List ℕ) → Drbg H → Drbg H
  rekey byte suffix s =
      let seeded =
        hmac_update ctx (hmac_init ctx s.h s.k) (take ctx.result_size s.v ++ byte ∷ []) in
      let key = hmac_finish ctx (absorb seeded suffix) s.k in
      let next = update_v ctx key.0 key.1 s.v in record { h = next.0; k = key.1; v = next.1 }

  -- The loop that fills T, at most `fuel` rounds of update_V.
  unfoldable pub fill_t : ℕ → ℕ → List ℕ → Drbg H → Option (List ℕ × Drbg H)
  fill_t zero size t s = none
  fill_t (suc fuel) size t s =
      let (h', v') = update_v ctx s.h s.k s.v in
      let t' = t ++ take ctx.result_size v' in
      let s' : Drbg H = record { h = h'; k = s.k; v = v' } in
      elim (leb size (length t')) [
        | true ↦ some (take size t', s')
        | false ↦ fill_t fuel size t' s'
      ]

  module _ {S : Type 0} (rng : Option (S → ℕ → S × Option (List ℕ))) (c : Curve) where
    -- The loop over tries of uECC_sign_deterministic.
    unfoldable pub deterministic_tries :
        ℕ → List ℕ → List ℕ → Drbg H → S → Option (S × Option (List ℕ))
    deterministic_tries zero private_key message_hash d s = some (s, none)
    deterministic_tries (suc tries) private_key message_hash d s =
        let num_n_words = bits_to_words c.params.num_n_bits in
        fill_t (num_n_words * 8) (num_n_words * 8) [] d >>= λ filled.
        sign_with_k rng c private_key message_hash (mask_t c.params (words_at num_n_words filled.0))
          s
        >>= λ signed. elim signed.1 [
          | some signature ↦ some (signed.0, some signature)
          | none ↦
              deterministic_tries tries private_key message_hash (rekey 0x00 [] filled.1) signed.0
        ]

    unfoldable pub sign_deterministic : List ℕ → List ℕ → H → S → Option (S × Option (List ℕ))
    sign_deterministic private_key message_hash h s =
        let seed = take c.params.num_bytes private_key ∷ message_hash ∷ [] in
        let start : Drbg H = record {
          h = h;
          k = replicate ctx.result_size 0;
          v = replicate ctx.result_size 0x01;
        } in
        deterministic_tries max_tries private_key message_hash
          (rekey 0x01 seed (rekey 0x00 seed start)) s

-- uECC_curve_num_words and the other accessors that compute.
unfoldable pub curve_num_bits : Params → ℕ
curve_num_bits c = c.num_bytes * 8

unfoldable pub curve_num_n_words : Params → ℕ
curve_num_n_words c = bits_to_words c.num_n_bits

unfoldable pub curve_num_n_bytes : Params → ℕ
curve_num_n_bytes c = bits_to_bytes c.num_n_bits

-- uECC_vli_mmod_fast and uECC_point_mult.
unfoldable pub vli_mmod_fast : Params → List ℕ → Option (List ℕ)
vli_mmod_fast c product = c.mmod_fast product

unfoldable pub vli_point_mult : Curve → List ℕ → List ℕ → Option (List ℕ)
vli_point_mult c point scalar = regular_mult c point scalar none
