-- ===== src/Uecc/HmacHash.antt =====
-- The HMAC of uECC.c and the key steps of uECC_sign_deterministic, over a hash of byte strings.
use mathlib.Core.List.{append_assoc, append-nil}
use tezos_master_lib_p2p.Prelude.{
  ℕ, zero, suc, ◌-◌, ◌≡◌, refl, sym, ap, ap₂, ◌∙◌, subst, List, [], ◌∷◌, ◌++◌, map, length,
  replicate, take, bit_xor, arith,
}
use tezos_master_lib_p2p.Prelude.Slices.{take-length}
use tezos_master_lib_p2p.Uecc.Hmac.{HashContext, pad, hmac_init, hmac_update, hmac_finish, update_v}
use tezos_master_lib_p2p.Uecc.Deterministic.{Drbg, absorb, rekey}

-- The parts of a message, joined.
abbrev pub joined : List (List ℕ) → List ℕ
joined [] = []
joined (m ∷ ms) = m ++ joined ms

-- What the three calls of a hash context do: a state has taken a message, and the end of it gives the
-- hash of the message.
pub record IsHash {H : Type 0} (ctx : HashContext H) (hash : List ℕ → List ℕ)
    (Took : H → List ℕ → Type 0) : Type 0 where
  pub starts : (h : H) → Took (ctx.init_hash h) []
  pub takes : (h : H) (m m' : List ℕ) → Took h m → Took (ctx.update_hash h m') (m ++ m')
  pub finishes : (h : H) (m : List ℕ) → Took h m → (ctx.finish_hash h).1 ≡ hash m
  pub size : (m : List ℕ) → length (hash m) ≡ ctx.result_size

module _ {H : Type 0} (ctx : HashContext H) (hash : List ℕ → List ℕ) where
  -- The key, filled with zeros to a block, exclusive-or a byte.
  abbrev pub block_key : ℕ → List ℕ → List ℕ
  block_key c key = map (λ k. bit_xor k c) (key ++ replicate (ctx.block_size - ctx.result_size) 0)

  -- HMAC of RFC 2104, for keys of the size of the hash.
  abbrev pub hmac : List ℕ → List ℕ → List ℕ
  hmac key m = hash (block_key 0x5c key ++ hash (block_key 0x36 key ++ m))

pad-block_key :
    (n c : ℕ) (key : List ℕ)
    → bit_xor 0 c ≡ c
    → map (λ k. bit_xor k c) key ++ replicate n c ≡ map (λ k. bit_xor k c) (key ++ replicate n 0)
pad-block_key zero c [] e = refl
pad-block_key (suc n) c [] e = ap₂ (λ t ts. t ∷ ts) (sym e) (pad-block_key n c [] e)
pad-block_key n c (k ∷ key) e = ap (λ t. bit_xor k c ∷ t) (pad-block_key n c key e)

module _ {H : Type 0} (ctx : HashContext H) (hash : List ℕ → List ℕ) (Took : H → List ℕ → Type 0)
    (h_hash : IsHash ctx hash Took) where
  pad-key :
      (c : ℕ) (key : List ℕ)
      → bit_xor 0 c ≡ c
      → length key ≡ ctx.result_size
      → pad ctx c key ≡ block_key ctx hash c key
  unfolding pad
  pad-key c key e same =
      rw (take-length key ctx.result_size (omega (arith, same)))
        (pad-block_key (ctx.block_size - ctx.result_size) c key e)

  hmac_init-Took :
      (h : H) (key : List ℕ)
      → length key ≡ ctx.result_size
      → Took (hmac_init ctx h key) (block_key ctx hash 0x36 key)
  unfolding hmac_init
  hmac_init-Took h key same =
      subst (λ t. Took (ctx.update_hash (ctx.init_hash h) t) (block_key ctx hash 0x36 key))
        (sym (pad-key 0x36 key refl same))
        (h_hash.takes (ctx.init_hash h) [] (block_key ctx hash 0x36 key) (h_hash.starts h))

  hmac_finish-hmac :
      (h : H) (key m : List ℕ)
      → length key ≡ ctx.result_size
      → Took h (block_key ctx hash 0x36 key ++ m)
      → (hmac_finish ctx h key).1 ≡ hmac ctx hash key m
  unfolding hmac_finish
  hmac_finish-hmac h key m same took =
      let inner = h_hash.finishes h (block_key ctx hash 0x36 key ++ m) took in
      let digest = hash (block_key ctx hash 0x36 key ++ m) in
      let start = ctx.init_hash (ctx.finish_hash h).0 in
      let outer =
        h_hash.takes (ctx.update_hash start (block_key ctx hash 0x5c key))
          (block_key ctx hash 0x5c key) digest
          (h_hash.takes start [] (block_key ctx hash 0x5c key)
            (h_hash.starts (ctx.finish_hash h).0)) in
      let taken : take ctx.result_size (ctx.finish_hash h).1 ≡ digest =
        ap (λ t. take ctx.result_size t) inner
        ∙ take-length digest ctx.result_size
            (omega (arith, h_hash.size (block_key ctx hash 0x36 key ++ m))) in
      ap₂ (λ k d. (ctx.finish_hash (ctx.update_hash (ctx.update_hash start k) d)).1)
        (pad-key 0x5c key refl same) taken
      ∙ h_hash.finishes
          (ctx.update_hash (ctx.update_hash start (block_key ctx hash 0x5c key)) digest)
          (block_key ctx hash 0x5c key ++ digest) outer

  -- Of a key and a value of the size of the hash, `update_v` gives the HMAC of the value.
  pub update_v-hmac :
      (h : H) (key v : List ℕ)
      → length key ≡ ctx.result_size
      → length v ≡ ctx.result_size
      → (update_v ctx h key v).1 ≡ hmac ctx hash key v
  unfolding update_v hmac_update
  update_v-hmac h key v same same' = rw (take-length v ctx.result_size (omega (arith, same'))) (
      hmac_finish-hmac _ key v same (
        h_hash.takes (hmac_init ctx h key) (block_key ctx hash 0x36 key) v
          (hmac_init-Took h key same)))

  absorb-Took :
      (h : H) (m : List ℕ) (ms : List (List ℕ)) → Took h m → Took (absorb ctx h ms) (m ++ joined ms)
  unfolding absorb hmac_update
  absorb-Took h m [] took = subst (λ t. Took h t) (sym (append-nil m)) took
  absorb-Took h m (m' ∷ ms) took =
      subst (λ t. Took (absorb ctx (ctx.update_hash h m') ms) t) (append_assoc m m' (joined ms))
        (absorb-Took (ctx.update_hash h m') (m ++ m') ms (h_hash.takes h m m' took))

  rekey-k :
      (byte : ℕ) (suffix : List (List ℕ)) (s : Drbg H)
      → length s.k ≡ ctx.result_size
      → length s.v ≡ ctx.result_size
      → (rekey ctx byte suffix s).k ≡ hmac ctx hash s.k (s.v ++ byte ∷ joined suffix)
  unfolding rekey hmac_update
  rekey-k byte suffix s same same' =
      let first =
        h_hash.takes (hmac_init ctx s.h s.k) (block_key ctx hash 0x36 s.k) (s.v ++ byte ∷ [])
          (hmac_init-Took s.h s.k same) in
      let all = absorb-Took _ (block_key ctx hash 0x36 s.k ++ (s.v ++ byte ∷ [])) suffix first in
      let parts : (block_key ctx hash 0x36 s.k ++ (s.v ++ byte ∷ [])) ++ joined suffix
          ≡ block_key ctx hash 0x36 s.k ++ (s.v ++ byte ∷ joined suffix) =
        append_assoc (block_key ctx hash 0x36 s.k) (s.v ++ byte ∷ []) (joined suffix)
        ∙ ap (λ t. block_key ctx hash 0x36 s.k ++ t)
            (append_assoc s.v (byte ∷ []) (joined suffix)) in
      rw (take-length s.v ctx.result_size (omega (arith, same'))) (
        hmac_finish-hmac _ s.k (s.v ++ byte ∷ joined suffix) same (
          subst
            (λ t.
              Took (absorb ctx (ctx.update_hash (hmac_init ctx s.h s.k) (s.v ++ byte ∷ [])) suffix)
                t)
            parts all))

  rekey-v :
      (byte : ℕ) (suffix : List (List ℕ)) (s : Drbg H)
      → length (rekey ctx byte suffix s).k ≡ ctx.result_size
      → length s.v ≡ ctx.result_size
      → (rekey ctx byte suffix s).v ≡ hmac ctx hash (rekey ctx byte suffix s).k s.v
  unfolding rekey
  rekey-v byte suffix s size same = update_v-hmac _ _ s.v size same

  -- With a context that computes a hash, of a key and a value of the size of the hash, a key step of `uECC_sign_deterministic` gives the
  -- HMAC of the value, a byte and the parts as the key, and the HMAC of the value under that key as
  -- the value.
  pub rekey-hmac :
      (byte : ℕ) (suffix : List (List ℕ)) (s : Drbg H)
      → length s.k ≡ ctx.result_size
      → length s.v ≡ ctx.result_size
      → ((rekey ctx byte suffix s).k ≡ hmac ctx hash s.k (s.v ++ byte ∷ joined suffix))
        × ((rekey ctx byte suffix s).v
            ≡ hmac ctx hash (hmac ctx hash s.k (s.v ++ byte ∷ joined suffix)) s.v)
  rekey-hmac byte suffix s same same' =
      let key = rekey-k byte suffix s same same' in
      let size : length (rekey ctx byte suffix s).k ≡ ctx.result_size =
        ap (λ t. length t) key ∙ h_hash.size _ in
      (key, rekey-v byte suffix s size same' ∙ ap (λ t. hmac ctx hash t s.v) key)
