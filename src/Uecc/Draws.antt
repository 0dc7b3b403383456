-- ===== src/Uecc/Draws.antt =====
-- When uECC_generate_random_int of uECC.c comes to an end with a number.
use tezos_master_lib_p2p.Prelude.{
  ℕ, zero, suc, ◌*◌, ◌<◌, ◌≡◌, sym, ◌∙◌, subst, List, length, true, ◌&&◌, ◌==◌, Option, some,
  Bool-cases, inl, inr, arith,
}
use tezos_master_lib_p2p.Uecc.Value.{value, IsWords}
use tezos_master_lib_p2p.Uecc.Vli.{is_zero, cmp, is_one, num_bits}
use tezos_master_lib_p2p.Uecc.Keys.{mask_top, random_tries, generate_random_int, max_tries}
use tezos_master_lib_p2p.Uecc.Compare.{is_zero-value, cmp-value}
use tezos_master_lib_p2p.Uecc.Random.{
  Fills, IsDrawn, Drawn, generate_random_int-Drawn, mask_top-IsWords, random_tries-kept,
  random_tries-again,
}

module _ {S : Type 0} (rng : S → ℕ → S × Option (List ℕ)) (fills : Fills rng) (top : List ℕ) where
  -- The state of the source after a number of draws.
  abbrev pub after_draws : ℕ → S → S
  after_draws zero s = s
  after_draws (suc k) s = after_draws k (rng s (length top * 8)).0

  -- A draw, with the bits above those of the top cleared.
  abbrev pub masked : List ℕ → List ℕ
  masked ws = mask_top (length top) (num_bits top (length top)) ws

  -- The draw in a state is a number that is not zero and below the top.
  pub record IsGoodDraw (s : S) : Type 0 where
    pub filled : List ℕ
    pub draws : (rng s (length top * 8)).1 ≡ some filled
    pub positive : 0 < value (masked filled)
    pub below : value (masked filled) < value top

  good-accepted :
      (s : S) (good : IsGoodDraw s)
      → IsWords top
      → (is_zero (masked good.filled) == 0 && is_one (cmp top (masked good.filled))) ≡ true
  good-accepted s good h =
      let (filled, same) = fills s (length top) good.filled good.draws in
      let (words, same') =
        mask_top-IsWords (length top) (num_bits top (length top)) good.filled filled in
      let compared = cmp-value top (masked good.filled) h words (sym (same' ∙ same)) in
      let zero_test = is_zero-value (masked good.filled) in
      rw (zero_test, compared) (ground (arith, good.positive, good.below))

  -- A source that does not fail.
  abbrev pub Steady : Type 0
  Steady = (s : S) → (ws : List ℕ) × ((rng s (length top * 8)).1 ≡ some ws)

  first-Returns :
      (tries : ℕ) (s : S)
      → IsWords top
      → IsGoodDraw s
      → (r : List ℕ) × ((random_tries rng (suc tries) s top (length top)).1 ≡ some r)
  first-Returns tries s h good = (
    masked good.filled,
    random_tries-kept rng fills tries s top good.filled good.draws (good-accepted s good h),
  )

  tries-Returns :
      (k tries : ℕ) (s : S)
      → IsWords top
      → Steady
      → k < tries
      → IsGoodDraw (after_draws k s)
      → (r : List ℕ) × ((random_tries rng tries s top (length top)).1 ≡ some r)
  tries-Returns k zero s h steady enough good = absurd (omega (arith, enough))
  tries-Returns zero (suc tries) s h steady enough good = first-Returns tries s h good
  tries-Returns (suc k) (suc tries) s h steady enough good =
      let (ws, e) = steady s in
      let (r, rest) =
        tries-Returns k tries (rng s (length top * 8)).0 h steady (omega (arith, enough)) good in
      elim (Bool-cases (is_zero (masked ws) == 0 && is_one (cmp top (masked ws)))) [
        | inl t ↦ (masked ws, random_tries-kept rng fills tries s top ws e t)
        | inr t ↦ (r, random_tries-again rng fills tries s top ws e t ∙ rest)
      ]

  -- With a source that fills the words it is asked for and does not fail, generate_random_int comes
  -- to a number where one of the first 64 draws, masked, is a number that is not zero and is below
  -- the top; the number it gives is not zero and below the top.
  pub generate_random_int-Returns :
      (k : ℕ) (s : S)
      → IsWords top
      → Steady
      → k < max_tries
      → IsGoodDraw (after_draws k s)
      → (r : List ℕ) × ((generate_random_int (some rng) s top (length top)).1 ≡ some r)
        × IsDrawn top r
  generate_random_int-Returns k s h steady enough good =
      let made : (r : List ℕ) × ((generate_random_int (some rng) s top (length top)).1 ≡ some r) =
        unfold generate_random_int in tries-Returns k max_tries s h steady enough good in
      (made.0, made.1, subst (Drawn top) made.1 (generate_random_int-Drawn rng fills s top h))
