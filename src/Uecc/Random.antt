-- ===== src/Uecc/Random.antt =====
-- The range of uECC_generate_random_int of uECC.c.
use tezos_master_lib_p2p.Prelude.{
  ℕ, zero, suc, ◌-◌, ◌*◌, ◌<◌, ◌≡◌, refl, sym, subst, ◌∙◌, List, true, false, length, inl, inr,
  Bool-cases, ◌==◌, ◌&&◌, Option, none, some, get_or, length-set, ◌>>>◌, word64_mod, arith,
}
use tezos_master_lib_p2p.Prelude.Bits.{bit_and-le}
use tezos_master_lib_p2p.Uecc.Vli.{is_zero, cmp, is_one, num_bits}
use tezos_master_lib_p2p.Uecc.Compare.{is_zero-value, cmp-value}
use tezos_master_lib_p2p.Uecc.Value.{set-IsWords, get_or-IsWords, value, IsWords}
use tezos_master_lib_p2p.Uecc.Keys.{mask_top, random_tries, generate_random_int, max_tries}

-- What a call gives that does not fail: words of the length of `top`, not zero and below it.
pub record IsDrawn (top r : List ℕ) : Type 0 where
  pub words : IsWords r
  pub same_length : length r ≡ length top
  pub positive : 0 < value r
  pub below : value r < value top

abbrev pub Drawn : List ℕ → Option (List ℕ) → Type 0
Drawn top none = Unit
Drawn top (some r) = IsDrawn top r

-- What a random source gives that does not fail: the words of the buffer.
abbrev pub Fills : {S : Type 0} → (S → ℕ → S × Option (List ℕ)) → Type 0
Fills {S} rng =
    (s : S) (num_words : ℕ) (ws : List ℕ)
    → (rng s (num_words * 8)).1 ≡ some ws
    → IsWords ws × (length ws ≡ num_words)

pub mask_top-IsWords :
    (num_words bits : ℕ) (ws : List ℕ)
    → IsWords ws
    → IsWords (mask_top num_words bits ws) × (length (mask_top num_words bits ws) ≡ length ws)
unfolding mask_top
mask_top-IsWords num_words bits ws h =
    let top = get_or ws (num_words - 1) 0 in
    (
      set-IsWords ws (num_words - 1) _ h (
          omega (
            arith,
            get_or-IsWords ws (num_words - 1) h,
            bit_and-le top ((word64_mod - 1) >>> (num_words * 64 - bits)),
          )),
      length-set ws (num_words - 1) _,
    )

-- The test of the loop.
test-IsDrawn :
    (top r : List ℕ)
    → IsWords top
    → IsWords r
    → length r ≡ length top
    → (is_zero r == 0 && is_one (cmp top r)) ≡ true
    → IsDrawn top r
test-IsDrawn top r ht hr same test =
    let compared = cmp-value top r ht hr (sym same) in
    let zero_test = is_zero-value r in
    record {
      words = hr;
      same_length = same;
      positive = ground (arith, rw (zero_test, compared) at test);
      below = ground (arith, rw (zero_test, compared) at test);
    }

module _ {S : Type 0} (rng : S → ℕ → S × Option (List ℕ)) (fills : Fills rng) where
  random_tries-failed :
      (tries : ℕ) (s : S) (top : List ℕ)
      → (rng s (length top * 8)).1 ≡ none
      → (random_tries rng (suc tries) s top (length top)).1 ≡ none
  unfolding random_tries
  random_tries-failed tries s top e = ground (arith, e)

  pub random_tries-kept :
      (tries : ℕ) (s : S) (top ws : List ℕ)
      → (rng s (length top * 8)).1 ≡ some ws
      → (is_zero (mask_top (length top) (num_bits top (length top)) ws) == 0
          && is_one (cmp top (mask_top (length top) (num_bits top (length top)) ws)))
        ≡ true
      → (random_tries rng (suc tries) s top (length top)).1
        ≡ some (mask_top (length top) (num_bits top (length top)) ws)
  unfolding random_tries
  random_tries-kept tries s top ws e t = ground (arith, e, t)

  pub random_tries-again :
      (tries : ℕ) (s : S) (top ws : List ℕ)
      → (rng s (length top * 8)).1 ≡ some ws
      → (is_zero (mask_top (length top) (num_bits top (length top)) ws) == 0
          && is_one (cmp top (mask_top (length top) (num_bits top (length top)) ws)))
        ≡ false
      → (random_tries rng (suc tries) s top (length top)).1
        ≡ (random_tries rng tries (rng s (length top * 8)).0 top (length top)).1
  unfolding random_tries
  random_tries-again tries s top ws e t = ground (arith, e, t)

  -- One more try before the others.
  more_tries-Drawn :
      (tries : ℕ) (s : S) (top : List ℕ) (o : Option (List ℕ))
      → (rng s (length top * 8)).1 ≡ o
      → IsWords top
      → Drawn top (random_tries rng tries (rng s (length top * 8)).0 top (length top)).1
      → Drawn top (random_tries rng (suc tries) s top (length top)).1
  more_tries-Drawn tries s top none e h rest =
      subst (Drawn top) (sym (random_tries-failed tries s top e)) tt
  more_tries-Drawn tries s top (some ws) e h rest =
      let random = mask_top (length top) (num_bits top (length top)) ws in
      let (filled, same) = fills s (length top) ws e in
      let (words, same') = mask_top-IsWords (length top) (num_bits top (length top)) ws filled in
      elim (Bool-cases (is_zero random == 0 && is_one (cmp top random))) [
        | inl t ↦
            subst (Drawn top) (sym (random_tries-kept tries s top ws e t))
              (test-IsDrawn top random h words (same' ∙ same) t)
        | inr t ↦ subst (Drawn top) (sym (random_tries-again tries s top ws e t)) rest
      ]

  random_tries-Drawn :
      (tries : ℕ) (s : S) (top : List ℕ)
      → IsWords top
      → Drawn top (random_tries rng tries s top (length top)).1
  random_tries-Drawn zero s top h = unfold random_tries in tt
  random_tries-Drawn (suc tries) s top h =
      more_tries-Drawn tries s top (rng s (length top * 8)).1 refl h
        (random_tries-Drawn tries (rng s (length top * 8)).0 top h)

  -- With a source that fills the words it is asked for or fails, what `generate_random_int` gives for
  -- a top in words, if it does not fail, is a number of the length of the top that is not zero and
  -- below it.
  pub generate_random_int-Drawn :
      (s : S) (top : List ℕ)
      → IsWords top
      → Drawn top (generate_random_int (some rng) s top (length top)).1
  unfolding generate_random_int
  generate_random_int-Drawn s top h = random_tries-Drawn max_tries s top h
