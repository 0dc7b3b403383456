-- ===== src/Uecc/ModSum.antt =====
-- uECC_vli_modAdd and uECC_vli_modSub: addition and subtraction modulo a number.
use native.Mathlib.Nat.{mod-eq-sub-mod, mod-eq_of_lt}
use tezos_master_lib_p2p.Prelude.{
  ℕ, zero, suc, ◌+◌, ◌-◌, ◌*◌, ◌%◌, ◌≤◌, ◌<◌, ◌≡◌, refl, ◌∙◌, List, Bool, true, false, not, ◌||◌,
  if-holds, length, ◌==◌, arith,
}
use tezos_master_lib_p2p.Uecc.Vli.{add, sub, cmp_unsafe, is_one, mod_add, mod_sub}
use tezos_master_lib_p2p.Uecc.Value.{value, weight, IsWords, value-lt-weight, weight-length}
use tezos_master_lib_p2p.Uecc.Sum.{IsSum, add-IsSum, IsDifference, sub-IsDifference}
use tezos_master_lib_p2p.Uecc.Compare.{sign_of, cmp_unsafe-value}

mod-once : (s m : ℕ) → m ≤ s → s < m + m → s % m ≡ s - m
mod-once s m h k = mod-eq-sub-mod h ∙ mod-eq_of_lt (omega arith)

-- The subtraction behind a sum that reached the modulus: `w` is the weight, `c` the carry of the
-- sum and `b` the borrow.
reduce_once :
    (c b a d w m s : ℕ)
    → c ≤ 1
    → b ≤ 1
    → a + c * w ≡ s
    → d + m ≡ a + b * w
    → a < w
    → d < w
    → m < w
    → s < m + m
    → (c ≡ 0 → m ≤ a)
    → d ≡ s % m
reduce_once zero zero a d w m s hc hb e k ha hd hm hs reached =
    omega (arith, reached refl, mod-once s m (omega (arith, reached refl)) hs)
reduce_once zero (suc zero) a d w m s hc hb e k ha hd hm hs reached =
    absurd (omega (arith, reached refl))
reduce_once (suc zero) zero a d w m s hc hb e k ha hd hm hs reached = absurd (omega arith)
reduce_once (suc zero) (suc zero) a d w m s hc hb e k ha hd hm hs reached =
    omega (arith, mod-once s m (omega arith) hs)
reduce_once (suc (suc c)) b a d w m s hc hb e k ha hd hm hs reached = absurd (omega arith)
reduce_once c (suc (suc b)) a d w m s hc hb e k ha hd hm hs reached = absurd (omega arith)

-- The addition behind a difference that borrowed.
restore :
    (c d a w m l r : ℕ)
    → c ≤ 1
    → d + r ≡ l + 1 * w
    → a + c * w ≡ d + m
    → a < w
    → d < w
    → r < m
    → a ≡ (l + m - r) % m
restore zero d a w m l r hc e k ha hd hr = absurd (omega arith)
restore (suc zero) d a w m l r hc e k ha hd hr =
    omega (arith, mod-eq_of_lt {n = l + m - r} {m = m} (omega arith))
restore (suc (suc c)) d a w m l r hc e k ha hd hr = absurd (omega arith)

-- Three arrays of one length, the operands below the modulus.
pub record IsResidues (left right modulus : List ℕ) : Type 0 where
  pub left_words : IsWords left
  pub right_words : IsWords right
  pub modulus_words : IsWords modulus
  pub same_left : length left ≡ length modulus
  pub same_right : length right ≡ length modulus
  pub left_below : value left < value modulus
  pub right_below : value right < value modulus

module _ (left right modulus : List ℕ) (h : IsResidues left right modulus) where
  total-IsSum : IsSum (value left + value right) left (add left right)
  total-IsSum = add-IsSum left right h.left_words h.right_words (omega arith)

  reduced-IsDifference :
      IsDifference (value modulus) (add left right).0 (sub (add left right).0 modulus)
  reduced-IsDifference =
      sub-IsDifference (add left right).0 modulus total-IsSum.words h.modulus_words
        (omega (arith, total-IsSum.same_length))

  compared :
      cmp_unsafe modulus (add left right).0 ≡ sign_of (value modulus) (value (add left right).0)
  compared =
      cmp_unsafe-value modulus (add left right).0 h.modulus_words total-IsSum.words
        (omega (arith, total-IsSum.same_length))

  abbrev wraps : Bool
  wraps = not ((add left right).1 == 0) || not (is_one (cmp_unsafe modulus (add left right).0))

  kept : wraps ≡ false → value (add left right).0 ≡ (value left + value right) % value modulus
  kept e = ground (
    arith,
    compared,
    total-IsSum.sum,
    mod-eq_of_lt {n = value left + value right} {m = value modulus},
  )

  weights : (weight left ≡ weight modulus) × (weight (add left right).0 ≡ weight modulus)
  weights = (
    weight-length left modulus h.same_left,
    weight-length (add left right).0 modulus (omega (arith, total-IsSum.same_length)),
  )

  reduced :
      wraps ≡ true
      → value (sub (add left right).0 modulus).0 ≡ (value left + value right) % value modulus
  reduced e =
      reduce_once (add left right).1 (sub (add left right).0 modulus).1 (value (add left right).0)
        (value (sub (add left right).0 modulus).0) (weight modulus) (value modulus)
        (value left + value right) total-IsSum.carry_bit reduced-IsDifference.borrow_bit
        (rw (← weights.0) total-IsSum.sum) (rw (← weights.1) reduced-IsDifference.difference)
        (rw (← weights.1) (value-lt-weight (add left right).0 total-IsSum.words))
        (omega (
          arith,
          value-lt-weight (sub (add left right).0 modulus).0 reduced-IsDifference.words,
          weight-length (sub (add left right).0 modulus).0 modulus
              (omega (arith, reduced-IsDifference.same_length, total-IsSum.same_length)),
        ))
        (value-lt-weight modulus h.modulus_words) (omega (arith, h.left_below, h.right_below))
        (λ none. ground (arith, compared))

  -- Of operands below the modulus, in arrays of words of one length, `mod_add` gives the residue of
  -- the sum, also where the sum overflows the words.
  pub mod_add-value :
      value (mod_add left right modulus) ≡ (value left + value right) % value modulus
  unfolding mod_add
  mod_add-value = ground (arith, kept, reduced)

  first-IsDifference : IsDifference (value right) left (sub left right)
  first-IsDifference = sub-IsDifference left right h.left_words h.right_words (omega arith)

  restored-IsSum :
      IsSum
        (value (sub left right).0 + value modulus)
        (sub left right).0
        (add (sub left right).0 modulus)
  restored-IsSum =
      add-IsSum (sub left right).0 modulus first-IsDifference.words h.modulus_words
        (omega (arith, first-IsDifference.same_length))

  difference_weight : weight (sub left right).0 ≡ weight left
  difference_weight =
      weight-length (sub left right).0 left (omega (arith, first-IsDifference.same_length))

  kept_difference :
      (sub left right).1 ≡ 0
      → value (sub left right).0 ≡ (value left + value modulus - value right) % value modulus
  kept_difference e =
      let exact = rw e at first-IsDifference.difference in
      omega (
        arith,
        exact,
        h.left_below,
        mod-once (value left + value modulus - value right) (value modulus) (omega (arith, exact))
            (omega (arith, exact, h.left_below)),
      )

  restored :
      (sub left right).1 ≡ 1
      → value (add (sub left right).0 modulus).0
        ≡ (value left + value modulus - value right) % value modulus
  restored e =
      restore (add (sub left right).0 modulus).1 (value (sub left right).0)
        (value (add (sub left right).0 modulus).0) (weight left) (value modulus) (value left)
        (value right) restored-IsSum.carry_bit (rw e at first-IsDifference.difference)
        (rw (← difference_weight) restored-IsSum.sum)
        (omega (
          arith,
          value-lt-weight (add (sub left right).0 modulus).0 restored-IsSum.words,
          weight-length (add (sub left right).0 modulus).0 left
              (omega (arith, restored-IsSum.same_length, first-IsDifference.same_length)),
        ))
        (rw (← difference_weight) (value-lt-weight (sub left right).0 first-IsDifference.words))
        h.right_below

  -- Of operands below the modulus, in arrays of words of one length, `mod_sub` gives the residue of
  -- the difference.
  pub mod_sub-value :
      value (mod_sub left right modulus)
      ≡ (value left + value modulus - value right) % value modulus
  unfolding mod_sub
  mod_sub-value = ground (arith, first-IsDifference.borrow_bit, kept_difference, restored)

  -- Words of the length of the modulus.
  abbrev Fits : List ℕ → Type 0
  Fits ws = IsWords ws × (length ws ≡ length modulus)

  pub mod_add-Fits :
      IsWords (mod_add left right modulus) × (length (mod_add left right modulus) ≡ length modulus)
  unfolding mod_add
  mod_add-Fits =
      if-holds Fits
        (not ((add left right).1 == 0) || not (is_one (cmp_unsafe modulus (add left right).0)))
        (sub (add left right).0 modulus).0 (add left right).0
        (
          reduced-IsDifference.words,
          omega (arith, reduced-IsDifference.same_length, total-IsSum.same_length),
        )
        (total-IsSum.words, omega (arith, total-IsSum.same_length))

  pub mod_sub-Fits :
      IsWords (mod_sub left right modulus) × (length (mod_sub left right modulus) ≡ length modulus)
  unfolding mod_sub
  mod_sub-Fits =
      if-holds Fits (not ((sub left right).1 == 0)) (add (sub left right).0 modulus).0
        (sub left right).0
        (
          restored-IsSum.words,
          omega (arith, restored-IsSum.same_length, first-IsDifference.same_length),
        )
        (first-IsDifference.words, omega (arith, first-IsDifference.same_length))
