-- ===== src/Uecc/Align.antt =====
-- The shifts of the modulus in uECC_vli_mmod of uECC.c.
use native.Mathlib.Nat.{mul-le-mul_right, lt_of_mul-lt-mul_left, mod-lt, div-add-mod}
use tezos_master_lib_p2p.Prelude.{
  ℕ, zero, suc, ◌+◌, ◌-◌, ◌*◌, ◌/◌, ◌%◌, ◌^◌, ◌≤◌, ◌<◌, ◌≡◌, refl, sym, ap, ◌∙◌, List, [], ◌∷◌,
  ◌++◌, length, length-append, length-replicate, get_or, take, drop, take-append-drop, length-take,
  inl, inr, Bool-cases, replicate, ltb, if◌then◌else◌, bit_or, u64, word64_mod, arith,
}
use tezos_master_lib_p2p.Prelude.Bits.{bit_or-high_low, bit_or-zero}
use tezos_master_lib_p2p.Prelude.Powers.{two-pow-add, two-pow-pos, two-pow-word}
use tezos_master_lib_p2p.Uecc.Vli.{clear, set_words, rshift1, rshift1_from}
use tezos_master_lib_p2p.Uecc.Mmod.{shift_words, align, or_last, halve}
use tezos_master_lib_p2p.Uecc.Value.{
  value, weight, IsWords, value-append, IsWords-append, value-clear, clear-IsWords, weight-power,
}

-- A word shifted left: what stays in it, and what goes to the next.
shift_word :
    (b w : ℕ)
    → b ≤ 64
    → w < word64_mod
    → (u64 (w * 2 ^ b) ≡ w % 2 ^ (64 - b) * 2 ^ b)
      × (w * 2 ^ b ≡ w % 2 ^ (64 - b) * 2 ^ b + word64_mod * (w / 2 ^ (64 - b)))
      × (w / 2 ^ (64 - b) < 2 ^ b)
shift_word b w hb hw =
    let split = two-pow-word (64 - b) b (omega arith) in
    let positive = two-pow-pos (64 - b) in
    let parts = div-add-mod w (2 ^ (64 - b)) in
    let low = mod-lt w positive in
    let fits = mul-le-mul_right (2 ^ b) low in
    let whole : w * 2 ^ b ≡ w % 2 ^ (64 - b) * 2 ^ b + word64_mod * (w / 2 ^ (64 - b)) =
      omega (arith, ap (λ (t : ℕ). t * 2 ^ b) parts, ap (λ (t : ℕ). w / 2 ^ (64 - b) * t) split) in
    (
      omega (arith, whole, fits, split, two-pow-pos b),
      whole,
      lt_of_mul-lt-mul_left (2 ^ (64 - b)) (omega (arith, parts, split)),
    )

-- The words shifted left, with what is lost at the top.
shift_words-value :
    (b carry : ℕ) (ws : List ℕ)
    → b ≤ 64
    → carry < 2 ^ b
    → IsWords ws
    → IsWords (shift_words b carry ws)
      × (length (shift_words b carry ws) ≡ length ws)
      × (lost : ℕ) × (value (shift_words b carry ws) + weight ws * lost ≡ value ws * 2 ^ b + carry)
unfolding shift_words
shift_words-value b carry [] hb hc h = (tt, refl, carry, omega arith)
shift_words-value b carry (w ∷ ws) hb hc h =
    let word = shift_word b w hb h.0 in
    let joined : bit_or (u64 (w * 2 ^ b)) carry ≡ carry + w % 2 ^ (64 - b) * 2 ^ b =
      ap (λ t. bit_or t carry) word.0 ∙ bit_or-high_low b (w % 2 ^ (64 - b)) carry hc in
    let (words, same, lost, rest) = shift_words-value b (w / 2 ^ (64 - b)) ws hb word.2 h.1 in
    let split = two-pow-word (64 - b) b (omega arith) in
    let fits = mul-le-mul_right (2 ^ b) (mod-lt w (two-pow-pos (64 - b))) in
    let bound : carry + w % 2 ^ (64 - b) * 2 ^ b < word64_mod = omega (arith, split, fits) in
    (
      (omega (arith, joined, bound), words),
      omega (arith, same),
      lost,
      omega (arith, joined, rest, word.1),
    )

set_words-eq : (ws : List ℕ) → set_words ws ≡ ws
unfolding set_words
set_words-eq [] = refl
set_words-eq (w ∷ ws) = ap (λ t. w ∷ t) (set_words-eq ws)

-- `ws` shifted left by the `b` bits, when nothing is lost at its top.
record IsShifted (b : ℕ) (ws r : List ℕ) : Type 0 where
  words : IsWords r
  same_length : length r ≡ length ws
  shifted : value r ≡ value ws * 2 ^ b

shift_words-IsShifted :
    (b : ℕ) (ws : List ℕ)
    → b ≤ 64
    → IsWords ws
    → value ws * 2 ^ b < weight ws
    → IsShifted b ws (shift_words b 0 ws)
shift_words-IsShifted b ws hb h fits =
    let (words, same, lost, exact) = shift_words-value b 0 ws hb (two-pow-pos b) h in
    let none : lost ≡ 0 = lost-none lost (omega (arith, exact)) in
    record {
      words = words;
      same_length = same;
      shifted = omega (arith, exact, ap (λ (t : ℕ). weight ws * t) none);
    }
  where
    lost-none : (lost : ℕ) → weight ws * lost < weight ws → lost ≡ 0
    lost-none zero k = refl
    lost-none (suc n) k = absurd (omega arith)

bits-IsShifted :
    (s : ℕ) (ws : List ℕ)
    → IsWords ws
    → value ws * 2 ^ (s % 64) < weight ws
    → IsShifted (s % 64) ws (if ltb 0 (s % 64) then shift_words (s % 64) 0 ws else set_words ws)
bits-IsShifted s ws h fits = elim (Bool-cases (ltb 0 (s % 64))) [
  | inl e ↦ rw e (shift_words-IsShifted (s % 64) ws (omega arith) h fits)
  | inr e ↦
      let none : s % 64 ≡ 0 = ground arith in
      rw (e, set_words-eq ws)
        (record {
          words = h;
          same_length = refl;
          shifted = omega (arith, ap (λ (t : ℕ). value ws * 2 ^ t) none);
        })
]

-- The modulus shifted left by `s`, when nothing is lost at its top.
pub align-value :
    (s : ℕ) (ws : List ℕ)
    → IsWords ws
    → value ws * 2 ^ (s % 64) < weight ws
    → IsWords (align s ws)
      × (length (align s ws) ≡ s / 64 + length ws)
      × (value (align s ws) ≡ value ws * 2 ^ s)
unfolding align clear
align-value s ws h fits =
    let rest : List ℕ = if ltb 0 (s % 64) then shift_words (s % 64) 0 ws else set_words ws in
    let zeros : List ℕ = replicate (s / 64) 0 in
    let bits = bits-IsShifted s ws h fits in
    let same = length-replicate {A = ℕ} (s / 64) 0 in
    let power : 2 ^ s ≡ weight zeros * 2 ^ (s % 64) = omega (
      arith,
      weight-power zeros,
      ap (λ (t : ℕ). 2 ^ (64 * t) * 2 ^ (s % 64)) same,
      two-pow-add (64 * (s / 64)) (s % 64),
      ap (λ (t : ℕ). 2 ^ t) {x = s} {y = 64 * (s / 64) + s % 64} (omega arith),
      ap (λ (t : ℕ). t * 2 ^ (s % 64)) (weight-power zeros),
    ) in
    (
      IsWords-append zeros rest (clear-IsWords (s / 64)) bits.words,
      omega (arith, length-append zeros rest, same, bits.same_length),
      omega (
        arith,
        value-append zeros rest,
        value-clear (s / 64),
        ap (λ (t : ℕ). weight zeros * t) bits.shifted,
        ap (λ (t : ℕ). value ws * t) power,
      ),
    )

-- The carry that leaves an array for the one below it.
carry-head : (high : List ℕ) → (rshift1_from high).1 ≡ u64 (get_or high 0 0 * 2 ^ 63)
unfolding rshift1_from
carry-head [] = refl
carry-head (w ∷ ws) = refl

pub or_last-cons :
    (n bits x : ℕ) (xs : List ℕ) → or_last (suc (suc n)) bits (x ∷ xs) ≡ x ∷ or_last (suc n) bits xs
unfolding or_last
or_last-cons n bits x xs =
    let index : suc (suc n) - 1 ≡ suc n = omega arith in
    let index' : suc n - 1 ≡ n = omega arith in rw (index, index') refl

-- Two arrays shifted as one.
rshift1_from-append :
    (w : ℕ) (ws high : List ℕ)
    → (rshift1_from ((w ∷ ws) ++ high)).0
      ≡ or_last (suc (length ws)) (rshift1_from high).1 (rshift1_from (w ∷ ws)).0
        ++ (rshift1_from high).0
unfolding rshift1_from
rshift1_from-append w [] high = unfold or_last in rw (bit_or-zero (w / 2 ^ 1)) refl
rshift1_from-append w (w' ∷ ws) high =
    let x = bit_or (w / 2 ^ 1) (u64 (w' * 2 ^ 63)) in
    rw (or_last-cons (length ws) (rshift1_from high).1 x (rshift1_from (w' ∷ ws)).0)
      (ap (λ t. x ∷ t) (rshift1_from-append w' ws high))

-- `halve` shifts the whole array right.
pub halve-rshift1 : (n : ℕ) (ws : List ℕ) → 1 ≤ n → n ≤ length ws → halve n ws ≡ rshift1 ws
unfolding halve rshift1
halve-rshift1 zero ws pos h = absurd (omega arith)
halve-rshift1 (suc n) [] pos h = absurd (omega arith)
halve-rshift1 (suc n) (w ∷ ws) pos h =
    let same : length (take n ws) ≡ n = omega (arith, length-take n ws) in
    let joined = rshift1_from-append w (take n ws) (drop n ws) in
    rw (← carry-head (drop n ws)) (sym (rw (take-append-drop n ws, same) at joined))
