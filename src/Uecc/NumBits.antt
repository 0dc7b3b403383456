-- ===== src/Uecc/NumBits.antt =====
-- The bit length that uECC_vli_numBits of uECC.c computes.
use tezos_master_lib_p2p.Prelude.{
  ℕ, zero, suc, ◌+◌, ◌-◌, ◌*◌, ◌/◌, ◌^◌, ◌≤◌, ◌<◌, ◌≡◌, refl, ap, List, [], ◌∷◌, inl, inr, length,
  get_or, ◌==◌, if◌then◌else◌, Bool-cases, ==_iff, word64_mod, arith, ◌∙◌, ◌<<◌,
}
use tezos_master_lib_p2p.Prelude.Powers.{two-pow-suc, two-pow-add}
use tezos_master_lib_p2p.Uecc.Vli.{num_digits, count_bits, num_bits, word_bits}
use tezos_master_lib_p2p.Uecc.Value.{value, IsWords}

-- `n` is the number of binary digits of `v`.
pub record IsBits (n v : ℕ) : Type 0 where
  pub upper : v < 2 ^ n
  pub lower : 0 < v → 2 ^ n ≤ 2 * v
  pub none : v ≡ 0 → n ≡ 0

count_bits-start : (fuel i d : ℕ) → count_bits fuel i d ≡ i + count_bits fuel 0 d
unfolding count_bits
count_bits-start zero i d = omega arith
count_bits-start (suc fuel) i d =
    ground
      (arith, count_bits-start fuel (i + 1) (d / 2 ^ 1), count_bits-start fuel (0 + 1) (d / 2 ^ 1))

IsBits-double : (n v : ℕ) → 0 < v → IsBits n (v / 2) → IsBits (suc n) v
IsBits-double n v pos h = record {
  upper = omega (arith, h.upper, two-pow-suc n);
  lower = λ p. elim (Bool-cases (v / 2 == 0)) [
    | inl e ↦ omega (arith, two-pow-suc n, ap (λ (t : ℕ). 2 ^ t) (h.none ((==_iff (v / 2) 0).0 e)))
    | inr e ↦ omega (arith, two-pow-suc n, h.lower (ground arith))
  ];
  none = λ e. absurd (omega arith);
}

count_bits-IsBits : (fuel d : ℕ) → d < 2 ^ fuel → IsBits (count_bits fuel 0 d) d
unfolding count_bits
count_bits-IsBits zero d h = record {
  upper = h;
  lower = λ p. absurd (omega arith);
  none = λ e. refl;
}
count_bits-IsBits (suc fuel) zero h = record {
  upper = omega arith;
  lower = λ p. absurd (omega arith);
  none = λ e. refl;
}
count_bits-IsBits (suc fuel) (suc d) h =
    let half = count_bits-IsBits fuel (suc d / 2) (omega (arith, two-pow-suc fuel)) in
    let one_more : count_bits (suc fuel) 0 (suc d) ≡ suc (count_bits fuel 0 (suc d / 2)) =
      ground (arith, count_bits-start fuel (0 + 1) (suc d / 2)) in
    rw one_more (IsBits-double (count_bits fuel 0 (suc d / 2)) (suc d) (omega arith) half)

num_digits-cons :
    (i w : ℕ) (ws : List ℕ)
    → num_digits (w ∷ ws) (suc i)
      ≡ (if num_digits ws i == 0 then (if w == 0 then 0 else 1) else suc (num_digits ws i))
unfolding num_digits
num_digits-cons zero w ws = ground arith
num_digits-cons (suc i) w ws = ground (arith, num_digits-cons i w ws)

num_digits-zero : (ws : List ℕ) → num_digits ws (length ws) ≡ 0 → value ws ≡ 0
num_digits-zero [] h = refl
num_digits-zero (w ∷ ws) h = ground (arith, num_digits-cons (length ws) w ws, num_digits-zero ws)

-- What num_bits does with the count of digits.
abbrev bits_at : List ℕ → ℕ → ℕ
bits_at ws digits =
    if digits == 0
    then 0
    else ((digits - 1) << 6) + count_bits word_bits 0 (get_or ws (digits - 1) 0)

bits_at-cons :
    (d w : ℕ) (ws : List ℕ)
    → bits_at (w ∷ ws) (if d == 0 then (if w == 0 then 0 else 1) else suc d)
      ≡ (if d == 0 then count_bits 64 0 w else 64 + bits_at ws d)
bits_at-cons zero zero ws = unfold count_bits in refl
bits_at-cons zero (suc w) ws = ground arith
bits_at-cons (suc d) w ws =
    let index : suc (suc d) - 1 ≡ suc d = omega arith in
    let index' : suc d - 1 ≡ d = omega arith in
    ground (
      arith,
      ap (λ t. count_bits 64 0 (get_or (w ∷ ws) t 0)) index,
      ap (λ t. count_bits 64 0 (get_or ws t 0)) index',
    )

num_bits-cons :
    (w : ℕ) (ws : List ℕ)
    → num_bits (w ∷ ws) (suc (length ws))
      ≡ (if num_digits ws (length ws) == 0 then count_bits 64 0 w else 64 + num_bits ws (length ws))
unfolding num_bits
num_bits-cons w ws =
    ap (bits_at (w ∷ ws)) (num_digits-cons (length ws) w ws)
    ∙ bits_at-cons (num_digits ws (length ws)) w ws

num_digits-empty : (ws : List ℕ) → value ws ≡ 0 → num_digits ws (length ws) ≡ 0
num_digits-empty [] h = unfold num_digits in refl
num_digits-empty (w ∷ ws) h = ground (arith, num_digits-cons (length ws) w ws, num_digits-empty ws)

IsBits-word :
    (n w v : ℕ) → w < word64_mod → 0 < v → IsBits n v → IsBits (64 + n) (w + word64_mod * v)
IsBits-word n w v hw pos h = record {
  upper = omega (arith, h.upper, two-pow-add 64 n);
  lower = λ p. omega (arith, h.lower pos, two-pow-add 64 n);
  none = λ e. absurd (omega arith);
}

-- `num_bits` is the number of binary digits.
pub num_bits-IsBits : (ws : List ℕ) → IsWords ws → IsBits (num_bits ws (length ws)) (value ws)
num_bits-IsBits [] h = record {
  upper = unfold num_bits num_digits in omega arith;
  lower = λ p. absurd (omega arith);
  none = λ e. unfold num_bits num_digits in refl;
}
num_bits-IsBits (w ∷ ws) h = elim (Bool-cases (num_digits ws (length ws) == 0)) [
  | inl e ↦
      let low : value (w ∷ ws) ≡ w = omega (arith, num_digits-zero ws ((==_iff _ 0).0 e)) in
      let bits : num_bits (w ∷ ws) (length (w ∷ ws)) ≡ count_bits 64 0 w =
        ground (arith, num_bits-cons w ws) in
      rw (bits, low) (count_bits-IsBits 64 w h.0)
  | inr e ↦
      let bits : num_bits (w ∷ ws) (length (w ∷ ws)) ≡ 64 + num_bits ws (length ws) =
        ground (arith, num_bits-cons w ws) in
      rw bits (
        IsBits-word (num_bits ws (length ws)) w (value ws) h.0 (ground (arith, num_digits-empty ws))
          (num_bits-IsBits ws h.1))
]
