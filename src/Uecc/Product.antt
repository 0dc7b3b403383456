-- ===== src/Uecc/Product.antt =====
-- The number that uECC_vli_mult of vendors/ocaml-uecc/src/uECC.c computes.
use native.Mathlib.Nat.{mul-le-mul_left, mul-lt-mul_of_pos_right, lt_of_mul-lt-mul_left}
use tezos_master_lib_p2p.Prelude.{
  ℕ, ◌+◌, ◌-◌, ◌*◌, ◌≤◌, ◌<◌, ◌≡◌, refl, ap, ap₂, List, [], ◌∷◌, ◌++◌, length, length-append,
  word64_mod, arith,
}
use tezos_master_lib_p2p.Uecc.Value.{
  value, weight, IsWords, value-lt-weight, weight-length, value-append, IsWords-append,
}
use tezos_master_lib_p2p.Uecc.Mult.{Registers, low_columns, high_columns, mult}
use tezos_master_lib_p2p.Uecc.MulAdd.{total}
use tezos_master_lib_p2p.Uecc.Columns.{columns_sum, columns_sum-value}
use tezos_master_lib_p2p.Uecc.Loops.{Written, low_columns-Written, high_columns-Written}

-- A last digit that has to fit fits.
pub top-fits : (m lo hi wlo whi t : ℕ) → lo + wlo * (hi + whi * t) < wlo * (m * whi) → t < m
top-fits m lo hi wlo whi t h =
    let inner : hi + whi * t < m * whi = lt_of_mul-lt-mul_left wlo (omega arith) in
    lt_of_mul-lt-mul_left whi (omega arith)

pub value-product-lt :
    (ws vs : List ℕ) → IsWords ws → IsWords vs → value ws * value vs < weight ws * weight vs
value-product-lt ws vs hw hv =
    let below = value-lt-weight ws hw in
    let below' = value-lt-weight vs hv in
    let positive : 0 < weight vs = omega arith in
    let right_le : value vs ≤ weight vs = omega arith in
    omega (arith, mul-le-mul_left (value ws) right_le, mul-lt-mul_of_pos_right below positive)

-- The two loops of `mult`.
module _ (left right : List ℕ) (hl : IsWords left) (hr : IsWords right)
    (n : length left ≡ length right) (pos : 1 ≤ length left) (hm : length left < word64_mod) where
  abbrev low : List ℕ × Registers
  low = low_columns (length left) 0 left right (record { r0 = 0; r1 = 0; r2 = 0 })

  abbrev high : List ℕ × Registers
  high = high_columns (length left - 1) (length left) (length left) left right low.1

  low-Written :
      Written
        (length left)
        (length left)
        (columns_sum (length left - 1) (length left + 0) left right)
        (columns_sum (length left + (length left - 1)) 0 left right)
        (record { r0 = 0; r1 = 0; r2 = 0 })
        low
  low-Written =
      low_columns-Written (length left) (length left) 0 (length left - 1) left right
        (record { r0 = 0; r1 = 0; r2 = 0 }) hl hr hm (omega arith)
        (record { first = omega arith; second = omega arith; third = omega arith }) (omega arith)

  high-Written :
      Written
        (length left)
        (length left - 1)
        0
        (columns_sum (length left - 1) (length left) left right)
        low.1
        high
  high-Written =
      high_columns-Written (length left - 1) (length left) (length left) left right low.1 hl hr refl
        (omega arith) hm (omega arith) (omega arith) low-Written.registers low-Written.small

  -- The words of both loops and what the registers hold make the product.
  low-high :
      value low.0 + weight low.0 * (value high.0 + weight high.0 * total high.1)
      ≡ value left * value right
  low-high =
      let start =
        ap (λ t. columns_sum (length left - 1) t left right) {x = length left + 0} {y = length left}
          (omega arith) in
      omega (
        arith,
        low-Written.exact,
        columns_sum-value (length left + (length left - 1)) left right (omega arith),
        ap (λ (t : ℕ). weight low.0 * t) high-Written.exact,
        ap (λ (t : ℕ). weight low.0 * t) start,
      )

  -- What the registers hold at the end is one word.
  total-fits : total high.1 < word64_mod
  total-fits =
      let weights = weight-length low.0 left low-Written.same_length in
      let weights' = weight-length (0 ∷ high.0) right (omega (arith, high-Written.same_length)) in
      top-fits word64_mod (value low.0) (value high.0) (weight low.0) (weight high.0) (total high.1)
        (omega (
          arith,
          low-high,
          value-product-lt left right hl hr,
          ap₂ (λ (s t : ℕ). s * t) weights weights',
        ))

  -- Of two arrays of words of one length, which is at least one and below 2 ^ 64, `mult` gives
  -- twice as many words, whose number is the product of the two.
  pub mult-value :
      IsWords (mult left right)
      × (length (mult left right) ≡ 2 * length left)
      × (value (mult left right) ≡ value left * value right)
  unfolding mult
  mult-value =
      let top : List ℕ = high.1.r0 ∷ [] in
      let last : total high.1 ≡ high.1.r0 = omega (arith, total-fits) in
      (
        IsWords-append low.0 (high.0 ++ top) low-Written.words
            (IsWords-append high.0 top high-Written.words (high-Written.registers.first, tt)),
        omega (
          arith,
          low-Written.same_length,
          high-Written.same_length,
          length-append low.0 (high.0 ++ top),
          length-append high.0 top,
        ),
        omega (
          arith,
          low-high,
          value-append low.0 (high.0 ++ top),
          ap (λ (t : ℕ). weight low.0 * t) (value-append high.0 top),
          ap (λ (t : ℕ). weight low.0 * (weight high.0 * t)) last,
        ),
      )
