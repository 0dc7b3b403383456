-- ===== src/Uecc/Tests.antt =====
-- The theorems about multi-precision integers at concrete inputs.
use tezos_master_lib_p2p.Prelude.{
  ℕ, ◌+◌, ◌-◌, ◌*◌, ◌%◌, ◌≡◌, refl, List, [], ◌∷◌, length, word64_mod, arith,
}
use tezos_master_lib_p2p.Uecc.Vli.{add, mod_add, mod_sub, num_bits, num_digits, count_bits}
use tezos_master_lib_p2p.Uecc.Value.{value, IsWords}
use tezos_master_lib_p2p.Uecc.Sum.{IsSum, add-IsSum}
use tezos_master_lib_p2p.Uecc.Mult.{
  Registers, muladd, muladd_halves, add_partial, add_product, column, next_column, low_columns,
  high_columns, mult, square,
}
use tezos_master_lib_p2p.Uecc.Product.{mult-value}
use tezos_master_lib_p2p.Uecc.Square.{square-value}
use tezos_master_lib_p2p.Uecc.ModSum.{IsResidues, mod_add-value, mod_sub-value}

abbrev low : List ℕ
low = (word64_mod - 1) ∷ 5 ∷ []

abbrev high : List ℕ
high = 3 ∷ 7 ∷ []

abbrev limit : List ℕ
limit = 9 ∷ 8 ∷ []

low-IsWords : IsWords low
low-IsWords = (omega arith, (omega arith, tt))

high-IsWords : IsWords high
high-IsWords = (omega arith, (omega arith, tt))

residues : IsResidues low high limit
residues = record {
  left_words = low-IsWords;
  right_words = high-IsWords;
  modulus_words = (omega arith, (omega arith, tt));
  same_left = refl;
  same_right = refl;
  left_below = omega arith;
  right_below = omega arith;
}

num_bits_run : num_bits high 2 ≡ 67
unfolding num_bits num_digits count_bits
num_bits_run = refl

add-IsSum_example : IsSum (value low + value high) low (add low high)
add-IsSum_example = add-IsSum low high low-IsWords high-IsWords refl

mod_add-value_example : value (mod_add low high limit) ≡ (value low + value high) % value limit
mod_add-value_example = mod_add-value low high limit residues

mod_sub-value_example :
    value (mod_sub low high limit) ≡ (value low + value limit - value high) % value limit
mod_sub-value_example = mod_sub-value low high limit residues

-- A product that carries into the third register.
abbrev nearly_full : Registers
nearly_full = record { r0 = word64_mod - 1; r1 = word64_mod - 1; r2 = 4 }

-- Both variants of muladd on that input.
variants-agree :
    muladd_halves (word64_mod - 1) 5 nearly_full ≡ muladd (word64_mod - 1) 5 nearly_full
unfolding muladd muladd_halves add_partial add_product
variants-agree = refl

product-value : value (mult low high) ≡ value low * value high
unfolding mult low_columns high_columns column next_column muladd
product-value = refl

mult-value_example :
    IsWords (mult low high)
    × (length (mult low high) ≡ 2 * length low)
    × (value (mult low high) ≡ value low * value high)
mult-value_example = mult-value low high low-IsWords high-IsWords refl (omega arith) (omega arith)

square-value_example :
    IsWords (square (3 ∷ 5 ∷ 18446744073709551615 ∷ []))
    × (length (square (3 ∷ 5 ∷ 18446744073709551615 ∷ [])) ≡ 6)
    × (value (square (3 ∷ 5 ∷ 18446744073709551615 ∷ []))
        ≡ value (3 ∷ 5 ∷ 18446744073709551615 ∷ []) * value (3 ∷ 5 ∷ 18446744073709551615 ∷ []))
square-value_example =
    square-value (3 ∷ 5 ∷ 18446744073709551615 ∷ []) (omega arith) (omega arith) (omega arith)
