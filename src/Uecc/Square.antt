-- ===== src/Uecc/Square.antt =====
-- The number that uECC_vli_square of vendors/ocaml-uecc/src/uECC.c computes.
use tezos_master_lib_p2p.Prelude.{
  ℕ, zero, suc, ◌+◌, ◌-◌, ◌*◌, ◌/◌, ◌≤◌, ◌<◌, ◌≡◌, refl, ap, List, [], ◌∷◌, ◌++◌, length,
  length-append, word64_mod, dec_lt, arith,
}
use tezos_master_lib_p2p.Uecc.Value.{
  value, weight, IsWords, weight-length, weight-append, value-append, IsWords-append,
}
use tezos_master_lib_p2p.Uecc.Mult.{
  Registers, next_column, square_start, square_column, square_columns, square,
}
use tezos_master_lib_p2p.Uecc.MulAdd.{total, IsRegisters}
use tezos_master_lib_p2p.Uecc.Columns.{
  column_sum, columns_sum, columns_sum-value, column_sum-bound, column_sum-high,
}
use tezos_master_lib_p2p.Uecc.Loops.{Step, Written}
use tezos_master_lib_p2p.Uecc.SquareSum.{square_column-Holds, square_start-column_sum}
use tezos_master_lib_p2p.Uecc.Product.{top-fits, value-product-lt}

-- A column has at most num_words products.
column-small :
    (m k : ℕ) (ws : List ℕ)
    → IsWords ws
    → length ws ≡ m
    → k + 1 < 2 * m
    → column_sum (suc k) 0 k ws ws ≤ m * ((word64_mod - 1) * (word64_mod - 1))
column-small m k ws hw hm hk = elim (dec_lt k m) [
  | yes low ↦ omega (arith, column_sum-bound (suc k) 0 k ws ws hw hw, low)
  | no high ↦ omega (
    arith,
    column_sum-bound (2 * m - suc k) (suc k - m) k ws ws hw hw,
    column_sum-high m k ws ws hm hm (omega (arith, high)) (omega (arith, hk)),
    high,
  )
]

square_column-Step :
    (m k : ℕ) (ws : List ℕ) (r : Registers)
    → IsWords ws
    → length ws ≡ m
    → m < word64_mod
    → k + 1 < 2 * m
    → IsRegisters r
    → total r ≤ m * word64_mod
    → Step m
        (column_sum (suc k) 0 k ws ws)
        r
        (square_column (suc (k / 2) - square_start m k) (square_start m k) k ws r)
unfolding next_column
square_column-Step m k ws r hw nw hm hk h small =
    let i = square_start m k in
    let same = square_start-column_sum m k ws nw hk in
    let bound = column-small m k ws hw nw hk in
    let held =
      square_column-Holds (suc (k / 2) - i) i k ws r hw h (omega (arith, same, bound, small, hm)) in
    record {
      digit = held.words.first;
      words = record { first = held.words.second; second = held.words.third; third = omega arith };
      exact = omega (arith, held.exact, same);
      small = omega (arith, held.exact, same, bound, small);
    }

square_columns-Written :
    (n m k : ℕ) (ws : List ℕ) (r : Registers)
    → IsWords ws
    → length ws ≡ m
    → m < word64_mod
    → k + n + 1 ≤ 2 * m
    → IsRegisters r
    → total r ≤ m * word64_mod
    → Written m n 0 (columns_sum n k ws ws) r (square_columns n m k ws r)
unfolding square_columns
square_columns-Written zero m k ws r hw nw hm hn h small = record {
  words = tt;
  same_length = refl;
  registers = h;
  small = small;
  exact = omega arith;
}
square_columns-Written (suc n) m k ws r hw nw hm hn h small =
    let step = square_column-Step m k ws r hw nw hm (omega (arith, hn)) h small in
    let i = square_start m k in
    let rest =
      square_columns-Written n m (suc k) ws (next_column (square_column (suc (k / 2) - i) i k ws r))
        hw nw hm (omega (arith, hn)) step.words step.small in
    record {
      words = (step.digit, rest.words);
      same_length = omega (arith, rest.same_length);
      registers = rest.registers;
      small = rest.small;
      exact = omega (arith, rest.exact, step.exact);
    }

-- The loop of `square`.
module _ (left : List ℕ) (hl : IsWords left) (pos : 1 ≤ length left)
    (hm : length left < word64_mod) where
  abbrev columns : List ℕ × Registers
  columns =
      square_columns (length left * 2 - 1) (length left) 0 left (record { r0 = 0; r1 = 0; r2 = 0 })

  columns-Written :
      Written
        (length left)
        (length left * 2 - 1)
        0
        (columns_sum (length left * 2 - 1) 0 left left)
        (record { r0 = 0; r1 = 0; r2 = 0 })
        columns
  columns-Written =
      square_columns-Written (length left * 2 - 1) (length left) 0 left
        (record { r0 = 0; r1 = 0; r2 = 0 }) hl refl hm (omega (arith, pos))
        (record { first = omega arith; second = omega arith; third = omega arith }) (omega arith)

  columns-total : value columns.0 + weight columns.0 * total columns.1 ≡ value left * value left
  columns-total = omega (
    arith,
    columns-Written.exact,
    columns_sum-value (length left * 2 - 1) left left (omega (arith, pos)),
  )

  -- What the registers hold at the end is one word.
  total-small : total columns.1 < word64_mod
  total-small =
      let weights =
        weight-length (0 ∷ columns.0) (left ++ left)
          (omega (arith, columns-Written.same_length, length-append left left, pos)) in
      top-fits word64_mod 0 (value columns.0) 1 (weight columns.0) (total columns.1) (
        omega (
          arith,
          columns-total,
          value-product-lt left left hl hl,
          weights,
          weight-append left left,
        ))

  -- Of an array of words, of a length that is at least one and below 2 ^ 64, `square` gives twice as
  -- many words, whose number is the square of the number of the array.
  pub square-value :
      IsWords (square left)
      × (length (square left) ≡ 2 * length left)
      × (value (square left) ≡ value left * value left)
  unfolding square
  square-value =
      let top : List ℕ = columns.1.r0 ∷ [] in
      let last : total columns.1 ≡ columns.1.r0 = omega (arith, total-small) in
      (
        IsWords-append columns.0 top columns-Written.words (columns-Written.registers.first, tt),
        omega (arith, columns-Written.same_length, length-append columns.0 top, pos),
        omega (
          arith,
          columns-total,
          value-append columns.0 top,
          ap (λ (t : ℕ). weight columns.0 * t) last,
        ),
      )
