-- ===== src/Uecc/SquareSum.antt =====
-- The half columns that the loops of uECC_vli_square in vendors/ocaml-uecc/src/uECC.c add up.
use tezos_master_lib_p2p.Prelude.{
  ℕ, zero, suc, ◌+◌, ◌-◌, ◌*◌, ◌/◌, ◌<◌, ◌≡◌, refl, ap, ap₂, ◌∙◌, List, Bool, true, false, length,
  get_or, ltb, if◌then◌else◌, word64_mod, dec_lt, arith,
}
use tezos_master_lib_p2p.Uecc.Value.{IsWords}
use tezos_master_lib_p2p.Uecc.Mult.{
  Registers, muladd, mul2add, square_term, square_column, square_start,
}
use tezos_master_lib_p2p.Uecc.MulAdd.{total, IsRegisters, Holds, muladd-Holds, mul2add-Holds}
use tezos_master_lib_p2p.Uecc.Columns.{column_sum, column_sum-join, column_sum-high, get_or-bound}

-- How often a product stands in its column.
abbrev pub half_term : ℕ → ℕ → List ℕ → ℕ
half_term i k ws =
    if ltb i (k - i)
    then 2 * (get_or ws i 0 * get_or ws (k - i) 0)
    else get_or ws i 0 * get_or ws (k - i) 0

abbrev pub half_sum : ℕ → ℕ → ℕ → List ℕ → ℕ
half_sum zero i k ws = 0
half_sum (suc n) i k ws = half_term i k ws + half_sum n (suc i) k ws

-- The two ends of a column are the same product.
column_sum-ends :
    (l i k : ℕ) (ws : List ℕ)
    → suc (suc l) + 2 * i ≡ k + 1
    → column_sum (suc (suc l)) i k ws ws
      ≡ 2 * (get_or ws i 0 * get_or ws (k - i) 0) + column_sum l (suc i) k ws ws
column_sum-ends l i k ws e =
    let parts = column_sum-join l 1 (suc i) k ws ws in
    let count = ap (λ t. column_sum t (suc i) k ws ws) {x = suc l} {y = l + 1} (omega arith) in
    let last = ap (λ t. get_or ws t 0) {x = l + suc i} {y = k - i} (omega (arith, e)) in
    let first = ap (λ t. get_or ws t 0) {x = k - (l + suc i)} {y = i} (omega (arith, e)) in
    omega (arith, parts, count, ap₂ (λ (x y : ℕ). x * y) last first)

-- A column is the sum of its half, each product before the middle taken twice.
pub half_sum-column_sum :
    (n l i k : ℕ) (ws : List ℕ)
    → l + 2 * i ≡ k + 1
    → n ≡ (l + 1) / 2
    → half_sum n i k ws ≡ column_sum l i k ws ws
half_sum-column_sum zero zero i k ws e h = refl
half_sum-column_sum zero (suc l) i k ws e h = absurd (omega (arith, h))
half_sum-column_sum (suc n) zero i k ws e h = absurd (omega (arith, h))
half_sum-column_sum (suc zero) (suc zero) i k ws e h = ground (arith, e)
half_sum-column_sum (suc (suc n)) (suc zero) i k ws e h = absurd (omega (arith, h))
half_sum-column_sum (suc n) (suc (suc l)) i k ws e h =
    let rest = half_sum-column_sum n l (suc i) k ws (omega (arith, e)) (omega (arith, h)) in
    ground (arith, rest, column_sum-ends l i k ws e, e)

-- A product added once or twice.
picked-Holds :
    (b : Bool) (x y : ℕ) (r : Registers)
    → x < word64_mod
    → y < word64_mod
    → IsRegisters r
    → total r + (if b then 2 * (x * y) else x * y) < word64_mod * (word64_mod * word64_mod)
    → Holds
        (total r + (if b then 2 * (x * y) else x * y))
        (if b then mul2add x y r else muladd x y r)
picked-Holds true x y r hx hy h room = mul2add-Holds x y r hx hy h room
picked-Holds false x y r hx hy h room = muladd-Holds x y r hx hy h room

square_term-Holds :
    (i k : ℕ) (ws : List ℕ) (r : Registers)
    → IsWords ws
    → IsRegisters r
    → total r + half_term i k ws < word64_mod * (word64_mod * word64_mod)
    → Holds (total r + half_term i k ws) (square_term i k ws r)
unfolding square_term
square_term-Holds i k ws r hw h room =
    picked-Holds (ltb i (k - i)) (get_or ws i 0) (get_or ws (k - i) 0) r (get_or-bound ws i hw)
      (get_or-bound ws (k - i) hw) h room

pub square_column-Holds :
    (n i k : ℕ) (ws : List ℕ) (r : Registers)
    → IsWords ws
    → IsRegisters r
    → total r + half_sum n i k ws < word64_mod * (word64_mod * word64_mod)
    → Holds (total r + half_sum n i k ws) (square_column n i k ws r)
unfolding square_column
square_column-Holds zero i k ws r hw h room = record { words = h; exact = omega arith }
square_column-Holds (suc n) i k ws r hw h room =
    let step = square_term-Holds i k ws r hw h (omega (arith, room)) in
    let rest =
      square_column-Holds n (suc i) k ws (square_term i k ws r) hw step.words
        (omega (arith, step.exact, room)) in
    record { words = rest.words; exact = omega (arith, rest.exact, step.exact) }

-- From min on, a half column has the sum of the whole one.
pub square_start-column_sum :
    (m k : ℕ) (ws : List ℕ)
    → length ws ≡ m
    → k + 1 < 2 * m
    → half_sum (suc (k / 2) - square_start m k) (square_start m k) k ws
      ≡ column_sum (suc k) 0 k ws ws
unfolding square_start
square_start-column_sum m k ws hm hk = elim (dec_lt k m) [
  | yes low ↦
      ap (λ s. half_sum (suc (k / 2) - s) s k ws) (ground (arith, low))
      ∙ half_sum-column_sum (suc (k / 2) - 0) (suc k) 0 k ws (omega arith) (omega arith)
  | no high ↦
      ap (λ s. half_sum (suc (k / 2) - s) s k ws) (ground (arith, high))
      ∙ half_sum-column_sum (suc (k / 2) - (suc k - m)) (2 * m - suc k) (suc k - m) k ws
          (omega (arith, high, hk)) (omega (arith, high, hk))
      ∙ column_sum-high m k ws ws hm hm (omega (arith, high)) (omega (arith, hk))
]
