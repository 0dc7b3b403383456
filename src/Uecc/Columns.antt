-- ===== src/Uecc/Columns.antt =====
-- The sums of products that the columns of uECC_vli_mult make, and their number.
use tezos_master_lib_p2p.Prelude.{
  ℕ, zero, suc, ◌+◌, ◌-◌, ◌*◌, ◌≤◌, ◌<◌, ◌≡◌, refl, ap, List, [], ◌∷◌, length, get_or, word64_mod,
  arith,
}
use tezos_master_lib_p2p.Uecc.MulAdd.{product-bound}
use tezos_master_lib_p2p.Uecc.Value.{value, IsWords}

-- The sum of left[j] * right[k - j] for the `n` indices j from i on.
abbrev pub column_sum : ℕ → ℕ → ℕ → List ℕ → List ℕ → ℕ
column_sum zero i k left right = 0
column_sum (suc n) i k left right =
    get_or left i 0 * get_or right (k - i) 0 + column_sum n (suc i) k left right

-- The columns k, k + 1, ..., `n` of them, in the place of their digit.
abbrev pub columns_sum : ℕ → ℕ → List ℕ → List ℕ → ℕ
columns_sum zero k left right = 0
columns_sum (suc n) k left right =
    column_sum (suc k) 0 k left right + word64_mod * columns_sum n (suc k) left right

abbrev digits_from : ℕ → ℕ → List ℕ → ℕ
digits_from zero k ws = 0
digits_from (suc n) k ws = get_or ws k 0 + word64_mod * digits_from n (suc k) ws

pub get_or-bound : (ws : List ℕ) (i : ℕ) → IsWords ws → get_or ws i 0 < word64_mod
get_or-bound [] i h = omega arith
get_or-bound (w ∷ ws) zero h = h.0
get_or-bound (w ∷ ws) (suc i) h = get_or-bound ws i h.1

pub get_or-past : (ws : List ℕ) (i : ℕ) → length ws ≤ i → get_or ws i 0 ≡ 0
get_or-past [] i h = refl
get_or-past (w ∷ ws) zero h = absurd (omega arith)
get_or-past (w ∷ ws) (suc i) h = get_or-past ws i (omega arith)

column_sum-tail :
    (n i k l : ℕ) (ls right : List ℕ)
    → column_sum n (suc i) (suc k) (l ∷ ls) right ≡ column_sum n i k ls right
column_sum-tail zero i k l ls right = refl
column_sum-tail (suc n) i k l ls right =
    let index : suc k - suc i ≡ k - i = omega arith in
    omega (
      arith,
      ap (λ (t : ℕ). get_or ls i 0 * get_or right t 0) index,
      column_sum-tail n (suc i) k l ls right,
    )

columns_sum-tail :
    (n k l : ℕ) (ls right : List ℕ)
    → columns_sum n (suc k) (l ∷ ls) right
      ≡ l * digits_from n (suc k) right + columns_sum n k ls right
columns_sum-tail zero k l ls right = omega arith
columns_sum-tail (suc n) k l ls right =
    let head : get_or right (suc k - 0) 0 ≡ get_or right (suc k) 0 =
      ap (λ t. get_or right t 0) {x = suc k - 0} {y = suc k} (omega arith) in
    omega (
      arith,
      ap (λ (t : ℕ). l * t) head,
      column_sum-tail (suc k) 0 k l ls right,
      columns_sum-tail n (suc k) l ls right,
    )

digits_from-tail : (n k w : ℕ) (ws : List ℕ) → digits_from n (suc k) (w ∷ ws) ≡ digits_from n k ws
digits_from-tail zero k w ws = refl
digits_from-tail (suc n) k w ws =
    ap (λ (t : ℕ). get_or ws k 0 + word64_mod * t) (digits_from-tail n (suc k) w ws)

digits_from-empty : (n k : ℕ) → digits_from n k [] ≡ 0
digits_from-empty zero k = refl
digits_from-empty (suc n) k = omega (arith, digits_from-empty n (suc k))

digits_from-value : (n : ℕ) (ws : List ℕ) → length ws ≤ n → digits_from n 0 ws ≡ value ws
digits_from-value n [] h = digits_from-empty n 0
digits_from-value zero (w ∷ ws) h = absurd (omega arith)
digits_from-value (suc n) (w ∷ ws) h =
    omega (arith, digits_from-tail n 0 w ws, digits_from-value n ws (omega arith))

column_sum-empty : (n i k : ℕ) (right : List ℕ) → column_sum n i k [] right ≡ 0
column_sum-empty zero i k right = refl
column_sum-empty (suc n) i k right = omega (arith, column_sum-empty n (suc i) k right)

columns_sum-empty : (n k : ℕ) (right : List ℕ) → columns_sum n k [] right ≡ 0
columns_sum-empty zero k right = refl
columns_sum-empty (suc n) k right =
    omega (arith, column_sum-empty (suc k) 0 k right, columns_sum-empty n (suc k) right)

-- Enough columns make the product.
pub columns_sum-value :
    (n : ℕ) (left right : List ℕ)
    → length left + length right ≤ n + 1
    → columns_sum n 0 left right ≡ value left * value right
columns_sum-value n [] right h = omega (arith, columns_sum-empty n 0 right)
columns_sum-value zero (l ∷ ls) [] h = omega arith
columns_sum-value zero (l ∷ ls) (r ∷ rs) h = absurd (omega arith)
columns_sum-value (suc n) (l ∷ ls) right h = omega (
  arith,
  columns_sum-tail n 0 l ls right,
  columns_sum-value n ls right (omega arith),
  ap (λ (t : ℕ). l * t) (digits_from-value (suc n) right (omega arith)),
)

pub column_sum-join :
    (m n i k : ℕ) (left right : List ℕ)
    → column_sum (m + n) i k left right
      ≡ column_sum m i k left right + column_sum n (m + i) k left right
column_sum-join zero n i k left right =
    let count : 0 + n ≡ n = omega arith in
    let start : 0 + i ≡ i = omega arith in
    omega (
      arith,
      ap (λ t. column_sum t i k left right) count,
      ap (λ t. column_sum n t k left right) start,
    )
column_sum-join (suc m) n i k left right =
    let rest = column_sum-join m n (suc i) k left right in
    let start : m + suc i ≡ suc m + i = omega arith in
    let count : column_sum (suc m + n) i k left right ≡ column_sum (suc (m + n)) i k left right =
      ap (λ t. column_sum t i k left right) {x = suc m + n} {y = suc (m + n)} (omega arith) in
    omega (arith, rest, count, ap (λ t. column_sum n t k left right) start)

column_sum-past :
    (n i k : ℕ) (left right : List ℕ) → length left ≤ i → column_sum n i k left right ≡ 0
column_sum-past zero i k left right h = refl
column_sum-past (suc n) i k left right h = omega (
  arith,
  column_sum-past n (suc i) k left right (omega arith),
  ap (λ (t : ℕ). t * get_or right (k - i) 0) (get_or-past left i h),
)

column_sum-before :
    (n i k : ℕ) (left right : List ℕ)
    → i + n + length right ≤ k + 1
    → column_sum n i k left right ≡ 0
column_sum-before zero i k left right h = refl
column_sum-before (suc n) i k left right h = omega (
  arith,
  column_sum-before n (suc i) k left right (omega arith),
  ap (λ (t : ℕ). get_or left i 0 * t) (get_or-past right (k - i) (omega arith)),
)

-- The rounds that the second loop leaves out add nothing.
pub column_sum-high :
    (m k : ℕ) (left right : List ℕ)
    → length left ≡ m
    → length right ≡ m
    → m ≤ k
    → k + 1 ≤ 2 * m
    → column_sum (2 * m - suc k) (suc k - m) k left right ≡ column_sum (suc k) 0 k left right
column_sum-high m k left right hl hr low high =
    let early = suc k - m in
    let count = 2 * m - suc k in
    let parts = column_sum-join early count 0 k left right in
    let rest = column_sum-join m early 0 k left right in
    let before = column_sum-before early 0 k left right (omega arith) in
    let past = column_sum-past early (m + 0) k left right (omega arith) in
    let all : column_sum (m + early) 0 k left right ≡ column_sum (suc k) 0 k left right =
      ap (λ t. column_sum t 0 k left right) {x = m + early} {y = suc k} (omega arith) in
    let inside : column_sum (early + count) 0 k left right ≡ column_sum m 0 k left right =
      ap (λ t. column_sum t 0 k left right) (omega arith) in
    let start : column_sum count (early + 0) k left right ≡ column_sum count early k left right =
      ap (λ t. column_sum count t k left right) (omega arith) in
    omega (arith, parts, rest, before, past, all, inside, start)

pub column_sum-bound :
    (n i k : ℕ) (left right : List ℕ)
    → IsWords left
    → IsWords right
    → column_sum n i k left right ≤ n * ((word64_mod - 1) * (word64_mod - 1))
column_sum-bound zero i k left right hl hr = omega arith
column_sum-bound (suc n) i k left right hl hr =
    let l = get_or-bound left i hl in
    let r = get_or-bound right (k - i) hr in
    let term =
      product-bound (word64_mod - 1) (get_or left i 0) (get_or right (k - i) 0) (omega arith)
        (omega arith) in
    omega (arith, column_sum-bound n (suc i) k left right hl hr, term)
