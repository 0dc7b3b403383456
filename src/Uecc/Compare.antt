-- ===== src/Uecc/Compare.antt =====
-- The tests and comparisons of uECC.c against the numbers.
use tezos_master_lib_p2p.Prelude.{
  ℕ, zero, suc, ◌≡◌, ◌↔◌, refl, List, [], ◌∷◌, length, get_or, ltb, ◌==◌, if◌then◌else◌, bit_or,
  bit_xor, arith,
}
use tezos_master_lib_p2p.Prelude.Int.{ℤ, pos, negsuc}
use tezos_master_lib_p2p.Prelude.Bits.{bit_or-eq-zero, bit_xor-eq-zero}
use tezos_master_lib_p2p.Uecc.Vli.{
  or_words, is_zero, cmp_from, cmp_unsafe, diff_from, equal, sub, cmp, as_word,
}
use tezos_master_lib_p2p.Uecc.Value.{value, IsWords, value-lt-weight, weight-length}
use tezos_master_lib_p2p.Uecc.Sum.{sub-IsDifference}

or_words-eq-zero : (bits : ℕ) (ws : List ℕ) → (or_words bits ws ≡ 0) ↔ ((bits ≡ 0) × (value ws ≡ 0))
unfolding or_words
or_words-eq-zero bits [] = ground arith
or_words-eq-zero bits (w ∷ ws) =
    ground (arith, or_words-eq-zero (bit_or bits w) ws, bit_or-eq-zero bits w)

-- `is_zero` is 1 if the number of the array is zero, and 0 otherwise.
pub is_zero-value : (ws : List ℕ) → is_zero ws ≡ as_word (value ws == 0)
unfolding is_zero
is_zero-value ws = ground (arith, or_words-eq-zero 0 ws)

-- The sign of `a - b`.
abbrev pub sign_of : ℕ → ℕ → ℤ
sign_of a b = if ltb b a then pos 1 else if ltb a b then negsuc 0 else pos 0

abbrev or_else : ℤ → ℤ → ℤ
or_else (pos zero) lower = lower
or_else (pos (suc n)) lower = pos (suc n)
or_else (negsuc n) lower = negsuc n

-- The loop sees the lowest words last.
cmp_from-cons :
    (i l r : ℕ) (ls rs : List ℕ)
    → cmp_from (suc i) (l ∷ ls) (r ∷ rs) ≡ or_else (cmp_from i ls rs) (sign_of l r)
unfolding cmp_from
cmp_from-cons zero l r ls rs = refl
cmp_from-cons (suc i) l r ls rs = ground (arith, cmp_from-cons i l r ls rs)

-- Of two arrays of words of one length, `cmp_unsafe` is the sign of the difference of the numbers.
pub cmp_unsafe-value :
    (left right : List ℕ)
    → IsWords left
    → IsWords right
    → length left ≡ length right
    → cmp_unsafe left right ≡ sign_of (value left) (value right)
unfolding cmp_unsafe
cmp_unsafe-value [] [] hl hr n = unfold cmp_from in refl
cmp_unsafe-value [] (r ∷ rs) hl hr n = absurd (omega arith)
cmp_unsafe-value (l ∷ ls) [] hl hr n = absurd (omega arith)
cmp_unsafe-value (l ∷ ls) (r ∷ rs) hl hr n =
    ground (arith, cmp_from-cons (length ls) l r ls rs, cmp_unsafe-value ls rs hl.1 hr.1)

-- Of two arrays of words of one length, the constant-time `cmp` is the sign of the difference too.
pub cmp-value :
    (left right : List ℕ)
    → IsWords left
    → IsWords right
    → length left ≡ length right
    → cmp left right ≡ sign_of (value left) (value right)
unfolding cmp
cmp-value left right hl hr n =
    let exact = sub-IsDifference left right hl hr n in
    ground (
      arith,
      exact.borrow_bit,
      exact.difference,
      is_zero-value (sub left right).0,
      value-lt-weight (sub left right).0 exact.words,
      value-lt-weight left hl,
      value-lt-weight right hr,
      weight-length left right n,
      weight-length (sub left right).0 left exact.same_length,
    )

diff_from-cons :
    (i diff l r : ℕ) (ls rs : List ℕ)
    → (diff_from (suc i) diff (l ∷ ls) (r ∷ rs) ≡ 0) ↔ ((diff_from i diff ls rs ≡ 0) × (l ≡ r))
unfolding diff_from
diff_from-cons zero diff l r ls rs =
    ground (arith, bit_or-eq-zero diff (bit_xor l r), bit_xor-eq-zero l r)
diff_from-cons (suc i) diff l r ls rs =
    diff_from-cons i (bit_or diff (bit_xor (get_or ls i 0) (get_or rs i 0))) l r ls rs

diff_from-value :
    (left right : List ℕ)
    → IsWords left
    → IsWords right
    → length left ≡ length right
    → (diff_from (length left) 0 left right ≡ 0) ↔ (value left ≡ value right)
diff_from-value [] [] hl hr n = unfold diff_from in ground arith
diff_from-value [] (r ∷ rs) hl hr n = absurd (omega arith)
diff_from-value (l ∷ ls) [] hl hr n = absurd (omega arith)
diff_from-value (l ∷ ls) (r ∷ rs) hl hr n =
    let lowest = diff_from-cons (length ls) 0 l r ls rs in
    let higher = diff_from-value ls rs hl.1 hr.1 (omega arith) in
    (
      λ e. omega (arith, (lowest.0 e).1, higher.0 (lowest.0 e).0),
      λ e. lowest.1 (higher.1 (omega arith), omega arith),
    )

-- Of two arrays of words of one length, `equal` is 1 if the numbers are equal, and 0 otherwise.
pub equal-value :
    (left right : List ℕ)
    → IsWords left
    → IsWords right
    → length left ≡ length right
    → equal left right ≡ as_word (value left == value right)
unfolding equal
equal-value left right hl hr n = ground (arith, diff_from-value left right hl hr n)
