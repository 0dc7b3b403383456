-- ===== src/Uecc/Vli.antt =====
-- The uECC_vli functions of vendors/ocaml-uecc/src/uECC.c. An array argument of num_words words is
-- the list of these words, lowest first, and an array that a function writes is part of its result.
use tezos_master_lib_p2p.Prelude.{
  ℕ, zero, suc, ◌+◌, ◌-◌, ◌*◌, List, [], ◌∷◌, Bool, false, not, ◌||◌, length, get_or, replicate,
  ltb, ◌==◌, if◌then◌else◌, bit_and, bit_or, bit_xor, u64, word64_mod, ◌<<◌, ◌>>>◌,
}
use tezos_master_lib_p2p.Prelude.Int.{ℤ, pos, negsuc, sub_ℕ}

abbrev pub word_bits : ℕ
word_bits = 64

-- A truth value of C.
abbrev pub as_word : Bool → ℕ
as_word b = if b then 1 else 0

-- uECC_vli_clear, at num_words words.
unfoldable pub clear : ℕ → List ℕ
clear num_words = replicate num_words 0

-- The loop of uECC_vli_isZero.
unfoldable pub or_words : ℕ → List ℕ → ℕ
or_words bits [] = bits
or_words bits (w ∷ ws) = or_words (bit_or bits w) ws

unfoldable pub is_zero : List ℕ → ℕ
is_zero vli = as_word (or_words 0 vli == 0)

unfoldable pub test_bit : List ℕ → ℕ → ℕ
test_bit vli bit = bit_and (get_or vli (bit >>> 6) 0) (u64 (1 << bit_and bit 63))

-- The loop of vli_numDigits at i, counting down; the result is i + 1.
unfoldable pub num_digits : List ℕ → ℕ → ℕ
num_digits vli zero = 0
num_digits vli (suc i) =
    let lower = num_digits vli i in if get_or vli i 0 == 0 then lower else suc i

-- for (i = 0; digit; ++i) digit >>= 1; with at most `fuel` rounds.
unfoldable pub count_bits : ℕ → ℕ → ℕ → ℕ
count_bits zero i digit = i
count_bits (suc fuel) i digit =
    let more = count_bits fuel (i + 1) (digit >>> 1) in if digit == 0 then i else more

-- uECC_vli_numBits; a 64-bit digit is zero after 64 shifts.
unfoldable pub num_bits : List ℕ → ℕ → ℕ
num_bits vli max_words =
    let digits = num_digits vli max_words in
    if digits == 0
    then 0
    else ((digits - 1) << 6) + count_bits word_bits 0 (get_or vli (digits - 1) 0)

-- uECC_vli_set.
unfoldable pub set_words : List ℕ → List ℕ
set_words [] = []
set_words (w ∷ ws) = w ∷ set_words ws

-- The loop of uECC_vli_cmp_unsafe, at i + 1.
unfoldable pub cmp_from : ℕ → List ℕ → List ℕ → ℤ
cmp_from zero left right = pos 0
cmp_from (suc i) left right =
    let lower = cmp_from i left right in
    if ltb (get_or right i 0) (get_or left i 0)
    then pos 1
    else if ltb (get_or left i 0) (get_or right i 0)
    then negsuc 0
    else lower

unfoldable pub cmp_unsafe : List ℕ → List ℕ → ℤ
cmp_unsafe left right = cmp_from (length left) left right

-- The loop of uECC_vli_equal, at i + 1.
unfoldable pub diff_from : ℕ → ℕ → List ℕ → List ℕ → ℕ
diff_from zero diff left right = diff
diff_from (suc i) diff left right =
    diff_from i (bit_or diff (bit_xor (get_or left i 0) (get_or right i 0))) left right

unfoldable pub equal : List ℕ → List ℕ → ℕ
equal left right = as_word (diff_from (length left) 0 left right == 0)

-- if (sum != left[i]) carry = (sum < left[i]);
unfoldable pub next_carry : ℕ → ℕ → ℕ → ℕ
next_carry carry l sum = if sum == l then carry else as_word (ltb sum l)

-- if (diff != left[i]) borrow = (diff > left[i]);
unfoldable pub next_borrow : ℕ → ℕ → ℕ → ℕ
next_borrow borrow l diff = if diff == l then borrow else as_word (ltb l diff)

-- The loop of uECC_vli_add behind a carry: the words of the result, and the last carry.
unfoldable pub add_from : ℕ → List ℕ → List ℕ → List ℕ × ℕ
add_from carry (l ∷ ls) (r ∷ rs) =
    let sum = u64 (l + r + carry) in
    let (rest, last) = add_from (next_carry carry l sum) ls rs in (sum ∷ rest, last)
add_from carry _ _ = ([], carry)

unfoldable pub add : List ℕ → List ℕ → List ℕ × ℕ
add left right = add_from 0 left right

-- The loop of uECC_vli_sub behind a borrow.
unfoldable pub sub_from : ℕ → List ℕ → List ℕ → List ℕ × ℕ
sub_from borrow (l ∷ ls) (r ∷ rs) =
    let diff = u64 (l + 2 * word64_mod - r - borrow) in
    let (rest, last) = sub_from (next_borrow borrow l diff) ls rs in (diff ∷ rest, last)
sub_from borrow _ _ = ([], borrow)

unfoldable pub sub : List ℕ → List ℕ → List ℕ × ℕ
sub left right = sub_from 0 left right

-- uECC_vli_cmp: !equal - 2 * neg.
unfoldable pub cmp : List ℕ → List ℕ → ℤ
cmp left right =
    let (tmp, borrow) = sub left right in
    let neg = as_word (not (borrow == 0)) in
    let equal = is_zero tmp in sub_ℕ (as_word (equal == 0)) (2 * neg)

-- The loop of uECC_vli_rshift1, which starts at the highest word: the words, and the carry that
-- goes to the word below.
unfoldable pub rshift1_from : List ℕ → List ℕ × ℕ
rshift1_from [] = ([], 0)
rshift1_from (w ∷ ws) =
    let (higher, carry) = rshift1_from ws in
    (bit_or (w >>> 1) carry ∷ higher, u64 (w << (word_bits - 1)))

unfoldable pub rshift1 : List ℕ → List ℕ
rshift1 vli = (rshift1_from vli).0

-- The test cmpresult == 1.
abbrev pub is_one : ℤ → Bool
is_one (pos n) = n == 1
is_one (negsuc n) = false

-- uECC_vli_modAdd.
unfoldable pub mod_add : List ℕ → List ℕ → List ℕ → List ℕ
mod_add left right modulus =
    let (result, carry) = add left right in
    if not (carry == 0) || not (is_one (cmp_unsafe modulus result))
    then (sub result modulus).0
    else result

-- uECC_vli_modSub.
unfoldable pub mod_sub : List ℕ → List ℕ → List ℕ → List ℕ
mod_sub left right modulus =
    let (result, l_borrow) = sub left right in
    if not (l_borrow == 0) then (add result modulus).0 else result
