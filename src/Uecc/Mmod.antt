-- ===== src/Uecc/Mmod.antt =====
-- uECC_vli_mmod and the modular operations built on it, of vendors/ocaml-uecc/src/uECC.c. The two
-- buffers v[0] and v[1] are the words that the index picks; the other buffer is written whole
-- before it is read.
use tezos_master_lib_p2p.Prelude.{
  ℕ, zero, suc, ◌-◌, ◌*◌, ◌/◌, ◌%◌, ◌^◌, List, [], ◌∷◌, ◌++◌, Bool, true, false, length, get_or,
  set, take, drop, ltb, ◌==◌, if◌then◌else◌, bit_and, bit_or, u64, ◌<<◌, ◌>>>◌, Option, none, some,
}
use tezos_master_lib_p2p.Prelude.Int.{ℤ, pos, negsuc}
use tezos_master_lib_p2p.Uecc.Vli.{
  word_bits, clear, is_zero, num_bits, set_words, cmp_unsafe, add, sub, rshift1,
}
use tezos_master_lib_p2p.Uecc.Mult.{mult, square}

-- The loop that shifts mod left by bit_shift, behind a carry.
unfoldable pub shift_words : ℕ → ℕ → List ℕ → List ℕ
shift_words bit_shift carry [] = []
shift_words bit_shift carry (w ∷ ws) =
    bit_or (u64 (w << bit_shift)) carry ∷ shift_words bit_shift (w >>> (word_bits - bit_shift)) ws

-- mod_multiple before the loop.
unfoldable pub align : ℕ → List ℕ → List ℕ
align shift modulus =
    let word_shift = shift / word_bits in
    let bit_shift = shift % word_bits in
    clear word_shift
    ++ (if ltb 0 bit_shift then shift_words bit_shift 0 modulus else set_words modulus)

-- vli[num_words - 1] |= bits;
unfoldable pub or_last : ℕ → ℕ → List ℕ → List ℕ
or_last num_words bits vli = set vli (num_words - 1) (bit_or (get_or vli (num_words - 1) 0) bits)

-- mod_multiple one place to the right, in its two halves.
unfoldable pub halve : ℕ → List ℕ → List ℕ
halve num_words mod_multiple =
    let low = rshift1 (take num_words mod_multiple) in
    let high = drop num_words mod_multiple in
    or_last num_words (u64 (get_or high 0 0 << (word_bits - 1))) low ++ rshift1 high

-- The loop over shift, in `rounds` rounds; a borrow leaves the index alone.
unfoldable pub reduce_rounds : ℕ → ℕ → List ℕ → List ℕ → List ℕ
reduce_rounds zero num_words v mod_multiple = v
reduce_rounds (suc rounds) num_words v mod_multiple =
    let (diff, borrow) = sub v mod_multiple in
    reduce_rounds rounds num_words (if borrow == 0 then diff else v) (halve num_words mod_multiple)

-- uECC_vli_mmod.
unfoldable pub mmod : List ℕ → List ℕ → List ℕ
mmod product modulus =
    let num_words = length modulus in
    let shift = num_words * 2 * word_bits - num_bits modulus num_words in
    take num_words (reduce_rounds (suc shift) num_words product (align shift modulus))

-- uECC_vli_modMult.
unfoldable pub mod_mult : List ℕ → List ℕ → List ℕ → List ℕ
mod_mult left right modulus = mmod (mult left right) modulus

-- uECC_vli_modSquare, with uECC_SQUARE_FUNC.
unfoldable pub mod_square : List ℕ → List ℕ → List ℕ
mod_square left modulus = mmod (square left) modulus

-- EVEN(vli)
unfoldable pub is_even : List ℕ → Bool
is_even vli = bit_and (get_or vli 0 0) 1 == 0

-- vli_modInv_update.
unfoldable pub mod_inv_update : List ℕ → List ℕ → List ℕ
mod_inv_update uv modulus =
    let (sum, carry) : List ℕ × ℕ = if is_even uv then (uv, 0) else add uv modulus in
    let half = rshift1 sum in if carry == 0 then half else or_last (length modulus) (2 ^ 63) half

-- The four arrays of uECC_vli_modInv.
pub record Inverse : Type 0 where
  pub a : List ℕ
  pub b : List ℕ
  pub u : List ℕ
  pub v : List ℕ

-- cmpResult < 0
abbrev pub is_less : ℤ → Bool
is_less (pos n) = false
is_less (negsuc n) = true

-- 0 < cmpResult
abbrev pub is_greater : ℤ → Bool
is_greater (pos n) = ltb 0 n
is_greater (negsuc n) = false

-- u - v modulo mod, halved: the end of the third and the fourth branch.
unfoldable pub subtract_half : List ℕ → List ℕ → List ℕ → List ℕ
subtract_half u v modulus =
    let raised = if is_less (cmp_unsafe u v) then (add u modulus).0 else u in
    mod_inv_update (sub raised v).0 modulus

-- One round of the loop, behind its test.
unfoldable pub inverse_round : List ℕ → Inverse → Inverse
inverse_round modulus s =
    if is_even s.a
    then record s { a = rshift1 s.a; u = mod_inv_update s.u modulus }
    else if is_even s.b
    then record s { b = rshift1 s.b; v = mod_inv_update s.v modulus }
    else if is_greater (cmp_unsafe s.a s.b)
    then record s { a = rshift1 (sub s.a s.b).0; u = subtract_half s.u s.v modulus }
    else record s { b = rshift1 (sub s.b s.a).0; v = subtract_half s.v s.u modulus }

-- cmpResult == 0
abbrev pub is_equal : ℤ → Bool
is_equal (pos n) = n == 0
is_equal (negsuc n) = false

-- The loop, on fuel; `none` is when the fuel runs out.
unfoldable pub inverse_loop : ℕ → List ℕ → Inverse → Option Inverse
inverse_loop zero modulus s = none
inverse_loop (suc fuel) modulus s = elim (is_equal (cmp_unsafe s.a s.b)) [
  | true ↦ some s
  | false ↦ inverse_loop fuel modulus (inverse_round modulus s)
]

-- 1 in num_words words.
unfoldable pub one_words : ℕ → List ℕ
one_words num_words = set (clear num_words) 0 1

-- uECC_vli_modInv; each round takes a bit from one of the two arrays.
unfoldable pub mod_inv : List ℕ → List ℕ → Option (List ℕ)
mod_inv input modulus =
    let num_words = length modulus in
    if is_zero input == 0
    then elim (inverse_loop (suc (num_words * 2 * word_bits)) modulus
        (record { a = input; b = modulus; u = one_words num_words; v = clear num_words })) [
          | none ↦ none
          | some s ↦ some s.u
        ]
    else some (clear num_words)
