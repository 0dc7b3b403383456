-- ===== src/Uecc/Mult.antt =====
-- muladd, in both its compiled variants, mul2add, uECC_vli_mult and the uECC_vli_square of
-- uECC_SQUARE_FUNC, which the dune file beside it sets, of vendors/ocaml-uecc/src/uECC.c. The three
-- registers that the C code passes by pointers are a record.
use tezos_master_lib_p2p.Prelude.{
  ℕ, zero, suc, ◌+◌, ◌-◌, ◌*◌, ◌/◌, ◌%◌, List, [], ◌∷◌, ◌++◌, ◌&&◌, ◌||◌, length, get_or, ltb, ◌==◌,
  if◌then◌else◌, bit_or, u64, word32_mod, word64_mod, ◌<<◌, ◌>>>◌,
}
use tezos_master_lib_p2p.Uecc.Vli.{as_word, word_bits}

-- r0, r1 and r2.
pub record Registers : Type 0 where
  pub r0 : ℕ
  pub r1 : ℕ
  pub r2 : ℕ

-- (uECC_dword_t) n
abbrev pub u128 : ℕ → ℕ
u128 n = n % (word64_mod * word64_mod)

-- The variant with 128-bit integers.
unfoldable pub muladd : ℕ → ℕ → Registers → Registers
muladd a b r =
    let p = u128 (a * b) in
    let r01 = u128 (bit_or (r.r1 << word_bits) r.r0 + p) in
    record { r0 = u64 r01; r1 = u64 (r01 >>> word_bits); r2 = u64 (r.r2 + as_word (ltb r01 p)) }

-- The last three statements of the variant without 128-bit integers.
unfoldable pub add_product : ℕ → ℕ → Registers → Registers
add_product p0 p1 r =
    let r0' = u64 (r.r0 + p0) in
    let r1' = u64 (r.r1 + u64 (p1 + as_word (ltb r0' p0))) in
    record {
      r0 = r0';
      r1 = r1';
      r2 = u64 (r.r2 + as_word (ltb r1' p1 || (r1' == p1 && ltb r0' p0)));
    }

-- The variant without 128-bit integers, from the four products of halves on.
unfoldable pub add_partial : ℕ → ℕ → ℕ → ℕ → Registers → Registers
add_partial i0 i1 i2 i3 r =
    let i2' = u64 (u64 (i2 + (i0 >>> 32)) + i1) in
    let i3' = if ltb i2' i1 then u64 (i3 + word32_mod) else i3 in
    let p0 = bit_or (i0 % word32_mod) (u64 (i2' << 32)) in
    add_product p0 (u64 (i3' + (i2' >>> 32))) r

unfoldable pub muladd_halves : ℕ → ℕ → Registers → Registers
muladd_halves a b r =
    let a0 = a % word32_mod in
    let a1 = a >>> 32 in
    let b0 = b % word32_mod in
    let b1 = b >>> 32 in
    add_partial (u64 (a0 * b0)) (u64 (a0 * b1)) (u64 (a1 * b0)) (u64 (a1 * b1)) r

-- The inner loops: `n` rounds from i on.
unfoldable pub column : ℕ → ℕ → ℕ → List ℕ → List ℕ → Registers → Registers
column zero i k left right r = r
column (suc n) i k left right r =
    column n (suc i) k left right (muladd (get_or left i 0) (get_or right (k - i) 0) r)

-- r0 = r1; r1 = r2; r2 = 0;
unfoldable pub next_column : Registers → Registers
next_column r = record { r0 = r.r1; r1 = r.r2; r2 = 0 }

-- The first loop over k, in `n` rounds: the words written and the registers.
unfoldable pub low_columns : ℕ → ℕ → List ℕ → List ℕ → Registers → List ℕ × Registers
low_columns zero k left right r = ([], r)
low_columns (suc n) k left right r =
    let r' = column (suc k) 0 k left right r in
    let (words, last) = low_columns n (suc k) left right (next_column r') in (r'.r0 ∷ words, last)

-- The second loop over k, where i starts at k + 1 - num_words.
unfoldable pub high_columns : ℕ → ℕ → ℕ → List ℕ → List ℕ → Registers → List ℕ × Registers
high_columns zero num_words k left right r = ([], r)
high_columns (suc n) num_words k left right r =
    let r' = column (2 * num_words - suc k) (suc k - num_words) k left right r in
    let (words, last) = high_columns n num_words (suc k) left right (next_column r') in
    (r'.r0 ∷ words, last)

-- uECC_vli_mult; num_words is at least 1.
unfoldable pub mult : List ℕ → List ℕ → List ℕ
mult left right =
    let num_words = length left in
    let (low, r) = low_columns num_words 0 left right (record { r0 = 0; r1 = 0; r2 = 0 }) in
    let (high, r') = high_columns (num_words - 1) num_words num_words left right r in
    low ++ (high ++ (r'.r0 ∷ []))

-- mul2add, with 128-bit integers: the product is added twice.
unfoldable pub mul2add : ℕ → ℕ → Registers → Registers
mul2add a b r =
    let p = u128 (a * b) in
    let r01 = bit_or (r.r1 << word_bits) r.r0 in
    let r2 = u64 (r.r2 + (p >>> (word_bits * 2 - 1))) in
    let twice = u128 (p * 2) in
    let sum = u128 (r01 + twice) in
    record { r0 = u64 sum; r1 = u64 (sum >>> word_bits); r2 = u64 (r2 + as_word (ltb sum twice)) }

-- The body of the inner loop of uECC_vli_square.
unfoldable pub square_term : ℕ → ℕ → List ℕ → Registers → Registers
square_term i k left r =
    if ltb i (k - i)
    then mul2add (get_or left i 0) (get_or left (k - i) 0) r
    else muladd (get_or left i 0) (get_or left (k - i) 0) r

-- The inner loop: `n` rounds from i on.
unfoldable pub square_column : ℕ → ℕ → ℕ → List ℕ → Registers → Registers
square_column zero i k left r = r
square_column (suc n) i k left r = square_column n (suc i) k left (square_term i k left r)

-- min.
unfoldable pub square_start : ℕ → ℕ → ℕ
square_start num_words k = if ltb k num_words then 0 else suc k - num_words

-- The loop over k, in `n` rounds; i goes from min to k / 2, the last one with i <= k - i.
unfoldable pub square_columns : ℕ → ℕ → ℕ → List ℕ → Registers → List ℕ × Registers
square_columns zero num_words k left r = ([], r)
square_columns (suc n) num_words k left r =
    let i = square_start num_words k in
    let r' = square_column (suc (k / 2) - i) i k left r in
    let (words, last) = square_columns n num_words (suc k) left (next_column r') in
    (r'.r0 ∷ words, last)

-- uECC_vli_square; num_words is at least 1.
unfoldable pub square : List ℕ → List ℕ
square left =
    let num_words = length left in
    let (words, r) =
      square_columns (num_words * 2 - 1) num_words 0 left (record { r0 = 0; r1 = 0; r2 = 0 }) in
    words ++ (r.r0 ∷ [])
