-- ===== src/Uecc/P256.antt =====
-- The prime of secp256r1 and vli_mmod_fast_secp256r1 of vendors/ocaml-uecc/src/curve-specific.h, for
-- 64-bit words.
use tezos_master_lib_p2p.Prelude.{
  ℕ, zero, suc, List, [], ◌∷◌, Bool, true, false, not, ◌||◌, get_or, take, ◌==◌, if◌then◌else◌,
  bit_and, bit_or, u64, ◌<<◌, ◌>>>◌, Option, none, some,
}
use tezos_master_lib_p2p.Prelude.Int.{ℤ, pos, negsuc, ◌+ℤ◌, ◌-ℤ◌}
use tezos_master_lib_p2p.Uecc.Vli.{set_words, add, sub, cmp_unsafe, is_one}
use tezos_master_lib_p2p.Uecc.Mmod.{is_less}

-- curve_secp256r1.p, lowest word first.
abbrev pub p256 : List ℕ
p256 = 0xffffffffffffffff ∷ 0x00000000ffffffff ∷ 0 ∷ 0xffffffff00000001 ∷ []

-- w & 0xffffffff00000000 and w & 0xffffffff
unfoldable pub high_half : ℕ → ℕ
high_half w = bit_and w 0xffffffff00000000

unfoldable pub low_half : ℕ → ℕ
low_half w = bit_and w 0xffffffff

-- (a >> 32) | (b << 32)
unfoldable pub straddle : ℕ → ℕ → ℕ
straddle a b = bit_or (a >>> 32) (u64 (b << 32))

-- w << 32
unfoldable pub raise : ℕ → ℕ
raise w = u64 (w << 32)

-- `tmp` at each comment of the code, from the words 4 to 7 of the product.
module _ (p4 p5 p6 p7 : ℕ) where
  unfoldable pub s1 : List ℕ
  s1 = 0 ∷ high_half p5 ∷ p6 ∷ p7 ∷ []

  unfoldable pub s2 : List ℕ
  s2 = 0 ∷ raise p6 ∷ straddle p6 p7 ∷ (p7 >>> 32) ∷ []

  unfoldable pub s3 : List ℕ
  s3 = p4 ∷ low_half p5 ∷ 0 ∷ p7 ∷ []

  unfoldable pub s4 : List ℕ
  s4 = straddle p4 p5 ∷ bit_or (p5 >>> 32) (high_half p6) ∷ p7 ∷ straddle p6 p4 ∷ []

  unfoldable pub d1 : List ℕ
  d1 = straddle p5 p6 ∷ (p6 >>> 32) ∷ 0 ∷ bit_or (low_half p4) (raise p5) ∷ []

  unfoldable pub d2 : List ℕ
  d2 = p6 ∷ p7 ∷ 0 ∷ bit_or (p4 >>> 32) (high_half p5) ∷ []

  unfoldable pub d3 : List ℕ
  d3 = straddle p6 p7 ∷ straddle p7 p4 ∷ straddle p4 p5 ∷ raise p6 ∷ []

  unfoldable pub d4 : List ℕ
  d4 = p7 ∷ high_half p4 ∷ p5 ∷ high_half p6 ∷ []

-- result and carry.
pub record Sum : Type 0 where
  pub result : List ℕ
  pub carry : ℤ

-- carry += uECC_vli_add(result, result, tmp)
unfoldable pub add_term : List ℕ → Sum → Sum
add_term tmp s =
    let (result, c) = add s.result tmp in record { result = result; carry = s.carry +ℤ pos c }

-- The same behind carry += uECC_vli_add(tmp, tmp, tmp).
unfoldable pub add_double : List ℕ → Sum → Sum
add_double tmp s =
    let (twice, c) = add tmp tmp in add_term twice (record s { carry = s.carry +ℤ pos c })

-- carry -= uECC_vli_sub(result, result, tmp)
unfoldable pub sub_term : List ℕ → Sum → Sum
sub_term tmp s =
    let (result, b) = sub s.result tmp in record { result = result; carry = s.carry -ℤ pos b }

-- do ... while (carry < 0), at most `fuel` rounds.
unfoldable pub raise_loop : ℕ → Sum → Option (List ℕ)
raise_loop zero s = none
raise_loop (suc fuel) s =
    let s' = add_term p256 s in
    elim (is_less s'.carry) [ true ↦ raise_loop fuel s' | false ↦ some s'.result ]

-- carry as a truth value
abbrev pub is_nonzero : ℤ → Bool
is_nonzero (pos n) = not (n == 0)
is_nonzero (negsuc n) = true

-- while (carry || uECC_vli_cmp_unsafe(p, result) != 1), at most `fuel` rounds.
unfoldable pub lower_loop : ℕ → Sum → Option (List ℕ)
lower_loop zero s = none
lower_loop (suc fuel) s = elim (is_nonzero s.carry || not (is_one (cmp_unsafe p256 s.result))) [
  | true ↦ lower_loop fuel (sub_term p256 s)
  | false ↦ some s.result
]

-- The sum of all terms.
unfoldable pub terms : List ℕ → Sum
terms product =
    let p4 = get_or product 4 0 in
    let p5 = get_or product 5 0 in
    let p6 = get_or product 6 0 in
    let p7 = get_or product 7 0 in
    let start : Sum = record { result = set_words (take 4 product); carry = pos 0 } in
    let sums = add_term (s4 p4 p5 p6 p7) (
      add_term (s3 p4 p5 p6 p7)
        (add_double (s2 p4 p5 p6 p7) (add_double (s1 p4 p5 p6 p7) start))) in
    sub_term (d4 p4 p5 p6 p7)
      (sub_term (d3 p4 p5 p6 p7) (sub_term (d2 p4 p5 p6 p7) (sub_term (d1 p4 p5 p6 p7) sums)))

-- vli_mmod_fast_secp256r1; `none` is when the 10 rounds of the last loops run out.
unfoldable pub mmod_fast_secp256r1 : List ℕ → Option (List ℕ)
mmod_fast_secp256r1 product =
    let s = terms product in if is_less s.carry then raise_loop 10 s else lower_loop 10 s
