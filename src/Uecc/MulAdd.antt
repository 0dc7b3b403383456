-- ===== src/Uecc/MulAdd.antt =====
-- The number in the three registers of muladd in vendors/ocaml-uecc/src/uECC.c.
use tezos_master_lib_p2p.Prelude.{ℕ, ◌+◌, ◌-◌, ◌*◌, ◌^◌, ◌≤◌, ◌<◌, ◌≡◌, word64_mod, arith, bit_or}
use native.Mathlib.Nat.{mul-le-mul_left, mul-le-mul_right}
use tezos_master_lib_p2p.Prelude.Bits.{bit_or-high_low}
use tezos_master_lib_p2p.Uecc.Mult.{Registers, muladd, mul2add}

abbrev pub total : Registers → ℕ
total r = r.r0 + word64_mod * r.r1 + word64_mod * (word64_mod * r.r2)

pub record IsRegisters (r : Registers) : Type 0 where
  pub first : r.r0 < word64_mod
  pub second : r.r1 < word64_mod
  pub third : r.r2 < word64_mod

-- The registers hold `sum`.
pub record Holds (sum : ℕ) (r : Registers) : Type 0 where
  pub words : IsRegisters r
  pub exact : total r ≡ sum

pub product-bound : (m a b : ℕ) → a ≤ m → b ≤ m → a * b ≤ m * m
product-bound m a b ha hb = omega (arith, mul-le-mul_right b ha, mul-le-mul_left m hb)

-- When the registers have room for it, `muladd` adds the product of two words to the number that
-- they hold.
pub muladd-Holds :
    (a b : ℕ) (r : Registers)
    → a < word64_mod
    → b < word64_mod
    → IsRegisters r
    → total r + a * b < word64_mod * (word64_mod * word64_mod)
    → Holds (total r + a * b) (muladd a b r)
unfolding muladd
muladd-Holds a b r ha hb h room =
    let product = product-bound (word64_mod - 1) a b (omega arith) (omega arith) in
    let joined : bit_or (r.r1 * 2 ^ 64) r.r0 ≡ r.r0 + r.r1 * 2 ^ 64 =
      bit_or-high_low 64 r.r1 r.r0 h.first in
    record {
      words = record { first = omega arith; second = omega arith; third = omega arith };
      exact = ground (arith, joined, product, h.first, h.second, h.third, room);
    }

-- When the registers have room for it, `mul2add` adds twice the product of two words to the number
-- that they hold.
pub mul2add-Holds :
    (a b : ℕ) (r : Registers)
    → a < word64_mod
    → b < word64_mod
    → IsRegisters r
    → total r + 2 * (a * b) < word64_mod * (word64_mod * word64_mod)
    → Holds (total r + 2 * (a * b)) (mul2add a b r)
unfolding mul2add
mul2add-Holds a b r ha hb h room =
    let product = product-bound (word64_mod - 1) a b (omega arith) (omega arith) in
    let joined : bit_or (r.r1 * 2 ^ 64) r.r0 ≡ r.r0 + r.r1 * 2 ^ 64 =
      bit_or-high_low 64 r.r1 r.r0 h.first in
    record {
      words = record { first = omega arith; second = omega arith; third = omega arith };
      exact = ground (arith, joined, product, h.first, h.second, h.third, room);
    }
