-- ===== src/Uecc/Shift.antt =====
-- uECC_vli_rshift1 of uECC.c.
use tezos_master_lib_p2p.Prelude.{
  ℕ, ◌+◌, ◌*◌, ◌/◌, ◌%◌, ◌^◌, ◌≡◌, refl, List, [], ◌∷◌, length, bit_or, arith,
}
use tezos_master_lib_p2p.Prelude.Bits.{bit_or-low_high}
use tezos_master_lib_p2p.Uecc.Vli.{rshift1_from, rshift1}
use tezos_master_lib_p2p.Uecc.Value.{value, IsWords}

record IsHalf (vli : List ℕ) (r : List ℕ × ℕ) : Type 0 where
  words : IsWords r.0
  same_length : length r.0 ≡ length vli
  half : value r.0 ≡ value vli / 2
  carry : r.1 ≡ value vli % 2 * 2 ^ 63

rshift1_from-IsHalf : (vli : List ℕ) → IsWords vli → IsHalf vli (rshift1_from vli)
unfolding rshift1_from
rshift1_from-IsHalf [] h = record { words = tt; same_length = refl; half = refl; carry = refl }
rshift1_from-IsHalf (w ∷ ws) h =
    let higher = rshift1_from-IsHalf ws h.1 in
    let joined : bit_or (w / 2 ^ 1) (rshift1_from ws).1 ≡ w / 2 + value ws % 2 * 2 ^ 63 =
      ground (arith, higher.carry, bit_or-low_high 63 (w / 2) (value ws % 2)) in
    record {
      words = (omega arith, higher.words);
      same_length = omega (arith, higher.same_length);
      half = omega (arith, higher.half);
      carry = omega arith;
    }

-- Of an array of words, `rshift1` gives as many words, whose number is half of the first, rounded
-- down.
pub rshift1-value :
    (vli : List ℕ)
    → IsWords vli
    → IsWords (rshift1 vli)
      × (length (rshift1 vli) ≡ length vli)
      × (value (rshift1 vli) ≡ value vli / 2)
unfolding rshift1
rshift1-value vli h =
    let halves = rshift1_from-IsHalf vli h in (halves.words, halves.same_length, halves.half)
