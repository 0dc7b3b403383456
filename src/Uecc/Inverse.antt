-- ===== src/Uecc/Inverse.antt =====
-- The inverse that uECC_vli_modInv of vendors/ocaml-uecc/src/uECC.c computes.
use native.Mathlib.Nat.{
  mul-lt-mul_of_pos_right, mul-le-mul_left, add-mul-mod_self_right, mod-eq_of_lt,
}
use tezos_master_lib_p2p.Prelude.{
  length-replicate, ℕ, zero, suc, ◌+◌, ◌*◌, ◌%◌, ◌^◌, ◌≤◌, ◌<◌, ◌≡◌, refl, sym, ap, ◌∙◌, List, [],
  ◌∷◌, some, length, arith,
}
use tezos_master_lib_p2p.Prelude.Powers.{two-pow-add, two-pow-pos}
use tezos_master_lib_p2p.Uecc.Vli.{is_zero, clear}
use tezos_master_lib_p2p.Uecc.Mmod.{Inverse, one_words, mod_inv}
use tezos_master_lib_p2p.Uecc.Value.{
  IsNumber, value, IsWords, value-lt-weight, weight-power, value-clear, clear-IsWords,
}
use tezos_master_lib_p2p.Uecc.Compare.{is_zero-value}
use tezos_master_lib_p2p.Uecc.Congruence.{IsCongruent, IsCoprime}
use tezos_master_lib_p2p.Uecc.InverseLoop.{IsState, inverse_loop-Ends}

-- 1 in some words.
pub one_words-IsNumber : (len : ℕ) → 1 ≤ len → IsNumber 1 len (one_words len)
unfolding one_words clear
one_words-IsNumber zero pos = absurd (omega arith)
one_words-IsNumber (suc len) pos = record {
  words = (omega arith, clear-IsWords len);
  same_length = ap suc (length-replicate {A = ℕ} len 0);
  number = omega (arith, value-clear len);
}

pub clear-IsNumber : (len : ℕ) → IsNumber 0 len (clear len)
unfolding clear
clear-IsNumber len = record {
  words = clear-IsWords len;
  same_length = length-replicate {A = ℕ} len 0;
  number = value-clear len;
}

value-pos : (ws : List ℕ) → 0 < value ws → 1 ≤ length ws
value-pos [] h = absurd (omega arith)
value-pos (w ∷ ws) h = omega arith

product-bits :
    (ws vs : List ℕ)
    → IsWords ws
    → IsWords vs
    → length ws ≡ length vs
    → value ws * value vs < 2 ^ (length vs * 2 * 64)
product-bits ws vs hw hv same =
    let n = length vs in
    let square : 2 ^ (n * 2 * 64) ≡ 2 ^ (64 * n) * 2 ^ (64 * n) =
      ap (λ (t : ℕ). 2 ^ t) {x = n * 2 * 64} {y = 64 * n + 64 * n} (omega arith)
      ∙ two-pow-add (64 * n) (64 * n) in
    let left : value ws < 2 ^ (64 * n) =
      omega (arith, value-lt-weight ws hw, weight-power ws, ap (λ (t : ℕ). 2 ^ (64 * t)) same) in
    let right : value vs < 2 ^ (64 * n) = omega (arith, value-lt-weight vs hv, weight-power vs) in
    let right_le : value vs ≤ 2 ^ (64 * n) = omega arith in
    omega (
      arith,
      square,
      mul-le-mul_left (value ws) right_le,
      mul-lt-mul_of_pos_right left (two-pow-pos (64 * n)),
    )

residue-one : (m n : ℕ) → 1 < m → IsCongruent m n 1 → n % m ≡ 1
residue-one m n big h =
    sym (add-mul-mod_self_right n h.left m)
    ∙ ap (λ t. t % m) h.same
    ∙ add-mul-mod_self_right 1 h.right m
    ∙ mod-eq_of_lt big

-- Of a number coprime to an odd modulus above 1, in as many words, `mod_inv` gives a number below
-- the modulus, the product with which leaves 1; the rounds do not run out.
pub mod_inv-value :
    (input modulus : List ℕ)
    → IsWords input
    → IsWords modulus
    → length input ≡ length modulus
    → value modulus % 2 ≡ 1
    → 1 < value modulus
    → 0 < value input
    → IsCoprime (value input) (value modulus)
    → (r : List ℕ) × (mod_inv input modulus ≡ some r)
      × IsWords r
      × (length r ≡ length modulus)
      × (value r < value modulus)
      × (value r * value input % value modulus ≡ 1)
unfolding mod_inv
mod_inv-value input modulus hi hm same odd big nonzero coprime =
    let len = length modulus in
    let m = value modulus in
    let x = value input in
    let pos : 1 ≤ len = value-pos modulus (omega arith) in
    let zeros : IsNumber 0 len (clear len) = clear-IsNumber len in
    let start : Inverse = record { a = input; b = modulus; u = one_words len; v = clear len } in
    let initial : IsState x m len x m 1 0 start = record {
      a_number = record { words = hi; same_length = same; number = refl };
      b_number = record { words = hm; same_length = refl; number = refl };
      u_number = one_words-IsNumber len pos;
      v_number = zeros;
      a_pos = nonzero;
      b_pos = omega arith;
      u_lt = big;
      v_lt = omega arith;
      u_cofactor = record { left = 0; right = 0; same = omega arith };
      v_cofactor = record { left = 1; right = 0; same = omega arith };
      coprime = coprime;
    } in
    let fits : x * m < 2 ^ (len * 2 * 64) = product-bits input modulus hi hm same in
    let (s, u, ends, number, lt, one) =
      inverse_loop-Ends x m len modulus (record { words = hm; same_length = refl; number = refl })
        pos odd (len * 2 * 64) x m 1 0 start initial fits in
    let not_zero : is_zero input ≡ 0 = rw (is_zero-value input) (ground arith) in
    rw (not_zero, ends)
      (
        s.u,
        refl,
        number.words,
        number.same_length,
        omega (arith, number.number),
        residue-one m (value s.u * x) big (rw number.number one),
      )
