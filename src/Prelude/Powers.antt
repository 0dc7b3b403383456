-- ===== src/Prelude/Powers.antt =====
-- Powers of two and remainders at variables.
use native.Mathlib.Nat.{pow-suc, mul-le-mul_right}
use tezos_master_lib_p2p.Prelude.{
  ℕ, zero, suc, ◌+◌, ◌-◌, ◌*◌, ◌^◌, ◌≤◌, ◌<◌, ◌≡◌, sym, ap, ◌∙◌, arith, inl, inr, Bool-cases, ltb,
  ltb→lt,
}

pub two-pow-suc : (k : ℕ) → 2 ^ suc k ≡ 2 * 2 ^ k
two-pow-suc k = omega (arith, pow-suc 2 k)

pub two-pow-pos : (k : ℕ) → 0 < 2 ^ k
two-pow-pos zero = omega arith
two-pow-pos (suc k) = omega (arith, two-pow-suc k, two-pow-pos k)

pub two-pow-add : (a b : ℕ) → 2 ^ (a + b) ≡ 2 ^ a * 2 ^ b
two-pow-add a zero = omega (arith, ap (λ (t : ℕ). 2 ^ t) {x = a + 0} {y = a} (omega arith))
two-pow-add a (suc b) = omega (
  arith,
  ap (λ (t : ℕ). 2 ^ t) {x = a + suc b} {y = suc (a + b)} (omega arith),
  two-pow-suc (a + b),
  two-pow-add a b,
  ap (λ (t : ℕ). 2 ^ a * t) (two-pow-suc b),
)

-- Two shifts that make 64.
pub two-pow-word : (a b : ℕ) → a + b ≡ 64 → 2 ^ a * 2 ^ b ≡ 2 ^ 64
two-pow-word a b e = sym (two-pow-add a b) ∙ ap (λ (t : ℕ). 2 ^ t) e

pub two-pow_mono : (a b : ℕ) → a ≤ b → 2 ^ a ≤ 2 ^ b
two-pow_mono a b h =
    let split : 2 ^ b ≡ 2 ^ (b - a) * 2 ^ a =
      ap (λ (t : ℕ). 2 ^ t) {x = b} {y = b - a + a} (omega arith) ∙ two-pow-add (b - a) a in
    omega (arith, split, mul-le-mul_right (2 ^ a) (two-pow-pos (b - a)))

pub lt_of_two-pow-lt : (a b : ℕ) → 2 ^ a < 2 ^ b → a < b
lt_of_two-pow-lt a b h = elim (Bool-cases (ltb a b)) [
  | inl e ↦ ltb→lt a b e
  | inr e ↦ absurd (omega (arith, two-pow_mono b a (ground arith)))
]
