-- ===== src/Uecc/Congruence.antt =====
-- Congruence of numbers, with its multiples shown, and numbers without a common divisor.
use Prim.Native.Nat.{◌∣◌}
use native.Mathlib.Nat.{dvd-add}
use tezos_master_lib_p2p.Prelude.{
  ℕ, ◌+◌, ◌-◌, ◌*◌, ◌/◌, ◌%◌, ◌≤◌, ◌<◌, ◌≡◌, ap, arith, ◌==◌, if◌then◌else◌, inl, inr, Bool-cases,
  ltb, ==_iff,
}

-- a and b leave the same residue modulo m.
pub record IsCongruent (m a b : ℕ) : Type 0 where
  pub left : ℕ
  pub right : ℕ
  pub same : a + left * m ≡ b + right * m

abbrev pub IsCoprime : ℕ → ℕ → Type 0
IsCoprime a b = (d : ℕ) → d ∣ a → d ∣ b → d ≡ 1

-- u / 2 modulo an odd m.
abbrev pub half_mod : ℕ → ℕ → ℕ
half_mod u m = if u % 2 == 0 then u / 2 else (u + m) / 2

pub half_mod-lt : (u m : ℕ) → u < m → half_mod u m < m
half_mod-lt u m h = ground arith

half_mod_double : (u m : ℕ) → m % 2 ≡ 1 → 2 * half_mod u m ≡ u + u % 2 * m
half_mod_double u m odd = elim (Bool-cases (u % 2 == 0)) [
  | inl e ↦
      let none : u % 2 ≡ 0 = (==_iff (u % 2) 0).0 e in
      rw e (omega (arith, ap (λ (t : ℕ). t * m) none))
  | inr e ↦ let one : u % 2 ≡ 1 = ground arith in rw e (omega (arith, ap (λ (t : ℕ). t * m) one))
]

-- Twice a number determines it modulo an odd m.
IsCongruent-half : (m s t : ℕ) → m % 2 ≡ 1 → IsCongruent m (2 * s) (2 * t) → IsCongruent m s t
IsCongruent-half m s t odd h =
    let whole : m ≡ 2 * (m / 2) + 1 = omega arith in
    let parity : h.left % 2 ≡ h.right % 2 =
      omega (arith, h.same, ap (λ (t : ℕ). h.left * t) whole, ap (λ (t : ℕ). h.right * t) whole) in
    let left : h.left ≡ 2 * (h.left / 2) + h.left % 2 = omega arith in
    let right : h.right ≡ 2 * (h.right / 2) + h.right % 2 = omega arith in
    record {
      left = h.left / 2;
      right = h.right / 2;
      same = omega (
        arith,
        h.same,
        ap (λ (t : ℕ). t * m) left,
        ap (λ (t : ℕ). t * m) right,
        ap (λ (t : ℕ). t * m) parity,
      );
    }

-- An even number and its cofactor, both halved.
pub halve-IsCongruent :
    (m x a u : ℕ)
    → m % 2 ≡ 1
    → a % 2 ≡ 0
    → IsCongruent m (u * x) a
    → IsCongruent m (half_mod u m * x) (a / 2)
halve-IsCongruent m x a u odd even h = IsCongruent-half m (half_mod u m * x) (a / 2) odd (record {
  left = h.left;
  right = h.right + u % 2 * x;
  same = omega (arith, h.same, ap (λ (t : ℕ). t * x) (half_mod_double u m odd));
})

-- u - v, raised by m where it would fall below zero.
abbrev pub sub_mod : ℕ → ℕ → ℕ → ℕ
sub_mod u v m = if ltb u v then u + m - v else u - v

pub sub_mod-lt : (u v m : ℕ) → u < m → v < m → sub_mod u v m < m
sub_mod-lt u v m hu hv = ground arith

pub sub-IsCongruent :
    (m x a b u v : ℕ)
    → b ≤ a
    → v < m
    → IsCongruent m (u * x) a
    → IsCongruent m (v * x) b
    → IsCongruent m (sub_mod u v m * x) (a - b)
sub-IsCongruent m x a b u v le hv hu hb = elim (Bool-cases (ltb u v)) [
  | inl e ↦
      let whole : u + m - v + v ≡ u + m = omega arith in
      rw e (record {
        left = hu.left + hb.right;
        right = hu.right + hb.left + x;
        same = omega (arith, hu.same, hb.same, ap (λ (t : ℕ). t * x) whole);
      })
  | inr e ↦
      let whole : u - v + v ≡ u = ground arith in
      rw e (record {
        left = hu.left + hb.right;
        right = hu.right + hb.left;
        same = omega (arith, hu.same, hb.same, ap (λ (t : ℕ). t * x) whole);
      })
]

-- Halving an even number keeps it coprime.
pub halve-IsCoprime : (a b : ℕ) → a % 2 ≡ 0 → IsCoprime a b → IsCoprime (a / 2) b
halve-IsCoprime a b even h d p q =
    let whole : a / 2 + a / 2 ≡ a = omega arith in h d (rw (← whole) (dvd-add d p p)) q

pub sub-IsCoprime : (a b : ℕ) → b ≤ a → IsCoprime a b → IsCoprime (a - b) b
sub-IsCoprime a b le h d p q =
    let whole : a - b + b ≡ a = omega arith in h d (rw (← whole) (dvd-add d p q)) q

pub IsCoprime-comm : (a b : ℕ) → IsCoprime a b → IsCoprime b a
IsCoprime-comm a b h d p q = h d q p
