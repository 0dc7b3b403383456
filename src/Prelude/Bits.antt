-- ===== src/Prelude/Bits.antt =====
-- Laws of the bitwise operations at variables, from their digit recursion.
use Prim.Native.Nat.{
  ℕ, zero, suc, ◌+◌, ◌-◌, ◌*◌, ◌/◌, ◌%◌, ◌^◌, ◌≤◌, ◌<◌, min, max, differ, bit_and, bit_or, bit_xor,
  digits, bitwise, bit_and-bitwise, bit_or-bitwise, bit_xor-bitwise,
}
use mathlib.Core.Path.{◌≡◌, refl, sym, ap, ◌∙◌}
use mathlib.Core.Logic.{◌↔◌}
use native.Mathlib.Nat.{pow-suc, one-le-pow, div-div-eq-div-mul, div-add-mod}
use native.Mathlib.Omega.{arith}

-- Fuel past the first number's size changes nothing.
module _ (z : ℕ → ℕ) (f : ℕ → ℕ → ℕ) where
  digits-enough : (m n a b : ℕ) → a ≤ m → a ≤ n → digits z f m a b ≡ digits z f n a b
  digits-enough zero zero a b p q = refl
  digits-enough zero (suc n) zero b p q = refl
  digits-enough zero (suc n) (suc a) b p q = absurd (omega arith)
  digits-enough (suc m) zero zero b p q = refl
  digits-enough (suc m) zero (suc a) b p q = absurd (omega arith)
  digits-enough (suc m) (suc n) zero b p q = refl
  digits-enough (suc m) (suc n) (suc a) b p q =
      ap (λ t. t * 2 + f (suc a % 2) (b % 2))
        (digits-enough m n (suc a / 2) (b / 2) (omega arith) (omega arith))

  -- One digit less, at the fuel that the next number gives itself.
  digits-halves : (a b : ℕ) → digits z f a (suc a / 2) (b / 2) ≡ bitwise z f (suc a / 2) (b / 2)
  digits-halves a b = digits-enough a (suc a / 2) (suc a / 2) (b / 2) (omega arith) (omega arith)

zero-bit_or : (b : ℕ) → bit_or 0 b ≡ b
zero-bit_or b = bit_or-bitwise 0 b

-- The lowest digit of a disjunction, and the rest.
pub bit_or-digit : (a b : ℕ) → bit_or a b ≡ bit_or (a / 2) (b / 2) * 2 + max (a % 2) (b % 2)
bit_or-digit zero b = omega (arith, zero-bit_or b, zero-bit_or (b / 2))
bit_or-digit (suc a) b = omega (
  arith,
  bit_or-bitwise (suc a) b,
  bit_or-bitwise (suc a / 2) (b / 2),
  digits-halves (λ y. y) max a b,
)

bit_or-zero_below : (n a : ℕ) → a ≤ n → bit_or a 0 ≡ a
bit_or-zero_below n zero h = refl
bit_or-zero_below zero (suc a) h = absurd (omega arith)
bit_or-zero_below (suc n) (suc a) h =
    omega (arith, bit_or-digit (suc a) 0, bit_or-zero_below n (suc a / 2) (omega arith))

pub bit_or-zero : (a : ℕ) → bit_or a 0 ≡ a
bit_or-zero a = bit_or-zero_below a a (omega arith)

-- `lo | hi << k` is a sum when `lo` fits in `k` bits.
pub bit_or-low_high : (k lo hi : ℕ) → lo < 2 ^ k → bit_or lo (hi * 2 ^ k) ≡ lo + hi * 2 ^ k
bit_or-low_high zero lo hi h = ground (arith, zero-bit_or hi)
bit_or-low_high (suc k) lo hi h = ground (
  arith,
  bit_or-digit lo (hi * 2 ^ suc k),
  pow-suc 2 k,
  ap (λ (t : ℕ). hi * t) (pow-suc 2 k),
  bit_or-low_high k (lo / 2) hi,
)

-- The same with the shifted part first.
pub bit_or-high_low : (k hi lo : ℕ) → lo < 2 ^ k → bit_or (hi * 2 ^ k) lo ≡ lo + hi * 2 ^ k
bit_or-high_low zero hi lo h = ground (arith, bit_or-zero hi)
bit_or-high_low (suc k) hi lo h = ground (
  arith,
  bit_or-digit (hi * 2 ^ suc k) lo,
  pow-suc 2 k,
  ap (λ (t : ℕ). hi * t) (pow-suc 2 k),
  bit_or-high_low k hi (lo / 2),
)

-- A disjunction is zero only if both parts are.
bit_or-eq-zero_below : (n a b : ℕ) → a ≤ n → b ≤ n → bit_or a b ≡ 0 → (a ≡ 0) × (b ≡ 0)
bit_or-eq-zero_below zero a b p q e = (omega arith, omega arith)
bit_or-eq-zero_below (suc n) a b p q e =
    let halves =
      bit_or-eq-zero_below n (a / 2) (b / 2) (omega arith) (omega arith)
        (omega (arith, bit_or-digit a b)) in
    (omega (arith, bit_or-digit a b), omega (arith, bit_or-digit a b))

pub bit_or-eq-zero : (a b : ℕ) → (bit_or a b ≡ 0) ↔ ((a ≡ 0) × (b ≡ 0))
bit_or-eq-zero a b =
    (λ e. bit_or-eq-zero_below (a + b) a b (omega arith) (omega arith) e, λ e. ground arith)

zero-bit_xor : (b : ℕ) → bit_xor 0 b ≡ b
zero-bit_xor b = bit_xor-bitwise 0 b

differ-mod : (x y : ℕ) → x < 2 → y < 2 → differ x y ≡ (x + y) % 2
differ-mod zero y hx hy = omega arith
differ-mod (suc x) zero hx hy = omega arith
differ-mod (suc zero) (suc zero) hx hy = refl
differ-mod (suc zero) (suc (suc y)) hx hy = absurd (omega arith)
differ-mod (suc (suc x)) (suc y) hx hy = absurd (omega arith)

pub bit_xor-digit : (a b : ℕ) → bit_xor a b ≡ bit_xor (a / 2) (b / 2) * 2 + (a + b) % 2
bit_xor-digit zero b = omega (arith, zero-bit_xor b, zero-bit_xor (b / 2))
bit_xor-digit (suc a) b = omega (
  arith,
  bit_xor-bitwise (suc a) b,
  bit_xor-bitwise (suc a / 2) (b / 2),
  digits-halves (λ y. y) differ a b,
  differ-mod (suc a % 2) (b % 2) (omega arith) (omega arith),
)

-- An exclusive disjunction is zero only of equal numbers.
bit_xor-eq-zero_below : (n a b : ℕ) → a ≤ n → b ≤ n → bit_xor a b ≡ 0 → a ≡ b
bit_xor-eq-zero_below zero a b p q e = omega arith
bit_xor-eq-zero_below (suc n) a b p q e = omega (
  arith,
  bit_xor-digit a b,
  bit_xor-eq-zero_below n (a / 2) (b / 2) (omega arith) (omega arith)
      (omega (arith, bit_xor-digit a b)),
)

bit_xor-self_below : (n a : ℕ) → a ≤ n → bit_xor a a ≡ 0
bit_xor-self_below zero a p =
    omega (arith, bit_xor-digit a a, zero-bit_xor 0, ap (λ t. bit_xor t t) zeroed)
  where
    zeroed : a ≡ 0
    zeroed = omega arith
bit_xor-self_below (suc n) a p =
    omega (arith, bit_xor-digit a a, bit_xor-self_below n (a / 2) (omega arith))

pub bit_xor-eq-zero : (a b : ℕ) → (bit_xor a b ≡ 0) ↔ (a ≡ b)
bit_xor-eq-zero a b = (
  λ e. bit_xor-eq-zero_below (a + b) a b (omega arith) (omega arith) e,
  λ e. ap (λ t. bit_xor t b) e ∙ bit_xor-self_below b b (omega arith),
)

zero-bit_and : (b : ℕ) → bit_and 0 b ≡ 0
zero-bit_and b = bit_and-bitwise 0 b

pub bit_and-digit : (a b : ℕ) → bit_and a b ≡ bit_and (a / 2) (b / 2) * 2 + min (a % 2) (b % 2)
bit_and-digit zero b = omega (arith, zero-bit_and b, zero-bit_and (b / 2))
bit_and-digit (suc a) b = omega (
  arith,
  bit_and-bitwise (suc a) b,
  bit_and-bitwise (suc a / 2) (b / 2),
  digits-halves (λ y. 0) min a b,
)

bit_and-zero_below : (n a : ℕ) → a ≤ n → bit_and a 0 ≡ 0
bit_and-zero_below n zero h = refl
bit_and-zero_below zero (suc a) h = absurd (omega arith)
bit_and-zero_below (suc n) (suc a) h =
    omega (arith, bit_and-digit (suc a) 0, bit_and-zero_below n (suc a / 2) (omega arith))

pub bit_and-zero : (a : ℕ) → bit_and a 0 ≡ 0
bit_and-zero a = bit_and-zero_below a a (omega arith)

-- `a & (1 << k)` is the digit at `k`, in its place.
pub bit_and-power : (k a : ℕ) → bit_and a (2 ^ k) ≡ a / 2 ^ k % 2 * 2 ^ k
bit_and-power zero a = omega (arith, bit_and-digit a 1, bit_and-zero (a / 2))
bit_and-power (suc k) a =
    let double : 2 ^ suc k ≡ 2 * 2 ^ k = omega (arith, pow-suc 2 k) in
    let quotient : a / 2 ^ suc k ≡ a / 2 / 2 ^ k =
      ap (λ t. a / t) double ∙ sym (div-div-eq-div-mul a 2 (2 ^ k)) in
    let upper : bit_and (a / 2) (2 ^ suc k / 2) ≡ a / 2 / 2 ^ k % 2 * 2 ^ k =
      ap (λ t. bit_and (a / 2) t) (omega (arith, double)) ∙ bit_and-power k (a / 2) in
    ground (
      arith,
      bit_and-digit a (2 ^ suc k),
      double,
      quotient,
      upper,
      ap (λ (t : ℕ). a / 2 / 2 ^ k % 2 * t) double,
    )

-- `a & 63`, a mask of six ones.
pub bit_and-sixty_three : (a : ℕ) → bit_and a 63 ≡ a % 64
bit_and-sixty_three a = omega (
  arith,
  bit_and-digit a 63,
  bit_and-digit (a / 2) 31,
  bit_and-digit (a / 2 / 2) 15,
  bit_and-digit (a / 2 / 2 / 2) 7,
  bit_and-digit (a / 2 / 2 / 2 / 2) 3,
  bit_and-digit (a / 2 / 2 / 2 / 2 / 2) 1,
  bit_and-zero (a / 2 / 2 / 2 / 2 / 2 / 2),
)

bit_or-le_below : (n a b : ℕ) → a ≤ n → a ≤ bit_or a b
bit_or-le_below zero a b h = omega arith
bit_or-le_below (suc n) a b h =
    omega (arith, bit_or-digit a b, bit_or-le_below n (a / 2) (b / 2) (omega arith))

pub bit_or-le : (a b : ℕ) → a ≤ bit_or a b
bit_or-le a b = bit_or-le_below a a b (omega arith)

-- A mask of `k` ones keeps the `k` lowest digits.
pub bit_and-low_mask : (k a : ℕ) → bit_and a (2 ^ k - 1) ≡ a % 2 ^ k
bit_and-low_mask zero a = omega (arith, bit_and-zero a)
bit_and-low_mask (suc k) a =
    let double : 2 ^ suc k ≡ 2 * 2 ^ k = omega (arith, pow-suc 2 k) in
    let positive = one-le-pow k 2 (omega arith) in
    let upper : bit_and (a / 2) ((2 ^ suc k - 1) / 2) ≡ a / 2 % 2 ^ k =
      ap (λ t. bit_and (a / 2) t) {x = (2 ^ suc k - 1) / 2} {y = 2 ^ k - 1}
        (omega (arith, double, positive))
      ∙ bit_and-low_mask k (a / 2) in
    let quotient : a / (2 * 2 ^ k) ≡ a / 2 / 2 ^ k = sym (div-div-eq-div-mul a 2 (2 ^ k)) in
    omega (
      arith,
      double,
      positive,
      bit_and-digit a (2 ^ suc k - 1),
      upper,
      ap (λ t. a % t) double,
      div-add-mod a (2 * 2 ^ k),
      div-add-mod (a / 2) (2 ^ k),
      ap (λ (t : ℕ). 2 * 2 ^ k * t) quotient,
    )

-- A mask whose `k` lowest digits are zero clears these.
pub bit_and-high_mask : (k a m : ℕ) → bit_and a (m * 2 ^ k) ≡ bit_and (a / 2 ^ k) m * 2 ^ k
bit_and-high_mask zero a m = ground arith
bit_and-high_mask (suc k) a m =
    let double : 2 ^ suc k ≡ 2 * 2 ^ k = omega (arith, pow-suc 2 k) in
    let quotient : a / 2 ^ suc k ≡ a / 2 / 2 ^ k =
      ap (λ t. a / t) double ∙ sym (div-div-eq-div-mul a 2 (2 ^ k)) in
    let upper : bit_and (a / 2) (m * 2 ^ suc k / 2) ≡ bit_and (a / 2 / 2 ^ k) m * 2 ^ k =
      ap (λ t. bit_and (a / 2) t) {x = m * 2 ^ suc k / 2} {y = m * 2 ^ k}
        (omega (arith, ap (λ (t : ℕ). m * t) double))
      ∙ bit_and-high_mask k (a / 2) m in
    omega (
      arith,
      double,
      bit_and-digit a (m * 2 ^ suc k),
      upper,
      ap (λ (t : ℕ). m * t) double,
      ap (λ t. bit_and t m * 2 ^ suc k) quotient,
      ap (λ (t : ℕ). bit_and (a / 2 / 2 ^ k) m * t) double,
    )

bit_and-le_below : (n a b : ℕ) → a ≤ n → bit_and a b ≤ a
bit_and-le_below zero a b h =
    omega (arith, zero-bit_and b, ap (λ (t : ℕ). bit_and t b) {x = a} {y = 0} (omega arith))
bit_and-le_below (suc n) zero b h = bit_and-le_below n zero b (omega arith)
bit_and-le_below (suc n) (suc a) b h =
    ground (arith, bit_and-digit (suc a) b, bit_and-le_below n (suc a / 2) (b / 2) (omega arith))

pub bit_and-le : (a b : ℕ) → bit_and a b ≤ a
bit_and-le a b = bit_and-le_below a a b (omega arith)
