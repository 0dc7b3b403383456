-- ===== src/Prelude/Words.antt =====
-- Fixed-width unsigned words as native numbers: every wrap of the C code is written out.
use Prim.Native.Nat.{ℕ, ◌*◌, ◌/◌, ◌%◌, ◌^◌}

abbrev pub byte_mod : ℕ
byte_mod = 2 ^ 8

abbrev pub word32_mod : ℕ
word32_mod = 2 ^ 32

abbrev pub word64_mod : ℕ
word64_mod = 2 ^ 64

-- `(uint8_t) n`, `(uint32_t) n` and `(uint64_t) n`.
abbrev pub u8 : ℕ → ℕ
u8 n = n % byte_mod

abbrev pub u32 : ℕ → ℕ
u32 n = n % word32_mod

abbrev pub u64 : ℕ → ℕ
u64 n = n % word64_mod

-- `x >> k`, and `x << k` before the cut to the word.
infixl 75 ◌<<◌ ◌>>>◌
abbrev pub ◌>>>◌ : ℕ → ℕ → ℕ
x >>> k = x / 2 ^ k

abbrev pub ◌<<◌ : ℕ → ℕ → ℕ
x << k = x * 2 ^ k
