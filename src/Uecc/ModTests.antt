-- ===== src/Uecc/ModTests.antt =====
-- The theorems about the modular operations at concrete inputs.
use native.Mathlib.Nat.{le_of_dvd, mod-eq-zero_of_dvd}
use tezos_master_lib_p2p.Prelude.{
  ℕ, zero, suc, ◌*◌, ◌%◌, ◌<◌, ◌≡◌, refl, List, [], ◌∷◌, some, length, arith,
}
use tezos_master_lib_p2p.Uecc.Mmod.{mmod, mod_inv}
use tezos_master_lib_p2p.Uecc.P256.{p256, mmod_fast_secp256r1}
use tezos_master_lib_p2p.Uecc.Value.{value, IsWords, IsNumber}
use tezos_master_lib_p2p.Uecc.Reduce.{mmod-IsNumber}
use tezos_master_lib_p2p.Uecc.Congruence.{IsCoprime}
use tezos_master_lib_p2p.Uecc.Inverse.{mod_inv-value}
use tezos_master_lib_p2p.Uecc.P256Reduce.{mmod_fast_secp256r1-value}

abbrev modulus : List ℕ
modulus = 9 ∷ 8 ∷ []

abbrev product : List ℕ
product = 5 ∷ 7 ∷ 9 ∷ 11 ∷ []

abbrev seven : List ℕ
seven = 7 ∷ []

abbrev three : List ℕ
three = 3 ∷ []

mmod-IsNumber_example : IsNumber (value product % value modulus) 2 (mmod product modulus)
mmod-IsNumber_example =
    mmod-IsNumber product modulus (omega arith) (omega arith) refl (omega arith) (omega arith)

-- No number from 1 to 6 has a divisor above 1 in common with 7.
pub below-seven-IsCoprime : (x : ℕ) → 0 < x → x < 7 → IsCoprime x 7
below-seven-IsCoprime x pos small d hx h7 =
    let le = le_of_dvd pos hx in let rest = mod-eq-zero_of_dvd d h7 in divides d (omega arith) rest
  where
    divides : (d : ℕ) → d < 7 → 7 % d ≡ 0 → d ≡ 1
    divides zero h e = absurd (omega arith)
    divides (suc zero) h e = refl
    divides (suc (suc zero)) h e = absurd (omega arith)
    divides (suc (suc (suc zero))) h e = absurd (omega arith)
    divides (suc (suc (suc (suc zero)))) h e = absurd (omega arith)
    divides (suc (suc (suc (suc (suc zero))))) h e = absurd (omega arith)
    divides (suc (suc (suc (suc (suc (suc zero)))))) h e = absurd (omega arith)
    divides (suc (suc (suc (suc (suc (suc (suc d))))))) h e = absurd (omega arith)

mod_inv-value_example :
    (r : List ℕ) × (mod_inv three seven ≡ some r)
    × IsWords r
    × (length r ≡ 1)
    × (value r < 7)
    × (value r * 3 % 7 ≡ 1)
mod_inv-value_example =
    mod_inv-value three seven (omega arith, tt) (omega arith, tt) refl refl (omega arith)
      (omega arith) (below-seven-IsCoprime 3 (omega arith) (omega arith))

abbrev eight_words : List ℕ
eight_words = 1 ∷ 2 ∷ 3 ∷ 4 ∷ 5 ∷ 6 ∷ 7 ∷ 8 ∷ []

mmod_fast_secp256r1-value_example :
    (r : List ℕ) × (mmod_fast_secp256r1 eight_words ≡ some r)
    × IsNumber (value eight_words % value p256) 4 r
mmod_fast_secp256r1-value_example = mmod_fast_secp256r1-value eight_words (omega arith) refl
