-- ===== src/Uecc/Value.antt =====
-- The number that an array of words stands for.
use tezos_master_lib_p2p.Prelude.{
  ℕ, zero, suc, ◌+◌, ◌*◌, ◌^◌, ◌≤◌, ◌<◌, ◌≡◌, refl, ap, List, [], ◌∷◌, ◌++◌, length, take, set,
  get_or, replicate, word64_mod, arith,
}
use tezos_master_lib_p2p.Prelude.Powers.{two-pow-add}

abbrev pub value : List ℕ → ℕ
value [] = 0
value (w ∷ ws) = w + word64_mod * value ws

-- 2 ^ (64 * length ws)
abbrev pub weight : List ℕ → ℕ
weight [] = 1
weight (w ∷ ws) = word64_mod * weight ws

abbrev pub IsWords : List ℕ → Type 0
IsWords [] = Unit {0}
IsWords (w ∷ ws) = (w < word64_mod) × IsWords ws

pub value-lt-weight : (ws : List ℕ) → IsWords ws → value ws < weight ws
value-lt-weight [] h = omega arith
value-lt-weight (w ∷ ws) h = omega (arith, value-lt-weight ws h.1)

pub weight-length : (ws vs : List ℕ) → length ws ≡ length vs → weight ws ≡ weight vs
weight-length [] [] h = refl
weight-length [] (v ∷ vs) h = absurd (omega arith)
weight-length (w ∷ ws) [] h = absurd (omega arith)
weight-length (w ∷ ws) (v ∷ vs) h = omega (arith, weight-length ws vs (omega arith))

-- Words of one length are determined by their value.
pub value-injective :
    (ws vs : List ℕ)
    → IsWords ws
    → IsWords vs
    → length ws ≡ length vs
    → value ws ≡ value vs
    → ws ≡ vs
value-injective [] [] hw hv n e = refl
value-injective [] (v ∷ vs) hw hv n e = absurd (omega arith)
value-injective (w ∷ ws) [] hw hv n e = absurd (omega arith)
value-injective (w ∷ ws) (v ∷ vs) hw hv n e =
    let heads : w ≡ v = omega arith in
    let tails = value-injective ws vs hw.1 hv.1 (omega arith) (omega arith) in cc

pub value-append : (ws vs : List ℕ) → value (ws ++ vs) ≡ value ws + weight ws * value vs
value-append [] vs = omega arith
value-append (w ∷ ws) vs = omega (arith, value-append ws vs)

pub IsWords-append : (ws vs : List ℕ) → IsWords ws → IsWords vs → IsWords (ws ++ vs)
IsWords-append [] vs h g = g
IsWords-append (w ∷ ws) vs h g = (h.0, IsWords-append ws vs h.1 g)

pub weight-append : (ws vs : List ℕ) → weight (ws ++ vs) ≡ weight ws * weight vs
weight-append [] vs = omega arith
weight-append (w ∷ ws) vs = omega (arith, weight-append ws vs)

-- num_words words of zeros.
pub clear-IsWords : (n : ℕ) → IsWords (replicate n 0)
clear-IsWords zero = tt
clear-IsWords (suc n) = (omega arith, clear-IsWords n)

pub value-clear : (n : ℕ) → value (replicate n 0) ≡ 0
value-clear zero = refl
value-clear (suc n) = omega (arith, value-clear n)

pub weight-power : (ws : List ℕ) → weight ws ≡ 2 ^ (64 * length ws)
weight-power [] = refl
weight-power (w ∷ ws) = omega (
  arith,
  weight-power ws,
  two-pow-add 64 (64 * length ws),
  ap (λ (t : ℕ). 2 ^ t) {x = 64 * suc (length ws)} {y = 64 + 64 * length ws} (omega arith),
)

pub IsWords-take : (n : ℕ) (ws : List ℕ) → IsWords ws → IsWords (take n ws)
IsWords-take zero ws h = tt
IsWords-take (suc n) [] h = tt
IsWords-take (suc n) (w ∷ ws) h = (h.0, IsWords-take n ws h.1)

-- Words above a small number are zero.
pub value-take :
    (n : ℕ) (ws : List ℕ)
    → n ≤ length ws
    → IsWords ws
    → value ws < 2 ^ (64 * n)
    → value (take n ws) ≡ value ws
value-take zero ws k h small = omega arith
value-take (suc n) [] k h small = refl
value-take (suc n) (w ∷ ws) k h small = omega (
  arith,
  two-pow-add 64 (64 * n),
  ap (λ (t : ℕ). 2 ^ t) {x = 64 * suc n} {y = 64 + 64 * n} (omega arith),
  value-take n ws (omega arith) h.1 (
      omega (
        arith,
        two-pow-add 64 (64 * n),
        ap (λ (t : ℕ). 2 ^ t) {x = 64 * suc n} {y = 64 + 64 * n} (omega arith),
      )),
)

-- `len` words whose number is `n`.
pub record IsNumber (n len : ℕ) (ws : List ℕ) : Type 0 where
  pub words : IsWords ws
  pub same_length : length ws ≡ len
  pub number : value ws ≡ n

pub set-IsWords : (ws : List ℕ) (i v : ℕ) → IsWords ws → v < word64_mod → IsWords (set ws i v)
set-IsWords [] i v h small = h
set-IsWords (w ∷ ws) zero v h small = (small, h.1)
set-IsWords (w ∷ ws) (suc i) v h small = (h.0, set-IsWords ws i v h.1 small)

pub get_or-IsWords : (ws : List ℕ) (i : ℕ) → IsWords ws → get_or ws i 0 < word64_mod
get_or-IsWords [] i h = omega arith
get_or-IsWords (w ∷ ws) zero h = h.0
get_or-IsWords (w ∷ ws) (suc i) h = get_or-IsWords ws i h.1
