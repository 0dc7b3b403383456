-- ===== src/Uecc/Field.antt =====
-- The operations of uECC.c modulo the prime of a curve, on numbers below it.
use native.Mathlib.Nat.{mod-lt}
use tezos_master_lib_p2p.Prelude.{
  ℕ, ◌+◌, ◌-◌, ◌*◌, ◌%◌, ◌≤◌, ◌<◌, ◌≡◌, refl, List, length, word64_mod, Returns, arith,
}
use tezos_master_lib_p2p.Uecc.Vli.{mod_add, mod_sub}
use tezos_master_lib_p2p.Uecc.Mult.{mult, square}
use tezos_master_lib_p2p.Uecc.Product.{mult-value}
use tezos_master_lib_p2p.Uecc.Square.{square-value}
use tezos_master_lib_p2p.Uecc.Value.{IsNumber, value, IsWords}
use tezos_master_lib_p2p.Uecc.ModSum.{
  IsResidues, mod_add-value, mod_sub-value, mod_add-Fits, mod_sub-Fits,
}
use tezos_master_lib_p2p.Uecc.Curve.{Params, mod_mult_fast, mod_square_fast, params_secp256r1}
use tezos_master_lib_p2p.Uecc.P256Reduce.{mmod_fast_secp256r1-value}

-- Addition, subtraction and multiplication modulo m, of numbers below m.
abbrev pub plus_mod : ℕ → ℕ → ℕ → ℕ
plus_mod m a b = (a + b) % m

abbrev pub minus_mod : ℕ → ℕ → ℕ → ℕ
minus_mod m a b = (a + m - b) % m

abbrev pub times_mod : ℕ → ℕ → ℕ → ℕ
times_mod m a b = a * b % m

-- A curve whose prime has num_words words and whose mmod_fast reduces by it.
pub record IsField (c : Params) : Type 0 where
  pub modulus_words : IsWords c.p
  pub same_length : length c.p ≡ c.num_words
  pub some_words : 1 ≤ c.num_words
  pub few_words : c.num_words < word64_mod
  pub modulus_pos : 0 < value c.p
  pub reduces :
      (product : List ℕ)
      → IsWords product
      → length product ≡ 2 * c.num_words
      → Returns (IsNumber (value product % value c.p) c.num_words) (c.mmod_fast product)

pub secp256r1-IsField : IsField params_secp256r1
secp256r1-IsField = record {
  modulus_words = omega arith;
  same_length = refl;
  some_words = omega arith;
  few_words = omega arith;
  modulus_pos = omega arith;
  reduces = λ product h e. mmod_fast_secp256r1-value product h e;
}

-- num_words words whose number is x, below the prime.
pub record IsResidue (c : Params) (x : ℕ) (ws : List ℕ) : Type 0 where
  pub words : IsWords ws
  pub same_length : length ws ≡ c.num_words
  pub number : value ws ≡ x
  pub below : x < value c.p

module _ (c : Params) (field : IsField c) where
  pair-IsResidues :
      (x y : ℕ) (l r : List ℕ) → IsResidue c x l → IsResidue c y r → IsResidues l r c.p
  pair-IsResidues x y l r hl hr = record {
    left_words = hl.words;
    right_words = hr.words;
    modulus_words = field.modulus_words;
    same_left = omega (arith, hl.same_length, field.same_length);
    same_right = omega (arith, hr.same_length, field.same_length);
    left_below = omega (arith, hl.number, hl.below);
    right_below = omega (arith, hr.number, hr.below);
  }

  pub mod_add-IsResidue :
      {x y : ℕ} {l r : List ℕ}
      → IsResidue c x l
      → IsResidue c y r
      → IsResidue c (plus_mod (value c.p) x y) (mod_add l r c.p)
  mod_add-IsResidue {x} {y} {l} {r} hl hr =
      let both = pair-IsResidues x y l r hl hr in
      let fits = mod_add-Fits l r c.p both in
      record {
        words = fits.0;
        same_length = omega (arith, fits.1, field.same_length);
        number = rw (mod_add-value l r c.p both, hl.number, hr.number) refl;
        below = mod-lt (x + y) field.modulus_pos;
      }

  pub mod_sub-IsResidue :
      {x y : ℕ} {l r : List ℕ}
      → IsResidue c x l
      → IsResidue c y r
      → IsResidue c (minus_mod (value c.p) x y) (mod_sub l r c.p)
  mod_sub-IsResidue {x} {y} {l} {r} hl hr =
      let both = pair-IsResidues x y l r hl hr in
      let fits = mod_sub-Fits l r c.p both in
      record {
        words = fits.0;
        same_length = omega (arith, fits.1, field.same_length);
        number = rw (mod_sub-value l r c.p both, hl.number, hr.number) refl;
        below = mod-lt (x + value c.p - y) field.modulus_pos;
      }

  -- mmod_fast on the words of a product of two numbers.
  reduced-Returns :
      (x y : ℕ) (ws : List ℕ)
      → IsWords ws
      → length ws ≡ 2 * c.num_words
      → value ws ≡ x * y
      → Returns (IsResidue c (times_mod (value c.p) x y)) (c.mmod_fast ws)
  reduced-Returns x y ws hw same e =
      let (res, returned, h) = field.reduces ws hw same in
      (
        res,
        returned,
        record {
          words = h.words;
          same_length = h.same_length;
          number = rw (h.number, e) refl;
          below = mod-lt (x * y) field.modulus_pos;
        },
      )

  -- Of residues, `mod_mult_fast` gives the residue of the product; it does not run out of fuel.
  pub mod_mult_fast-Returns :
      {x y : ℕ} {l r : List ℕ}
      → IsResidue c x l
      → IsResidue c y r
      → Returns (IsResidue c (times_mod (value c.p) x y)) (mod_mult_fast c l r)
  unfolding mod_mult_fast
  mod_mult_fast-Returns {x} {y} {l} {r} hl hr =
      let full =
        mult-value l r hl.words hr.words (omega (arith, hl.same_length, hr.same_length))
          (omega (arith, hl.same_length, field.some_words))
          (omega (arith, hl.same_length, field.few_words)) in
      reduced-Returns x y (mult l r) full.0 (omega (arith, full.1, hl.same_length))
        (rw (full.2, hl.number, hr.number) refl)

  -- The same of `mod_square_fast` and the square.
  pub mod_square_fast-Returns :
      {x : ℕ} {l : List ℕ}
      → IsResidue c x l
      → Returns (IsResidue c (times_mod (value c.p) x x)) (mod_square_fast c l)
  unfolding mod_square_fast
  mod_square_fast-Returns {x} {l} hl =
      let full =
        square-value l hl.words (omega (arith, hl.same_length, field.some_words))
          (omega (arith, hl.same_length, field.few_words)) in
      reduced-Returns x x (square l) full.0 (omega (arith, full.1, hl.same_length))
        (rw (full.2, hl.number) refl)
