-- ===== src/Uecc/Curve.antt =====
-- struct uECC_Curve_t, the reduction that a curve chooses, and the curve secp256r1, of
-- vendors/ocaml-uecc/src/uECC.c and curve-specific.h. The functions of a curve take its numbers; a
-- function whose loop could run out of fuel gives an option.
use tezos_master_lib_p2p.Prelude.{ℕ, ◌+◌, ◌/◌, List, [], ◌∷◌, Option}
use tezos_master_lib_p2p.Uecc.Mult.{mult, square}
use tezos_master_lib_p2p.Uecc.P256.{p256, mmod_fast_secp256r1}

-- BITS_TO_WORDS and BITS_TO_BYTES.
unfoldable pub bits_to_words : ℕ → ℕ
bits_to_words num_bits = (num_bits + 63) / 64

unfoldable pub bits_to_bytes : ℕ → ℕ
bits_to_bytes num_bits = (num_bits + 7) / 8

-- The numbers of a curve, and mmod_fast.
pub record Params : Type 0 where
  pub num_words : ℕ
  pub num_bytes : ℕ
  pub num_n_bits : ℕ
  pub p : List ℕ
  pub n : List ℕ
  pub g : List ℕ
  pub b : List ℕ
  pub mmod_fast : List ℕ → Option (List ℕ)

-- The arrays X and Y of a point, and Z beside them.
pub record Point : Type 0 where
  pub x : List ℕ
  pub y : List ℕ

pub record Jacobian : Type 0 where
  pub x : List ℕ
  pub y : List ℕ
  pub z : List ℕ

pub record Curve : Type 0 where
  pub params : Params
  pub double_jacobian : Params → Jacobian → Option Jacobian
  pub mod_sqrt : Params → List ℕ → Option (List ℕ)
  pub x_side : Params → List ℕ → Option (List ℕ)

-- uECC_vli_modMult_fast.
unfoldable pub mod_mult_fast : Params → List ℕ → List ℕ → Option (List ℕ)
mod_mult_fast c left right = c.mmod_fast (mult left right)

-- uECC_vli_modSquare_fast, with uECC_SQUARE_FUNC.
unfoldable pub mod_square_fast : Params → List ℕ → Option (List ℕ)
mod_square_fast c left = c.mmod_fast (square left)

-- The numbers of curve_secp256r1.
abbrev pub n256 : List ℕ
n256 = 0xf3b9cac2fc632551 ∷ 0xbce6faada7179e84 ∷ 0xffffffffffffffff ∷ 0xffffffff00000000 ∷ []

abbrev pub g256 : List ℕ
g256 =
    0xf4a13945d898c296 ∷ 0x77037d812deb33a0 ∷ 0xf8bce6e563a440f2 ∷ 0x6b17d1f2e12c4247
    ∷ 0xcbb6406837bf51f5 ∷ 0x2bce33576b315ece ∷ 0x8ee7eb4a7c0f9e16 ∷ 0x4fe342e2fe1a7f9b ∷ []

abbrev pub b256 : List ℕ
b256 = 0x3bce3c3e27d2604b ∷ 0x651d06b0cc53b0f6 ∷ 0xb3ebbd55769886bc ∷ 0x5ac635d8aa3a93e7 ∷ []

abbrev pub params_secp256r1 : Params
params_secp256r1 = record {
  num_words = 4;
  num_bytes = 32;
  num_n_bits = 256;
  p = p256;
  n = n256;
  g = g256;
  b = b256;
  mmod_fast = mmod_fast_secp256r1;
}
