-- ===== src/Uecc/P256Terms.antt =====
-- The numbers of the terms of vli_mmod_fast_secp256r1 of curve-specific.h.
use tezos_master_lib_p2p.Prelude.{
  ℕ, ◌+◌, ◌-◌, ◌*◌, ◌/◌, ◌%◌, ◌^◌, ◌<◌, ◌≡◌, refl, ap, ap₂, ◌∙◌, bit_or, word64_mod, word32_mod,
  arith,
}
use tezos_master_lib_p2p.Prelude.Bits.{bit_or-low_high, bit_and-low_mask, bit_and-high_mask}
use tezos_master_lib_p2p.Uecc.P256.{
  high_half, low_half, straddle, raise, s1, s2, s3, s4, d1, d2, d3, d4,
}
use tezos_master_lib_p2p.Uecc.Value.{IsNumber}

low_half-value : (w : ℕ) → low_half w ≡ w % word32_mod
unfolding low_half
low_half-value w = bit_and-low_mask 32 w

high_half-value : (w : ℕ) → w < word64_mod → high_half w ≡ w / word32_mod * word32_mod
unfolding high_half
high_half-value w h =
    omega (arith, bit_and-high_mask 32 w (2 ^ 32 - 1), bit_and-low_mask 32 (w / 2 ^ 32))

straddle-value :
    (a b : ℕ) → a < word64_mod → straddle a b ≡ a / word32_mod + b % word32_mod * word32_mod
unfolding straddle
straddle-value a b h =
    let shifted : b * 2 ^ 32 % word64_mod ≡ b % word32_mod * 2 ^ 32 = omega arith in
    ap (λ t. bit_or (a / 2 ^ 32) t) shifted
    ∙ bit_or-low_high 32 (a / 2 ^ 32) (b % word32_mod) (omega arith)

raise-value : (w : ℕ) → raise w ≡ w % word32_mod * word32_mod
unfolding raise
raise-value w = omega arith

-- The two halves of a word.
abbrev pub lo : ℕ → ℕ
lo w = w % word32_mod

abbrev pub hi : ℕ → ℕ
hi w = w / word32_mod

-- Eight halves as one number, lowest first.
abbrev pub number_of : ℕ → ℕ → ℕ → ℕ → ℕ → ℕ → ℕ → ℕ → ℕ
number_of a0 a1 a2 a3 a4 a5 a6 a7 =
    a0
    + 2 ^ 32 * a1
    + 2 ^ 64 * a2
    + 2 ^ 96 * a3
    + 2 ^ 128 * a4
    + 2 ^ 160 * a5
    + 2 ^ 192 * a6
    + 2 ^ 224 * a7

module _ (p4 p5 p6 p7 : ℕ) (h4 : p4 < word64_mod) (h5 : p5 < word64_mod) (h6 : p6 < word64_mod)
    (h7 : p7 < word64_mod) where
  pub s1-IsNumber :
      IsNumber (number_of 0 0 0 (hi p5) (lo p6) (hi p6) (lo p7) (hi p7)) 4 (s1 p4 p5 p6 p7)
  unfolding s1
  s1-IsNumber = record {
    words = omega (arith, high_half-value p5 h5);
    same_length = refl;
    number = omega (arith, high_half-value p5 h5);
  }

  pub s2-IsNumber : IsNumber (number_of 0 0 0 (lo p6) (hi p6) (lo p7) (hi p7) 0) 4 (s2 p4 p5 p6 p7)
  unfolding s2
  s2-IsNumber = record {
    words = omega (arith, raise-value p6, straddle-value p6 p7 h6);
    same_length = refl;
    number = omega (arith, raise-value p6, straddle-value p6 p7 h6);
  }

  pub s3-IsNumber :
      IsNumber (number_of (lo p4) (hi p4) (lo p5) 0 0 0 (lo p7) (hi p7)) 4 (s3 p4 p5 p6 p7)
  unfolding s3
  s3-IsNumber = record {
    words = omega (arith, low_half-value p5);
    same_length = refl;
    number = omega (arith, low_half-value p5);
  }

  pub s4-IsNumber :
      IsNumber
        (number_of (hi p4) (lo p5) (hi p5) (hi p6) (lo p7) (hi p7) (hi p6) (lo p4))
        4
        (s4 p4 p5 p6 p7)
  unfolding s4
  s4-IsNumber =
      let joined : bit_or (p5 / 2 ^ 32) (high_half p6) ≡ hi p5 + hi p6 * word32_mod =
        ap (λ t. bit_or (p5 / 2 ^ 32) t) (high_half-value p6 h6)
        ∙ bit_or-low_high 32 (hi p5) (hi p6) (omega arith) in
      record {
        words = omega (arith, straddle-value p4 p5 h4, straddle-value p6 p4 h6, joined);
        same_length = refl;
        number = omega (arith, straddle-value p4 p5 h4, straddle-value p6 p4 h6, joined);
      }

  pub d1-IsNumber :
      IsNumber (number_of (hi p5) (lo p6) (hi p6) 0 0 0 (lo p4) (lo p5)) 4 (d1 p4 p5 p6 p7)
  unfolding d1
  d1-IsNumber =
      let joined : bit_or (low_half p4) (raise p5) ≡ lo p4 + lo p5 * word32_mod =
        ap₂ bit_or (low_half-value p4) (raise-value p5)
        ∙ bit_or-low_high 32 (lo p4) (lo p5) (omega arith) in
      record {
        words = omega (arith, straddle-value p5 p6 h5, joined);
        same_length = refl;
        number = omega (arith, straddle-value p5 p6 h5, joined);
      }

  pub d2-IsNumber :
      IsNumber (number_of (lo p6) (hi p6) (lo p7) (hi p7) 0 0 (hi p4) (hi p5)) 4 (d2 p4 p5 p6 p7)
  unfolding d2
  d2-IsNumber =
      let joined : bit_or (p4 / 2 ^ 32) (high_half p5) ≡ hi p4 + hi p5 * word32_mod =
        ap (λ t. bit_or (p4 / 2 ^ 32) t) (high_half-value p5 h5)
        ∙ bit_or-low_high 32 (hi p4) (hi p5) (omega arith) in
      record { words = omega (arith, joined); same_length = refl; number = omega (arith, joined) }

  pub d3-IsNumber :
      IsNumber
        (number_of (hi p6) (lo p7) (hi p7) (lo p4) (hi p4) (lo p5) 0 (lo p6))
        4
        (d3 p4 p5 p6 p7)
  unfolding d3
  d3-IsNumber = record {
    words = omega (
      arith,
      straddle-value p6 p7 h6,
      straddle-value p7 p4 h7,
      straddle-value p4 p5 h4,
      raise-value p6,
    );
    same_length = refl;
    number = omega (
      arith,
      straddle-value p6 p7 h6,
      straddle-value p7 p4 h7,
      straddle-value p4 p5 h4,
      raise-value p6,
    );
  }

  pub d4-IsNumber :
      IsNumber (number_of (lo p7) (hi p7) 0 (hi p4) (lo p5) (hi p5) 0 (hi p6)) 4 (d4 p4 p5 p6 p7)
  unfolding d4
  d4-IsNumber = record {
    words = omega (arith, high_half-value p4 h4, high_half-value p6 h6);
    same_length = refl;
    number = omega (arith, high_half-value p4 h4, high_half-value p6 h6);
  }
