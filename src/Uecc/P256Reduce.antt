-- ===== src/Uecc/P256Reduce.antt =====
-- The residue that vli_mmod_fast_secp256r1 of curve-specific.h computes.
use tezos_master_lib_p2p.Prelude.{
  ℕ, ◌+◌, ◌*◌, ◌%◌, ◌<◌, ◌≡◌, refl, List, [], ◌∷◌, some, length, arith,
}
use tezos_master_lib_p2p.Prelude.Int.{pos}
use tezos_master_lib_p2p.Uecc.Vli.{set_words}
use tezos_master_lib_p2p.Uecc.P256.{
  p256, s1, s2, s3, s4, d1, d2, d3, d4, Sum, add_term, add_double, sub_term, terms,
  mmod_fast_secp256r1,
}
use tezos_master_lib_p2p.Uecc.P256Terms.{
  lo, hi, number_of, s1-IsNumber, s2-IsNumber, s3-IsNumber, s4-IsNumber, d1-IsNumber, d2-IsNumber,
  d3-IsNumber, d4-IsNumber,
}
use tezos_master_lib_p2p.Uecc.Value.{IsNumber, value, IsWords}
use tezos_master_lib_p2p.Uecc.P256Sum.{
  four, IsTotal, add_term-IsTotal, add_double-IsTotal, sub_term-IsTotal,
}
use tezos_master_lib_p2p.Uecc.P256Loops.{Reduces, settle}

-- The terms together, congruent to the product: what is added, what is taken away, and the
-- multiple of the prime that is left out.
module _ (p0 p1 p2 p3 p4 p5 p6 p7 : ℕ)
    (h : IsWords (p0 ∷ p1 ∷ p2 ∷ p3 ∷ p4 ∷ p5 ∷ p6 ∷ p7 ∷ [])) where
  abbrev product : List ℕ
  product = p0 ∷ p1 ∷ p2 ∷ p3 ∷ p4 ∷ p5 ∷ p6 ∷ p7 ∷ []

  abbrev added : ℕ
  added =
      value (p0 ∷ p1 ∷ p2 ∷ p3 ∷ [])
      + 2 * (number_of 0 0 0 (hi p5) (lo p6) (hi p6) (lo p7) (hi p7))
      + 2 * (number_of 0 0 0 (lo p6) (hi p6) (lo p7) (hi p7) 0)
      + number_of (lo p4) (hi p4) (lo p5) 0 0 0 (lo p7) (hi p7)
      + number_of (hi p4) (lo p5) (hi p5) (hi p6) (lo p7) (hi p7) (hi p6) (lo p4)

  abbrev taken : ℕ
  taken =
      0
      + number_of (hi p5) (lo p6) (hi p6) 0 0 0 (lo p4) (lo p5)
      + number_of (lo p6) (hi p6) (lo p7) (hi p7) 0 0 (hi p4) (hi p5)
      + number_of (hi p6) (lo p7) (hi p7) (lo p4) (hi p4) (lo p5) 0 (lo p6)
      + number_of (lo p7) (hi p7) 0 (hi p4) (lo p5) (hi p5) 0 (hi p6)

  abbrev quotient : ℕ
  quotient =
      lo p4
      + 0x100000001 * (hi p4)
      + 0x10000000100000000 * (lo p5)
      + 0x100000000ffffffffffffffff * (hi p5)
      + 0x100000000fffffffffffffffeffffffff * (lo p6)
      + 0x100000000fffffffffffffffefffffffeffffffff * (hi p6)
      + 0x100000000fffffffffffffffefffffffefffffffeffffffff * (lo p7)
      + 0x100000000fffffffffffffffefffffffefffffffeffffffff00000000 * (hi p7)

  terms-IsTotal : IsTotal added taken (terms product)
  unfolding terms set_words
  terms-IsTotal =
      let q0 : Sum = record { result = p0 ∷ p1 ∷ p2 ∷ p3 ∷ []; carry = pos 0 } in
      let (h0, (h1, (h2, (h3, (h4, (h5, (h6, (h7, end)))))))) = h in
      let low : IsTotal (value (p0 ∷ p1 ∷ p2 ∷ p3 ∷ [])) 0 q0 = record {
        words = omega (arith, h);
        same_length = refl;
        total = omega arith;
      } in
      let r1 =
        add_double-IsTotal (value (p0 ∷ p1 ∷ p2 ∷ p3 ∷ [])) 0
          (number_of 0 0 0 (hi p5) (lo p6) (hi p6) (lo p7) (hi p7)) (s1 p4 p5 p6 p7) q0 low
          (s1-IsNumber p4 p5 p6 p7 h4 h5 h6 h7) in
      let q1 = add_double (s1 p4 p5 p6 p7) q0 in
      let r2 =
        add_double-IsTotal
          ((value (p0 ∷ p1 ∷ p2 ∷ p3 ∷ []))
            + 2 * (number_of 0 0 0 (hi p5) (lo p6) (hi p6) (lo p7) (hi p7)))
          0 (number_of 0 0 0 (lo p6) (hi p6) (lo p7) (hi p7) 0) (s2 p4 p5 p6 p7) q1 r1
          (s2-IsNumber p4 p5 p6 p7 h4 h5 h6 h7) in
      let q2 = add_double (s2 p4 p5 p6 p7) q1 in
      let r3 =
        add_term-IsTotal
          (((value (p0 ∷ p1 ∷ p2 ∷ p3 ∷ []))
              + 2 * (number_of 0 0 0 (hi p5) (lo p6) (hi p6) (lo p7) (hi p7)))
            + 2 * (number_of 0 0 0 (lo p6) (hi p6) (lo p7) (hi p7) 0))
          0 (number_of (lo p4) (hi p4) (lo p5) 0 0 0 (lo p7) (hi p7)) (s3 p4 p5 p6 p7) q2 r2
          (s3-IsNumber p4 p5 p6 p7 h4 h5 h6 h7) in
      let q3 = add_term (s3 p4 p5 p6 p7) q2 in
      let r4 =
        add_term-IsTotal
          ((((value (p0 ∷ p1 ∷ p2 ∷ p3 ∷ []))
                + 2 * (number_of 0 0 0 (hi p5) (lo p6) (hi p6) (lo p7) (hi p7)))
              + 2 * (number_of 0 0 0 (lo p6) (hi p6) (lo p7) (hi p7) 0))
            + (number_of (lo p4) (hi p4) (lo p5) 0 0 0 (lo p7) (hi p7)))
          0 (number_of (hi p4) (lo p5) (hi p5) (hi p6) (lo p7) (hi p7) (hi p6) (lo p4))
          (s4 p4 p5 p6 p7) q3 r3 (s4-IsNumber p4 p5 p6 p7 h4 h5 h6 h7) in
      let q4 = add_term (s4 p4 p5 p6 p7) q3 in
      let r5 =
        sub_term-IsTotal
          (((((value (p0 ∷ p1 ∷ p2 ∷ p3 ∷ []))
                  + 2 * (number_of 0 0 0 (hi p5) (lo p6) (hi p6) (lo p7) (hi p7)))
                + 2 * (number_of 0 0 0 (lo p6) (hi p6) (lo p7) (hi p7) 0))
              + (number_of (lo p4) (hi p4) (lo p5) 0 0 0 (lo p7) (hi p7)))
            + (number_of (hi p4) (lo p5) (hi p5) (hi p6) (lo p7) (hi p7) (hi p6) (lo p4)))
          0 (number_of (hi p5) (lo p6) (hi p6) 0 0 0 (lo p4) (lo p5)) (d1 p4 p5 p6 p7) q4 r4
          (d1-IsNumber p4 p5 p6 p7 h4 h5 h6 h7) in
      let q5 = sub_term (d1 p4 p5 p6 p7) q4 in
      let r6 =
        sub_term-IsTotal
          (((((value (p0 ∷ p1 ∷ p2 ∷ p3 ∷ []))
                  + 2 * (number_of 0 0 0 (hi p5) (lo p6) (hi p6) (lo p7) (hi p7)))
                + 2 * (number_of 0 0 0 (lo p6) (hi p6) (lo p7) (hi p7) 0))
              + (number_of (lo p4) (hi p4) (lo p5) 0 0 0 (lo p7) (hi p7)))
            + (number_of (hi p4) (lo p5) (hi p5) (hi p6) (lo p7) (hi p7) (hi p6) (lo p4)))
          (0 + (number_of (hi p5) (lo p6) (hi p6) 0 0 0 (lo p4) (lo p5)))
          (number_of (lo p6) (hi p6) (lo p7) (hi p7) 0 0 (hi p4) (hi p5)) (d2 p4 p5 p6 p7) q5 r5
          (d2-IsNumber p4 p5 p6 p7 h4 h5 h6 h7) in
      let q6 = sub_term (d2 p4 p5 p6 p7) q5 in
      let r7 =
        sub_term-IsTotal
          (((((value (p0 ∷ p1 ∷ p2 ∷ p3 ∷ []))
                  + 2 * (number_of 0 0 0 (hi p5) (lo p6) (hi p6) (lo p7) (hi p7)))
                + 2 * (number_of 0 0 0 (lo p6) (hi p6) (lo p7) (hi p7) 0))
              + (number_of (lo p4) (hi p4) (lo p5) 0 0 0 (lo p7) (hi p7)))
            + (number_of (hi p4) (lo p5) (hi p5) (hi p6) (lo p7) (hi p7) (hi p6) (lo p4)))
          ((0 + (number_of (hi p5) (lo p6) (hi p6) 0 0 0 (lo p4) (lo p5)))
            + (number_of (lo p6) (hi p6) (lo p7) (hi p7) 0 0 (hi p4) (hi p5)))
          (number_of (hi p6) (lo p7) (hi p7) (lo p4) (hi p4) (lo p5) 0 (lo p6)) (d3 p4 p5 p6 p7) q6
          r6 (d3-IsNumber p4 p5 p6 p7 h4 h5 h6 h7) in
      let q7 = sub_term (d3 p4 p5 p6 p7) q6 in
      let r8 =
        sub_term-IsTotal
          (((((value (p0 ∷ p1 ∷ p2 ∷ p3 ∷ []))
                  + 2 * (number_of 0 0 0 (hi p5) (lo p6) (hi p6) (lo p7) (hi p7)))
                + 2 * (number_of 0 0 0 (lo p6) (hi p6) (lo p7) (hi p7) 0))
              + (number_of (lo p4) (hi p4) (lo p5) 0 0 0 (lo p7) (hi p7)))
            + (number_of (hi p4) (lo p5) (hi p5) (hi p6) (lo p7) (hi p7) (hi p6) (lo p4)))
          (((0 + (number_of (hi p5) (lo p6) (hi p6) 0 0 0 (lo p4) (lo p5)))
              + (number_of (lo p6) (hi p6) (lo p7) (hi p7) 0 0 (hi p4) (hi p5)))
            + (number_of (hi p6) (lo p7) (hi p7) (lo p4) (hi p4) (lo p5) 0 (lo p6)))
          (number_of (lo p7) (hi p7) 0 (hi p4) (lo p5) (hi p5) 0 (hi p6)) (d4 p4 p5 p6 p7) q7 r7
          (d4-IsNumber p4 p5 p6 p7 h4 h5 h6 h7) in
      let q8 = sub_term (d4 p4 p5 p6 p7) q7 in r8

  terms-congruent : added + quotient * value p256 ≡ value product + taken
  terms-congruent = omega arith

  terms-bounds : (added < 8 * four) × (taken < 4 * four)
  terms-bounds = omega (arith, h)

  words-Reduces : Reduces (value product) (mmod_fast_secp256r1 product)
  unfolding mmod_fast_secp256r1
  words-Reduces =
      settle added taken quotient (value product) (terms product) terms-IsTotal terms-congruent
        terms-bounds.0 terms-bounds.1

-- Of eight words, `mmod_fast_secp256r1` gives the residue of the product modulo the prime, in four
-- words; its last loops do not run out.
pub mmod_fast_secp256r1-value :
    (product : List ℕ)
    → IsWords product
    → length product ≡ 8
    → (r : List ℕ) × (mmod_fast_secp256r1 product ≡ some r)
      × IsNumber (value product % value p256) 4 r
mmod_fast_secp256r1-value [] h e = absurd (omega (arith, e))
mmod_fast_secp256r1-value (p0 ∷ []) h e = absurd (omega (arith, e))
mmod_fast_secp256r1-value (p0 ∷ p1 ∷ []) h e = absurd (omega (arith, e))
mmod_fast_secp256r1-value (p0 ∷ p1 ∷ p2 ∷ []) h e = absurd (omega (arith, e))
mmod_fast_secp256r1-value (p0 ∷ p1 ∷ p2 ∷ p3 ∷ []) h e = absurd (omega (arith, e))
mmod_fast_secp256r1-value (p0 ∷ p1 ∷ p2 ∷ p3 ∷ p4 ∷ []) h e = absurd (omega (arith, e))
mmod_fast_secp256r1-value (p0 ∷ p1 ∷ p2 ∷ p3 ∷ p4 ∷ p5 ∷ []) h e = absurd (omega (arith, e))
mmod_fast_secp256r1-value (p0 ∷ p1 ∷ p2 ∷ p3 ∷ p4 ∷ p5 ∷ p6 ∷ []) h e = absurd (omega (arith, e))
mmod_fast_secp256r1-value (p0 ∷ p1 ∷ p2 ∷ p3 ∷ p4 ∷ p5 ∷ p6 ∷ p7 ∷ []) h e =
    words-Reduces p0 p1 p2 p3 p4 p5 p6 p7 h
mmod_fast_secp256r1-value (p0 ∷ p1 ∷ p2 ∷ p3 ∷ p4 ∷ p5 ∷ p6 ∷ p7 ∷ p8 ∷ ps) h e =
    absurd (omega (arith, e))
