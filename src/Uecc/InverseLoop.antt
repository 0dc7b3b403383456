-- ===== src/Uecc/InverseLoop.antt =====
-- The rounds of uECC_vli_modInv of vendors/ocaml-uecc/src/uECC.c, on the numbers of its four arrays.
use native.Mathlib.Nat.{mul-pos, dvd_refl}
use tezos_master_lib_p2p.Prelude.{
  ℕ, zero, suc, ◌+◌, ◌-◌, ◌*◌, ◌/◌, ◌%◌, ◌^◌, ◌≤◌, ◌<◌, ◌≡◌, ◌≢◌, ltb→lt, refl, ap, ◌∙◌, List, inl,
  inr, true, false, Option, some, ltb, ◌==◌, Bool-cases, ==_iff, arith,
}
use tezos_master_lib_p2p.Prelude.Powers.{two-pow-suc}
use tezos_master_lib_p2p.Uecc.Vli.{cmp_unsafe, sub, rshift1}
use tezos_master_lib_p2p.Uecc.Mmod.{
  Inverse, is_even, is_greater, is_equal, mod_inv_update, subtract_half, inverse_round,
  inverse_loop,
}
use tezos_master_lib_p2p.Uecc.Value.{IsNumber, value-lt-weight}
use tezos_master_lib_p2p.Uecc.Compare.{cmp_unsafe-value}
use tezos_master_lib_p2p.Uecc.Congruence.{
  IsCongruent, IsCoprime, half_mod, half_mod-lt, sub_mod, sub_mod-lt, halve-IsCongruent,
  sub-IsCongruent, halve-IsCoprime, sub-IsCoprime, IsCoprime-comm,
}
use tezos_master_lib_p2p.Uecc.InverseRound.{
  is_even-value, rshift1-IsNumber, mod_inv_update-IsNumber, subtract_half-IsNumber, sub-IsNumber,
}

-- The numbers a, b, u and v of the four arrays: u and v are cofactors of a and b modulo m.
pub record IsState (x m len a b u v : ℕ) (s : Inverse) : Type 0 where
  pub a_number : IsNumber a len s.a
  pub b_number : IsNumber b len s.b
  pub u_number : IsNumber u len s.u
  pub v_number : IsNumber v len s.v
  pub a_pos : 0 < a
  pub b_pos : 0 < b
  pub u_lt : u < m
  pub v_lt : v < m
  pub u_cofactor : IsCongruent m (u * x) a
  pub v_cofactor : IsCongruent m (v * x) b
  pub coprime : IsCoprime a b

-- The two halves of the state exchanged.
abbrev swap : Inverse → Inverse
swap s = record { a = s.b; b = s.a; u = s.v; v = s.u }

module _ (x m len : ℕ) (modulus : List ℕ) (hm : IsNumber m len modulus) (pos : 1 ≤ len)
    (odd : m % 2 ≡ 1) where
  -- Some numbers for a state, with the product of the first two below `bound`.
  record HasNumbers (bound : ℕ) (s : Inverse) : Type 0 where
    a : ℕ
    b : ℕ
    u : ℕ
    v : ℕ
    state : IsState x m len a b u v s
    falls : a * b < bound

  halve_left :
      (a b u v bound : ℕ) (s : Inverse)
      → IsState x m len a b u v s
      → a % 2 ≡ 0
      → a * b < 2 * bound
      → HasNumbers bound (record s { a = rshift1 s.a; u = mod_inv_update s.u modulus })
  halve_left a b u v bound s h even lt = record {
    a = a / 2;
    b = b;
    u = half_mod u m;
    v = v;
    state = record {
      a_number = rshift1-IsNumber a len s.a h.a_number;
      b_number = h.b_number;
      u_number = mod_inv_update-IsNumber u m len s.u modulus h.u_number hm pos;
      v_number = h.v_number;
      a_pos = omega (arith, h.a_pos);
      b_pos = h.b_pos;
      u_lt = half_mod-lt u m h.u_lt;
      v_lt = h.v_lt;
      u_cofactor = halve-IsCongruent m x a u odd even h.u_cofactor;
      v_cofactor = h.v_cofactor;
      coprime = halve-IsCoprime a b even h.coprime;
    };
    falls = let whole : a ≡ 2 * (a / 2) = omega arith in omega (arith, ap (λ (t : ℕ). t * b) whole);
  }

  subtract_left :
      (a b u v bound : ℕ) (s : Inverse)
      → IsState x m len a b u v s
      → a % 2 ≡ 1
      → b % 2 ≡ 1
      → b < a
      → a * b < 2 * bound
      → HasNumbers bound
          (record s { a = rshift1 (sub s.a s.b).0; u = subtract_half s.u s.v modulus })
  subtract_left a b u v bound s h odd_a odd_b lt falls =
      let difference =
        sub-IsNumber 0 a b len s.a s.b
          (record { words = h.a_number.words; same_length = h.a_number.same_length; number = refl })
          h.b_number (omega arith) (omega (arith, h.a_number.number)) (omega arith)
          (omega (arith, value-lt-weight s.a h.a_number.words, h.a_number.number)) in
      let even : (a - b) % 2 ≡ 0 = omega arith in
      let whole : a ≡ 2 * ((a - b) / 2) + b = omega arith in
      record {
        a = (a - b) / 2;
        b = b;
        u = half_mod (sub_mod u v m) m;
        v = v;
        state = record {
          a_number = rshift1-IsNumber (a - b) len (sub s.a s.b).0 difference;
          b_number = h.b_number;
          u_number =
              subtract_half-IsNumber u v m len s.u s.v modulus h.u_number h.v_number hm h.u_lt
                h.v_lt pos;
          v_number = h.v_number;
          a_pos = omega arith;
          b_pos = h.b_pos;
          u_lt = half_mod-lt (sub_mod u v m) m (sub_mod-lt u v m h.u_lt h.v_lt);
          v_lt = h.v_lt;
          u_cofactor =
              halve-IsCongruent m x (a - b) (sub_mod u v m) odd even
                (sub-IsCongruent m x a b u v (omega arith) h.v_lt h.u_cofactor h.v_cofactor);
          v_cofactor = h.v_cofactor;
          coprime = halve-IsCoprime (a - b) b even (sub-IsCoprime a b (omega arith) h.coprime);
        };
        falls = omega (arith, ap (λ (t : ℕ). t * b) whole);
      }

  swap-IsState :
      (a b u v : ℕ) (s : Inverse) → IsState x m len a b u v s → IsState x m len b a v u (swap s)
  swap-IsState a b u v s h = record {
    a_number = h.b_number;
    b_number = h.a_number;
    u_number = h.v_number;
    v_number = h.u_number;
    a_pos = h.b_pos;
    b_pos = h.a_pos;
    u_lt = h.v_lt;
    v_lt = h.u_lt;
    u_cofactor = h.v_cofactor;
    v_cofactor = h.u_cofactor;
    coprime = IsCoprime-comm a b h.coprime;
  }

  swap-HasNumbers : (bound : ℕ) (s : Inverse) → HasNumbers bound s → HasNumbers bound (swap s)
  swap-HasNumbers bound s h = record {
    a = h.b;
    b = h.a;
    u = h.v;
    v = h.u;
    state = swap-IsState h.a h.b h.u h.v s h.state;
    falls = omega (arith, h.falls);
  }

  -- One round keeps the invariant, and halves the product of the two numbers.
  inverse_round-HasNumbers :
      (a b u v bound : ℕ) (s : Inverse)
      → IsState x m len a b u v s
      → a ≢ b
      → a * b < 2 * bound
      → HasNumbers bound (inverse_round modulus s)
  unfolding inverse_round
  inverse_round-HasNumbers a b u v bound s h differ falls =
      let swapped = swap-IsState a b u v s h in
      let even_a : is_even s.a ≡ (a % 2 == 0) =
        is_even-value s.a ∙ ap (λ t. t % 2 == 0) h.a_number.number in
      let even_b : is_even s.b ≡ (b % 2 == 0) =
        is_even-value s.b ∙ ap (λ t. t % 2 == 0) h.b_number.number in
      let greater : is_greater (cmp_unsafe s.a s.b) ≡ ltb b a =
        rw
          (
            cmp_unsafe-value s.a s.b h.a_number.words h.b_number.words
                (omega (arith, h.a_number.same_length, h.b_number.same_length)),
            h.a_number.number,
            h.b_number.number,
          )
          (ground arith) in
      rw (even_a, even_b, greater)
        (elim (Bool-cases (a % 2 == 0)) [
          | inl e ↦ rw e (halve_left a b u v bound s h (ground arith) falls)
          | inr e ↦ rw e (elim (Bool-cases (b % 2 == 0)) [
            | inl f ↦ rw f (
                swap-HasNumbers bound
                  (record (swap s) { a = rshift1 s.b; u = mod_inv_update s.v modulus })
                  (halve_left b a v u bound (swap s) swapped (ground arith) (omega arith)))
            | inr f ↦ rw f (elim (Bool-cases (ltb b a)) [
              | inl g ↦ rw g (
                  subtract_left a b u v bound s h (ground arith) (ground arith) (ltb→lt b a g)
                    falls)
              | inr g ↦ rw g (
                  swap-HasNumbers bound
                    (record (swap s) {
                      a = rshift1 (sub s.b s.a).0;
                      u = subtract_half s.v s.u modulus;
                    })
                    (subtract_left b a v u bound (swap s) swapped (ground arith) (ground arith)
                      (ground (arith, differ)) (omega arith)))
            ])
          ])
        ])

  -- What the loop leaves.
  abbrev Ends : Option Inverse → Type 0
  Ends r =
      (s' : Inverse) × (u' : ℕ) × (r ≡ some s')
      × IsNumber u' len s'.u
      × (u' < m)
      × IsCongruent m (u' * x) 1

  is_equal-number :
      (a b u v : ℕ) (s : Inverse)
      → IsState x m len a b u v s
      → is_equal (cmp_unsafe s.a s.b) ≡ (a == b)
  is_equal-number a b u v s h =
      rw
        (
          cmp_unsafe-value s.a s.b h.a_number.words h.b_number.words
              (omega (arith, h.a_number.same_length, h.b_number.same_length)),
          h.a_number.number,
          h.b_number.number,
        )
        (ground arith)

  -- At the end the common number is 1.
  equal-Ends : (a b u v : ℕ) (s : Inverse) → IsState x m len a b u v s → a ≡ b → Ends (some s)
  equal-Ends a b u v s h same =
      let one : a ≡ 1 = h.coprime a (dvd_refl a) (rw (← same) (dvd_refl a)) in
      (
        s,
        u,
        refl,
        h.u_number,
        h.u_lt,
        record {
          left = h.u_cofactor.left;
          right = h.u_cofactor.right;
          same = omega (arith, h.u_cofactor.same, one);
        },
      )

  inverse_loop-done :
      (fuel : ℕ) (s : Inverse)
      → is_equal (cmp_unsafe s.a s.b) ≡ true
      → inverse_loop (suc fuel) modulus s ≡ some s
  unfolding inverse_loop
  inverse_loop-done fuel s e = ground arith

  inverse_loop-again :
      (fuel : ℕ) (s : Inverse)
      → is_equal (cmp_unsafe s.a s.b) ≡ false
      → inverse_loop (suc fuel) modulus s ≡ inverse_loop fuel modulus (inverse_round modulus s)
  unfolding inverse_loop
  inverse_loop-again fuel s e = ground arith

  -- With enough fuel the loop ends, with 1 and its cofactor.
  pub inverse_loop-Ends :
      (fuel a b u v : ℕ) (s : Inverse)
      → IsState x m len a b u v s
      → a * b < 2 ^ fuel
      → Ends (inverse_loop (suc fuel) modulus s)
  inverse_loop-Ends zero a b u v s h falls = absurd (omega (arith, mul-pos h.a_pos h.b_pos))
  inverse_loop-Ends (suc fuel) a b u v s h falls = elim (Bool-cases (a == b)) [
    | inl e ↦
        let done : inverse_loop (suc (suc fuel)) modulus s ≡ some s =
          inverse_loop-done (suc fuel) s (is_equal-number a b u v s h ∙ e) in
        rw done (equal-Ends a b u v s h ((==_iff a b).0 e))
    | inr e ↦
        let next =
          inverse_round-HasNumbers a b u v (2 ^ fuel) s h (ground arith)
            (omega (arith, two-pow-suc fuel)) in
        let again : inverse_loop (suc (suc fuel)) modulus s
            ≡ inverse_loop (suc fuel) modulus (inverse_round modulus s) =
          inverse_loop-again (suc fuel) s (is_equal-number a b u v s h ∙ e) in
        rw again (
          inverse_loop-Ends fuel next.a next.b next.u next.v (inverse_round modulus s) next.state
            next.falls)
  ]
