-- ===== src/Uecc/PointDouble.antt =====
-- double_jacobian_default and x_side_default of curve-specific.h against their formulas.
use tezos_master_lib_p2p.Prelude.{
  ℕ, zero, suc, ◌^◌, ◌≤◌, ◌<◌, ◌≡◌, refl, ap, ◌∙◌, List, [], ◌∷◌, length, length-replicate, set,
  inl, inr, Bool-cases, ◌==◌, if◌then◌else◌, some, Returns, some-Returns, bind-Returns, u64, ◌<<◌,
  arith,
}
use tezos_master_lib_p2p.Prelude.Bits.{bit_or-zero}
use tezos_master_lib_p2p.Uecc.Vli.{add, rshift1, test_bit, clear, is_zero}
use tezos_master_lib_p2p.Uecc.Mmod.{or_last, is_even, mod_inv_update}
use tezos_master_lib_p2p.Uecc.Align.{or_last-cons}
use tezos_master_lib_p2p.Uecc.Shift.{rshift1-value}
use tezos_master_lib_p2p.Uecc.Sum.{add-IsSum}
use tezos_master_lib_p2p.Uecc.Compare.{is_zero-value}
use tezos_master_lib_p2p.Uecc.Congruence.{half_mod, half_mod-lt}
use tezos_master_lib_p2p.Uecc.InverseRound.{mod_inv_update-IsNumber}
use tezos_master_lib_p2p.Uecc.Value.{IsNumber, value, clear-IsWords, value-clear}
use tezos_master_lib_p2p.Uecc.Curve.{Params, Jacobian}
use tezos_master_lib_p2p.Uecc.Points.{
  halve_mod, double_nonzero, double_jacobian_default, x_side_default,
}
use tezos_master_lib_p2p.Uecc.Field.{
  IsField, IsResidue, mod_add-IsResidue, mod_sub-IsResidue, mod_mult_fast-Returns,
  mod_square_fast-Returns,
}
use tezos_master_lib_p2p.Uecc.Formulas.{Coordinates, double_of, double_z, curve_side}

or_last-zero : (x : ℕ) (ws : List ℕ) → or_last (suc (length ws)) 0 (x ∷ ws) ≡ x ∷ ws
or_last-zero x [] = unfold or_last in ap (λ t. t ∷ []) (bit_or-zero x)
or_last-zero x (w ∷ ws) =
    or_last-cons (length ws) 0 x (w ∷ ws) ∙ ap (λ t. x ∷ t) (or_last-zero w ws)

-- The carry as the highest bit.
or_last-carry :
    (carry n : ℕ) (half : List ℕ)
    → carry ≤ 1
    → 1 ≤ n
    → length half ≡ n
    → or_last n (u64 (carry << 63)) half ≡ (if carry == 0 then half else or_last n (2 ^ 63) half)
or_last-carry zero n [] bit pos same = absurd (omega arith)
or_last-carry zero n (x ∷ ws) bit pos same = rw (← same) (or_last-zero x ws)
or_last-carry (suc zero) n half bit pos same = refl
or_last-carry (suc (suc carry)) n half bit pos same = absurd (omega arith)

pub record IsJacobian (c : Params) (p : Coordinates) (z : ℕ) (s : Jacobian) : Type 0 where
  pub x_residue : IsResidue c p.x s.x
  pub y_residue : IsResidue c p.y s.y
  pub z_residue : IsResidue c z s.z

jacobian-zero : (c : Params) (s : Jacobian) → is_zero s.z ≡ 1 → double_jacobian_default c s ≡ some s
unfolding double_jacobian_default
jacobian-zero c s e = ground arith

jacobian-nonzero :
    (c : Params) (s : Jacobian) → is_zero s.z ≡ 0 → double_jacobian_default c s ≡ double_nonzero c s
unfolding double_jacobian_default
jacobian-nonzero c s e = ground arith

module _ (c : Params) (field : IsField c) where
  halve_mod-update :
      (u : ℕ) (x1 : List ℕ) → IsResidue c u x1 → halve_mod c x1 ≡ mod_inv_update x1 c.p
  unfolding halve_mod mod_inv_update test_bit is_even
  halve_mod-update u x1 h =
      let total =
        add-IsSum x1 c.p h.words field.modulus_words
          (omega (arith, h.same_length, field.same_length)) in
      let half = rshift1-value (add x1 c.p).0 total.words in
      let carried =
        or_last-carry (add x1 c.p).1 c.num_words (rshift1 (add x1 c.p).0) total.carry_bit
          field.some_words (omega (arith, half.1, total.same_length, h.same_length)) in
      elim (Bool-cases (is_even x1)) [
        | inl e ↦ rw e refl
        | inr e ↦ rw (e, field.same_length) carried
      ]

  halve_mod-IsResidue :
      {u : ℕ} {x1 : List ℕ}
      → IsResidue c u x1
      → IsResidue c (half_mod u (value c.p)) (halve_mod c x1)
  halve_mod-IsResidue {u} {x1} h =
      let halved =
        mod_inv_update-IsNumber u (value c.p) c.num_words x1 c.p
          (record { words = h.words; same_length = h.same_length; number = h.number })
          (record { words = field.modulus_words; same_length = field.same_length; number = refl })
          field.some_words in
      rw (halve_mod-update u x1 h) (record {
        words = halved.words;
        same_length = halved.same_length;
        number = halved.number;
        below = half_mod-lt u (value c.p) h.below;
      })

  double_nonzero-Returns :
      {p : Coordinates} {z : ℕ} {s : Jacobian}
      → IsJacobian c p z s
      → Returns
          (IsJacobian c (double_of (value c.p) p z) (double_z (value c.p) p z))
          (double_nonzero c s)
  unfolding double_nonzero
  double_nonzero-Returns h =
      bind-Returns (mod_square_fast-Returns c field h.y_residue) λ y_squared h1.
        bind-Returns (mod_mult_fast-Returns c field h.x_residue h1) λ t5 ha.
          bind-Returns (mod_square_fast-Returns c field h1) λ t4 h4.
            bind-Returns (mod_mult_fast-Returns c field h.y_residue h.z_residue) λ y1 hz.
              bind-Returns (mod_square_fast-Returns c field h.z_residue) λ z_squared hs.
                let total = mod_add-IsResidue c field h.x_residue hs in
                let difference =
                  mod_sub-IsResidue c field total (mod_add-IsResidue c field hs hs) in
                bind-Returns (mod_mult_fast-Returns c field total difference) λ x1 hx.
                  let hb =
                    halve_mod-IsResidue
                      (mod_add-IsResidue c field hx (mod_add-IsResidue c field hx hx)) in
                  bind-Returns (mod_square_fast-Returns c field hb) λ b_squared hbb.
                    let z1 = mod_sub-IsResidue c field (mod_sub-IsResidue c field hbb ha) ha in
                    bind-Returns
                      (mod_mult_fast-Returns c field hb (mod_sub-IsResidue c field ha z1))
                      λ product hp. some-Returns _ (record {
                        x_residue = z1;
                        y_residue = mod_sub-IsResidue c field hp h4;
                        z_residue = hz;
                      })

  -- On a curve whose mmod_fast reduces by its modulus, of coordinates below the modulus,
  -- `double_jacobian_default` gives the coordinates of the formulas,
  -- or those that it took where Z is zero; no loop below runs out.
  pub double_jacobian_default-Returns :
      {p : Coordinates} {z : ℕ} {s : Jacobian}
      → IsJacobian c p z s
      → Returns
          (IsJacobian c
            (if z == 0 then p else double_of (value c.p) p z)
            (if z == 0 then z else double_z (value c.p) p z))
          (double_jacobian_default c s)
  double_jacobian_default-Returns {p} {z} {s} h = elim (Bool-cases (z == 0)) [
    | inl e ↦
        let test : is_zero s.z ≡ 1 = is_zero-value s.z ∙ ground (arith, h.z_residue.number, e) in
        rw (jacobian-zero c s test, e) (some-Returns s h)
    | inr e ↦
        let test : is_zero s.z ≡ 0 = is_zero-value s.z ∙ ground (arith, h.z_residue.number, e) in
        rw (jacobian-nonzero c s test, e) (double_nonzero-Returns h)
  ]

  three-IsNumber : (n : ℕ) → 1 ≤ n → IsNumber 3 n (set (clear n) 0 3)
  unfolding clear
  three-IsNumber zero pos = absurd (omega arith)
  three-IsNumber (suc k) pos =
      let zeros = clear-IsWords k in
      record {
        words = (omega arith, zeros);
        same_length = ap (λ (t : ℕ). suc t) (length-replicate k 0);
        number = omega (arith, value-clear k);
      }

  -- Of x below the prime, `x_side_default` gives x ^ 3 - 3 * x + b modulo the prime.
  pub x_side_default-Returns :
      {x b : ℕ} {xs : List ℕ}
      → IsResidue c x xs
      → IsResidue c b c.b
      → 3 < value c.p
      → Returns (IsResidue c (curve_side (value c.p) b x)) (x_side_default c xs)
  unfolding x_side_default
  x_side_default-Returns hx hb big =
      let three : IsResidue c 3 (set (clear c.num_words) 0 3) =
        let number = three-IsNumber c.num_words field.some_words in
        record {
          words = number.words;
          same_length = number.same_length;
          number = number.number;
          below = big;
        } in
      bind-Returns (mod_square_fast-Returns c field hx) λ squared hs.
        bind-Returns (mod_mult_fast-Returns c field (mod_sub-IsResidue c field hs three) hx)
          λ product hp. some-Returns _ (mod_add-IsResidue c field hp hb)
