-- ===== src/Uecc/PointValid.antt =====
-- uECC_valid_point of uECC.c against the equation of the curve.
use native.Mathlib.Nat.{mul-pos}
use tezos_master_lib_p2p.Prelude.Powers.{two-pow-pos}
use tezos_master_lib_p2p.Prelude.{
  ℕ, zero, suc, ◌+◌, ◌*◌, ◌<◌, ◌≡◌, sym, ap, ◌∙◌, List, Bool, true, false, not, ◌&&◌, length, take,
  drop, take-append-drop, inl, inr, Bool-cases, ltb, ◌==◌, some, arith,
}
use tezos_master_lib_p2p.Uecc.Vli.{is_zero, equal, cmp_unsafe, is_one, as_word}
use tezos_master_lib_p2p.Uecc.Compare.{is_zero-value, equal-value, cmp_unsafe-value}
use tezos_master_lib_p2p.Uecc.Value.{value, weight, value-append, weight-power, IsNumber}
use tezos_master_lib_p2p.Uecc.Curve.{Curve, mod_square_fast}
use tezos_master_lib_p2p.Uecc.Points.{x_side_default}
use tezos_master_lib_p2p.Uecc.Keys.{valid_point}
use tezos_master_lib_p2p.Uecc.Field.{IsField, IsResidue, mod_square_fast-Returns}
use tezos_master_lib_p2p.Uecc.Formulas.{square_mod, curve_side}
use tezos_master_lib_p2p.Uecc.PointDouble.{x_side_default-Returns}

-- The point is not at infinity, its coordinates are below m, and it is on y ^ 2 = x ^ 3 - 3 * x + b.
abbrev pub is_on_curve : ℕ → ℕ → ℕ → ℕ → Bool
is_on_curve m b x y =
    not (x == 0 && y == 0) && (ltb x m && (ltb y m && square_mod m y == curve_side m b x))

module _ (c : Curve) (point : List ℕ) where
  abbrev x_words : List ℕ
  x_words = take c.params.num_words point

  abbrev y_words : List ℕ
  y_words = drop c.params.num_words point

  at_infinity : is_zero point ≡ 1 → valid_point c point ≡ some false
  unfolding valid_point
  at_infinity e = ground (arith, e)

  out_of_range :
      is_zero point ≡ 0
      → (is_one (cmp_unsafe c.params.p x_words) && is_one (cmp_unsafe c.params.p y_words)) ≡ false
      → valid_point c point ≡ some false
  unfolding valid_point
  out_of_range e t = ground (arith, e, t)

  in_range :
      (left right : List ℕ)
      → is_zero point ≡ 0
      → (is_one (cmp_unsafe c.params.p x_words) && is_one (cmp_unsafe c.params.p y_words)) ≡ true
      → mod_square_fast c.params y_words ≡ some left
      → c.x_side c.params x_words ≡ some right
      → valid_point c point ≡ some (not (equal left right == 0))
  unfolding valid_point
  in_range left right e t l r = ground (arith, e, t, l, r)

zero-sum : (a w b : ℕ) → 0 < w → (a + w * b == 0) ≡ (a == 0 && b == 0)
zero-sum a w zero h = ground arith
zero-sum a w (suc b) h = ground (arith, mul-pos {m = w} {n = suc b} h (omega arith))

is_zero-joined :
    (n : ℕ) (point : List ℕ)
    → is_zero point ≡ as_word (value (take n point) == 0 && value (drop n point) == 0)
is_zero-joined n point =
    let whole : value point ≡ value (take n point) + weight (take n point) * value (drop n point) =
      ap value (sym (take-append-drop n point)) ∙ value-append (take n point) (drop n point) in
    let pos : 0 < weight (take n point) =
      omega (arith, weight-power (take n point), two-pow-pos (64 * length (take n point))) in
    is_zero-value point
    ∙ ap (λ t. as_word (t == 0)) whole
    ∙ ap as_word
        (zero-sum (value (take n point)) (weight (take n point)) (value (drop n point)) pos)

module _ (c : Curve) (field : IsField c.params) (side : c.x_side ≡ x_side_default)
    (big : 3 < value c.params.p) (b : ℕ) (hb : IsResidue c.params b c.params.b) where
  compared :
      {x : ℕ} {ws : List ℕ}
      → IsNumber x c.params.num_words ws
      → is_one (cmp_unsafe c.params.p ws) ≡ ltb x (value c.params.p)
  compared {x} {ws} h =
      ap is_one (
        cmp_unsafe-value c.params.p ws field.modulus_words h.words
          (omega (arith, field.same_length, h.same_length)))
      ∙ ground (arith, h.number)

  on_curve :
      (point : List ℕ) (x y : ℕ)
      → IsNumber x c.params.num_words (take c.params.num_words point)
      → IsNumber y c.params.num_words (drop c.params.num_words point)
      → (x == 0 && y == 0) ≡ false
      → (ltb x (value c.params.p) && ltb y (value c.params.p)) ≡ true
      → valid_point c point ≡ some (is_on_curve (value c.params.p) b x y)
  on_curve point x y hx hy e t =
      let rx : IsResidue c.params x (take c.params.num_words point) = record {
        words = hx.words;
        same_length = hx.same_length;
        number = hx.number;
        below = ground (arith, t);
      } in
      let ry : IsResidue c.params y (drop c.params.num_words point) = record {
        words = hy.words;
        same_length = hy.same_length;
        number = hy.number;
        below = ground (arith, t);
      } in
      let (left, el, hl) = mod_square_fast-Returns c.params field ry in
      let (right, er, hr) = x_side_default-Returns c.params field rx hb big in
      let test : (is_one (cmp_unsafe c.params.p (take c.params.num_words point))
            && is_one (cmp_unsafe c.params.p (drop c.params.num_words point)))
          ≡ true =
        ground (arith, compared hx, compared hy, t) in
      let nonzero : is_zero point ≡ 0 =
        is_zero-joined c.params.num_words point ∙ ground (arith, hx.number, hy.number, e) in
      let same =
        equal-value left right hl.words hr.words (omega (arith, hl.same_length, hr.same_length)) in
      in_range c point left right nonzero test el
        (ap (λ f. f c.params (take c.params.num_words point)) side ∙ er)
      ∙ ground (arith, same, hl.number, hr.number, e, t)

  -- On a curve whose mmod_fast reduces by its modulus, which is above 3, and whose b is below it, with
  -- the default side, `valid_point` tells of a point in words whether it is not at infinity, its
  -- coordinates are below the modulus and it is on the curve; no loop below runs out.
  pub valid_point-is_on_curve :
      (point : List ℕ) (x y : ℕ)
      → IsNumber x c.params.num_words (take c.params.num_words point)
      → IsNumber y c.params.num_words (drop c.params.num_words point)
      → valid_point c point ≡ some (is_on_curve (value c.params.p) b x y)
  valid_point-is_on_curve point x y hx hy =
      let zero_test = is_zero-joined c.params.num_words point in
      let x_test = compared hx in
      let y_test = compared hy in
      elim (Bool-cases (x == 0 && y == 0)) [
        | inl e ↦
            at_infinity c point (zero_test ∙ ground (arith, hx.number, hy.number, e))
            ∙ ground (arith, e)
        | inr e ↦ elim (Bool-cases (ltb x (value c.params.p) && ltb y (value c.params.p))) [
          | inl t ↦ on_curve point x y hx hy e t
          | inr t ↦
              out_of_range c point (zero_test ∙ ground (arith, hx.number, hy.number, e))
                (ground (arith, x_test, y_test, t))
              ∙ ground (arith, e, t)
        ]
      ]
