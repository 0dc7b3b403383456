-- ===== src/Uecc/PointMult.antt =====
-- EccPoint_mult of uECC.c: its loops end, and its results are coordinates.
use tezos_master_lib_p2p.Prelude.{
  ℕ, zero, suc, ◌-◌, ◌%◌, ◌<◌, ◌≡◌, refl, List, ◌++◌, Bool, true, false, length, take, drop, ◌∙◌,
  ◌==◌, inl, inr, Bool-cases, if◌then◌else◌, Option, none, some, Returns, some-Returns,
  bind-Returns, if-holds, arith,
}
use tezos_master_lib_p2p.Prelude.Slices.{take-append, drop-append}
use tezos_master_lib_p2p.Uecc.Vli.{is_zero, clear}
use tezos_master_lib_p2p.Uecc.Mmod.{mod_inv, one_words}
use tezos_master_lib_p2p.Uecc.Compare.{is_zero-value}
use tezos_master_lib_p2p.Uecc.Congruence.{IsCoprime}
use tezos_master_lib_p2p.Uecc.Inverse.{mod_inv-value, one_words-IsNumber, clear-IsNumber}
use tezos_master_lib_p2p.Uecc.Value.{value}
use tezos_master_lib_p2p.Uecc.Curve.{Params, Curve, Point, Jacobian}
use tezos_master_lib_p2p.Uecc.Points.{
  Ladder, initial_double, ladder_conjugate, ladder_add, ladder_rounds, final_z, point_mult, has_bit,
  double_jacobian_default,
}
use tezos_master_lib_p2p.Uecc.Field.{IsField, IsResidue, mod_sub-IsResidue, mod_mult_fast-Returns}
use tezos_master_lib_p2p.Uecc.Formulas.{Coordinates, double_of, double_z}
use tezos_master_lib_p2p.Uecc.PointSums.{
  IsPoint, apply_z-Returns, co_z_add-Returns, co_z_add_conjugate-Returns,
}
use tezos_master_lib_p2p.Uecc.PointDouble.{IsJacobian, double_jacobian_default-Returns}

-- num_words words whose number is below the prime, and points of such.
abbrev pub IsBelow : Params → List ℕ → Type 0
IsBelow c ws = (x : ℕ) × IsResidue c x ws

pub record AreBelow (c : Params) (s : Point) : Type 0 where
  pub x_below : IsBelow c s.x
  pub y_below : IsBelow c s.y

pub record IsCurve (c : Curve) : Type 0 where
  pub field : IsField c.params
  pub odd : value c.params.p % 2 ≡ 1
  pub big : 3 < value c.params.p
  pub prime : (x : ℕ) → 0 < x → x < value c.params.p → IsCoprime x (value c.params.p)
  pub double : c.double_jacobian ≡ double_jacobian_default

AreBelow-IsPoint : {c : Params} {p : Coordinates} {s : Point} → IsPoint c p s → AreBelow c s
AreBelow-IsPoint {p = p} h = record { x_below = (p.x, h.x_residue); y_below = (p.y, h.y_residue) }

IsPoint-AreBelow :
    {c : Params} {s : Point} (h : AreBelow c s)
    → IsPoint c (record { x = h.x_below.0; y = h.y_below.0 }) s
IsPoint-AreBelow h = record { x_residue = h.x_below.1; y_residue = h.y_below.1 }

mod_inv-zero :
    (input modulus : List ℕ)
    → is_zero input ≡ 1
    → mod_inv input modulus ≡ some (clear (length modulus))
unfolding mod_inv
mod_inv-zero input modulus e = rw e refl

record IsLadder (c : Params) (s : Ladder) : Type 0 where
  first : AreBelow c s.r0
  second : AreBelow c s.r1

module _ (c : Curve) (curve : IsCurve c) where
  mod_inv-Returns :
      {x : ℕ} {ws : List ℕ}
      → IsResidue c.params x ws
      → Returns (IsBelow c.params) (mod_inv ws c.params.p)
  mod_inv-Returns {x} {ws} h = elim (Bool-cases (x == 0)) [
    | inl e ↦
        let test : is_zero ws ≡ 1 = is_zero-value ws ∙ ground (arith, h.number, e) in
        let zeros = clear-IsNumber (length c.params.p) in
        rw (mod_inv-zero ws c.params.p test) (
          some-Returns (clear (length c.params.p)) (
            0,
            record {
              words = zeros.words;
              same_length = omega (arith, zeros.same_length, curve.field.same_length);
              number = zeros.number;
              below = curve.field.modulus_pos;
            },
          ))
    | inr e ↦
        let pos : 0 < x = ground arith in
        let (r, ends, words, same, below, one) =
          mod_inv-value ws c.params.p h.words curve.field.modulus_words
            (omega (arith, h.same_length, curve.field.same_length)) curve.odd
            (omega (arith, curve.big)) (omega (arith, h.number, pos))
            (rw h.number (curve.prime x pos h.below)) in
        (
          r,
          ends,
          (
            value r,
            record {
              words = words;
              same_length = omega (arith, same, curve.field.same_length);
              number = refl;
              below = below;
            },
          ),
        )
  ]

  ladder_conjugate-Returns :
      {s : Ladder} (bit : Bool)
      → IsLadder c.params s
      → Returns (IsLadder c.params) (ladder_conjugate c.params bit s)
  unfolding ladder_conjugate
  ladder_conjugate-Returns true h =
      bind-Returns
        (co_z_add_conjugate-Returns c.params curve.field (IsPoint-AreBelow h.second)
          (IsPoint-AreBelow h.first))
        λ q hq.
          some-Returns _ (record { first = AreBelow-IsPoint hq.1; second = AreBelow-IsPoint hq.0 })
  ladder_conjugate-Returns false h =
      bind-Returns
        (co_z_add_conjugate-Returns c.params curve.field (IsPoint-AreBelow h.first)
          (IsPoint-AreBelow h.second))
        λ q hq.
          some-Returns _ (record { first = AreBelow-IsPoint hq.0; second = AreBelow-IsPoint hq.1 })

  ladder_add-Returns :
      {s : Ladder} (bit : Bool)
      → IsLadder c.params s
      → Returns (IsLadder c.params) (ladder_add c.params bit s)
  unfolding ladder_add
  ladder_add-Returns true h =
      bind-Returns
        (co_z_add-Returns c.params curve.field (IsPoint-AreBelow h.first)
          (IsPoint-AreBelow h.second))
        λ q hq.
          some-Returns _ (record { first = AreBelow-IsPoint hq.0; second = AreBelow-IsPoint hq.1 })
  ladder_add-Returns false h =
      bind-Returns
        (co_z_add-Returns c.params curve.field (IsPoint-AreBelow h.second)
          (IsPoint-AreBelow h.first))
        λ q hq.
          some-Returns _ (record { first = AreBelow-IsPoint hq.1; second = AreBelow-IsPoint hq.0 })

  ladder_rounds-Returns :
      {s : Ladder} (rounds : ℕ) (scalar : List ℕ)
      → IsLadder c.params s
      → Returns (IsLadder c.params) (ladder_rounds rounds c.params scalar s)
  unfolding ladder_rounds
  ladder_rounds-Returns {s} zero scalar h = some-Returns s h
  ladder_rounds-Returns (suc rounds) scalar h =
      bind-Returns (ladder_conjugate-Returns (has_bit scalar (suc rounds)) h) λ s' h'.
        bind-Returns (ladder_add-Returns (has_bit scalar (suc rounds)) h')
          λ s'' h''. ladder_rounds-Returns rounds scalar h''

  final_z-Returns :
      {s : Ladder} {rb : Point} (point : List ℕ)
      → IsLadder c.params s
      → AreBelow c.params rb
      → AreBelow c.params
          (record { x = take c.params.num_words point; y = drop c.params.num_words point })
      → Returns (IsBelow c.params) (final_z c.params point s rb)
  unfolding final_z
  final_z-Returns point hs hb hp =
      bind-Returns
        (mod_mult_fast-Returns c.params curve.field
          (mod_sub-IsResidue c.params curve.field hs.second.x_below.1 hs.first.x_below.1)
          hb.y_below.1)
        λ z1 h1. bind-Returns (mod_mult_fast-Returns c.params curve.field h1 hp.x_below.1) λ z2 h2.
          bind-Returns (mod_inv-Returns h2) λ z3 h3.
            bind-Returns (mod_mult_fast-Returns c.params curve.field h3.1 hp.y_below.1) λ z4 h4.
              let (r, e, h) = mod_mult_fast-Returns c.params curve.field h4 hb.x_below.1 in
              (r, e, (_, h))

  -- initial_Z, if it is given, is below the prime.
  abbrev pub IsScale : Option (List ℕ) → Type 0
  IsScale none = Unit
  IsScale (some z) = IsBelow c.params z

  double-Returns :
      {p : Coordinates} {z : ℕ} {s : Jacobian}
      → IsJacobian c.params p z s
      → Returns
          (IsJacobian c.params
            (if z == 0 then p else double_of (value c.params.p) p z)
            (if z == 0 then z else double_z (value c.params.p) p z))
          (c.double_jacobian c.params s)
  double-Returns h = rw curve.double (double_jacobian_default-Returns c.params curve.field h)

  scale-IsBelow :
      (initial_z : Option (List ℕ))
      → IsScale initial_z
      → IsBelow c.params
          (elim initial_z [ none ↦ one_words c.params.num_words | some given ↦ given ])
  scale-IsBelow none h =
      let one = one_words-IsNumber c.params.num_words curve.field.some_words in
      (
        1,
        record {
          words = one.words;
          same_length = one.same_length;
          number = one.number;
          below = omega (arith, curve.big);
        },
      )
  scale-IsBelow (some z) h = h

  initial_double-Returns :
      {s : Point} (initial_z : Option (List ℕ))
      → AreBelow c.params s
      → IsScale initial_z
      → Returns (λ r. AreBelow c.params r.0 × AreBelow c.params r.1) (initial_double c s initial_z)
  unfolding initial_double
  initial_double-Returns initial_z h hz =
      let scale = scale-IsBelow initial_z hz in
      bind-Returns (apply_z-Returns c.params curve.field (IsPoint-AreBelow h) scale.1) λ first hf.
        bind-Returns
          (double-Returns
            (record { x_residue = hf.x_residue; y_residue = hf.y_residue; z_residue = scale.1 }))
          λ doubled hd.
            bind-Returns (apply_z-Returns c.params curve.field (IsPoint-AreBelow h) hd.z_residue)
              λ second hs. some-Returns _ (
                record { x_below = (_, hd.x_residue); y_below = (_, hd.y_residue) },
                AreBelow-IsPoint hs,
              )

  -- The two coordinates that follow each other in an array.
  abbrev pub coordinates_of : List ℕ → Point
  coordinates_of point = record {
    x = take c.params.num_words point;
    y = drop c.params.num_words point;
  }

  joined-AreBelow :
      (r : Point) → AreBelow c.params r → AreBelow c.params (coordinates_of (r.x ++ r.y))
  joined-AreBelow r h =
      let same : c.params.num_words ≡ length r.x = omega (arith, h.x_below.1.same_length) in
      rw (take-append r.x r.y c.params.num_words same, drop-append r.x r.y c.params.num_words same)
        (record { x_below = h.x_below; y_below = h.y_below })

  -- On a curve over an odd prime above 3 that reduces by it and doubles by the default function, of a
  -- point whose coordinates are below the prime, any scalar and an initial Z, if any, below the
  -- prime, `point_mult` gives a point whose coordinates are below the prime; no loop runs out, that
  -- of the inverse included.
  pub point_mult-Returns :
      (point scalar : List ℕ) (initial_z : Option (List ℕ)) (num_bits : ℕ)
      → AreBelow c.params (coordinates_of point)
      → IsScale initial_z
      → Returns
          (λ r. AreBelow c.params (coordinates_of r))
          (point_mult c point scalar initial_z num_bits)
  unfolding point_mult
  point_mult-Returns point scalar initial_z num_bits h hz =
      let bit = has_bit scalar 0 in
      bind-Returns (initial_double-Returns initial_z h hz) λ start hd.
        bind-Returns
          (ladder_rounds-Returns (num_bits - 2) scalar (record { first = hd.1; second = hd.0 }))
          λ s hs. bind-Returns (ladder_conjugate-Returns bit hs) λ s' h'.
            bind-Returns
              (final_z-Returns point h'
                (if-holds (AreBelow c.params) bit s'.r1 s'.r0 h'.second h'.first) h)
              λ z hinv. bind-Returns (ladder_add-Returns bit h') λ s'' h''.
                bind-Returns
                  (apply_z-Returns c.params curve.field (IsPoint-AreBelow h''.first) hinv.1)
                  λ r hr. some-Returns (r.x ++ r.y) (joined-AreBelow r (AreBelow-IsPoint hr))
