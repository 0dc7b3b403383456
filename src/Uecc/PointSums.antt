-- ===== src/Uecc/PointSums.antt =====
-- The co-Z sums of uECC.c, apply_z and x_side_default against their formulas.
use tezos_master_lib_p2p.Prelude.{ℕ, List, Returns, some-Returns, bind-Returns}
use tezos_master_lib_p2p.Uecc.Value.{value}
use tezos_master_lib_p2p.Uecc.Curve.{Params, Point}
use tezos_master_lib_p2p.Uecc.Points.{apply_z, co_z_add, co_z_add_conjugate}
use tezos_master_lib_p2p.Uecc.Field.{
  IsField, IsResidue, mod_add-IsResidue, mod_sub-IsResidue, mod_mult_fast-Returns,
  mod_square_fast-Returns,
}
use tezos_master_lib_p2p.Uecc.Formulas.{
  Coordinates, same_point, sum_point_of, joint_sum, difference_of, scaled,
}

-- A point whose coordinates are these numbers, in num_words words each.
pub record IsPoint (c : Params) (p : Coordinates) (s : Point) : Type 0 where
  pub x_residue : IsResidue c p.x s.x
  pub y_residue : IsResidue c p.y s.y

abbrev pub ArePoints : Params → Coordinates → Coordinates → Point × Point → Type 0
ArePoints c p q r = IsPoint c p r.0 × IsPoint c q r.1

module _ (c : Params) (field : IsField c) where
  pub apply_z-Returns :
      {p : Coordinates} {s : Point} {z : ℕ} {zs : List ℕ}
      → IsPoint c p s
      → IsResidue c z zs
      → Returns (IsPoint c (scaled (value c.p) z p)) (apply_z c s zs)
  unfolding apply_z
  apply_z-Returns hs hz = bind-Returns (mod_square_fast-Returns c field hz) λ t1 h1.
      bind-Returns (mod_mult_fast-Returns c field hs.x_residue h1) λ x1 hx.
        bind-Returns (mod_mult_fast-Returns c field h1 hz) λ cube h3.
          bind-Returns (mod_mult_fast-Returns c field hs.y_residue h3) λ y1 hy.
            some-Returns (record { x = x1; y = y1 }) (record { x_residue = hx; y_residue = hy })

  -- On a curve whose mmod_fast reduces by its modulus, of two points whose coordinates are below the
  -- modulus, `co_z_add` gives the first point, rescaled, and the sum, as the formulas have them; no
  -- loop below runs out.
  pub co_z_add-Returns :
      {p q : Coordinates} {s1 s2 : Point}
      → IsPoint c p s1
      → IsPoint c q s2
      → Returns
          (ArePoints c (same_point (value c.p) p q) (sum_point_of (value c.p) p q))
          (co_z_add c s1 s2)
  unfolding co_z_add
  co_z_add-Returns {p} {q} {s1} {s2} hp hq =
      let slope = mod_sub-IsResidue c field hq.y_residue hp.y_residue in
      bind-Returns
        (mod_square_fast-Returns c field (mod_sub-IsResidue c field hq.x_residue hp.x_residue))
        λ a ha. bind-Returns (mod_mult_fast-Returns c field hp.x_residue ha) λ x1 hb.
          bind-Returns (mod_mult_fast-Returns c field hq.x_residue ha) λ x2 hc.
            bind-Returns (mod_square_fast-Returns c field slope) λ d hd.
              let x3 = mod_sub-IsResidue c field (mod_sub-IsResidue c field hd hb) hc in
              bind-Returns
                (mod_mult_fast-Returns c field hp.y_residue (mod_sub-IsResidue c field hc hb))
                λ y1 he.
                  bind-Returns
                    (mod_mult_fast-Returns c field slope (mod_sub-IsResidue c field hb x3))
                    λ product h. some-Returns _ (
                      record { x_residue = hb; y_residue = he },
                      record { x_residue = x3; y_residue = mod_sub-IsResidue c field h he },
                    )

  -- On a curve whose mmod_fast reduces by its modulus, of two points whose coordinates are below the
  -- modulus, `co_z_add_conjugate` gives the difference and the sum, as the formulas have them; no
  -- loop below runs out.
  pub co_z_add_conjugate-Returns :
      {p q : Coordinates} {s1 s2 : Point}
      → IsPoint c p s1
      → IsPoint c q s2
      → Returns
          (ArePoints c (difference_of (value c.p) p q) (joint_sum (value c.p) p q))
          (co_z_add_conjugate c s1 s2)
  unfolding co_z_add_conjugate
  co_z_add_conjugate-Returns hp hq =
      let slope = mod_sub-IsResidue c field hq.y_residue hp.y_residue in
      let total = mod_add-IsResidue c field hq.y_residue hp.y_residue in
      bind-Returns
        (mod_square_fast-Returns c field (mod_sub-IsResidue c field hq.x_residue hp.x_residue))
        λ a ha. bind-Returns (mod_mult_fast-Returns c field hp.x_residue ha) λ x1 hb.
          bind-Returns (mod_mult_fast-Returns c field hq.x_residue ha) λ x2 hc.
            bind-Returns
              (mod_mult_fast-Returns c field hp.y_residue (mod_sub-IsResidue c field hc hb))
              λ y1 he.
                let both = mod_add-IsResidue c field hb hc in
                bind-Returns (mod_square_fast-Returns c field slope) λ d hd.
                  let x3 = mod_sub-IsResidue c field hd both in
                  bind-Returns
                    (mod_mult_fast-Returns c field slope (mod_sub-IsResidue c field hb x3))
                    λ product h. bind-Returns (mod_square_fast-Returns c field total) λ f hf.
                      let x3' = mod_sub-IsResidue c field hf both in
                      bind-Returns
                        (mod_mult_fast-Returns c field (mod_sub-IsResidue c field x3' hb) total)
                        λ product' h'. some-Returns _ (
                          record { x_residue = x3'; y_residue = mod_sub-IsResidue c field h' he },
                          record { x_residue = x3; y_residue = mod_sub-IsResidue c field h he },
                        )
