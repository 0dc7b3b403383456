-- ===== src/Uecc/Verify.antt =====
-- uECC_verify of vendors/ocaml-uecc/src/uECC.c. `none` is where a loop runs out of fuel and where
-- the code would read a point through points[0].
use tezos_master_lib_p2p.Prelude.{
  ℕ, zero, suc, ◌-◌, List, Bool, true, false, not, ◌||◌, Option, none, some, ◌>>=◌, take, drop, ltb,
  ◌==◌, if◌then◌else◌,
}
use tezos_master_lib_p2p.Uecc.Vli.{is_zero, num_bits, cmp_unsafe, is_one, equal, sub, mod_sub}
use tezos_master_lib_p2p.Uecc.Mmod.{one_words, mod_mult, mod_inv}
use tezos_master_lib_p2p.Uecc.Curve.{Params, Point, Jacobian, Curve, mod_mult_fast, bits_to_words}
use tezos_master_lib_p2p.Uecc.Points.{apply_z, co_z_add, has_bit}
use tezos_master_lib_p2p.Uecc.Keys.{bytes_to_native, point_to_native}
use tezos_master_lib_p2p.Uecc.Ecdsa.{bits_to_int, widen}

unfoldable pub smax : ℕ → ℕ → ℕ
smax a b = if ltb b a then a else b

-- points[index], by the two bits of the index.
unfoldable pub pick_point : Point → Point → Point → Bool → Bool → Option Point
pick_point g public sum false false = none
pick_point g public sum true false = some g
pick_point g public sum false true = some public
pick_point g public sum true true = some sum

-- sum = G + Q, with Z = 1.
unfoldable pub sum_point : Params → Point → Point → Option Point
sum_point c g public = do
  (_, sum) ← co_z_add c g public
  z ← mod_inv (mod_sub public.x g.x c.p) c.p
  apply_z c sum z

-- One point added to (rx, ry, z) in the loop.
unfoldable pub add_picked : Params → Jacobian → Point → Option Jacobian
add_picked c r point = do
  t ← apply_z c point r.z
  let tz = mod_sub r.x t.x c.p
  (_, next) ← co_z_add c t (record { x = r.x; y = r.y })
  z ← mod_mult_fast c r.z tz
  some (record { x = next.x; y = next.y; z = z })

-- The loop at i + 1 = rounds, counting down.
unfoldable pub verify_rounds :
    ℕ → Curve → (Bool → Bool → Option Point) → List ℕ → List ℕ → Jacobian → Option Jacobian
verify_rounds zero c points u1 u2 r = some r
verify_rounds (suc i) c points u1 u2 r = do
  doubled ← c.double_jacobian c.params r
  next ← elim (points (has_bit u1 i) (has_bit u2 i)) [
    | none ↦ some doubled
    | some point ↦ add_picked c.params doubled point
  ]
  verify_rounds i c points u1 u2 next

-- rx of u1 * G + u2 * Q.
unfoldable pub shamir : Curve → Point → Point → List ℕ → List ℕ → Option (List ℕ)
shamir c g public u1 u2 = do
  let num_n_words = bits_to_words c.params.num_n_bits
  sum ← sum_point c.params g public
  let top = smax (num_bits u1 num_n_words) (num_bits u2 num_n_words)
  first ← pick_point g public sum (has_bit u1 (top - 1)) (has_bit u2 (top - 1))
  r ←
      verify_rounds (top - 1) c (pick_point g public sum) u1 u2
        (record { x = first.x; y = first.y; z = one_words c.params.num_words })
  z ← mod_inv r.z c.params.p
  last ← apply_z c.params (record { x = r.x; y = r.y }) z
  some last.x

-- uECC_verify behind its tests of r and s.
unfoldable pub verify_in_range : Curve → List ℕ → List ℕ → List ℕ → List ℕ → Option Bool
verify_in_range c public message_hash r s = do
  let n = c.params.n
  let num_n_words = bits_to_words c.params.num_n_bits
  let num_words = c.params.num_words
  z ← mod_inv s n
  let u1 = mod_mult (bits_to_int c.params message_hash) z n
  let u2 = mod_mult r z n
  rx ←
      shamir c (record { x = take num_words c.params.g; y = drop num_words c.params.g })
        (record { x = take num_words public; y = drop num_words public }) u1 u2
  let wide = widen num_n_words rx
  let v = if is_one (cmp_unsafe n wide) then wide else (sub wide n).0
  some (not (equal (take num_words v) (take num_words r) == 0))

unfoldable pub verify : Curve → List ℕ → List ℕ → List ℕ → Option Bool
verify c public_key message_hash signature =
    let num_bytes = c.params.num_bytes in
    let num_n_words = bits_to_words c.params.num_n_bits in
    let r = widen num_n_words (bytes_to_native (take num_bytes signature)) in
    let s = widen num_n_words (bytes_to_native (take num_bytes (drop num_bytes signature))) in
    let num_words = c.params.num_words in
    if not (is_zero (take num_words r) == 0) || not (is_zero (take num_words s) == 0)
    then some false
    else if not (is_one (cmp_unsafe c.params.n r)) || not (is_one (cmp_unsafe c.params.n s))
    then some false
    else verify_in_range c (point_to_native c.params public_key) message_hash r s
