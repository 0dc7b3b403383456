-- ===== src/Uecc/Points.antt =====
-- The point operations of vendors/ocaml-uecc/src/uECC.c, and the default functions of a curve of
-- curve-specific.h. An array that a function changes in place is part of its result; `none` is
-- where a loop of a function below runs out of fuel.
use tezos_master_lib_p2p.Prelude.{
  ℕ, zero, suc, ◌+◌, ◌-◌, ◌*◌, List, ◌++◌, Bool, true, false, not, ◌&&◌, ◌||◌, Option, none, some,
  ◌>>=◌, take, drop, set, ltb, ◌==◌, if◌then◌else◌, u64, ◌<<◌,
}
use tezos_master_lib_p2p.Uecc.Vli.{
  clear, is_zero, test_bit, num_bits, add, rshift1, mod_add, mod_sub,
}
use tezos_master_lib_p2p.Uecc.Mmod.{or_last, one_words, mod_inv}
use tezos_master_lib_p2p.Uecc.Curve.{
  Params, Point, Jacobian, Curve, mod_mult_fast, mod_square_fast, bits_to_words, params_secp256r1,
}

-- The halving of X1 in double_jacobian_default, by the modulus if X1 is odd.
unfoldable pub halve_mod : Params → List ℕ → List ℕ
halve_mod c x1 =
    if test_bit x1 0 == 0
    then rshift1 x1
    else (let (sum, l_carry) = add x1 c.p in
        or_last c.num_words (u64 (l_carry << 63)) (rshift1 sum))

-- double_jacobian_default behind its test of Z1.
unfoldable pub double_nonzero : Params → Jacobian → Option Jacobian
double_nonzero c s = do
  y_squared ← mod_square_fast c s.y
  t5 ← mod_mult_fast c s.x y_squared
  t4 ← mod_square_fast c y_squared
  y1 ← mod_mult_fast c s.y s.z
  z_squared ← mod_square_fast c s.z
  let sum = mod_add s.x z_squared c.p
  let difference = mod_sub sum (mod_add z_squared z_squared c.p) c.p
  x1 ← mod_mult_fast c sum difference
  let b = halve_mod c (mod_add x1 (mod_add x1 x1 c.p) c.p)
  b_squared ← mod_square_fast c b
  let z1 = mod_sub (mod_sub b_squared t5 c.p) t5 c.p
  product ← mod_mult_fast c b (mod_sub t5 z1 c.p)
  some (record { x = z1; y = mod_sub product t4 c.p; z = y1 })

unfoldable pub double_jacobian_default : Params → Jacobian → Option Jacobian
double_jacobian_default c s = elim (is_zero s.z == 0) [ true ↦ double_nonzero c s | false ↦ some s ]

-- x_side_default.
unfoldable pub x_side_default : Params → List ℕ → Option (List ℕ)
x_side_default c x = do
  squared ← mod_square_fast c x
  product ← mod_mult_fast c (mod_sub squared (set (clear c.num_words) 0 3) c.p) x
  some (mod_add product c.b c.p)

-- The loop of mod_sqrt_default at i = rounds + 1.
unfoldable pub sqrt_rounds : ℕ → Params → List ℕ → List ℕ → List ℕ → Option (List ℕ)
sqrt_rounds zero c p1 a l_result = some l_result
sqrt_rounds (suc rounds) c p1 a l_result = do
  squared ← mod_square_fast c l_result
  next ← elim (test_bit p1 (suc (suc rounds)) == 0) [
    | true ↦ some squared
    | false ↦ mod_mult_fast c squared a
  ]
  sqrt_rounds rounds c p1 a next

-- mod_sqrt_default.
unfoldable pub mod_sqrt_default : Params → List ℕ → Option (List ℕ)
mod_sqrt_default c a =
    let p1 = (add c.p (one_words c.num_words)).0 in
    sqrt_rounds (num_bits p1 c.num_words - 2) c p1 a (one_words c.num_words)

-- curve_secp256r1.
abbrev pub secp256r1 : Curve
secp256r1 = record {
  params = params_secp256r1;
  double_jacobian = double_jacobian_default;
  mod_sqrt = mod_sqrt_default;
  x_side = x_side_default;
}

unfoldable pub apply_z : Params → Point → List ℕ → Option Point
apply_z c s z = do
  t1 ← mod_square_fast c z
  x1 ← mod_mult_fast c s.x t1
  cube ← mod_mult_fast c t1 z
  y1 ← mod_mult_fast c s.y cube
  some (record { x = x1; y = y1 })

-- XYcZ_initial_double: the doubled point, and the first one.
unfoldable pub initial_double : Curve → Point → Option (List ℕ) → Option (Point × Point)
initial_double c s initial_z = do
  let z : List ℕ = elim initial_z [ none ↦ one_words c.params.num_words | some given ↦ given ]
  first ← apply_z c.params s z
  doubled ← c.double_jacobian c.params (record { x = first.x; y = first.y; z = z })
  second ← apply_z c.params s doubled.z
  some (record { x = doubled.x; y = doubled.y }, second)

-- XYcZ_add.
unfoldable pub co_z_add : Params → Point → Point → Option (Point × Point)
co_z_add c s1 s2 = do
  a ← mod_square_fast c (mod_sub s2.x s1.x c.p)
  x1 ← mod_mult_fast c s1.x a
  x2 ← mod_mult_fast c s2.x a
  let slope = mod_sub s2.y s1.y c.p
  d ← mod_square_fast c slope
  let x3 = mod_sub (mod_sub d x1 c.p) x2 c.p
  y1 ← mod_mult_fast c s1.y (mod_sub x2 x1 c.p)
  product ← mod_mult_fast c slope (mod_sub x1 x3 c.p)
  some (record { x = x1; y = y1 }, record { x = x3; y = mod_sub product y1 c.p })

-- XYcZ_addC.
unfoldable pub co_z_add_conjugate : Params → Point → Point → Option (Point × Point)
co_z_add_conjugate c s1 s2 = do
  a ← mod_square_fast c (mod_sub s2.x s1.x c.p)
  x1 ← mod_mult_fast c s1.x a
  x2 ← mod_mult_fast c s2.x a
  let t5 = mod_add s2.y s1.y c.p
  let slope = mod_sub s2.y s1.y c.p
  y1 ← mod_mult_fast c s1.y (mod_sub x2 x1 c.p)
  let t6 = mod_add x1 x2 c.p
  d ← mod_square_fast c slope
  let x3 = mod_sub d t6 c.p
  product ← mod_mult_fast c slope (mod_sub x1 x3 c.p)
  f ← mod_square_fast c t5
  let t7 = mod_sub f t6 c.p
  product' ← mod_mult_fast c (mod_sub t7 x1 c.p) t5
  some (
    record { x = t7; y = mod_sub product' y1 c.p },
    record { x = x3; y = mod_sub product y1 c.p },
  )

-- The points R[0] and R[1] of EccPoint_mult.
pub record Ladder : Type 0 where
  pub r0 : Point
  pub r1 : Point

-- XYcZ_addC(R[1 - nb], R[nb]) and XYcZ_add(R[nb], R[1 - nb]), with nb = !testBit(scalar, i).
unfoldable pub ladder_conjugate : Params → Bool → Ladder → Option Ladder
ladder_conjugate c bit s = elim bit [
  | true ↦ do (q1, q0) ← co_z_add_conjugate c s.r1 s.r0; some (record { r0 = q0; r1 = q1 })
  | false ↦ do (q0, q1) ← co_z_add_conjugate c s.r0 s.r1; some (record { r0 = q0; r1 = q1 })
]

unfoldable pub ladder_add : Params → Bool → Ladder → Option Ladder
ladder_add c bit s = elim bit [
  | true ↦ do (q0, q1) ← co_z_add c s.r0 s.r1; some (record { r0 = q0; r1 = q1 })
  | false ↦ do (q1, q0) ← co_z_add c s.r1 s.r0; some (record { r0 = q0; r1 = q1 })
]

-- testBit(scalar, i) as a test.
unfoldable pub has_bit : List ℕ → ℕ → Bool
has_bit scalar i = not (test_bit scalar i == 0)

-- The loop of EccPoint_mult at i = rounds.
unfoldable pub ladder_rounds : ℕ → Params → List ℕ → Ladder → Option Ladder
ladder_rounds zero c scalar s = some s
ladder_rounds (suc rounds) c scalar s = do
  s' ← ladder_conjugate c (has_bit scalar (suc rounds)) s
  s'' ← ladder_add c (has_bit scalar (suc rounds)) s'
  ladder_rounds rounds c scalar s''

-- The final 1 / Z of EccPoint_mult; R[1 - nb] is `rb`.
unfoldable pub final_z : Params → List ℕ → Ladder → Point → Option (List ℕ)
final_z c point s rb = do
  z1 ← mod_mult_fast c (mod_sub s.r1.x s.r0.x c.p) rb.y
  z2 ← mod_mult_fast c z1 (take c.num_words point)
  z3 ← mod_inv z2 c.p
  z4 ← mod_mult_fast c z3 (drop c.num_words point)
  mod_mult_fast c z4 rb.x

-- EccPoint_mult.
unfoldable pub point_mult : Curve → List ℕ → List ℕ → Option (List ℕ) → ℕ → Option (List ℕ)
point_mult c point scalar initial_z num_bits = do
  let num_words = c.params.num_words
  (r1, r0) ←
      initial_double c (record { x = take num_words point; y = drop num_words point }) initial_z
  s ← ladder_rounds (num_bits - 2) c.params scalar (record { r0 = r0; r1 = r1 })
  let bit = has_bit scalar 0
  s' ← ladder_conjugate c.params bit s
  z ← final_z c.params point s' (if bit then s'.r1 else s'.r0)
  s'' ← ladder_add c.params bit s'
  r ← apply_z c.params s''.r0 z
  some (r.x ++ r.y)

-- regularize_k: the carry, k0 and k1.
unfoldable pub regularize_k : Params → List ℕ → Bool × (List ℕ × List ℕ)
regularize_k c k =
    let num_n_words = bits_to_words c.num_n_bits in
    let (k0, overflow) = add k c.n in
    let carry =
      not (overflow == 0) || (ltb c.num_n_bits (num_n_words * 64) && has_bit k0 c.num_n_bits) in
    (carry, (k0, (add k0 c.n).0))

-- EccPoint_mult by p2[!carry], of the two numbers of regularize_k.
unfoldable pub regular_mult : Curve → List ℕ → List ℕ → Option (List ℕ) → Option (List ℕ)
regular_mult c point k initial_z =
    let (carry, (k0, k1)) = regularize_k c.params k in
    point_mult c point (if carry then k0 else k1) initial_z (c.params.num_n_bits + 1)

-- EccPoint_compute_public_key: the point, and whether it is not the one at infinity.
unfoldable pub point_public_key : Curve → List ℕ → Option (List ℕ × Bool)
point_public_key c private_key = do
  result ← regular_mult c c.params.g private_key none
  some (result, is_zero result == 0)
