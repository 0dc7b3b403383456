-- ===== src/Uecc/PointTests.antt =====
-- The theorems about points, keys and HMAC at concrete inputs.
use tezos_master_lib_p2p.Prelude.{
  ℕ, ◌<◌, ◌≡◌, refl, List, [], ◌∷◌, ◌++◌, length, take, drop, replicate, some, none, Returns, ◌==◌,
  if◌then◌else◌, arith,
}
use tezos_master_lib_p2p.Uecc.Mmod.{mmod}
use tezos_master_lib_p2p.Uecc.Reduce.{mmod-IsNumber}
use tezos_master_lib_p2p.Uecc.P256.{p256}
use tezos_master_lib_p2p.Uecc.Value.{IsNumber, value, IsWords}
use tezos_master_lib_p2p.Uecc.Curve.{Params, Point, Jacobian, Curve, params_secp256r1, g256, b256}
use tezos_master_lib_p2p.Uecc.Points.{
  co_z_add, co_z_add_conjugate, double_jacobian_default, mod_sqrt_default, x_side_default,
  point_mult, secp256r1,
}
use tezos_master_lib_p2p.Uecc.Keys.{valid_point, bytes_to_native, native_to_bytes}
use tezos_master_lib_p2p.Uecc.RoundTrip.{native_to_bytes-bytes_to_native}
use tezos_master_lib_p2p.Uecc.Field.{IsField, IsResidue, secp256r1-IsField}
use tezos_master_lib_p2p.Uecc.Formulas.{
  Coordinates, same_point, sum_point_of, joint_sum, difference_of, double_of, double_z,
}
use tezos_master_lib_p2p.Uecc.PointSums.{
  IsPoint, ArePoints, co_z_add-Returns, co_z_add_conjugate-Returns,
}
use tezos_master_lib_p2p.Uecc.PointDouble.{IsJacobian, double_jacobian_default-Returns}
use tezos_master_lib_p2p.Uecc.PointMult.{IsCurve, AreBelow, point_mult-Returns}
use tezos_master_lib_p2p.Uecc.PointValid.{is_on_curve, valid_point-is_on_curve}
use tezos_master_lib_p2p.Uecc.ModTests.{below-seven-IsCoprime}
use tezos_master_lib_p2p.Uecc.Hmac.{HashContext}
use tezos_master_lib_p2p.Uecc.Deterministic.{rekey}
use tezos_master_lib_p2p.Uecc.HmacHash.{IsHash, hmac, rekey-hmac}
use tezos_master_lib_p2p.Uecc.Bytes.{big_endian, bytes_to_native-IsNumber}

-- The generator of secp256r1, and another pair of residues.
abbrev g_x : List ℕ
g_x = take 4 g256

abbrev g_y : List ℕ
g_y = drop 4 g256

abbrev g_point : Point
g_point = record { x = g_x; y = g_y }

abbrev g_coordinates : Coordinates
g_coordinates = record { x = value g_x; y = value g_y }

abbrev other_point : Point
other_point = record { x = g_y; y = b256 }

abbrev other_coordinates : Coordinates
other_coordinates = record { x = value g_y; y = value b256 }

ws-IsResidue :
    (ws : List ℕ)
    → IsWords ws
    → length ws ≡ 4
    → value ws < value p256
    → IsResidue params_secp256r1 (value ws) ws
ws-IsResidue ws h same below = record {
  words = h;
  same_length = same;
  number = refl;
  below = below;
}

g_x-IsResidue : IsResidue params_secp256r1 (value g_x) g_x
g_x-IsResidue = ws-IsResidue g_x (omega arith) refl (omega arith)

g_y-IsResidue : IsResidue params_secp256r1 (value g_y) g_y
g_y-IsResidue = ws-IsResidue g_y (omega arith) refl (omega arith)

b256-IsResidue : IsResidue params_secp256r1 (value b256) b256
b256-IsResidue = ws-IsResidue b256 (omega arith) refl (omega arith)

g_point-IsPoint : IsPoint params_secp256r1 g_coordinates g_point
g_point-IsPoint = record { x_residue = g_x-IsResidue; y_residue = g_y-IsResidue }

other_point-IsPoint : IsPoint params_secp256r1 other_coordinates other_point
other_point-IsPoint = record { x_residue = g_y-IsResidue; y_residue = b256-IsResidue }

co_z_add-Returns_example :
    Returns
      (ArePoints params_secp256r1
        (same_point (value p256) g_coordinates other_coordinates)
        (sum_point_of (value p256) g_coordinates other_coordinates))
      (co_z_add params_secp256r1 g_point other_point)
co_z_add-Returns_example =
    co_z_add-Returns params_secp256r1 secp256r1-IsField {p = g_coordinates} {q = other_coordinates}
      {s1 = g_point} {s2 = other_point} g_point-IsPoint other_point-IsPoint

co_z_add_conjugate-Returns_example :
    Returns
      (ArePoints params_secp256r1
        (difference_of (value p256) g_coordinates other_coordinates)
        (joint_sum (value p256) g_coordinates other_coordinates))
      (co_z_add_conjugate params_secp256r1 g_point other_point)
co_z_add_conjugate-Returns_example =
    co_z_add_conjugate-Returns params_secp256r1 secp256r1-IsField {p = g_coordinates}
      {q = other_coordinates} {s1 = g_point} {s2 = other_point} g_point-IsPoint other_point-IsPoint

abbrev g_jacobian : Jacobian
g_jacobian = record { x = g_x; y = g_y; z = b256 }

double_jacobian_default-Returns_example :
    Returns
      (IsJacobian params_secp256r1
        (if value b256 == 0
          then g_coordinates
          else double_of (value p256) g_coordinates (value b256))
        (if value b256 == 0 then value b256 else double_z (value p256) g_coordinates (value b256)))
      (double_jacobian_default params_secp256r1 g_jacobian)
double_jacobian_default-Returns_example =
    double_jacobian_default-Returns params_secp256r1 secp256r1-IsField {p = g_coordinates}
      {z = value b256} {s = g_jacobian}
      (record { x_residue = g_x-IsResidue; y_residue = g_y-IsResidue; z_residue = b256-IsResidue })

valid_point-is_on_curve_example :
    valid_point secp256r1 g256
    ≡ some (is_on_curve (value p256) (value b256) (value g_x) (value g_y))
valid_point-is_on_curve_example =
    valid_point-is_on_curve secp256r1 secp256r1-IsField refl (omega arith) (value b256)
      b256-IsResidue g256 (value g_x) (value g_y)
      (record { words = omega arith; same_length = refl; number = refl })
      (record { words = omega arith; same_length = refl; number = refl })

-- A curve over the prime 7.
abbrev params_small : Params
params_small = record {
  num_words = 1;
  num_bytes = 1;
  num_n_bits = 3;
  p = 7 ∷ [];
  n = 5 ∷ [];
  g = 1 ∷ 2 ∷ [];
  b = 6 ∷ [];
  mmod_fast = λ product. some (mmod product (7 ∷ []));
}

abbrev small : Curve
small = record {
  params = params_small;
  double_jacobian = double_jacobian_default;
  mod_sqrt = mod_sqrt_default;
  x_side = x_side_default;
}

params_small-IsField : IsField params_small
params_small-IsField = record {
  modulus_words = (omega arith, tt);
  same_length = refl;
  some_words = omega arith;
  few_words = omega arith;
  modulus_pos = omega arith;
  reduces = λ product h e. (
    mmod product (7 ∷ []),
    refl,
    mmod-IsNumber product (7 ∷ []) h (omega arith, tt) e (omega arith) (omega arith),
  );
}

small-IsCurve : IsCurve small
small-IsCurve = record {
  field = params_small-IsField;
  odd = refl;
  big = omega arith;
  prime = λ x pos below. below-seven-IsCoprime x pos below;
  double = refl;
}

small-IsResidue : (x : ℕ) → x < 7 → IsResidue params_small x (x ∷ [])
small-IsResidue x below = record {
  words = (omega arith, tt);
  same_length = refl;
  number = omega arith;
  below = below;
}

point_mult-Returns_example :
    Returns
      (λ r. AreBelow params_small (record { x = take 1 r; y = drop 1 r }))
      (point_mult small (1 ∷ 2 ∷ []) (6 ∷ []) none 4)
point_mult-Returns_example =
    point_mult-Returns small small-IsCurve (1 ∷ 2 ∷ []) (6 ∷ []) none 4
      (record {
        x_below = (1, small-IsResidue 1 (omega arith));
        y_below = (2, small-IsResidue 2 (omega arith));
      })
      tt

-- A hash that gives the length of the message, over a state that keeps the message.
abbrev length_hash : HashContext (List ℕ)
length_hash = record {
  init_hash = λ h. [];
  update_hash = λ h m. h ++ m;
  finish_hash = λ h. (h, length h ∷ []);
  block_size = 4;
  result_size = 1;
}

length_hash-IsHash : IsHash length_hash (λ m. length m ∷ []) (λ h m. h ≡ m)
length_hash-IsHash = record {
  starts = λ h. refl;
  takes = λ h m m' e. rw e refl;
  finishes = λ h m e. rw e refl;
  size = λ m. refl;
}

rekey-hmac_example :
    ((rekey length_hash 1 ((8 ∷ []) ∷ []) (record { h = []; k = 3 ∷ []; v = 4 ∷ [] })).k
      ≡ hmac length_hash (λ m. length m ∷ []) (3 ∷ []) (4 ∷ 1 ∷ 8 ∷ []))
    × ((rekey length_hash 1 ((8 ∷ []) ∷ []) (record { h = []; k = 3 ∷ []; v = 4 ∷ [] })).v
        ≡ hmac length_hash
            (λ m. length m ∷ [])
            (hmac length_hash (λ m. length m ∷ []) (3 ∷ []) (4 ∷ 1 ∷ 8 ∷ []))
            (4 ∷ []))
rekey-hmac_example =
    rekey-hmac length_hash (λ m. length m ∷ []) (λ h m. h ≡ m) length_hash-IsHash 1 ((8 ∷ []) ∷ [])
      (record { h = []; k = 3 ∷ []; v = 4 ∷ [] }) refl refl

bytes_to_native-IsNumber_example :
    IsNumber
      (big_endian (1 ∷ 2 ∷ 3 ∷ 4 ∷ 5 ∷ 6 ∷ 7 ∷ 8 ∷ 9 ∷ []))
      2
      (bytes_to_native (1 ∷ 2 ∷ 3 ∷ 4 ∷ 5 ∷ 6 ∷ 7 ∷ 8 ∷ 9 ∷ []))
bytes_to_native-IsNumber_example =
    bytes_to_native-IsNumber (1 ∷ 2 ∷ 3 ∷ 4 ∷ 5 ∷ 6 ∷ 7 ∷ 8 ∷ 9 ∷ []) (omega arith)

-- A signature whose two numbers are zero.
abbrev zero_signature : List ℕ
zero_signature = replicate 64 0

native_to_bytes-bytes_to_native_example :
    native_to_bytes 9 (bytes_to_native (1 ∷ 2 ∷ 3 ∷ 4 ∷ 5 ∷ 6 ∷ 7 ∷ 8 ∷ 9 ∷ []))
    ≡ 1 ∷ 2 ∷ 3 ∷ 4 ∷ 5 ∷ 6 ∷ 7 ∷ 8 ∷ 9 ∷ []
native_to_bytes-bytes_to_native_example =
    native_to_bytes-bytes_to_native (1 ∷ 2 ∷ 3 ∷ 4 ∷ 5 ∷ 6 ∷ 7 ∷ 8 ∷ 9 ∷ []) (omega arith)
