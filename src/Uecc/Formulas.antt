-- ===== src/Uecc/Formulas.antt =====
-- The formulas of the point operations of uECC.c and curve-specific.h, on numbers modulo m, as the
-- comments of the code name their parts.
use tezos_master_lib_p2p.Prelude.{ℕ}
use tezos_master_lib_p2p.Uecc.Congruence.{half_mod}
use tezos_master_lib_p2p.Uecc.Field.{plus_mod, minus_mod, times_mod}

-- The coordinates of a point.
pub record Coordinates : Type 0 where
  pub x : ℕ
  pub y : ℕ

module _ (m : ℕ) where
  abbrev pub square_mod : ℕ → ℕ
  square_mod a = times_mod m a a

  module _ (p q : Coordinates) where
    -- A = (x2 - x1) ^ 2, B = x1 * A, C = x2 * A, and E = y1 * (C - B).
    abbrev part_a : ℕ
    part_a = square_mod (minus_mod m q.x p.x)

    abbrev part_b : ℕ
    part_b = times_mod m p.x part_a

    abbrev part_c : ℕ
    part_c = times_mod m q.x part_a

    abbrev part_e : ℕ
    part_e = times_mod m p.y (minus_mod m part_c part_b)

    abbrev slope : ℕ
    slope = minus_mod m q.y p.y

    abbrev sum_slope : ℕ
    sum_slope = plus_mod m q.y p.y

    -- The first point, with the Z of the sum.
    abbrev pub same_point : Coordinates
    same_point = record { x = part_b; y = part_e }

    -- The sum: x3 = D - B - C and y3 = (y2 - y1) * (B - x3) - E, where D = (y2 - y1) ^ 2.
    abbrev pub sum_x : ℕ
    sum_x = minus_mod m (minus_mod m (square_mod slope) part_b) part_c

    abbrev pub sum_point_of : Coordinates
    sum_point_of = record {
      x = sum_x;
      y = minus_mod m (times_mod m slope (minus_mod m part_b sum_x)) part_e;
    }

    -- The sum as XYcZ_addC writes it: x3 = D - (B + C).
    abbrev pub joint_sum_x : ℕ
    joint_sum_x = minus_mod m (square_mod slope) (plus_mod m part_b part_c)

    abbrev pub joint_sum : Coordinates
    joint_sum = record {
      x = joint_sum_x;
      y = minus_mod m (times_mod m slope (minus_mod m part_b joint_sum_x)) part_e;
    }

    -- The difference: x3' = F - (B + C) and y3' = (y2 + y1) * (x3' - B) - E, where F = (y2 + y1) ^ 2.
    abbrev pub difference_x : ℕ
    difference_x = minus_mod m (square_mod sum_slope) (plus_mod m part_b part_c)

    abbrev pub difference_of : Coordinates
    difference_of = record {
      x = difference_x;
      y = minus_mod m (times_mod m (minus_mod m difference_x part_b) sum_slope) part_e;
    }

  -- (x * z ^ 2, y * z ^ 3)
  abbrev pub scaled : ℕ → Coordinates → Coordinates
  scaled z p = record {
    x = times_mod m p.x (square_mod z);
    y = times_mod m p.y (times_mod m (square_mod z) z);
  }

  -- x ^ 3 - 3 * x + b
  abbrev pub curve_side : ℕ → ℕ → ℕ
  curve_side b x = plus_mod m (times_mod m (minus_mod m (square_mod x) 3) x) b

  module _ (p : Coordinates) (z : ℕ) where
    -- A = x1 * y1 ^ 2 and B = 3/2 * (x1 ^ 2 - z1 ^ 4).
    abbrev double_a : ℕ
    double_a = times_mod m p.x (square_mod p.y)

    abbrev difference_of_squares : ℕ
    difference_of_squares =
        times_mod m (plus_mod m p.x (square_mod z))
          (minus_mod m (plus_mod m p.x (square_mod z)) (plus_mod m (square_mod z) (square_mod z)))

    abbrev double_b : ℕ
    double_b =
        half_mod
          (plus_mod m difference_of_squares
            (plus_mod m difference_of_squares difference_of_squares))
          m

    -- x3 = B ^ 2 - 2 * A, y3 = B * (A - x3) - y1 ^ 4 and z3 = y1 * z1.
    abbrev pub double_x : ℕ
    double_x = minus_mod m (minus_mod m (square_mod double_b) double_a) double_a

    abbrev pub double_of : Coordinates
    double_of = record {
      x = double_x;
      y =
          minus_mod m (times_mod m double_b (minus_mod m double_a double_x))
            (square_mod (square_mod p.y));
    }

    abbrev pub double_z : ℕ
    double_z = times_mod m p.y z
