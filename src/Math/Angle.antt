-- ===== src/Math/Angle.antt =====
-- controller/src/utils.c: the helpers on `double`, over an implementation of its arithmetic.
pub mod Laws
use segling.Prelude.{ℕ, Bool, not, ◌&&◌, if◌then◌else◌}
use segling.Float.{F64, zero64, circle, degrees_per_radian}

-- MATH_D64_SNAN_UNKNOWN_BITS and MATH_D64_SNAN_DOMAIN_RANGE_BITS
abbrev pub snan_unknown_bits : ℕ
snan_unknown_bits = 0x7FF0000000000001

abbrev pub snan_domain_range_bits : ℕ
snan_domain_range_bits = 0x7FF0000000000002

module _ (d : F64) where
  open d use {D, lt, le, eq, add, sub, mul, div, neg, of_decimal, of_bits}

  unfoldable pub nan_f64_unknown : D
  nan_f64_unknown = of_bits snan_unknown_bits

  unfoldable pub nan_f64_domain_range : D
  nan_f64_domain_range = of_bits snan_domain_range_bits

  unfoldable pub nan_f64 : D
  unfolding nan_f64_unknown
  nan_f64 = nan_f64_unknown

  unfoldable pub is_nan_f64 : D → Bool
  is_nan_f64 v = not (eq v v)

  -- The two steps that may each change the result, in order.
  unfoldable pub normalize_deg_0_360 : D → D
  normalize_deg_0_360 deg =
      let up = if lt deg (zero64 d) then add deg (circle d) else deg in
      if le (circle d) up then sub up (circle d) else up

  unfoldable pub rad_to_deg : D → D
  rad_to_deg rad = mul rad (degrees_per_radian d)

  unfoldable pub fabs : D → D
  fabs v = if lt v (zero64 d) then neg v else v

  -- MATH_PI_4, MATH_PI_3_4, MATH_ATAN2_A and MATH_ATAN2_B
  abbrev pub pi_4 : D
  pi_4 = of_decimal 7853981633974483 16

  abbrev pub pi_3_4 : D
  pi_3_4 = of_decimal 2356194490192345 15

  abbrev pub atan2_a : D
  atan2_a = of_decimal 1963 4

  abbrev pub atan2_b : D
  atan2_b = of_decimal 9817 4

  -- The polynomial in `ratio` that both branches add to their base angle.
  abbrev pub angle_from : D → D → D
  angle_from base ratio = add base (mul (sub (mul (mul atan2_a ratio) ratio) atan2_b) ratio)

  -- The angle before its sign is set, from |y| and x.
  unfoldable pub atan2_abs : D → D → D
  atan2_abs abs_y x =
      if le (zero64 d) x
      then angle_from pi_4 (div (sub x abs_y) (add x abs_y))
      else angle_from pi_3_4 (div (add x abs_y) (sub abs_y x))

  unfoldable pub atan2_rad : D → D → D
  unfolding fabs nan_f64_domain_range
  atan2_rad y x =
      if eq x (zero64 d) && eq y (zero64 d)
      then nan_f64_domain_range
      else let angle_rad = atan2_abs (fabs y) x in
        if lt y (zero64 d) then neg angle_rad else angle_rad
