-- ===== src/Ahrs/Compass/Accuracy.antt =====
-- controller/src/ahrs.c, `ahrs_mag_corrected`, with the calibration that ahrs_calibration.c writes:
-- how far a corrected reading is from the centre.
use native.Mathlib.Nat.{mul-div-le}
use segling.Prelude.{ℕ, suc, ◌+◌, ◌*◌, ◌/◌, ◌≤◌, ◌≡◌, subst, refl, true, false, arith}
use segling.Prelude.Int.{
  ℤ, pos, negsuc, pos_part, neg_part, ◌+ℤ◌, ◌-ℤ◌, ◌*ℤ◌, ◌≤ℤ◌, quot, to_i16, int_laws,
  to_i16_of_InI16, *ℤ_bound, mul_le_mul, neg_ℕ,
}
use segling.Math.{clamp_i32}
use segling.Math.Clamp.{clamp_i32_lem}
use segling.Ahrs.State.{Axes, MagnetometerValue, min_span, mag_meas_max}
use segling.Ahrs.Calibration.{axis_mid, spans_ok, finished_calibration}
use segling.Ahrs.Invariant.{InMagRange}
use segling.Ahrs.{is_zero, scaled_product, mag_apply_axis_scale, centered_mag, ahrs_mag_corrected}
use segling.Ahrs.Compass.Finish.{AxesInRange, finished_calibration_sound}

abbrev pub magnitude : ℤ → ℕ
magnitude z = pos_part z + neg_part z

nonzero : (den : ℤ) → pos min_span ≤ℤ den → is_zero den ≡ false
unfolding is_zero
nonzero den h = ground arith

-- The bias is within one half of the middle of the bounds.
quot_two-near :
    (z : ℤ)
    → (pos_part z + 2 * neg_part (quot z (pos 2)) ≤ neg_part z + 2 * pos_part (quot z (pos 2)) + 1)
      × (neg_part z + 2 * pos_part (quot z (pos 2))
          ≤ pos_part z + 2 * neg_part (quot z (pos 2)) + 1)
unfolding quot
quot_two-near (pos a) = ground arith
quot_two-near (negsuc a) = ground arith

axis_mid-near :
    (min max v : ℤ)
    → InMagRange min
    → InMagRange max
    → min ≤ℤ v
    → v ≤ℤ max
    → 2 * magnitude (v -ℤ axis_mid min max) ≤ magnitude (max -ℤ min) + 1
unfolding axis_mid
axis_mid-near min max v hn hx low high =
    let half = quot (min +ℤ max) (pos 2) in
    let near = quot_two-near (min +ℤ max) in
    rw (to_i16_of_InI16 half (omega int_laws)) (omega int_laws)

magnitude-neg_ℕ : (n : ℕ) → magnitude (neg_ℕ n) ≡ n
magnitude-neg_ℕ n = ground arith

-- A quotient times its divisor is at most the dividend.
quot-magnitude : (a b : ℤ) → magnitude b * magnitude (quot a b) ≤ magnitude a
unfolding quot
quot-magnitude (pos a) (pos b) = omega (arith, mul-div-le a b)
quot-magnitude (pos a) (negsuc b) =
    rw (magnitude-neg_ℕ (a / suc b)) (omega (arith, mul-div-le a (suc b)))
quot-magnitude (negsuc a) (pos b) =
    rw (magnitude-neg_ℕ (suc a / b)) (omega (arith, mul-div-le (suc a) b))
quot-magnitude (negsuc a) (negsuc b) = omega (arith, mul-div-le (suc a) (suc b))

-- A clamp to a range about zero brings a value closer to zero.
clamp-magnitude : (v : ℤ) → magnitude (clamp_i32 v (negsuc 4094) (pos mag_meas_max)) ≤ magnitude v
unfolding clamp_i32
clamp-magnitude v = ground arith

corrected-magnitude :
    (v : ℤ) → magnitude (to_i16 (clamp_i32 v (negsuc 4094) (pos mag_meas_max))) ≤ magnitude v
corrected-magnitude v =
    let range = clamp_i32_lem v (negsuc 4094) (pos mag_meas_max) (omega arith) in
    rw (to_i16_of_InI16 (clamp_i32 v (negsuc 4094) (pos mag_meas_max)) (omega int_laws))
      (clamp-magnitude v)

-- The scaling brings a value of half the span's size to half the size of the numerator.
scaled-magnitude :
    (centered num den : ℤ)
    → is_zero den ≡ false
    → 2 * magnitude centered ≤ magnitude den + 1
    → 2 * (magnitude den * magnitude (mag_apply_axis_scale centered num den))
      ≤ (magnitude den + 1) * magnitude num
unfolding mag_apply_axis_scale scaled_product
scaled-magnitude centered num den nonzero near =
    let q = quot (centered *ℤ num) den in
    let product =
      *ℤ_bound centered num (magnitude centered) (magnitude num) (omega arith) (omega arith) in
    let divided = quot-magnitude (centered *ℤ num) den in
    let twice =
      mul_le_mul (2 * magnitude centered) (magnitude num) (magnitude den + 1) (magnitude num) near
        (omega arith) in
    let less =
      mul_le_mul (magnitude den) _ (magnitude den) _ (omega arith) (corrected-magnitude q) in
    rw nonzero (omega (arith, product, divided, twice, less))

-- A corrected reading `r` of an axis lies within half the numerator, up to one part in the divisor.
abbrev pub Centred : ℤ → ℤ → ℤ → Type 0
Centred num den r = 2 * (magnitude den * magnitude r) ≤ (magnitude den + 1) * magnitude num

axis-Centred :
    (min max bias num den v : ℤ)
    → InMagRange min
    → InMagRange max
    → bias ≡ axis_mid min max
    → den ≡ max -ℤ min
    → pos min_span ≤ℤ den
    → min ≤ℤ v
    → v ≤ℤ max
    → Centred num (max -ℤ min) (mag_apply_axis_scale (v -ℤ bias) num den)
axis-Centred min max bias num den v hn hx mid span wide low high =
    subst (λ d. Centred num d (mag_apply_axis_scale (v -ℤ bias) num den)) span
      (scaled-magnitude (v -ℤ bias) num den (nonzero den wide)
        (rw (mid, span) (axis_mid-near min max v hn hx low high)))

-- A reading between the bounds, on each axis.
abbrev pub Between : Axes → Axes → MagnetometerValue → Type 0
Between min max v =
    ((min.x ≤ℤ v.magnet_x) × (v.magnet_x ≤ℤ max.x))
    × ((min.y ≤ℤ v.magnet_y) × (v.magnet_y ≤ℤ max.y))
    × ((min.z ≤ℤ v.magnet_z) × (v.magnet_z ≤ℤ max.z))

-- With the calibration from bounds in [-4095, 4095] that are wide enough, a reading between them is
-- corrected to one that is centred, and of the same size on all axes: within half the common
-- numerator on either side of zero, up to one part in the span of the axis.
pub corrected_reading-Centred :
    (min max : Axes) (v : MagnetometerValue)
    → AxesInRange min
    → AxesInRange max
    → spans_ok min max ≡ true
    → Between min max v
    → let c = finished_calibration min max in
      let r = ahrs_mag_corrected c v in
      let num = c.scale_num.x in
      Centred num (max.x -ℤ min.x) r.magnet_x
      × Centred num (max.y -ℤ min.y) r.magnet_y
      × Centred num (max.z -ℤ min.z) r.magnet_z
unfolding ahrs_mag_corrected centered_mag finished_calibration
corrected_reading-Centred min max v hn hx ok (x, y, z) =
    let c = finished_calibration min max in
    let ((_, _, dx, wx), (_, _, dy, wy), (_, _, dz, wz), _, _, _, _) =
      finished_calibration_sound min max hn hx ok in
    let num = c.scale_num.x in
    (
      axis-Centred min.x max.x c.bias.x num c.scale_den.x v.magnet_x hn.0 hx.0 refl dx wx x.0 x.1,
      axis-Centred min.y max.y c.bias.y num c.scale_den.y v.magnet_y hn.1 hx.1 refl dy wy y.0 y.1,
      axis-Centred min.z max.z c.bias.z num c.scale_den.z v.magnet_z hn.2 hx.2 refl dz wz z.0 z.1,
    )
