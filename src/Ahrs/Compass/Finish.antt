-- ===== src/Ahrs/Compass/Finish.antt =====
-- controller/src/ahrs_calibration.c, `mag_cal_try_finish`: the calibration that is written.
use segling.Prelude.{ℕ, ◌+◌, ◌/◌, ◌^◌, ◌<◌, ◌≤◌, ◌≡◌, true, ◌∙◌, ap, refl, if◌then◌else◌, arith}
use segling.Prelude.Int.{
  ℤ, pos, negsuc, pos_part, neg_part, ◌+ℤ◌, ◌-ℤ◌, ◌≤ℤ◌, ◌<ℤ◌, InI16, ltb_ℤ, quot, to_i16, to_u32,
  int_laws, to_i16_of_InI16, to_i32_of_InI32,
}
use segling.Ahrs.State.{Axes, zip_axes, min_span, axis_count}
use segling.Ahrs.Calibration.{
  axis_span, span_ok, average_span, axis_mid, finished_calibration, spans_ok,
}
use segling.Ahrs.Invariant.{InMagRange}

quot_two_ge :
    (z m : ℤ)
    → pos_part m + pos_part m + neg_part z ≤ pos_part z + neg_part m + neg_part m
    → m ≤ℤ quot z (pos 2)
unfolding quot
quot_two_ge (pos a) m h = ground arith
quot_two_ge (negsuc a) m h = ground arith

quot_two_le :
    (z m : ℤ)
    → pos_part z + neg_part m + neg_part m ≤ pos_part m + pos_part m + neg_part z
    → quot z (pos 2) ≤ℤ m
unfolding quot
quot_two_le (pos a) m h = ground arith
quot_two_le (negsuc a) m h = ground arith

-- The middle of two int16_t bounds lies between them.
axis_mid-between :
    (min max : ℤ)
    → InI16 min
    → InI16 max
    → min ≤ℤ max
    → (min ≤ℤ axis_mid min max) × (axis_mid min max ≤ℤ max)
unfolding axis_mid
axis_mid-between min max hn hx h =
    let above = quot_two_ge (min +ℤ max) min (omega int_laws) in
    let below = quot_two_le (min +ℤ max) max (omega int_laws) in
    rw (to_i16_of_InI16 (quot (min +ℤ max) (pos 2)) (omega int_laws)) (above, below)

pub span_ok-le : (min max : ℤ) → span_ok min max ≡ true → pos min_span ≤ℤ max -ℤ min
unfolding span_ok
span_ok-le min max h = ground arith

pub axis_span_of_ok : (min max : ℤ) → span_ok min max ≡ true → axis_span min max ≡ max -ℤ min
unfolding axis_span span_ok
axis_span_of_ok min max h = ground arith

-- What one axis of the calibration promises: the bias lies between the bounds, the divisor is the
-- span itself, and it is at least AHRS_MAG_CAL_MIN_SPAN.
abbrev pub AxisSound : ℤ → ℤ → ℤ → ℤ → Type 0
AxisSound min max bias den =
    (min ≤ℤ bias) × (bias ≤ℤ max) × (den ≡ max -ℤ min) × (pos min_span ≤ℤ den)

pub axis-AxisSound :
    (min max : ℤ)
    → InMagRange min
    → InMagRange max
    → span_ok min max ≡ true
    → AxisSound min max (axis_mid min max) (to_i16 (axis_span min max))
axis-AxisSound min max hn hx ok =
    let wide = span_ok-le min max ok in
    let mid = axis_mid-between min max (omega int_laws) (omega int_laws) (omega int_laws) in
    let den =
      ap to_i16 (axis_span_of_ok min max ok) ∙ to_i16_of_InI16 (max -ℤ min) (omega int_laws) in
    (mid.0, mid.1, den, rw den wide)

to_u32_of_nonneg : (z : ℤ) → neg_part z ≡ 0 → pos_part z < 2 ^ 32 → to_u32 z ≡ pos_part z
unfolding to_u32
to_u32_of_nonneg (pos n) h k = omega arith
to_u32_of_nonneg (negsuc n) h k = absurd (omega arith)

raise_to_one : (n : ℕ) → 1 ≤ n → (if ltb_ℤ (pos n) (pos 1) then pos 1 else pos n) ≡ pos n
raise_to_one n h = ground arith

-- The mean of three positive spans of int16_t range, with no conversion that wraps.
average_span-eq :
    (span : Axes)
    → (pos 1 ≤ℤ span.x) × (span.x ≤ℤ pos 32767)
    → (pos 1 ≤ℤ span.y) × (span.y ≤ℤ pos 32767)
    → (pos 1 ≤ℤ span.z) × (span.z ≤ℤ pos 32767)
    → average_span span ≡ pos (pos_part (pos 0 +ℤ span.x +ℤ span.y +ℤ span.z) / axis_count)
unfolding average_span
average_span-eq span hx hy hz =
    let sum = pos 0 +ℤ span.x +ℤ span.y +ℤ span.z in
    let unsigned = to_u32_of_nonneg sum (omega int_laws) (omega int_laws) in
    let narrow = to_i32_of_InI32 (pos (pos_part sum / axis_count)) (omega int_laws) in
    rw (unsigned, narrow) (raise_to_one (pos_part sum / axis_count) (omega int_laws))

pub average_span-bounds :
    (span : Axes) (lo hi : ℕ)
    → 1 ≤ lo
    → hi ≤ 32767
    → (pos lo ≤ℤ span.x) × (span.x ≤ℤ pos hi)
    → (pos lo ≤ℤ span.y) × (span.y ≤ℤ pos hi)
    → (pos lo ≤ℤ span.z) × (span.z ≤ℤ pos hi)
    → (pos lo ≤ℤ to_i16 (average_span span)) × (to_i16 (average_span span) ≤ℤ pos hi)
average_span-bounds span lo hi h k hx hy hz =
    let sum = pos 0 +ℤ span.x +ℤ span.y +ℤ span.z in
    let mean =
      average_span-eq span (omega arith, omega arith) (omega arith, omega arith)
        (omega arith, omega arith) in
    let kept = to_i16_of_InI16 (pos (pos_part sum / axis_count)) (omega int_laws) in
    rw (mean, kept) (omega int_laws)

pub spans_ok-axes :
    (min max : Axes)
    → spans_ok min max ≡ true
    → (span_ok min.x max.x ≡ true) × (span_ok min.y max.y ≡ true) × (span_ok min.z max.z ≡ true)
unfolding spans_ok
spans_ok-axes min max h = ground arith

abbrev pub AxesInRange : Axes → Type 0
AxesInRange a = InMagRange a.x × InMagRange a.y × InMagRange a.z

-- A span within the range of the magnetometer, as a number.
pub span-bounds :
    (min max : ℤ)
    → InMagRange min
    → InMagRange max
    → span_ok min max ≡ true
    → (pos min_span ≤ℤ axis_span min max) × (axis_span min max ≤ℤ pos 8190)
span-bounds min max hn hx ok =
    let wide = span_ok-le min max ok in rw (axis_span_of_ok min max ok) (wide, omega int_laws)

-- Where the bounds lie in [-4095, 4095] and every span is wide enough, the calibration that is
-- written is sound: on each axis the bias lies between the bounds and the divisor is the span,
-- exactly and at least AHRS_MAG_CAL_MIN_SPAN; and the numerator is the same on all axes and lies
-- between AHRS_MAG_CAL_MIN_SPAN and the greatest span there can be, 8190.
pub finished_calibration_sound :
    (min max : Axes)
    → AxesInRange min
    → AxesInRange max
    → spans_ok min max ≡ true
    → let c = finished_calibration min max in
      AxisSound min.x max.x c.bias.x c.scale_den.x
      × AxisSound min.y max.y c.bias.y c.scale_den.y
      × AxisSound min.z max.z c.bias.z c.scale_den.z
      × (c.scale_num.y ≡ c.scale_num.x)
      × (c.scale_num.z ≡ c.scale_num.x)
      × (pos min_span ≤ℤ c.scale_num.x)
      × (c.scale_num.x ≤ℤ pos 8190)
unfolding finished_calibration
finished_calibration_sound min max hn hx ok =
    let (okx, oky, okz) = spans_ok-axes min max ok in
    let mean =
      average_span-bounds (zip_axes axis_span min max) min_span 8190 (omega arith) (omega arith)
        (span-bounds min.x max.x hn.0 hx.0 okx) (span-bounds min.y max.y hn.1 hx.1 oky)
        (span-bounds min.z max.z hn.2 hx.2 okz) in
    (
      axis-AxisSound min.x max.x hn.0 hx.0 okx,
      axis-AxisSound min.y max.y hn.1 hx.1 oky,
      axis-AxisSound min.z max.z hn.2 hx.2 okz,
      refl,
      refl,
      mean.0,
      mean.1,
    )

wide_axis_wraps :
    (min max : ℤ)
    → InI16 min
    → InI16 max
    → pos 32768 ≤ℤ max -ℤ min
    → (to_i16 (axis_span min max) ≡ max -ℤ min -ℤ pos 65536) × (to_i16 (axis_span min max) <ℤ pos 0)
unfolding axis_span to_i16 ◌-ℤ◌
wide_axis_wraps min max hn hx wide = ground arith

-- Where int16_t bounds of the x axis are 2^15 or more apart, the divisor that is written for it has
-- wrapped: it is the span less 2^16, which is negative.
pub wide_span_wraps :
    (min max : Axes)
    → InI16 min.x
    → InI16 max.x
    → pos 32768 ≤ℤ max.x -ℤ min.x
    → let den = (finished_calibration min max).scale_den.x in
      (den ≡ max.x -ℤ min.x -ℤ pos 65536) × (den <ℤ pos 0)
unfolding finished_calibration
wide_span_wraps min max hn hx wide = wide_axis_wraps min.x max.x hn hx wide
