-- ===== src/Ahrs/Overflow.antt =====
-- controller/src/ahrs.c and ahrs_calibration.c: no signed arithmetic overflows its C type.
use segling.Prelude.{◌<◌, ◌^◌, List, arith}
use segling.Prelude.Int.{ℤ, neg_part, ◌-ℤ◌, InI16, InI32, int_laws, *ℤ_bound}
use segling.Float.{F32}
use segling.Ahrs.State.{Axes, ImuValue, MagnetometerValue}
use segling.Ahrs.{centered_accel, centered_mag, scaled_product}
use segling.Ahrs.Calls.{Call, g_ahrs, run}
use segling.Ahrs.Invariant.{ImuFits, SampleFits}
use segling.Ahrs.Invariant.Preserved.{CallsFit, run-IsValid}

-- A product that a correction divides: it is an int32_t, and not the smallest one, so that its
-- quotient by any divisor but 0 is an int32_t too.
abbrev pub ProductFits : ℤ → ℤ → Type 0
ProductFits centered num =
    InI32 centered
    × InI32 (scaled_product centered num)
    × (neg_part (scaled_product centered num) < 2 ^ 31)

abbrev pub AxesFit32 : Axes → Type 0
AxesFit32 a = InI32 a.x × InI32 a.y × InI32 a.z

axis_ProductFits :
    (raw bias num : ℤ) → InI16 raw → InI16 bias → InI16 num → ProductFits (raw -ℤ bias) num
unfolding scaled_product
axis_ProductFits raw bias num hr hb hn =
    let wide = *ℤ_bound (raw -ℤ bias) num 65535 32768 (omega int_laws) (omega int_laws) in
    (omega int_laws, omega arith, omega arith)

-- After any calls from the initial state, the next samples overflow no int32_t: neither the
-- acceleration less its bias, nor the field less its bias, nor the products that are divided.
pub samples_overflow_free :
    (f : F32) (cs : List Call) (v : ImuValue) (m : MagnetometerValue)
    → CallsFit cs
    → ImuFits v
    → SampleFits m
    → let s = run cs (g_ahrs f) in
      let c = s.magnetometer_calibration in
      let centered = centered_mag c m in
      AxesFit32 (centered_accel v s)
      × ProductFits centered.x c.scale_num.x
      × ProductFits centered.y c.scale_num.y
      × ProductFits centered.z c.scale_num.z
unfolding centered_mag centered_accel
samples_overflow_free f cs v m calls imu mag =
    let valid = run-IsValid {f = f} cs calls in
    let c = valid.calibration_fits in
    (
      omega (int_laws, valid.bias_fits),
      axis_ProductFits _ _ _ mag.0 c.0.0 c.1.0,
      axis_ProductFits _ _ _ mag.1 c.0.1 c.1.1,
      axis_ProductFits _ _ _ mag.2 c.0.2 c.1.2,
    )
