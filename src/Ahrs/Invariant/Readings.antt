-- ===== src/Ahrs/Invariant/Readings.antt =====
-- controller/src/ahrs.c: the ranges of the corrected and smoothed readings.
use segling.Prelude.{ℕ, ◌≤◌, arith}
use segling.Prelude.Int.{ℤ, pos, negsuc, to_i16, to_i16_of_InI16, int_laws}
use segling.Float.{F32}
use segling.Math.{clamp_i32, ema_blend_i16_q15, q15_one}
use segling.Math.Clamp.{clamp_i32_lem, float_to_q15_bounds}
use segling.Math.Ema.{ema-InI16, ema_between}
use segling.Ahrs.State.{ImuValue, MagnetometerValue, MagnetometerCalibration, Ahrs, mag_meas_max}
use segling.Ahrs.{
  mag_apply_axis_scale, ahrs_mag_corrected, smooth_imu, smooth_magnetometer, ahrs_alpha_q15,
}
use segling.Ahrs.Invariant.{ImuFits, InMagRange, MagInRange}

clamp-InMagRange :
    (scaled : ℤ) → InMagRange (to_i16 (clamp_i32 scaled (negsuc 4094) (pos mag_meas_max)))
clamp-InMagRange scaled =
    let range = clamp_i32_lem scaled (negsuc 4094) (pos mag_meas_max) (omega arith) in
    rw (to_i16_of_InI16 (clamp_i32 scaled (negsuc 4094) (pos mag_meas_max)) (omega int_laws))
      (range.0, range.1)

-- A corrected reading lies within the range, whatever the sample and the calibration are.
pub mag_apply_axis_scale-InMagRange :
    (centered num den : ℤ) → InMagRange (mag_apply_axis_scale centered num den)
unfolding mag_apply_axis_scale
mag_apply_axis_scale-InMagRange centered num den = clamp-InMagRange _

pub mag_corrected-MagInRange :
    (c : MagnetometerCalibration) (raw : MagnetometerValue) → MagInRange (ahrs_mag_corrected c raw)
unfolding ahrs_mag_corrected
mag_corrected-MagInRange c raw = (
  mag_apply_axis_scale-InMagRange _ _ _,
  mag_apply_axis_scale-InMagRange _ _ _,
  mag_apply_axis_scale-InMagRange _ _ _,
)

-- The weight is a proper one: at least 1 and below 2^15.
pub alpha_bounds : {f : F32} (s : Ahrs f) → (1 ≤ ahrs_alpha_q15 s) × (ahrs_alpha_q15 s ≤ q15_one)
unfolding ahrs_alpha_q15
alpha_bounds {f} s = omega (arith, float_to_q15_bounds f s.ema_alpha)

-- The average of two readings in range is in range.
ema-InMagRange :
    (a b : ℤ) (alpha : ℕ)
    → alpha ≤ q15_one
    → InMagRange a
    → InMagRange b
    → InMagRange (ema_blend_i16_q15 a b alpha)
ema-InMagRange a b alpha h ha hb =
    ema_between a b (negsuc 4094) (pos mag_meas_max) alpha h (omega int_laws) (omega int_laws) ha.0
      hb.0 ha.1 hb.1

module _ {f : F32} (s : Ahrs f) where
  pub smooth_imu-ImuFits : (v : ImuValue) → ImuFits (smooth_imu v s)
  unfolding smooth_imu
  smooth_imu-ImuFits v = (
    ema-InI16 _ _ _,
    ema-InI16 _ _ _,
    ema-InI16 _ _ _,
    ema-InI16 _ _ _,
    ema-InI16 _ _ _,
    ema-InI16 _ _ _,
  )

  pub smooth_magnetometer-MagInRange :
      (v : MagnetometerValue)
      → MagInRange s.smoothed_magnetometer_value
      → MagInRange (smooth_magnetometer v s)
  unfolding smooth_magnetometer
  smooth_magnetometer-MagInRange v h =
      let corr = mag_corrected-MagInRange s.magnetometer_calibration v in
      let weight = (alpha_bounds s).1 in
      (
        ema-InMagRange _ _ _ weight h.0 corr.0,
        ema-InMagRange _ _ _ weight h.1 corr.1,
        ema-InMagRange _ _ _ weight h.2 corr.2,
      )
