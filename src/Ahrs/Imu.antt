-- ===== src/Ahrs/Imu.antt =====
-- controller/src/ahrs.c and ahrs_calibration.c: the accelerometer's calibration.
use segling.Prelude.{ℕ, ◌≤◌, ◌≡◌, ◌∙◌, ap, some, arith}
use segling.Prelude.Int.{ℤ, pos, ◌-ℤ◌, int_laws}
use segling.Float.{F32}
use segling.Math.{clamp_i16, ema_blend_i16_q15, q15_one}
use segling.Math.Clamp.{clamp_i16_of_InI16}
use segling.Math.Ema.{ema_between}
use segling.Ahrs.State.{Result, SensorState, Axes, all_axes, ImuValue, Ahrs}
use segling.Ahrs.Calibration.{ahrs_calibrate_imu}
use segling.Ahrs.{ahrs_alpha_q15, centered_accel, smooth_imu, finish_imu, ahrs_update_imu}
use segling.Ahrs.Invariant.Readings.{alpha_bounds}

abbrev pub accel_axes : ImuValue → Axes
accel_axes v = record { x = v.accel_x; y = v.accel_y; z = v.accel_z }

-- The calibration takes one sample: a calibrating IMU that is given one is active, its bias is the
-- acceleration smoothed with that sample, and the smoothed value itself is kept.
pub imu_calibration_snapshot :
    {f : F32} (s : Ahrs f) (v : ImuValue)
    → s.imu_state ≡ SensorState.calibrating
    → ahrs_update_imu (some v) s ≡ (
      record s {
        imu_state = SensorState.active;
        imu_bias = accel_axes (smooth_imu v s);
        smoothed_imu_value = smooth_imu v s;
      },
      Result.ok,
    )
unfolding ahrs_update_imu finish_imu ahrs_calibrate_imu
imu_calibration_snapshot s v h = rw h

ema_of_zero : (alpha : ℕ) → alpha ≤ q15_one → ema_blend_i16_q15 (pos 0) (pos 0) alpha ≡ pos 0
ema_of_zero alpha h =
    let zero_between =
      ema_between (pos 0) (pos 0) (pos 0) (pos 0) alpha h (omega arith) (omega arith) (omega arith)
        (omega arith) (omega arith) (omega arith) in
    omega int_laws

clamp_i16-zero : (a : ℤ) → clamp_i16 (a -ℤ a) ≡ pos 0
clamp_i16-zero a =
    let e : a -ℤ a ≡ pos 0 = omega int_laws in rw e (clamp_i16_of_InI16 (pos 0) (omega arith))

axis_at_rest :
    (old a bias : ℤ) (alpha : ℕ)
    → alpha ≤ q15_one
    → a ≡ bias
    → old ≡ pos 0
    → ema_blend_i16_q15 old (clamp_i16 (a -ℤ bias)) alpha ≡ pos 0
axis_at_rest old a bias alpha h same zero =
    rw (same, zero, clamp_i16-zero bias) (ema_of_zero alpha h)

smooth_imu-rest :
    {f : F32} (s : Ahrs f) (v : ImuValue)
    → accel_axes v ≡ s.imu_bias
    → accel_axes s.smoothed_imu_value ≡ all_axes (pos 0)
    → accel_axes (smooth_imu v s) ≡ all_axes (pos 0)
unfolding smooth_imu centered_accel
smooth_imu-rest s v rest settled =
    let weight = (alpha_bounds s).1 in
    λ i. record {
      x =
          axis_at_rest s.smoothed_imu_value.accel_x v.accel_x s.imu_bias.x (ahrs_alpha_q15 s) weight
            (ap (λ a. a.x) rest) (ap (λ a. a.x) settled) i;
      y =
          axis_at_rest s.smoothed_imu_value.accel_y v.accel_y s.imu_bias.y (ahrs_alpha_q15 s) weight
            (ap (λ a. a.y) rest) (ap (λ a. a.y) settled) i;
      z =
          axis_at_rest s.smoothed_imu_value.accel_z v.accel_z s.imu_bias.z (ahrs_alpha_q15 s) weight
            (ap (λ a. a.z) rest) (ap (λ a. a.z) settled) i;
    }

-- A second calibration of a sensor at rest forgets the first: where the samples equal the bias and
-- the corrected acceleration has settled at 0, one more calibration replaces the bias by 0.
pub imu_recalibration_forgets_bias :
    {f : F32} (s : Ahrs f) (v : ImuValue)
    → s.imu_state ≡ SensorState.calibrating
    → accel_axes v ≡ s.imu_bias
    → accel_axes s.smoothed_imu_value ≡ all_axes (pos 0)
    → (ahrs_update_imu (some v) s).0.imu_bias ≡ all_axes (pos 0)
imu_recalibration_forgets_bias s v h rest settled =
    ap (λ r. r.0.imu_bias) (imu_calibration_snapshot s v h) ∙ smooth_imu-rest s v rest settled
