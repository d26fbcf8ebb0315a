-- ===== src/Ahrs.antt =====
-- controller/src/ahrs.c: the smoothing of the samples and the state machines of the two sensors.
pub mod State
pub mod Calibration
pub mod Calls
pub mod Invariant
pub mod Overflow
pub mod Compass
pub mod Imu
pub mod Machine
pub mod Published
use segling.Prelude.{ℕ, zero, Bool, true, false, ◌&&◌, ◌||◌, not, Option, none, some, if◌then◌else◌}
use segling.Prelude.Int.{ℤ, pos, negsuc, ◌-ℤ◌, ◌*ℤ◌, quot, ltb_ℤ, to_i16}
use segling.Float.{F32, F64, zero64}
use segling.Math.{clamp_i32, clamp_i16, float_to_q15, ema_blend_i16_q15}
use segling.Math.Angle.{atan2_rad, is_nan_f64, normalize_deg_0_360, rad_to_deg}
use State.{
  Result, CalibrationStatus, SensorState, Axes, zip_axes, ImuValue, MagnetometerValue,
  MagnetometerCalibration, Ahrs, mag_meas_max,
}
use Calibration.{ahrs_calibrate_compass, ahrs_calibrate_imu, is_active, is_calibrating}

-- The test `n == 0` on an integer of C.
unfoldable pub is_zero : ℤ → Bool
is_zero (pos zero) = true
is_zero _ = false

-- The int32_t product that the scaling divides.
unfoldable pub scaled_product : ℤ → ℤ → ℤ
scaled_product centered num = centered *ℤ num

unfoldable pub mag_apply_axis_scale : ℤ → ℤ → ℤ → ℤ
mag_apply_axis_scale centered num den =
    let scaled = if is_zero den then centered else quot (scaled_product centered num) den in
    to_i16 (clamp_i32 scaled (negsuc 4094) (pos mag_meas_max))

-- vx, vy and vz: the reading less the bias.
unfoldable pub centered_mag : MagnetometerCalibration → MagnetometerValue → Axes
centered_mag c raw = record {
  x = raw.magnet_x -ℤ c.bias.x;
  y = raw.magnet_y -ℤ c.bias.y;
  z = raw.magnet_z -ℤ c.bias.z;
}

unfoldable pub ahrs_mag_corrected : MagnetometerCalibration → MagnetometerValue → MagnetometerValue
ahrs_mag_corrected c raw =
    let v = centered_mag c raw in
    record {
      magnet_x = mag_apply_axis_scale v.x c.scale_num.x c.scale_den.x;
      magnet_y = mag_apply_axis_scale v.y c.scale_num.y c.scale_den.y;
      magnet_z = mag_apply_axis_scale v.z c.scale_num.z c.scale_den.z;
    }

unfoldable pub is_initializing : SensorState → Bool
is_initializing SensorState.initializing = true
is_initializing _ = false

-- The states in which an update is refused.
unfoldable pub is_out : SensorState → Bool
is_out SensorState.failed = true
is_out SensorState.disabled = true
is_out _ = false

-- What a sensor's state becomes when the calibration reports a status.
unfoldable pub after_calibration : CalibrationStatus → SensorState → SensorState
after_calibration CalibrationStatus.completed state = SensorState.active
after_calibration CalibrationStatus.failed state = SensorState.failed
after_calibration CalibrationStatus.in_progress state = state

abbrev pub no_imu_value : ImuValue
no_imu_value = record {
  accel_x = pos 0;
  accel_y = pos 0;
  accel_z = pos 0;
  gyro_x = pos 0;
  gyro_y = pos 0;
  gyro_z = pos 0;
}

abbrev pub no_magnetometer_value : MagnetometerValue
no_magnetometer_value = record { magnet_x = pos 0; magnet_y = pos 0; magnet_z = pos 0 }

module _ {f : F32} where
  unfoldable pub ahrs_alpha_q15 : Ahrs f → ℕ
  ahrs_alpha_q15 s = float_to_q15 f s.ema_alpha

  -- The test of the configuration: alpha <= 0 or alpha >= 1.
  unfoldable pub alpha_invalid : Ahrs f → Bool
  alpha_invalid s = f.le s.ema_alpha (f.of_decimal 0 0) || f.le (f.of_decimal 1 0) s.ema_alpha

  unfoldable pub ahrs_init : Ahrs f → Ahrs f × Result
  ahrs_init s = if alpha_invalid s then (s, Result.error_invalid_config) else (
    record s {
      imu_state = SensorState.initializing;
      magnetometer_state = SensorState.initializing;
      smoothed_imu_value = no_imu_value;
      smoothed_magnetometer_value = no_magnetometer_value;
      mag_cal_sample_count = 0;
      mag_cal_have_bounds = 0;
    },
    Result.ok,
  )

  -- cx, cy and cz: the acceleration less its bias.
  unfoldable pub centered_accel : ImuValue → Ahrs f → Axes
  centered_accel v s = record {
    x = v.accel_x -ℤ s.imu_bias.x;
    y = v.accel_y -ℤ s.imu_bias.y;
    z = v.accel_z -ℤ s.imu_bias.z;
  }

  -- The smoothing of a sample: the acceleration less its bias, the rotation as it comes.
  unfoldable pub smooth_imu : ImuValue → Ahrs f → ImuValue
  smooth_imu v s =
      let aq = ahrs_alpha_q15 s in
      let old = s.smoothed_imu_value in
      let c = centered_accel v s in
      record {
        accel_x = ema_blend_i16_q15 old.accel_x (clamp_i16 c.x) aq;
        accel_y = ema_blend_i16_q15 old.accel_y (clamp_i16 c.y) aq;
        accel_z = ema_blend_i16_q15 old.accel_z (clamp_i16 c.z) aq;
        gyro_x = ema_blend_i16_q15 old.gyro_x v.gyro_x aq;
        gyro_y = ema_blend_i16_q15 old.gyro_y v.gyro_y aq;
        gyro_z = ema_blend_i16_q15 old.gyro_z v.gyro_z aq;
      }

  -- The step that ends the last branch of `ahrs_update_imu`.
  unfoldable pub finish_imu : Ahrs f → Ahrs f
  unfolding is_calibrating after_calibration
  finish_imu s =
      if is_calibrating s.imu_state
      then (let (s', status) = ahrs_calibrate_imu s in
          record s' { imu_state = after_calibration status s'.imu_state })
      else s

  unfoldable pub ahrs_update_imu : Option ImuValue → Ahrs f → Ahrs f × Result
  unfolding is_out is_initializing
  ahrs_update_imu none s = (s, Result.error_update_failed)
  ahrs_update_imu (some v) s =
      if is_out s.imu_state
      then (s, Result.error_update_failed)
      else if is_initializing s.imu_state
      then (record s { smoothed_imu_value = v; imu_state = SensorState.active }, Result.ok)
      else (finish_imu (record s { smoothed_imu_value = smooth_imu v s }), Result.ok)

  unfoldable pub smooth_magnetometer : MagnetometerValue → Ahrs f → MagnetometerValue
  smooth_magnetometer v s =
      let aq = ahrs_alpha_q15 s in
      let corr = ahrs_mag_corrected s.magnetometer_calibration v in
      let old = s.smoothed_magnetometer_value in
      record {
        magnet_x = ema_blend_i16_q15 old.magnet_x corr.magnet_x aq;
        magnet_y = ema_blend_i16_q15 old.magnet_y corr.magnet_y aq;
        magnet_z = ema_blend_i16_q15 old.magnet_z corr.magnet_z aq;
      }

  -- The branch of a calibrating magnetometer.
  unfoldable pub calibrate_with : MagnetometerValue → Ahrs f → Ahrs f
  unfolding after_calibration
  calibrate_with v s =
      let (s', status) = ahrs_calibrate_compass (some v) s in
      record s' { magnetometer_state = after_calibration status s'.magnetometer_state }

  unfoldable pub ahrs_update_magnetometer : Option MagnetometerValue → Ahrs f → Ahrs f × Result
  unfolding is_out is_calibrating is_initializing
  ahrs_update_magnetometer none s = (s, Result.error_update_failed)
  ahrs_update_magnetometer (some v) s =
      if is_out s.magnetometer_state
      then (s, Result.error_update_failed)
      else if is_calibrating s.magnetometer_state
      then (calibrate_with v s, Result.ok)
      else if is_initializing s.magnetometer_state
      then (
        record s {
          smoothed_magnetometer_value = ahrs_mag_corrected s.magnetometer_calibration v;
          magnetometer_state = SensorState.active;
        },
        Result.ok,
      )
      else (record s { smoothed_magnetometer_value = smooth_magnetometer v s }, Result.ok)

-- `ahrs_public_t`
pub record Public (d : F64) : Type 0 where
  pub imu_state : SensorState
  pub magnetometer_state : SensorState
  pub heading : d.D
  pub pitch : d.D
  pub roll : d.D
  pub yaw : d.D
  pub rotation_rate_x : d.D
  pub rotation_rate_y : d.D
  pub rotation_rate_z : d.D

module _ (d : F64) where
  -- An angle in degrees from two readings, unless both are 0 or the angle is a NaN: then 0.0.
  unfoldable pub angle_of : (d.D → d.D) → ℤ → ℤ → d.D
  angle_of to_deg y x =
      let rad = atan2_rad d (d.of_int y) (d.of_int x) in
      if is_zero y && is_zero x then zero64 d else if is_nan_f64 d rad then zero64 d else to_deg rad

  unfoldable pub ahrs_get_data : {f : F32} → Ahrs f → Public d
  ahrs_get_data s =
      let m = s.smoothed_magnetometer_value in
      let a = s.smoothed_imu_value in
      let heading_deg =
        if is_active s.magnetometer_state
        then angle_of (λ r. normalize_deg_0_360 d (rad_to_deg d r)) m.magnet_y m.magnet_x
        else zero64 d in
      record {
        imu_state = s.imu_state;
        magnetometer_state = s.magnetometer_state;
        heading = heading_deg;
        pitch =
            if is_active s.imu_state then angle_of (rad_to_deg d) a.accel_y a.accel_z else zero64 d;
        roll =
            if is_active s.imu_state then angle_of (rad_to_deg d) a.accel_x a.accel_z else zero64 d;
        yaw = heading_deg;
        rotation_rate_x = zero64 d;
        rotation_rate_y = zero64 d;
        rotation_rate_z = zero64 d;
      }
