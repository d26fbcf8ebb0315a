-- ===== src/Ahrs/State.antt =====
-- controller/include/integrations/ahrs.h: the types of the AHRS module and its state `g_ahrs`.
use segling.Prelude.{ℕ}
use segling.Prelude.Int.{ℤ}
use segling.Float.{F32}

-- `ahrs_result_t`
pub data Result : Type 0 where
  ok error_unknown error_invalid_config error_calibration_failed error_update_failed : Result

-- `ahrs_calibration_status_t`
pub data CalibrationStatus : Type 0 where
  in_progress completed failed : CalibrationStatus

-- `ahrs_state_t`
pub data SensorState : Type 0 where
  initializing calibrating active disabled failed : SensorState

-- An array of AHRS_AXIS_COUNT integers, at the indices 0, 1 and 2.
pub record Axes : Type 0 where
  pub x : ℤ
  pub y : ℤ
  pub z : ℤ

-- A loop over the axes that computes each entry from the entries of two arrays.
abbrev pub zip_axes : (ℤ → ℤ → ℤ) → Axes → Axes → Axes
zip_axes f a b = record { x = f a.x b.x; y = f a.y b.y; z = f a.z b.z }

abbrev pub all_axes : ℤ → Axes
all_axes n = record { x = n; y = n; z = n }

-- `imu_value_t`
pub record ImuValue : Type 0 where
  pub accel_x : ℤ
  pub accel_y : ℤ
  pub accel_z : ℤ
  pub gyro_x : ℤ
  pub gyro_y : ℤ
  pub gyro_z : ℤ

-- `magnetometer_value_t`
pub record MagnetometerValue : Type 0 where
  pub magnet_x : ℤ
  pub magnet_y : ℤ
  pub magnet_z : ℤ

-- `magnetometer_calibration_t`
pub record MagnetometerCalibration : Type 0 where
  pub bias : Axes
  pub scale_num : Axes
  pub scale_den : Axes

-- `ahrs_t`. `imu_bias` is `imu_calibration.bias`, and `ema_alpha` is `config.ema_alpha`.
pub record Ahrs (f : F32) : Type 0 where
  pub ema_alpha : f.F
  pub imu_state : SensorState
  pub imu_bias : Axes
  pub smoothed_imu_value : ImuValue
  pub magnetometer_state : SensorState
  pub magnetometer_calibration : MagnetometerCalibration
  pub smoothed_magnetometer_value : MagnetometerValue
  pub temperature : f.F
  pub mag_cal_min : Axes
  pub mag_cal_max : Axes
  pub mag_cal_sample_count : ℕ
  pub mag_cal_have_bounds : ℕ

-- MAG_MEAS_MAX_DEC
abbrev pub mag_meas_max : ℕ
mag_meas_max = 4095

-- AHRS_MAG_CAL_MIN_SAMPLES, AHRS_MAG_CAL_MIN_SPAN, AHRS_MAG_CAL_MAX_SAMPLES, AHRS_AXIS_COUNT
abbrev pub min_samples : ℕ
min_samples = 150

abbrev pub min_span : ℕ
min_span = 64

abbrev pub max_samples : ℕ
max_samples = 16000

abbrev pub axis_count : ℕ
axis_count = 3

-- UINT16_MAX
abbrev pub u16_max : ℕ
u16_max = 65535
