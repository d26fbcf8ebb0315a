-- ===== src/Ahrs/Invariant.antt =====
-- controller/src/ahrs.c and ahrs_calibration.c: what holds of `g_ahrs` between two calls.
pub mod Readings
pub mod Preserved
use segling.Prelude.{ℕ, ◌+◌, ◌≤◌, ◌≡◌, ◌⊎◌, arith}
use segling.Prelude.Int.{ℤ, pos, negsuc, ◌≤ℤ◌, InI16}
use segling.Float.{F32}
use segling.Ahrs.State.{
  Axes, ImuValue, MagnetometerValue, MagnetometerCalibration, Ahrs, mag_meas_max, u16_max,
}
use segling.Ahrs.Calls.{g_ahrs}

-- Each entry is an int16_t.
abbrev pub AxesFit : Axes → Type 0
AxesFit a = InI16 a.x × InI16 a.y × InI16 a.z

abbrev pub ImuFits : ImuValue → Type 0
ImuFits v =
    InI16 v.accel_x
    × InI16 v.accel_y
    × InI16 v.accel_z
    × InI16 v.gyro_x
    × InI16 v.gyro_y
    × InI16 v.gyro_z

abbrev pub SampleFits : MagnetometerValue → Type 0
SampleFits v = InI16 v.magnet_x × InI16 v.magnet_y × InI16 v.magnet_z

-- The range of a corrected reading of the magnetometer, [-4095, 4095].
abbrev pub InMagRange : ℤ → Type 0
InMagRange z = (negsuc 4094 ≤ℤ z) × (z ≤ℤ pos mag_meas_max)

abbrev pub MagInRange : MagnetometerValue → Type 0
MagInRange v = InMagRange v.magnet_x × InMagRange v.magnet_y × InMagRange v.magnet_z

abbrev pub CalibrationFits : MagnetometerCalibration → Type 0
CalibrationFits c = AxesFit c.bias × AxesFit c.scale_num × AxesFit c.scale_den

abbrev pub AxesLe : Axes → Axes → Type 0
AxesLe a b = (a.x ≤ℤ b.x) × (a.y ≤ℤ b.y) × (a.z ≤ℤ b.z)

pub record IsValid {f : F32} (s : Ahrs f) : Type 0 where
  pub imu_fits : ImuFits s.smoothed_imu_value
  pub bias_fits : AxesFit s.imu_bias
  pub mag_in_range : MagInRange s.smoothed_magnetometer_value
  pub calibration_fits : CalibrationFits s.magnetometer_calibration
  pub min_fits : AxesFit s.mag_cal_min
  pub max_fits : AxesFit s.mag_cal_max
  pub extrema_ordered : (s.mag_cal_have_bounds ≡ 0) ⊎ AxesLe s.mag_cal_min s.mag_cal_max
  pub count_fits : s.mag_cal_sample_count ≤ u16_max

pub g_ahrs-IsValid : (f : F32) → IsValid (g_ahrs f)
unfolding g_ahrs
g_ahrs-IsValid f = ground arith
