-- ===== src/Ahrs/Calls.antt =====
-- controller/src/ahrs.c: the initial `g_ahrs`, and sequences of calls of the module's functions.
use segling.Prelude.{List, [], ◌∷◌, Option}
use segling.Prelude.Int.{pos}
use segling.Float.{F32}
use segling.Ahrs.State.{SensorState, all_axes, ImuValue, MagnetometerValue, Ahrs}
use segling.Ahrs.Calibration.{
  ahrs_calibrate_compass, ahrs_calibrate_imu, ahrs_reset_compass_calibration,
  ahrs_reset_imu_calibration,
}
use segling.Ahrs.{
  no_imu_value, no_magnetometer_value, ahrs_init, ahrs_update_imu, ahrs_update_magnetometer,
}

-- The static initialiser: ema_alpha is 0.1f, and C sets all else to 0.
unfoldable pub g_ahrs : (f : F32) → Ahrs f
g_ahrs f = record {
  ema_alpha = f.of_decimal 1 1;
  imu_state = SensorState.initializing;
  imu_bias = all_axes (pos 0);
  smoothed_imu_value = no_imu_value;
  magnetometer_state = SensorState.initializing;
  magnetometer_calibration = record {
    bias = all_axes (pos 0);
    scale_num = all_axes (pos 0);
    scale_den = all_axes (pos 0);
  };
  smoothed_magnetometer_value = no_magnetometer_value;
  temperature = f.of_decimal 0 0;
  mag_cal_min = all_axes (pos 0);
  mag_cal_max = all_axes (pos 0);
  mag_cal_sample_count = 0;
  mag_cal_have_bounds = 0;
}

-- The functions of ahrs.h that change `g_ahrs`.
pub data Call : Type 0 where
  init : Call
  update_imu : Option ImuValue → Call
  update_magnetometer : Option MagnetometerValue → Call
  calibrate_compass : Option MagnetometerValue → Call
  calibrate_imu : Call
  reset_compass_calibration : Call
  reset_imu_calibration : Call

unfoldable pub apply : {f : F32} → Call → Ahrs f → Ahrs f
apply Call.init s = (ahrs_init s).0
apply (Call.update_imu v) s = (ahrs_update_imu v s).0
apply (Call.update_magnetometer v) s = (ahrs_update_magnetometer v s).0
apply (Call.calibrate_compass v) s = (ahrs_calibrate_compass v s).0
apply Call.calibrate_imu s = (ahrs_calibrate_imu s).0
apply Call.reset_compass_calibration s = ahrs_reset_compass_calibration s
apply Call.reset_imu_calibration s = ahrs_reset_imu_calibration s

unfoldable pub run : {f : F32} → List Call → Ahrs f → Ahrs f
run [] s = s
run (c ∷ cs) s = run cs (apply c s)
