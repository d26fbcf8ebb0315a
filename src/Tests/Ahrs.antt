-- ===== src/Tests/Ahrs.antt =====
-- controller/src/ahrs.c at concrete inputs.
use segling.Prelude.{◌≡◌, ◌↔◌, ◌⊎◌, refl, List, [], ◌∷◌, none, some, arith}
use segling.Prelude.Int.{ℤ, pos, negsuc}
use segling.Float.{Ordered}
use segling.Ahrs.State.{Result, SensorState, all_axes, ImuValue, MagnetometerValue, Ahrs}
use segling.Ahrs.{
  no_imu_value, centered_accel, centered_mag, ahrs_update_magnetometer, ahrs_update_imu,
  ahrs_get_data,
}
use segling.Ahrs.Calls.{g_ahrs, Call, apply, run}
use segling.Ahrs.Invariant.{IsValid}
use segling.Ahrs.Invariant.Preserved.{run-IsValid}
use segling.Ahrs.Overflow.{AxesFit32, ProductFits, samples_overflow_free}
use segling.Ahrs.Imu.{accel_axes, imu_recalibration_forgets_bias}
use segling.Ahrs.Machine.{IsIn, IsOut, Step}
use segling.Ahrs.Machine.Steps.{magnetometer_step_iff}
use segling.Ahrs.Machine.Sensors.{imu_never_fails}
use segling.Ahrs.Published.{published_not_nan}
use segling.Tests.Floats.{millionths}
use segling.Tests.Doubles.{thousandths, thousandths_ieee}

abbrev pub field : ℤ → MagnetometerValue
field n = record { magnet_x = n; magnet_y = n; magnet_z = n }

abbrev motion : ImuValue
motion = record {
  accel_x = pos 120;
  accel_y = negsuc 39;
  accel_z = pos 16384;
  gyro_x = pos 7;
  gyro_y = negsuc 2;
  gyro_z = pos 0;
}

-- The calls of a run: it starts both sensors and calibrates them.
abbrev session : List Call
session =
    Call.init
    ∷ Call.update_imu (some motion)
    ∷ Call.update_magnetometer (some (field (pos 300)))
    ∷ Call.calibrate_imu
    ∷ Call.update_imu (some motion)
    ∷ Call.calibrate_compass none
    ∷ Call.update_magnetometer (some (field (negsuc 199)))
    ∷ Call.update_magnetometer none
    ∷ []

abbrev pub start : Ahrs millionths
start = record {
  ema_alpha = 100000;
  imu_state = SensorState.initializing;
  imu_bias = all_axes (pos 0);
  smoothed_imu_value = no_imu_value;
  magnetometer_state = SensorState.active;
  magnetometer_calibration = record {
    bias = all_axes (pos 0);
    scale_num = all_axes (pos 1);
    scale_den = all_axes (pos 1);
  };
  smoothed_magnetometer_value = field (pos 0);
  temperature = 0;
  mag_cal_min = all_axes (pos 0);
  mag_cal_max = all_axes (pos 0);
  mag_cal_sample_count = 0;
  mag_cal_have_bounds = 0;
}

run-IsValid_example : IsValid (run session (g_ahrs millionths))
run-IsValid_example = run-IsValid session (ground arith)

samples_overflow_free_example :
    AxesFit32 (centered_accel motion (run session (g_ahrs millionths)))
    × ProductFits
        (centered_mag
          (run session (g_ahrs millionths)).magnetometer_calibration
          (field (pos 300))).x
        (run session (g_ahrs millionths)).magnetometer_calibration.scale_num.x
    × ProductFits
        (centered_mag
          (run session (g_ahrs millionths)).magnetometer_calibration
          (field (pos 300))).y
        (run session (g_ahrs millionths)).magnetometer_calibration.scale_num.y
    × ProductFits
        (centered_mag
          (run session (g_ahrs millionths)).magnetometer_calibration
          (field (pos 300))).z
        (run session (g_ahrs millionths)).magnetometer_calibration.scale_num.z
samples_overflow_free_example =
    samples_overflow_free millionths session motion (field (pos 300)) (ground arith) (ground arith)
      (ground arith)

-- A magnetometer that has seen 149 samples, on a wide range.
abbrev almost_done : Ahrs millionths
almost_done = record start {
  magnetometer_state = SensorState.calibrating;
  mag_cal_sample_count = 149;
  mag_cal_have_bounds = 1;
  mag_cal_min = all_axes (negsuc 299);
  mag_cal_max = all_axes (pos 300);
}

abbrev one_more : Call
one_more = Call.update_magnetometer (some (field (pos 10)))

magnetometer_step_iff_example :
    (Step almost_done SensorState.calibrating one_more SensorState.active
      ↔ ((apply one_more almost_done).magnetometer_state ≡ SensorState.active))
    × ((IsIn SensorState.calibrating
          × ((ahrs_update_magnetometer (some (field (pos 10))) almost_done).1 ≡ Result.ok))
        ⊎ (IsOut SensorState.calibrating
            × (ahrs_update_magnetometer (some (field (pos 10))) almost_done
                ≡ (almost_done, Result.error_update_failed))))
magnetometer_step_iff_example =
    magnetometer_step_iff one_more (field (pos 10)) almost_done SensorState.active

imu_never_fails_example :
    (ahrs_update_imu (some motion) (run session (g_ahrs millionths))).1 ≡ Result.ok
imu_never_fails_example = imu_never_fails millionths session motion

-- A board at rest in the middle of its second calibration.
abbrev calibrating_imu : Ahrs millionths
calibrating_imu = record start { imu_state = SensorState.calibrating; imu_bias = accel_axes motion }

imu_recalibration_forgets_bias_example :
    (ahrs_update_imu (some motion) calibrating_imu).0.imu_bias ≡ all_axes (pos 0)
imu_recalibration_forgets_bias_example =
    imu_recalibration_forgets_bias calibrating_imu motion refl refl refl

abbrev steady : Ahrs millionths
steady = record start { imu_state = SensorState.active; smoothed_imu_value = motion }

published_not_nan_example :
    Ordered thousandths (ahrs_get_data thousandths steady).heading
    × Ordered thousandths (ahrs_get_data thousandths steady).pitch
    × Ordered thousandths (ahrs_get_data thousandths steady).roll
    × Ordered thousandths (ahrs_get_data thousandths steady).yaw
    × Ordered thousandths (ahrs_get_data thousandths steady).rotation_rate_x
    × Ordered thousandths (ahrs_get_data thousandths steady).rotation_rate_y
    × Ordered thousandths (ahrs_get_data thousandths steady).rotation_rate_z
published_not_nan_example = published_not_nan thousandths thousandths_ieee steady
