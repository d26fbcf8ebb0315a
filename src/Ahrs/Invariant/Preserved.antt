-- ===== src/Ahrs/Invariant/Preserved.antt =====
-- controller/src/ahrs.c and ahrs_calibration.c: the functions and the invariant.
use segling.Prelude.{List, [], ◌∷◌, Option, none, some, arith}
use segling.Prelude.Int.{ℤ, ◌≤ℤ◌, InI16, to_i16-InI16}
use segling.Float.{F32}
use segling.Ahrs.State.{SensorState, Axes, ImuValue, MagnetometerValue, Ahrs}
use segling.Ahrs.Calibration.{
  axis_mid, finished_calibration, lower, raise, mag_cal_try_finish, note_extrema, count_sample,
  mag_cal_note_sample, check_samples, ahrs_calibrate_compass, ahrs_calibrate_imu,
  ahrs_reset_compass_calibration, ahrs_reset_imu_calibration,
}
use segling.Ahrs.{
  after_calibration, smooth_imu, finish_imu, calibrate_with, ahrs_init, ahrs_update_imu,
  ahrs_update_magnetometer,
}
use segling.Ahrs.Calls.{g_ahrs, Call, apply, run}
use segling.Ahrs.Invariant.{ImuFits, SampleFits, CalibrationFits, IsValid, g_ahrs-IsValid}
use segling.Ahrs.Invariant.Readings.{
  mag_corrected-MagInRange, smooth_imu-ImuFits, smooth_magnetometer-MagInRange,
}

-- A sample that a call may be given: none, or one of int16_t readings.
abbrev pub ImuArgument : Option ImuValue → Type 0
ImuArgument none = Unit
ImuArgument (some v) = ImuFits v

abbrev pub MagArgument : Option MagnetometerValue → Type 0
MagArgument none = Unit
MagArgument (some v) = SampleFits v

abbrev pub CallFits : Call → Type 0
CallFits (Call.update_imu v) = ImuArgument v
CallFits (Call.update_magnetometer v) = MagArgument v
CallFits (Call.calibrate_compass v) = MagArgument v
CallFits _ = Unit

abbrev pub CallsFit : List Call → Type 0
CallsFit [] = Unit
CallsFit (c ∷ cs) = CallFits c × CallsFit cs

finished_calibration-Fits : (min max : Axes) → CalibrationFits (finished_calibration min max)
unfolding finished_calibration axis_mid
finished_calibration-Fits min max = (
  (to_i16-InI16 _, to_i16-InI16 _, to_i16-InI16 _),
  (to_i16-InI16 _, to_i16-InI16 _, to_i16-InI16 _),
  (to_i16-InI16 _, to_i16-InI16 _, to_i16-InI16 _),
)

lower_bounds :
    (a min : ℤ)
    → InI16 a
    → InI16 min
    → InI16 (lower a min) × (lower a min ≤ℤ a) × (lower a min ≤ℤ min)
unfolding lower
lower_bounds a min ha hm = ground arith

raise_bounds :
    (a max : ℤ)
    → InI16 a
    → InI16 max
    → InI16 (raise a max) × (a ≤ℤ raise a max) × (max ≤ℤ raise a max)
unfolding raise
raise_bounds a max ha hm = ground arith

module _ {f : F32} (s : Ahrs f) (valid : IsValid s) where
  try_finish-IsValid : IsValid (mag_cal_try_finish s).0
  unfolding mag_cal_try_finish
  try_finish-IsValid = ground (arith, finished_calibration-Fits s.mag_cal_min s.mag_cal_max)

  note_extrema-IsValid : (v : MagnetometerValue) → SampleFits v → IsValid (note_extrema v s)
  unfolding note_extrema
  note_extrema-IsValid v fits = ground (
    arith,
    lower_bounds v.magnet_x s.mag_cal_min.x fits.0 valid.min_fits.0,
    lower_bounds v.magnet_y s.mag_cal_min.y fits.1 valid.min_fits.1,
    lower_bounds v.magnet_z s.mag_cal_min.z fits.2 valid.min_fits.2,
    raise_bounds v.magnet_x s.mag_cal_max.x fits.0 valid.max_fits.0,
    raise_bounds v.magnet_y s.mag_cal_max.y fits.1 valid.max_fits.1,
    raise_bounds v.magnet_z s.mag_cal_max.z fits.2 valid.max_fits.2,
  )

  count_sample-IsValid : IsValid (count_sample s)
  unfolding count_sample
  count_sample-IsValid = ground arith

  reset_compass-IsValid : IsValid (ahrs_reset_compass_calibration s)
  unfolding ahrs_reset_compass_calibration
  reset_compass-IsValid = ground arith

  check_samples-IsValid : IsValid (check_samples s).0
  unfolding check_samples
  check_samples-IsValid = ground (arith, try_finish-IsValid)

  -- Only the states of the sensors differ: the invariant says nothing of those.
  with_magnetometer_state-IsValid :
      (state : SensorState) → IsValid (record s { magnetometer_state = state })
  with_magnetometer_state-IsValid state = ground arith

  with_imu_state-IsValid : (state : SensorState) → IsValid (record s { imu_state = state })
  with_imu_state-IsValid state = ground arith

note_sample-IsValid :
    {f : F32} (s : Ahrs f) (v : MagnetometerValue)
    → IsValid s
    → SampleFits v
    → IsValid (mag_cal_note_sample v s)
unfolding mag_cal_note_sample
note_sample-IsValid s v valid fits =
    count_sample-IsValid (note_extrema v s) (note_extrema-IsValid s valid v fits)

calibrate_compass-IsValid :
    {f : F32} (s : Ahrs f) (v : Option MagnetometerValue)
    → IsValid s
    → MagArgument v
    → IsValid (ahrs_calibrate_compass v s).0
unfolding ahrs_calibrate_compass
calibrate_compass-IsValid s none valid fits = ground (
  arith,
  with_magnetometer_state-IsValid (ahrs_reset_compass_calibration s) (reset_compass-IsValid s valid)
      SensorState.calibrating,
)
calibrate_compass-IsValid s (some v) valid fits =
    ground
      (arith, check_samples-IsValid (mag_cal_note_sample v s) (note_sample-IsValid s v valid fits))

calibrate_imu-IsValid : {f : F32} (s : Ahrs f) → IsValid s → IsValid (ahrs_calibrate_imu s).0
unfolding ahrs_calibrate_imu
calibrate_imu-IsValid s valid = ground arith

init-IsValid : {f : F32} (s : Ahrs f) → IsValid s → IsValid (ahrs_init s).0
unfolding ahrs_init
init-IsValid s valid = ground arith

finish_imu-IsValid : {f : F32} (s : Ahrs f) → IsValid s → IsValid (finish_imu s)
unfolding finish_imu
finish_imu-IsValid s valid =
    let (s', status) = ahrs_calibrate_imu s in
    ground (
      arith,
      with_imu_state-IsValid s' (calibrate_imu-IsValid s valid)
          (after_calibration status s'.imu_state),
    )

update_imu-IsValid :
    {f : F32} (s : Ahrs f) (v : Option ImuValue)
    → IsValid s
    → ImuArgument v
    → IsValid (ahrs_update_imu v s).0
unfolding ahrs_update_imu
update_imu-IsValid s none valid fits = valid
update_imu-IsValid s (some v) valid fits =
    let smoothed = record s { smoothed_imu_value = smooth_imu v s } in
    ground (
      arith,
      finish_imu-IsValid smoothed (record {
        imu_fits = smooth_imu-ImuFits s v;
        bias_fits = valid.bias_fits;
        mag_in_range = valid.mag_in_range;
        calibration_fits = valid.calibration_fits;
        min_fits = valid.min_fits;
        max_fits = valid.max_fits;
        extrema_ordered = valid.extrema_ordered;
        count_fits = valid.count_fits;
      }),
    )

update_magnetometer-IsValid :
    {f : F32} (s : Ahrs f) (v : Option MagnetometerValue)
    → IsValid s
    → MagArgument v
    → IsValid (ahrs_update_magnetometer v s).0
unfolding ahrs_update_magnetometer calibrate_with
update_magnetometer-IsValid s none valid fits = valid
update_magnetometer-IsValid s (some v) valid fits =
    let (s', status) = ahrs_calibrate_compass (some v) s in
    ground (
      arith,
      with_magnetometer_state-IsValid s' (calibrate_compass-IsValid s (some v) valid fits)
          (after_calibration status s'.magnetometer_state),
      mag_corrected-MagInRange s.magnetometer_calibration v,
      smooth_magnetometer-MagInRange s v valid.mag_in_range,
    )

-- Every function of the module keeps the invariant.
pub apply-IsValid : {f : F32} (c : Call) (s : Ahrs f) → IsValid s → CallFits c → IsValid (apply c s)
unfolding apply
apply-IsValid Call.init s valid fits = init-IsValid s valid
apply-IsValid (Call.update_imu v) s valid fits = update_imu-IsValid s v valid fits
apply-IsValid (Call.update_magnetometer v) s valid fits = update_magnetometer-IsValid s v valid fits
apply-IsValid (Call.calibrate_compass v) s valid fits = calibrate_compass-IsValid s v valid fits
apply-IsValid Call.calibrate_imu s valid fits = calibrate_imu-IsValid s valid
apply-IsValid Call.reset_compass_calibration s valid fits = reset_compass-IsValid s valid
apply-IsValid Call.reset_imu_calibration s valid fits =
    unfold ahrs_reset_imu_calibration in ground arith

run-IsValid_from :
    {f : F32} (cs : List Call) (s : Ahrs f) → IsValid s → CallsFit cs → IsValid (run cs s)
unfolding run
run-IsValid_from [] s valid fits = valid
run-IsValid_from (c ∷ cs) s valid fits =
    run-IsValid_from cs (apply c s) (apply-IsValid c s valid fits.0) fits.1

-- From the initial state, after any calls with int16_t samples: the smoothed and calibrated values
-- and the extrema are int16_t, the smoothed magnetic field lies in [-4095, 4095], the count of
-- samples is a uint16_t, and once a sample is noted no minimum is above its maximum.
pub run-IsValid : {f : F32} (cs : List Call) → CallsFit cs → IsValid (run cs (g_ahrs f))
run-IsValid {f} cs fits = run-IsValid_from cs (g_ahrs f) (g_ahrs-IsValid f) fits
