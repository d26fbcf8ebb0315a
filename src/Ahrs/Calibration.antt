-- ===== src/Ahrs/Calibration.antt =====
-- controller/src/ahrs_calibration.c: the calibration of the magnetometer and of the accelerometer.
-- A function that updates `g_ahrs` takes the state and returns the new one; a pointer argument that
-- may be NULL is an option.
use segling.Prelude.{
  ◌+◌, ◌/◌, Bool, true, false, ◌&&◌, not, Option, none, some, ltb, leb, ◌==◌, if◌then◌else◌,
}
use segling.Prelude.Int.{ℤ, pos, ◌+ℤ◌, ◌-ℤ◌, quot, ltb_ℤ, to_i16, to_i32, to_u32}
use segling.Float.{F32}
use segling.Ahrs.State.{
  CalibrationStatus, SensorState, Axes, zip_axes, all_axes, MagnetometerValue,
  MagnetometerCalibration, Ahrs, min_samples, min_span, max_samples, axis_count, u16_max,
}

-- The first loop of `mag_cal_try_finish`: the span of an axis, raised to 1, and the test that
-- clears `ok`.
unfoldable pub axis_span : ℤ → ℤ → ℤ
axis_span min max = if ltb_ℤ (max -ℤ min) (pos 1) then pos 1 else max -ℤ min

unfoldable pub span_ok : ℤ → ℤ → Bool
span_ok min max = not (ltb_ℤ (max -ℤ min) (pos min_span))

-- The sum over the axes, divided by the unsigned AHRS_AXIS_COUNT and raised to 1.
unfoldable pub average_span : Axes → ℤ
average_span span =
    let sum = pos 0 +ℤ span.x +ℤ span.y +ℤ span.z in
    let avg_span = to_i32 (pos (to_u32 sum / axis_count)) in
    if ltb_ℤ avg_span (pos 1) then pos 1 else avg_span

unfoldable pub axis_mid : ℤ → ℤ → ℤ
axis_mid min max = to_i16 (quot (min +ℤ max) (pos 2))

-- The calibration that the last loop writes.
unfoldable pub finished_calibration : Axes → Axes → MagnetometerCalibration
finished_calibration min max = record {
  bias = zip_axes axis_mid min max;
  scale_num = all_axes (to_i16 (average_span (zip_axes axis_span min max)));
  scale_den = zip_axes (λ n m. to_i16 (axis_span n m)) min max;
}

unfoldable pub spans_ok : Axes → Axes → Bool
spans_ok min max = span_ok min.x max.x && span_ok min.y max.y && span_ok min.z max.z

unfoldable pub mag_cal_try_finish : {f : F32} → Ahrs f → Ahrs f × Bool
mag_cal_try_finish s =
    if spans_ok s.mag_cal_min s.mag_cal_max
    then (
      record s { magnetometer_calibration = finished_calibration s.mag_cal_min s.mag_cal_max },
      true,
    )
    else (s, false)

-- One axis of the update of the extrema by a sample.
unfoldable pub lower : ℤ → ℤ → ℤ
lower a min = if ltb_ℤ a min then a else min

unfoldable pub raise : ℤ → ℤ → ℤ
raise a max = if ltb_ℤ max a then a else max

abbrev pub sample_axes : MagnetometerValue → Axes
sample_axes v = record { x = v.magnet_x; y = v.magnet_y; z = v.magnet_z }

-- The extrema: the first sample sets them, a later one moves them.
unfoldable pub note_extrema : {f : F32} → MagnetometerValue → Ahrs f → Ahrs f
note_extrema v s =
    if s.mag_cal_have_bounds == 0
    then record s {
      mag_cal_min = sample_axes v;
      mag_cal_max = sample_axes v;
      mag_cal_have_bounds = 1;
    }
    else record s {
      mag_cal_min = zip_axes lower (sample_axes v) s.mag_cal_min;
      mag_cal_max = zip_axes raise (sample_axes v) s.mag_cal_max;
    }

-- The count of samples stops at UINT16_MAX.
unfoldable pub count_sample : {f : F32} → Ahrs f → Ahrs f
count_sample s =
    if ltb s.mag_cal_sample_count u16_max
    then record s { mag_cal_sample_count = s.mag_cal_sample_count + 1 }
    else s

unfoldable pub mag_cal_note_sample : {f : F32} → MagnetometerValue → Ahrs f → Ahrs f
mag_cal_note_sample v s = count_sample (note_extrema v s)

unfoldable pub ahrs_reset_compass_calibration : {f : F32} → Ahrs f → Ahrs f
ahrs_reset_compass_calibration s = record s {
  mag_cal_sample_count = 0;
  mag_cal_have_bounds = 0;
  magnetometer_calibration = record {
    bias = all_axes (pos 0);
    scale_num = all_axes (pos 1);
    scale_den = all_axes (pos 1);
  };
}

-- What `ahrs_calibrate_compass` does once a sample is noted. The second test of the `&&` runs only
-- where the first holds.
unfoldable pub check_samples : {f : F32} → Ahrs f → Ahrs f × CalibrationStatus
check_samples s =
    if leb max_samples s.mag_cal_sample_count
    then (s, CalibrationStatus.failed)
    else if leb min_samples s.mag_cal_sample_count
    then (let (s', ok) = mag_cal_try_finish s in
        (s', if ok then CalibrationStatus.completed else CalibrationStatus.in_progress))
    else (s, CalibrationStatus.in_progress)

unfoldable pub is_active : SensorState → Bool
is_active SensorState.active = true
is_active _ = false

unfoldable pub is_calibrating : SensorState → Bool
is_calibrating SensorState.calibrating = true
is_calibrating _ = false

unfoldable pub ahrs_calibrate_compass :
    {f : F32} → Option MagnetometerValue → Ahrs f → Ahrs f × CalibrationStatus
unfolding is_active is_calibrating
ahrs_calibrate_compass none s =
    if is_active s.magnetometer_state
    then (
      record (ahrs_reset_compass_calibration s) { magnetometer_state = SensorState.calibrating },
      CalibrationStatus.in_progress,
    )
    else (s, CalibrationStatus.failed)
ahrs_calibrate_compass (some v) s =
    if not (is_calibrating s.magnetometer_state)
    then (s, CalibrationStatus.failed)
    else check_samples (mag_cal_note_sample v s)

unfoldable pub ahrs_reset_imu_calibration : {f : F32} → Ahrs f → Ahrs f
ahrs_reset_imu_calibration s = record s { imu_bias = all_axes (pos 0) }

-- The conversions of the smoothed acceleration to int32_t keep it.
unfoldable pub ahrs_calibrate_imu : {f : F32} → Ahrs f → Ahrs f × CalibrationStatus
unfolding is_active is_calibrating
ahrs_calibrate_imu s =
    if is_active s.imu_state
    then (record s { imu_state = SensorState.calibrating }, CalibrationStatus.in_progress)
    else if is_calibrating s.imu_state
    then (
      record s {
        imu_bias = record {
          x = s.smoothed_imu_value.accel_x;
          y = s.smoothed_imu_value.accel_y;
          z = s.smoothed_imu_value.accel_z;
        };
      },
      CalibrationStatus.completed,
    )
    else (s, CalibrationStatus.failed)
