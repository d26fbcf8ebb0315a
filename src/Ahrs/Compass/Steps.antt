-- ===== src/Ahrs/Compass/Steps.antt =====
-- controller/src/ahrs.c and ahrs_calibration.c: one sample of a magnetometer that calibrates.
use segling.Prelude.{◌+◌, ◌≤◌, ◌<◌, ◌≡◌, ◌⊎◌, true, false, some, arith}
use segling.Float.{F32}
use segling.Ahrs.State.{
  Result, SensorState, MagnetometerValue, Ahrs, min_samples, max_samples, u16_max,
}
use segling.Ahrs.Calibration.{
  finished_calibration, spans_ok, mag_cal_try_finish, note_extrema, count_sample,
  mag_cal_note_sample, check_samples, ahrs_calibrate_compass,
}
use segling.Ahrs.{calibrate_with, ahrs_update_magnetometer}

-- What one sample of a calibrating magnetometer can come to, from the state `t` with the sample
-- noted: from AHRS_MAG_CAL_MAX_SAMPLES on the sensor fails; from AHRS_MAG_CAL_MIN_SAMPLES on, once
-- every span is wide enough, the calibration is written and the sensor is active; else the sensor
-- goes on calibrating.
abbrev pub Outcome : {f : F32} → Ahrs f → Ahrs f → Type 0
Outcome t u =
    let n = t.mag_cal_sample_count in
    let ok = spans_ok t.mag_cal_min t.mag_cal_max in
    ((max_samples ≤ n) × (u ≡ record t { magnetometer_state = SensorState.failed }))
    ⊎ ((n < max_samples)
        × (min_samples ≤ n)
        × (ok ≡ true)
        × (u ≡ record t {
          magnetometer_calibration = finished_calibration t.mag_cal_min t.mag_cal_max;
          magnetometer_state = SensorState.active;
        }))
    ⊎ ((n < max_samples) × ((n < min_samples) ⊎ (ok ≡ false)) × (u ≡ t))

module _ {f : F32} (v : MagnetometerValue) (s : Ahrs f) where
  -- A noted sample counts, up to UINT16_MAX.
  pub count-note_sample :
      s.mag_cal_sample_count < u16_max
      → (mag_cal_note_sample v s).mag_cal_sample_count ≡ s.mag_cal_sample_count + 1
  unfolding mag_cal_note_sample count_sample note_extrema
  count-note_sample h = ground arith

  pub state-note_sample : (mag_cal_note_sample v s).magnetometer_state ≡ s.magnetometer_state
  unfolding mag_cal_note_sample count_sample note_extrema
  state-note_sample = ground arith

  -- A sample in the calibrating state is accepted, and comes to one of the three outcomes.
  pub calibrating_step :
      s.magnetometer_state ≡ SensorState.calibrating
      → let (u, result) = ahrs_update_magnetometer (some v) s in
        Outcome (mag_cal_note_sample v s) u × (result ≡ Result.ok)
  unfolding ahrs_update_magnetometer calibrate_with ahrs_calibrate_compass check_samples
      mag_cal_try_finish
  calibrating_step h = ground (arith, state-note_sample)

  -- A sensor that is active or failed does not start to calibrate by a sample.
  pub settled_step :
      (s.magnetometer_state ≡ SensorState.active) ⊎ (s.magnetometer_state ≡ SensorState.failed)
      → let u = (ahrs_update_magnetometer (some v) s).0 in
        (u.magnetometer_state ≡ s.magnetometer_state)
        × (u.magnetometer_calibration ≡ s.magnetometer_calibration)
  unfolding ahrs_update_magnetometer
  settled_step h = ground arith
