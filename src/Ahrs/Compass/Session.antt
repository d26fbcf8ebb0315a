-- ===== src/Ahrs/Compass/Session.antt =====
-- controller/src/ahrs_calibration.c: how a calibration of the magnetometer ends.
use segling.Prelude.{◌+◌, ◌≤◌, ◌<◌, ◌≡◌, ◌⊎◌, refl, List, [], ◌∷◌, length, some, arith}
use segling.Float.{F32}
use segling.Ahrs.State.{SensorState, MagnetometerValue, Ahrs, min_samples, max_samples}
use segling.Ahrs.Calibration.{ahrs_calibrate_compass, ahrs_reset_compass_calibration}
use segling.Ahrs.{ahrs_update_magnetometer}
use segling.Ahrs.Compass.{begin, feed}
use segling.Ahrs.Compass.Steps.{
  count-note_sample, state-note_sample, calibrating_step, settled_step,
}

-- An active magnetometer begins to calibrate with no sample counted and no bounds.
pub begin_lem :
    {f : F32} (s : Ahrs f)
    → s.magnetometer_state ≡ SensorState.active
    → ((begin s).magnetometer_state ≡ SensorState.calibrating)
      × ((begin s).mag_cal_sample_count ≡ 0)
      × ((begin s).mag_cal_have_bounds ≡ 0)
unfolding begin ahrs_calibrate_compass ahrs_reset_compass_calibration
begin_lem s h = ground arith

-- A settled sensor stays as it is.
pub feed_settled :
    {f : F32} (vs : List MagnetometerValue) (s : Ahrs f)
    → (s.magnetometer_state ≡ SensorState.active) ⊎ (s.magnetometer_state ≡ SensorState.failed)
    → ((feed vs s).magnetometer_state ≡ s.magnetometer_state)
      × ((feed vs s).magnetometer_calibration ≡ s.magnetometer_calibration)
unfolding feed
feed_settled [] s h = (refl, refl)
feed_settled (v ∷ vs) s h =
    ground (arith, settled_step v s h, feed_settled vs (ahrs_update_magnetometer (some v) s).0)

-- One sample settles the sensor, or leaves it calibrating with one more sample counted.
step_progress :
    {f : F32} (v : MagnetometerValue) (s : Ahrs f)
    → s.magnetometer_state ≡ SensorState.calibrating
    → s.mag_cal_sample_count < max_samples
    → let u = (ahrs_update_magnetometer (some v) s).0 in
      (((u.magnetometer_state ≡ SensorState.active) ⊎ (u.magnetometer_state ≡ SensorState.failed))
        × (min_samples ≤ s.mag_cal_sample_count + 1))
      ⊎ ((u.magnetometer_state ≡ SensorState.calibrating)
          × (u.mag_cal_sample_count ≡ s.mag_cal_sample_count + 1)
          × (u.mag_cal_sample_count < max_samples))
step_progress v s h small =
    ground
      (arith, calibrating_step v s h, count-note_sample v s (omega arith), state-note_sample v s)

feed_ends :
    {f : F32} (vs : List MagnetometerValue) (s : Ahrs f)
    → s.magnetometer_state ≡ SensorState.calibrating
    → s.mag_cal_sample_count < max_samples
    → max_samples ≤ s.mag_cal_sample_count + length vs
    → ((feed vs s).magnetometer_state ≡ SensorState.active)
      ⊎ ((feed vs s).magnetometer_state ≡ SensorState.failed)
unfolding feed
feed_ends [] s h small enough = absurd (omega arith)
feed_ends (v ∷ vs) s h small enough =
    let u = (ahrs_update_magnetometer (some v) s).0 in
    ground (arith, step_progress v s h small, feed_settled vs u, feed_ends vs u)

feed_goes_on :
    {f : F32} (vs : List MagnetometerValue) (s : Ahrs f)
    → s.magnetometer_state ≡ SensorState.calibrating
    → s.mag_cal_sample_count + length vs < min_samples
    → ((feed vs s).magnetometer_state ≡ SensorState.calibrating)
      × ((feed vs s).mag_cal_sample_count ≡ s.mag_cal_sample_count + length vs)
unfolding feed
feed_goes_on [] s h few = (h, omega arith)
feed_goes_on (v ∷ vs) s h few =
    let u = (ahrs_update_magnetometer (some v) s).0 in
    ground (arith, step_progress v s h, feed_goes_on vs u)

-- A calibration that an active magnetometer begins has ended, well or badly, after
-- AHRS_MAG_CAL_MAX_SAMPLES samples at the latest, and further samples do not restart it.
pub calibration_terminates :
    {f : F32} (s : Ahrs f) (vs : List MagnetometerValue)
    → s.magnetometer_state ≡ SensorState.active
    → max_samples ≤ length vs
    → ((feed vs (begin s)).magnetometer_state ≡ SensorState.active)
      ⊎ ((feed vs (begin s)).magnetometer_state ≡ SensorState.failed)
calibration_terminates s vs h enough =
    let (state, count, _) = begin_lem s h in
    feed_ends vs (begin s) state (omega arith) (omega arith)

-- With fewer samples than AHRS_MAG_CAL_MIN_SAMPLES it never ends, whatever they are, and has
-- counted each of them.
pub calibration_needs_samples :
    {f : F32} (s : Ahrs f) (vs : List MagnetometerValue)
    → s.magnetometer_state ≡ SensorState.active
    → length vs < min_samples
    → ((feed vs (begin s)).magnetometer_state ≡ SensorState.calibrating)
      × ((feed vs (begin s)).mag_cal_sample_count ≡ length vs)
calibration_needs_samples s vs h few =
    let (state, count, _) = begin_lem s h in
    let goes_on = feed_goes_on vs (begin s) state (omega arith) in (goes_on.0, omega arith)
