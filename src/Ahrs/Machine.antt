-- ===== src/Ahrs/Machine.antt =====
-- controller/src/ahrs.c and ahrs_calibration.c: the state machine of the magnetometer, over the
-- functions of ahrs.h.
pub mod Sensors
pub mod Steps
use segling.Prelude.{
  ℕ, suc, ◌≤◌, ◌<◌, Bool, true, false, ◌↔◌, ◌∙◌, sym, ap, subst, Bool-cases, ◌≡◌, ◌≢◌, ◌⊎◌, inl,
  inr, refl, List, [], ◌∷◌, Option, none, some, arith,
}
use segling.Float.{F32}
use segling.Ahrs.State.{
  min_samples, max_samples, CalibrationStatus, Result, SensorState, ImuValue, MagnetometerValue,
  Ahrs,
}
use segling.Ahrs.Calibration.{
  spans_ok, mag_cal_try_finish, note_extrema, count_sample, mag_cal_note_sample, check_samples,
  ahrs_calibrate_compass, ahrs_calibrate_imu, ahrs_reset_compass_calibration,
  ahrs_reset_imu_calibration,
}
use segling.Ahrs.{
  alpha_invalid, after_calibration, finish_imu, calibrate_with, ahrs_init, ahrs_update_imu,
  ahrs_update_magnetometer,
}
use segling.Ahrs.Calls.{g_ahrs, Call, apply, run}

-- The states in which samples are accepted, and those in which they are refused.
abbrev pub IsIn : SensorState → Type 0
IsIn SensorState.failed = ⊥
IsIn SensorState.disabled = ⊥
IsIn _ = Unit

abbrev pub IsOut : SensorState → Type 0
IsOut SensorState.failed = Unit
IsOut SensorState.disabled = Unit
IsOut _ = ⊥

-- Whether all spans are wide enough once a sample is noted.
abbrev pub wide_with : {f : F32} → MagnetometerValue → Ahrs f → Bool
wide_with v s = let s1 = note_extrema v s in spans_ok s1.mag_cal_min s1.mag_cal_max

-- The transitions of the magnetometer, each with the call that makes it and the condition on the
-- state at the call.
pub data Step {f : F32} (s : Ahrs f) : SensorState → Call → SensorState → Type 0 where
  start : {a : SensorState} → alpha_invalid s ≡ false → Step s a Call.init SensorState.initializing
  bad_alpha : {a : SensorState} → alpha_invalid s ≡ true → Step s a Call.init a
  first_sample :
      {v : MagnetometerValue}
      → Step s SensorState.initializing (Call.update_magnetometer (some v)) SensorState.active
  smooth :
      {v : MagnetometerValue}
      → Step s SensorState.active (Call.update_magnetometer (some v)) SensorState.active
  give_up :
      {v : MagnetometerValue}
      → max_samples ≤ suc s.mag_cal_sample_count
      → Step s SensorState.calibrating (Call.update_magnetometer (some v)) SensorState.failed
  complete :
      {v : MagnetometerValue}
      → min_samples ≤ suc s.mag_cal_sample_count
      → suc s.mag_cal_sample_count < max_samples
      → wide_with v s ≡ true
      → Step s SensorState.calibrating (Call.update_magnetometer (some v)) SensorState.active
  go_on :
      {v : MagnetometerValue}
      → suc s.mag_cal_sample_count < max_samples
      → (suc s.mag_cal_sample_count < min_samples) ⊎ (wide_with v s ≡ false)
      → Step s SensorState.calibrating (Call.update_magnetometer (some v)) SensorState.calibrating
  refuse_failed :
      {v : MagnetometerValue}
      → Step s SensorState.failed (Call.update_magnetometer (some v)) SensorState.failed
  refuse_disabled :
      {v : MagnetometerValue}
      → Step s SensorState.disabled (Call.update_magnetometer (some v)) SensorState.disabled
  no_sample : {a : SensorState} → Step s a (Call.update_magnetometer none) a
  begin : Step s SensorState.active (Call.calibrate_compass none) SensorState.calibrating
  no_begin : {a : SensorState} → a ≢ SensorState.active → Step s a (Call.calibrate_compass none) a
  poll : {a : SensorState} {v : MagnetometerValue} → Step s a (Call.calibrate_compass (some v)) a
  imu_sample : {a : SensorState} {v : Option ImuValue} → Step s a (Call.update_imu v) a
  imu_calibration : {a : SensorState} → Step s a Call.calibrate_imu a
  compass_reset : {a : SensorState} → Step s a Call.reset_compass_calibration a
  imu_reset : {a : SensorState} → Step s a Call.reset_imu_calibration a

state-check_samples :
    {f : F32} (s : Ahrs f) → (check_samples s).0.magnetometer_state ≡ s.magnetometer_state
unfolding check_samples mag_cal_try_finish
state-check_samples s = ground arith

state-note_sample :
    {f : F32} (v : MagnetometerValue) (s : Ahrs f)
    → (mag_cal_note_sample v s).magnetometer_state ≡ s.magnetometer_state
unfolding mag_cal_note_sample count_sample note_extrema
state-note_sample v s = ground arith

count-note_sample :
    {f : F32} (v : MagnetometerValue) (s : Ahrs f)
    → ((mag_cal_note_sample v s).mag_cal_sample_count ≡ suc s.mag_cal_sample_count)
      ⊎ ((max_samples ≤ s.mag_cal_sample_count)
          × (max_samples ≤ (mag_cal_note_sample v s).mag_cal_sample_count))
unfolding mag_cal_note_sample count_sample note_extrema
count-note_sample v s = ground arith

spans-note_sample :
    {f : F32} (v : MagnetometerValue) (s : Ahrs f)
    → let s1 = mag_cal_note_sample v s in spans_ok s1.mag_cal_min s1.mag_cal_max ≡ wide_with v s
unfolding mag_cal_note_sample count_sample
spans-note_sample v s = ground arith

-- What the check of the samples comes to once a sample is noted.
pub check_samples-cases :
    {f : F32} (v : MagnetometerValue) (s : Ahrs f)
    → let status = (check_samples (mag_cal_note_sample v s)).1 in
      let count = suc s.mag_cal_sample_count in
      ((max_samples ≤ count) × (status ≡ CalibrationStatus.failed))
      ⊎ ((min_samples ≤ count)
          × (count < max_samples)
          × (wide_with v s ≡ true)
          × (status ≡ CalibrationStatus.completed))
      ⊎ ((count < max_samples)
          × ((count < min_samples) ⊎ (wide_with v s ≡ false))
          × (status ≡ CalibrationStatus.in_progress))
unfolding check_samples mag_cal_try_finish
check_samples-cases v s = ground (arith, count-note_sample v s, spans-note_sample v s)

-- The calls on one sensor leave the state of the other alone.
module _ {f : F32} (s : Ahrs f) where
  pub magnetometer_state-update_imu :
      (v : Option ImuValue) → (ahrs_update_imu v s).0.magnetometer_state ≡ s.magnetometer_state
  unfolding ahrs_update_imu finish_imu ahrs_calibrate_imu
  magnetometer_state-update_imu none = refl
  magnetometer_state-update_imu (some v) = ground arith

  pub magnetometer_state-calibrate_imu :
      (ahrs_calibrate_imu s).0.magnetometer_state ≡ s.magnetometer_state
  unfolding ahrs_calibrate_imu
  magnetometer_state-calibrate_imu = ground arith

-- The state that a calibrating magnetometer goes to with a sample.
pub state-calibrate_with :
    {f : F32} (v : MagnetometerValue) (s : Ahrs f)
    → s.magnetometer_state ≡ SensorState.calibrating
    → (ahrs_update_magnetometer (some v) s).0.magnetometer_state
      ≡ after_calibration (check_samples (mag_cal_note_sample v s)).1 SensorState.calibrating
unfolding ahrs_update_magnetometer calibrate_with ahrs_calibrate_compass
state-calibrate_with v s h =
    ground (arith, state-check_samples (mag_cal_note_sample v s), state-note_sample v s)

module _ {f : F32} (s : Ahrs f) where
  -- The state after a sample, in the states where no calibration runs.
  pub state-update_magnetometer :
      (v : MagnetometerValue)
      → (s.magnetometer_state ≡ SensorState.initializing
          → (ahrs_update_magnetometer (some v) s).0.magnetometer_state ≡ SensorState.active)
        × (s.magnetometer_state ≢ SensorState.initializing
            → s.magnetometer_state ≢ SensorState.calibrating
            → (ahrs_update_magnetometer (some v) s).0.magnetometer_state ≡ s.magnetometer_state)
  unfolding ahrs_update_magnetometer
  state-update_magnetometer v = (λ h. ground arith, λ h g. ground arith)

  pub calibrate_compass_none :
      ((s.magnetometer_state ≡ SensorState.active)
        × ((ahrs_calibrate_compass none s).0.magnetometer_state ≡ SensorState.calibrating))
      ⊎ ((s.magnetometer_state ≢ SensorState.active)
          × ((ahrs_calibrate_compass none s).0.magnetometer_state ≡ s.magnetometer_state))
  unfolding ahrs_calibrate_compass
  calibrate_compass_none = ground arith

  pub calibrate_compass_some :
      (v : MagnetometerValue)
      → (ahrs_calibrate_compass (some v) s).0.magnetometer_state ≡ s.magnetometer_state
  unfolding ahrs_calibrate_compass
  calibrate_compass_some v =
      ground (arith, state-check_samples (mag_cal_note_sample v s), state-note_sample v s)

  pub init-cases :
      ((alpha_invalid s ≡ true) × ((ahrs_init s).0.magnetometer_state ≡ s.magnetometer_state))
      ⊎ ((alpha_invalid s ≡ false)
          × ((ahrs_init s).0.magnetometer_state ≡ SensorState.initializing))
  unfolding ahrs_init
  init-cases = elim (Bool-cases (alpha_invalid s)) [
    | inl bad ↦ rw bad (inl (refl, refl))
    | inr good ↦ rw good (inr (refl, refl))
  ]

  pub update_magnetometer-answer :
      (v : MagnetometerValue)
      → (IsIn s.magnetometer_state × ((ahrs_update_magnetometer (some v) s).1 ≡ Result.ok))
        ⊎ (IsOut s.magnetometer_state
            × (ahrs_update_magnetometer (some v) s ≡ (s, Result.error_update_failed)))
  unfolding ahrs_update_magnetometer
  update_magnetometer-answer v = ground arith
