-- ===== src/Ahrs/Machine/Steps.antt =====
-- controller/src/ahrs.c and ahrs_calibration.c: the calls of ahrs.h beside the transitions of the
-- magnetometer.
use segling.Prelude.{
  suc, ◌≤◌, ◌<◌, true, false, ◌↔◌, ◌∙◌, sym, ap, subst, ◌≡◌, ◌⊎◌, inl, inr, refl, none, some, arith,
}
use segling.Float.{F32}
use segling.Ahrs.State.{
  min_samples, max_samples, CalibrationStatus, Result, SensorState, MagnetometerValue, Ahrs,
}
use segling.Ahrs.Calibration.{
  mag_cal_note_sample, check_samples, ahrs_reset_compass_calibration, ahrs_reset_imu_calibration,
}
use segling.Ahrs.{after_calibration, ahrs_init, ahrs_update_magnetometer}
use segling.Ahrs.Calls.{Call, apply}
use segling.Ahrs.Machine.{
  IsIn, IsOut, Step, start, bad_alpha, first_sample, smooth, give_up, complete, go_on,
  refuse_failed, refuse_disabled, no_sample, begin, no_begin, poll, imu_sample, imu_calibration,
  compass_reset, imu_reset, wide_with, state-calibrate_with, check_samples-cases,
  state-update_magnetometer, calibrate_compass_none, calibrate_compass_some, init-cases,
  update_magnetometer-answer, magnetometer_state-update_imu, magnetometer_state-calibrate_imu,
}

module _ {f : F32} (s : Ahrs f) where
  init-Step : Step s s.magnetometer_state Call.init (ahrs_init s).0.magnetometer_state
  init-Step = elim (init-cases s) [
    | inl (bad, next) ↦ rw next (bad_alpha bad)
    | inr (good, next) ↦ rw next (start good)
  ]

  calibrating-Step :
      (v : MagnetometerValue)
      → Step s SensorState.calibrating
          (Call.update_magnetometer (some v))
          (after_calibration (check_samples (mag_cal_note_sample v s)).1 SensorState.calibrating)
  unfolding after_calibration
  calibrating-Step v = elim (check_samples-cases v s) [
    | inl (many, status) ↦ rw status (give_up many)
    | inr (inl (enough, few, wide, status)) ↦ rw status (complete enough few wide)
    | inr (inr (few, waits, status)) ↦ rw status (go_on few waits)
  ]

  update_magnetometer-Step :
      (v : MagnetometerValue) (a : SensorState)
      → s.magnetometer_state ≡ a
      → Step s a
          (Call.update_magnetometer (some v))
          (ahrs_update_magnetometer (some v) s).0.magnetometer_state
  update_magnetometer-Step v SensorState.initializing h =
      rw ((state-update_magnetometer s v).0 h) first_sample
  update_magnetometer-Step v SensorState.calibrating h =
      rw (state-calibrate_with v s h) (calibrating-Step v)
  update_magnetometer-Step v SensorState.active h =
      rw ((state-update_magnetometer s v).1 (ground arith) (ground arith), h) smooth
  update_magnetometer-Step v SensorState.failed h =
      rw ((state-update_magnetometer s v).1 (ground arith) (ground arith), h) refuse_failed
  update_magnetometer-Step v SensorState.disabled h =
      rw ((state-update_magnetometer s v).1 (ground arith) (ground arith), h) refuse_disabled

  apply-Step : (c : Call) → Step s s.magnetometer_state c (apply c s).magnetometer_state
  unfolding apply ahrs_reset_compass_calibration ahrs_reset_imu_calibration ahrs_update_magnetometer
  apply-Step Call.init = init-Step
  apply-Step (Call.update_imu v) = rw (magnetometer_state-update_imu s v) imu_sample
  apply-Step (Call.update_magnetometer none) = no_sample
  apply-Step (Call.update_magnetometer (some v)) =
      update_magnetometer-Step v s.magnetometer_state refl
  apply-Step (Call.calibrate_compass none) = elim (calibrate_compass_none s) [
    | inl (on, next) ↦
        rw next (
          subst (λ a. Step s a (Call.calibrate_compass none) SensorState.calibrating) (sym on)
            begin)
    | inr (off, next) ↦ rw next (no_begin off)
  ]
  apply-Step (Call.calibrate_compass (some v)) = rw (calibrate_compass_some s v) poll
  apply-Step Call.calibrate_imu = rw (magnetometer_state-calibrate_imu s) imu_calibration
  apply-Step Call.reset_compass_calibration = compass_reset
  apply-Step Call.reset_imu_calibration = imu_reset

  Step-give_up :
      (v : MagnetometerValue)
      → max_samples ≤ suc s.mag_cal_sample_count
      → (check_samples (mag_cal_note_sample v s)).1 ≡ CalibrationStatus.failed
  Step-give_up v many = elim (check_samples-cases v s) [
    | inl (_, status) ↦ status
    | inr (inl (_, few, _, _)) ↦ absurd (omega (arith, many, few))
    | inr (inr (few, _, _)) ↦ absurd (omega (arith, many, few))
  ]

  Step-complete :
      (v : MagnetometerValue)
      → min_samples ≤ suc s.mag_cal_sample_count
      → suc s.mag_cal_sample_count < max_samples
      → wide_with v s ≡ true
      → (check_samples (mag_cal_note_sample v s)).1 ≡ CalibrationStatus.completed
  Step-complete v enough few wide = elim (check_samples-cases v s) [
    | inl (many, _) ↦ absurd (omega (arith, many, few))
    | inr (inl (_, _, _, status)) ↦ status
    | inr (inr (_, inl early, _)) ↦ absurd (omega (arith, early, enough))
    | inr (inr (_, inr narrow, _)) ↦ absurd (cc (wide, narrow))
  ]

  Step-go_on :
      (v : MagnetometerValue)
      → suc s.mag_cal_sample_count < max_samples
      → (suc s.mag_cal_sample_count < min_samples) ⊎ (wide_with v s ≡ false)
      → (check_samples (mag_cal_note_sample v s)).1 ≡ CalibrationStatus.in_progress
  Step-go_on v few waits = elim (check_samples-cases v s) [
    | inl (many, _) ↦ absurd (omega (arith, many, few))
    | inr (inl (enough, _, wide, _)) ↦ elim waits [
      | inl early ↦ absurd (omega (arith, early, enough))
      | inr narrow ↦ absurd (cc (wide, narrow))
    ]
    | inr (inr (_, _, status)) ↦ status
  ]

  Step-apply :
      {a t : SensorState} {c : Call}
      → Step s a c t
      → s.magnetometer_state ≡ a
      → (apply c s).magnetometer_state ≡ t
  unfolding apply after_calibration ahrs_update_magnetometer ahrs_reset_compass_calibration
      ahrs_reset_imu_calibration
  Step-apply (start good) h = elim (init-cases s) [
    | inl (bad, _) ↦ absurd (cc (bad, good))
    | inr (_, next) ↦ next
  ]
  Step-apply (bad_alpha bad) h = elim (init-cases s) [
    | inl (_, next) ↦ next ∙ h
    | inr (good, _) ↦ absurd (cc (bad, good))
  ]
  Step-apply (first_sample {v}) h = (state-update_magnetometer s v).0 h
  Step-apply (smooth {v}) h = (state-update_magnetometer s v).1 (ground arith) (ground arith) ∙ h
  Step-apply (give_up {v} many) h =
      state-calibrate_with v s h
      ∙ ap (λ st. after_calibration st SensorState.calibrating) (Step-give_up v many)
  Step-apply (complete {v} enough few wide) h =
      state-calibrate_with v s h
      ∙ ap (λ st. after_calibration st SensorState.calibrating) (Step-complete v enough few wide)
  Step-apply (go_on {v} few waits) h =
      state-calibrate_with v s h
      ∙ ap (λ st. after_calibration st SensorState.calibrating) (Step-go_on v few waits)
  Step-apply (refuse_failed {v}) h =
      (state-update_magnetometer s v).1 (ground arith) (ground arith) ∙ h
  Step-apply (refuse_disabled {v}) h =
      (state-update_magnetometer s v).1 (ground arith) (ground arith) ∙ h
  Step-apply no_sample h = h
  Step-apply begin h = elim (calibrate_compass_none s) [
    | inl (_, next) ↦ next
    | inr (off, _) ↦ absurd (off h)
  ]
  Step-apply (no_begin off) h = elim (calibrate_compass_none s) [
    | inl (on, _) ↦ absurd (off (sym h ∙ on))
    | inr (_, next) ↦ next ∙ h
  ]
  Step-apply (poll {v = v}) h = calibrate_compass_some s v ∙ h
  Step-apply (imu_sample {v = v}) h = magnetometer_state-update_imu s v ∙ h
  Step-apply imu_calibration h = magnetometer_state-calibrate_imu s ∙ h
  Step-apply compass_reset h = h
  Step-apply imu_reset h = h

-- The state that a call leaves the magnetometer in is `t` exactly where the relation leads there from
-- the state before it: a sample takes it from initializing to active; while it calibrates, to failed
-- where the sample makes 16000 or more, to active where it makes 150 to 15999 and all spans are wide
-- enough with it, and nowhere else; asking for a calibration takes it from active to calibrating;
-- `ahrs_init` takes it to initializing unless alpha is invalid; and no other call moves it. A sample is
-- answered with ok in the states initializing, active and calibrating; in the others it is refused,
-- and changes nothing.
pub magnetometer_step_iff :
    {f : F32} (c : Call) (v : MagnetometerValue) (s : Ahrs f) (t : SensorState)
    → (Step s s.magnetometer_state c t ↔ ((apply c s).magnetometer_state ≡ t))
      × ((IsIn s.magnetometer_state × ((ahrs_update_magnetometer (some v) s).1 ≡ Result.ok))
          ⊎ (IsOut s.magnetometer_state
              × (ahrs_update_magnetometer (some v) s ≡ (s, Result.error_update_failed))))
magnetometer_step_iff c v s t = (
  (λ h. Step-apply s h refl, λ e. subst (Step s s.magnetometer_state c) e (apply-Step s c)),
  update_magnetometer-answer s v,
)
