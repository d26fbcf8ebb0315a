-- ===== src/Ahrs/Machine/Sensors.antt =====
-- controller/src/ahrs.c and ahrs_calibration.c: which states the sensors reach.
use segling.Prelude.{◌≡◌, refl, ◌∙◌, List, [], ◌∷◌, Option, none, some, arith}
use segling.Float.{F32}
use segling.Ahrs.State.{Result, SensorState, ImuValue, MagnetometerValue, Ahrs}
use segling.Ahrs.Calibration.{
  mag_cal_try_finish, note_extrema, count_sample, mag_cal_note_sample, check_samples,
  ahrs_calibrate_compass, ahrs_calibrate_imu, ahrs_reset_compass_calibration,
  ahrs_reset_imu_calibration,
}
use segling.Ahrs.{finish_imu, calibrate_with, ahrs_init, ahrs_update_imu, ahrs_update_magnetometer}
use segling.Ahrs.Calls.{g_ahrs, Call, apply, run}
use segling.Ahrs.Machine.{IsIn, magnetometer_state-update_imu, magnetometer_state-calibrate_imu}

module _ {f : F32} (s : Ahrs f) where
  imu_state-check_samples : (check_samples s).0.imu_state ≡ s.imu_state
  unfolding check_samples mag_cal_try_finish
  imu_state-check_samples = ground arith

  imu_state-note_sample :
      (v : MagnetometerValue) → (mag_cal_note_sample v s).imu_state ≡ s.imu_state
  unfolding mag_cal_note_sample count_sample note_extrema
  imu_state-note_sample v = ground arith

imu_state-calibrate_compass :
    {f : F32} (s : Ahrs f) (v : Option MagnetometerValue)
    → (ahrs_calibrate_compass v s).0.imu_state ≡ s.imu_state
unfolding ahrs_calibrate_compass ahrs_reset_compass_calibration
imu_state-calibrate_compass s none = ground arith
imu_state-calibrate_compass s (some v) =
    ground (arith, imu_state-check_samples (mag_cal_note_sample v s), imu_state-note_sample s v)

imu_state-update_magnetometer :
    {f : F32} (s : Ahrs f) (v : Option MagnetometerValue)
    → (ahrs_update_magnetometer v s).0.imu_state ≡ s.imu_state
unfolding ahrs_update_magnetometer calibrate_with
imu_state-update_magnetometer s none = refl
imu_state-update_magnetometer s (some v) = ground (arith, imu_state-calibrate_compass s (some v))

update_imu-IsIn :
    {f : F32} (s : Ahrs f) (v : Option ImuValue)
    → IsIn s.imu_state
    → IsIn (ahrs_update_imu v s).0.imu_state
unfolding ahrs_update_imu finish_imu ahrs_calibrate_imu
update_imu-IsIn s none h = h
update_imu-IsIn s (some v) h = ground arith

calibrate_imu-IsIn :
    {f : F32} (s : Ahrs f) → IsIn s.imu_state → IsIn (ahrs_calibrate_imu s).0.imu_state
unfolding ahrs_calibrate_imu
calibrate_imu-IsIn s h = ground arith

init-IsIn : {f : F32} (s : Ahrs f) → IsIn s.imu_state → IsIn (ahrs_init s).0.imu_state
unfolding ahrs_init
init-IsIn s h = ground arith

apply-IsIn : {f : F32} (c : Call) (s : Ahrs f) → IsIn s.imu_state → IsIn (apply c s).imu_state
unfolding apply
apply-IsIn Call.init s h = init-IsIn s h
apply-IsIn (Call.update_imu v) s h = update_imu-IsIn s v h
apply-IsIn (Call.update_magnetometer v) s h = rw (imu_state-update_magnetometer s v) h
apply-IsIn (Call.calibrate_compass v) s h = rw (imu_state-calibrate_compass s v) h
apply-IsIn Call.calibrate_imu s h = calibrate_imu-IsIn s h
apply-IsIn Call.reset_compass_calibration s h = unfold ahrs_reset_compass_calibration in h
apply-IsIn Call.reset_imu_calibration s h = unfold ahrs_reset_imu_calibration in h

run-IsIn : {f : F32} (cs : List Call) (s : Ahrs f) → IsIn s.imu_state → IsIn (run cs s).imu_state
unfolding run
run-IsIn [] s h = h
run-IsIn (c ∷ cs) s h = run-IsIn cs (apply c s) (apply-IsIn c s h)

update_imu_ok :
    {f : F32} (s : Ahrs f) (v : ImuValue)
    → IsIn s.imu_state
    → (ahrs_update_imu (some v) s).1 ≡ Result.ok
unfolding ahrs_update_imu
update_imu_ok s v h = ground arith

-- The IMU never fails: after any calls from the initial state it accepts the next sample, so the
-- code's branches that refuse one, and the one that marks it as failed, are never taken.
pub imu_never_fails :
    (f : F32) (cs : List Call) (v : ImuValue)
    → (ahrs_update_imu (some v) (run cs (g_ahrs f))).1 ≡ Result.ok
unfolding g_ahrs
imu_never_fails f cs v = update_imu_ok (run cs (g_ahrs f)) v (run-IsIn cs (g_ahrs f) tt)

-- A call other than `ahrs_init`.
abbrev pub NotInit : Call → Type 0
NotInit Call.init = ⊥
NotInit _ = Unit

abbrev pub NoInit : List Call → Type 0
NoInit [] = Unit
NoInit (c ∷ cs) = NotInit c × NoInit cs

apply_failed :
    {f : F32} (c : Call) (s : Ahrs f)
    → NotInit c
    → s.magnetometer_state ≡ SensorState.failed
    → (apply c s).magnetometer_state ≡ SensorState.failed
unfolding apply ahrs_update_magnetometer ahrs_calibrate_compass ahrs_reset_compass_calibration
    ahrs_reset_imu_calibration
apply_failed Call.init s n h = absurd n
apply_failed (Call.update_imu v) s n h = magnetometer_state-update_imu s v ∙ h
apply_failed (Call.update_magnetometer none) s n h = h
apply_failed (Call.update_magnetometer (some v)) s n h = ground arith
apply_failed (Call.calibrate_compass none) s n h = ground arith
apply_failed (Call.calibrate_compass (some v)) s n h = ground arith
apply_failed Call.calibrate_imu s n h = magnetometer_state-calibrate_imu s ∙ h
apply_failed Call.reset_compass_calibration s n h = h
apply_failed Call.reset_imu_calibration s n h = h

run_failed :
    {f : F32} (cs : List Call) (s : Ahrs f)
    → NoInit cs
    → s.magnetometer_state ≡ SensorState.failed
    → (run cs s).magnetometer_state ≡ SensorState.failed
unfolding run
run_failed [] s n h = h
run_failed (c ∷ cs) s n h = run_failed cs (apply c s) n.1 (apply_failed c s n.0 h)

update_magnetometer_refused :
    {f : F32} (s : Ahrs f) (v : MagnetometerValue)
    → s.magnetometer_state ≡ SensorState.failed
    → ahrs_update_magnetometer (some v) s ≡ (s, Result.error_update_failed)
unfolding ahrs_update_magnetometer
update_magnetometer_refused s v h = rw h

-- A magnetometer that has failed refuses every sample, and changes nothing by it, until `ahrs_init`
-- is called: no other call brings it back.
pub failed_until_init :
    {f : F32} (cs : List Call) (s : Ahrs f) (v : MagnetometerValue)
    → NoInit cs
    → s.magnetometer_state ≡ SensorState.failed
    → ahrs_update_magnetometer (some v) (run cs s) ≡ (run cs s, Result.error_update_failed)
failed_until_init cs s v n h = update_magnetometer_refused (run cs s) v (run_failed cs s n h)
