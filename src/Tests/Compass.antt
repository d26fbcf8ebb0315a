-- ===== src/Tests/Compass.antt =====
-- The calibration of the magnetometer at concrete inputs.
use segling.Prelude.{
  ◌≡◌, ◌⊎◌, inl, inr, refl, true, map, List, [], ◌∷◌, ◌++◌, replicate, length-replicate, some,
  arith,
}
use segling.Prelude.Int.{pos, negsuc, ◌-ℤ◌, ◌≤ℤ◌, ◌<ℤ◌, int_laws}
use segling.Ahrs.State.{SensorState, Axes, all_axes, MagnetometerValue, Ahrs, max_samples, min_span}
use segling.Ahrs.Calibration.{
  span_ok, spans_ok, lower, raise, finished_calibration, mag_cal_try_finish, note_extrema,
  count_sample, mag_cal_note_sample, check_samples, ahrs_calibrate_compass,
  ahrs_reset_compass_calibration,
}
use segling.Ahrs.{ahrs_mag_corrected, ahrs_update_magnetometer, calibrate_with, after_calibration}
use segling.Ahrs.Compass.{begin, feed}
use segling.Ahrs.Compass.Session.{calibration_terminates}
use segling.Ahrs.Compass.Completion.{Calibrated, completed_calibration}
use segling.Ahrs.Compass.Progress.{IsSpread, calibration_completes}
use segling.Ahrs.Compass.Accuracy.{Centred, corrected_reading-Centred}
use segling.Ahrs.Compass.Finish.{AxisSound, finished_calibration_sound, wide_span_wraps}
use segling.Tests.Floats.{millionths}
use segling.Tests.Ahrs.{field, start}

abbrev calibrating : Ahrs millionths
calibrating = record start { magnetometer_state = SensorState.calibrating }

-- A field that never changes: the spans stay too small until the sensor gives up.
abbrev flat : List MagnetometerValue
flat = replicate max_samples (field (pos 5))

calibration_terminates_example :
    ((feed flat (begin start)).magnetometer_state ≡ SensorState.active)
    ⊎ ((feed flat (begin start)).magnetometer_state ≡ SensorState.failed)
calibration_terminates_example =
    calibration_terminates start flat refl
      (omega (arith, length-replicate max_samples (field (pos 5))))

abbrev few : List MagnetometerValue
few = field (pos 5) ∷ field (pos 300) ∷ []

abbrev turn : List MagnetometerValue
turn = field (pos 300) ∷ replicate 148 (field (negsuc 99))

turn_goes_on : (feed turn (begin start)).magnetometer_state ≡ SensorState.calibrating
unfolding feed begin ahrs_calibrate_compass ahrs_reset_compass_calibration ahrs_update_magnetometer
    calibrate_with after_calibration mag_cal_note_sample note_extrema count_sample check_samples
    mag_cal_try_finish lower raise spans_ok span_ok ◌-ℤ◌
turn_goes_on = refl

turn_ends :
    (ahrs_update_magnetometer (some (field (pos 7))) (feed turn (begin start))).0.magnetometer_state
    ≡ SensorState.active
unfolding feed begin ahrs_calibrate_compass ahrs_reset_compass_calibration ahrs_update_magnetometer
    calibrate_with after_calibration mag_cal_note_sample note_extrema count_sample check_samples
    mag_cal_try_finish lower raise spans_ok span_ok ◌-ℤ◌
turn_ends = refl

completed_calibration_example :
    Calibrated
      (turn ++ field (pos 7) ∷ [])
      (ahrs_update_magnetometer (some (field (pos 7))) (feed turn (begin start))).0
completed_calibration_example =
    completed_calibration start turn (field (pos 7)) refl turn_goes_on turn_ends

wide_enough : spans_ok (all_axes (negsuc 99)) (all_axes (pos 300)) ≡ true
unfolding spans_ok span_ok ◌-ℤ◌
wide_enough = refl

finished_calibration_sound_example :
    AxisSound
      (negsuc 99)
      (pos 300)
      (finished_calibration (all_axes (negsuc 99)) (all_axes (pos 300))).bias.x
      (finished_calibration (all_axes (negsuc 99)) (all_axes (pos 300))).scale_den.x
    × AxisSound
        (negsuc 99)
        (pos 300)
        (finished_calibration (all_axes (negsuc 99)) (all_axes (pos 300))).bias.y
        (finished_calibration (all_axes (negsuc 99)) (all_axes (pos 300))).scale_den.y
    × AxisSound
        (negsuc 99)
        (pos 300)
        (finished_calibration (all_axes (negsuc 99)) (all_axes (pos 300))).bias.z
        (finished_calibration (all_axes (negsuc 99)) (all_axes (pos 300))).scale_den.z
    × ((finished_calibration (all_axes (negsuc 99)) (all_axes (pos 300))).scale_num.y
        ≡ (finished_calibration (all_axes (negsuc 99)) (all_axes (pos 300))).scale_num.x)
    × ((finished_calibration (all_axes (negsuc 99)) (all_axes (pos 300))).scale_num.z
        ≡ (finished_calibration (all_axes (negsuc 99)) (all_axes (pos 300))).scale_num.x)
    × (pos min_span
        ≤ℤ (finished_calibration (all_axes (negsuc 99)) (all_axes (pos 300))).scale_num.x)
    × ((finished_calibration (all_axes (negsuc 99)) (all_axes (pos 300))).scale_num.x ≤ℤ pos 8190)
finished_calibration_sound_example =
    finished_calibration_sound (all_axes (negsuc 99)) (all_axes (pos 300)) (omega arith)
      (omega arith) wide_enough

abbrev WideDen : Axes → Axes → Type 0
WideDen min max =
    let den = (finished_calibration min max).scale_den.x in
    (den ≡ max.x -ℤ min.x -ℤ pos 65536) × (den <ℤ pos 0)

wide_span_wraps_example : WideDen (all_axes (negsuc 19999)) (all_axes (pos 20000))
wide_span_wraps_example =
    wide_span_wraps (all_axes (negsuc 19999)) (all_axes (pos 20000)) (omega arith) (omega arith)
      (omega int_laws)

far_apart : IsSpread (map (λ v. v.magnet_x) (turn ++ field (pos 7) ∷ []))
unfolding ◌-ℤ◌
far_apart = (negsuc 99, pos 300, inr (inl refl), inl refl, omega arith)

calibration_completes_example :
    (ahrs_update_magnetometer (some (field (pos 7))) (feed turn (begin start))).0.magnetometer_state
    ≡ SensorState.active
calibration_completes_example =
    calibration_completes start turn (field (pos 7)) refl turn_goes_on (omega arith) (omega arith)
      (far_apart, far_apart, far_apart)

corrected_reading-Centred_example :
    let c = finished_calibration (all_axes (negsuc 99)) (all_axes (pos 300)) in
    let r = ahrs_mag_corrected c (field (pos 7)) in
    Centred c.scale_num.x (pos 300 -ℤ negsuc 99) r.magnet_x
    × Centred c.scale_num.x (pos 300 -ℤ negsuc 99) r.magnet_y
    × Centred c.scale_num.x (pos 300 -ℤ negsuc 99) r.magnet_z
corrected_reading-Centred_example =
    corrected_reading-Centred (all_axes (negsuc 99)) (all_axes (pos 300)) (field (pos 7))
      (omega arith) (omega arith) wide_enough (omega arith)
