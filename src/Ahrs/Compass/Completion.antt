-- ===== src/Ahrs/Compass/Completion.antt =====
-- controller/src/ahrs_calibration.c: what a calibration that ends well has written.
use segling.Prelude.{
  ◌+◌, ◌<◌, ◌≤◌, ◌≡◌, inl, inr, refl, sym, ap, subst, ◌∙◌, true, List, [], ◌∷◌, ◌++◌, length,
  length-append, some, arith,
}
use segling.Float.{F32}
use segling.Ahrs.State.{SensorState, MagnetometerValue, Ahrs, min_samples, max_samples}
use segling.Ahrs.Calibration.{mag_cal_note_sample, finished_calibration, spans_ok}
use segling.Ahrs.{ahrs_update_magnetometer}
use segling.Ahrs.Compass.{begin, feed, note_all}
use segling.Ahrs.Compass.Steps.{calibrating_step, count-note_sample, state-note_sample}
use segling.Ahrs.Compass.Session.{begin_lem, feed_settled}
use segling.Ahrs.Compass.Extrema.{AreExtrema, note_all-AreExtrema}

-- The state `u` has noted the samples since `s`, and is still below the greatest number of samples.
abbrev pub Noted : {f : F32} → List MagnetometerValue → Ahrs f → Ahrs f → Type 0
Noted vs s u =
    (u ≡ note_all vs s)
    × (u.mag_cal_sample_count ≡ s.mag_cal_sample_count + length vs)
    × (u.mag_cal_sample_count < max_samples)

-- A magnetometer that still calibrates after some samples has noted each of them, and no more.
pub feed-calibrating :
    {f : F32} (vs : List MagnetometerValue) (s : Ahrs f)
    → s.magnetometer_state ≡ SensorState.calibrating
    → s.mag_cal_sample_count < max_samples
    → (feed vs s).magnetometer_state ≡ SensorState.calibrating
    → Noted vs s (feed vs s)
unfolding feed note_all
feed-calibrating [] s h small still = (refl, omega arith, small)
feed-calibrating (v ∷ vs) s h small still = elim (calibrating_step v s h).0 [
  | inl (late, e) ↦ absurd (ground (arith, feed_settled vs (ahrs_update_magnetometer (some v) s).0))
  | inr (inl (_, _, _, e)) ↦
      absurd (ground (arith, feed_settled vs (ahrs_update_magnetometer (some v) s).0))
  | inr (inr (early, _, e)) ↦
      let t = mag_cal_note_sample v s in
      let rest =
        feed-calibrating vs t (state-note_sample v s ∙ h) early
          (ap (λ u. (feed vs u).magnetometer_state) (sym e) ∙ still) in
      subst (λ u. Noted (v ∷ vs) s (feed vs u)) (sym e)
        (rest.0, omega (arith, count-note_sample v s), rest.2)
]

pub note_all-snoc :
    {f : F32} (vs : List MagnetometerValue) (v : MagnetometerValue) (s : Ahrs f)
    → note_all (vs ++ v ∷ []) s ≡ mag_cal_note_sample v (note_all vs s)
unfolding note_all
note_all-snoc [] v s = refl
note_all-snoc (w ∷ vs) v s = note_all-snoc vs v (mag_cal_note_sample w s)

pub snoc-AreExtrema :
    {f : F32} (vs : List MagnetometerValue) (v : MagnetometerValue) (s : Ahrs f)
    → s.mag_cal_have_bounds ≡ 0
    → let t = note_all (vs ++ v ∷ []) s in AreExtrema t.mag_cal_min t.mag_cal_max (vs ++ v ∷ [])
snoc-AreExtrema [] v s h = note_all-AreExtrema v [] s h
snoc-AreExtrema (w ∷ vs) v s h = note_all-AreExtrema w (vs ++ v ∷ []) s h

-- A calibration was written from the samples `vs`: there are enough of them, the bounds are the
-- least and the greatest reading of each axis, every span is wide enough, and the calibration is
-- the one for these bounds.
abbrev pub Calibrated : {f : F32} → List MagnetometerValue → Ahrs f → Type 0
Calibrated vs t =
    (min_samples ≤ length vs)
    × AreExtrema t.mag_cal_min t.mag_cal_max vs
    × (spans_ok t.mag_cal_min t.mag_cal_max ≡ true)
    × (t.magnetometer_calibration ≡ finished_calibration t.mag_cal_min t.mag_cal_max)

-- Where an active magnetometer begins a calibration, still calibrates after the samples `vs`, and is
-- active after one more, `v`: at least AHRS_MAG_CAL_MIN_SAMPLES samples came, every span is wide
-- enough, and what is written is the calibration from the least and the greatest reading of each
-- axis among all the samples.
pub completed_calibration :
    {f : F32} (s : Ahrs f) (vs : List MagnetometerValue) (v : MagnetometerValue)
    → s.magnetometer_state ≡ SensorState.active
    → (feed vs (begin s)).magnetometer_state ≡ SensorState.calibrating
    → (ahrs_update_magnetometer (some v) (feed vs (begin s))).0.magnetometer_state
      ≡ SensorState.active
    → Calibrated (vs ++ v ∷ []) (ahrs_update_magnetometer (some v) (feed vs (begin s))).0
completed_calibration s vs v h still done =
    let (state, count, bounds) = begin_lem s h in
    let (noted, counted, small) = feed-calibrating vs (begin s) state (omega arith) still in
    let u = feed vs (begin s) in
    elim (calibrating_step v u still).0 [
      | inl (late, e) ↦ cc (ap (λ w. w.magnetometer_state) e)
      | inr (inl (early, enough, ok, e)) ↦
          let n = count-note_sample v u (omega arith) in
          let snoc = note_all-snoc vs v (begin s) ∙ ap (mag_cal_note_sample v) (sym noted) in
          let extrema = snoc-AreExtrema vs v (begin s) bounds in
          subst (Calibrated (vs ++ v ∷ [])) (sym e) (
            omega (arith, length-append vs (v ∷ [])),
            subst (λ t. AreExtrema t.mag_cal_min t.mag_cal_max (vs ++ v ∷ [])) snoc extrema,
            ok,
            refl,
          )
      | inr (inr (early, _, e)) ↦ cc (ap (λ w. w.magnetometer_state) e, state-note_sample v u)
    ]
