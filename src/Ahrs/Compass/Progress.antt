-- ===== src/Ahrs/Compass/Progress.antt =====
-- controller/src/ahrs_calibration.c: when a calibration is bound to end well.
use segling.Prelude.{
  ◌+◌, ◌<◌, ◌≤◌, ◌≡◌, inl, inr, refl, sym, ap, subst, ◌∙◌, true, List, [], ◌∷◌, ◌++◌, map, length,
  some, arith,
}
use segling.Prelude.Int.{ℤ, pos, ◌-ℤ◌, ◌≤ℤ◌, int_laws}
use segling.Float.{F32}
use segling.Ahrs.State.{
  Axes, SensorState, MagnetometerValue, Ahrs, min_samples, max_samples, min_span,
}
use segling.Ahrs.Calibration.{mag_cal_note_sample, span_ok, spans_ok}
use segling.Ahrs.{ahrs_update_magnetometer}
use segling.Ahrs.Compass.{begin, feed}
use segling.Ahrs.Compass.Steps.{calibrating_step, count-note_sample}
use segling.Ahrs.Compass.Session.{begin_lem}
use segling.Ahrs.Compass.Extrema.{All, Attained, IsExtrema, AreExtrema}
use segling.Ahrs.Compass.Completion.{feed-calibrating, note_all-snoc, snoc-AreExtrema}

-- Two of the readings are AHRS_MAG_CAL_MIN_SPAN apart or more.
abbrev pub IsSpread : List ℤ → Type 0
IsSpread xs = (a : ℤ) × (b : ℤ) × Attained a xs × Attained b xs × (pos min_span ≤ℤ b -ℤ a)

abbrev pub AreSpread : List MagnetometerValue → Type 0
AreSpread vs =
    IsSpread (map (λ v. v.magnet_x) vs)
    × IsSpread (map (λ v. v.magnet_y) vs)
    × IsSpread (map (λ v. v.magnet_z) vs)

All-Attained : (P : ℤ → Type 0) (a : ℤ) (xs : List ℤ) → All P xs → Attained a xs → P a
All-Attained P a [] ps h = elim h [ ]
All-Attained P a (x ∷ xs) (p, ps) (inl e) = subst P (sym e) p
All-Attained P a (x ∷ xs) (p, ps) (inr h) = All-Attained P a xs ps h

span_ok_of_spread :
    (lo hi : ℤ) (xs : List ℤ) → IsExtrema lo hi xs → IsSpread xs → span_ok lo hi ≡ true
unfolding span_ok
span_ok_of_spread lo hi xs (above, below, _, _) (a, b, at_a, at_b, wide) =
    let low = All-Attained (λ x. lo ≤ℤ x) a xs above at_a in
    let high = All-Attained (λ x. x ≤ℤ hi) b xs below at_b in
    let span : pos min_span ≤ℤ hi -ℤ lo = omega int_laws in ground arith

spans_ok_of_spread :
    (lo hi : Axes) (vs : List MagnetometerValue)
    → AreExtrema lo hi vs
    → AreSpread vs
    → spans_ok lo hi ≡ true
unfolding spans_ok
spans_ok_of_spread lo hi vs (ex, ey, ez) (sx, sy, sz) =
    rw
      (
        span_ok_of_spread lo.x hi.x _ ex sx,
        span_ok_of_spread lo.y hi.y _ ey sy,
        span_ok_of_spread lo.z hi.z _ ez sz,
      )
      refl

-- Where an active magnetometer begins a calibration and still calibrates after the samples `vs`, one
-- more sample `v` makes it active, if with it at least 150 and fewer than 16000 samples came, and on
-- each axis two of them are 64 or more apart.
pub calibration_completes :
    {f : F32} (s : Ahrs f) (vs : List MagnetometerValue) (v : MagnetometerValue)
    → s.magnetometer_state ≡ SensorState.active
    → (feed vs (begin s)).magnetometer_state ≡ SensorState.calibrating
    → min_samples ≤ length vs + 1
    → length vs + 1 < max_samples
    → AreSpread (vs ++ v ∷ [])
    → (ahrs_update_magnetometer (some v) (feed vs (begin s))).0.magnetometer_state
      ≡ SensorState.active
calibration_completes s vs v h still enough few spread =
    let (state, count, bounds) = begin_lem s h in
    let (noted, counted, small) = feed-calibrating vs (begin s) state (omega arith) still in
    let u = feed vs (begin s) in
    let t = mag_cal_note_sample v u in
    let n = count-note_sample v u (omega arith) in
    let snoc = note_all-snoc vs v (begin s) ∙ ap (mag_cal_note_sample v) (sym noted) in
    let extrema =
      subst (λ w. AreExtrema w.mag_cal_min w.mag_cal_max (vs ++ v ∷ [])) snoc
        (snoc-AreExtrema vs v (begin s) bounds) in
    let wide = spans_ok_of_spread t.mag_cal_min t.mag_cal_max (vs ++ v ∷ []) extrema spread in
    elim (calibrating_step v u still).0 [
      | inl (late, e) ↦ absurd (omega arith)
      | inr (inl (early, many, ok, e)) ↦ ap (λ w. w.magnetometer_state) e
      | inr (inr (early, inl less, e)) ↦ absurd (omega arith)
      | inr (inr (early, inr narrow, e)) ↦ absurd (cc (wide, narrow))
    ]
