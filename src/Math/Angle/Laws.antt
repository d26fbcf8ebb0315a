-- ===== src/Math/Angle/Laws.antt =====
-- controller/src/utils.c: the helpers on `double`, given the facts of IEEE 754.
use segling.Prelude.{◌≡◌, ◌⊎◌, inl, inr, true, Bool-cases, if◌then◌else◌, arith}
use segling.Float.{F64, Ieee, Ordered, zero64, circle}
use segling.Math.Angle.{normalize_deg_0_360, rad_to_deg, atan2_abs, atan2_rad}

module _ (d : F64) (ieee : Ieee d) where
  open d use {D, lt, le, eq, neg, of_decimal}

  -- The second step of the wrapping: it takes a circle off at 360 itself.
  wrap_down :
      (up : D)
      → le (zero64 d) up ≡ true
      → le up (circle d) ≡ true
      → let r = if le (circle d) up then d.sub up (circle d) else up in
        (le (zero64 d) r ≡ true) × (lt r (circle d) ≡ true)
  wrap_down up lo hi = elim (Bool-cases (le (circle d) up)) [
    | inl full ↦
        let above = ieee.sub_circle_mono (circle d) up full in
        let below = ieee.sub_circle_mono up (circle d) hi in
        rw full (
          rw ieee.circle_sub at above,
          ieee.lt_of_le_lt _ _ _ (rw ieee.circle_sub at below) ieee.circle_pos,
        )
    | inr part ↦
        rw part
          (lo, ieee.lt_of_not_le _ _ (ieee.le_ordered _ _ hi).1 (ieee.le_ordered _ _ hi).0 part)
  ]

  -- A turn or less on either side of zero is wrapped into [0, 360), also where the sum with 360
  -- rounds up to 360.
  pub normalize_range :
      (deg : D)
      → le (neg (circle d)) deg ≡ true
      → le deg (circle d) ≡ true
      → (le (zero64 d) (normalize_deg_0_360 d deg) ≡ true)
        × (lt (normalize_deg_0_360 d deg) (circle d) ≡ true)
  unfolding normalize_deg_0_360
  normalize_range deg lo hi = elim (Bool-cases (lt deg (zero64 d))) [
    | inl below ↦
        let up = ieee.add_circle_mono _ _ lo in
        let down = ieee.add_circle_mono _ _ (ieee.le_of_lt _ _ below) in
        rw below (
          wrap_down (d.add deg (circle d)) (rw ieee.neg_circle_add at up)
            (rw ieee.zero_add_circle at down))
    | inr above ↦ rw above (
        wrap_down deg (ieee.le_of_not_lt _ _ (ieee.le_ordered _ _ hi).0 ieee.zero_ordered above) hi)
  ]

  -- Only one turn is taken off: two turns or more stay at 360 or above.
  pub normalize_one_turn :
      (deg : D)
      → le (of_decimal 7200 1) deg ≡ true
      → le (circle d) (normalize_deg_0_360 d deg) ≡ true
  unfolding normalize_deg_0_360
  normalize_one_turn deg h =
      let full = ieee.le_trans _ _ _ (ieee.le_of_lt _ _ ieee.circle_lt_two) h in
      let positive = ieee.lt_asymm _ _ (ieee.lt_of_lt_le _ _ _ ieee.circle_pos full) in
      let down = ieee.sub_circle_mono _ _ h in rw (positive, full) (rw ieee.two_circles_sub at down)

  -- Reflecting the point in the x axis negates the angle, where y is above zero or below it.
  pub atan2_rad-neg :
      (y x : D)
      → (lt y (zero64 d) ≡ true) ⊎ (lt (zero64 d) y ≡ true)
      → atan2_rad d (neg y) x ≡ neg (atan2_rad d y x)
  unfolding atan2_rad
  atan2_rad-neg y x (inl below) = ground (
    arith,
    below,
    ieee.neg_neg y,
    ieee.lt-neg_zero y,
    ieee.eq-neg_zero y,
    ieee.lt_asymm y (zero64 d),
    ieee.ne_of_lt y (zero64 d),
    ieee.neg_neg (atan2_abs d (neg y) x),
  )
  atan2_rad-neg y x (inr above) = ground (
    arith,
    above,
    ieee.neg_neg y,
    ieee.lt-neg_zero y,
    ieee.eq-neg_zero y,
    ieee.lt_asymm (zero64 d) y,
    ieee.ne_of_lt (zero64 d) y,
  )

  -- Wrapping keeps a value from being a NaN.
  pub normalize-Ordered : (deg : D) → Ordered d deg → Ordered d (normalize_deg_0_360 d deg)
  unfolding normalize_deg_0_360
  normalize-Ordered deg h = ground (
    arith,
    ieee.add_circle_ordered deg,
    ieee.sub_circle_ordered deg,
    ieee.sub_circle_ordered (d.add deg (circle d)),
  )

  -- Scaling to degrees does too.
  pub rad_to_deg-Ordered : (rad : D) → Ordered d rad → Ordered d (rad_to_deg d rad)
  unfolding rad_to_deg
  rad_to_deg-Ordered rad h = ieee.scale_ordered rad h
