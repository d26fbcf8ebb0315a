-- ===== src/Ahrs/Published.antt =====
-- controller/src/ahrs.c, `ahrs_get_data`: what is published.
use segling.Prelude.{◌≡◌, Bool, true, false, if◌then◌else◌, arith}
use segling.Prelude.Int.{ℤ}
use segling.Float.{F32, F64, Ieee, Ordered, zero64}
use segling.Math.Angle.{atan2_rad, is_nan_f64, rad_to_deg}
use segling.Math.Angle.Laws.{normalize-Ordered, rad_to_deg-Ordered}
use segling.Ahrs.State.{Ahrs}
use segling.Ahrs.Calibration.{is_active}
use segling.Ahrs.{angle_of, ahrs_get_data}

module _ (d : F64) (ieee : Ieee d) where
  Ordered-of_not_nan : (x : d.D) → is_nan_f64 d x ≡ false → Ordered d x
  unfolding is_nan_f64
  Ordered-of_not_nan x h = ground arith

  angle_of-Ordered :
      (to_deg : d.D → d.D)
      → ((r : d.D) → Ordered d r → Ordered d (to_deg r))
      → (y x : ℤ) → Ordered d (angle_of d to_deg y x)
  unfolding angle_of
  angle_of-Ordered to_deg keeps y x =
      let rad = atan2_rad d (d.of_int y) (d.of_int x) in
      ground (arith, ieee.zero_ordered, keeps rad, Ordered-of_not_nan rad)

  if-Ordered : (b : Bool) (x : d.D) → Ordered d x → Ordered d (if b then x else zero64 d)
  if-Ordered true x h = h
  if-Ordered false x h = ieee.zero_ordered

  -- No field that is published is a NaN, whatever the state is: the NaN that stands for an angle
  -- without a value stays internal.
  pub published_not_nan :
      {f : F32} (s : Ahrs f)
      → let out = ahrs_get_data d s in
        Ordered d out.heading
        × Ordered d out.pitch
        × Ordered d out.roll
        × Ordered d out.yaw
        × Ordered d out.rotation_rate_x
        × Ordered d out.rotation_rate_y
        × Ordered d out.rotation_rate_z
  unfolding ahrs_get_data
  published_not_nan s =
      let m = s.smoothed_magnetometer_value in
      let a = s.smoothed_imu_value in
      let wrapped = λ (r : d.D) (h : Ordered d r).
        normalize-Ordered d ieee (rad_to_deg d r) (rad_to_deg-Ordered d ieee r h) in
      let scaled = rad_to_deg-Ordered d ieee in
      let heading =
        if-Ordered (is_active s.magnetometer_state) _
          (angle_of-Ordered _ wrapped m.magnet_y m.magnet_x) in
      let zero = ieee.zero_ordered in
      (
        heading,
        if-Ordered (is_active s.imu_state) _ (angle_of-Ordered _ scaled a.accel_y a.accel_z),
        if-Ordered (is_active s.imu_state) _ (angle_of-Ordered _ scaled a.accel_x a.accel_z),
        heading,
        zero,
        zero,
        zero,
      )
