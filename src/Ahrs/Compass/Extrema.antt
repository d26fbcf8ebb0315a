-- ===== src/Ahrs/Compass/Extrema.antt =====
-- controller/src/ahrs_calibration.c, `mag_cal_note_sample`: the bounds of a calibration are the
-- least and the greatest reading of each axis.
use segling.Prelude.{◌≡◌, ◌⊎◌, inl, refl, sym, ap, subst₂, ◌∙◌, List, [], ◌∷◌, map, arith}
use segling.Prelude.Int.{ℤ, ◌≤ℤ◌}
use segling.Float.{F32}
use segling.Ahrs.State.{Axes, zip_axes, MagnetometerValue, Ahrs}
use segling.Ahrs.Calibration.{
  sample_axes, lower, raise, note_extrema, count_sample, mag_cal_note_sample,
}
use segling.Ahrs.Compass.{note_all}

abbrev pub All : (ℤ → Type 0) → List ℤ → Type 0
All P [] = Unit
All P (x ∷ xs) = P x × All P xs

abbrev pub Attained : ℤ → List ℤ → Type 0
Attained a [] = ⊥
Attained a (x ∷ xs) = (a ≡ x) ⊎ Attained a xs

-- `lo` is the least reading and `hi` the greatest.
abbrev pub IsExtrema : ℤ → ℤ → List ℤ → Type 0
IsExtrema lo hi xs = All (λ x. lo ≤ℤ x) xs × All (λ x. x ≤ℤ hi) xs × Attained lo xs × Attained hi xs

low_from : ℤ → List ℤ → ℤ
low_from m [] = m
low_from m (x ∷ xs) = low_from (lower x m) xs

high_from : ℤ → List ℤ → ℤ
high_from m [] = m
high_from m (x ∷ xs) = high_from (raise x m) xs

low_from-le : (m : ℤ) (xs : List ℤ) → low_from m xs ≤ℤ m
unfolding low_from lower
low_from-le m [] = omega arith
low_from-le m (x ∷ xs) = ground (arith, low_from-le (lower x m) xs)

le-high_from : (m : ℤ) (xs : List ℤ) → m ≤ℤ high_from m xs
unfolding high_from raise
le-high_from m [] = omega arith
le-high_from m (x ∷ xs) = ground (arith, le-high_from (raise x m) xs)

low_from-All : (m : ℤ) (xs : List ℤ) → All (λ x. low_from m xs ≤ℤ x) xs
unfolding low_from lower
low_from-All m [] = tt
low_from-All m (x ∷ xs) = (ground (arith, low_from-le (lower x m) xs), low_from-All (lower x m) xs)

high_from-All : (m : ℤ) (xs : List ℤ) → All (λ x. x ≤ℤ high_from m xs) xs
unfolding high_from raise
high_from-All m [] = tt
high_from-All m (x ∷ xs) =
    (ground (arith, le-high_from (raise x m) xs), high_from-All (raise x m) xs)

low_from-Attained : (m : ℤ) (xs : List ℤ) → (low_from m xs ≡ m) ⊎ Attained (low_from m xs) xs
unfolding low_from lower
low_from-Attained m [] = inl refl
low_from-Attained m (x ∷ xs) = ground (arith, low_from-Attained (lower x m) xs)

high_from-Attained : (m : ℤ) (xs : List ℤ) → (high_from m xs ≡ m) ⊎ Attained (high_from m xs) xs
unfolding high_from raise
high_from-Attained m [] = inl refl
high_from-Attained m (x ∷ xs) = ground (arith, high_from-Attained (raise x m) xs)

from-IsExtrema : (x : ℤ) (xs : List ℤ) → IsExtrema (low_from x xs) (high_from x xs) (x ∷ xs)
from-IsExtrema x xs = (
  (low_from-le x xs, low_from-All x xs),
  (le-high_from x xs, high_from-All x xs),
  low_from-Attained x xs,
  high_from-Attained x xs,
)

-- The bounds after the samples, axis by axis.
abbrev low_axes : Axes → List MagnetometerValue → Axes
low_axes a vs = record {
  x = low_from a.x (map (λ v. v.magnet_x) vs);
  y = low_from a.y (map (λ v. v.magnet_y) vs);
  z = low_from a.z (map (λ v. v.magnet_z) vs);
}

abbrev high_axes : Axes → List MagnetometerValue → Axes
high_axes a vs = record {
  x = high_from a.x (map (λ v. v.magnet_x) vs);
  y = high_from a.y (map (λ v. v.magnet_y) vs);
  z = high_from a.z (map (λ v. v.magnet_z) vs);
}

module _ {f : F32} (v : MagnetometerValue) (s : Ahrs f) where
  note_sample_first :
      s.mag_cal_have_bounds ≡ 0
      → let t = mag_cal_note_sample v s in
        (t.mag_cal_min ≡ sample_axes v)
        × (t.mag_cal_max ≡ sample_axes v)
        × (t.mag_cal_have_bounds ≡ 1)
  unfolding mag_cal_note_sample count_sample note_extrema
  note_sample_first h = ground arith

  note_sample_later :
      s.mag_cal_have_bounds ≡ 1
      → let t = mag_cal_note_sample v s in
        (t.mag_cal_min ≡ zip_axes lower (sample_axes v) s.mag_cal_min)
        × (t.mag_cal_max ≡ zip_axes raise (sample_axes v) s.mag_cal_max)
        × (t.mag_cal_have_bounds ≡ 1)
  unfolding mag_cal_note_sample count_sample note_extrema
  note_sample_later h = ground arith

note_all_bounds :
    {f : F32} (vs : List MagnetometerValue) (s : Ahrs f)
    → s.mag_cal_have_bounds ≡ 1
    → ((note_all vs s).mag_cal_min ≡ low_axes s.mag_cal_min vs)
      × ((note_all vs s).mag_cal_max ≡ high_axes s.mag_cal_max vs)
unfolding note_all low_from high_from
note_all_bounds [] s h = (refl, refl)
note_all_bounds (v ∷ vs) s h =
    let t = mag_cal_note_sample v s in
    let (low, high, bounded) = note_sample_later v s h in
    let rest = note_all_bounds vs t bounded in
    (rest.0 ∙ ap (λ a. low_axes a vs) low, rest.1 ∙ ap (λ a. high_axes a vs) high)

-- The least and greatest readings of all samples, on each axis.
abbrev pub AreExtrema : Axes → Axes → List MagnetometerValue → Type 0
AreExtrema lo hi vs =
    IsExtrema lo.x hi.x (map (λ v. v.magnet_x) vs)
    × IsExtrema lo.y hi.y (map (λ v. v.magnet_y) vs)
    × IsExtrema lo.z hi.z (map (λ v. v.magnet_z) vs)

pub note_all-AreExtrema :
    {f : F32} (v : MagnetometerValue) (vs : List MagnetometerValue) (s : Ahrs f)
    → s.mag_cal_have_bounds ≡ 0
    → let t = note_all (v ∷ vs) s in AreExtrema t.mag_cal_min t.mag_cal_max (v ∷ vs)
unfolding note_all
note_all-AreExtrema v vs s h =
    let (low, high, bounded) = note_sample_first v s h in
    let rest = note_all_bounds vs (mag_cal_note_sample v s) bounded in
    subst₂ (λ lo hi. AreExtrema lo hi (v ∷ vs)) (sym (rest.0 ∙ ap (λ a. low_axes a vs) low))
      (sym (rest.1 ∙ ap (λ a. high_axes a vs) high))
      (from-IsExtrema v.magnet_x _, from-IsExtrema v.magnet_y _, from-IsExtrema v.magnet_z _)
