-- ===== src/Math/Clamp.antt =====
-- controller/src/utils.c: what the clamps and the conversion to Q15 give.
use segling.Prelude.{◌≤◌, ◌≡◌, ◌⊎◌, ◌∙◌, arith}
use segling.Prelude.Int.{ℤ, ◌≤ℤ◌, ◌<ℤ◌, InI16, int_laws, to_i16_of_InI16}
use segling.Float.{F32}
use segling.Math.{clamp_i32, clamp_i16, i16_min, i16_max, float_to_q15, q15_max}

-- Where the range is not empty the clamp lies in it, and is the value of it nearest to v: v itself,
-- or the bound on the side where v lies outside.
pub clamp_i32_lem :
    (v min max : ℤ)
    → min ≤ℤ max
    → (min ≤ℤ clamp_i32 v min max)
      × (clamp_i32 v min max ≤ℤ max)
      × ((clamp_i32 v min max ≡ v)
          ⊎ ((clamp_i32 v min max ≡ min) × (v <ℤ min) ⊎ (clamp_i32 v min max ≡ max) × (max <ℤ v)))
unfolding clamp_i32
clamp_i32_lem v min max h = ground arith

-- A value in the range is kept.
pub clamp_i32_of_le : (v min max : ℤ) → min ≤ℤ v → v ≤ℤ max → clamp_i32 v min max ≡ v
unfolding clamp_i32
clamp_i32_of_le v min max a b = ground arith

pub clamp_i16_eq : (v : ℤ) → clamp_i16 v ≡ clamp_i32 v i16_min i16_max
unfolding clamp_i16
clamp_i16_eq v =
    to_i16_of_InI16 (clamp_i32 v i16_min i16_max)
      (omega (int_laws, clamp_i32_lem v i16_min i16_max))

-- `clamp_i16` gives an int16_t.
pub clamp_i16-InI16 : (v : ℤ) → InI16 (clamp_i16 v)
clamp_i16-InI16 v = rw (clamp_i16_eq v) (omega (int_laws, clamp_i32_lem v i16_min i16_max))

-- An int16_t is kept.
pub clamp_i16_of_InI16 : (v : ℤ) → InI16 v → clamp_i16 v ≡ v
clamp_i16_of_InI16 v h =
    clamp_i16_eq v ∙ clamp_i32_of_le v i16_min i16_max (omega int_laws) (omega int_laws)

-- The weight lies in [1, MATH_Q15_MAX], whatever the arithmetic of `float` gives.
pub float_to_q15_bounds :
    (f : F32) (v : f.F) → (1 ≤ float_to_q15 f v) × (float_to_q15 f v ≤ q15_max)
unfolding float_to_q15
float_to_q15_bounds f v = ground arith
