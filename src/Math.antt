-- ===== src/Math.antt =====
-- controller/src/utils.c and controller/include/utils/math.h: the integer helpers. Signed
-- arithmetic is exact here, and the casts to narrower types wrap.
pub mod Clamp
pub mod Ema
pub mod Angle
use segling.Prelude.{ℕ, ◌-◌, ◌*◌, ltb, leb, if◌then◌else◌}
use segling.Prelude.Int.{ℤ, pos, negsuc, ◌+ℤ◌, ◌-ℤ◌, ◌*ℤ◌, ltb_ℤ, shr15, to_i16, to_i32}
use segling.Float.{F32}

-- MATH_Q15_ONE
abbrev pub q15_one : ℕ
q15_one = 32768

-- MATH_Q15_MAX
abbrev pub q15_max : ℕ
q15_max = 32767

unfoldable pub clamp_i32 : ℤ → ℤ → ℤ → ℤ
clamp_i32 v min max = if ltb_ℤ max v then max else if ltb_ℤ v min then min else v

-- INT16_MIN and INT16_MAX
abbrev pub i16_min : ℤ
i16_min = negsuc 32767

abbrev pub i16_max : ℤ
i16_max = pos 32767

unfoldable pub clamp_i16 : ℤ → ℤ
unfolding clamp_i32
clamp_i16 v = to_i16 (clamp_i32 v i16_min i16_max)

-- A NaN fails both tests, so it goes the way of the values between 0 and 1.
unfoldable pub float_to_q15 : (f : F32) → f.F → ℕ
float_to_q15 f v =
    if f.le v (f.of_decimal 0 0)
    then 1
    else if f.le (f.of_decimal 1 0) v
    then q15_max
    else let result = f.to_u32 (f.add (f.mul v (f.of_u32 q15_one)) (f.of_decimal 5 1)) in
      if ltb result 1 then 1 else if ltb q15_max result then q15_max else result

-- The numerator of the blend, an int64_t.
unfoldable pub blend_num : ℤ → ℤ → ℕ → ℤ
blend_num cur raw alpha_q15 = raw *ℤ pos alpha_q15 +ℤ cur *ℤ (pos q15_one -ℤ pos alpha_q15)

unfoldable pub ema_blend_i16_q15 : ℤ → ℤ → ℕ → ℤ
unfolding blend_num
ema_blend_i16_q15 cur raw alpha_q15 = clamp_i16 (to_i32 (shr15 (blend_num cur raw alpha_q15)))
