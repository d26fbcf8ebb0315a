-- ===== src/Tests/Math.antt =====
-- The arithmetic of controller/src/utils.c at concrete inputs.
use segling.Prelude.{◌≡◌, ◌↔◌, refl, true, some, arith}
use segling.Prelude.Int.{pos, negsuc, ◌+ℤ◌, ◌-ℤ◌, ◌*ℤ◌, ◌≤ℤ◌, ◌<ℤ◌, shr15, to_i16, to_i32}
use segling.Float.{zero64, circle}
use segling.Math.{clamp_i16, clamp_i32, q15_one, float_to_q15, ema_blend_i16_q15, blend_num}
use segling.Math.Ema.{ema_floor, ema_stalls_iff}
use segling.Math.Angle.{normalize_deg_0_360}
use segling.Math.Angle.Laws.{normalize_range}
use segling.Tests.Floats.{millionths}
use segling.Tests.Doubles.{thousandths, thousandths_ieee}

-- 0.1 as the code converts it.
tenth : float_to_q15 millionths 100000 ≡ 3277
unfolding float_to_q15
tenth = refl

blended : ema_blend_i16_q15 (negsuc 99) (pos 1000) 3277 ≡ pos 10
unfolding ema_blend_i16_q15 blend_num clamp_i16 clamp_i32 ◌+ℤ◌ ◌-ℤ◌ ◌*ℤ◌ shr15 to_i16 to_i32
blended = refl

ema_floor_example :
    (pos q15_one *ℤ (ema_blend_i16_q15 (negsuc 99) (pos 1000) 3277 -ℤ negsuc 99)
      ≤ℤ pos 3277 *ℤ (pos 1000 -ℤ negsuc 99))
    × (pos 3277 *ℤ (pos 1000 -ℤ negsuc 99)
        <ℤ pos q15_one *ℤ (ema_blend_i16_q15 (negsuc 99) (pos 1000) 3277 -ℤ negsuc 99)
          +ℤ pos q15_one)
ema_floor_example = ema_floor (negsuc 99) (pos 1000) 3277 (omega arith) (omega arith) (omega arith)

ema_stalls_iff_example :
    (ema_blend_i16_q15 (pos 0) (pos 9) 3277 ≡ pos 0)
    ↔ (pos 0 ≤ℤ pos 3277 *ℤ (pos 9 -ℤ pos 0)) × (pos 3277 *ℤ (pos 9 -ℤ pos 0) <ℤ pos q15_one)
ema_stalls_iff_example =
    ema_stalls_iff (pos 0) (pos 9) 3277 (omega arith) (omega arith) (omega arith)

-- -0.5 degrees.
normalize_range_example :
    (thousandths.le (zero64 thousandths) (normalize_deg_0_360 thousandths (some (negsuc 499)))
      ≡ true)
    × (thousandths.lt (normalize_deg_0_360 thousandths (some (negsuc 499))) (circle thousandths)
        ≡ true)
normalize_range_example =
    normalize_range thousandths thousandths_ieee (some (negsuc 499)) (unfold ◌-ℤ◌ in refl) refl
