-- ===== src/Math/Ema.antt =====
-- controller/src/utils.c, `ema_blend_i16_q15`: the moving average in Q15.
use segling.Prelude.{ℕ, zero, suc, ◌+◌, ◌*◌, ◌-◌, ◌≤◌, ◌<◌, ◌^◌, ◌≡◌, ◌↔◌, inl, inr, ◌∙◌, ap, arith}
use segling.Prelude.Int.{
  ℤ, pos, pos_part, neg_part, ◌+ℤ◌, ◌-ℤ◌, ◌*ℤ◌, ◌≤ℤ◌, ◌<ℤ◌, InI16, InI64, *ℤ_bound, shr15,
  shr15_bounds, int_laws, +ℤ_parts, -ℤ_parts, *ℤ_parts, eq_of_parts, parts_disjoint, lt_or_ge,
  to_i32, to_i32_of_InI32,
}
use segling.Math.{q15_one, i16_min, i16_max, clamp_i16, blend_num, ema_blend_i16_q15}
use segling.Math.Clamp.{clamp_i16_of_InI16, clamp_i16-InI16}

rest_weight : (alpha : ℕ) → alpha ≤ q15_one → pos q15_one -ℤ pos alpha ≡ pos (q15_one - alpha)
rest_weight alpha h = omega int_laws

-- The numerator is raw * alpha + cur * (2^15 - alpha).
blend_num_parts :
    (cur raw : ℤ) (alpha : ℕ)
    → alpha ≤ q15_one
    → pos_part (blend_num cur raw alpha) + (neg_part raw * alpha + neg_part cur * (q15_one - alpha))
      ≡ neg_part (blend_num cur raw alpha)
        + (pos_part raw * alpha + pos_part cur * (q15_one - alpha))
unfolding blend_num
blend_num_parts cur raw alpha h =
    rw (rest_weight alpha h)
      (omega (arith, +ℤ_parts, *ℤ_parts raw (pos alpha), *ℤ_parts cur (pos (q15_one - alpha))))

split_weight : (a alpha : ℕ) → alpha ≤ q15_one → a * alpha + a * (q15_one - alpha) ≡ 32768 * a
split_weight a alpha h =
    let e : alpha + (q15_one - alpha) ≡ q15_one = omega arith in
    omega (arith, ap (λ (t : ℕ). a * t) e)

-- alpha * (raw - cur), as the difference of products of numbers.
scaled_difference :
    (cur raw : ℤ) (alpha : ℕ)
    → pos_part (pos alpha *ℤ (raw -ℤ cur)) + alpha * (neg_part raw + pos_part cur)
      ≡ neg_part (pos alpha *ℤ (raw -ℤ cur)) + alpha * (pos_part raw + neg_part cur)
scaled_difference cur raw alpha =
    omega (arith, *ℤ_parts (pos alpha) (raw -ℤ cur), ap (λ (t : ℕ). alpha * t) (-ℤ_parts raw cur))

mul_mono : (a b k : ℕ) → a ≤ b → a * k ≤ b * k
mul_mono a b k h = grind arith

-- A bound of both readings bounds the shifted numerator.
shr15-blend_num_ge :
    (cur raw lo : ℤ) (alpha : ℕ)
    → alpha ≤ q15_one
    → lo ≤ℤ cur
    → lo ≤ℤ raw
    → lo ≤ℤ shr15 (blend_num cur raw alpha)
shr15-blend_num_ge cur raw lo alpha h hc hr = omega (
  arith,
  blend_num_parts cur raw alpha h,
  shr15_bounds (blend_num cur raw alpha),
  mul_mono (pos_part lo + neg_part cur) (pos_part cur + neg_part lo) (q15_one - alpha) hc,
  mul_mono (pos_part lo + neg_part raw) (pos_part raw + neg_part lo) alpha hr,
  split_weight (pos_part lo) alpha h,
  split_weight (neg_part lo) alpha h,
)

shr15-blend_num_le :
    (cur raw hi : ℤ) (alpha : ℕ)
    → alpha ≤ q15_one
    → cur ≤ℤ hi
    → raw ≤ℤ hi
    → shr15 (blend_num cur raw alpha) ≤ℤ hi
shr15-blend_num_le cur raw hi alpha h hc hr = omega (
  arith,
  blend_num_parts cur raw alpha h,
  shr15_bounds (blend_num cur raw alpha),
  mul_mono (pos_part cur + neg_part hi) (pos_part hi + neg_part cur) (q15_one - alpha) hc,
  mul_mono (pos_part raw + neg_part hi) (pos_part hi + neg_part raw) alpha hr,
  split_weight (pos_part hi) alpha h,
  split_weight (neg_part hi) alpha h,
)

module _ (cur raw : ℤ) (alpha : ℕ) (h : alpha ≤ q15_one) (hc : InI16 cur) (hr : InI16 raw) where
  shr15-blend_num-InI16 : InI16 (shr15 (blend_num cur raw alpha))
  shr15-blend_num-InI16 = omega (
    int_laws,
    shr15-blend_num_ge cur raw i16_min alpha h (omega int_laws) (omega int_laws),
    shr15-blend_num_le cur raw i16_max alpha h (omega int_laws) (omega int_laws),
    parts_disjoint (shr15 (blend_num cur raw alpha)),
  )

  -- Neither the cast to int32_t nor the clamp changes the shifted numerator.
  pub ema-eq-shr15 : ema_blend_i16_q15 cur raw alpha ≡ shr15 (blend_num cur raw alpha)
  unfolding ema_blend_i16_q15
  ema-eq-shr15 =
      let fits = shr15-blend_num-InI16 in
      ap clamp_i16 (to_i32_of_InI32 (shr15 (blend_num cur raw alpha)) (omega arith))
      ∙ clamp_i16_of_InI16 (shr15 (blend_num cur raw alpha)) fits

  -- The average of two int16_t readings with a weight of at most 2^15 is the header's
  -- cur + alpha * (raw - cur), rounded down: 2^15 times it is at most 2^15 * cur +
  -- alpha * (raw - cur), and less than 2^15 below that.
  pub ema_floor :
      let e = ema_blend_i16_q15 cur raw alpha in
      (pos q15_one *ℤ (e -ℤ cur) ≤ℤ pos alpha *ℤ (raw -ℤ cur))
      × (pos alpha *ℤ (raw -ℤ cur) <ℤ pos q15_one *ℤ (e -ℤ cur) +ℤ pos q15_one)
  ema_floor = rw ema-eq-shr15 (
      omega (
        arith,
        +ℤ_parts,
        -ℤ_parts,
        *ℤ_parts (pos q15_one) (shr15 (blend_num cur raw alpha) -ℤ cur),
        scaled_difference cur raw alpha,
        blend_num_parts cur raw alpha h,
        shr15_bounds (blend_num cur raw alpha),
        split_weight (pos_part cur) alpha h,
        split_weight (neg_part cur) alpha h,
      ))

  -- The average of two int16_t readings with a weight of at most 2^15 stays where it is exactly where alpha * (raw - cur) lies in [0, 2^15).
  pub ema_stalls_iff :
      (ema_blend_i16_q15 cur raw alpha ≡ cur)
      ↔ (pos 0 ≤ℤ pos alpha *ℤ (raw -ℤ cur)) × (pos alpha *ℤ (raw -ℤ cur) <ℤ pos q15_one)
  ema_stalls_iff =
      let floor = ema_floor in
      let product = *ℤ_parts (pos q15_one) (ema_blend_i16_q15 cur raw alpha -ℤ cur) in
      (
        λ e. omega (arith, +ℤ_parts, -ℤ_parts, product, ap pos_part e, ap neg_part e),
        λ small. eq_of_parts _ _ (omega (arith, +ℤ_parts, -ℤ_parts, product)),
      )

-- The average stays between any bounds that hold of both readings.
pub ema_between :
    (cur raw lo hi : ℤ) (alpha : ℕ)
    → alpha ≤ q15_one
    → InI16 cur
    → InI16 raw
    → lo ≤ℤ cur
    → lo ≤ℤ raw
    → cur ≤ℤ hi
    → raw ≤ℤ hi
    → (lo ≤ℤ ema_blend_i16_q15 cur raw alpha) × (ema_blend_i16_q15 cur raw alpha ≤ℤ hi)
ema_between cur raw lo hi alpha h hc hr lc lr ch rh =
    rw (ema-eq-shr15 cur raw alpha h hc hr)
      (shr15-blend_num_ge cur raw lo alpha h lc lr, shr15-blend_num_le cur raw hi alpha h ch rh)

-- A reading below the average lowers it by at least one, and not past the reading.
pub ema_descends :
    (cur raw : ℤ) (alpha : ℕ)
    → 1 ≤ alpha
    → alpha ≤ q15_one
    → InI16 cur
    → InI16 raw
    → raw <ℤ cur
    → (raw ≤ℤ ema_blend_i16_q15 cur raw alpha) × (ema_blend_i16_q15 cur raw alpha <ℤ cur)
ema_descends cur raw alpha h1 h hc hr below = (
  (ema_between cur raw raw cur alpha h hc hr (omega arith) (omega arith) (omega arith)
      (omega arith)).0,
  omega (
    arith,
    +ℤ_parts,
    -ℤ_parts,
    *ℤ_parts (pos q15_one) (ema_blend_i16_q15 cur raw alpha -ℤ cur),
    ema_floor cur raw alpha h hc hr,
    scaled_difference cur raw alpha,
    mul_mono (suc (pos_part raw + neg_part cur)) (pos_part cur + neg_part raw) alpha below,
  ),
)

-- The average is an int16_t whatever it is given.
pub ema-InI16 : (cur raw : ℤ) (alpha : ℕ) → InI16 (ema_blend_i16_q15 cur raw alpha)
unfolding ema_blend_i16_q15
ema-InI16 cur raw alpha = clamp_i16-InI16 (to_i32 (shr15 (blend_num cur raw alpha)))

-- The average after n further readings of one value, as the updates compute it.
pub ema_steady : ℕ → ℤ → ℤ → ℕ → ℤ
ema_steady zero cur raw alpha = cur
ema_steady (suc n) cur raw alpha = ema_steady n (ema_blend_i16_q15 cur raw alpha) raw alpha

-- An average above a steady reading reaches the reading exactly, in as many readings as it is above
-- it or more, and stays there.
pub ema_steady_settles :
    (n : ℕ) (cur raw : ℤ) (alpha : ℕ)
    → 1 ≤ alpha
    → alpha ≤ q15_one
    → InI16 cur
    → InI16 raw
    → raw ≤ℤ cur
    → cur -ℤ raw ≤ℤ pos n
    → ema_steady n cur raw alpha ≡ raw
unfolding ema_steady
ema_steady_settles zero cur raw alpha h1 h hc hr above near = omega int_laws
ema_steady_settles (suc n) cur raw alpha h1 h hc hr above near =
    let next = ema_blend_i16_q15 cur raw alpha in
    let between =
      ema_between cur raw raw cur alpha h hc hr above (omega arith) (omega arith) above in
    ema_steady_settles n next raw alpha h1 h (ema-InI16 cur raw alpha) hr between.0
      (elim (lt_or_ge raw cur) [
        | inl below ↦ omega (arith, -ℤ_parts, ema_descends cur raw alpha h1 h hc hr below)
        | inr level ↦ omega (arith, -ℤ_parts)
      ])

-- No step of the numerator overflows its int64_t, for any weight that a uint32_t can hold.
pub blend_num_fits :
    (cur raw : ℤ) (alpha : ℕ)
    → InI16 cur
    → InI16 raw
    → alpha < 2 ^ 32
    → InI64 (raw *ℤ pos alpha)
      × InI64 (cur *ℤ (pos q15_one -ℤ pos alpha))
      × InI64 (blend_num cur raw alpha)
unfolding blend_num
blend_num_fits cur raw alpha hc hr h =
    let old =
      *ℤ_bound cur (pos q15_one -ℤ pos alpha) (2 ^ 16) (2 ^ 33) (omega int_laws) (omega int_laws) in
    let new = *ℤ_bound raw (pos alpha) (2 ^ 16) (2 ^ 32) (omega int_laws) (omega int_laws) in
    (omega arith, omega arith, omega int_laws)
