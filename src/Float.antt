-- ===== src/Float.antt =====
-- The floating-point types of the controller, `float` and `double`. The arithmetic is the
-- machine's: a value of these records is an implementation of it, and the source's functions take
-- one as a parameter. A decimal constant of the source, such as 0.1963, is `of_decimal 1963 4`.
use segling.Prelude.{ℕ, ◌≡◌, Bool, true, false}
use segling.Prelude.Int.{ℤ}

-- What the source uses of `float`.
pub record F32 : Type 1 where
  pub F : Type 0
  pub le : F → F → Bool
  pub add : F → F → F
  pub mul : F → F → F
  pub of_decimal : ℕ → ℕ → F
  pub of_u32 : ℕ → F
  -- the cast `(uint32_t)`; what it gives outside the range of uint32_t is the target's choice
  pub to_u32 : F → ℕ

-- What the source uses of `double`.
pub record F64 : Type 1 where
  pub D : Type 0
  pub lt : D → D → Bool
  pub le : D → D → Bool
  pub eq : D → D → Bool
  pub add : D → D → D
  pub sub : D → D → D
  pub mul : D → D → D
  pub div : D → D → D
  pub neg : D → D
  pub of_decimal : ℕ → ℕ → D
  -- the cast from int16_t
  pub of_int : ℤ → D
  -- the double with these 64 bits, as `memcpy` makes it
  pub of_bits : ℕ → D

-- A double that equals itself: every value but a NaN.
abbrev pub Ordered : (d : F64) → d.D → Type 0
Ordered d x = d.eq x x ≡ true

abbrev pub zero64 : (d : F64) → d.D
zero64 d = d.of_decimal 0 0

-- MATH_DEG_PER_CIRCLE, 360.0
abbrev pub circle : (d : F64) → d.D
circle d = d.of_decimal 3600 1

-- MATH_RAD_TO_DEG, 180.0 / MATH_PI
abbrev pub degrees_per_radian : (d : F64) → d.D
degrees_per_radian d = d.div (d.of_decimal 1800 1) (d.of_decimal 314159265358979323846 20)

-- The facts of IEEE 754 arithmetic that the theorems use. Adding one number to both sides keeps
-- an order, since rounding is monotone; the sums and differences with 360 that are named are exact.
pub record Ieee (d : F64) : Type 0 where
  pub zero_ordered : Ordered d (zero64 d)
  pub le_ordered : (x y : d.D) → d.le x y ≡ true → Ordered d x × Ordered d y
  pub le_of_not_lt : (x y : d.D) → Ordered d x → Ordered d y → d.lt x y ≡ false → d.le y x ≡ true
  pub lt_of_not_le : (x y : d.D) → Ordered d x → Ordered d y → d.le x y ≡ false → d.lt y x ≡ true
  pub le_of_lt : (x y : d.D) → d.lt x y ≡ true → d.le x y ≡ true
  pub le_trans : (x y z : d.D) → d.le x y ≡ true → d.le y z ≡ true → d.le x z ≡ true
  pub lt_of_le_lt : (x y z : d.D) → d.le x y ≡ true → d.lt y z ≡ true → d.lt x z ≡ true
  pub lt_of_lt_le : (x y z : d.D) → d.lt x y ≡ true → d.le y z ≡ true → d.lt x z ≡ true
  pub add_circle_mono :
      (a b : d.D) → d.le a b ≡ true → d.le (d.add a (circle d)) (d.add b (circle d)) ≡ true
  pub sub_circle_mono :
      (a b : d.D) → d.le a b ≡ true → d.le (d.sub a (circle d)) (d.sub b (circle d)) ≡ true
  pub scale_ordered : (x : d.D) → Ordered d x → Ordered d (d.mul x (degrees_per_radian d))
  pub add_circle_ordered : (x : d.D) → Ordered d x → Ordered d (d.add x (circle d))
  pub sub_circle_ordered : (x : d.D) → Ordered d x → Ordered d (d.sub x (circle d))
  pub zero_add_circle : d.add (zero64 d) (circle d) ≡ circle d
  pub neg_circle_add : d.add (d.neg (circle d)) (circle d) ≡ zero64 d
  pub circle_sub : d.sub (circle d) (circle d) ≡ zero64 d
  pub two_circles_sub : d.sub (d.of_decimal 7200 1) (circle d) ≡ circle d
  pub circle_pos : d.lt (zero64 d) (circle d) ≡ true
  pub circle_lt_two : d.lt (circle d) (d.of_decimal 7200 1) ≡ true
  pub neg_neg : (x : d.D) → d.neg (d.neg x) ≡ x
  pub lt-neg_zero : (x : d.D) → d.lt (d.neg x) (zero64 d) ≡ d.lt (zero64 d) x
  pub eq-neg_zero : (x : d.D) → d.eq (d.neg x) (zero64 d) ≡ d.eq x (zero64 d)
  pub lt_asymm : (x y : d.D) → d.lt x y ≡ true → d.lt y x ≡ false
  pub ne_of_lt : (x y : d.D) → d.lt x y ≡ true → (d.eq x y ≡ false) × (d.eq y x ≡ false)
