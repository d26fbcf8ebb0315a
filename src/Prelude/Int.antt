-- ===== src/Prelude/Int.antt =====
-- Signed integers over the native numbers, and what the source uses of C's integer arithmetic:
-- truncating division, the arithmetic right shift, and the conversions that wrap.
-- An `int16_t`, `int32_t` or `int64_t` is the integer that it stands for.
use Prim.Native.Nat.{ℕ, suc, ◌+◌, ◌-◌, ◌*◌, ◌/◌, ◌%◌, ◌^◌, ◌≤◌, ◌<◌}
use mathlib.Core.Path.{◌≡◌}
use mathlib.Core.Bool.{Bool}
use mathlib.Core.Logic.{◌⊎◌}
use native.Mathlib.Omega.{arith}
use segling.Prelude.Tests.{ltb, leb, if◌then◌else◌}

-- `negsuc n` is -(n + 1).
pub data ℤ : Type 0 where
  pos : ℕ → ℤ
  negsuc : ℕ → ℤ

abbrev pub pos_part : ℤ → ℕ
pos_part (pos n) = n
pos_part (negsuc n) = 0

abbrev pub neg_part : ℤ → ℕ
neg_part (pos n) = 0
neg_part (negsuc n) = suc n

-- a - b, as an integer.
abbrev pub sub_ℕ : ℕ → ℕ → ℤ
sub_ℕ a b = if leb b a then pos (a - b) else negsuc (b - a - 1)

infixl 65 ◌+ℤ◌ ◌-ℤ◌
infixl 70 ◌*ℤ◌
infix 50 ◌≤ℤ◌ ◌<ℤ◌
unfoldable pub ◌+ℤ◌ : ℤ → ℤ → ℤ
a +ℤ b = sub_ℕ (pos_part a + pos_part b) (neg_part a + neg_part b)

unfoldable pub ◌-ℤ◌ : ℤ → ℤ → ℤ
a -ℤ b = sub_ℕ (pos_part a + neg_part b) (neg_part a + pos_part b)

unfoldable pub ◌*ℤ◌ : ℤ → ℤ → ℤ
a *ℤ b =
    sub_ℕ (pos_part a * pos_part b + neg_part a * neg_part b)
      (pos_part a * neg_part b + neg_part a * pos_part b)

-- -n, for a natural number n.
abbrev pub neg_ℕ : ℕ → ℤ
neg_ℕ n = sub_ℕ 0 n

-- C's `/`, which truncates towards zero. (A divisor of zero is undefined in C; here it gives 0.)
unfoldable pub quot : ℤ → ℤ → ℤ
quot (pos a) (pos b) = pos (a / b)
quot (pos a) (negsuc b) = neg_ℕ (a / suc b)
quot (negsuc a) (pos b) = neg_ℕ (suc a / b)
quot (negsuc a) (negsuc b) = pos (suc a / suc b)

-- The arithmetic shift `x >> 15`, which rounds down.
unfoldable pub shr15 : ℤ → ℤ
shr15 (pos a) = pos (a / 32768)
shr15 (negsuc a) = negsuc (a / 32768)

abbrev pub ◌≤ℤ◌ : ℤ → ℤ → Type 0
a ≤ℤ b = pos_part a + neg_part b ≤ pos_part b + neg_part a

abbrev pub ◌<ℤ◌ : ℤ → ℤ → Type 0
a <ℤ b = pos_part a + neg_part b < pos_part b + neg_part a

abbrev pub ltb_ℤ : ℤ → ℤ → Bool
ltb_ℤ a b = ltb (pos_part a + neg_part b) (pos_part b + neg_part a)

abbrev pub leb_ℤ : ℤ → ℤ → Bool
leb_ℤ a b = leb (pos_part a + neg_part b) (pos_part b + neg_part a)

-- The range of a w-bit two's complement integer.
abbrev pub InI16 : ℤ → Type 0
InI16 z = (neg_part z ≤ 2 ^ 15) × (pos_part z < 2 ^ 15)

abbrev pub InI32 : ℤ → Type 0
InI32 z = (neg_part z ≤ 2 ^ 31) × (pos_part z < 2 ^ 31)

abbrev pub InI64 : ℤ → Type 0
InI64 z = (neg_part z ≤ 2 ^ 63) × (pos_part z < 2 ^ 63)

-- The integer that a bit pattern of 16 bits, or 32, stands for.
abbrev pub signed16 : ℕ → ℤ
signed16 u = if ltb u (2 ^ 15) then pos u else negsuc (2 ^ 16 - 1 - u)

abbrev pub signed32 : ℕ → ℤ
signed32 u = if ltb u (2 ^ 31) then pos u else negsuc (2 ^ 32 - 1 - u)

-- The casts `(int16_t)` and `(int32_t)`, which wrap.
unfoldable pub to_i16 : ℤ → ℤ
to_i16 (pos n) = signed16 (n % 2 ^ 16)
to_i16 (negsuc n) = signed16 (2 ^ 16 - 1 - n % 2 ^ 16)

unfoldable pub to_i32 : ℤ → ℤ
to_i32 (pos n) = signed32 (n % 2 ^ 32)
to_i32 (negsuc n) = signed32 (2 ^ 32 - 1 - n % 2 ^ 32)

-- The conversion of an int32_t to uint32_t.
unfoldable pub to_u32 : ℤ → ℕ
to_u32 (pos n) = n % 2 ^ 32
to_u32 (negsuc n) = 2 ^ 32 - 1 - n % 2 ^ 32

-- One lemma for each operation lets `omega` work with the operations shut.
pub +ℤ_parts :
    (a b : ℤ)
    → pos_part (a +ℤ b) + neg_part a + neg_part b ≡ neg_part (a +ℤ b) + pos_part a + pos_part b
unfolding ◌+ℤ◌
+ℤ_parts a b = ground arith

pub -ℤ_parts :
    (a b : ℤ)
    → pos_part (a -ℤ b) + neg_part a + pos_part b ≡ neg_part (a -ℤ b) + pos_part a + neg_part b
unfolding ◌-ℤ◌
-ℤ_parts a b = ground arith

pub *ℤ_parts :
    (a b : ℤ)
    → pos_part (a *ℤ b) + (pos_part a * neg_part b + neg_part a * pos_part b)
      ≡ neg_part (a *ℤ b) + (pos_part a * pos_part b + neg_part a * neg_part b)
unfolding ◌*ℤ◌
*ℤ_parts a b = ground arith

-- No integer has both parts.
pub parts_disjoint : (a : ℤ) → (pos_part a ≡ 0) ⊎ (neg_part a ≡ 0)
parts_disjoint a = ground arith

pub eq_of_parts : (a b : ℤ) → pos_part a + neg_part b ≡ pos_part b + neg_part a → a ≡ b
eq_of_parts a b h = ground arith

pub lt_or_ge : (a b : ℤ) → (a <ℤ b) ⊎ (b ≤ℤ a)
lt_or_ge a b = omega arith

pub ruleset int_laws = (arith, +ℤ_parts, -ℤ_parts, parts_disjoint, eq_of_parts)

pub to_i16_of_InI16 : (z : ℤ) → InI16 z → to_i16 z ≡ z
unfolding to_i16
to_i16_of_InI16 (pos n) h = ground arith
to_i16_of_InI16 (negsuc n) h = ground arith

pub to_i16-InI16 : (z : ℤ) → InI16 (to_i16 z)
unfolding to_i16
to_i16-InI16 (pos n) = ground arith
to_i16-InI16 (negsuc n) = ground arith

pub to_i32_of_InI32 : (z : ℤ) → InI32 z → to_i32 z ≡ z
unfolding to_i32
to_i32_of_InI32 (pos n) h = ground arith
to_i32_of_InI32 (negsuc n) h = ground arith

pub to_i32-InI32 : (z : ℤ) → InI32 (to_i32 z)
unfolding to_i32
to_i32-InI32 (pos n) = ground arith
to_i32-InI32 (negsuc n) = ground arith

-- The shift is the floor of the quotient by 2 ^ 15.
pub shr15_bounds :
    (z : ℤ)
    → (32768 * pos_part (shr15 z) + neg_part z ≤ pos_part z + 32768 * neg_part (shr15 z))
      × (pos_part z + 32768 * neg_part (shr15 z) < 32768 * pos_part (shr15 z) + neg_part z + 32768)
unfolding shr15
shr15_bounds (pos a) = omega arith
shr15_bounds (negsuc a) = omega arith

pub mul_le_mul : (a b c d : ℕ) → a ≤ c → b ≤ d → a * b ≤ c * d
mul_le_mul a b c d h k = grind arith

-- Bounds of both factors bound a product.
pub *ℤ_bound :
    (a b : ℤ) (m n : ℕ)
    → pos_part a + neg_part a ≤ m
    → pos_part b + neg_part b ≤ n
    → pos_part (a *ℤ b) + neg_part (a *ℤ b) ≤ m * n
unfolding ◌*ℤ◌
*ℤ_bound (pos a) (pos b) m n h k = ground (arith, mul_le_mul a b m n)
*ℤ_bound (pos a) (negsuc b) m n h k = ground (arith, mul_le_mul a (suc b) m n)
*ℤ_bound (negsuc a) (pos b) m n h k = ground (arith, mul_le_mul (suc a) b m n)
*ℤ_bound (negsuc a) (negsuc b) m n h k = ground (arith, mul_le_mul (suc a) (suc b) m n)
