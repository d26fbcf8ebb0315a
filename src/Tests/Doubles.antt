-- ===== src/Tests/Doubles.antt =====
-- A `double` for the tests: an integer in thousandths, or a NaN, with the facts that the theorems
-- use of IEEE 754.
use segling.Prelude.{
  ℕ, ◌*◌, ◌/◌, ◌%◌, ◌^◌, ◌≡◌, leb→le, le→leb, ap, refl, Bool, true, false, ◌&&◌, not, Option, none,
  some, ◌==◌, if◌then◌else◌, arith,
}
use segling.Prelude.Int.{ℤ, pos, ◌+ℤ◌, ◌-ℤ◌, ◌*ℤ◌, quot, ltb_ℤ, leb_ℤ, int_laws, eq_of_parts}
use segling.Float.{F64, Ieee}

abbrev compare_with : (ℤ → ℤ → Bool) → Option ℤ → Option ℤ → Bool
compare_with test (some a) (some b) = test a b
compare_with test _ _ = false

abbrev both : (ℤ → ℤ → ℤ) → Option ℤ → Option ℤ → Option ℤ
both op (some a) (some b) = some (op a b)
both op _ _ = none

abbrev neg_value : Option ℤ → Option ℤ
neg_value none = none
neg_value (some a) = some (pos 0 -ℤ a)

abbrev decode : ℕ → Option ℤ
decode n = if n / 2 ^ 52 % 2 ^ 11 == 2047 && not (n % 2 ^ 52 == 0) then none else some (pos 0)

abbrev pub thousandths : F64
thousandths = record {
  D = Option ℤ;
  lt = compare_with ltb_ℤ;
  le = compare_with leb_ℤ;
  eq = compare_with (λ a b. leb_ℤ a b && leb_ℤ b a);
  add = both ◌+ℤ◌;
  sub = both ◌-ℤ◌;
  mul = both (λ a b. quot (a *ℤ b) (pos 1000));
  div = both (λ a b. quot (a *ℤ pos 1000) b);
  neg = neg_value;
  of_decimal = λ m k. some (pos (m * 1000 / 10 ^ k));
  of_int = λ z. some (z *ℤ pos 1000);
  of_bits = decode;
}

abbrev d : F64
d = thousandths

neg_neg : (x : Option ℤ) → neg_value (neg_value x) ≡ x
neg_neg none = refl
neg_neg (some a) = ap some (eq_of_parts _ _ (omega int_laws))

le_trans : (x y z : Option ℤ) → d.le x y ≡ true → d.le y z ≡ true → d.le x z ≡ true
le_trans x y z h k = ground arith

lt_of_le_lt : (x y z : Option ℤ) → d.le x y ≡ true → d.lt y z ≡ true → d.lt x z ≡ true
lt_of_le_lt x y z h k = ground arith

lt_of_lt_le : (x y z : Option ℤ) → d.lt x y ≡ true → d.le y z ≡ true → d.lt x z ≡ true
lt_of_lt_le x y z h k = ground arith

le_of_lt : (x y : Option ℤ) → d.lt x y ≡ true → d.le x y ≡ true
le_of_lt x y h = ground arith

le_ordered : (x y : Option ℤ) → d.le x y ≡ true → (d.eq x x ≡ true) × (d.eq y y ≡ true)
le_ordered x y h = ground arith

le_of_not_lt :
    (x y : Option ℤ) → d.eq x x ≡ true → d.eq y y ≡ true → d.lt x y ≡ false → d.le y x ≡ true
le_of_not_lt x y h k l = ground arith

lt_of_not_le :
    (x y : Option ℤ) → d.eq x x ≡ true → d.eq y y ≡ true → d.le x y ≡ false → d.lt y x ≡ true
lt_of_not_le x y h k l = ground arith

lt_asymm : (x y : Option ℤ) → d.lt x y ≡ true → d.lt y x ≡ false
lt_asymm x y h = ground arith

ne_of_lt : (x y : Option ℤ) → d.lt x y ≡ true → (d.eq x y ≡ false) × (d.eq y x ≡ false)
ne_of_lt x y h = ground arith

add_circle_mono :
    (a b : Option ℤ)
    → d.le a b ≡ true
    → d.le (d.add a (some (pos 360000))) (d.add b (some (pos 360000))) ≡ true
add_circle_mono (some a) (some b) h = le→leb _ _ (omega (int_laws, leb→le _ _ h))
add_circle_mono none b h = ground arith
add_circle_mono (some a) none h = ground arith

sub_circle_mono :
    (a b : Option ℤ)
    → d.le a b ≡ true
    → d.le (d.sub a (some (pos 360000))) (d.sub b (some (pos 360000))) ≡ true
sub_circle_mono (some a) (some b) h = le→leb _ _ (omega (int_laws, leb→le _ _ h))
sub_circle_mono none b h = ground arith
sub_circle_mono (some a) none h = ground arith

some_ordered : (a : ℤ) → d.eq (some a) (some a) ≡ true
some_ordered a = ground arith

op_ordered :
    (op : ℤ → ℤ → ℤ) (x : Option ℤ) (b : ℤ)
    → d.eq x x ≡ true
    → d.eq (both op x (some b)) (both op x (some b)) ≡ true
op_ordered op none b h = ground arith
op_ordered op (some a) b h = some_ordered (op a b)

lt-neg_zero : (x : Option ℤ) → d.lt (neg_value x) (some (pos 0)) ≡ d.lt (some (pos 0)) x
unfolding ◌-ℤ◌
lt-neg_zero none = refl
lt-neg_zero (some a) = ground arith

eq-neg_zero : (x : Option ℤ) → d.eq (neg_value x) (some (pos 0)) ≡ d.eq x (some (pos 0))
unfolding ◌-ℤ◌
eq-neg_zero none = refl
eq-neg_zero (some a) = ground arith

pub thousandths_ieee : Ieee thousandths
unfolding ◌+ℤ◌ ◌-ℤ◌
thousandths_ieee = record {
  zero_ordered = refl;
  le_ordered = le_ordered;
  le_of_not_lt = le_of_not_lt;
  lt_of_not_le = lt_of_not_le;
  le_of_lt = le_of_lt;
  le_trans = le_trans;
  lt_of_le_lt = lt_of_le_lt;
  lt_of_lt_le = lt_of_lt_le;
  add_circle_mono = add_circle_mono;
  sub_circle_mono = sub_circle_mono;
  scale_ordered = λ x. op_ordered _ x _;
  add_circle_ordered = λ x. op_ordered _ x _;
  sub_circle_ordered = λ x. op_ordered _ x _;
  zero_add_circle = refl;
  neg_circle_add = refl;
  circle_sub = refl;
  two_circles_sub = refl;
  circle_pos = refl;
  circle_lt_two = refl;
  neg_neg = neg_neg;
  lt-neg_zero = lt-neg_zero;
  eq-neg_zero = eq-neg_zero;
  lt_asymm = lt_asymm;
  ne_of_lt = ne_of_lt;
}
