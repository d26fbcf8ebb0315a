-- ===== src/Tests/Floats.antt =====
-- A `float` for the tests: a number that is not negative, in millionths.
use segling.Prelude.{ℕ, ◌+◌, ◌*◌, ◌/◌, ◌%◌, ◌^◌, leb}
use segling.Float.{F32}

abbrev pub millionths : F32
millionths = record {
  F = ℕ;
  le = leb;
  add = λ a b. a + b;
  mul = λ a b. a * b / 1000000;
  of_decimal = λ m k. m * 1000000 / 10 ^ k;
  of_u32 = λ n. n * 1000000;
  to_u32 = λ a. a / 1000000 % 2 ^ 32;
}
