-- ===== src/Main.antt =====
-- controller/cmd/main.c: the arguments of the program, and its loop.
pub mod Loop
pub mod OnTime
pub mod Arguments
use segling.Prelude.{
  ℕ, zero, suc, Bool, true, false, ◌&&◌, ◌||◌, List, [], ◌∷◌, ◌==◌, if◌then◌else◌,
}
use segling.Logging.{log_level_debug}
use segling.Controller.{Controller, Enabled, World, controller_step}

-- `strcmp` with 0 as the result, on strings of bytes without their NUL.
unfoldable pub same_text : List ℕ → List ℕ → Bool
same_text [] [] = true
same_text (x ∷ xs) (y ∷ ys) = x == y && same_text xs ys
same_text _ _ = false

abbrev pub verbose_short : List ℕ
verbose_short = b'-' ∷ b'v' ∷ []

abbrev pub verbose_long : List ℕ
verbose_long = b'-' ∷ b'-' ∷ b'v' ∷ b'e' ∷ b'r' ∷ b'b' ∷ b'o' ∷ b's' ∷ b'e' ∷ []

-- The loop over the arguments behind the program's name, on `controller_config.log_level`.
unfoldable pub parse_args : List (List ℕ) → ℕ → ℕ
parse_args [] level = level
parse_args (arg ∷ args) level =
    parse_args args
      (if same_text arg verbose_short || same_text arg verbose_long then log_level_debug else level)

module _ (world : World) (enabled : Enabled) where
  open world use {W}

  -- The first `n` rounds of the endless loop; the result of a step is dropped.
  unfoldable pub main_loop : ℕ → Controller → W → Controller × W
  main_loop zero c w = (c, w)
  main_loop (suc n) c w = let (_, c1, w1) = controller_step world enabled c w in main_loop n c1 w1
