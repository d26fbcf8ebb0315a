-- ===== src/Main/OnTime.antt =====
-- controller/cmd/main.c: the program's loop on a machine that keeps time.
use segling.Prelude.{ℕ, zero, suc, ◌+◌, ◌*◌, ◌≡◌, arith}
use segling.Controller.{Controller, Enabled, World, controller_step}
use segling.Controller.Schedule.{Polite}
use segling.Controller.Reference.{of_ns}
use segling.Controller.Reference.OnTime.{Punctual, At, epoch_on_time}
use segling.Main.{main_loop}

module _ (world : World) (enabled : Enabled) (punctual : Punctual world)
    (polite : Polite world) where
  open world use {W}

  -- On a machine that keeps time, with integrations that leave the schedule to the controller, the loop
  -- never drifts: begun at the time of its first epoch, or up to 500 us late, it comes out of `n` rounds
  -- exactly `n` times 240 ms later, the next epoch's time, or up to 500 us behind it.
  pub main_loop_on_time :
      (n : ℕ) (c : Controller) (start : ℕ) (w : W)
      → c.next_slot_start_time ≡ of_ns start
      → At punctual start w
      → let (c', w') = main_loop world enabled n c w in
        (c'.next_slot_start_time ≡ of_ns (start + n * 240000000))
        × At punctual (start + n * 240000000) w'
  unfolding main_loop
  main_loop_on_time zero c start w at here =
      let same : start + 0 * 240000000 ≡ start = omega arith in rw same (at, here)
  main_loop_on_time (suc n) c start w at here =
      let (_, c1, w1) = controller_step world enabled c w in
      let (_, _, next, on_time, _) =
        epoch_on_time world enabled punctual polite c start w at here in
      let same : start + suc n * 240000000 ≡ start + 240000000 + n * 240000000 = omega arith in
      rw same (main_loop_on_time n c1 (start + 240000000) w1 next on_time)
