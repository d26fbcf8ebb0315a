-- ===== src/Main/Loop.antt =====
-- controller/cmd/main.c: the schedule over the rounds of the program's loop.
use segling.Prelude.{ℕ, zero, suc, ◌+◌, ◌*◌, ◌%◌, ◌^◌, ◌≤◌, ◌≡◌, ap, arith}
use segling.Prelude.Int.{pos, pos_part, neg_part, ◌+ℤ◌, int_laws, eq_of_parts}
use segling.Controller.{Controller, Enabled, World, controller_step}
use segling.Controller.Time.{total_ns, IsNormal}
use segling.Controller.Schedule.{Polite, controller_step_schedule}
use segling.Main.{main_loop}

module _ (world : World) (enabled : Enabled) (polite : Polite world) where
  open world use {W}

  -- From a schedule with a normal time, and with integrations that leave the schedule to the
  -- controller, `n` rounds of the loop count `n` epochs modulo 2^64 and move the start of the next
  -- slot on by a whole number of slots of 15 ms, at least one and at most 16 for each round, whatever
  -- the clock, the sleep and the integrations do.
  pub main_loop_schedule :
      (n : ℕ) (c : Controller) (w : W)
      → IsNormal c.next_slot_start_time
      → let c' = (main_loop world enabled n c w).0 in
        (c'.epoch % 2 ^ 64 ≡ (c.epoch + n) % 2 ^ 64)
        × IsNormal c'.next_slot_start_time
        × ((slots : ℕ) × (n ≤ slots)
            × (slots ≤ 16 * n)
            × (total_ns c'.next_slot_start_time
                ≡ total_ns c.next_slot_start_time +ℤ pos (slots * 15000000)))
  unfolding main_loop
  main_loop_schedule zero c w normal =
      (omega arith, normal, (0, omega arith, omega arith, eq_of_parts _ _ (omega int_laws)))
  main_loop_schedule (suc n) c w normal =
      let (result, c1, w1) = controller_step world enabled c w in
      let (epoch, normal1, few, start, _) =
        controller_step_schedule world enabled polite c w normal in
      let (epoch', normal', (slots, least, most, start')) = main_loop_schedule n c1 w1 normal1 in
      (
        omega arith,
        normal',
        (
          slots + (c1.current_slot + 1),
          omega arith,
          omega arith,
          eq_of_parts _ _ (
              omega (
                int_laws,
                ap pos_part start,
                ap neg_part start,
                ap pos_part start',
                ap neg_part start',
              )),
        ),
      )
