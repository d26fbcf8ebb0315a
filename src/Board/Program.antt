-- ===== src/Board/Program.antt =====
-- controller/cmd/main.c, `main`, on the board: the arguments, the initialisation and the loop.
use segling.Prelude.{ℕ, ◌+◌, ◌*◌, ◌%◌, ◌^◌, ◌≤◌, ◌≡◌, sym, ap, ◌∙◌, subst, List, arith}
use segling.Prelude.Int.{pos, ◌+ℤ◌}
use segling.Storage.{StorageResult, Storage}
use segling.Controller.{Controller, Enabled, controller_init}
use segling.Controller.Time.{total_ns, IsNormal}
use segling.Controller.Schedule.{Polite}
use segling.Controller.Lifecycle.{controller_init_lem}
use segling.Main.{parse_args, main_loop}
use segling.Main.Loop.{main_loop_schedule}
use segling.Board.{Platform, Machine, Integrations, board_world, board_services}
use segling.Board.Boot.{controller_init_on_board}

module _ (p : Platform) (integrations : Integrations p) (enabled : Enabled)
    (storage_deinit : Storage → Machine p → StorageResult × Storage × Machine p) where
  -- The arguments behind the program's name, and the first `n` rounds of the loop; `c` is what the
  -- stack holds. The call of `controller_deinit` behind the loop is never reached.
  unfoldable pub main : List (List ℕ) → ℕ → Controller → Machine p → Controller × Machine p
  main args n c m =
      let m1 : Machine p = record m {
        log = record m.log { log_level = parse_args args m.log.log_level };
      } in
      let (_, c1, m2) = controller_init (board_services p storage_deinit) c m1 in
      main_loop (board_world p integrations) enabled n c1 m2

  -- With integrations that leave the schedule to the controller, and a normal time in the memory that
  -- the controller gets: after `n` rounds the epoch is `n` modulo 2^64, whatever that memory held
  -- before, and the start of the next slot is still counted from the time that it held, by a
  -- whole number of slots, at least one and at most 16 for each round.
  pub main_lem :
      Polite (board_world p integrations)
      → (args : List (List ℕ)) (n : ℕ) (c : Controller) (m : Machine p)
      → IsNormal c.next_slot_start_time
      → let c' = (main args n c m).0 in
        (c'.epoch % 2 ^ 64 ≡ n % 2 ^ 64)
        × IsNormal c'.next_slot_start_time
        × ((slots : ℕ) × (n ≤ slots)
            × (slots ≤ 16 * n)
            × (total_ns c'.next_slot_start_time
                ≡ total_ns c.next_slot_start_time +ℤ pos (slots * 15000000)))
  unfolding main
  main_lem polite args n c m normal =
      let m1 : Machine p = record m {
        log = record m.log { log_level = parse_args args m.log.log_level };
      } in
      let services = board_services p storage_deinit in
      let (_, c1, m2) = controller_init services c m1 in
      let fresh = (controller_init_on_board p storage_deinit c m1 0).1 in
      let same = (controller_init_lem services c m1).0 in
      let (counted, good, (slots, least, most, moved)) =
        main_loop_schedule (board_world p integrations) enabled polite n c1 m2
          (subst IsNormal (sym same) normal) in
      (
        counted ∙ ap (λ e. (e + n) % 2 ^ 64) fresh ∙ ap (λ k. k % 2 ^ 64) (omega arith),
        good,
        (slots, least, most, moved ∙ ap (λ t. total_ns t +ℤ pos (slots * 15000000)) same),
      )
