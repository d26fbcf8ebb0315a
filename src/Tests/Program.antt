-- ===== src/Tests/Program.antt =====
-- The program on the board, its arguments and the mapping of a file, at concrete inputs.

use segling.Prelude.{
  ℕ, ◌+◌, ◌*◌, ◌%◌, ◌^◌, ◌≤◌, ◌≡◌, inl, inr, refl, Bool, true, false, Bool-cases, ◌&&◌,
  if◌then◌else◌, some, none, List, [], ◌∷◌, ◌==◌, arith,
}
use segling.Prelude.Int.{pos, ◌+ℤ◌}
use segling.Comms.Sim.Calls.{g_sim}
use segling.Storage.{StorageResult, Storage, Mapping}
use segling.Storage.Mapped.{DescriptorLaws}
use segling.Controller.{Handler, controller_step}
use segling.Controller.Time.{total_ns, IsNormal}
use segling.Controller.Schedule.{Polite}
use segling.Controller.Reference.{plan_slots, report, jitters, shared_of}
use segling.Controller.Reference.Equivalence.{controller_step_refines}
use segling.Board.{Platform, Machine, Integrations, board_world}
use segling.Board.Epoch.{Quiet, with_late, controller_step_logs_late_slots}
use segling.Board.Program.{main, main_lem}
use segling.Tests.Board.{clockwork, ahrs_only, clockwork-Polite, at_boot}
use segling.Tests.Files.{one_file}

controller_step_refines_example :
    controller_step clockwork ahrs_only at_boot 0
    ≡ report clockwork ahrs_only 1 0 (plan_slots clockwork ahrs_only 1 0 15 0 (shared_of at_boot) 0)
controller_step_refines_example =
    controller_step_refines clockwork ahrs_only clockwork-Polite at_boot 0 0 refl

-- A board whose clock counts microseconds and whose log opens.
abbrev desk : Platform
desk = record {
  files = one_file;
  T = ℕ;
  clock_gettime = λ t. (record { tv_sec = pos 0; tv_nsec = pos (t * 1000 % 1000000000) }, t);
  clock_nanosleep = λ due t. (pos 0, t + 14900);
  log_opens = λ t. true;
  format_jitter = λ jitter. b'J' ∷ jitter ∷ [];
  data_dir = b'd' ∷ [];
}

abbrev idle : Handler (Machine desk)
idle c e m = (c, m)

abbrev idle_integrations : Integrations desk
idle_integrations = record {
  ahrs_step = idle;
  gps_step = idle;
  barometer_step = idle;
  rudder_step = idle;
  autopilot_step = idle;
  interface_step = idle;
}

idle-Quiet : Quiet desk idle_integrations
idle-Quiet = record {
  ahrs = λ c e m. refl;
  gps = λ c e m. refl;
  barometer = λ c e m. refl;
  rudder = λ c e m. refl;
  autopilot = λ c e m. refl;
  interface = λ c e m. refl;
}

idle-Polite : Polite (board_world desk idle_integrations)
idle-Polite = record {
  ahrs = λ c e m. (refl, refl, refl);
  gps = λ c e m. (refl, refl, refl);
  barometer = λ c e m. (refl, refl, refl);
  rudder = λ c e m. (refl, refl, refl);
  autopilot = λ c e m. (refl, refl, refl);
  interface = λ c e m. (refl, refl, refl);
}

abbrev switched_on : Machine desk
switched_on = record {
  log = record { is_open = true; log_level = 1; lines = [] };
  sim = g_sim;
  files = record { opened = false; position = 0; bytes = [] };
  board = 0;
}

controller_step_logs_late_slots_example :
    (controller_step (board_world desk idle_integrations) ahrs_only at_boot switched_on).2.log
    ≡ record switched_on.log {
      lines =
          with_late desk 1
            (jitters
              (board_world desk idle_integrations)
              ahrs_only
              1
              0
              15
              0
              (shared_of at_boot)
              switched_on)
            [];
    }
controller_step_logs_late_slots_example =
    controller_step_logs_late_slots desk idle_integrations ahrs_only idle-Quiet idle-Polite at_boot
      0 switched_on refl refl (omega arith)

abbrev no_storage : Storage → Machine desk → StorageResult × Storage × Machine desk
no_storage s m = (StorageResult.ok, s, m)

abbrev verbose : List (List ℕ)
verbose = (b'x' ∷ []) ∷ (b'-' ∷ b'v' ∷ []) ∷ []

main_lem_example :
    let c' = (main desk idle_integrations ahrs_only no_storage verbose 3 at_boot switched_on).0 in
    (c'.epoch % 2 ^ 64 ≡ 3 % 2 ^ 64)
    × IsNormal c'.next_slot_start_time
    × ((slots : ℕ) × (3 ≤ slots)
        × (slots ≤ 16 * 3)
        × (total_ns c'.next_slot_start_time
            ≡ total_ns at_boot.next_slot_start_time +ℤ pos (slots * 15000000)))
main_lem_example =
    main_lem desk idle_integrations ahrs_only no_storage idle-Polite verbose 3 at_boot switched_on
      (omega arith)

-- One descriptor, 4, which is open or not.
abbrev one_descriptor : Mapping Bool
one_descriptor = record {
  open_file = λ path w. if w then (none, w) else (some 4, true);
  map_file = λ fd len w. (some 4096, w);
  close_file = λ fd w. if fd == 4 then false else w;
}

one_descriptor-DescriptorLaws : DescriptorLaws one_descriptor
one_descriptor-DescriptorLaws = record {
  is_open = λ fd w. fd == 4 && w;
  open_some = λ path fd w got. elim (Bool-cases w) [
    | inl busy ↦ absurd (ground arith)
    | inr free ↦ (ground arith, λ other. ground arith)
  ];
  open_none = λ path other w refused. ground arith;
  map_keeps = λ fd len other w. refl;
  close_lem = λ fd other w on. ground arith;
}
