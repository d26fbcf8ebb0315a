-- ===== src/Tests/Clock.antt =====
-- A machine that keeps time, and the schedule on it at a concrete input.
use segling.Prelude.{ℕ, ◌+◌, ◌*◌, ◌≡◌, refl, arith}
use segling.Prelude.Int.{pos, pos_part}
use segling.Controller.{ControllerResult, World, controller_step}
use segling.Controller.Schedule.{Polite}
use segling.Controller.Reference.{of_ns, jitters, shared_of}
use segling.Controller.Reference.OnTime.{Punctual, At, AllPrompt, epoch_on_time}
use segling.Tests.Board.{ahrs_only, at_boot}

-- The state is the time in nanoseconds. Reading the clock takes 1 us, a step of an integration 0.1 ms,
-- and a sleep wakes 60 us late.
abbrev quartz : World
quartz = record {
  W = ℕ;
  clock_gettime = λ w. (of_ns w, w + 1000);
  clock_nanosleep =
      λ due w. (pos 0, pos_part due.tv_sec * 1000000000 + pos_part due.tv_nsec + 60000);
  log_jitter = λ epoch slot jitter w. w;
  ahrs_step = λ c e w. (c, w + 100000);
  gps_step = λ c e w. (c, w + 100000);
  barometer_step = λ c e w. (c, w + 100000);
  rudder_step = λ c e w. (c, w + 100000);
  autopilot_step = λ c e w. (c, w + 100000);
  interface_step = λ c e w. (c, w + 100000);
}

abbrev quartz-Punctual : Punctual quartz
quartz-Punctual = record {
  now = λ w. w;
  reads = λ w. refl;
  clock = λ w. (omega arith, omega arith);
  sleeps = λ t w early. (refl, omega arith, omega arith);
  ahrs = λ c e w. (omega arith, omega arith);
  gps = λ c e w. (omega arith, omega arith);
  barometer = λ c e w. (omega arith, omega arith);
  rudder = λ c e w. (omega arith, omega arith);
  autopilot = λ c e w. (omega arith, omega arith);
  interface = λ c e w. (omega arith, omega arith);
}

quartz-Polite : Polite quartz
quartz-Polite = record {
  ahrs = λ c e w. (refl, refl, refl);
  gps = λ c e w. (refl, refl, refl);
  barometer = λ c e w. (refl, refl, refl);
  rudder = λ c e w. (refl, refl, refl);
  autopilot = λ c e w. (refl, refl, refl);
  interface = λ c e w. (refl, refl, refl);
}

epoch_on_time_example :
    let out = controller_step quartz ahrs_only at_boot 300000 in
    (out.0 ≡ ControllerResult.ok)
    × (out.1.current_slot ≡ 15)
    × (out.1.next_slot_start_time ≡ of_ns 240000000)
    × At quartz-Punctual 240000000 out.2
    × AllPrompt (jitters quartz ahrs_only 1 0 15 0 (shared_of at_boot) 300000)
epoch_on_time_example =
    epoch_on_time quartz ahrs_only quartz-Punctual quartz-Polite at_boot 0 300000 refl
      (omega arith, omega arith)
