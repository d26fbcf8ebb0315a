-- ===== src/Tests/Board.antt =====
-- The controller, the storage and the log at concrete inputs.
use segling.Prelude.{ℕ, ◌+◌, ◌*◌, ◌%◌, ◌<◌, ◌≡◌, refl, true, false, List, [], replicate, arith}
use segling.Prelude.Int.{pos, negsuc, pos_part, neg_part, ◌+ℤ◌, ◌-ℤ◌, ◌*ℤ◌, quot}
use segling.Comms.{CommsResult}
use segling.Storage.{StorageResult}
use segling.Controller.{
  Timespec, Controller, Enabled, World, Services, diff_us, abs_time_diff_us, controller_step,
}
use segling.Controller.Time.{total_ns, abs_time_diff_us_lem}
use segling.Controller.Schedule.{Polite, Stepped, controller_step_schedule}
use segling.Logging.{Log}

abbrev late_in_second : Timespec
late_in_second = record { tv_sec = pos 7; tv_nsec = pos 990000000 }

-- 0.3 ms before the time that is due.
abbrev early : Timespec
early = record { tv_sec = pos 7; tv_nsec = pos 989700000 }

early_fits : diff_us early late_in_second ≡ negsuc 299
unfolding diff_us ◌+ℤ◌ ◌-ℤ◌ ◌*ℤ◌ quot
early_fits = refl

abs_time_diff_us_lem_example :
    (1000 * abs_time_diff_us early late_in_second
      < pos_part (total_ns early -ℤ total_ns late_in_second)
        + neg_part (total_ns early -ℤ total_ns late_in_second)
        + 1000)
    × (pos_part (total_ns early -ℤ total_ns late_in_second)
          + neg_part (total_ns early -ℤ total_ns late_in_second)
        < 1000 * abs_time_diff_us early late_in_second + 1000)
abs_time_diff_us_lem_example =
    abs_time_diff_us_lem early late_in_second (rw early_fits (omega arith))

-- A clock that counts microseconds, on a machine that sleeps for a slot and whose AHRS takes 0.1 ms.
abbrev pub clockwork : World
clockwork = record {
  W = ℕ;
  clock_gettime = λ w. (record { tv_sec = pos 0; tv_nsec = pos (w * 1000 % 1000000000) }, w);
  clock_nanosleep = λ t w. (pos 0, w + 14900);
  log_jitter = λ epoch slot jitter w. w;
  ahrs_step = λ c e w. (c, w + 100);
  gps_step = λ c e w. (c, w);
  barometer_step = λ c e w. (c, w);
  rudder_step = λ c e w. (c, w);
  autopilot_step = λ c e w. (c, w);
  interface_step = λ c e w. (c, w);
}

abbrev pub ahrs_only : Enabled
ahrs_only = record {
  ahrs = true;
  gps = false;
  barometer = false;
  rudder = false;
  autopilot = false;
  interface = false;
}

pub clockwork-Polite : Polite clockwork
clockwork-Polite = record {
  ahrs = λ c e w. (refl, refl, refl);
  gps = λ c e w. (refl, refl, refl);
  barometer = λ c e w. (refl, refl, refl);
  rudder = λ c e w. (refl, refl, refl);
  autopilot = λ c e w. (refl, refl, refl);
  interface = λ c e w. (refl, refl, refl);
}

abbrev pub at_boot : Controller
at_boot = record {
  epoch = 0;
  current_slot = 0;
  next_slot_start_time = record { tv_sec = pos 0; tv_nsec = pos 0 };
  comms = record { initialized = true; i2c_fd = pos 3 };
  storage = record { state = 0 };
}

controller_step_schedule_example :
    Stepped clockwork ahrs_only clockwork-Polite
      (record at_boot { epoch = 1 })
      (controller_step clockwork ahrs_only at_boot 0)
controller_step_schedule_example =
    controller_step_schedule clockwork ahrs_only clockwork-Polite at_boot 0 (omega arith)

-- A bus that comes up, and a storage that closes.
abbrev ready : Services ℕ
ready = record {
  logging_init = λ w. w + 1;
  comms_init = λ c w. (CommsResult.ok, record { initialized = true; i2c_fd = pos 4 }, w);
  comms_deinit = λ c w. (CommsResult.ok, c, w);
  storage_deinit = λ s w. (StorageResult.ok, s, w);
}

abbrev bytes : List ℕ
bytes = replicate 2048 6

abbrev events : Log
events = record { is_open = true; log_level = 1; lines = [] }
