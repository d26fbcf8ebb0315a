-- ===== src/Board.antt =====
-- The controller as it is linked for the simulated bus: controller/src/controller.c over
-- controller/src/logging.c, controller/src/comms_sim.c and controller/src/storage.c.
pub mod Boot
pub mod Epoch
pub mod Program
pub mod Shutdown
use segling.Prelude.{ℕ, Bool, Option, none, some, List}
use segling.Prelude.Int.{ℤ}
use segling.Comms.{CommsResult, Comms}
use segling.Comms.Sim.{Stdio, Sim, comms_init, comms_deinit}
use segling.Storage.{StorageResult, Storage}
use segling.Controller.{Timespec, Handler, World, Services}
use segling.Logging.{Log, log_level_error, logging_init, log_messagef}

-- What the board adds to the program: stdio for the bus, the clock and the sleep, whether the file of
-- the log opens, the text that `vsnprintf` makes of "Slot jitter exceeded: %lu us", and COMMS_SIM_DATA_DIR.
pub record Platform : Type 1 where
  pub files : Stdio
  pub T : Type 0
  pub clock_gettime : T → Timespec × T
  pub clock_nanosleep : Timespec → T → ℤ × T
  pub log_opens : T → Bool
  pub format_jitter : ℕ → List ℕ
  pub data_dir : List ℕ

-- The static state of the modules, and the states of stdio and of the board.
pub record Machine (p : Platform) : Type 0 where
  pub log : Log
  pub sim : Sim
  pub files : p.files.W
  pub board : p.T

-- The step functions of the integrations.
pub record Integrations (p : Platform) : Type 0 where
  pub ahrs_step : Handler (Machine p)
  pub gps_step : Handler (Machine p)
  pub barometer_step : Handler (Machine p)
  pub rudder_step : Handler (Machine p)
  pub autopilot_step : Handler (Machine p)
  pub interface_step : Handler (Machine p)

module _ (p : Platform) where
  -- The world of `controller_step`: its log is that of logging.c.
  abbrev pub board_world : Integrations p → World
  board_world integrations = record {
    W = Machine p;
    clock_gettime = λ m. let (now, t) = p.clock_gettime m.board in (now, record m { board = t });
    clock_nanosleep =
        λ due m. let (code, t) = p.clock_nanosleep due m.board in (code, record m { board = t });
    log_jitter = λ epoch slot jitter m. record m {
      log = log_messagef epoch slot log_level_error (p.format_jitter jitter) m.log;
    };
    ahrs_step = integrations.ahrs_step;
    gps_step = integrations.gps_step;
    barometer_step = integrations.barometer_step;
    rudder_step = integrations.rudder_step;
    autopilot_step = integrations.autopilot_step;
    interface_step = integrations.interface_step;
  }

  -- A call of the bus with the address of `controller->comms`, which is not NULL.
  abbrev bus_call :
      CommsResult × Option Comms × Sim × p.files.W
      → Comms
      → Machine p
      → CommsResult × Comms × Machine p
  bus_call (result, some comms, sim, files) old m =
      (result, comms, record m { sim = sim; files = files })
  bus_call (result, none, sim, files) old m = (result, old, record m { sim = sim; files = files })

  -- The modules that `controller_init` and `controller_deinit` call. `storage_deinit` has no
  -- definition in the source.
  abbrev pub board_services :
      (Storage → Machine p → StorageResult × Storage × Machine p) → Services (Machine p)
  board_services storage_deinit = record {
    logging_init = λ m. record m { log = (logging_init (p.log_opens m.board) m.log).0 };
    comms_init =
        λ comms m. bus_call (comms_init p.files p.data_dir (some comms) m.sim m.files) comms m;
    comms_deinit = λ comms m. bus_call (comms_deinit p.files (some comms) m.sim m.files) comms m;
    storage_deinit = storage_deinit;
  }
