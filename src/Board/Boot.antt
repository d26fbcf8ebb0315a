-- ===== src/Board/Boot.antt =====
-- controller/src/controller.c, `controller_init` on the board: what the program has when it starts.
use segling.Prelude.{ℕ, ◌≡◌, ◌||◌, true, false, take, arith}
use segling.Comms.Sim.{comms_init}
use segling.Storage.{StorageResult, Storage, storage_init}
use segling.Controller.{ControllerResult, Controller, controller_init, comms_ok, storage_ok}
use segling.Logging.{logging_init}
use segling.Board.{Platform, Machine, board_services}

-- On the simulated bus the initialisation always succeeds, also where the log does not open: the epoch
-- is 0, the bus is up, no device is loaded, the path of the data is cut to 255 bytes, and the log
-- is open where it was or where its file opens, with nothing written to it.
pub controller_init_on_board :
    (p : Platform) (storage_deinit : Storage → Machine p → StorageResult × Storage × Machine p)
    (c : Controller) (m : Machine p) (address : ℕ)
    → let (result, c', m') = controller_init (board_services p storage_deinit) c m in
      (result ≡ ControllerResult.ok)
      × (c'.epoch ≡ 0)
      × (c'.comms.initialized ≡ true)
      × ((m'.sim.devices address).loaded ≡ false)
      × (m'.sim.data_dir ≡ take 255 p.data_dir)
      × (m'.log.is_open ≡ (m.log.is_open || p.log_opens m.board))
      × (m'.log.lines ≡ m.log.lines)
unfolding controller_init comms_init storage_init logging_init comms_ok storage_ok
controller_init_on_board p storage_deinit c m address = ground arith
