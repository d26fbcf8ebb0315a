-- ===== src/Board/Shutdown.antt =====
-- controller/src/controller.c, `controller_deinit` on the board: the order and the result.
use segling.Prelude.{ℕ, ◌<◌, ◌≡◌, ◌⊎◌, refl, true, false, some, arith}
use segling.Comms.Sim.{comms_deinit}
use segling.Comms.Sim.Closing.{comms_deinit_up}
use segling.Storage.{StorageResult, Storage}
use segling.Controller.{ControllerResult, Controller, controller_deinit, comms_ok, storage_ok}
use segling.Board.{Platform, Machine, board_services}

-- From a bus that is up: the bus goes down and no device stays loaded before storage_deinit is
-- called, which gets the controller's storage; the deinitialisation succeeds exactly where
-- storage_deinit does, and whatever that gives, the schedule of the controller is what it was.
pub controller_deinit_on_board :
    (p : Platform) (storage_deinit : Storage → Machine p → StorageResult × Storage × Machine p)
    (c : Controller) (m : Machine p) (address : ℕ)
    → c.comms.initialized ≡ true
    → address < 256
    → let (result, c', m') = controller_deinit (board_services p storage_deinit) c m in
      (m1 : Machine p) × ((m1.sim.devices address).loaded ≡ false)
      × (m1.log ≡ m.log)
      × (c'.comms.initialized ≡ false)
      × (c'.epoch ≡ c.epoch)
      × (c'.next_slot_start_time ≡ c.next_slot_start_time)
      × (c'.storage ≡ (storage_deinit c.storage m1).1)
      × (m' ≡ (storage_deinit c.storage m1).2)
      × ((storage_ok (storage_deinit c.storage m1).0 ≡ true) × (result ≡ ControllerResult.ok)
          ⊎ (storage_ok (storage_deinit c.storage m1).0 ≡ false)
            × (result ≡ ControllerResult.error_deinit_failed))
unfolding controller_deinit comms_ok
controller_deinit_on_board p storage_deinit c m address up small =
    let (fine, (c1, down, off), unloaded) =
      comms_deinit_up p.files c.comms m.sim m.files address up small in
    let closed = comms_deinit p.files (some c.comms) m.sim m.files in
    let m1 : Machine p = record m { sim = closed.2; files = closed.3 } in
    rw (down, fine) (m1, unloaded, refl, off, refl, refl, refl, refl, ground arith)
