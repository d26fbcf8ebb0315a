-- ===== src/Controller/Lifecycle.antt =====
-- controller/src/controller.c, `controller_init`: what it sets, and what it leaves alone.
use segling.Prelude.{◌≡◌, ◌⊎◌, true, false, arith}
use segling.Storage.{storage_init}
use segling.Controller.{
  ControllerResult, Controller, Services, comms_ok, storage_ok, controller_init,
}

-- An initialisation succeeds exactly where the bus comes up, which it tries behind the log; then the
-- epoch is 0, and else it fails and the epoch is what it was. Either way the controller has the bus
-- as it came up, and its slot and the start of its next slot are what they were.
pub controller_init_lem :
    {W : Type 0} (services : Services W) (c : Controller) (w : W)
    → let out = controller_init services c w in
      let bus = services.comms_init c.comms (services.logging_init w) in
      let c' = out.1 in
      (c'.next_slot_start_time ≡ c.next_slot_start_time)
      × (c'.current_slot ≡ c.current_slot)
      × (c'.comms ≡ bus.1)
      × (out.2 ≡ bus.2)
      × ((comms_ok bus.0 ≡ true) × (out.0 ≡ ControllerResult.ok) × (c'.epoch ≡ 0)
          ⊎ (comms_ok bus.0 ≡ false)
            × (out.0 ≡ ControllerResult.error_init_failed)
            × (c'.epoch ≡ c.epoch))
unfolding controller_init storage_init comms_ok storage_ok
controller_init_lem services c w = ground arith
