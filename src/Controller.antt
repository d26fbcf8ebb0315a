-- ===== src/Controller.antt =====
-- controller/src/controller.c with controller/include/controller/controller.h and scheduling.h: the
-- epoch and its slots. The world (the clock, the sleep, the log, and all that the slot handlers
-- touch) is a parameter, whose state is passed through every call.
pub mod Time
pub mod Schedule
pub mod Lifecycle
pub mod Reference
use segling.Prelude.{
  ℕ, zero, suc, ◌+◌, ◌-◌, ◌*◌, ◌%◌, ◌^◌, Bool, true, false, Option, none, some, ltb, leb,
  if◌then◌else◌,
}
use segling.Prelude.Int.{ℤ, pos, pos_part, neg_part, ◌+ℤ◌, ◌-ℤ◌, ◌*ℤ◌, quot, ltb_ℤ, leb_ℤ}
use segling.Comms.{CommsResult, Comms}
use segling.Storage.{StorageResult, Storage, storage_init}

-- `controller_result_t`
pub data ControllerResult : Type 0 where
  ok error_unknown error_init_failed error_deinit_failed error_step_failed : ControllerResult

-- `struct timespec`
pub record Timespec : Type 0 where
  pub tv_sec : ℤ
  pub tv_nsec : ℤ

-- `controller_t`
pub record Controller : Type 0 where
  pub epoch : ℕ
  pub current_slot : ℕ
  pub next_slot_start_time : Timespec
  pub comms : Comms
  pub storage : Storage

-- SLOT_TIME_US, MAX_SLOT_JITTER_US and SLOT_COUNT
abbrev pub slot_time_us : ℕ
slot_time_us = 15000

abbrev pub max_slot_jitter_us : ℕ
max_slot_jitter_us = 500

abbrev pub slot_count : ℕ
slot_count = 16

-- `controller_slot_handler_t`, given the world: a handler may change the controller.
abbrev pub Handler : Type 0 → Type 0
Handler W = Controller → ℕ → W → Controller × W

-- The build flags AHRS_ENABLED to INTERFACE_ENABLED.
pub record Enabled : Type 0 where
  pub ahrs : Bool
  pub gps : Bool
  pub barometer : Bool
  pub rudder : Bool
  pub autopilot : Bool
  pub interface : Bool

-- What controller.c calls and does not define: the clock, the sleep, the log, and the handlers of
-- the integrations, which the headers declare.
pub record World : Type 1 where
  pub W : Type 0
  pub clock_gettime : W → Timespec × W
  pub clock_nanosleep : Timespec → W → ℤ × W
  -- log_messagef (epoch, slot, LOG_LEVEL_ERROR, "Slot jitter exceeded: ...", jitter)
  pub log_jitter : ℕ → ℕ → ℕ → W → W
  pub ahrs_step : Handler W
  pub gps_step : Handler W
  pub barometer_step : Handler W
  pub rudder_step : Handler W
  pub autopilot_step : Handler W
  pub interface_step : Handler W

abbrev registered {ℓ} : {A : Type ℓ} → Bool → A → Option A
registered b h = if b then some h else none

-- `get_abs_time_diff_us`, from the reading of the clock.
unfoldable pub diff_us : Timespec → Timespec → ℤ
diff_us current expected =
    (current.tv_sec -ℤ expected.tv_sec) *ℤ pos 1000000
    +ℤ quot (current.tv_nsec -ℤ expected.tv_nsec) (pos 1000)

unfoldable pub abs_time_diff_us : Timespec → Timespec → ℕ
abs_time_diff_us current expected =
    let diff = diff_us current expected in
    pos_part (if ltb_ℤ diff (pos 0) then pos 0 -ℤ diff else diff) % 2 ^ 64

-- The start of the next slot. The remainder is taken only of a value that is 10^9 or more.
unfoldable pub next_start : Timespec → Timespec
next_start t =
    let nsec = t.tv_nsec +ℤ pos (slot_time_us * 1000) in
    if leb_ℤ (pos 1000000000) nsec
    then record { tv_sec = t.tv_sec +ℤ pos 1; tv_nsec = pos (pos_part nsec % 1000000000) }
    else record { tv_sec = t.tv_sec; tv_nsec = nsec }

-- The test of the result of `clock_nanosleep` against 0.
unfoldable pub slept : ℤ → Bool
slept (pos zero) = true
slept _ = false

module _ (world : World) (enabled : Enabled) where
  open world use {W, clock_gettime, clock_nanosleep, log_jitter}

  -- `g_slot_handlers`
  unfoldable pub slot_handlers : ℕ → Option (Handler W)
  slot_handlers zero = registered enabled.ahrs world.ahrs_step
  slot_handlers (suc zero) = registered enabled.gps world.gps_step
  slot_handlers (suc (suc zero)) = registered enabled.barometer world.barometer_step
  slot_handlers (suc (suc (suc zero))) = registered enabled.rudder world.rudder_step
  slot_handlers (suc (suc (suc (suc zero)))) = registered enabled.autopilot world.autopilot_step
  slot_handlers (suc (suc (suc (suc (suc zero))))) =
      registered enabled.interface world.interface_step
  slot_handlers _ = none

  -- The call of the handler of slot `i`, where there is one.
  unfoldable pub dispatch : Option (Handler W) → Controller → W → Controller × W
  dispatch none c w = (c, w)
  dispatch (some handler) c w = handler c c.epoch w

  -- The body of the loop up to the sleep.
  unfoldable pub run_slot : ℕ → Controller → W → Controller × W
  run_slot i c w =
      let (now, w1) = clock_gettime w in
      let jitter = abs_time_diff_us now c.next_slot_start_time in
      let (c1, w2) =
        if leb jitter max_slot_jitter_us
        then dispatch (slot_handlers i) c w1
        else (c, log_jitter c.epoch c.current_slot jitter w1) in
      (record c1 { next_slot_start_time = next_start c1.next_slot_start_time }, w2)

  -- The loop, with `n` rounds left at slot `i`.
  unfoldable pub run_slots : ℕ → ℕ → Controller → W → ControllerResult × Controller × W
  run_slots zero i c w = (ControllerResult.ok, c, w)
  run_slots (suc n) i c w =
      let (c1, w1) = run_slot i c w in
      let last = run_slots n (i + 1) c1 w1 in
      if ltb i (slot_count - 1)
      then (let (code, w2) = clock_nanosleep c1.next_slot_start_time w1 in
          let rest = run_slots n (i + 1) (record c1 { current_slot = c1.current_slot + 1 }) w2 in
          if slept code then rest else (ControllerResult.error_unknown, c1, w2))
      else last

  -- What follows the loop: the final sleep, where the loop was not left early.
  unfoldable pub final_sleep : ControllerResult × Controller × W → ControllerResult × Controller × W
  final_sleep (ControllerResult.ok, c, w) =
      let (code, w1) = clock_nanosleep c.next_slot_start_time w in
      (if slept code then ControllerResult.ok else ControllerResult.error_unknown, c, w1)
  final_sleep (result, c, w) = (result, c, w)

  unfoldable pub controller_step : Controller → W → ControllerResult × Controller × W
  controller_step c w =
      final_sleep
        (run_slots slot_count 0 (record c { epoch = (c.epoch + 1) % 2 ^ 64; current_slot = 0 }) w)

-- The modules that `controller_init` and `controller_deinit` bring up and down. `storage_deinit` is
-- declared in storage.h and defined nowhere.
pub record Services (W : Type 0) : Type 0 where
  pub logging_init : W → W
  pub comms_init : Comms → W → CommsResult × Comms × W
  pub comms_deinit : Comms → W → CommsResult × Comms × W
  pub storage_deinit : Storage → W → StorageResult × Storage × W

unfoldable pub comms_ok : CommsResult → Bool
comms_ok CommsResult.ok = true
comms_ok _ = false

unfoldable pub storage_ok : StorageResult → Bool
storage_ok StorageResult.ok = true
storage_ok _ = false

module _ {W : Type 0} (services : Services W) where
  open services use {logging_init, comms_init, comms_deinit, storage_deinit}

  -- The result of `logging_init` is dropped.
  unfoldable pub controller_init : Controller → W → ControllerResult × Controller × W
  unfolding comms_ok storage_ok
  controller_init c w =
      let (comms_result, comms1, w1) = comms_init c.comms (logging_init w) in
      let (storage_result, storage1) = storage_init c.storage in
      if comms_ok comms_result
      then if storage_ok storage_result
        then (ControllerResult.ok, record c { comms = comms1; storage = storage1; epoch = 0 }, w1)
        else (
          ControllerResult.error_init_failed,
          record c { comms = comms1; storage = storage1 },
          w1,
        )
      else (ControllerResult.error_init_failed, record c { comms = comms1 }, w1)

  unfoldable pub controller_deinit : Controller → W → ControllerResult × Controller × W
  unfolding comms_ok storage_ok
  controller_deinit c w =
      let (comms_result, comms1, w1) = comms_deinit c.comms w in
      let (storage_result, storage1, w2) = storage_deinit c.storage w1 in
      if comms_ok comms_result
      then (
        if storage_ok storage_result
            then ControllerResult.ok
            else ControllerResult.error_deinit_failed,
        record c { comms = comms1; storage = storage1 },
        w2,
      )
      else (ControllerResult.error_deinit_failed, record c { comms = comms1 }, w1)
