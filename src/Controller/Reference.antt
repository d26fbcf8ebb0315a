-- ===== src/Controller/Reference.antt =====
-- controller/src/controller.c, `controller_step`, as the README of the controller tells it: every slot
-- starts at a fixed time after the start of the epoch, and ends with a sleep until the next start.
pub mod Equivalence
pub mod OnTime
use segling.Prelude.{ℕ, zero, suc, ◌+◌, ◌*◌, ◌/◌, ◌%◌, List, [], ◌∷◌, leb, if◌then◌else◌}
use segling.Prelude.Int.{pos}
use segling.Comms.{Comms}
use segling.Storage.{Storage}
use segling.Controller.{
  ControllerResult, Timespec, Controller, Enabled, World, slot_handlers, dispatch, slept,
  abs_time_diff_us, max_slot_jitter_us,
}

-- A time on the monotonic clock, from its nanoseconds.
abbrev pub of_ns : ℕ → Timespec
of_ns t = record { tv_sec = pos (t / 1000000000); tv_nsec = pos (t % 1000000000) }

-- The start of slot `i` of an epoch that starts at `start`.
abbrev pub slot_start : ℕ → ℕ → ℕ
slot_start start i = start + i * 15000000

-- What the integrations share through the controller.
pub record Shared : Type 0 where
  pub comms : Comms
  pub storage : Storage

-- The controller in slot `i` whose next start is `due`.
abbrev pub controller_at : ℕ → ℕ → ℕ → Shared → Controller
controller_at epoch i due shared = record {
  epoch = epoch;
  current_slot = i;
  next_slot_start_time = of_ns due;
  comms = shared.comms;
  storage = shared.storage;
}

abbrev pub shared_of : Controller → Shared
shared_of c = record { comms = c.comms; storage = c.storage }

-- How a round of slots ended, in which slot, and what it left.
pub record Round (W : Type 0) : Type 0 where
  pub result : ControllerResult
  pub last : ℕ
  pub shared : Shared
  pub world : W

module _ (world : World) (enabled : Enabled) (epoch start : ℕ) where
  open world use {W, clock_gettime, clock_nanosleep, log_jitter}

  -- Slot `i`: its handler runs where the clock is within the limit of the slot's start, else a line
  -- is logged.
  unfoldable pub plan_slot : ℕ → Shared → W → Shared × W
  plan_slot i shared w =
      let due = slot_start start i in
      let (now, w1) = clock_gettime w in
      let jitter = abs_time_diff_us now (of_ns due) in
      let (c, w2) =
        dispatch world enabled (slot_handlers world enabled i) (controller_at epoch i due shared)
          w1 in
      if leb jitter max_slot_jitter_us
      then (shared_of c, w2)
      else (shared, log_jitter epoch i jitter w1)

  -- The slots from `i` on, of which `n` follow; each ends with a sleep until the next start.
  unfoldable pub plan_slots : ℕ → ℕ → Shared → W → Round W
  plan_slots zero i shared w =
      let (shared1, w1) = plan_slot i shared w in
      let (code, w2) = clock_nanosleep (of_ns (slot_start start (suc i))) w1 in
      let result = if slept code then ControllerResult.ok else ControllerResult.error_unknown in
      record { result = result; last = i; shared = shared1; world = w2 }
  plan_slots (suc n) i shared w =
      let (shared1, w1) = plan_slot i shared w in
      let (code, w2) = clock_nanosleep (of_ns (slot_start start (suc i))) w1 in
      let rest = plan_slots n (suc i) shared1 w2 in
      if slept code then rest else record {
        result = ControllerResult.error_unknown;
        last = i;
        shared = shared1;
        world = w2;
      }

  -- What slot `i` measures when it starts.
  abbrev pub jitter_at : ℕ → W → ℕ
  jitter_at i w = abs_time_diff_us (clock_gettime w).0 (of_ns (slot_start start i))

  -- The slots from `i` on that are begun, each with its jitter in microseconds.
  unfoldable pub jitters : ℕ → ℕ → Shared → W → List (ℕ × ℕ)
  jitters zero i shared w = (i, jitter_at i w) ∷ []
  jitters (suc n) i shared w =
      let (shared1, w1) = plan_slot i shared w in
      let (code, w2) = clock_nanosleep (of_ns (slot_start start (suc i))) w1 in
      let rest = jitters n (suc i) shared1 w2 in
      (i, jitter_at i w) ∷ (if slept code then rest else [])

  -- What the controller reports of a round: its next slot starts where the last one ended.
  unfoldable pub report : Round W → ControllerResult × Controller × W
  report r =
      (r.result, controller_at epoch r.last (slot_start start (suc r.last)) r.shared, r.world)
