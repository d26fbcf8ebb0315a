-- ===== src/Board/Epoch.antt =====
-- controller/src/controller.c and controller/src/logging.c: the log of one epoch on the board.
use segling.Prelude.{
  ℕ, zero, suc, ◌+◌, ◌%◌, ◌^◌, ◌≤◌, ◌≡◌, inl, inr, refl, sym, ap, ◌∙◌, true, Bool-cases, List, [],
  ◌∷◌, take, leb, if◌then◌else◌, arith,
}
use segling.Controller.{
  Controller, Handler, Enabled, World, slot_handlers, dispatch, slept, max_slot_jitter_us,
  controller_step,
}
use segling.Controller.Schedule.{Polite}
use segling.Controller.Reference.{
  of_ns, slot_start, Shared, controller_at, shared_of, plan_slot, plan_slots, report, jitter_at,
  jitters,
}
use segling.Controller.Reference.Equivalence.{controller_step_refines}
use segling.Logging.{LevelName, Line, Log, log_level_error, log_message, log_messagef, level_name}
use segling.Board.{Platform, Machine, Integrations, board_world}

-- An integration that writes nothing to the log.
abbrev pub Silent : {p : Platform} → Handler (Machine p) → Type 0
Silent {p} handler = (c : Controller) (e : ℕ) (m : Machine p) → (handler c e m).1.log ≡ m.log

pub record Quiet (p : Platform) (integrations : Integrations p) : Type 0 where
  pub ahrs : Silent {p = p} integrations.ahrs_step
  pub gps : Silent {p = p} integrations.gps_step
  pub barometer : Silent {p = p} integrations.barometer_step
  pub rudder : Silent {p = p} integrations.rudder_step
  pub autopilot : Silent {p = p} integrations.autopilot_step
  pub interface : Silent {p = p} integrations.interface_step

module _ (p : Platform) (epoch : ℕ) where
  -- The line of a slot that is late.
  abbrev jitter_line : ℕ → ℕ → Line
  jitter_line i jitter = record {
    epoch = epoch;
    slot_id = i;
    level = LevelName.error;
    message = take 1023 (p.format_jitter jitter);
  }

  -- A line for each late slot, put in front of the lines that are there: the newest comes first.
  unfoldable pub with_late : List (ℕ × ℕ) → List Line → List Line
  with_late [] lines = lines
  with_late ((i, jitter) ∷ rest) lines =
      let late = with_late rest (jitter_line i jitter ∷ lines) in
      let prompt = with_late rest lines in if leb jitter max_slot_jitter_us then prompt else late

module _ (p : Platform) (integrations : Integrations p) (enabled : Enabled)
    (quiet : Quiet p integrations) (epoch start : ℕ) where
  abbrev world : World
  world = board_world p integrations

  dispatch-log :
      (i : ℕ) (c : Controller) (m : Machine p)
      → (dispatch world enabled (slot_handlers world enabled i) c m).1.log ≡ m.log
  unfolding dispatch slot_handlers
  dispatch-log zero c m = ground (arith, quiet.ahrs c c.epoch m)
  dispatch-log (suc zero) c m = ground (arith, quiet.gps c c.epoch m)
  dispatch-log (suc (suc zero)) c m = ground (arith, quiet.barometer c c.epoch m)
  dispatch-log (suc (suc (suc zero))) c m = ground (arith, quiet.rudder c c.epoch m)
  dispatch-log (suc (suc (suc (suc zero)))) c m = ground (arith, quiet.autopilot c c.epoch m)
  dispatch-log (suc (suc (suc (suc (suc zero))))) c m = ground (arith, quiet.interface c c.epoch m)
  dispatch-log (suc (suc (suc (suc (suc (suc i)))))) c m = refl

  -- The log is open, and its level lets errors through.
  abbrev Records : Log → Type 0
  Records log = (log.is_open ≡ true) × (log.log_level ≤ 3)

  log_messagef-error :
      (i jitter : ℕ) (log : Log)
      → Records log
      → log_messagef epoch i log_level_error (p.format_jitter jitter) log
        ≡ record log { lines = jitter_line p epoch i jitter ∷ log.lines }
  unfolding log_messagef log_message level_name
  log_messagef-error i jitter log (opened, low) = ground arith

  plan_slot-log :
      (i : ℕ) (shared : Shared) (m : Machine p)
      → Records m.log
      → let jitter = jitter_at world enabled epoch start i m in
        (plan_slot world enabled epoch start i shared m).1.log
        ≡ record m.log { lines = with_late p epoch ((i, jitter) ∷ []) m.log.lines }
  unfolding plan_slot with_late
  plan_slot-log i shared m records =
      let m1 = (world.clock_gettime m).1 in
      let ran = dispatch-log i (controller_at epoch i (slot_start start i) shared) m1 in
      elim (Bool-cases (leb (jitter_at world enabled epoch start i m) max_slot_jitter_us)) [
        | inl prompt ↦ rw prompt ran
        | inr late ↦ rw late (log_messagef-error i _ m.log records)
      ]

  with_late-∷ :
      (i jitter : ℕ) (rest : List (ℕ × ℕ)) (lines : List Line)
      → with_late p epoch ((i, jitter) ∷ rest) lines
        ≡ with_late p epoch rest (with_late p epoch ((i, jitter) ∷ []) lines)
  unfolding with_late
  with_late-∷ i jitter rest lines = elim (Bool-cases (leb jitter max_slot_jitter_us)) [
    | inl prompt ↦ rw prompt refl
    | inr late ↦ rw late refl
  ]

  Records-plan_slot :
      (i : ℕ) (shared : Shared) (m : Machine p)
      → Records m.log
      → Records (plan_slot world enabled epoch start i shared m).1.log
  Records-plan_slot i shared m records =
      let kept = plan_slot-log i shared m records in
      rw (ap (λ log. log.is_open) kept, ap (λ log. log.log_level) kept) records

  plan_slots-log :
      (n i : ℕ) (shared : Shared) (m : Machine p)
      → Records m.log
      → (plan_slots world enabled epoch start n i shared m).world.log ≡ record m.log {
        lines = with_late p epoch (jitters world enabled epoch start n i shared m) m.log.lines;
      }
  unfolding plan_slots jitters
  plan_slots-log zero i shared m records = plan_slot-log i shared m records
  plan_slots-log (suc n) i shared m records =
      let (shared1, m1) = plan_slot world enabled epoch start i shared m in
      let (code, m2) = world.clock_nanosleep (of_ns (slot_start start (suc i))) m1 in
      let jitter = jitter_at world enabled epoch start i m in
      let rest = jitters world enabled epoch start n (suc i) shared1 m2 in
      let first = plan_slot-log i shared m records in
      elim (Bool-cases (slept code)) [
        | inl done ↦ rw done (
            plan_slots-log n (suc i) shared1 m2 (Records-plan_slot i shared m records)
            ∙ ap {A = Log} (λ log. record log { lines = with_late p epoch rest log.lines }) first
            ∙ ap {B = Log} (λ lines. record m.log { lines = lines })
                (sym (with_late-∷ i jitter rest m.log.lines)))
        | inr broken ↦ rw broken first
      ]

-- An epoch on the board, from a start time that is not negative and has fewer than 10^9 nanoseconds
-- beside its seconds, with an open log that lets errors through and integrations that leave the
-- schedule and the log alone: the log gains one ERROR line for each slot that was begun more than
-- 500 us off its time, with the new epoch, the slot and the first 1023 bytes of the formatted jitter,
-- the newest line first, and nothing else of the log changes.
pub controller_step_logs_late_slots :
    (p : Platform) (integrations : Integrations p) (enabled : Enabled)
    → Quiet p integrations
    → Polite (board_world p integrations)
    → (c : Controller) (start : ℕ) (m : Machine p) → c.next_slot_start_time ≡ of_ns start
    → m.log.is_open ≡ true
    → m.log.log_level ≤ 3
    → let world = board_world p integrations in
      let epoch = (c.epoch + 1) % 2 ^ 64 in
      (controller_step world enabled c m).2.log ≡ record m.log {
        lines =
            with_late p epoch (jitters world enabled epoch start 15 0 (shared_of c) m) m.log.lines;
      }
unfolding report
controller_step_logs_late_slots p integrations enabled quiet polite c start m at opened low =
    let world = board_world p integrations in
    let epoch = (c.epoch + 1) % 2 ^ 64 in
    ap (λ out. out.2.log) (controller_step_refines world enabled polite c start m at)
    ∙ plan_slots-log p integrations enabled quiet epoch start 15 0 (shared_of c) m (opened, low)
