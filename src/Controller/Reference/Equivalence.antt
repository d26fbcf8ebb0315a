-- ===== src/Controller/Reference/Equivalence.antt =====
-- controller/src/controller.c, `controller_step`: the loop against the schedule of fixed times.
use segling.Prelude.{
  ℕ, zero, suc, ◌+◌, ◌-◌, ◌%◌, ◌^◌, ◌≡◌, ◌∙◌, ap, inl, inr, refl, Bool-cases, true, false, ltb, leb,
  lt→ltb, arith,
}
use segling.Prelude.Int.{◌+ℤ◌}
use segling.Controller.{
  Controller, Enabled, World, next_start, slept, slot_handlers, dispatch, run_slot, run_slots,
  final_sleep, controller_step, slot_count, abs_time_diff_us, max_slot_jitter_us,
}
use segling.Controller.Schedule.{SameSchedule, Polite, dispatch-SameSchedule}
use segling.Controller.Reference.{
  of_ns, slot_start, Shared, controller_at, shared_of, plan_slot, plan_slots, report,
}

next_start-of_ns : (t : ℕ) → next_start (of_ns t) ≡ of_ns (t + 15000000)
unfolding next_start ◌+ℤ◌
next_start-of_ns t = ground arith

slot_start-suc : (start i : ℕ) → slot_start start i + 15000000 ≡ slot_start start (suc i)
slot_start-suc start i = omega arith

-- A controller that keeps its schedule is told by what the integrations share.
rebuild :
    (epoch i due : ℕ) (shared : Shared) (c : Controller)
    → SameSchedule (controller_at epoch i due shared) c
    → c ≡ controller_at epoch i due (shared_of c)
rebuild epoch i due shared c (same_epoch, same_slot, same_start) = λ j. record {
  epoch = same_epoch j;
  current_slot = same_slot j;
  next_slot_start_time = same_start j;
  comms = c.comms;
  storage = c.storage;
}

module _ (world : World) (enabled : Enabled) (polite : Polite world) (epoch start : ℕ) where
  open world use {W}

  run_slot-eq-plan_slot :
      (i : ℕ) (shared : Shared) (w : W)
      → let (shared', w') = plan_slot world enabled epoch start i shared w in
        run_slot world enabled i (controller_at epoch i (slot_start start i) shared) w
        ≡ (controller_at epoch i (slot_start start (suc i)) shared', w')
  unfolding run_slot plan_slot
  run_slot-eq-plan_slot i shared w =
      let c = controller_at epoch i (slot_start start i) shared in
      let (now, w1) = world.clock_gettime w in
      let c1 = (dispatch world enabled (slot_handlers world enabled i) c w1).0 in
      let same =
        rebuild epoch i (slot_start start i) shared c1
          (dispatch-SameSchedule world enabled polite i c w1) in
      let next = next_start-of_ns (slot_start start i) ∙ ap of_ns (slot_start-suc start i) in
      elim (Bool-cases
        (leb (abs_time_diff_us now (of_ns (slot_start start i))) max_slot_jitter_us)) [
          | inl prompt ↦ rw prompt (
              ap
                (λ k. (
                  record k { next_slot_start_time = next_start k.next_slot_start_time },
                  (dispatch world enabled (slot_handlers world enabled i) c w1).1,
                ))
                same
              ∙ ap
                  (λ t. (
                    record (controller_at epoch i (slot_start start i) (shared_of c1)) {
                      next_slot_start_time = t;
                    },
                    (dispatch world enabled (slot_handlers world enabled i) c w1).1,
                  ))
                  next)
          | inr late ↦ rw (late, next)
        ]

  run_slots-eq-plan_slots :
      (n i : ℕ) (shared : Shared) (w : W)
      → i + n ≡ 15
      → final_sleep world enabled
          (run_slots world enabled (suc n) i (controller_at epoch i (slot_start start i) shared) w)
        ≡ report world enabled epoch start (plan_slots world enabled epoch start n i shared w)
  unfolding run_slots plan_slots final_sleep report
  run_slots-eq-plan_slots zero i shared w last =
      let over : ltb i (slot_count - 1) ≡ false = ground arith in
      rw (run_slot-eq-plan_slot i shared w, over)
  run_slots-eq-plan_slots (suc n) i shared w more =
      let early : ltb i (slot_count - 1) ≡ true = lt→ltb _ _ (omega arith) in
      let (shared1, w1) = plan_slot world enabled epoch start i shared w in
      let (code, w2) = world.clock_nanosleep (of_ns (slot_start start (suc i))) w1 in
      let next : i + 1 ≡ suc i = omega arith in
      elim (Bool-cases (slept code)) [
        | inl done ↦
            rw (run_slot-eq-plan_slot i shared w, early, done, next)
              (run_slots-eq-plan_slots n (suc i) shared1 w2 (omega arith))
        | inr broken ↦ rw (run_slot-eq-plan_slot i shared w, early, broken)
      ]

-- With integrations that leave the schedule to the controller, an epoch from a start time that is
-- not negative and has fewer than 10^9 nanoseconds beside its seconds is the schedule of the README. Slot `i` starts exactly `i` times 15 ms after the start of the epoch, whatever the earlier
-- slots did. There its handler runs, with the new epoch, where the clock is within 500 us of this
-- time, and else a line is logged; then the controller sleeps until the next start. It goes on to
-- slot 15, or fails at the first sleep that fails, and the next slot starts where the last one ended.
pub controller_step_refines :
    (world : World) (enabled : Enabled)
    → Polite world
    → (c : Controller) (start : ℕ) (w : world.W) → c.next_slot_start_time ≡ of_ns start
    → let epoch = (c.epoch + 1) % 2 ^ 64 in
      controller_step world enabled c w
      ≡ report world enabled epoch start (plan_slots world enabled epoch start 15 0 (shared_of c) w)
unfolding controller_step
controller_step_refines world enabled polite c start w at =
    let epoch = (c.epoch + 1) % 2 ^ 64 in
    let first : start ≡ slot_start start 0 = omega arith in
    ap
      (λ t. final_sleep world enabled (
        run_slots world enabled slot_count 0
          (record c { epoch = epoch; current_slot = 0; next_slot_start_time = t }) w))
      (at ∙ ap of_ns first)
    ∙ run_slots-eq-plan_slots world enabled polite epoch start 15 0 (shared_of c) w refl
