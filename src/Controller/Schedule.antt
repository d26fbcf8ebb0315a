-- ===== src/Controller/Schedule.antt =====
-- controller/src/controller.c, `controller_step`: the schedule over one epoch and over many.
use segling.Prelude.{
  ℕ, zero, suc, ◌+◌, ◌-◌, ◌*◌, ◌%◌, ◌^◌, ◌≤◌, ◌<◌, ◌≡◌, ◌⊎◌, ◌∙◌, ap, inl, inr, refl, Bool-cases,
  true, false, ltb, lt→ltb, arith,
}
use segling.Prelude.Int.{pos, pos_part, neg_part, ◌+ℤ◌, int_laws, eq_of_parts}
use segling.Controller.{
  ControllerResult, Controller, Handler, Enabled, World, next_start, slept, slot_handlers, dispatch,
  run_slot, run_slots, final_sleep, controller_step, slot_count,
}
use segling.Controller.Time.{total_ns, IsNormal, next_start_lem}

-- The fields of the controller that belong to the schedule.
abbrev pub SameSchedule : Controller → Controller → Type 0
SameSchedule c c' =
    (c'.epoch ≡ c.epoch)
    × (c'.current_slot ≡ c.current_slot)
    × (c'.next_slot_start_time ≡ c.next_slot_start_time)

abbrev pub Keeps : {W : Type 0} → Handler W → Type 0
Keeps {W} handler = (c : Controller) (e : ℕ) (w : W) → SameSchedule c (handler c e w).0

-- Each integration leaves the schedule to the controller.
pub record Polite (world : World) : Type 0 where
  pub ahrs : Keeps world.ahrs_step
  pub gps : Keeps world.gps_step
  pub barometer : Keeps world.barometer_step
  pub rudder : Keeps world.rudder_step
  pub autopilot : Keeps world.autopilot_step
  pub interface : Keeps world.interface_step

module _ (world : World) (enabled : Enabled) (polite : Polite world) where
  open world use {W}

  pub dispatch-SameSchedule :
      (i : ℕ) (c : Controller) (w : W)
      → SameSchedule c (dispatch world enabled (slot_handlers world enabled i) c w).0
  unfolding dispatch slot_handlers
  dispatch-SameSchedule zero c w = ground (arith, polite.ahrs c c.epoch w)
  dispatch-SameSchedule (suc zero) c w = ground (arith, polite.gps c c.epoch w)
  dispatch-SameSchedule (suc (suc zero)) c w = ground (arith, polite.barometer c c.epoch w)
  dispatch-SameSchedule (suc (suc (suc zero))) c w = ground (arith, polite.rudder c c.epoch w)
  dispatch-SameSchedule (suc (suc (suc (suc zero)))) c w =
      ground (arith, polite.autopilot c c.epoch w)
  dispatch-SameSchedule (suc (suc (suc (suc (suc zero))))) c w =
      ground (arith, polite.interface c c.epoch w)
  dispatch-SameSchedule (suc (suc (suc (suc (suc (suc i)))))) c w = (refl, refl, refl)

  -- A slot moves the start of the next one, and nothing else of the schedule.
  run_slot_lem :
      (i : ℕ) (c : Controller) (w : W)
      → SameSchedule
          (record c { next_slot_start_time = next_start c.next_slot_start_time })
          (run_slot world enabled i c w).0
  unfolding run_slot
  run_slot_lem i c w = ground (arith, dispatch-SameSchedule i c (world.clock_gettime w).1)

  -- After a slot the start of the next one is normal again and 15 ms later.
  Moved : Controller → Controller → Type 0
  Moved c c1 =
      (c1.epoch ≡ c.epoch)
      × (c1.current_slot ≡ c.current_slot)
      × IsNormal c1.next_slot_start_time
      × (total_ns c1.next_slot_start_time ≡ total_ns c.next_slot_start_time +ℤ pos 15000000)

  run_slot-Moved :
      (i : ℕ) (c : Controller) (w : W)
      → IsNormal c.next_slot_start_time
      → Moved c (run_slot world enabled i c w).0
  unfolding Moved
  run_slot-Moved i c w normal =
      let (epoch, slot, start) = run_slot_lem i c w in
      let next = next_start_lem c.next_slot_start_time normal in
      (epoch, slot, rw start next.0, rw start next.1)

  -- Where the loop stands when it ends: at slot `k`, with the slots from `i` to `k` behind it; it has
  -- come to the last slot, or was left early by a sleep that failed.
  abbrev Ran : ℕ → Controller → ControllerResult × Controller × W → Type 0
  Ran i c out =
      let r = out.0 in
      let c' = out.1 in
      let k = c'.current_slot in
      (c'.epoch ≡ c.epoch)
      × IsNormal c'.next_slot_start_time
      × (i ≤ k)
      × (total_ns c'.next_slot_start_time
          ≡ total_ns c.next_slot_start_time +ℤ pos ((k + 1 - i) * 15000000))
      × (((r ≡ ControllerResult.ok) × (k ≡ 15)) ⊎ ((r ≡ ControllerResult.error_unknown) × (k < 15)))

  -- The last slot.
  Ran-last :
      (i : ℕ) (c c1 : Controller) (w : W)
      → i ≡ 15
      → c.current_slot ≡ i
      → Moved c c1
      → Ran i c (ControllerResult.ok, c1, w)
  unfolding Moved
  Ran-last i c c1 w last at (epoch, slot, normal, start) = (
    epoch,
    normal,
    omega arith,
    start ∙ ap (λ n. total_ns c.next_slot_start_time +ℤ pos n) (omega arith),
    inl (refl, omega arith),
  )

  -- A slot before the last whose sleep fails.
  Ran-broken :
      (i : ℕ) (c c1 : Controller) (w : W)
      → i < 15
      → c.current_slot ≡ i
      → Moved c c1
      → Ran i c (ControllerResult.error_unknown, c1, w)
  unfolding Moved
  Ran-broken i c c1 w early at (epoch, slot, normal, start) = (
    epoch,
    normal,
    omega arith,
    start ∙ ap (λ n. total_ns c.next_slot_start_time +ℤ pos n) (omega arith),
    inr (refl, omega arith),
  )

  -- A slot and what the loop does after it.
  Ran-more :
      (i : ℕ) (c c1 : Controller) (out : ControllerResult × Controller × W)
      → Moved c c1
      → Ran (i + 1) (record c1 { current_slot = c1.current_slot + 1 }) out
      → Ran i c out
  unfolding Moved
  Ran-more i c c1 out (epoch, slot, normal, start) (epoch', normal', reached, start', ended) = (
    epoch' ∙ epoch,
    normal',
    omega arith,
    eq_of_parts _ _ (
        omega
          (int_laws, ap pos_part start, ap neg_part start, ap pos_part start', ap neg_part start')),
    ended,
  )

  run_slots_lem :
      (n i : ℕ) (c : Controller) (w : W)
      → i + suc n ≡ slot_count
      → c.current_slot ≡ i
      → IsNormal c.next_slot_start_time
      → Ran i c (run_slots world enabled (suc n) i c w)
  unfolding run_slots
  run_slots_lem zero i c w total at normal =
      let last : ltb i 15 ≡ false = ground arith in
      let out = run_slot world enabled i c w in
      rw last (Ran-last i c out.0 out.1 (omega arith) at (run_slot-Moved i c w normal))
  run_slots_lem (suc n) i c w total at normal =
      let early : ltb i 15 ≡ true = lt→ltb _ _ (omega arith) in
      let c1 = (run_slot world enabled i c w).0 in
      let moved = run_slot-Moved i c w normal in
      let (code, w2) =
        world.clock_nanosleep c1.next_slot_start_time (run_slot world enabled i c w).1 in
      let c2 = record c1 { current_slot = c1.current_slot + 1 } in
      rw early (elim (Bool-cases (slept code)) [
        | inl done ↦ rw done (
            Ran-more i c c1 (run_slots world enabled (suc n) (i + 1) c2 w2) moved (
              run_slots_lem n (i + 1) c2 w2 (omega arith)
                (unfold Moved in ap (λ k. k + 1) (moved.1 ∙ at)) (unfold Moved in moved.2)))
        | inr broken ↦ rw broken (Ran-broken i c c1 w2 (omega arith) at moved)
      ])

  -- What an epoch comes to, from the state `c` in which it begins.
  abbrev pub Stepped : Controller → ControllerResult × Controller × W → Type 0
  Stepped c out =
      let r = out.0 in
      let c' = out.1 in
      (c'.epoch ≡ c.epoch)
      × IsNormal c'.next_slot_start_time
      × (c'.current_slot ≤ 15)
      × (total_ns c'.next_slot_start_time
          ≡ total_ns c.next_slot_start_time +ℤ pos ((c'.current_slot + 1) * 15000000))
      × (((r ≡ ControllerResult.ok) × (c'.current_slot ≡ 15))
          ⊎ (r ≡ ControllerResult.error_unknown))

  final_sleep-Stepped :
      (c : Controller) (out : ControllerResult × Controller × W)
      → Ran 0 c out
      → Stepped c (final_sleep world enabled out)
  unfolding final_sleep
  final_sleep-Stepped c (ControllerResult.ok, c', w) (epoch, normal, _, start, ended) = (
    epoch,
    normal,
    omega arith,
    start ∙ ap (λ n. total_ns c.next_slot_start_time +ℤ pos n) (omega arith),
    elim (Bool-cases (slept (world.clock_nanosleep c'.next_slot_start_time w).0)) [
      | inl done ↦ rw done (inl (refl, ground arith))
      | inr broken ↦ rw broken (inr refl)
    ],
  )
  final_sleep-Stepped c (ControllerResult.error_unknown, c', w) (epoch, normal, _, start, ended) = (
    epoch,
    normal,
    ground arith,
    start ∙ ap (λ n. total_ns c.next_slot_start_time +ℤ pos n) (omega arith),
    inr refl,
  )
  final_sleep-Stepped c (ControllerResult.error_init_failed, c', w) ran = ground arith
  final_sleep-Stepped c (ControllerResult.error_deinit_failed, c', w) ran = ground arith
  final_sleep-Stepped c (ControllerResult.error_step_failed, c', w) ran = ground arith

  -- One epoch, from a schedule with a normal time and with integrations that leave the schedule to
  -- the controller: the epoch is counted modulo 2^64, and the start of the next slot is normal
  -- again and has moved on by exactly 15 ms for each slot that was begun. The step succeeds only
  -- with all 16 slots behind it; its only failure is CONTROLLER_RESULT_ERROR_UNKNOWN.
  pub controller_step_schedule :
      (c : Controller) (w : W)
      → IsNormal c.next_slot_start_time
      → Stepped (record c { epoch = (c.epoch + 1) % 2 ^ 64 }) (controller_step world enabled c w)
  unfolding controller_step
  controller_step_schedule c w normal =
      let c0 = record c { epoch = (c.epoch + 1) % 2 ^ 64; current_slot = 0 } in
      final_sleep-Stepped c0 (run_slots world enabled slot_count 0 c0 w)
        (run_slots_lem 15 0 c0 w refl refl normal)
