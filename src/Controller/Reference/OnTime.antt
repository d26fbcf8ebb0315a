-- ===== src/Controller/Reference/OnTime.antt =====
-- controller/src/controller.c on a machine that keeps time: the loop against the clock.
use segling.Prelude.{
  ℕ, zero, suc, ◌+◌, ◌/◌, ◌%◌, ◌^◌, ◌≤◌, ◌≡◌, ◌∙◌, ap, sym, subst, refl, le→leb, List, [], ◌∷◌,
  arith,
}
use segling.Prelude.Int.{pos, pos_part, neg_part, InI64, int_laws, *ℤ_parts, eq_of_parts}
use segling.Controller.{
  ControllerResult, Controller, Handler, Enabled, World, slept, slot_handlers, dispatch,
  controller_step, abs_time_diff_us, diff_us, max_slot_jitter_us,
}
use segling.Controller.Time.{total_ns, diff_us_lem, abs_time_diff_us_lem}
use segling.Controller.Schedule.{Polite}
use segling.Controller.Reference.{
  of_ns, slot_start, Shared, controller_at, shared_of, plan_slot, plan_slots, report, jitter_at,
  jitters,
}
use segling.Controller.Reference.Equivalence.{controller_step_refines}

total_ns-of_ns : (t : ℕ) → total_ns (of_ns t) ≡ pos t
unfolding total_ns
total_ns-of_ns t =
    eq_of_parts _ _ (omega (int_laws, *ℤ_parts (pos (t / 1000000000)) (pos 1000000000)))

-- A clock that is up to 500 us late measures no more than the limit.
prompt_jitter :
    (now due : ℕ)
    → due ≤ now
    → now ≤ due + 500000
    → abs_time_diff_us (of_ns now) (of_ns due) ≤ max_slot_jitter_us
prompt_jitter now due late soon =
    let a = total_ns-of_ns now in
    let b = total_ns-of_ns due in
    let diff = diff_us_lem (of_ns now) (of_ns due) in
    let thousand = *ℤ_parts (pos 1000) (diff_us (of_ns now) (of_ns due)) in
    let fits : InI64 (diff_us (of_ns now) (of_ns due)) =
      omega
        (int_laws, diff, thousand, ap pos_part a, ap neg_part a, ap pos_part b, ap neg_part b) in
    let jitter = abs_time_diff_us_lem (of_ns now) (of_ns due) fits in
    omega (int_laws, jitter, ap pos_part a, ap neg_part a, ap pos_part b, ap neg_part b)

-- A machine that keeps time: its clock reads `now`, in nanoseconds, and a call of it takes 0.25 ms at
-- most, a step of an integration 14 ms; and a sleep until a time that is not past succeeds and
-- wakes at that time, or 0.5 ms behind it at most.
abbrev pub Quick : {W : Type 0} → (W → ℕ) → Handler W → Type 0
Quick {W} now handler =
    (c : Controller) (e : ℕ) (w : W)
    → (now w ≤ now (handler c e w).1) × (now (handler c e w).1 ≤ now w + 14000000)

pub record Punctual (world : World) : Type 0 where
  pub now : world.W → ℕ
  pub reads : (w : world.W) → (world.clock_gettime w).0 ≡ of_ns (now w)
  pub clock :
      (w : world.W)
      → (now w ≤ now (world.clock_gettime w).1) × (now (world.clock_gettime w).1 ≤ now w + 250000)
  pub sleeps :
      (t : ℕ) (w : world.W)
      → now w ≤ t
      → let (code, w1) = world.clock_nanosleep (of_ns t) w in
        (code ≡ pos 0) × (t ≤ now w1) × (now w1 ≤ t + 500000)
  pub ahrs : Quick {W = world.W} now world.ahrs_step
  pub gps : Quick {W = world.W} now world.gps_step
  pub barometer : Quick {W = world.W} now world.barometer_step
  pub rudder : Quick {W = world.W} now world.rudder_step
  pub autopilot : Quick {W = world.W} now world.autopilot_step
  pub interface : Quick {W = world.W} now world.interface_step

-- No slot was late.
abbrev pub AllPrompt : List (ℕ × ℕ) → Type 0
AllPrompt [] = Unit
AllPrompt ((i, jitter) ∷ rest) = (jitter ≤ max_slot_jitter_us) × AllPrompt rest

-- The time `t` is there, and no more than 500 us ago.
abbrev pub At : {world : World} → Punctual world → ℕ → world.W → Type 0
At punctual t w = (t ≤ punctual.now w) × (punctual.now w ≤ t + 500000)

module _ (world : World) (enabled : Enabled) (punctual : Punctual world) where
  open world use {W}
  open punctual use {now}

  dispatch-time :
      (i : ℕ) (c : Controller) (w : W)
      → let w1 = (dispatch world enabled (slot_handlers world enabled i) c w).1 in
        (now w ≤ now w1) × (now w1 ≤ now w + 14000000)
  unfolding dispatch slot_handlers
  dispatch-time zero c w = ground (arith, punctual.ahrs c c.epoch w)
  dispatch-time (suc zero) c w = ground (arith, punctual.gps c c.epoch w)
  dispatch-time (suc (suc zero)) c w = ground (arith, punctual.barometer c c.epoch w)
  dispatch-time (suc (suc (suc zero))) c w = ground (arith, punctual.rudder c c.epoch w)
  dispatch-time (suc (suc (suc (suc zero)))) c w = ground (arith, punctual.autopilot c c.epoch w)
  dispatch-time (suc (suc (suc (suc (suc zero))))) c w =
      ground (arith, punctual.interface c c.epoch w)
  dispatch-time (suc (suc (suc (suc (suc (suc i)))))) c w = (omega arith, omega arith)

  module _ (epoch start : ℕ) where
    slot_prompt :
        (i : ℕ) (w : W)
        → At punctual (slot_start start i) w
        → jitter_at world enabled epoch start i w ≤ max_slot_jitter_us
    slot_prompt i w (late, soon) =
        rw (punctual.reads w) (prompt_jitter (now w) (slot_start start i) late soon)

    -- A slot that starts in time is over before the next one starts.
    plan_slot-time :
        (i : ℕ) (shared : Shared) (w : W)
        → At punctual (slot_start start i) w
        → now (plan_slot world enabled epoch start i shared w).1 ≤ slot_start start (suc i)
    unfolding plan_slot
    plan_slot-time i shared w here =
        let w1 = (world.clock_gettime w).1 in
        let due = slot_start start i in
        let prompt = le→leb _ _ (slot_prompt i w here) in
        let ran = dispatch-time i (controller_at epoch i due shared) w1 in
        rw prompt (omega (arith, here, punctual.clock w, ran))

    plan_slots-time :
        (n i : ℕ) (shared : Shared) (w : W)
        → At punctual (slot_start start i) w
        → let r = plan_slots world enabled epoch start n i shared w in
          (r.result ≡ ControllerResult.ok)
          × (r.last ≡ i + n)
          × At punctual (slot_start start (suc (i + n))) r.world
          × AllPrompt (jitters world enabled epoch start n i shared w)
    unfolding plan_slots jitters slept
    plan_slots-time zero i shared w here =
        let over = plan_slot-time i shared w here in
        let (shared1, w1) = plan_slot world enabled epoch start i shared w in
        let (woke, late, soon) = punctual.sleeps (slot_start start (suc i)) w1 over in
        let same : i + 0 ≡ i = omega arith in
        rw (woke, same) (refl, refl, (late, soon), (slot_prompt i w here, tt))
    plan_slots-time (suc n) i shared w here =
        let over = plan_slot-time i shared w here in
        let (shared1, w1) = plan_slot world enabled epoch start i shared w in
        let (woke, late, soon) = punctual.sleeps (slot_start start (suc i)) w1 over in
        let w2 = (world.clock_nanosleep (of_ns (slot_start start (suc i))) w1).1 in
        let (good, last, on_time, prompt) = plan_slots-time n (suc i) shared1 w2 (late, soon) in
        let same : suc i + n ≡ i + suc n = omega arith in
        rw woke (
          good,
          last ∙ same,
          subst
              (λ k.
                At punctual (slot_start start (suc k))
                  (plan_slots world enabled epoch start n (suc i) shared1 w2).world)
              same on_time,
          (slot_prompt i w here, prompt),
        )

  -- On a machine that keeps time, with integrations that leave the schedule to the controller, an
  -- epoch that is begun at its time, or up to 500 us late, succeeds: all 16 slots are begun, none more
  -- than 500 us off its time, and the next epoch begins exactly 240 ms after this one, where the
  -- clock has come to, or is up to 500 us behind.
  pub epoch_on_time :
      Polite world
      → (c : Controller) (start : ℕ) (w : W) → c.next_slot_start_time ≡ of_ns start
      → At punctual start w
      → let (result, c', w') = controller_step world enabled c w in
        (result ≡ ControllerResult.ok)
        × (c'.current_slot ≡ 15)
        × (c'.next_slot_start_time ≡ of_ns (start + 240000000))
        × At punctual (start + 240000000) w'
        × AllPrompt (jitters world enabled ((c.epoch + 1) % 2 ^ 64) start 15 0 (shared_of c) w)
  unfolding report
  epoch_on_time polite c start w at here =
      let epoch = (c.epoch + 1) % 2 ^ 64 in
      let first : slot_start start 0 ≡ start = omega arith in
      let r = plan_slots world enabled epoch start 15 0 (shared_of c) w in
      let (good, last, on_time, prompt) =
        plan_slots-time epoch start 15 0 (shared_of c) w
          (subst (λ t. At punctual t w) (sym first) here) in
      let next : slot_start start 16 ≡ start + 240000000 = omega arith in
      rw (controller_step_refines world enabled polite c start w at, last)
        (good, refl, ap of_ns next, subst (λ t. At punctual t r.world) next on_time, prompt)
