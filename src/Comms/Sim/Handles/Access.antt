-- ===== src/Comms/Sim/Handles/Access.antt =====
-- controller/src/comms_sim.c: the open files over one call of comms.h.
use segling.Prelude.{
  ℕ, zero, suc, ◌-◌, ◌≤◌, ◌<◌, ◌≡◌, inl, inr, refl, sym, ◌∙◌, Bool, true, ◌||◌, not, Bool-cases,
  Option, none, some, Option-cases, List, length, ◌==◌, if◌then◌else◌, arith,
}
use segling.Comms.{Comms}
use segling.Comms.Sim.{
  Stdio, Sim, set_device, is_ok, sim_close_device, sim_load_device, close_all, comms_deinit,
}
use segling.Comms.Sim.Access.{sim_ensure_device, comms_read_i2c, comms_write_i2c}
use segling.Comms.Sim.Handles.{HandleLaws, Accounted, unloaded-none, Accounted-closed}
use segling.Comms.Sim.Handles.Devices.{
  load_device-Accounted, Accounted-replaced, read_device-Steady, write_device-Steady,
}

module _ (io : Stdio) (laws : HandleLaws io) (base : ℕ → Bool) where
  open io use {W}

  pub comms_read_i2c-Accounted :
      (comms : Option Comms) (address reg : ℕ) (has_data : Bool) (size : ℕ) (sim : Sim) (w : W)
      → Accounted io laws base sim w
      → let out = comms_read_i2c io comms address reg has_data size sim w in
        Accounted io laws base out.2 out.3
  unfolding comms_read_i2c sim_ensure_device
  comms_read_i2c-Accounted none address reg has_data size sim w accounted = accounted
  comms_read_i2c-Accounted (some comms) address reg has_data size sim w accounted =
      let (sim1, ensured, w1) = sim_load_device io address sim w in
      let accounted1 = load_device-Accounted io laws base address sim w accounted in
      elim (Bool-cases (not has_data || size == 0 || not comms.initialized)) [
        | inl bad ↦ rw bad accounted
        | inr fine ↦ elim (Bool-cases (not (is_ok ensured))) [
          | inl broken ↦ rw (fine, broken) accounted1
          | inr good ↦
              let device = sim1.devices address in
              rw (fine, good)
                (Accounted-replaced io laws base sim1 address _ w1 _
                  (read_device-Steady io laws device reg size 0 w1).0
                  (λ file h. (read_device-Steady io laws device reg size 0 w1).1)
                  (λ other. (read_device-Steady io laws device reg size other w1).2) accounted1)
        ]
      ]

  pub comms_write_i2c-Accounted :
      (comms : Option Comms) (address reg : ℕ) (bytes : Option (List ℕ)) (sim : Sim) (w : W)
      → Accounted io laws base sim w
      → let out = comms_write_i2c io comms address reg bytes sim w in
        Accounted io laws base out.1 out.2
  unfolding comms_write_i2c sim_ensure_device
  comms_write_i2c-Accounted none address reg bytes sim w accounted = accounted
  comms_write_i2c-Accounted (some comms) address reg none sim w accounted = accounted
  comms_write_i2c-Accounted (some comms) address reg (some bytes) sim w accounted =
      let (sim1, ensured, w1) = sim_load_device io address sim w in
      let accounted1 = load_device-Accounted io laws base address sim w accounted in
      elim (Bool-cases (length bytes == 0 || not comms.initialized)) [
        | inl bad ↦ rw bad accounted
        | inr fine ↦ elim (Bool-cases (not (is_ok ensured))) [
          | inl broken ↦ rw (fine, broken) accounted1
          | inr good ↦
              let device = sim1.devices address in
              rw (fine, good)
                (Accounted-replaced io laws base sim1 address _ w1 _
                  (write_device-Steady io laws device reg bytes 0 w1).0
                  (λ file h. (write_device-Steady io laws device reg bytes 0 w1).1)
                  (λ other. (write_device-Steady io laws device reg bytes other w1).2) accounted1)
        ]
      ]

  -- One round of the loop of `comms_deinit`.
  close_one-Accounted :
      (address : ℕ) (sim : Sim) (w : W)
      → Accounted io laws base sim w
      → let (closed, w1) = sim_close_device io (sim.devices address) w in
        let next : Sim × W =
          if (sim.devices address).loaded then (set_device address closed sim, w1) else (sim, w) in
        Accounted io laws base next.0 next.1
        × ((next.0.devices address).file ≡ none)
        × ((other : ℕ) → (sim.devices other).file ≡ none → (next.0.devices other).file ≡ none)
  unfolding sim_close_device set_device
  close_one-Accounted address sim w accounted = elim (Bool-cases (sim.devices address).loaded) [
    | inl loaded ↦ rw loaded (elim (Option-cases (sim.devices address).file) [
      | inl empty ↦ rw empty (
        Accounted-replaced io laws base sim address _ w w (sym empty)
            (λ file h. absurd (ground arith)) (λ other. refl) accounted,
        ground arith,
        λ other h. ground arith,
      )
      | inr (file, held) ↦ rw held (
        Accounted-closed io laws base sim address file _ w _ held refl
            (λ other. laws.fclose_lem file other w (accounted.own address file held).0) accounted,
        ground arith,
        λ other h. ground arith,
      )
    ])
    | inr absent ↦
        rw absent
          (accounted, unloaded-none io laws base sim w address accounted absent, λ other h. h)
  ]

  close_all-Accounted :
      (n : ℕ) (sim : Sim) (w : W)
      → n ≤ 256
      → Accounted io laws base sim w
      → ((address : ℕ) → address < 256 - n → (sim.devices address).file ≡ none)
      → let (sim', w') = close_all io n sim w in
        Accounted io laws base sim' w'
        × ((address : ℕ) → address < 256 → (sim'.devices address).file ≡ none)
  unfolding close_all
  close_all-Accounted zero sim w small accounted done = (accounted, done)
  close_all-Accounted (suc n) sim w small accounted done =
      let (accounted1, here, still) = close_one-Accounted (255 - n) sim w accounted in
      close_all-Accounted n _ _ (omega arith) accounted1 (λ address h.
        elim (Bool-cases (address == 255 - n)) [
          | inl same ↦ let e : address ≡ 255 - n = ground arith in rw e here
          | inr away ↦ still address (done address (ground arith))
        ])

  pub comms_deinit-Accounted :
      (comms : Option Comms) (sim : Sim) (w : W)
      → Accounted io laws base sim w
      → let out = comms_deinit io comms sim w in Accounted io laws base out.2 out.3
  unfolding comms_deinit
  comms_deinit-Accounted none sim w accounted = accounted
  comms_deinit-Accounted (some comms) sim w accounted = elim (Bool-cases comms.initialized) [
    | inl up ↦
        rw up
          (close_all-Accounted 256 sim w (omega arith) accounted (λ a h. absurd (omega arith))).0
    | inr down ↦ rw down accounted
  ]

  -- After `comms_deinit` of a bus that is up, the open files are those of `base`.
  pub comms_deinit-base :
      (comms : Comms) (sim : Sim) (w : W) (file : ℕ)
      → comms.initialized ≡ true
      → Accounted io laws base sim w
      → laws.is_open file (comms_deinit io (some comms) sim w).3 ≡ base file
  unfolding comms_deinit
  comms_deinit-base comms sim w file up accounted =
      let (closed, empty) =
        close_all-Accounted 256 sim w (omega arith) accounted (λ a h. absurd (omega arith)) in
      let sim' = (close_all io 256 sim w).0 in
      rw up (elim (Bool-cases (base file)) [
        | inl old ↦ closed.kept file old ∙ sym old
        | inr new ↦ elim (Bool-cases (laws.is_open file (close_all io 256 sim w).1)) [
          | inl on ↦ elim (closed.known file on) [
            | inl old ↦ absurd (cc (old, new))
            | inr (address, held) ↦
                absurd (cc (held, empty address (closed.own address file held).2))
          ]
          | inr off ↦ off ∙ sym new
        ]
      ])
