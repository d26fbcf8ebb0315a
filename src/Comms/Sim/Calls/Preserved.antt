-- ===== src/Comms/Sim/Calls/Preserved.antt =====
-- controller/src/comms_sim.c: the functions of comms.h and the invariant of the devices.
use segling.Prelude.{
  ℕ, zero, suc, ◌-◌, not, ◌||◌, inl, inr, refl, Bool, Bool-cases, Option, none, some, length, List,
  [], ◌∷◌, ◌==◌, if◌then◌else◌, arith,
}
use segling.Comms.{Comms}
use segling.Comms.Sim.{
  Stdio, Device, Sim, set_device, is_ok, sim_close_device, sim_load_device, close_all, comms_init,
  comms_deinit,
}
use segling.Comms.Sim.Access.{
  sim_ensure_device, next_frame, read_frame, read_device, comms_read_i2c, write_device,
  comms_write_i2c,
}
use segling.Comms.Sim.Calls.{Call, g_sim, apply, run, InService, DeviceIsValid, IsValid}
use segling.Comms.Sim.Loading.{set_device-IsValid, load_device-IsValid}

module _ (io : Stdio) where
  open io use {W}

  pub read_device-IsValid :
      (device : Device) (reg size : ℕ) (w : W)
      → InService device
      → InService (read_device io device reg size w).2
  unfolding read_device read_frame next_frame
  read_device-IsValid device reg size w valid = ground arith

  write_device-IsValid :
      (device : Device) (reg : ℕ) (bytes : List ℕ) (w : W)
      → InService device
      → InService (write_device io device reg bytes w).1
  unfolding write_device
  write_device-IsValid device reg bytes w valid = ground arith

  pub comms_read_i2c-IsValid :
      (comms : Option Comms) (address reg : ℕ) (has_data : Bool) (size : ℕ) (sim : Sim) (w : W)
      → IsValid sim
      → IsValid (comms_read_i2c io comms address reg has_data size sim w).2
  unfolding comms_read_i2c sim_ensure_device
  comms_read_i2c-IsValid none address reg has_data size sim w valid = valid
  comms_read_i2c-IsValid (some comms) address reg has_data size sim w valid =
      let (sim1, ensured, w1) = sim_load_device io address sim w in
      let (valid1, loaded) = load_device-IsValid io address sim w valid in
      elim (Bool-cases (not has_data || size == 0 || not comms.initialized)) [
        | inl bad ↦ rw bad valid
        | inr fine ↦ rw fine (elim (Bool-cases (not (is_ok ensured))) [
          | inl broken ↦ rw broken valid1
          | inr good ↦ rw good (elim loaded [
            | inl broken ↦ absurd (ground arith)
            | inr fit ↦
                set_device-IsValid address _ sim1
                  (inr (read_device-IsValid (sim1.devices address) reg size w1 fit)) valid1
          ])
        ])
      ]

  comms_write_i2c-IsValid :
      (comms : Option Comms) (address reg : ℕ) (bytes : Option (List ℕ)) (sim : Sim) (w : W)
      → IsValid sim
      → IsValid (comms_write_i2c io comms address reg bytes sim w).1
  unfolding comms_write_i2c sim_ensure_device
  comms_write_i2c-IsValid none address reg bytes sim w valid = valid
  comms_write_i2c-IsValid (some comms) address reg none sim w valid = valid
  comms_write_i2c-IsValid (some comms) address reg (some bytes) sim w valid =
      let (sim1, ensured, w1) = sim_load_device io address sim w in
      let (valid1, loaded) = load_device-IsValid io address sim w valid in
      elim (Bool-cases (length bytes == 0 || not comms.initialized)) [
        | inl bad ↦ rw bad valid
        | inr fine ↦ rw fine (elim (Bool-cases (not (is_ok ensured))) [
          | inl broken ↦ rw broken valid1
          | inr good ↦ rw good (elim loaded [
            | inl broken ↦ absurd (ground arith)
            | inr fit ↦
                set_device-IsValid address _ sim1
                  (inr (write_device-IsValid (sim1.devices address) reg bytes w1 fit)) valid1
          ])
        ])
      ]

  close_one-IsValid :
      (address : ℕ) (sim : Sim) (w : W)
      → IsValid sim
      → let (closed, w1) = sim_close_device io (sim.devices address) w in
        let next : Sim × W =
          if (sim.devices address).loaded then (set_device address closed sim, w1) else (sim, w) in
        IsValid next.0
  unfolding sim_close_device
  close_one-IsValid address sim w valid =
      let (closed, w1) = sim_close_device io (sim.devices address) w in
      elim (Bool-cases (sim.devices address).loaded) [
        | inl loaded ↦ rw loaded (set_device-IsValid address closed sim (inl refl) valid)
        | inr absent ↦ rw absent valid
      ]

  close_all-IsValid : (n : ℕ) (sim : Sim) (w : W) → IsValid sim → IsValid (close_all io n sim w).0
  unfolding close_all
  close_all-IsValid zero sim w valid = valid
  close_all-IsValid (suc n) sim w valid =
      close_all-IsValid n _ _ (close_one-IsValid (255 - n) sim w valid)

  comms_deinit-IsValid :
      (comms : Option Comms) (sim : Sim) (w : W)
      → IsValid sim
      → IsValid (comms_deinit io comms sim w).2
  unfolding comms_deinit
  comms_deinit-IsValid none sim w valid = valid
  comms_deinit-IsValid (some comms) sim w valid = elim (Bool-cases comms.initialized) [
    | inl up ↦ rw up (close_all-IsValid 256 sim w valid)
    | inr down ↦ rw down valid
  ]

  apply-IsValid : (c : Call) (sim : Sim) (w : W) → IsValid sim → IsValid (apply io c sim w).0
  unfolding apply comms_init
  apply-IsValid (Call.init dir none) sim w valid = valid
  apply-IsValid (Call.init dir (some comms)) sim w valid = λ address. inl refl
  apply-IsValid (Call.deinit comms) sim w valid = comms_deinit-IsValid comms sim w valid
  apply-IsValid (Call.read comms address reg has_data size) sim w valid =
      comms_read_i2c-IsValid comms address reg has_data size sim w valid
  apply-IsValid (Call.write comms address reg bytes) sim w valid =
      comms_write_i2c-IsValid comms address reg bytes sim w valid

  run-IsValid : (cs : List Call) (sim : Sim) (w : W) → IsValid sim → IsValid (run io cs sim w).0
  unfolding run
  run-IsValid [] sim w valid = valid
  run-IsValid (c ∷ cs) sim w valid =
      let (sim1, w1) = apply io c sim w in run-IsValid cs sim1 w1 (apply-IsValid c sim w valid)

  -- After any calls from the start of the program, whatever the files do, each device that is
  -- loaded has an open file with 1 to 255 frames, and stands at one of them, or is disconnected
  -- and stands right behind the last.
  pub devices_stay_valid :
      (cs : List Call) (w : W) (address : ℕ) → DeviceIsValid ((run io cs g_sim w).0.devices address)
  devices_stay_valid cs w address = run-IsValid cs g_sim w (λ a. inl refl) address
