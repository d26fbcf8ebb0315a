-- ===== src/Comms/Sim/Closing.antt =====
-- controller/src/comms_sim.c, `comms_deinit`: the loop over the addresses.
use segling.Prelude.{
  ℕ, zero, suc, ◌-◌, ◌≤◌, ◌<◌, ◌≡◌, inl, inr, refl, true, false, Bool-cases, some, ◌==◌,
  if◌then◌else◌, arith,
}
use segling.Comms.{CommsResult, Comms}
use segling.Comms.Sim.{Stdio, Sim, set_device, sim_close_device, close_all, comms_deinit}

module _ (io : Stdio) where
  open io use {W}

  -- One round of the loop unloads its device, and loads none.
  close_one-unloads :
      (address other : ℕ) (sim : Sim) (w : W)
      → let (closed, w1) = sim_close_device io (sim.devices address) w in
        let next : Sim × W =
          if (sim.devices address).loaded then (set_device address closed sim, w1) else (sim, w) in
        ((next.0.devices address).loaded ≡ false)
        × ((sim.devices other).loaded ≡ false → (next.0.devices other).loaded ≡ false)
  unfolding sim_close_device set_device
  close_one-unloads address other sim w = elim (Bool-cases (sim.devices address).loaded) [
    | inl loaded ↦ rw loaded (ground arith, λ h. ground arith)
    | inr absent ↦ rw absent (absent, λ h. h)
  ]

  close_all-unloads :
      (n : ℕ) (sim : Sim) (w : W)
      → n ≤ 256
      → ((address : ℕ) → address < 256 - n → (sim.devices address).loaded ≡ false)
      → (address : ℕ) → address < 256
      → ((close_all io n sim w).0.devices address).loaded ≡ false
  unfolding close_all
  close_all-unloads zero sim w small done address h = done address h
  close_all-unloads (suc n) sim w small done address h =
      close_all-unloads n _ _ (omega arith)
        (λ a below. elim (Bool-cases (a == 255 - n)) [
          | inl same ↦
              let e : a ≡ 255 - n = ground arith in rw e (close_one-unloads (255 - n) 0 sim w).0
          | inr away ↦ (close_one-unloads (255 - n) a sim w).1 (done a (ground arith))
        ])
        address h

  -- A bus that is up goes down, and no device stays loaded.
  pub comms_deinit_up :
      (comms : Comms) (sim : Sim) (w : W) (address : ℕ)
      → comms.initialized ≡ true
      → address < 256
      → let (result, comms', sim', _) = comms_deinit io (some comms) sim w in
        (result ≡ CommsResult.ok)
        × ((c : Comms) × (comms' ≡ some c) × (c.initialized ≡ false))
        × ((sim'.devices address).loaded ≡ false)
  unfolding comms_deinit
  comms_deinit_up comms sim w address up small = rw up (
    refl,
    (_, refl, refl),
    close_all-unloads 256 sim w (omega arith) (λ a h. absurd (omega arith)) address small,
  )
