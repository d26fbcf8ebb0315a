-- ===== src/Comms/Sim/Exhaustion.antt =====
-- controller/src/comms_sim.c: a simulated device runs out of frames.
use segling.Prelude.{ℕ, suc, ◌≤◌, ◌<◌, Bool, Option, List, [], ◌∷◌, if◌then◌else◌, arith}
use segling.Comms.{Comms}
use segling.Comms.Sim.{Stdio, Sim, is_ok}
use segling.Comms.Sim.Access.{comms_read_i2c}
use segling.Comms.Sim.Calls.{Call, IsValid, g_sim, run}
use segling.Comms.Sim.Calls.Preserved.{comms_read_i2c-IsValid, devices_stay_valid}
use segling.Comms.Sim.Frames.{reads_left, comms_read_i2c-Spent}

-- The arguments of a read of one address: the register, a uint8_t, whether there is a buffer, and
-- the size.
pub record Request : Type 0 where
  pub reg : ℕ
  pub has_data : Bool
  pub size : ℕ

abbrev pub RequestsFit : List Request → Type 0
RequestsFit [] = Unit
RequestsFit (r ∷ rs) = (r.reg < 256) × RequestsFit rs

module _ (io : Stdio) where
  open io use {W}

  -- How many of the reads succeed, one after the other.
  unfoldable pub successes : Option Comms → ℕ → List Request → Sim → W → ℕ
  successes comms address [] sim w = 0
  successes comms address (r ∷ rs) sim w =
      let (result, _, sim1, w1) = comms_read_i2c io comms address r.reg r.has_data r.size sim w in
      let rest = successes comms address rs sim1 w1 in if is_ok result then suc rest else rest

  successes-reads_left :
      (comms : Option Comms) (address : ℕ) (rs : List Request) (sim : Sim) (w : W)
      → RequestsFit rs
      → IsValid sim
      → successes comms address rs sim w ≤ reads_left (sim.devices address)
  unfolding successes
  successes-reads_left comms address [] sim w fit valid = omega arith
  successes-reads_left comms address (r ∷ rs) sim w fit valid =
      let (result, _, sim1, w1) = comms_read_i2c io comms address r.reg r.has_data r.size sim w in
      let spent = comms_read_i2c-Spent io comms address r.reg r.has_data r.size sim w valid fit.0 in
      let valid1 = comms_read_i2c-IsValid io comms address r.reg r.has_data r.size sim w valid in
      let rest = successes-reads_left comms address rs sim1 w1 fit.1 valid1 in ground arith

  -- After any calls from the start of the program, whatever the files do, reads of one address
  -- succeed at most as often as its device has frames left, and at most 255 times where it is not
  -- loaded yet, however many are made.
  pub successes_bounded :
      (cs : List Call) (comms : Option Comms) (address : ℕ) (rs : List Request) (w : W)
      → RequestsFit rs
      → let (sim, w1) = run io cs g_sim w in
        successes comms address rs sim w1 ≤ reads_left (sim.devices address)
  successes_bounded cs comms address rs w fit =
      let (sim, w1) = run io cs g_sim w in
      successes-reads_left comms address rs sim w1 fit (devices_stay_valid io cs w)
