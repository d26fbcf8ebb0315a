-- ===== src/Comms/Sim/Calls.antt =====
-- controller/src/comms_sim.c: sequences of calls of the functions of comms.h on the simulated bus.
pub mod Preserved
use segling.Prelude.{
  ℕ, ◌+◌, ◌≤◌, ◌<◌, ◌≡◌, ◌⊎◌, Bool, true, false, Option, none, some, List, [], ◌∷◌,
}
use segling.Comms.{CommsResult, Comms}
use segling.Comms.Sim.{Stdio, Device, Sim, zero_device, comms_init, comms_deinit}
use segling.Comms.Sim.Access.{comms_read_i2c, comms_write_i2c}

-- The functions of comms.h. The address, the register and the size of a read are numbers; a `none`
-- is NULL, and the Boolean says whether the buffer of a read is there.
pub data Call : Type 0 where
  init : List ℕ → Option Comms → Call
  deinit : Option Comms → Call
  read : Option Comms → ℕ → ℕ → Bool → ℕ → Call
  write : Option Comms → ℕ → ℕ → Option (List ℕ) → Call

-- The static devices, all of them zero, and the empty directory.
abbrev pub g_sim : Sim
g_sim = record { data_dir = []; devices = λ a. zero_device }

module _ (io : Stdio) where
  open io use {W}

  unfoldable pub apply : Call → Sim → W → Sim × W
  apply (Call.init dir comms) sim w =
      let (_, _, sim1, w1) = comms_init io dir comms sim w in (sim1, w1)
  apply (Call.deinit comms) sim w = let (_, _, sim1, w1) = comms_deinit io comms sim w in (sim1, w1)
  apply (Call.read comms address reg has_data size) sim w =
      let (_, _, sim1, w1) = comms_read_i2c io comms address reg has_data size sim w in (sim1, w1)
  apply (Call.write comms address reg bytes) sim w =
      let (_, sim1, w1) = comms_write_i2c io comms address reg bytes sim w in (sim1, w1)

  unfoldable pub run : List Call → Sim → W → Sim × W
  run [] sim w = (sim, w)
  run (c ∷ cs) sim w = let (sim1, w1) = apply c sim w in run cs sim1 w1

-- A device that is loaded has an open file of 1 to 255 whole frames, stands at one of them or behind
-- the last, and behind the last it is gone.
abbrev pub InService : Device → Type 0
InService device =
    ((file : ℕ) × (device.file ≡ some file))
    × (1 ≤ device.frame_count)
    × (device.frame_count ≤ 255)
    × (1 ≤ device.frame_len)
    × (device.line_index ≤ device.frame_count)
    × ((device.line_index < device.frame_count) ⊎ (device.disconnected ≡ true))

abbrev pub DeviceIsValid : Device → Type 0
DeviceIsValid device = (device.loaded ≡ false) ⊎ InService device

abbrev pub IsValid : Sim → Type 0
IsValid sim = (address : ℕ) → DeviceIsValid (sim.devices address)
