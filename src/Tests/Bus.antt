-- ===== src/Tests/Bus.antt =====
-- The two I2C backends at concrete inputs.
use segling.Prelude.{
  drop, take, overwrite, ℕ, ◌+◌, ◌<◌, ◌≤◌, ◌≡◌, ◌⊎◌, refl, true, false, some, none, List, [], ◌∷◌,
  replicate, length, arith,
}
use segling.Prelude.Int.{ℤ, pos, negsuc, ltb_ℤ}
use segling.Comms.{CommsResult, Comms}
use segling.Comms.Sim.{Stdio, Device}
use segling.Comms.Sim.Calls.{Call, DeviceIsValid, g_sim, run}
use segling.Comms.Sim.Calls.Preserved.{devices_stay_valid}
use segling.Comms.Sim.Frames.{reads_left}
use segling.Comms.Sim.Exhaustion.{Request, successes, successes_bounded}
use segling.Comms.Hardware.{Message, Bus, comms_write_i2c}
use segling.Comms.Hardware.Registers.{RegisterLaws}
use segling.Comms.Hardware.Transfers.{CanWrite, comms_write_i2c_lem}

-- Files of 28 bytes, two frames of the IMU. The state is the position.
abbrev two_frames : Stdio
two_frames = record {
  W = ℕ;
  fopen = λ path w. (some 3, 0);
  fclose = λ file w. w;
  fseek_end = λ file w. (true, 28);
  ftell = λ file w. (pos w, w);
  fseek_set = λ file offset w. (true, offset);
  fread = λ file n w. (replicate n 7, w + n);
  fwrite = λ file bytes w. (length bytes, w + length bytes);
}

abbrev up : Comms
up = record { initialized = true; i2c_fd = pos 3 }

abbrev session : List Call
session =
    Call.init (b'd' ∷ []) (some up) ∷ Call.read (some up) 0x68 0x3B true 6 ∷ Call.deinit none ∷ []

devices_stay_valid_example : DeviceIsValid ((run two_frames session g_sim 0).0.devices 0x68)
devices_stay_valid_example = devices_stay_valid two_frames session 0 0x68

abbrev imu : Device
imu = record {
  loaded = true;
  disconnected = false;
  start_reg = 0x3B;
  frame_len = 14;
  frame_count = 2;
  line_index = 1;
  file = some 3;
}

abbrev request : Request
request = record { reg = 0x3B; has_data = true; size = 14 }

successes_bounded_example :
    successes two_frames
      (some up)
      0x68
      (request ∷ request ∷ request ∷ [])
      (run two_frames session g_sim 0).0
      (run two_frames session g_sim 0).1
    ≤ reads_left ((run two_frames session g_sim 0).0.devices 0x68)
successes_bounded_example =
    successes_bounded two_frames session (some up) 0x68 (request ∷ request ∷ request ∷ []) 0
      (omega arith)

-- A bus whose state counts the transfers.
abbrev counting_bus : Bus
counting_bus = record {
  W = ℕ;
  open_bus = λ w. (pos 3, w);
  close_bus = λ fd w. w;
  transfer = λ fd messages w. (pos 2, [], w + 1);
}

abbrev register_message : Message
register_message = record { addr = 0x68; reads = false; len = 2; buf = 0x6B ∷ 0 ∷ [] }

abbrev payload : List ℕ
payload = 0 ∷ []

comms_write_i2c_lem_example :
    (CanWrite up payload
      × (2 ≤ 129)
      × ((comms_write_i2c counting_bus (some up) 0x68 0x6B (some payload) 0).1
          ≡ (counting_bus.transfer (pos 3) (register_message ∷ []) 0).2)
      × ((ltb_ℤ (counting_bus.transfer (pos 3) (register_message ∷ []) 0).0 (pos 0) ≡ true)
            × ((comms_write_i2c counting_bus (some up) 0x68 0x6B (some payload) 0).0
                ≡ CommsResult.error_write_failed)
          ⊎ (ltb_ℤ (counting_bus.transfer (pos 3) (register_message ∷ []) 0).0 (pos 0) ≡ false)
            × ((comms_write_i2c counting_bus (some up) 0x68 0x6B (some payload) 0).0
                ≡ CommsResult.ok)))
    ⊎ (((up.initialized ≡ false)
          ⊎ (ltb_ℤ up.i2c_fd (pos 0) ≡ true)
          ⊎ (length payload ≡ 0)
          ⊎ (128 < length payload))
        × (comms_write_i2c counting_bus (some up) 0x68 0x6B (some payload) 0
            ≡ (CommsResult.error_write_failed, 0)))
comms_write_i2c_lem_example = comms_write_i2c_lem counting_bus up 0x68 0x6B payload 0

-- A bus with one bank of registers, which answers at every address.
abbrev serve : List Message → List ℕ → ℤ × List ℕ × List ℕ
serve [] bank = (negsuc 0, [], bank)
serve (m ∷ []) bank = elim m.buf [
  | [] ↦ (negsuc 0, [], bank)
  | reg ∷ bytes ↦ (pos 1, [], overwrite bank reg bytes)
]
serve (m ∷ r ∷ ms) bank = elim m.buf [
  | [] ↦ (negsuc 0, [], bank)
  | reg ∷ bytes ↦ (pos 2, take r.len (drop reg bank), bank)
]

abbrev bank_bus : Bus
bank_bus = record {
  W = List ℕ;
  open_bus = λ w. (pos 3, w);
  close_bus = λ fd w. w;
  transfer = λ fd messages w. serve messages w;
}

abbrev bank_bus-RegisterLaws : RegisterLaws bank_bus
bank_bus-RegisterLaws = record {
  registers = λ address w. w;
  transfer_write = λ fd address reg len bytes w whole sent. refl;
  transfer_read = λ fd address reg len w received. refl;
}

abbrev bank : List ℕ
bank = replicate 8 0
