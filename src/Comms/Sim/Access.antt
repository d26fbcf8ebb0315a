-- ===== src/Comms/Sim/Access.antt =====
-- controller/src/comms_sim.c: `sim_ensure_device`, `comms_read_i2c` and `comms_write_i2c`. A read
-- gives the bytes that it put in the caller's buffer; whether that buffer is NULL is an argument.
use segling.Prelude.{
  ℕ, ◌+◌, ◌%◌, Bool, true, ◌||◌, not, Option, none, some, List, [], length, ltb, leb, ◌==◌,
  if◌then◌else◌,
}
use segling.Comms.{CommsResult, Comms}
use segling.Comms.Sim.{
  Stdio, Device, Sim, set_device, is_ok, sim_load_device, sim_seek_frame_reg, outside_frame,
}

-- The next frame, a uint8_t; behind the last one the device is gone.
unfoldable pub next_frame : Device → Device
next_frame device =
    let next = (device.line_index + 1) % 256 in
    record device {
      line_index = next;
      disconnected = leb device.frame_count next || device.disconnected;
    }

module _ (io : Stdio) where
  open io use {W, fread, fwrite}

  -- The device of an address is the entry of `devices` there.
  unfoldable pub sim_ensure_device : ℕ → Sim → W → Sim × CommsResult × W
  sim_ensure_device address sim w = sim_load_device io address sim w

  fread_from : Option ℕ → ℕ → W → List ℕ × W
  fread_from none size w = ([], w)
  fread_from (some file) size w = fread file size w

  fwrite_to : Option ℕ → List ℕ → W → ℕ × W
  fwrite_to none bytes w = (0, w)
  fwrite_to (some file) bytes w = fwrite file bytes w

  unfoldable pub read_frame : Device → ℕ → ℕ → W → CommsResult × List ℕ × Device × W
  unfolding fread_from
  read_frame device reg size w =
      let (sought, w1) = sim_seek_frame_reg io device reg w in
      let (bytes, w2) = fread_from device.file size w1 in
      if not (is_ok sought)
      then (sought, [], device, w1)
      else if not (length bytes == size)
      then (CommsResult.error_read_failed, bytes, device, w2)
      else (CommsResult.ok, bytes, next_frame device, w2)

  unfoldable pub read_device : Device → ℕ → ℕ → W → CommsResult × List ℕ × Device × W
  read_device device reg size w =
      if device.disconnected
      then (CommsResult.error_read_failed, [], device, w)
      else if leb device.frame_count device.line_index
      then (CommsResult.error_read_failed, [], record device { disconnected = true }, w)
      else if ltb reg device.start_reg
      then (CommsResult.error_read_failed, [], device, w)
      else if outside_frame device reg size
      then (CommsResult.error_read_failed, [], device, w)
      else read_frame device reg size w

  unfoldable pub comms_read_i2c :
      Option Comms → ℕ → ℕ → Bool → ℕ → Sim → W → CommsResult × List ℕ × Sim × W
  comms_read_i2c none address reg has_data size sim w = (CommsResult.error_read_failed, [], sim, w)
  comms_read_i2c (some comms) address reg has_data size sim w =
      let (sim1, ensured, w1) = sim_ensure_device address sim w in
      let (result, bytes, device, w2) = read_device (sim1.devices address) reg size w1 in
      if not has_data || size == 0 || not comms.initialized
      then (CommsResult.error_read_failed, [], sim, w)
      else if not (is_ok ensured)
      then (ensured, [], sim1, w1)
      else (result, bytes, set_device address device sim1, w2)

  unfoldable pub write_frame : Device → ℕ → List ℕ → W → CommsResult × W
  unfolding fwrite_to
  write_frame device reg bytes w =
      let (sought, w1) = sim_seek_frame_reg io device reg w in
      let (written, w2) = fwrite_to device.file bytes w1 in
      if not (is_ok sought)
      then (sought, w1)
      else if not (written == length bytes)
      then (CommsResult.error_write_failed, w2)
      else (CommsResult.ok, w2)

  unfoldable pub write_device : Device → ℕ → List ℕ → W → CommsResult × Device × W
  write_device device reg bytes w =
      let (result, w1) = write_frame device reg bytes w in
      if device.disconnected
      then (CommsResult.error_write_failed, device, w)
      else if leb device.frame_count device.line_index
      then (CommsResult.error_write_failed, record device { disconnected = true }, w)
      else if ltb reg device.start_reg
      then (CommsResult.error_write_failed, device, w)
      else if outside_frame device reg (length bytes)
      then (CommsResult.error_write_failed, device, w)
      else (result, device, w1)

  -- The data of a write are the `size` bytes at `data`; NULL is none.
  unfoldable pub comms_write_i2c :
      Option Comms → ℕ → ℕ → Option (List ℕ) → Sim → W → CommsResult × Sim × W
  comms_write_i2c (some comms) address reg (some bytes) sim w =
      let (sim1, ensured, w1) = sim_ensure_device address sim w in
      let (result, device, w2) = write_device (sim1.devices address) reg bytes w1 in
      if length bytes == 0 || not comms.initialized
      then (CommsResult.error_write_failed, sim, w)
      else if not (is_ok ensured)
      then (ensured, sim1, w1)
      else (result, set_device address device sim1, w2)
  comms_write_i2c _ address reg _ sim w = (CommsResult.error_write_failed, sim, w)
