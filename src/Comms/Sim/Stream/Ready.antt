-- ===== src/Comms/Sim/Stream/Ready.antt =====
-- controller/src/comms_sim.c: one read of all registers of a device that has a frame to give.
use segling.Prelude.{
  ℕ, suc, ◌*◌, ◌≤◌, ◌<◌, ◌≡◌, ap, ◌∙◌, true, false, some, take, drop, length, ◌==◌, ==_iff, arith,
}
use segling.Comms.{CommsResult, Comms}
use segling.Comms.Sim.{
  Stdio, DeviceDesc, Device, Sim, is_ok, frame_offset, sim_load_device, sim_device_desc,
  outside_frame, set_device,
}
use segling.Comms.Sim.Access.{
  next_frame, read_frame, read_device, comms_read_i2c, sim_ensure_device,
}
use segling.Comms.Sim.Stream.{FileLaws}
use segling.Comms.Sim.Stream.Refine.{read_frame_open}

-- A device that is loaded from the file and has a frame to give.
pub record IsReady (file : ℕ) (device : Device) : Type 0 where
  pub opened : device.file ≡ some file
  pub loaded : device.loaded ≡ true
  pub here : device.disconnected ≡ false
  pub early : device.line_index < device.frame_count
  pub few : device.frame_count ≤ 255
  pub short : device.frame_len ≤ 128
  pub long : 1 ≤ device.frame_len
  pub small : device.start_reg < 256

pub next_frame-IsReady :
    (file : ℕ) (device : Device)
    → IsReady file device
    → suc device.line_index < device.frame_count
    → IsReady file (next_frame device)
unfolding next_frame
next_frame-IsReady file device ready more = ground arith

pub line_index-next_frame :
    (file : ℕ) (device : Device)
    → IsReady file device
    → (next_frame device).line_index ≡ suc device.line_index
unfolding next_frame
line_index-next_frame file device ready = omega (arith, ready.early, ready.few)

module _ (io : Stdio) (laws : FileLaws io) where
  open io use {W}

  pub load_device_ready :
      (address : ℕ) (desc : DeviceDesc) (sim : Sim) (w : W)
      → sim_device_desc address ≡ some desc
      → (sim.devices address).loaded ≡ true
      → sim_load_device io address sim w ≡ (sim, CommsResult.ok, w)
  unfolding sim_load_device
  load_device_ready address desc sim w known loaded = rw (known, loaded)

  read_device_ready :
      (file : ℕ) (device : Device) (w : W)
      → IsReady file device
      → read_device io device device.start_reg device.frame_len w
        ≡ read_frame io device device.start_reg device.frame_len w
  unfolding read_device outside_frame
  read_device_ready file device w ready = ground arith

  -- One read of a whole frame, where the file can be sought and gives as many bytes.
  pub read_frame_ready :
      (file : ℕ) (device : Device) (w : W)
      → IsReady file device
      → (io.fseek_set file (frame_offset device device.start_reg) w).0 ≡ true
      → length
          (io.fread file device.frame_len
            (io.fseek_set file (frame_offset device device.start_reg) w).1).0
        ≡ device.frame_len
      → let (found, w1) = io.fseek_set file (frame_offset device device.start_reg) w in
        read_frame io device device.start_reg device.frame_len w ≡ (
          CommsResult.ok,
          take device.frame_len
              (drop (device.line_index * device.frame_len) (laws.contents file w)),
          next_frame device,
          (io.fread file device.frame_len w1).1,
        )
  read_frame_ready file device w ready found full =
      let len = device.frame_len in
      let at = device.line_index * len in
      let offset = frame_offset device device.start_reg in
      let w1 = (io.fseek_set file offset w).1 in
      let place : offset ≡ at = omega arith in
      let bytes =
        laws.fread_lem file offset len w found full
        ∙ ap (λ (k : ℕ). take len (drop k (laws.contents file w))) place in
      let counted : (length (io.fread file len w1).0 == len) ≡ true = (==_iff _ _).1 full in
      read_frame_open io laws file device device.start_reg len w ready.opened (omega arith)
      ∙ rw (found, counted)
          (ap (λ bs. (CommsResult.ok, bs, next_frame device, (io.fread file len w1).1)) bytes)

  -- One read of a whole frame over the bus.
  pub comms_read_ready :
      (file address : ℕ) (desc : DeviceDesc) (comms : Comms) (sim : Sim) (w : W)
      → sim_device_desc address ≡ some desc
      → comms.initialized ≡ true
      → IsReady file (sim.devices address)
      → let device = sim.devices address in
        comms_read_i2c io (some comms) address device.start_reg true device.frame_len sim w ≡ (
          let (result, bytes, device', w') =
            read_frame io device device.start_reg device.frame_len w in
          (result, bytes, set_device address device' sim, w'))
  unfolding comms_read_i2c sim_ensure_device is_ok
  comms_read_ready file address desc comms sim w known up ready =
      let device = sim.devices address in
      let nonzero : (device.frame_len == 0) ≡ false = ground (arith, ready.long) in
      rw (
        load_device_ready address desc sim w known ready.loaded,
        up,
        nonzero,
        read_device_ready file device w ready,
      )
