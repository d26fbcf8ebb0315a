-- ===== src/Comms/Sim/Frames.antt =====
-- controller/src/comms_sim.c: what reads of a simulated device give.
use segling.Prelude.{
  ℕ, suc, ◌+◌, ◌-◌, ◌*◌, ◌≤◌, ◌<◌, ◌≡◌, ◌⊎◌, inl, inr, refl, Bool, true, false, Bool-cases, not,
  ◌||◌, Option, none, some, List, length, ◌==◌, if◌then◌else◌, arith,
}
use segling.Comms.{CommsResult, Comms}
use segling.Comms.Sim.{
  Stdio, Device, Sim, is_ok, frame_offset, sim_load_device, sim_seek_frame_reg, outside_frame,
}
use segling.Comms.Sim.Access.{
  sim_ensure_device, next_frame, read_frame, read_device, comms_read_i2c,
}
use segling.Comms.Sim.Calls.{InService, IsValid}
use segling.Comms.Sim.Loading.{set_device_self, in_service, load_device_lem}

-- The reads that a device can still give: the frames from the current one on, or as many as a file
-- can have.
abbrev pub reads_left : Device → ℕ
reads_left device = if device.loaded then device.frame_count - device.line_index else 255

pub mul_mono : (a b k : ℕ) → a ≤ b → a * k ≤ b * k
mul_mono a b k h = grind arith

module _ (io : Stdio) where
  open io use {W}

  -- What a read of a device in service comes to: it failed and the device stays at its frame, or
  -- it gave `size` bytes, all of them in the current frame and in the file, and the device stands
  -- at the next frame.
  abbrev pub ReadOutcome : Device → ℕ → ℕ → CommsResult × List ℕ × Device × W → Type 0
  ReadOutcome device reg size out =
      let after = out.2 in
      ((is_ok out.0 ≡ false) × (after.line_index ≡ device.line_index))
      ⊎ ((is_ok out.0 ≡ true)
          × (length out.1 ≡ size)
          × (device.line_index * device.frame_len ≤ frame_offset device reg)
          × (frame_offset device reg + size ≤ suc device.line_index * device.frame_len)
          × (frame_offset device reg + size ≤ device.frame_count * device.frame_len)
          × (after.line_index ≡ suc device.line_index)
          × (after.line_index ≤ device.frame_count))

  read_frame_lem :
      (device : Device) (reg size : ℕ) (w : W)
      → device.line_index < device.frame_count
      → device.frame_count ≤ 255
      → (reg - device.start_reg) + size ≤ device.frame_len
      → ReadOutcome device reg size (read_frame io device reg size w)
  unfolding read_frame next_frame is_ok
  read_frame_lem device reg size w early few inside =
      ground (arith, mul_mono (suc device.line_index) device.frame_count device.frame_len early)

  pub inside_of_not_outside :
      (device : Device) (reg size : ℕ)
      → reg < 256
      → outside_frame device reg size ≡ false
      → (reg - device.start_reg) + size ≤ device.frame_len
  unfolding outside_frame
  inside_of_not_outside device reg size small h = ground arith

  -- A read of a device in service fails and leaves the device at its frame, or it gives `size` bytes,
  -- all of them in the current frame and in the file, and moves the device on by one frame.
  pub read_device_lem :
      (device : Device) (reg size : ℕ) (w : W)
      → InService device
      → reg < 256
      → ReadOutcome device reg size (read_device io device reg size w)
  unfolding read_device is_ok
  read_device_lem device reg size w fit small =
      ground (arith, read_frame_lem device reg size w, inside_of_not_outside device reg size small)

  -- Where the file can be sought and gives as many bytes as it is asked for, a read of up to 128
  -- bytes within the frame succeeds on a device that still has a frame, and gives these bytes.
  pub read_device_succeeds :
      (device : Device) (file reg size : ℕ) (w : W)
      → device.file ≡ some file
      → device.disconnected ≡ false
      → device.line_index < device.frame_count
      → reg < 256
      → device.start_reg ≤ reg
      → (reg - device.start_reg) + size ≤ device.frame_len
      → size ≤ 128
      → (io.fseek_set file (frame_offset device reg) w).0 ≡ true
      → length (io.fread file size (io.fseek_set file (frame_offset device reg) w).1).0 ≡ size
      → let out = read_device io device reg size w in
        (out.0 ≡ CommsResult.ok)
        × (out.1 ≡ (io.fread file size (io.fseek_set file (frame_offset device reg) w).1).0)
  unfolding read_device read_frame sim_seek_frame_reg is_ok outside_frame
  read_device_succeeds device file reg size w opened here early small above inside fits found full =
      rw (opened, here) (ground arith)

  keeps :
      (device : Device) (reg size : ℕ) (w : W)
      → let after = (read_device io device reg size w).2 in
        (after.loaded ≡ device.loaded) × (after.frame_count ≡ device.frame_count)
  unfolding read_device read_frame next_frame
  keeps device reg size w = ground arith

  -- A read, and what it leaves of the reads of its device.
  abbrev Spent : CommsResult → Device → Device → Type 0
  Spent result device after =
      ((is_ok result ≡ false) × (reads_left after ≤ reads_left device))
      ⊎ ((is_ok result ≡ true) × (suc (reads_left after) ≤ reads_left device))

  read_device-Spent :
      (device : Device) (reg size : ℕ) (w : W)
      → InService device
      → device.loaded ≡ true
      → reg < 256
      → let out = read_device io device reg size w in Spent out.0 device out.2
  read_device-Spent device reg size w fit on small =
      ground (arith, keeps device reg size w, read_device_lem device reg size w fit small)

  -- A load leaves no more reads; where it succeeds the device is loaded and in service.
  load_device-reads_left :
      (address : ℕ) (sim : Sim) (w : W)
      → IsValid sim
      → let out = sim_load_device io address sim w in
        (reads_left (out.0.devices address) ≤ reads_left (sim.devices address))
        × ((is_ok out.1 ≡ false)
            ⊎ (InService (out.0.devices address) × ((out.0.devices address).loaded ≡ true)))
  load_device-reads_left address sim w valid = elim (load_device_lem io address sim w) [
    | inl (same, why) ↦ rw same (
      omega arith,
      elim why [
        | inl bad ↦ inl bad
        | inr on ↦ inr (in_service (sim.devices address) (valid address) on, on)
      ],
    )
    | inr (absent, (device, made, inl (bad, off))) ↦
        rw (made, set_device_self address device sim) (ground arith, inl bad)
    | inr (absent, (device, made, inr (fit, on))) ↦
        rw (made, set_device_self address device sim) (ground arith, inr (fit, on))
  ]

  pub comms_read_i2c-Spent :
      (comms : Option Comms) (address reg : ℕ) (has_data : Bool) (size : ℕ) (sim : Sim) (w : W)
      → IsValid sim
      → reg < 256
      → let out = comms_read_i2c io comms address reg has_data size sim w in
        Spent out.0 (sim.devices address) (out.2.devices address)
  unfolding comms_read_i2c sim_ensure_device is_ok
  comms_read_i2c-Spent none address reg has_data size sim w valid small = inl (refl, omega arith)
  comms_read_i2c-Spent (some comms) address reg has_data size sim w valid small =
      let (sim1, ensured, w1) = sim_load_device io address sim w in
      let (fewer, loaded) = load_device-reads_left address sim w valid in
      let device = sim1.devices address in
      let read = read_device io device reg size w1 in
      elim (Bool-cases (not has_data || size == 0 || not comms.initialized)) [
        | inl bad ↦ rw bad (inl (refl, omega arith))
        | inr fine ↦ rw fine (elim loaded [
          | inl broken ↦ rw broken (inl (broken, fewer))
          | inr (fit, on) ↦ elim (Bool-cases (not (is_ok ensured))) [
            | inl broken ↦ rw broken (inl (ground arith, fewer))
            | inr good ↦
                rw (good, set_device_self address read.2 sim1)
                  (ground (arith, fewer, read_device-Spent device reg size w1 fit on small))
          ]
        ])
      ]
