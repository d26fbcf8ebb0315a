-- ===== src/Comms/Sim/Stream/Drain.antt =====
-- controller/src/comms_sim.c: reads of all registers, frame by frame, give the file.
use segling.Prelude.{
  ℕ, zero, suc, ◌+◌, ◌-◌, ◌*◌, ◌≡◌, sym, subst, ap, ◌∙◌, true, Option, none, some, List, [], ◌++◌,
  take, drop, length, drop-drop, drop_all, length-drop, take-append-drop, if◌then◌else◌, arith,
}
use mathlib.Core.Option
use segling.Comms.{Comms}
use segling.Comms.Sim.{
  Stdio, DeviceDesc, Device, Sim, is_ok, frame_offset, sim_device_desc, set_device,
}
use segling.Comms.Sim.Access.{next_frame, comms_read_i2c}
use segling.Comms.Sim.Loading.{set_device_self}
use segling.Comms.Sim.Frames.{mul_mono}
use segling.Comms.Sim.Stream.{FileLaws}
use segling.Comms.Sim.Stream.Disk.{DiskLaws}
use segling.Comms.Sim.Stream.Ready.{
  IsReady, next_frame-IsReady, line_index-next_frame, read_frame_ready, comms_read_ready,
}

module _ (io : Stdio) (laws : FileLaws io) where
  open io use {W}

  -- `n` reads of one address and one range of registers, and the bytes that they give together, where
  -- all succeed.
  unfoldable pub drain : ℕ → Comms → ℕ → ℕ → ℕ → Sim → W → Option (List ℕ)
  drain zero comms address reg size sim w = some []
  drain (suc n) comms address reg size sim w =
      let (result, bytes, sim1, w1) = comms_read_i2c io (some comms) address reg true size sim w in
      let rest = drain n comms address reg size sim1 w1 in
      if is_ok result then Option.map (λ more. bytes ++ more) rest else none

  module _ (disk_laws : DiskLaws io laws) (file address : ℕ) (desc : DeviceDesc) (comms : Comms)
      (known : sim_device_desc address ≡ some desc) (up : comms.initialized ≡ true) where
    -- The current frame of a file that has all its frames can be sought and is read whole.
    frame_read :
        (device : Device) (w : W)
        → IsReady file device
        → disk_laws.healthy file w ≡ true
        → length (laws.contents file w) ≡ device.frame_count * device.frame_len
        → let (found, w1) = io.fseek_set file (frame_offset device device.start_reg) w in
          let (bytes, w2) = io.fread file device.frame_len w1 in
          (found ≡ true) × (length bytes ≡ device.frame_len) × (disk_laws.healthy file w2 ≡ true)
    frame_read device w ready good whole =
        disk_laws.read_lem file (frame_offset device device.start_reg) device.frame_len w good (
          omega (
            arith,
            whole,
            mul_mono (suc device.line_index) device.frame_count device.frame_len ready.early,
          ))

    -- The file where the device at the address stands, and how many bytes it should have.
    rest_of_file : Device → W → List ℕ
    rest_of_file device w = drop (device.line_index * device.frame_len) (laws.contents file w)

    drain_step :
        (n : ℕ) (sim : Sim) (w : W)
        → IsReady file (sim.devices address)
        → disk_laws.healthy file w ≡ true
        → length (laws.contents file w)
          ≡ (sim.devices address).frame_count * (sim.devices address).frame_len
        → let device = sim.devices address in
          let (found, w1) = io.fseek_set file (frame_offset device device.start_reg) w in
          drain (suc n) comms address device.start_reg device.frame_len sim w
          ≡ Option.map
              (λ more. take device.frame_len (rest_of_file device w) ++ more)
              (drain n comms address device.start_reg device.frame_len
                (set_device address (next_frame device) sim)
                (io.fread file device.frame_len w1).1)
    unfolding drain rest_of_file is_ok
    drain_step n sim w ready good whole =
        let device = sim.devices address in
        let (found, full, _) = frame_read device w ready good whole in
        let read =
          comms_read_ready io laws file address desc comms sim w known up ready
          ∙ ap (λ out. (out.0, out.1, set_device address out.2 sim, out.3))
              (read_frame_ready io laws file device w ready found full) in
        rw read

    -- The same, of a device that the address is known to have.
    drain_step_at :
        (n : ℕ) (device : Device) (sim : Sim) (w : W)
        → sim.devices address ≡ device
        → IsReady file device
        → disk_laws.healthy file w ≡ true
        → length (laws.contents file w) ≡ device.frame_count * device.frame_len
        → let w1 = (io.fseek_set file (frame_offset device device.start_reg) w).1 in
          drain (suc n) comms address device.start_reg device.frame_len sim w
          ≡ Option.map
              (λ more. take device.frame_len (rest_of_file device w) ++ more)
              (drain n comms address device.start_reg device.frame_len
                (set_device address (next_frame device) sim)
                (io.fread file device.frame_len w1).1)
    drain_step_at n device sim w at =
        subst
          (λ d.
            IsReady file d
            → disk_laws.healthy file w ≡ true
            → length (laws.contents file w) ≡ d.frame_count * d.frame_len
            → drain (suc n) comms address d.start_reg d.frame_len sim w
              ≡ Option.map (λ more. take d.frame_len (rest_of_file d w) ++ more)
                  (drain n comms address d.start_reg d.frame_len
                    (set_device address (next_frame d) sim)
                    (io.fread file d.frame_len
                      (io.fseek_set file (frame_offset d d.start_reg) w).1).1))
          at (drain_step n sim w)

    contents_kept :
        (device : Device) (w : W)
        → let w1 = (io.fseek_set file (frame_offset device device.start_reg) w).1 in
          laws.contents file (io.fread file device.frame_len w1).1 ≡ laws.contents file w
    contents_kept device w =
        laws.contents-fread file file device.frame_len _
        ∙ laws.contents-fseek_set file file (frame_offset device device.start_reg) w

    rest_of_file-next_frame :
        (device : Device) (w w' : W)
        → IsReady file device
        → laws.contents file w' ≡ laws.contents file w
        → rest_of_file (next_frame device) w' ≡ drop device.frame_len (rest_of_file device w)
    unfolding rest_of_file next_frame
    rest_of_file-next_frame device w w' ready kept =
        let len = device.frame_len in
        let line = line_index-next_frame file device ready in
        let place : device.line_index * len + len ≡ suc device.line_index * len = omega arith in
        ap (λ (k : ℕ). drop (k * len) (laws.contents file w')) line ∙ rw (kept, drop-drop, place)

    rest_of_file-last :
        (device : Device) (w : W)
        → device.line_index + 1 ≡ device.frame_count
        → length (laws.contents file w) ≡ device.frame_count * device.frame_len
        → drop device.frame_len (rest_of_file device w) ≡ []
    unfolding rest_of_file
    rest_of_file-last device w last whole =
        let at = device.line_index * device.frame_len in
        drop_all device.frame_len (drop at (laws.contents file w)) (
          omega (
            arith,
            whole,
            length-drop at (laws.contents file w),
            ap (λ (k : ℕ). k * device.frame_len) last,
          ))

    -- The frames from the current one to the last are the rest of the file.
    drain_from :
        (n : ℕ) (device : Device) (sim : Sim) (w : W)
        → sim.devices address ≡ device
        → IsReady file device
        → disk_laws.healthy file w ≡ true
        → device.line_index + suc n ≡ device.frame_count
        → length (laws.contents file w) ≡ device.frame_count * device.frame_len
        → drain (suc n) comms address device.start_reg device.frame_len sim w
          ≡ some (rest_of_file device w)
    unfolding drain next_frame
    drain_from zero device sim w at ready good left whole =
        drain_step_at zero device sim w at ready good whole
        ∙ ap (λ more. some (take device.frame_len (rest_of_file device w) ++ more))
            (sym (rest_of_file-last device w left whole))
        ∙ ap some (take-append-drop device.frame_len (rest_of_file device w))
    drain_from (suc n) device sim w at ready good left whole =
        let w1 = (io.fseek_set file (frame_offset device device.start_reg) w).1 in
        let w2 = (io.fread file device.frame_len w1).1 in
        let kept = contents_kept device w in
        let line = line_index-next_frame file device ready in
        let rest =
          drain_from n (next_frame device) (set_device address (next_frame device) sim) w2
            (set_device_self address (next_frame device) sim)
            (next_frame-IsReady file device ready (omega arith))
            (frame_read device w ready good whole).2 (omega arith) (ap length kept ∙ whole) in
        drain_step_at (suc n) device sim w at ready good whole
        ∙ ap (Option.map (λ more. take device.frame_len (rest_of_file device w) ++ more)) rest
        ∙ ap (λ more. some (take device.frame_len (rest_of_file device w) ++ more))
            (rest_of_file-next_frame device w w2 ready kept)
        ∙ ap some (take-append-drop device.frame_len (rest_of_file device w))

  -- The file of a device that is loaded and stands at its first frame, where no seek or read of the
  -- file makes an error and it has the size that the device was loaded with: as many reads of all registers of a frame as there
  -- are frames all succeed, and together they give the bytes of the file.
  pub drain_whole_file :
      (disk_laws : DiskLaws io laws) (file address : ℕ) (desc : DeviceDesc) (comms : Comms)
      (device : Device) (sim : Sim) (w : W)
      → sim_device_desc address ≡ some desc
      → comms.initialized ≡ true
      → sim.devices address ≡ device
      → IsReady file device
      → disk_laws.healthy file w ≡ true
      → device.line_index ≡ 0
      → length (laws.contents file w) ≡ device.frame_count * device.frame_len
      → drain device.frame_count comms address device.start_reg device.frame_len sim w
        ≡ some (laws.contents file w)
  unfolding rest_of_file
  drain_whole_file disk_laws file address desc comms device sim w known up at ready good first
        whole =
      let count : device.frame_count ≡ suc (device.frame_count - 1) = omega (arith, ready.early) in
      let start : 0 * device.frame_len ≡ 0 = omega arith in
      let all =
        drain_from disk_laws file address desc comms known up (device.frame_count - 1) device sim w
          at ready good (omega arith) whole in
      ap (λ (k : ℕ). drain k comms address device.start_reg device.frame_len sim w) count
      ∙ all
      ∙ ap (λ (k : ℕ). some (drop (k * device.frame_len) (laws.contents file w))) first
      ∙ ap (λ (k : ℕ). some (drop k (laws.contents file w))) start
