-- ===== src/Comms/Sim/Stream/Fresh.antt =====
-- controller/src/comms_sim.c: from `comms_init` to the bytes of a file on the disk.
use segling.Prelude.{
  ℕ, zero, suc, ◌*◌, ◌/◌, ◌%◌, ◌≤◌, ◌<◌, ◌≡◌, refl, ap, ◌∙◌, true, false, some, List, ◌∷◌, ◌++◌,
  take, length, length-append, length-take, leb, ◌==◌, arith,
}
use segling.Prelude.Int.{pos, negsuc}
use native.Mathlib.Nat.{mul-div_cancel, mod-eq-sub-div-mul}
use segling.Comms.{CommsResult, Comms}
use segling.Comms.Sim.{
  Stdio, DeviceDesc, Device, Sim, zero_device, is_ok, count_frames, measure_device, open_device,
  device_path, sim_load_device, sim_device_desc, set_device, comms_init,
}
use segling.Comms.Sim.Access.{comms_read_i2c, sim_ensure_device}
use segling.Comms.Sim.Loading.{set_device_self}
use segling.Comms.Sim.Stream.{FileLaws}
use segling.Comms.Sim.Stream.Disk.{DiskLaws}
use segling.Comms.Sim.Stream.Ready.{IsReady, load_device_ready}
use segling.Comms.Sim.Stream.Drain.{drain, drain_whole_file}

-- What the two descriptors have in common.
described_fits :
    (address : ℕ) (desc : DeviceDesc)
    → sim_device_desc address ≡ some desc
    → (1 ≤ desc.frame_len)
      × (desc.frame_len ≤ 128)
      × (desc.start_reg < 256)
      × (length desc.filename ≤ 7)
unfolding sim_device_desc
described_fits address desc h = ground arith

-- The device that is loaded from a file of `count` frames.
abbrev loaded_device : ℕ → DeviceDesc → ℕ → Device
loaded_device file desc count = record {
  loaded = true;
  disconnected = false;
  start_reg = desc.start_reg;
  frame_len = desc.frame_len;
  frame_count = count;
  line_index = 0;
  file = some file;
}

count_frames_whole :
    (file count : ℕ) (desc : DeviceDesc)
    → 1 ≤ desc.frame_len
    → 1 ≤ count
    → count ≤ 255
    → count_frames desc
        (record zero_device {
          file = some file;
          start_reg = desc.start_reg;
          frame_len = desc.frame_len;
        })
        (pos (count * desc.frame_len))
      ≡ (loaded_device file desc count, CommsResult.ok)
unfolding count_frames
count_frames_whole file count desc long some_frames few =
    let quotient : count * desc.frame_len / desc.frame_len ≡ count = mul-div_cancel count long in
    let leftover : count * desc.frame_len % desc.frame_len ≡ 0 = omega (
      arith,
      mod-eq-sub-div-mul (count * desc.frame_len) desc.frame_len,
      ap (λ (q : ℕ). q * desc.frame_len) quotient,
    ) in
    rw (quotient, leftover) (ground arith)

module _ (io : Stdio) (laws : FileLaws io) (disk_laws : DiskLaws io laws) where
  open io use {W}

  open_device_whole :
      (file count : ℕ) (desc : DeviceDesc) (w : W)
      → 1 ≤ desc.frame_len
      → 1 ≤ count
      → count ≤ 255
      → disk_laws.healthy file w ≡ true
      → length (laws.contents file w) ≡ count * desc.frame_len
      → open_device io desc (some file) w
        ≡ (loaded_device file desc count, CommsResult.ok, (io.ftell file (io.fseek_end file w).1).1)
  unfolding open_device measure_device is_ok
  open_device_whole file count desc w long some_frames few good size =
      let (found, told, _, _) = disk_laws.size_lem file w good in
      let counted = count_frames_whole file count desc long some_frames few in
      rw (found, told, size, counted)

  -- The load of a described device whose file has whole frames.
  load_device_fresh :
      (address count : ℕ) (desc : DeviceDesc) (bytes : List ℕ) (sim : Sim) (w : W)
      → sim_device_desc address ≡ some desc
      → (sim.devices address).loaded ≡ false
      → length sim.data_dir ≤ 255
      → disk_laws.disk (device_path sim desc) w ≡ some bytes
      → length bytes ≡ count * desc.frame_len
      → 1 ≤ count
      → count ≤ 255
      → (file : ℕ) × (w' : W) × (sim_load_device io address sim w
          ≡ (set_device address (loaded_device file desc count) sim, CommsResult.ok, w'))
        × (laws.contents file w' ≡ bytes)
        × (disk_laws.healthy file w' ≡ true)
  unfolding sim_load_device
  load_device_fresh address count desc bytes sim w known absent short on_disk size some_frames few =
      let (long, _, _, name) = described_fits address desc known in
      let (file, opened, held, good) = disk_laws.fopen_lem (device_path sim desc) bytes w on_disk in
      let w1 = (io.fopen (device_path sim desc) w).1 in
      let (_, _, kept, still) = disk_laws.size_lem file w1 good in
      let path_fits : leb 512 (length (device_path sim desc)) ≡ false =
        ground (arith, length-append sim.data_dir (b'/' ∷ desc.filename)) in
      let whole =
        open_device_whole file count desc w1 long some_frames few good (ap length held ∙ size) in
      (
        file,
        (io.ftell file (io.fseek_end file w1).1).1,
        rw (known, absent, path_fits, opened, whole),
        kept ∙ held,
        still,
      )

  -- A read of a device that is not loaded yet reads the device as it is loaded.
  comms_read_fresh :
      (comms : Comms) (address reg size : ℕ) (sim sim1 : Sim) (w w1 : W) (desc : DeviceDesc)
      → sim_load_device io address sim w ≡ (sim1, CommsResult.ok, w1)
      → sim_device_desc address ≡ some desc
      → (sim1.devices address).loaded ≡ true
      → comms.initialized ≡ true
      → 1 ≤ size
      → comms_read_i2c io (some comms) address reg true size sim w
        ≡ comms_read_i2c io (some comms) address reg true size sim1 w1
  unfolding comms_read_i2c sim_ensure_device
  comms_read_fresh comms address reg size sim sim1 w w1 desc load known loaded up some_bytes =
      let nonzero : (size == 0) ≡ false = ground arith in
      rw (load, load_device_ready io laws address desc sim1 w1 known loaded, up, nonzero)

  drain_fresh :
      (count : ℕ) (comms : Comms) (address reg size : ℕ) (sim sim1 : Sim) (w w1 : W)
      (desc : DeviceDesc)
      → sim_load_device io address sim w ≡ (sim1, CommsResult.ok, w1)
      → sim_device_desc address ≡ some desc
      → (sim1.devices address).loaded ≡ true
      → comms.initialized ≡ true
      → 1 ≤ size
      → 1 ≤ count
      → drain io laws count comms address reg size sim w
        ≡ drain io laws count comms address reg size sim1 w1
  unfolding drain
  drain_fresh zero comms address reg size sim sim1 w w1 desc load known loaded up bytes
        some_frames =
      absurd (omega arith)
  drain_fresh (suc n) comms address reg size sim sim1 w w1 desc load known loaded up bytes
        some_frames =
      rw (comms_read_fresh comms address reg size sim sim1 w w1 desc load known loaded up bytes)

  -- After `comms_init`, where the data directory has a device's file with 1 to 255 whole frames that
  -- stdio opens, measures, seeks and reads without an error: as many reads of all registers of the
  -- device as there are frames all succeed, and together they give the bytes of the file. The first of
  -- them loads the device.
  pub fresh_bus_gives_file :
      (dir : List ℕ) (comms : Comms) (sim : Sim) (address count : ℕ) (desc : DeviceDesc)
      (bytes : List ℕ) (w : W)
      → sim_device_desc address ≡ some desc
      → disk_laws.disk (take 255 dir ++ b'/' ∷ desc.filename) w ≡ some bytes
      → length bytes ≡ count * desc.frame_len
      → 1 ≤ count
      → count ≤ 255
      → let (result, up, sim1, w1) = comms_init io dir (some comms) sim w in
        (result ≡ CommsResult.ok)
        × ((c : Comms) × (up ≡ some c)
            × (drain io laws count c address desc.start_reg desc.frame_len sim1 w1 ≡ some bytes))
  unfolding comms_init
  fresh_bus_gives_file dir comms sim address count desc bytes w known on_disk size some_frames few =
      let c : Comms = record { initialized = true; i2c_fd = negsuc 0 } in
      let sim1 : Sim = record { data_dir = take 255 dir; devices = λ a. zero_device } in
      let (long, short, small, _) = described_fits address desc known in
      let (file, w2, load, held, good) =
        load_device_fresh address count desc bytes sim1 w known refl
          (omega (arith, length-take 255 dir)) on_disk size some_frames few in
      let device = loaded_device file desc count in
      let at = set_device_self address device sim1 in
      let ready : IsReady file device = ground arith in
      (
        refl,
        (
          c,
          refl,
          drain_fresh count c address desc.start_reg desc.frame_len sim1
                (set_device address device sim1) w w2 desc load known (ap (λ d. d.loaded) at) refl
                long some_frames
              ∙ drain_whole_file io laws disk_laws file address desc c device
                  (set_device address device sim1) w2 known refl at ready good refl
                  (ap length held ∙ size)
              ∙ ap some held,
        ),
      )
