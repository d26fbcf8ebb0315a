-- ===== src/Tests/Files.antt =====
-- The files of the simulated bus at concrete inputs.
use segling.Prelude.{
  ◌≢◌, ℕ, suc, overwrite-nil, ◌+◌, ◌≡◌, ◌⊎◌, inl, inr, refl, Bool, true, false, Bool-cases, ◌&&◌,
  some, none, List, [], ◌∷◌, ◌++◌, ◌-◌, ◌≤◌, sym, length-take, length-drop, replicate, length, take,
  drop, overwrite, ◌==◌, if◌then◌else◌, arith,
}
use mathlib.Core.List.{append-nil}
use segling.Prelude.Int.{pos}
use segling.Comms.{CommsResult, Comms}
use segling.Comms.Sim.{
  Stdio, Device, Sim, zero_device, is_ok, imu_desc, outside_frame, comms_init, comms_deinit,
  sim_device_desc, sim_load_device, open_device, measure_device, count_frames, sim_close_device,
  set_device, sim_seek_frame_reg, frame_offset,
}
use segling.Comms.Sim.Access.{
  comms_read_i2c, write_device, write_frame, read_device, read_frame, next_frame, sim_ensure_device,
}
use segling.Comms.Sim.Calls.{Call, g_sim, apply, run}
use segling.Comms.Sim.Stream.{FileLaws, stream}
use segling.Comms.Sim.Stream.Refine.{Dequeues}
use segling.Comms.Sim.Stream.Bus.{Refuses, comms_read_i2c_refines}
use segling.Comms.Sim.Stream.Drain.{drain}
use segling.Comms.Sim.Stream.Writes.{Rewrites, write-read}
use segling.Comms.Sim.Stream.Disk.{DiskLaws}
use segling.Comms.Sim.Stream.Fresh.{fresh_bus_gives_file}
use segling.Comms.Sim.Handles.{HandleLaws}
use segling.Comms.Sim.Handles.Sessions.{files_given_back, reinit_leaks}

-- Bytes put into a file, which grows where they reach past its end: with zeros up to their place.
abbrev write_at : List ℕ → ℕ → List ℕ → List ℕ
write_at old place [] = old
write_at old place (b ∷ bytes) =
    overwrite (old ++ replicate ((place + suc (length bytes)) - length old) 0) place (b ∷ bytes)

write_at_inside :
    (old : List ℕ) (place : ℕ) (bytes : List ℕ)
    → place + length bytes ≤ length old
    → write_at old place bytes ≡ overwrite old place bytes
write_at_inside old place [] h = sym (overwrite-nil old place)
write_at_inside old place (b ∷ bytes) h =
    let none_left : (place + suc (length bytes)) - length old ≡ 0 = omega arith in
    rw (none_left, append-nil old)

-- A disk with one file, which is open once at most, as the file 3.
pub record Disk : Type 0 where
  pub opened : Bool
  pub position : ℕ
  pub bytes : List ℕ

abbrev pub one_file : Stdio
one_file = record {
  W = Disk;
  fopen =
      λ path w. if w.opened then (none, w) else (some 3, record w { opened = true; position = 0 });
  fclose = λ file w. if file == 3 then record w { opened = false } else w;
  fseek_end = λ file w. (true, record w { position = length w.bytes });
  ftell = λ file w. (pos w.position, w);
  fseek_set = λ file offset w. (true, record w { position = offset });
  fread = λ file n w. (take n (drop w.position w.bytes), record w { position = w.position + n });
  fwrite = λ file bytes w. (length bytes, record w { bytes = write_at w.bytes w.position bytes });
}

abbrev one_file-FileLaws : FileLaws one_file
one_file-FileLaws = record {
  contents = λ file w. w.bytes;
  fread_lem = λ file offset size w found full. refl;
  contents-fseek_set = λ other file offset w. refl;
  contents-fread = λ other file size w. refl;
  contents-fwrite =
      λ file offset bytes w inside found whole. write_at_inside w.bytes offset bytes inside;
}

abbrev one_file-DiskLaws : DiskLaws one_file one_file-FileLaws
one_file-DiskLaws = record {
  disk = λ path w. if w.opened then none else some w.bytes;
  healthy = λ file w. true;
  fopen_lem = λ path bytes w there. elim (Bool-cases w.opened) [
    | inl busy ↦ absurd (ground arith)
    | inr free ↦ (3, ground arith, ground arith, refl)
  ];
  size_lem = λ file w good. (refl, refl, refl, refl);
  read_lem = λ file offset size w good inside. (
    refl,
    omega (arith, length-take size (drop offset w.bytes), length-drop offset w.bytes),
    refl,
  );
}

one_file-HandleLaws : HandleLaws one_file
one_file-HandleLaws = record {
  is_open = λ file w. file == 3 && w.opened;
  fopen_some = λ path file w got. elim (Bool-cases w.opened) [
    | inl busy ↦ absurd (ground arith)
    | inr free ↦ (ground arith, λ other. ground arith)
  ];
  fopen_none = λ path other w refused. ground arith;
  fclose_lem = λ file other w on. ground arith;
  fseek_end_keeps = λ file other w. refl;
  ftell_keeps = λ file other w. refl;
  fseek_set_keeps = λ file offset other w. refl;
  fread_keeps = λ file size other w. refl;
  fwrite_keeps = λ file bytes other w. refl;
}

abbrev up : Comms
up = record { initialized = true; i2c_fd = pos 3 }

-- Two frames of the IMU, 14 bytes each.
abbrev recorded : List ℕ
recorded = replicate 14 7 ++ replicate 14 8

abbrev disk : Disk
disk = record { opened = false; position = 0; bytes = recorded }

abbrev open_disk : Disk
open_disk = record disk { opened = true }

abbrev imu : Device
imu = record {
  loaded = true;
  disconnected = false;
  start_reg = 0x3B;
  frame_len = 14;
  frame_count = 2;
  line_index = 1;
  file = some 3;
}

abbrev imu_only : Sim
imu_only = record { data_dir = []; devices = λ a. if a == 0x68 then imu else zero_device }

apart : ◌≢◌ {A = ℕ} 0x0C 0x68
apart h = absurd (omega (arith, h))

comms_read_i2c_refines_example :
    let out = comms_read_i2c one_file (some up) 0x68 0x3D true 6 imu_only open_disk in
    Dequeues one_file one_file-FileLaws imu 0x3D 6 open_disk
      (out.0, out.1, out.2.devices 0x68, out.3)
    × (stream one_file one_file-FileLaws (out.2.devices 0x0C) out.3
        ≡ stream one_file one_file-FileLaws (imu_only.devices 0x0C) open_disk)
    × ((is_ok out.0 ≡ true)
        ⊎ Refuses one_file one_file-FileLaws (some up) 0x68 0x3D true 6 imu open_disk)
comms_read_i2c_refines_example =
    comms_read_i2c_refines one_file one_file-FileLaws (some up) 0x68 0x0C 0x3D true 6 imu_only
      open_disk ((3, refl), omega arith, omega arith, omega arith, omega arith, inl (omega arith))
      refl apart (omega arith)

abbrev two_bytes : List ℕ
two_bytes = 1 ∷ 2 ∷ []

written : is_ok (write_device one_file imu 0x3D two_bytes open_disk).0 ≡ true
unfolding write_device write_frame sim_seek_frame_reg outside_frame is_ok
written = refl

served :
    length
      (one_file.fread 3 2
        (one_file.fseek_set 3
          (frame_offset imu 0x3D)
          (write_device one_file imu 0x3D two_bytes open_disk).2).1).0
    ≡ 2
unfolding write_device write_frame sim_seek_frame_reg outside_frame is_ok
served = refl

write-read_example :
    let put = write_device one_file imu 0x3D two_bytes open_disk in
    let got = read_device one_file put.1 0x3D 2 put.2 in
    (put.1 ≡ imu)
    × Rewrites one_file one_file-FileLaws imu 0x3D two_bytes open_disk put.1 put.2
    × (got.0 ≡ CommsResult.ok)
    × (got.1 ≡ two_bytes)
write-read_example =
    write-read one_file one_file-FileLaws 3 imu 0x3D two_bytes open_disk refl refl (omega arith)
      written refl served

imu_known : sim_device_desc 0x68 ≡ some imu_desc
unfolding sim_device_desc
imu_known = refl

fresh_bus_gives_file_example :
    let out = comms_init one_file (b'd' ∷ []) (some up) g_sim disk in
    (out.0 ≡ CommsResult.ok)
    × ((c : Comms) × (out.1 ≡ some c)
        × (drain one_file one_file-FileLaws 2 c 0x68 0x3B 14 out.2 out.3 ≡ some recorded))
fresh_bus_gives_file_example =
    fresh_bus_gives_file one_file one_file-FileLaws one_file-DiskLaws (b'd' ∷ []) up g_sim 0x68 2
      imu_desc recorded disk imu_known refl refl (omega arith) (omega arith)

abbrev reads : List Call
reads =
    Call.read (some up) 0x68 0x3B true 6
    ∷ Call.deinit none
    ∷ Call.read (some up) 0x0C 0x02 true 6
    ∷ []

files_given_back_example :
    let out = run one_file (Call.init (b'd' ∷ []) (some up) ∷ reads) g_sim disk in
    one_file-HandleLaws.is_open 3 (comms_deinit one_file (some up) out.0 out.1).3
    ≡ one_file-HandleLaws.is_open 3 disk
files_given_back_example =
    files_given_back one_file one_file-HandleLaws (b'd' ∷ []) up up reads g_sim 3 disk refl refl

abbrev first_read : List Call
first_read = Call.init (b'd' ∷ []) (some up) ∷ Call.read (some up) 0x68 0x3B true 6 ∷ []

imu_loaded : ((run one_file first_read g_sim disk).0.devices 0x68).file ≡ some 3
unfolding run apply comms_init comms_read_i2c sim_ensure_device sim_load_device sim_device_desc
    open_device measure_device count_frames sim_close_device set_device is_ok read_device read_frame
    sim_seek_frame_reg next_frame outside_frame
imu_loaded = refl

reinit_leaks_example :
    let (sim1, w1) = run one_file first_read g_sim disk in
    one_file-HandleLaws.is_open 3
      (run one_file (Call.init (b'd' ∷ []) (some up) ∷ Call.deinit (some up) ∷ []) sim1 w1).1
    ≡ true
reinit_leaks_example =
    reinit_leaks one_file one_file-HandleLaws first_read (Call.deinit (some up) ∷ []) (b'd' ∷ []) up
      0x68 3 disk imu_loaded
