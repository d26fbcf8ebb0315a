-- ===== src/Comms/Sim.antt =====
-- controller/src/comms_sim.c: the simulated I2C bus. The devices are `g_sim_devices`; the C library's
-- files are a parameter, whose calls may each fail.
pub mod Access
pub mod Calls
pub mod Loading
pub mod Frames
pub mod Exhaustion
pub mod Stream
pub mod Closing
pub mod Handles
use segling.Prelude.{
  ℕ, zero, suc, ◌+◌, ◌-◌, ◌*◌, ◌/◌, ◌%◌, ◌^◌, Bool, true, false, ◌&&◌, ◌||◌, not, Option, none,
  some, List, [], ◌∷◌, ◌++◌, take, length, ltb, leb, ◌==◌, if◌then◌else◌,
}
use segling.Prelude.Int.{ℤ, pos, negsuc}
use segling.Comms.{CommsResult, Comms, comms_buffer_size}

-- What comms_sim.c uses of stdio. A `FILE *` that is not NULL is a number; a seek tells whether it
-- returned 0, and a read gives the bytes that it got.
pub record Stdio : Type 1 where
  pub W : Type 0
  pub fopen : List ℕ → W → Option ℕ × W
  pub fclose : ℕ → W → W
  pub fseek_end : ℕ → W → Bool × W
  pub ftell : ℕ → W → ℤ × W
  pub fseek_set : ℕ → ℕ → W → Bool × W
  pub fread : ℕ → ℕ → W → List ℕ × W
  pub fwrite : ℕ → List ℕ → W → ℕ × W

-- `sim_device_desc_t`
pub record DeviceDesc : Type 0 where
  pub filename : List ℕ
  pub start_reg : ℕ
  pub frame_len : ℕ

-- `sim_device_t`
pub record Device : Type 0 where
  pub loaded : Bool
  pub disconnected : Bool
  pub start_reg : ℕ
  pub frame_len : ℕ
  pub frame_count : ℕ
  pub line_index : ℕ
  pub file : Option ℕ

-- `g_sim_data_dir` and `g_sim_devices`
pub record Sim : Type 0 where
  pub data_dir : List ℕ
  pub devices : ℕ → Device

-- COMMS_SIM_MAX_FRAME_COUNT
abbrev pub max_frame_count : ℕ
max_frame_count = 255

-- COMMS_SIM_IMU_ADDRESS, COMMS_SIM_IMU_START_REG and COMMS_SIM_IMU_FRAME_LEN
abbrev pub comms_sim_imu_address : ℕ
comms_sim_imu_address = 0x68

abbrev pub comms_sim_imu_start_reg : ℕ
comms_sim_imu_start_reg = 0x3B

abbrev pub comms_sim_imu_frame_len : ℕ
comms_sim_imu_frame_len = 14

-- COMMS_SIM_MAG_ADDRESS, COMMS_SIM_MAG_START_REG and COMMS_SIM_MAG_FRAME_LEN
abbrev pub comms_sim_mag_address : ℕ
comms_sim_mag_address = 0x0C

abbrev pub comms_sim_mag_start_reg : ℕ
comms_sim_mag_start_reg = 0x02

abbrev pub comms_sim_mag_frame_len : ℕ
comms_sim_mag_frame_len = 6

abbrev pub imu_desc : DeviceDesc
imu_desc = record {
  filename = b'i' ∷ b'm' ∷ b'u' ∷ b'.' ∷ b'd' ∷ b'a' ∷ b't' ∷ [];
  start_reg = comms_sim_imu_start_reg;
  frame_len = comms_sim_imu_frame_len;
}

abbrev pub mag_desc : DeviceDesc
mag_desc = record {
  filename = b'm' ∷ b'a' ∷ b'g' ∷ b'.' ∷ b'd' ∷ b'a' ∷ b't' ∷ [];
  start_reg = comms_sim_mag_start_reg;
  frame_len = comms_sim_mag_frame_len;
}

unfoldable pub sim_device_desc : ℕ → Option DeviceDesc
sim_device_desc address =
    if address == comms_sim_imu_address
    then some imu_desc
    else (if address == comms_sim_mag_address then some mag_desc else none)

-- What `memset` to 0 makes of a device.
abbrev pub zero_device : Device
zero_device = record {
  loaded = false;
  disconnected = false;
  start_reg = 0;
  frame_len = 0;
  frame_count = 0;
  line_index = 0;
  file = none;
}

unfoldable pub set_device : ℕ → Device → Sim → Sim
set_device address device sim = record sim {
  devices = λ a. if a == address then device else sim.devices a;
}

unfoldable pub is_ok : CommsResult → Bool
is_ok CommsResult.ok = true
is_ok _ = false

-- The test of the place and the size of an access; the sum is a size_t.
unfoldable pub outside_frame : Device → ℕ → ℕ → Bool
outside_frame device reg size =
    ltb device.frame_len (((reg - device.start_reg) + size) % 2 ^ 64) || ltb comms_buffer_size size

-- The path is "dir/filename", in a buffer of 512 bytes.
abbrev pub device_path : Sim → DeviceDesc → List ℕ
device_path sim desc = sim.data_dir ++ b'/' ∷ desc.filename

-- The byte of the file at which a register of the current frame stands.
abbrev pub frame_offset : Device → ℕ → ℕ
frame_offset device reg = device.line_index * device.frame_len + (reg - device.start_reg)

-- The tests on the size of the file: whole frames, at least one and at most 255.
unfoldable pub count_frames : DeviceDesc → Device → ℤ → Device × CommsResult
count_frames desc device (negsuc n) = (device, CommsResult.error_unknown)
count_frames desc device (pos size) =
    let frames = size / desc.frame_len in
    if not (size % desc.frame_len == 0)
    then (device, CommsResult.error_unknown)
    else if frames == 0 || ltb max_frame_count frames
    then (device, CommsResult.error_read_failed)
    else (
      record device {
        frame_count = frames % 256;
        line_index = 0;
        disconnected = false;
        loaded = true;
      },
      CommsResult.ok,
    )

module _ (io : Stdio) where
  open io use {W, fopen, fclose, fseek_end, ftell, fseek_set, fread, fwrite}

  close_file : Option ℕ → W → W
  close_file none w = w
  close_file (some file) w = fclose file w

  unfoldable pub sim_close_device : Device → W → Device × W
  unfolding close_file
  sim_close_device device w =
      (record device { file = none; loaded = false }, close_file device.file w)

  -- The size of an open file, and what follows from it.
  unfoldable pub measure_device : DeviceDesc → ℕ → Device → W → Device × CommsResult × W
  measure_device desc file device w =
      let (found_end, w1) = fseek_end file w in
      let (size, w2) = ftell file w1 in
      let (counted, result) = count_frames desc device size in
      if found_end then (counted, result, w2) else (device, CommsResult.error_unknown, w1)

  -- A device that could not be loaded is closed again.
  unfoldable pub open_device : DeviceDesc → Option ℕ → W → Device × CommsResult × W
  unfolding is_ok
  open_device desc none w = (zero_device, CommsResult.error_read_failed, w)
  open_device desc (some file) w =
      let fresh = record zero_device {
        file = some file;
        start_reg = desc.start_reg;
        frame_len = desc.frame_len;
      } in
      let (device, result, w1) = measure_device desc file fresh w in
      let (closed, w2) = sim_close_device device w1 in
      if is_ok result then (device, result, w1) else (closed, result, w2)

  load_described : ℕ → Option DeviceDesc → Sim → W → Sim × CommsResult × W
  load_described address none sim w = (sim, CommsResult.error_read_failed, w)
  load_described address (some desc) sim w =
      let (file, w1) = fopen (device_path sim desc) w in
      let (device, result, w2) = open_device desc file w1 in
      if (sim.devices address).loaded
      then (sim, CommsResult.ok, w)
      else if leb 512 (length (device_path sim desc))
      then (sim, CommsResult.error_unknown, w)
      else (set_device address device sim, result, w2)

  unfoldable pub sim_load_device : ℕ → Sim → W → Sim × CommsResult × W
  unfolding load_described
  sim_load_device address sim w = load_described address (sim_device_desc address) sim w

  seek_open : Option ℕ → Device → ℕ → W → CommsResult × W
  seek_open none device reg w = (CommsResult.error_read_failed, w)
  seek_open (some file) device reg w =
      let (found, w1) = fseek_set file (frame_offset device reg) w in
      if ltb reg device.start_reg
      then (CommsResult.error_read_failed, w)
      else (if found then CommsResult.ok else CommsResult.error_read_failed, w1)

  unfoldable pub sim_seek_frame_reg : Device → ℕ → W → CommsResult × W
  unfolding seek_open
  sim_seek_frame_reg device reg w = seek_open device.file device reg w

  -- COMMS_SIM_DATA_DIR is the argument; 255 bytes of it are kept.
  unfoldable pub comms_init : List ℕ → Option Comms → Sim → W → CommsResult × Option Comms × Sim × W
  comms_init dir none sim w = (CommsResult.error_unknown, none, sim, w)
  comms_init dir (some comms) sim w = (
    CommsResult.ok,
    some (record { initialized = true; i2c_fd = negsuc 0 }),
    record { data_dir = take 255 dir; devices = λ a. zero_device },
    w,
  )

  -- The loop over the addresses, with `n` of them left; it goes from 256 - n up.
  unfoldable pub close_all : ℕ → Sim → W → Sim × W
  close_all zero sim w = (sim, w)
  close_all (suc n) sim w =
      let address = 255 - n in
      let (closed, w1) = sim_close_device (sim.devices address) w in
      let next : Sim × W =
        if (sim.devices address).loaded then (set_device address closed sim, w1) else (sim, w) in
      close_all n next.0 next.1

  unfoldable pub comms_deinit : Option Comms → Sim → W → CommsResult × Option Comms × Sim × W
  comms_deinit none sim w = (CommsResult.ok, none, sim, w)
  comms_deinit (some comms) sim w =
      let (sim1, w1) = close_all 256 sim w in
      if comms.initialized
      then (
        CommsResult.ok,
        some (record comms { initialized = false; i2c_fd = negsuc 0 }),
        sim1,
        w1,
      )
      else (CommsResult.ok, some comms, sim, w)
