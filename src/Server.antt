-- ===== src/Server.antt =====
-- interface/internal/storage/: how the Go server reads the controller's state in mapped memory, and
-- writes commands to it. Its constants, errors and snapshots.
pub mod Decode
pub mod Layout
pub mod Shared
pub mod Protocol
pub mod Reading
pub mod Snapshots
pub mod Commits
pub mod Writer
pub mod Torn
pub mod Locking
pub mod Files
pub mod Lifetime
pub mod Routes
pub mod Requests
pub mod Rival
pub mod Pace
pub mod Rivalry
pub mod Writing
pub mod Commands
use segling.Prelude.{ℕ, ◌*◌, ◌-◌}

-- FileSize, MaxFiles, TotalSize, CommandsMapSize, SeqlockByte, SeqlockPayloadBytes
abbrev pub file_size : ℕ
file_size = 128

abbrev pub max_files : ℕ
max_files = 16

abbrev pub total_size : ℕ
total_size = file_size * max_files

abbrev pub commands_map_size : ℕ
commands_map_size = file_size

abbrev pub seqlock_byte : ℕ
seqlock_byte = 1

abbrev pub seqlock_payload_bytes : ℕ
seqlock_payload_bytes = file_size - seqlock_byte

-- maxSeqlockSpins, 1 << 22
abbrev pub max_seqlock_spins : ℕ
max_seqlock_spins = 4194304

-- FileIDAHRS
abbrev pub file_id_ahrs : ℕ
file_id_ahrs = 1

-- CmdCalibrateIMU and CmdCalibrateCompass
abbrev pub cmd_calibrate_imu : ℕ
cmd_calibrate_imu = 1

abbrev pub cmd_calibrate_compass : ℕ
cmd_calibrate_compass = 2

-- The errors of the package, in the order of the source: os.ErrInvalid, the errors of ahrs_public_v1.go,
-- those of storage.go, and a failure of Flush.
pub data Error : Type 0 where
  invalid page_too_short truncated_float64 read_exhausted not_aligned : Error
  lock_exhausted unlock_exhausted flush_failed : Error

-- Go's pair of a value and an error.
pub data Outcome {ℓ} (A : Type ℓ) : Type ℓ where
  ok : A → Outcome A
  err : Error → Outcome A

infixl 5 ◌>>=◌
abbrev pub ◌>>=◌ {ℓ κ} : {A : Type ℓ} {B : Type κ} → Outcome A → (A → Outcome B) → Outcome B
ok a >>= f = f a
err e >>= f = err e

-- The texts of `stateLabel`.
pub data StateLabel : Type 0 where
  initializing calibrating active disabled failed unknown : StateLabel

-- `Snapshot`. A uint8 is a number, and a float64 is its 64 bits.
pub record Snapshot : Type 0 where
  pub imu_state : ℕ
  pub magnetometer_state : ℕ
  pub heading_deg : ℕ
  pub pitch_deg : ℕ
  pub roll_deg : ℕ
  pub yaw_deg : ℕ
  pub rotation_rate_x : ℕ
  pub rotation_rate_y : ℕ
  pub rotation_rate_z : ℕ
  pub imu_state_label : StateLabel
  pub magnetometer_label : StateLabel
