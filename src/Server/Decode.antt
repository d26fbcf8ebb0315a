-- ===== src/Server/Decode.antt =====
-- interface/internal/storage/ahrs_public_v1.go, and `stateLabel` of storage.go.
use segling.Prelude.{ℕ, ◌+◌, ◌*◌, ◌%◌, List, [], ◌∷◌, length, take, drop, ltb, ◌==◌, if◌then◌else◌}
use segling.Server.{Error, Outcome, ok, err, ◌>>=◌, StateLabel, Snapshot}

-- `binary.LittleEndian.Uint32` and `Uint64`, of as many bytes as the list has.
unfoldable pub le_value : List ℕ → ℕ
le_value [] = 0
le_value (b ∷ bs) = b + 256 * le_value bs

unfoldable pub state_label : ℕ → StateLabel
state_label s =
    if s == 0
    then StateLabel.initializing
    else (if s == 1
        then StateLabel.calibrating
        else (if s == 2
            then StateLabel.active
            else (if s == 3
                then StateLabel.disabled
                else (if s == 4 then StateLabel.failed else StateLabel.unknown))))

-- A state is an enum of 4 bytes, of which `uint8` keeps the lowest.
unfoldable pub read_state : List ℕ → ℕ → ℕ
read_state page off = le_value (take 4 (drop off page)) % 256

unfoldable pub read_le_float64 : List ℕ → ℕ → Outcome ℕ
read_le_float64 page off =
    if ltb (length page) (off + 8)
    then err Error.truncated_float64
    else ok (le_value (take 8 (drop off page)))

-- ahrsPublicMmapMinBytes
abbrev pub ahrs_public_mmap_min_bytes : ℕ
ahrs_public_mmap_min_bytes = 64

unfoldable pub decode_fields : List ℕ → Outcome Snapshot
decode_fields page = do
  heading ← read_le_float64 page 8
  pitch ← read_le_float64 page 16
  roll ← read_le_float64 page 24
  yaw ← read_le_float64 page 32
  rate_x ← read_le_float64 page 40
  rate_y ← read_le_float64 page 48
  rate_z ← read_le_float64 page 56
  ok record {
    imu_state = read_state page 0;
    magnetometer_state = read_state page 4;
    heading_deg = heading;
    pitch_deg = pitch;
    roll_deg = roll;
    yaw_deg = yaw;
    rotation_rate_x = rate_x;
    rotation_rate_y = rate_y;
    rotation_rate_z = rate_z;
    imu_state_label = state_label (read_state page 0);
    magnetometer_label = state_label (read_state page 4);
  }

unfoldable pub decode_ahrs_public_v1 : List ℕ → Outcome Snapshot
unfolding decode_fields
decode_ahrs_public_v1 page =
    if ltb (length page) ahrs_public_mmap_min_bytes
    then err Error.page_too_short
    else decode_fields page
