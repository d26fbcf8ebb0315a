-- ===== src/Server/Layout.antt =====
-- The bytes of controller/include/integrations/ahrs.h's `ahrs_public_t` in memory, and what
-- interface/internal/storage/ahrs_public_v1.go makes of them.
use segling.Prelude.{
  ℕ, zero, suc, ◌+◌, ◌*◌, ◌/◌, ◌%◌, ◌^◌, ◌<◌, ◌≤◌, ◌≡◌, refl, ap, false, List, [], ◌∷◌, ◌++◌,
  length, take, drop, ltb, length-append, arith,
}
use segling.Float.{F64}
use segling.Ahrs.State.{SensorState}
use segling.Ahrs.{Public}
use segling.Server.{ok, StateLabel, Snapshot}
use segling.Server.Decode.{
  le_value, state_label, read_state, read_le_float64, decode_fields, decode_ahrs_public_v1,
}

-- The little-endian bytes of a number.
unfoldable pub le_bytes : ℕ → ℕ → List ℕ
le_bytes zero v = []
le_bytes (suc n) v = v % 256 ∷ le_bytes n (v / 256)

-- The number of an enumerator of `ahrs_state_t`, and the label of it.
abbrev pub state_code : SensorState → ℕ
state_code SensorState.initializing = 0
state_code SensorState.calibrating = 1
state_code SensorState.active = 2
state_code SensorState.disabled = 3
state_code SensorState.failed = 4

abbrev pub label_of : SensorState → StateLabel
label_of SensorState.initializing = StateLabel.initializing
label_of SensorState.calibrating = StateLabel.calibrating
label_of SensorState.active = StateLabel.active
label_of SensorState.disabled = StateLabel.disabled
label_of SensorState.failed = StateLabel.failed

length-le_bytes : (n v : ℕ) → length (le_bytes n v) ≡ n
unfolding le_bytes
length-le_bytes zero v = refl
length-le_bytes (suc n) v = ap suc (length-le_bytes n (v / 256))

le_value-le_bytes : (n v : ℕ) → v < 256 ^ n → le_value (le_bytes n v) ≡ v
unfolding le_value le_bytes
le_value-le_bytes zero v h = omega arith
le_value-le_bytes (suc n) v h =
    let power : 256 ^ suc n ≡ 256 * 256 ^ n = omega (arith) in
    let below : v / 256 < 256 ^ n = omega arith in
    rw (le_value-le_bytes n (v / 256) below) (omega arith)

module _ (d : F64) (bits : d.D → ℕ) where
  -- The fields in the order of the struct: two enums of 4 bytes, and seven doubles of 8, which need no
  -- padding.
  unfoldable pub layout : Public d → List ℕ
  layout p =
      le_bytes 4 (state_code p.imu_state)
      ++ (le_bytes 4 (state_code p.magnetometer_state)
          ++ (le_bytes 8 (bits p.heading)
              ++ (le_bytes 8 (bits p.pitch)
                  ++ (le_bytes 8 (bits p.roll)
                      ++ (le_bytes 8 (bits p.yaw)
                          ++ (le_bytes 8 (bits p.rotation_rate_x)
                              ++ (le_bytes 8 (bits p.rotation_rate_y)
                                  ++ le_bytes 8 (bits p.rotation_rate_z))))))))

  -- What the server makes of it.
  unfoldable pub snapshot_of : Public d → Snapshot
  snapshot_of p = record {
    imu_state = state_code p.imu_state;
    magnetometer_state = state_code p.magnetometer_state;
    heading_deg = bits p.heading;
    pitch_deg = bits p.pitch;
    roll_deg = bits p.roll;
    yaw_deg = bits p.yaw;
    rotation_rate_x = bits p.rotation_rate_x;
    rotation_rate_y = bits p.rotation_rate_y;
    rotation_rate_z = bits p.rotation_rate_z;
    imu_state_label = label_of p.imu_state;
    magnetometer_label = label_of p.magnetometer_state;
  }

read_state-le_bytes : (s : SensorState) → le_value (le_bytes 4 (state_code s)) % 256 ≡ state_code s
unfolding le_value le_bytes
read_state-le_bytes SensorState.initializing = refl
read_state-le_bytes SensorState.calibrating = refl
read_state-le_bytes SensorState.active = refl
read_state-le_bytes SensorState.disabled = refl
read_state-le_bytes SensorState.failed = refl

state_label-state_code : (s : SensorState) → state_label (state_code s) ≡ label_of s
unfolding state_label
state_label-state_code SensorState.initializing = refl
state_label-state_code SensorState.calibrating = refl
state_label-state_code SensorState.active = refl
state_label-state_code SensorState.disabled = refl
state_label-state_code SensorState.failed = refl

read_double :
    (page : List ℕ) (off v : ℕ)
    → v < 2 ^ 64
    → off + 8 ≤ length page
    → take 8 (drop off page) ≡ le_bytes 8 v
    → read_le_float64 page off ≡ ok v
unfolding read_le_float64
read_double page off v small within e =
    let long : ltb (length page) (off + 8) ≡ false = ground arith in
    rw (long, e, le_value-le_bytes 8 v small) refl

module _ (d : F64) (bits : d.D → ℕ) (wide : (x : d.D) → bits x < 2 ^ 64) where
  -- The static assertions of controller/src/ahrs.c: the size of the struct, and the offsets of three of its fields.
  layout-asserts :
      (p : Public d)
      → let bytes = layout d bits p in
        (length bytes ≡ 64)
        × (take 8 (drop 8 bytes) ≡ le_bytes 8 (bits p.heading))
        × (take 8 (drop 32 bytes) ≡ le_bytes 8 (bits p.yaw))
        × (take 8 (drop 56 bytes) ≡ le_bytes 8 (bits p.rotation_rate_z))
  unfolding layout le_bytes
  layout-asserts p = (refl, refl, refl, refl)

  -- Decoding the bytes of the struct, and whatever stands behind them, gives the two states, with
  -- the labels of their names, and the bits of all seven doubles.
  pub decode-layout :
      (p : Public d) (rest : List ℕ)
      → decode_ahrs_public_v1 (layout d bits p ++ rest) ≡ ok (snapshot_of d bits p)
  unfolding decode_ahrs_public_v1 decode_fields snapshot_of
  decode-layout p rest =
      let page = layout d bits p ++ rest in
      let enough : 64 ≤ length page =
        omega (arith, length-append (layout d bits p) rest, (layout-asserts p).0) in
      let long : ltb (length page) 64 ≡ false = ground arith in
      let imu : read_state page 0 ≡ state_code p.imu_state =
        unfold read_state layout le_bytes in read_state-le_bytes p.imu_state in
      let mag : read_state page 4 ≡ state_code p.magnetometer_state =
        unfold read_state layout le_bytes in read_state-le_bytes p.magnetometer_state in
      let double =
        λ (off : ℕ) (x : d.D) (within : off + 8 ≤ 64)
            (e : take 8 (drop off page) ≡ le_bytes 8 (bits x)).
          read_double page off (bits x) (wide x) (omega arith) e in
      let heading = double 8 p.heading (omega arith) (unfold layout le_bytes in refl) in
      let pitch = double 16 p.pitch (omega arith) (unfold layout le_bytes in refl) in
      let roll = double 24 p.roll (omega arith) (unfold layout le_bytes in refl) in
      let yaw = double 32 p.yaw (omega arith) (unfold layout le_bytes in refl) in
      let rate_x = double 40 p.rotation_rate_x (omega arith) (unfold layout le_bytes in refl) in
      let rate_y = double 48 p.rotation_rate_y (omega arith) (unfold layout le_bytes in refl) in
      let rate_z = double 56 p.rotation_rate_z (omega arith) (unfold layout le_bytes in refl) in
      rw
        (
          long,
          heading,
          pitch,
          roll,
          yaw,
          rate_x,
          rate_y,
          rate_z,
          imu,
          mag,
          state_label-state_code p.imu_state,
          state_label-state_code p.magnetometer_state,
        )
        refl
