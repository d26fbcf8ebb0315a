-- ===== src/Tests/Server.antt =====
-- The Go server at concrete inputs.
use segling.Prelude.{
  false, ℕ, zero, suc, ◌^◌, ◌%◌, ◌<◌, ◌≡◌, ◌⊎◌, ◌≢◌, refl, true, Option, none, some, List, [], ◌∷◌,
  ◌++◌, replicate, arith,
}
use segling.Prelude.Int.{ℤ, pos, pos_part}
use segling.Ahrs.State.{SensorState}
use segling.Ahrs.{Public}
use segling.Storage.{voxor_commit}
use segling.Server.{Error, Outcome, file_size}
use segling.Server.Layout.{layout, le_bytes, snapshot_of}
use segling.Server.Decode.{decode_ahrs_public_v1}
use segling.Server.Shared.{Store, read_snapshot, read_seqlocked_payload, flush, write_command}
use segling.Server.Protocol.{Protocol, Unlocked, Agree, IsBytes}
use segling.Server.Reading.{payload_at}
use segling.Server.Snapshots.{read_snapshot_settles, read_snapshot-layout}
use segling.Server.Commits.{
  resting, resting-Protocol, at_rest, snapshot_at_rest, snapshot-voxor_commit,
}
use segling.Server.Writer.{writer}
use segling.Server.Torn.{torn_read}
use segling.Server.Commands.{Holds, write_command_lem, write_command_delivers}
use segling.Server.Routes.{Method, Route, HttpRequest, Server, with_cors}
use segling.Server.Requests.{IsSound, Commands, with_cors_lem}
use segling.Server.Rival.{Place, in_critical, rival}
use segling.Server.Pace.{paced}
use segling.Server.Shared.{Memory}
use segling.Server.Protocol.{odd_at}
use segling.Server.Rivalry.{two_servers}
use segling.Tests.Doubles.{thousandths}

abbrev store : Store
store = record {
  state_path = 115 ∷ [];
  commands_path = 99 ∷ [];
  state = some 4096;
  commands = some 8192;
}

-- The pattern of a double of the tests.
abbrev bits : Option ℤ → ℕ
bits none = 9221120237041090560
bits (some z) = pos_part z % 2 ^ 64

bits-small : (x : Option ℤ) → bits x < 2 ^ 64
bits-small none = omega arith
bits-small (some z) = omega arith

abbrev published : Public thousandths
published = record {
  imu_state = SensorState.active;
  magnetometer_state = SensorState.calibrating;
  heading = some (pos 45000);
  pitch = some (pos 1500);
  roll = some (pos 250);
  yaw = some (pos 45000);
  rotation_rate_x = some (pos 0);
  rotation_rate_y = some (pos 0);
  rotation_rate_z = none;
}

abbrev behind : List ℕ
behind = replicate 63 0

abbrev state_bytes : List ℕ
state_bytes = replicate 129 0 ++ ((layout thousandths bits published ++ behind) ++ replicate 1792 0)

replicate-IsBytes : (n b : ℕ) → b < 256 → IsBytes (replicate n b)
replicate-IsBytes zero b small i = omega arith
replicate-IsBytes (suc n) b small zero = small
replicate-IsBytes (suc n) b small (suc i) = replicate-IsBytes n b small i

abbrev page : List ℕ
page = replicate 128 0

read_snapshot-layout_example :
    let (result, m) = read_snapshot resting store (at_rest state_bytes) in
    (result ≡ Outcome.ok (snapshot_of thousandths bits published))
    × (m.bytes ≡ state_bytes)
    × Unlocked (resting-Protocol 128) m
unfolding layout le_bytes
read_snapshot-layout_example =
    read_snapshot-layout store (at_rest state_bytes) (omega arith) (resting-Protocol 128) refl
      thousandths bits bits-small published behind (refl, refl) refl

read_snapshot_settles_example :
    let (result, m) = read_snapshot resting store (at_rest (replicate 2048 0)) in
    ((result ≡ decode_ahrs_public_v1 (payload_at 128 m.bytes)) × Unlocked (resting-Protocol 128) m)
    ⊎ ((result ≡ Outcome.err Error.read_exhausted) × (m.outside ≡ true))
read_snapshot_settles_example =
    read_snapshot_settles store (at_rest (replicate 2048 0)) (omega arith) (resting-Protocol 128)
      refl refl

torn_read_example :
    Protocol (writer 0 3 (replicate 127 7)) 0
    × ((read_seqlocked_payload
          (writer 0 3 (replicate 127 7))
          0
          file_size
          record { bytes = page; outside = 0 }).0
        ≡ Outcome.ok (0 ∷ 0 ∷ 0 ∷ replicate 124 7))
torn_read_example =
    torn_read 0 3 (replicate 127 7) page refl (omega arith) (omega arith) refl
      (replicate-IsBytes 127 7 (omega arith))

snapshot-voxor_commit_example :
    snapshot_at_rest store (voxor_commit (replicate 2048 0) 1) ≡ Outcome.err Error.read_exhausted
snapshot-voxor_commit_example =
    snapshot-voxor_commit store (replicate 2048 0) 4096 1 refl refl (omega arith) (omega arith)

write_command_lem_example :
    let (result, m) = write_command resting store 2 (at_rest page) in
    IsBytes m.bytes
    × (((result ≡ flush resting m) × Holds 2 m.bytes × Unlocked (resting-Protocol 0) m)
        ⊎ ((result ≡ some Error.lock_exhausted) × Agree (resting-Protocol 0) m)
        ⊎ ((result ≡ some Error.invalid) × (128 < 128) × (m ≡ at_rest page))
        ⊎ ((result ≡ some Error.not_aligned) × (◌≢◌ {A = ℕ} 0 0) × (m ≡ at_rest page)))
write_command_lem_example =
    write_command_lem (resting-Protocol 0) store 2 (at_rest page) (omega arith)
      (replicate-IsBytes 128 0 (omega arith)) refl

write_command_delivers_example :
    let (result, m) = write_command resting store 1 (at_rest page) in
    (result ≡ flush resting m)
    × (m.bytes ≡ 0 ∷ 1 ∷ 0 ∷ 0 ∷ replicate 124 0)
    × Unlocked (resting-Protocol 0) m
write_command_delivers_example =
    write_command_delivers (resting-Protocol 0) store 1 (at_rest page) (omega arith)
      (replicate-IsBytes 128 0 (omega arith)) (refl, refl) refl (omega arith) refl

abbrev server : Server resting resting
server = record {
  store = store;
  state_memory = at_rest (replicate 2048 0);
  command_memory = at_rest page;
}

abbrev request : HttpRequest
request = record { method = Method.post; route = Route.calibrate_compass }

with_cors_lem_example :
    let (response, server') = with_cors request server in
    IsSound (resting-Protocol 0) server'
    × (server'.store ≡ store)
    × Commands (resting-Protocol 0) request response server.command_memory server'.command_memory
with_cors_lem_example =
    with_cors_lem (resting-Protocol 0) request server (replicate-IsBytes 128 0 (omega arith), refl)

-- The other server makes three accesses between two of this one's.
abbrev beside : Memory (paced (rival 1) (λ t. 3))
beside = record {
  bytes = page;
  outside = record { inner = record { place = Place.ready; locks = 0 }; clock = 0 };
}

two_servers_example :
    let (result, m) = write_command (paced (rival 1) (λ t. 3)) store 2 beside in
    ((result ≡ none)
      × Holds 2 m.bytes
      × (odd_at 0 m.bytes ≡ false)
      × (in_critical m.outside.inner.place ≡ false))
    ⊎ ((result ≢ none) × (odd_at 0 m.bytes ≡ in_critical m.outside.inner.place))
two_servers_example =
    two_servers 1 (omega arith) (λ t. 3) store 2 beside (omega arith)
      (replicate-IsBytes 128 0 (omega arith)) refl
