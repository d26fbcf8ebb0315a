-- ===== src/Server/Routes.antt =====
-- interface/cmd/server/main.go: the handlers of the HTTP server, over the memory it shares.
use segling.Prelude.{ℕ, Bool, true, false, Option, none, some, List, [], ◌∷◌, if◌then◌else◌}
use segling.Server.{Error, Outcome, ok, err, Snapshot, StateLabel}
use segling.Server.Shared.{
  Others, Memory, Store, read_snapshot, queue_calibrate_imu, queue_calibrate_compass,
}

-- The method of a request, and the paths that are registered. The mux, which chooses the handler of a
-- path, is net/http's.
pub data Method : Type 0 where
  get post options other : Method

pub data Route : Type 0 where
  health state sensors calibrate_imu calibrate_compass : Route

pub record HttpRequest : Type 0 where
  pub method : Method
  pub route : Route

-- The JSON of `/api/v1/sensors`; `supportsCal` is always true.
pub record Sensors : Type 0 where
  pub imu_state : ℕ
  pub imu_label : StateLabel
  pub magnetometer_state : ℕ
  pub magnetometer_label : StateLabel
  pub heading_deg : ℕ
  pub pitch_deg : ℕ
  pub roll_deg : ℕ

abbrev pub sensors_of : Snapshot → Sensors
sensors_of snap = record {
  imu_state = snap.imu_state;
  imu_label = snap.imu_state_label;
  magnetometer_state = snap.magnetometer_state;
  magnetometer_label = snap.magnetometer_label;
  heading_deg = snap.heading_deg;
  pitch_deg = snap.pitch_deg;
  roll_deg = snap.roll_deg;
}

-- What is written to the response: 204 with no body; 405 or 500 with a text; or 200 with JSON.
pub data Response : Type 0 where
  no_content method_not_allowed status_ok : Response
  internal_error : Error → Response
  snapshot_json : Snapshot → Response
  sensors_json : Sensors → Response
  queued_imu queued_compass : Response

abbrev pub is_get : Method → Bool
is_get Method.get = true
is_get _ = false

abbrev pub is_post : Method → Bool
is_post Method.post = true
is_post _ = false

abbrev pub answer : (Snapshot → Response) → Outcome Snapshot → Response
answer reply (ok snap) = reply snap
answer reply (err e) = Response.internal_error e

abbrev pub answer_queued : Response → Option Error → Response
answer_queued reply none = reply
answer_queued reply (some e) = Response.internal_error e

-- The memory of state.bin and of commands.bin, which others may share with different processes.
pub record Server (states commands : Others) : Type 0 where
  pub store : Store
  pub state_memory : Memory states
  pub command_memory : Memory commands

module _ {states commands : Others} where
  unfoldable pub handle_read :
      (Snapshot → Response) → Method → Server states commands → Response × Server states commands
  handle_read reply method server =
      if is_get method
      then (let (snap, m) = read_snapshot states server.store server.state_memory in
          (answer reply snap, record server { state_memory = m }))
      else (Response.method_not_allowed, server)

  unfoldable pub handle_calibrate_imu :
      Method → Server states commands → Response × Server states commands
  handle_calibrate_imu method server =
      if is_post method
      then (let (failed, m) = queue_calibrate_imu commands server.store server.command_memory in
          (answer_queued Response.queued_imu failed, record server { command_memory = m }))
      else (Response.method_not_allowed, server)

  unfoldable pub handle_calibrate_compass :
      Method → Server states commands → Response × Server states commands
  handle_calibrate_compass method server =
      if is_post method
      then (let (failed, m) = queue_calibrate_compass commands server.store server.command_memory in
          (answer_queued Response.queued_compass failed, record server { command_memory = m }))
      else (Response.method_not_allowed, server)

  unfoldable pub handle : HttpRequest → Server states commands → Response × Server states commands
  handle r server = elim r.route [
    | health ↦ (Response.status_ok, server)
    | state ↦ handle_read Response.snapshot_json r.method server
    | sensors ↦ handle_read (λ snap. Response.sensors_json (sensors_of snap)) r.method server
    | calibrate_imu ↦ handle_calibrate_imu r.method server
    | calibrate_compass ↦ handle_calibrate_compass r.method server
  ]

  -- `withCORS`: a preflight request reaches no handler.
  unfoldable pub with_cors :
      HttpRequest → Server states commands → Response × Server states commands
  with_cors r server = elim r.method [
    | options ↦ (Response.no_content, server)
    | _ ↦ handle r server
  ]

  -- Requests, one behind the other, and what they are answered.
  unfoldable pub serve :
      List HttpRequest → Server states commands → List Response × Server states commands
  serve [] server = ([], server)
  serve (r ∷ rs) server =
      let (response, server1) = with_cors r server in
      let (responses, server2) = serve rs server1 in (response ∷ responses, server2)

  -- `/api/v1/stream`, from its connection on: at each tick of the ticker the snapshot that is read,
  -- or none where the read fails; until the request's context is done, or a write fails.
  -- The list tells of each tick whether the write succeeds, and ends where the context is done.
  unfoldable pub stream_snapshots :
      List Bool → Server states commands → List Snapshot × Server states commands
  stream_snapshots [] server = ([], server)
  stream_snapshots (written ∷ ticks) server =
      let (snap, m) = read_snapshot states server.store server.state_memory in
      let server1 = record server { state_memory = m } in
      let (rest, server2) = stream_snapshots ticks server1 in
      elim snap [
        | err e ↦ (rest, server2)
        | ok s ↦ if written then (s ∷ rest, server2) else ([], server1)
      ]
