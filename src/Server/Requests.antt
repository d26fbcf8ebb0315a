-- ===== src/Server/Requests.antt =====
-- interface/cmd/server/main.go: what requests do to the page of commands.
use segling.Prelude.{
  ℕ, ◌<◌, ◌≡◌, ◌⊎◌, inl, inr, refl, Bool, true, false, none, some, List, [], ◌∷◌, arith,
}
use segling.Server.{Error, cmd_calibrate_imu, cmd_calibrate_compass}
use segling.Server.Shared.{
  Others, Memory, Store, flush, write_command, queue_calibrate_imu, queue_calibrate_compass,
}
use segling.Server.Protocol.{Protocol, Agree, Unlocked, IsBytes}
use segling.Server.Commands.{Holds, write_command_lem}
use segling.Server.Routes.{
  Method, Route, HttpRequest, Response, Server, answer_queued, handle_read, handle_calibrate_imu,
  handle_calibrate_compass, handle, with_cors, serve,
}

abbrev pub is_queued : Response → Bool
is_queued Response.queued_imu = true
is_queued Response.queued_compass = true
is_queued _ = false

module _ {commands : Others} (p : Protocol commands 0) where
  -- What one command does, by its reply and its opcode.
  unfoldable pub Delivers : Response → ℕ → Response → Memory commands → Memory commands → Type 0
  Delivers reply cmd response m m' =
      ((is_queued response ≡ false) × (m' ≡ m))
      ⊎ ((response ≡ Response.internal_error Error.lock_exhausted) × Agree p m')
      ⊎ (((response ≡ reply) ⊎ (response ≡ Response.internal_error Error.flush_failed))
          × Holds cmd m'.bytes
          × Unlocked p m')

  flush_cases :
      (m : Memory commands)
      → (flush commands m ≡ none) ⊎ (flush commands m ≡ some Error.flush_failed)
  unfolding flush
  flush_cases m = ground arith

  delivers :
      (reply : Response) (s : Store) (cmd : ℕ) (m : Memory commands)
      → cmd < 256
      → IsBytes m.bytes
      → Agree p m
      → let (failed, m') = write_command commands s cmd m in
        IsBytes m'.bytes × Agree p m' × Delivers reply cmd (answer_queued reply failed) m m'
  unfolding Delivers
  delivers reply s cmd m small bytes agreed =
      let (bytes1, cases) = write_command_lem p s cmd m small bytes agreed in
      elim cases [
        | inl (result, holding, free) ↦ (
          bytes1,
          ground (arith, free),
          inr (
              inr (elim (flush_cases (write_command commands s cmd m).1) [
                | inl fine ↦ (inl (rw (result, fine) refl), holding, free)
                | inr failed ↦ (inr (rw (result, failed) refl), holding, free)
              ])),
        )
        | inr (inl (lost, agreed1)) ↦ (bytes1, agreed1, inr (inl (rw lost refl, agreed1)))
        | inr (inr (inl (short, _, same))) ↦ (bytes1, rw same agreed, inl (rw short refl, same))
        | inr (inr (inr (askew, _, same))) ↦ (bytes1, rw same agreed, inl (rw askew refl, same))
      ]

  -- What one request does to the commands.
  unfoldable pub Commands : HttpRequest → Response → Memory commands → Memory commands → Type 0
  Commands r response m m' =
      ((is_queued response ≡ false) × (m' ≡ m))
      ⊎ ((r.method ≡ Method.post)
          × (r.route ≡ Route.calibrate_imu)
          × Delivers Response.queued_imu cmd_calibrate_imu response m m')
      ⊎ ((r.method ≡ Method.post)
          × (r.route ≡ Route.calibrate_compass)
          × Delivers Response.queued_compass cmd_calibrate_compass response m m')

module _ {states commands : Others} (p : Protocol commands 0) where
  -- The page of commands holds bytes, and the server has not kept its lock.
  abbrev pub IsSound : Server states commands → Type 0
  IsSound server = IsBytes server.command_memory.bytes × Agree p server.command_memory

  abbrev Effect : HttpRequest → Server states commands → Type 0
  Effect r server =
      let (response, server') = with_cors r server in
      IsSound server'
      × (server'.store ≡ server.store)
      × Commands p r response server.command_memory server'.command_memory

  handled :
      (method : Method) (route : Route) (server : Server states commands)
      → IsSound server
      → Effect record { method = method; route = route } server
  unfolding with_cors handle handle_read handle_calibrate_imu handle_calibrate_compass Commands
      queue_calibrate_imu queue_calibrate_compass
  handled Method.options route server sound = (sound, refl, inl (refl, refl))
  handled Method.get Route.health server sound = (sound, refl, inl (refl, refl))
  handled Method.get Route.state server sound = (sound, refl, inl (ground arith, refl))
  handled Method.get Route.sensors server sound = (sound, refl, inl (ground arith, refl))
  handled Method.get Route.calibrate_imu server sound = (sound, refl, inl (refl, refl))
  handled Method.get Route.calibrate_compass server sound = (sound, refl, inl (refl, refl))
  handled Method.other Route.health server sound = (sound, refl, inl (refl, refl))
  handled Method.other Route.state server sound = (sound, refl, inl (refl, refl))
  handled Method.other Route.sensors server sound = (sound, refl, inl (refl, refl))
  handled Method.other Route.calibrate_imu server sound = (sound, refl, inl (refl, refl))
  handled Method.other Route.calibrate_compass server sound = (sound, refl, inl (refl, refl))
  handled Method.post Route.health server sound = (sound, refl, inl (refl, refl))
  handled Method.post Route.state server sound = (sound, refl, inl (refl, refl))
  handled Method.post Route.sensors server sound = (sound, refl, inl (refl, refl))
  handled Method.post Route.calibrate_imu server (bytes, agreed) =
      let (bytes1, agreed1, effect) =
        delivers p Response.queued_imu server.store 1 server.command_memory (omega arith) bytes
          agreed in
      ((bytes1, agreed1), refl, inr (inl (refl, refl, effect)))
  handled Method.post Route.calibrate_compass server (bytes, agreed) =
      let (bytes1, agreed1, effect) =
        delivers p Response.queued_compass server.store 2 server.command_memory (omega arith) bytes
          agreed in
      ((bytes1, agreed1), refl, inr (inr (refl, refl, effect)))

  -- A request, on a page of bytes whose lock the server does not hold, whatever the other
  -- processes do, as long as they keep to the protocol of the seqlock: the page stays one of bytes
  -- whose lock the server has not kept, and the store is the same. Either the answer is not that a
  -- command is queued, and the server does not touch the page; or the request is a POST for one of
  -- the calibrations. Then the page is untouched and the answer is an error, or the lock could not
  -- be got, or nobody has it and the page holds the command of this calibration, and the answer is
  -- that it is queued, or that the flush failed.
  pub with_cors_lem :
      (r : HttpRequest) (server : Server states commands)
      → IsSound server
      → let (response, server') = with_cors r server in
        IsSound server'
        × (server'.store ≡ server.store)
        × Commands p r response server.command_memory server'.command_memory
  with_cors_lem r server sound = handled r.method r.route server sound

  -- After any requests, the page holds bytes and the server has not kept its lock.
  pub serve-IsSound :
      (rs : List HttpRequest) (server : Server states commands)
      → IsSound server
      → IsSound (serve rs server).1
  unfolding serve
  serve-IsSound [] server sound = sound
  serve-IsSound (r ∷ rs) server sound =
      serve-IsSound rs (with_cors r server).1 (with_cors_lem r server sound).0
