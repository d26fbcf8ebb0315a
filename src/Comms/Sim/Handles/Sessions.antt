-- ===== src/Comms/Sim/Handles/Sessions.antt =====
-- controller/src/comms_sim.c: the open files over the calls of comms.h.
use segling.Prelude.{ℕ, ◌≡◌, inl, refl, Bool, true, false, none, some, List, [], ◌∷◌}
use segling.Comms.{Comms}
use segling.Comms.Sim.{Stdio, Sim, comms_init, comms_deinit}
use segling.Comms.Sim.Calls.{Call, g_sim, apply, run}
use segling.Comms.Sim.Handles.{HandleLaws, Accounted}
use segling.Comms.Sim.Handles.Access.{
  comms_read_i2c-Accounted, comms_write_i2c-Accounted, comms_deinit-Accounted, comms_deinit-base,
}

-- Any call but `comms_init`.
abbrev pub no_init : List Call → Bool
no_init [] = true
no_init (Call.init dir comms ∷ cs) = false
no_init (Call.deinit comms ∷ cs) = no_init cs
no_init (Call.read comms address reg has_data size ∷ cs) = no_init cs
no_init (Call.write comms address reg bytes ∷ cs) = no_init cs

module _ (io : Stdio) (laws : HandleLaws io) where
  open io use {W}

  run-Accounted :
      (base : ℕ → Bool) (cs : List Call) (sim : Sim) (w : W)
      → no_init cs ≡ true
      → Accounted io laws base sim w
      → let out = run io cs sim w in Accounted io laws base out.0 out.1
  unfolding run apply
  run-Accounted base [] sim w calm accounted = accounted
  run-Accounted base (Call.init dir comms ∷ cs) sim w calm accounted = absurd (cc calm)
  run-Accounted base (Call.deinit comms ∷ cs) sim w calm accounted =
      run-Accounted base cs _ _ calm (comms_deinit-Accounted io laws base comms sim w accounted)
  run-Accounted base (Call.read comms address reg has_data size ∷ cs) sim w calm accounted =
      run-Accounted base cs _ _ calm
        (comms_read_i2c-Accounted io laws base comms address reg has_data size sim w accounted)
  run-Accounted base (Call.write comms address reg bytes ∷ cs) sim w calm accounted =
      run-Accounted base cs _ _ calm
        (comms_write_i2c-Accounted io laws base comms address reg bytes sim w accounted)

  -- Where no device has a file, all open files are the base.
  all_closed :
      (sim : Sim) (w : W)
      → ((address : ℕ) → (sim.devices address).file ≡ none)
      → Accounted io laws (λ file. laws.is_open file w) sim w
  all_closed sim w empty = record {
    own = λ address file h. absurd (cc (h, empty address));
    apart = λ address other file h k. absurd (cc (h, empty address));
    kept = λ file h. h;
    known = λ file h. inl h;
  }

  -- From `comms_init` on, after any reads, writes and deinitialisations, whatever the files do, a
  -- `comms_deinit` of a bus that is up leaves exactly those files open that were open before.
  pub files_given_back :
      (dir : List ℕ) (comms up : Comms) (cs : List Call) (sim : Sim) (file : ℕ) (w : W)
      → no_init cs ≡ true
      → up.initialized ≡ true
      → let (sim1, w1) = run io (Call.init dir (some comms) ∷ cs) sim w in
        laws.is_open file (comms_deinit io (some up) sim1 w1).3 ≡ laws.is_open file w
  unfolding run apply comms_init
  files_given_back dir comms up cs sim file w calm ready =
      let base : ℕ → Bool = λ f. laws.is_open f w in
      let (sim1, w1) = run io (Call.init dir (some comms) ∷ cs) sim w in
      comms_deinit-base io laws base up sim1 w1 file ready
        (run-Accounted base cs _ w calm (all_closed _ w (λ address. refl)))

  -- Some files are open and stay so, the others are accounted for.
  abbrev Extended : (ℕ → Bool) → Sim → W → Type 0
  Extended base sim w =
      (more : ℕ → Bool) × ((file : ℕ) → base file ≡ true → more file ≡ true)
      × Accounted io laws more sim w

  extend :
      (base more : ℕ → Bool) (sim : Sim) (w : W)
      → ((file : ℕ) → base file ≡ true → more file ≡ true)
      → Extended more sim w
      → Extended base sim w
  extend base more sim w up (most, further, accounted) =
      (most, λ file h. further file (up file h), accounted)

  apply-Extended :
      (base : ℕ → Bool) (c : Call) (sim : Sim) (w : W)
      → Accounted io laws base sim w
      → let out = apply io c sim w in Extended base out.0 out.1
  unfolding apply comms_init
  apply-Extended base (Call.init dir none) sim w accounted = (base, λ file h. h, accounted)
  apply-Extended base (Call.init dir (some comms)) sim w accounted =
      (λ file. laws.is_open file w, accounted.kept, all_closed _ w (λ address. refl))
  apply-Extended base (Call.deinit comms) sim w accounted =
      (base, λ file h. h, comms_deinit-Accounted io laws base comms sim w accounted)
  apply-Extended base (Call.read comms address reg has_data size) sim w accounted = (
    base,
    λ file h. h,
    comms_read_i2c-Accounted io laws base comms address reg has_data size sim w accounted,
  )
  apply-Extended base (Call.write comms address reg bytes) sim w accounted = (
    base,
    λ file h. h,
    comms_write_i2c-Accounted io laws base comms address reg bytes sim w accounted,
  )

  run-Extended :
      (base : ℕ → Bool) (cs : List Call) (sim : Sim) (w : W)
      → Accounted io laws base sim w
      → let out = run io cs sim w in Extended base out.0 out.1
  unfolding run
  run-Extended base [] sim w accounted = (base, λ file h. h, accounted)
  run-Extended base (c ∷ cs) sim w accounted =
      let (more, up, accounted1) = apply-Extended base c sim w accounted in
      extend base more _ _ up (run-Extended more cs _ _ accounted1)

  -- Where a device is loaded after some calls from the start of the program, a further `comms_init`
  -- forgets its file: whatever calls follow, also `comms_deinit`, the file stays open.
  pub reinit_leaks :
      (before after : List Call) (dir : List ℕ) (comms : Comms) (address file : ℕ) (w : W)
      → ((run io before g_sim w).0.devices address).file ≡ some file
      → let (sim1, w1) = run io before g_sim w in
        laws.is_open file (run io (Call.init dir (some comms) ∷ after) sim1 w1).1 ≡ true
  unfolding run apply comms_init
  reinit_leaks before after dir comms address file w held =
      let (sim1, w1) = run io before g_sim w in
      let base : ℕ → Bool = λ f. laws.is_open f w in
      let base1 : ℕ → Bool = λ f. laws.is_open f w1 in
      let (more, _, accounted) =
        run-Extended base before g_sim w (all_closed g_sim w (λ a. refl)) in
      let (most, kept, last) = run-Extended base1 after _ w1 (all_closed _ w1 (λ a. refl)) in
      last.kept file (kept file (accounted.own address file held).0)
