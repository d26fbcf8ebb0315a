-- ===== src/Comms/Sim/Stream/Bus.antt =====
-- controller/src/comms_sim.c: `comms_read_i2c` and the queues of frames of all devices.
use segling.Prelude.{
  ◌≢◌, ℕ, ◌<◌, ◌≡◌, ◌⊎◌, inl, inr, refl, ap, ◌∙◌, Bool, true, Bool-cases, not, ◌||◌, Option, none,
  some, Option-cases, length, ◌==◌, arith,
}
use segling.Comms.{Comms}
use segling.Comms.Sim.{
  Stdio, Device, Sim, is_ok, frame_offset, sim_load_device, set_device, sim_device_desc,
}
use segling.Comms.Sim.Access.{read_device, comms_read_i2c, sim_ensure_device}
use segling.Comms.Sim.Calls.{InService}
use segling.Comms.Sim.Loading.{set_device_self}
use segling.Comms.Sim.Stream.{FileLaws, file_bytes, stream}
use segling.Comms.Sim.Stream.Serves.{Hinders, read_device-serves}
use segling.Comms.Sim.Stream.Refine.{
  Dequeues, read_frame_open, read_device-cases, read_device-Dequeues,
}

module _ (io : Stdio) (laws : FileLaws io) where
  open io use {W}

  contents-read_device :
      (other : ℕ) (device : Device) (reg size : ℕ) (w : W)
      → InService device
      → reg < 256
      → laws.contents other (read_device io device reg size w).3 ≡ laws.contents other w
  contents-read_device other device reg size w ((file, opened), _, _, _, _, _) small =
      let (found, w1) = io.fseek_set file (frame_offset device reg) w in
      let sought = laws.contents-fseek_set other file (frame_offset device reg) w in
      let fetched = laws.contents-fread other file size w1 in
      elim (read_device-cases io laws device reg size w small) [
        | inl refused ↦ ap (λ out. laws.contents other out.3) refused
        | inr (inl ended) ↦ ap (λ out. laws.contents other out.3) ended
        | inr (inr (early, above, inside, e)) ↦
            ap (λ out. laws.contents other out.3)
              (e ∙ read_frame_open io laws file device reg size w opened above)
            ∙ elim (Bool-cases found) [
              | inl good ↦ elim (Bool-cases (length (io.fread file size w1).0 == size)) [
                | inl full ↦ rw (good, full) (fetched ∙ sought)
                | inr short ↦ rw (good, short) (fetched ∙ sought)
              ]
              | inr lost ↦ rw lost sought
            ]
      ]

  load_device_loaded :
      (address : ℕ) (sim : Sim) (w : W)
      → (sim.devices address).loaded ≡ true
      → let out = sim_load_device io address sim w in (out.0 ≡ sim) × (out.2 ≡ w)
  unfolding sim_load_device
  load_device_loaded address sim w loaded = elim (Option-cases (sim_device_desc address)) [
    | inl unknown ↦ rw unknown (refl, refl)
    | inr (desc, known) ↦ rw (known, loaded) (refl, refl)
  ]

  stream-other :
      (device : Device) (w w' : W)
      → ((file : ℕ) → laws.contents file w' ≡ laws.contents file w)
      → stream io laws device w' ≡ stream io laws device w
  unfolding stream file_bytes
  stream-other device w w' same = elim (Option-cases device.file) [
    | inl closed ↦ rw closed
    | inr (file, opened) ↦ rw (opened, same file)
  ]

  set_device_other :
      (address other : ℕ) (device : Device) (sim : Sim)
      → other ≢ address
      → (set_device address device sim).devices other ≡ sim.devices other
  unfolding set_device
  set_device_other address other device sim h = ground arith

  -- What keeps the bus from a read of a device that is loaded: it is down or the arguments are bad, it
  -- does not describe the address, or something hinders the device.
  abbrev pub Refuses : Option Comms → ℕ → ℕ → Bool → ℕ → Device → W → Type 0
  Refuses none address reg has_data size device w = Unit
  Refuses (some comms) address reg has_data size device w =
      ((not has_data || size == 0 || not comms.initialized) ≡ true)
      ⊎ (sim_device_desc address ≡ none)
      ⊎ Hinders io device reg size w

  load_device-described :
      (address : ℕ) (sim : Sim) (w : W)
      → (sim.devices address).loaded ≡ true
      → (is_ok (sim_load_device io address sim w).1 ≡ true) ⊎ (sim_device_desc address ≡ none)
  unfolding sim_load_device is_ok
  load_device-described address sim w loaded = elim (Option-cases (sim_device_desc address)) [
    | inl unknown ↦ inr unknown
    | inr (desc, known) ↦ rw (known, loaded) (inl refl)
  ]

  -- `comms_read_i2c` on a device that is loaded refines the queue of its frames, and leaves the queue
  -- of every other address alone: it fails and the queue stays as it is, or it succeeds, gives the
  -- registers that were asked for of the first frame, and takes this frame off. It succeeds, or
  -- the bus refuses it: that is down, or the arguments are bad, or it does not describe the address;
  -- or the device is gone or has no frame left, or the registers are not in the frame or more than
  -- 128, or the file cannot be sought or gives another number of bytes.
  pub comms_read_i2c_refines :
      (comms : Option Comms) (address other reg : ℕ) (has_data : Bool) (size : ℕ) (sim : Sim)
      (w : W)
      → InService (sim.devices address)
      → (sim.devices address).loaded ≡ true
      → other ≢ address
      → reg < 256
      → let (result, bytes, sim', w') = comms_read_i2c io comms address reg has_data size sim w in
        Dequeues io laws (sim.devices address) reg size w (result, bytes, sim'.devices address, w')
        × (stream io laws (sim'.devices other) w' ≡ stream io laws (sim.devices other) w)
        × ((is_ok result ≡ true) ⊎ Refuses comms address reg has_data size (sim.devices address) w)
  unfolding comms_read_i2c sim_ensure_device is_ok
  comms_read_i2c_refines none address other reg has_data size sim w fit loaded apart small =
      (inl (refl, refl), refl, inr tt)
  comms_read_i2c_refines (some comms) address other reg has_data size sim w fit loaded apart small =
      let (kept, still) = load_device_loaded address sim w loaded in
      let ensured = (sim_load_device io address sim w).1 in
      let read = read_device io (sim.devices address) reg size w in
      elim (Bool-cases (not has_data || size == 0 || not comms.initialized)) [
        | inl bad ↦ rw bad (inl (refl, refl), refl, inr (inl refl))
        | inr fine ↦ elim (Bool-cases (not (is_ok ensured))) [
          | inl broken ↦
              let unknown : sim_device_desc address ≡ none =
                elim (load_device-described address sim w loaded) [
                  | inl known ↦ absurd (ground arith)
                  | inr e ↦ e
                ] in
              rw (fine, broken, kept, still)
                (inl (ground arith, refl), refl, inr (inr (inl unknown)))
          | inr good ↦
              rw
                (
                  fine,
                  good,
                  kept,
                  still,
                  set_device_self address read.2 sim,
                  set_device_other address other read.2 sim apart,
                )
                (
                  read_device-Dequeues io laws (sim.devices address) reg size w fit small,
                  stream-other (sim.devices other) w read.3 (λ file.
                      contents-read_device file (sim.devices address) reg size w fit small),
                  elim (read_device-serves io laws fit.0.0 (sim.devices address) reg size w
                      fit.0.1) [ inl ok ↦ inl ok | inr hindered ↦ inr (inr (inr hindered)) ],
                )
        ]
      ]
