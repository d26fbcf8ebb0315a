-- ===== src/Comms/Sim/Handles/Devices.antt =====
-- controller/src/comms_sim.c: the open files when a device is loaded, read, written or closed.
use segling.Prelude.{
  ℕ, ◌+◌, ◌-◌, ◌*◌, ◌<◌, ◌≡◌, ◌⊎◌, inl, inr, refl, sym, ap, ◌∙◌, Bool, true, false, ◌&&◌, ◌||◌, not,
  Bool-cases, none, some, Option-cases, List, length, leb, ◌==◌, arith,
}
use segling.Prelude.Int.{ℤ, pos, negsuc}
use segling.Comms.Sim.{
  Stdio, DeviceDesc, Device, Sim, set_device, zero_device, is_ok, count_frames, measure_device,
  open_device, sim_close_device, sim_device_desc, device_path, sim_load_device, sim_seek_frame_reg,
}
use segling.Comms.Sim.Access.{next_frame, read_frame, read_device, write_frame, write_device}
use segling.Comms.Sim.Handles.{
  HandleLaws, Accounted, unloaded-none, Accounted-same, Accounted-opened,
}

count_frames-file :
    (desc : DeviceDesc) (device : Device) (size : ℤ)
    → let out = count_frames desc device size in
      (out.0.file ≡ device.file) × ((is_ok out.1 ≡ false) ⊎ (out.0.loaded ≡ true))
unfolding count_frames is_ok
count_frames-file desc device (negsuc n) = (refl, inl refl)
count_frames-file desc device (pos n) = ground arith

described_small :
    (address : ℕ) (desc : DeviceDesc) → sim_device_desc address ≡ some desc → address < 256
unfolding sim_device_desc
described_small address desc h = ground arith

module _ (io : Stdio) (laws : HandleLaws io) where
  open io use {W}

  measure_device-keeps :
      (desc : DeviceDesc) (file other : ℕ) (device : Device) (w : W)
      → let out = measure_device io desc file device w in
        (out.0.file ≡ device.file)
        × ((is_ok out.1 ≡ false) ⊎ (out.0.loaded ≡ true))
        × (laws.is_open other out.2 ≡ laws.is_open other w)
  unfolding measure_device is_ok
  measure_device-keeps desc file other device w =
      let w1 = (io.fseek_end file w).1 in
      let (filed, up) = count_frames-file desc device (io.ftell file w1).0 in
      let found = laws.fseek_end_keeps file other w in
      let told = laws.ftell_keeps file other w1 in
      elim (Bool-cases (io.fseek_end file w).0) [
        | inl good ↦ rw good (filed, up, told ∙ found)
        | inr lost ↦ rw lost (refl, inl refl, found)
      ]

  -- Of a file that was opened just now, the device is loaded with it, or it is closed again.
  open_device-keeps :
      (desc : DeviceDesc) (file : ℕ) (w : W)
      → laws.is_open file w ≡ true
      → let out = open_device io desc (some file) w in
        ((is_ok out.1 ≡ false)
          × (out.0.file ≡ none)
          × (out.0.loaded ≡ false)
          × ((other : ℕ)
              → laws.is_open other out.2 ≡ (not (other == file) && laws.is_open other w)))
        ⊎ ((out.0.file ≡ some file)
            × (out.0.loaded ≡ true)
            × ((other : ℕ) → laws.is_open other out.2 ≡ laws.is_open other w))
  unfolding open_device sim_close_device
  open_device-keeps desc file w opened =
      let fresh = record zero_device {
        file = some file;
        start_reg = desc.start_reg;
        frame_len = desc.frame_len;
      } in
      let measured = measure_device io desc file fresh w in
      let (filed, up, _) = measure_device-keeps desc file file fresh w in
      let keeps : (other : ℕ) → laws.is_open other measured.2 ≡ laws.is_open other w =
        λ other. (measure_device-keeps desc file other fresh w).2 in
      elim (Bool-cases (is_ok measured.1)) [
        | inl good ↦ rw good (inr (filed, ground arith, keeps))
        | inr bad ↦
            rw (bad, filed)
              (inl (
                bad,
                refl,
                refl,
                λ other.
                    laws.fclose_lem file other measured.2 (keeps file ∙ opened)
                    ∙ ap (λ b. not (other == file) && b) (keeps other),
              ))
      ]

  -- A file that was opened and closed again leaves the open files as they were.
  reopened :
      (file other : ℕ) (w w1 w2 : W)
      → laws.is_open file w ≡ false
      → laws.is_open other w1 ≡ (other == file || laws.is_open other w)
      → laws.is_open other w2 ≡ (not (other == file) && laws.is_open other w1)
      → laws.is_open other w2 ≡ laws.is_open other w
  reopened file other w w1 w2 fresh opened closed = elim (Bool-cases (other == file)) [
    | inl same ↦ ground arith
    | inr away ↦ ground arith
  ]

  module _ (base : ℕ → Bool) where
    -- A device without a file is replaced by another.
    pub Accounted-replaced :
        (sim : Sim) (address : ℕ) (device : Device) (w w' : W)
        → device.file ≡ (sim.devices address).file
        → ((file : ℕ) → device.file ≡ some file → device.loaded ≡ (sim.devices address).loaded)
        → ((file : ℕ) → laws.is_open file w' ≡ laws.is_open file w)
        → Accounted io laws base sim w
        → Accounted io laws base (set_device address device sim) w'
    unfolding set_device
    Accounted-replaced sim address device w w' filed up opened accounted =
        Accounted-same io laws base sim (set_device address device sim) w w'
          (λ a. elim (Bool-cases (a == address)) [
            | inl same ↦ ground arith
            | inr away ↦ ground arith
          ])
          (λ a file h. elim (Bool-cases (a == address)) [
            | inl same ↦ let kept = up file in ground arith
            | inr away ↦ ground arith
          ])
          opened accounted

    Accounted-open :
        (sim : Sim) (address : ℕ) (desc : DeviceDesc) (w : W)
        → (sim.devices address).loaded ≡ false
        → address < 256
        → Accounted io laws base sim w
        → let (file, w1) = io.fopen (device_path sim desc) w in
          let (device, _, w2) = open_device io desc file w1 in
          Accounted io laws base (set_device address device sim) w2
    unfolding open_device
    Accounted-open sim address desc w absent small accounted =
        let path = device_path sim desc in
        let w1 = (io.fopen path w).1 in
        let empty = unloaded-none io laws base sim w address accounted absent in
        elim (Option-cases (io.fopen path w).0) [
          | inl refused ↦ rw refused (
              Accounted-replaced sim address zero_device w w1 (sym empty) (λ file h. sym absent)
                (λ other. laws.fopen_none path other w refused) accounted)
          | inr (file, got) ↦
              let (fresh, opened) = laws.fopen_some path file w got in
              let on : laws.is_open file w1 ≡ true = ground (arith, opened file) in
              rw got (elim (open_device-keeps desc file w1 on) [
                | inl (_, filed, down, closed) ↦
                    Accounted-replaced sim address _ w _ (filed ∙ sym empty)
                      (λ f h. down ∙ sym absent)
                      (λ other. reopened file other w w1 _ fresh (opened other) (closed other))
                      accounted
                | inr (filed, up, keeps) ↦
                    Accounted-opened io laws base sim address file _ w _ absent small filed up fresh
                      (λ other. keeps other ∙ opened other) accounted
              ])
        ]

    pub load_device-Accounted :
        (address : ℕ) (sim : Sim) (w : W)
        → Accounted io laws base sim w
        → let out = sim_load_device io address sim w in Accounted io laws base out.0 out.2
    unfolding sim_load_device
    load_device-Accounted address sim w accounted = elim (Option-cases (sim_device_desc address)) [
      | inl unknown ↦ rw unknown accounted
      | inr (desc, known) ↦ rw known (elim (Bool-cases (sim.devices address).loaded) [
        | inl loaded ↦ rw loaded accounted
        | inr absent ↦ rw absent (elim (Bool-cases (leb 512 (length (device_path sim desc)))) [
          | inl long ↦ rw long accounted
          | inr fits ↦ rw fits (
              Accounted-open sim address desc w absent (described_small address desc known)
                accounted)
        ])
      ])
    ]

  sim_seek-keeps :
      (device : Device) (reg other : ℕ) (w : W)
      → laws.is_open other (sim_seek_frame_reg io device reg w).1 ≡ laws.is_open other w
  unfolding sim_seek_frame_reg
  sim_seek-keeps device reg other w = elim (Option-cases device.file) [
    | inl closed ↦ rw closed refl
    | inr (file, e) ↦ rw e (
        ground (
          arith,
          laws.fseek_set_keeps file
              (device.line_index * device.frame_len + (reg - device.start_reg)) other w,
        ))
  ]

  -- Reads and writes neither open nor close a file, and leave the device its file.
  abbrev pub Steady : ℕ → Device → W → Device → W → Type 0
  Steady other device w device' w' =
      (device'.file ≡ device.file)
      × (device'.loaded ≡ device.loaded)
      × (laws.is_open other w' ≡ laws.is_open other w)

  read_frame-Steady :
      (device : Device) (reg size other : ℕ) (w : W)
      → let out = read_frame io device reg size w in Steady other device w out.2 out.3
  unfolding read_frame next_frame
  read_frame-Steady device reg size other w =
      let w1 = (sim_seek_frame_reg io device reg w).1 in
      let sought = sim_seek-keeps device reg other w in
      elim (Option-cases device.file) [
        | inl closed ↦ ground arith
        | inr (file, e) ↦ let got = laws.fread_keeps file size other w1 in ground arith
      ]

  pub read_device-Steady :
      (device : Device) (reg size other : ℕ) (w : W)
      → let out = read_device io device reg size w in Steady other device w out.2 out.3
  unfolding read_device
  read_device-Steady device reg size other w =
      let framed = read_frame-Steady device reg size other w in ground arith

  pub write_device-Steady :
      (device : Device) (reg : ℕ) (bytes : List ℕ) (other : ℕ) (w : W)
      → let out = write_device io device reg bytes w in Steady other device w out.1 out.2
  unfolding write_device write_frame
  write_device-Steady device reg bytes other w =
      let w1 = (sim_seek_frame_reg io device reg w).1 in
      let sought = sim_seek-keeps device reg other w in
      elim (Option-cases device.file) [
        | inl closed ↦ ground arith
        | inr (file, e) ↦ let put = laws.fwrite_keeps file bytes other w1 in ground arith
      ]
