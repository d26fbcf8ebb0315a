-- ===== src/Comms/Sim/Loading.antt =====
-- controller/src/comms_sim.c: what `sim_load_device` makes of a device.
use segling.Prelude.{
  ℕ, ◌/◌, ◌%◌, not, ◌||◌, ltb, ◌≤◌, ◌≡◌, ◌⊎◌, inl, inr, refl, sym, subst, true, false, Bool-cases,
  Option, none, some, Option-cases, leb, length, ◌==◌, arith,
}
use segling.Prelude.Int.{ℤ, pos, negsuc}
use segling.Comms.Sim.{
  Stdio, DeviceDesc, Device, Sim, set_device, zero_device, max_frame_count, is_ok, count_frames,
  measure_device, open_device, sim_close_device, sim_device_desc, device_path, sim_load_device,
}
use segling.Comms.Sim.Calls.{InService, DeviceIsValid, IsValid}

count_frames_lem :
    (desc : DeviceDesc) (device : Device) (size : ℤ) (file : ℕ)
    → device.file ≡ some file
    → 1 ≤ device.frame_len
    → let out = count_frames desc device size in
      (is_ok out.1 ≡ false) ⊎ (InService out.0 × (out.0.loaded ≡ true))
unfolding count_frames is_ok
count_frames_lem desc device (negsuc n) file opened long = inl refl
count_frames_lem desc device (pos n) file opened long =
    let frames = n / desc.frame_len in
    elim (Bool-cases (not (n % desc.frame_len == 0))) [
      | inl ragged ↦ rw ragged (inl refl)
      | inr whole ↦ rw whole (elim (Bool-cases (frames == 0 || ltb max_frame_count frames)) [
        | inl bad ↦ rw bad (inl refl)
        | inr good ↦ rw good (
            let bounds : (1 ≤ frames) × (frames ≤ 255) = ground arith in
            inr (
              ((file, opened), omega arith, omega arith, long, omega arith, inl (omega arith)),
              refl,
            ))
      ])
    ]

pub set_device-IsValid :
    (address : ℕ) (device : Device) (sim : Sim)
    → DeviceIsValid device
    → IsValid sim
    → IsValid (set_device address device sim)
unfolding set_device
set_device-IsValid address device sim valid others a = elim (Bool-cases (a == address)) [
  | inl same ↦ rw same valid
  | inr other ↦ rw other (others a)
]

pub set_device_self :
    (address : ℕ) (device : Device) (sim : Sim)
    → (set_device address device sim).devices address ≡ device
unfolding set_device
set_device_self address device sim = ground arith

pub in_service : (device : Device) → DeviceIsValid device → device.loaded ≡ true → InService device
in_service device (inl off) on = absurd (cc (off, on))
in_service device (inr fit) on = fit

described_long :
    (address : ℕ) (desc : DeviceDesc) → sim_device_desc address ≡ some desc → 1 ≤ desc.frame_len
unfolding sim_device_desc
described_long address desc h = ground arith

module _ (io : Stdio) where
  open io use {W}

  -- A device that was opened: it failed and is not loaded, or it is loaded and in service.
  pub open_device_lem :
      (desc : DeviceDesc) (file : Option ℕ) (w : W)
      → 1 ≤ desc.frame_len
      → let out = open_device io desc file w in
        ((is_ok out.1 ≡ false) × (out.0.loaded ≡ false)) ⊎ (InService out.0 × (out.0.loaded ≡ true))
  unfolding open_device measure_device sim_close_device is_ok
  open_device_lem desc none w long = inl (refl, refl)
  open_device_lem desc (some file) w long =
      let fresh = record zero_device {
        file = some file;
        start_reg = desc.start_reg;
        frame_len = desc.frame_len;
      } in
      let found_end = (io.fseek_end file w).0 in
      let size = (io.ftell file (io.fseek_end file w).1).0 in
      elim (Bool-cases found_end) [
        | inl found ↦ rw found (elim (Bool-cases (is_ok (count_frames desc fresh size).1)) [
          | inl good ↦ rw good (elim (count_frames_lem desc fresh size file refl long) [
            | inl bad ↦ absurd (cc (good, bad))
            | inr counted ↦ inr counted
          ])
          | inr bad ↦ rw bad (inl (bad, refl))
        ])
        | inr lost ↦ rw lost (inl (refl, refl))
      ]

  -- Loading leaves a loaded device alone; of one that is not, it makes one that is not, or one in
  -- service. It succeeds only for a device that is loaded then.
  pub load_device_lem :
      (address : ℕ) (sim : Sim) (w : W)
      → let out = sim_load_device io address sim w in
        ((out.0 ≡ sim) × ((is_ok out.1 ≡ false) ⊎ ((sim.devices address).loaded ≡ true)))
        ⊎ (((sim.devices address).loaded ≡ false)
            × ((device : Device) × (out.0 ≡ set_device address device sim)
                × (((is_ok out.1 ≡ false) × (device.loaded ≡ false))
                    ⊎ (InService device × (device.loaded ≡ true)))))
  unfolding sim_load_device is_ok
  load_device_lem address sim w = elim (Option-cases (sim_device_desc address)) [
    | inl unknown ↦ rw unknown (inl (refl, inl refl))
    | inr (desc, known) ↦ rw known (elim (Bool-cases (sim.devices address).loaded) [
      | inl loaded ↦ rw loaded (inl (refl, inr refl))
      | inr absent ↦ rw absent (elim (Bool-cases (leb 512 (length (device_path sim desc)))) [
        | inl long ↦ rw long (inl (refl, inl refl))
        | inr fits ↦ rw fits (
            let (file, w1) = io.fopen (device_path sim desc) w in
            inr (
              refl,
              (
                (open_device io desc file w1).0,
                refl,
                open_device_lem desc file w1 (described_long address desc known),
              ),
            ))
      ])
    ])
  ]

  pub load_device-IsValid :
      (address : ℕ) (sim : Sim) (w : W)
      → IsValid sim
      → let out = sim_load_device io address sim w in
        IsValid out.0 × ((is_ok out.1 ≡ false) ⊎ InService (out.0.devices address))
  load_device-IsValid address sim w valid = elim (load_device_lem address sim w) [
    | inl (same, why) ↦ (
      subst IsValid (sym same) valid,
      elim why [
        | inl bad ↦ inl bad
        | inr loaded ↦ inr (
            subst (λ s. InService (s.devices address)) (sym same)
              (in_service (sim.devices address) (valid address) loaded))
      ],
    )
    | inr (absent, (device, made, inl (bad, off))) ↦
        (subst IsValid (sym made) (set_device-IsValid address device sim (inl off) valid), inl bad)
    | inr (absent, (device, made, inr (fit, on))) ↦ (
      subst IsValid (sym made) (set_device-IsValid address device sim (inr fit) valid),
      inr (
          subst (λ s. InService (s.devices address)) (sym made)
            (subst InService (sym (set_device_self address device sim)) fit)),
    )
  ]
