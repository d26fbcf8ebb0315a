-- ===== src/Comms/Sim/Handles.antt =====
-- controller/src/comms_sim.c: the files that the simulated bus opens and closes. What stdio documents
-- of open files is a record of facts that the theorems take as a hypothesis.
pub mod Devices
pub mod Access
pub mod Sessions
use segling.Prelude.{
  ℕ, ◌<◌, ◌≡◌, ◌⊎◌, inl, inr, refl, sym, subst, ap, ◌∙◌, Bool, true, false, ◌&&◌, ◌||◌, not,
  Bool-cases, Option, none, some, Option-cases, List, ◌==◌, ==_iff, if◌then◌else◌, arith,
}
use segling.Prelude.Int.{ℤ}
use segling.Comms.Sim.{Stdio, Device, Sim, set_device}
use segling.Comms.Sim.Loading.{set_device_self}

-- `fopen` gives a file that was not open, and `fclose` closes a file that is open; nothing else opens
-- or closes one.
pub record HandleLaws (io : Stdio) : Type 0 where
  pub is_open : ℕ → io.W → Bool
  pub fopen_some :
      (path : List ℕ) (file : ℕ) (w : io.W)
      → (io.fopen path w).0 ≡ some file
      → (is_open file w ≡ false)
        × ((other : ℕ) → is_open other (io.fopen path w).1 ≡ (other == file || is_open other w))
  pub fopen_none :
      (path : List ℕ) (other : ℕ) (w : io.W)
      → (io.fopen path w).0 ≡ none
      → is_open other (io.fopen path w).1 ≡ is_open other w
  pub fclose_lem :
      (file other : ℕ) (w : io.W)
      → is_open file w ≡ true
      → is_open other (io.fclose file w) ≡ (not (other == file) && is_open other w)
  pub fseek_end_keeps :
      (file other : ℕ) (w : io.W) → is_open other (io.fseek_end file w).1 ≡ is_open other w
  pub ftell_keeps :
      (file other : ℕ) (w : io.W) → is_open other (io.ftell file w).1 ≡ is_open other w
  pub fseek_set_keeps :
      (file offset other : ℕ) (w : io.W)
      → is_open other (io.fseek_set file offset w).1 ≡ is_open other w
  pub fread_keeps :
      (file size other : ℕ) (w : io.W) → is_open other (io.fread file size w).1 ≡ is_open other w
  pub fwrite_keeps :
      (file : ℕ) (bytes : List ℕ) (other : ℕ) (w : io.W)
      → is_open other (io.fwrite file bytes w).1 ≡ is_open other w

abbrev pub Holds : Sim → ℕ → ℕ → Type 0
Holds sim address file = (sim.devices address).file ≡ some file

module _ (io : Stdio) (laws : HandleLaws io) where
  open io use {W}

  -- The open files are those of `base`, which the bus leaves alone, and one for each loaded device.
  pub record Accounted (base : ℕ → Bool) (sim : Sim) (w : W) : Type 0 where
    pub own :
        (address file : ℕ)
        → Holds sim address file
        → (laws.is_open file w ≡ true)
          × (base file ≡ false)
          × (address < 256)
          × ((sim.devices address).loaded ≡ true)
    pub apart :
        (address other file : ℕ) → Holds sim address file → Holds sim other file → address ≡ other
    pub kept : (file : ℕ) → base file ≡ true → laws.is_open file w ≡ true
    pub known :
        (file : ℕ)
        → laws.is_open file w ≡ true
        → (base file ≡ true) ⊎ ((address : ℕ) × Holds sim address file)

module _ (io : Stdio) (laws : HandleLaws io) (base : ℕ → Bool) where
  open io use {W}

  -- A device that is not loaded holds no file.
  pub unloaded-none :
      (sim : Sim) (w : W) (address : ℕ)
      → Accounted io laws base sim w
      → (sim.devices address).loaded ≡ false
      → (sim.devices address).file ≡ none
  unloaded-none sim w address accounted absent = elim (Option-cases (sim.devices address).file) [
    | inl e ↦ e
    | inr (file, e) ↦ absurd (cc (absent, (accounted.own address file e).3))
  ]

  -- Neither files nor devices change.
  pub Accounted-same :
      (sim sim' : Sim) (w w' : W)
      → ((address : ℕ) → (sim'.devices address).file ≡ (sim.devices address).file)
      → ((address file : ℕ)
          → Holds sim address file
          → (sim'.devices address).loaded ≡ (sim.devices address).loaded)
      → ((file : ℕ) → laws.is_open file w' ≡ laws.is_open file w)
      → Accounted io laws base sim w
      → Accounted io laws base sim' w'
  Accounted-same sim sim' w w' files loaded opened accounted = record {
    own = λ address file h.
        let before = sym (files address) ∙ h in
        let (on, free, small, up) = accounted.own address file before in
        (opened file ∙ on, free, small, loaded address file before ∙ up);
    apart = λ address other file h k.
        accounted.apart address other file (sym (files address) ∙ h) (sym (files other) ∙ k);
    kept = λ file h. opened file ∙ accounted.kept file h;
    known = λ file h. elim (accounted.known file (sym (opened file) ∙ h)) [
      | inl old ↦ inl old
      | inr (address, holds) ↦ inr (address, files address ∙ holds)
    ];
  }

  Holds-set :
      (sim : Sim) (address other file : ℕ) (device : Device)
      → Holds (set_device address device sim) other file
      → ((other ≡ address) × (device.file ≡ some file))
        ⊎ (((other == address) ≡ false) × Holds sim other file)
  unfolding set_device
  Holds-set sim address other file device h = ground arith

  Holds-other :
      (sim : Sim) (address other file : ℕ) (device : Device)
      → (other == address) ≡ false
      → Holds sim other file
      → Holds (set_device address device sim) other file
  unfolding set_device
  Holds-other sim address other file device apart h = rw apart h

  loaded_other :
      (sim : Sim) (address other : ℕ) (device : Device)
      → (other == address) ≡ false
      → ((set_device address device sim).devices other).loaded ≡ (sim.devices other).loaded
  unfolding set_device
  loaded_other sim address other device apart = rw apart refl

  -- A device that is not loaded gets a file that was not open.
  pub Accounted-opened :
      (sim : Sim) (address file : ℕ) (device : Device) (w w' : W)
      → (sim.devices address).loaded ≡ false
      → address < 256
      → device.file ≡ some file
      → device.loaded ≡ true
      → laws.is_open file w ≡ false
      → ((other : ℕ) → laws.is_open other w' ≡ (other == file || laws.is_open other w))
      → Accounted io laws base sim w
      → Accounted io laws base (set_device address device sim) w'
  unfolding set_device
  Accounted-opened sim address file device w w' absent small filed up fresh opened accounted =
      let empty = unloaded-none sim w address accounted absent in
      let mine : base file ≡ false = elim (Bool-cases (base file)) [
        | inl old ↦ absurd (cc (fresh, accounted.kept file old))
        | inr e ↦ e
      ] in
      record {
        own = λ other held h. elim (Holds-set sim address other held device h) [
          | inl (same, e) ↦ ground (arith, opened held)
          | inr (away, e) ↦ ground (arith, opened held, accounted.own other held e)
        ];
        apart = λ a b held h k. elim (Holds-set sim address a held device h) [
          | inl (first, e) ↦ elim (Holds-set sim address b held device k) [
            | inl (second, _) ↦ first ∙ sym second
            | inr (away, f) ↦ absurd (ground (arith, accounted.own b held f))
          ]
          | inr (away, e) ↦ elim (Holds-set sim address b held device k) [
            | inl (second, f) ↦ absurd (ground (arith, accounted.own a held e))
            | inr (_, f) ↦ accounted.apart a b held e f
          ]
        ];
        kept = λ held h. ground (arith, opened held, accounted.kept held h);
        known = λ held h. elim (Bool-cases (held == file)) [
          | inl same ↦ inr (address, ground arith)
          | inr old ↦ elim (accounted.known held (ground (arith, opened held))) [
            | inl before ↦ inl before
            | inr (other, e) ↦ inr (other, ground arith)
          ]
        ];
      }

  -- A device gives its file back.
  pub Accounted-closed :
      (sim : Sim) (address file : ℕ) (device : Device) (w w' : W)
      → Holds sim address file
      → device.file ≡ none
      → ((other : ℕ) → laws.is_open other w' ≡ (not (other == file) && laws.is_open other w))
      → Accounted io laws base sim w
      → Accounted io laws base (set_device address device sim) w'
  unfolding set_device
  Accounted-closed sim address file device w w' held_here filed closed accounted =
      let mine = accounted.own address file held_here in
      record {
        own = λ other held h. elim (Holds-set sim address other held device h) [
          | inl (same, e) ↦ absurd (cc (filed, e))
          | inr (away, e) ↦ elim (Bool-cases (held == file)) [
            | inl shared ↦ absurd (ground (arith, accounted.apart other address file))
            | inr distinct ↦ ground (arith, closed held, accounted.own other held e)
          ]
        ];
        apart = λ a b held h k. elim (Holds-set sim address a held device h) [
          | inl (first, e) ↦ absurd (cc (filed, e))
          | inr (away, e) ↦ elim (Holds-set sim address b held device k) [
            | inl (second, f) ↦ absurd (cc (filed, f))
            | inr (_, f) ↦ accounted.apart a b held e f
          ]
        ];
        kept = λ held h. ground (arith, closed held, accounted.kept held h);
        known = λ held h. elim (accounted.known held (ground (arith, closed held))) [
          | inl before ↦ inl before
          | inr (other, e) ↦ elim (Bool-cases (other == address)) [
            | inl same ↦ absurd (ground (arith, closed held))
            | inr away ↦ inr (other, ground arith)
          ]
        ];
      }
