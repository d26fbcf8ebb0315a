-- ===== src/Server/Lifetime.antt =====
-- interface/internal/storage/storage.go, `Open`: the files and the maps that its parts leave.
pub mod Balance
use segling.Prelude.{
  ℕ, ◌≡◌, ◌≢◌, ◌⊎◌, inl, inr, refl, sym, ◌∙◌, ap, Bool, true, false, ◌&&◌, ◌||◌, not, Bool-cases,
  Option, none, some, Option-cases, List, ltb, ◌==◌, if◌then◌else◌, arith,
}
use segling.Server.{total_size, commands_map_size}
use segling.Server.Shared.{Store}
use segling.Server.Files.{
  Access, Failure, Attempt, ok, err, Os, close_result, size_file, size_opened, ensure_file_sized,
  mapped_result, map_opened, map_path, opened_store, open_sized, size_commands, open_commands,
  open_store, unmap_region, close_store,
}

-- What is documented of the calls: which descriptors are open, and which addresses are mapped.
pub record OsLaws (os : Os) : Type 0 where
  pub is_open : ℕ → os.W → Bool
  pub is_mapped : ℕ → os.W → Bool
  pub open_some :
      (path : List ℕ) (access : Access) (fd : ℕ) (w : os.W)
      → (os.open_file path access w).0 ≡ some fd
      → (is_open fd w ≡ false)
        × ((other : ℕ)
            → is_open other (os.open_file path access w).1 ≡ (other == fd || is_open other w))
  pub open_none :
      (path : List ℕ) (access : Access) (other : ℕ) (w : os.W)
      → (os.open_file path access w).0 ≡ none
      → is_open other (os.open_file path access w).1 ≡ is_open other w
  pub open_maps :
      (path : List ℕ) (access : Access) (other : ℕ) (w : os.W)
      → is_mapped other (os.open_file path access w).1 ≡ is_mapped other w
  pub stat_keeps :
      (fd other : ℕ) (w : os.W)
      → (is_open other (os.stat_size fd w).1 ≡ is_open other w)
        × (is_mapped other (os.stat_size fd w).1 ≡ is_mapped other w)
  pub truncate_keeps :
      (fd size other : ℕ) (w : os.W)
      → (is_open other (os.truncate fd size w).1 ≡ is_open other w)
        × (is_mapped other (os.truncate fd size w).1 ≡ is_mapped other w)
  pub close_lem :
      (fd other : ℕ) (w : os.W)
      → is_open fd w ≡ true
      → (is_open other (os.close_file fd w).1 ≡ (not (other == fd) && is_open other w))
        × (is_mapped other (os.close_file fd w).1 ≡ is_mapped other w)
  pub map_opens :
      (fd : ℕ) (access : Access) (other : ℕ) (w : os.W)
      → is_open other (os.map_file fd access w).1 ≡ is_open other w
  pub map_some :
      (fd : ℕ) (access : Access) (address : ℕ) (w : os.W)
      → (os.map_file fd access w).0 ≡ some address
      → (is_mapped address w ≡ false)
        × ((other : ℕ)
            → is_mapped other (os.map_file fd access w).1 ≡ (other == address || is_mapped other w))
  pub map_none :
      (fd : ℕ) (access : Access) (other : ℕ) (w : os.W)
      → (os.map_file fd access w).0 ≡ none
      → is_mapped other (os.map_file fd access w).1 ≡ is_mapped other w
  pub unmap_lem :
      (address other : ℕ) (w : os.W)
      → is_mapped address w ≡ true
      → ((os.unmap address w).0 ≡ true)
        × (is_open other (os.unmap address w).1 ≡ is_open other w)
        × (is_mapped other (os.unmap address w).1 ≡ (not (other == address) && is_mapped other w))

module _ (os : Os) (laws : OsLaws os) where
  open os use {W}

  -- The same descriptors are open, and the same addresses mapped.
  pub record Same (w w' : W) : Type 0 where
    pub opens : (other : ℕ) → laws.is_open other w' ≡ laws.is_open other w
    pub maps : (other : ℕ) → laws.is_mapped other w' ≡ laws.is_mapped other w

  -- The same but for one more map.
  pub record Adds (address : ℕ) (w w' : W) : Type 0 where
    pub fresh : laws.is_mapped address w ≡ false
    pub opens : (other : ℕ) → laws.is_open other w' ≡ laws.is_open other w
    pub maps : (other : ℕ) → laws.is_mapped other w' ≡ (other == address || laws.is_mapped other w)

  -- The same but for one more descriptor.
  record Holding (fd : ℕ) (w w' : W) : Type 0 where
    fresh : laws.is_open fd w ≡ false
    opens : (other : ℕ) → laws.is_open other w' ≡ (other == fd || laws.is_open other w)
    maps : (other : ℕ) → laws.is_mapped other w' ≡ laws.is_mapped other w

  closed-Same : (fd : ℕ) (w w1 : W) → Holding fd w w1 → Same w (os.close_file fd w1).1
  closed-Same fd w w1 held =
      let mine : laws.is_open fd w1 ≡ true = ground (arith, held.opens fd) in
      record {
        opens = λ other.
            let after = (laws.close_lem fd other w1 mine).0 in
            ground (arith, held.opens other, held.fresh);
        maps = λ other. (laws.close_lem fd other w1 mine).1 ∙ held.maps other;
      }

  opened-Holding :
      (path : List ℕ) (access : Access) (fd : ℕ) (w : W)
      → (os.open_file path access w).0 ≡ some fd
      → Holding fd w (os.open_file path access w).1
  opened-Holding path access fd w got =
      let (fresh, opens) = laws.open_some path access fd w got in
      record { fresh = fresh; opens = opens; maps = λ other. laws.open_maps path access other w }

  size_file-Same :
      (fd min_bytes : ℕ) (size : Option ℕ) (w w1 : W)
      → Holding fd w w1
      → Same w (size_file os fd min_bytes size w1).1
  unfolding size_file close_result
  size_file-Same fd min_bytes none w w1 held = closed-Same fd w w1 held
  size_file-Same fd min_bytes (some size) w w1 held =
      let w2 = (os.truncate fd min_bytes w1).1 in
      let held2 : Holding fd w w2 = record {
        fresh = held.fresh;
        opens = λ other. (laws.truncate_keeps fd min_bytes other w1).0 ∙ held.opens other;
        maps = λ other. (laws.truncate_keeps fd min_bytes other w1).1 ∙ held.maps other;
      } in
      elim (Bool-cases (ltb size min_bytes)) [
        | inr large ↦ rw large (closed-Same fd w w1 held)
        | inl small ↦ elim (Bool-cases (os.truncate fd min_bytes w1).0) [
          | inl grown ↦ rw (small, grown) (closed-Same fd w w2 held2)
          | inr stuck ↦ rw (small, stuck) (closed-Same fd w w2 held2)
        ]
      ]

  pub ensure-Same :
      (path : List ℕ) (min_bytes : ℕ) (w : W) → Same w (ensure_file_sized os path min_bytes w).1
  unfolding ensure_file_sized size_opened
  ensure-Same path min_bytes w =
      elim (Option-cases (os.open_file path Access.read_write_create w).0) [
        | inl refused ↦ rw refused record {
          opens = λ other. laws.open_none path Access.read_write_create other w refused;
          maps = λ other. laws.open_maps path Access.read_write_create other w;
        }
        | inr (fd, got) ↦
            let held = opened-Holding path Access.read_write_create fd w got in
            let w1 = (os.open_file path Access.read_write_create w).1 in
            let held2 : Holding fd w (os.stat_size fd w1).1 = record {
              fresh = held.fresh;
              opens = λ other. (laws.stat_keeps fd other w1).0 ∙ held.opens other;
              maps = λ other. (laws.stat_keeps fd other w1).1 ∙ held.maps other;
            } in
            rw got (size_file-Same fd min_bytes (os.stat_size fd w1).0 w _ held2)
      ]

  pub Same-trans : {w w1 w2 : W} → Same w w1 → Same w1 w2 → Same w w2
  Same-trans a b = record {
    opens = λ other. b.opens other ∙ a.opens other;
    maps = λ other. b.maps other ∙ a.maps other;
  }

  -- What opening and mapping a file leaves: one more map, or nothing.
  abbrev pub Mapped : W → Attempt ℕ × W → Type 0
  Mapped w (ok address, w') = Adds address w w'
  Mapped w (err e, w') = Same w w'

  map_opened-Mapped :
      (access : Access) (fd : ℕ) (w w1 : W)
      → Holding fd w w1
      → Mapped w (map_opened os access (some fd) w1)
  unfolding map_opened
  map_opened-Mapped access fd w w1 held =
      let w2 = (os.map_file fd access w1).1 in
      let mine : laws.is_open fd w2 ≡ true =
        ground (arith, held.opens fd, laws.map_opens fd access fd w1) in
      let closes = λ (other : ℕ). laws.close_lem fd other w2 mine in
      let opens : (other : ℕ) → laws.is_open other (os.close_file fd w2).1 ≡ laws.is_open other w =
        λ other.
          let after = (closes other).0 in
          ground (arith, held.opens other, held.fresh, laws.map_opens fd access other w1) in
      elim (Option-cases (os.map_file fd access w1).0) [
        | inl failed ↦ rw failed record {
          opens = opens;
          maps = λ other.
              (closes other).1 ∙ (laws.map_none fd access other w1 failed ∙ held.maps other);
        }
        | inr (address, done) ↦
            let (fresh, maps) = laws.map_some fd access address w1 done in
            rw done record {
              fresh = sym (held.maps address) ∙ fresh;
              opens = opens;
              maps = λ other.
                  (closes other).1
                  ∙ (maps other ∙ ap (λ b. other == address || b) (held.maps other));
            }
      ]

  pub map_path-Mapped :
      (path : List ℕ) (access : Access) (w : W) → Mapped w (map_path os path access w)
  unfolding map_path
  map_path-Mapped path access w = elim (Option-cases (os.open_file path access w).0) [
    | inl refused ↦ rw refused (
        unfold map_opened in
        record {
          opens = λ other. laws.open_none path access other w refused;
          maps = λ other. laws.open_maps path access other w;
        })
    | inr (fd, got) ↦ rw got (map_opened-Mapped access fd w _ (opened-Holding path access fd w got))
  ]
