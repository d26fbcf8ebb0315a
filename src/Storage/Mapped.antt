-- ===== src/Storage/Mapped.antt =====
-- controller/src/storage.c, `mmap_rw`: the descriptor and the address.
use segling.Prelude.{
  ℕ, ◌≡◌, ◌⊎◌, inl, inr, refl, Bool, true, false, ◌&&◌, ◌||◌, not, none, some, Option-cases, List,
  ◌==◌, arith,
}
use segling.Storage.{StorageResult, Mapping, mmap_rw, mmap_opened}

-- `open` gives a descriptor that was not open, `mmap` opens and closes none, and `close` closes one
-- that is open.
pub record DescriptorLaws {W : Type 0} (os : Mapping W) : Type 0 where
  pub is_open : ℕ → W → Bool
  pub open_some :
      (path : List ℕ) (fd : ℕ) (w : W)
      → (os.open_file path w).0 ≡ some fd
      → (is_open fd w ≡ false)
        × ((other : ℕ) → is_open other (os.open_file path w).1 ≡ (other == fd || is_open other w))
  pub open_none :
      (path : List ℕ) (other : ℕ) (w : W)
      → (os.open_file path w).0 ≡ none
      → is_open other (os.open_file path w).1 ≡ is_open other w
  pub map_keeps :
      (fd len other : ℕ) (w : W) → is_open other (os.map_file fd len w).1 ≡ is_open other w
  pub close_lem :
      (fd other : ℕ) (w : W)
      → is_open fd w ≡ true
      → is_open other (os.close_file fd w) ≡ (not (other == fd) && is_open other w)

module _ {W : Type 0} (os : Mapping W) where
  mmap_opened-none :
      (fd len out : ℕ) (w : W)
      → (os.map_file fd len w).0 ≡ none
      → mmap_opened os (some fd) len out w
        ≡ (StorageResult.error_load_failed, out, os.close_file fd (os.map_file fd len w).1)
  unfolding mmap_opened
  mmap_opened-none fd len out w e = ground arith

  mmap_opened-some :
      (fd address len out : ℕ) (w : W)
      → (os.map_file fd len w).0 ≡ some address
      → mmap_opened os (some fd) len out w
        ≡ (StorageResult.ok, address, os.close_file fd (os.map_file fd len w).1)
  unfolding mmap_opened
  mmap_opened-some fd address len out w e = ground arith

-- Whether the file opens and maps or not, the call leaves the same descriptors open as before. It
-- succeeds exactly where both do, and then gives the address of the map; else the address
-- that the caller had stays.
pub mmap_rw_lem :
    {W : Type 0} (os : Mapping W) (laws : DescriptorLaws os) (path : List ℕ) (len out fd : ℕ)
    (w : W)
    → let (opened, w1) = os.open_file path w in
      let (result, address, w2) = mmap_rw os path len out w in
      (laws.is_open fd w2 ≡ laws.is_open fd w)
      × (((result ≡ StorageResult.ok)
            × ((file : ℕ) × (opened ≡ some file) × ((os.map_file file len w1).0 ≡ some address)))
          ⊎ ((result ≡ StorageResult.error_load_failed)
              × (address ≡ out)
              × ((opened ≡ none)
                  ⊎ ((file : ℕ) × (opened ≡ some file) × ((os.map_file file len w1).0 ≡ none)))))
unfolding mmap_rw
mmap_rw_lem os laws path len out fd w =
    let w1 = (os.open_file path w).1 in
    elim (Option-cases (os.open_file path w).0) [
      | inl refused ↦ rw refused (laws.open_none path fd w refused, inr (refl, refl, inl refl))
      | inr (file, got) ↦
          let (fresh, opened) = laws.open_some path file w got in
          let mapped = laws.map_keeps file len file w1 in
          let same = laws.map_keeps file len fd w1 in
          let w2 = (os.map_file file len w1).1 in
          let closed = laws.close_lem file fd w2 (ground (arith, opened file)) in
          let kept : laws.is_open fd (os.close_file file w2) ≡ laws.is_open fd w =
            ground (arith, opened fd) in
          elim (Option-cases (os.map_file file len w1).0) [
            | inl failed ↦
                rw (got, mmap_opened-none os file len out w1 failed)
                  (kept, inr (refl, refl, inr (file, refl, failed)))
            | inr (address, done) ↦
                rw (got, mmap_opened-some os file address len out w1 done)
                  (kept, inl (refl, (file, refl, done)))
          ]
    ]
