-- ===== src/Server/Lifetime/Balance.antt =====
-- interface/internal/storage/storage.go, `Open` and `Close`: what is opened is closed.
use segling.Prelude.{
  ℕ, ◌≡◌, ◌⊎◌, inl, inr, refl, sym, ◌∙◌, ap, true, false, ◌||◌, Option, none, some, List, ◌==◌,
  arith,
}
use segling.Server.{Error, Outcome, total_size, commands_map_size}
use segling.Server.Shared.{Others, Memory, Store, read_snapshot, write_command}
use segling.Server.Files.{
  Access, Failure, Attempt, ok, err, Os, ensure_file_sized, map_path, opened_store, open_commands,
  open_sized, size_commands, open_store, unmap_region, close_store,
}
use segling.Server.Lifetime.{OsLaws, Same, Adds, Same-trans, Mapped, map_path-Mapped, ensure-Same}

module _ (os : Os) (laws : OsLaws os) where
  open os use {W}

  -- The same descriptors, and exactly two maps more, of addresses that are not the same.
  pub record AddsTwo (a b : ℕ) (w w' : W) : Type 0 where
    pub fresh_a : laws.is_mapped a w ≡ false
    pub fresh_b : laws.is_mapped b w ≡ false
    pub apart : (b == a) ≡ false
    pub opens : (other : ℕ) → laws.is_open other w' ≡ laws.is_open other w
    pub maps :
        (other : ℕ)
        → laws.is_mapped other w' ≡ (other == b || (other == a || laws.is_mapped other w))

  -- What an `Open` leaves: the two maps of its store, or nothing.
  abbrev pub Leaves : List ℕ → List ℕ → W → Attempt Store × W → Type 0
  Leaves state_path commands_path w (result, w') =
      ((e : Failure) × (result ≡ err e) × Same os laws w w')
      ⊎ ((a : ℕ) × (b : ℕ) × (result
            ≡ ok record {
              state_path = state_path;
              commands_path = commands_path;
              state = some a;
              commands = some b;
            })
          × AddsTwo a b w w')

  module _ (state_path commands_path : List ℕ) where
    opened_store-Leaves :
        (a : ℕ) (cmd_reg : Attempt ℕ) (w w1 w2 : W)
        → Adds os laws a w w1
        → Mapped os laws w1 (cmd_reg, w2)
        → Leaves state_path commands_path w (opened_store os state_path commands_path a cmd_reg w2)
    unfolding opened_store
    opened_store-Leaves a (ok b) w w1 w2 first second = inr (
      a,
      b,
      refl,
      record {
        fresh_a = first.fresh;
        fresh_b = ground (arith, first.maps b, second.fresh);
        apart = ground (arith, first.maps b, second.fresh);
        opens = λ other. second.opens other ∙ first.opens other;
        maps = λ other. second.maps other ∙ ap (λ c. other == b || c) (first.maps other);
      },
    )
    opened_store-Leaves a (err e) w w1 w2 first same =
        let mine : laws.is_mapped a w2 ≡ true = ground (arith, first.maps a, same.maps a) in
        inl (
          e,
          refl,
          record {
            opens = λ other.
                (laws.unmap_lem a other w2 mine).1 ∙ (same.opens other ∙ first.opens other);
            maps = λ other.
                let after = (laws.unmap_lem a other w2 mine).2 in
                ground (arith, same.maps other, first.maps other, first.fresh);
          },
        )

    Leaves-before :
        (w w1 : W) (result : Attempt Store) (w2 : W)
        → Same os laws w w1
        → Leaves state_path commands_path w1 (result, w2)
        → Leaves state_path commands_path w (result, w2)
    Leaves-before w w1 result w2 same (inl (e, failed, rest)) =
        inl (e, failed, Same-trans os laws same rest)
    Leaves-before w w1 result w2 same (inr (a, b, done, two)) = inr (
      a,
      b,
      done,
      record {
        fresh_a = sym (same.maps a) ∙ two.fresh_a;
        fresh_b = sym (same.maps b) ∙ two.fresh_b;
        apart = two.apart;
        opens = λ other. two.opens other ∙ same.opens other;
        maps =
            λ other. two.maps other ∙ ap (λ c. other == b || (other == a || c)) (same.maps other);
      },
    )

    open_commands-Leaves :
        (state_reg : Attempt ℕ) (w w1 : W)
        → Mapped os laws w (state_reg, w1)
        → Leaves state_path commands_path w (open_commands os state_path commands_path state_reg w1)
    unfolding open_commands
    open_commands-Leaves (err e) w w1 same = inl (e, refl, same)
    open_commands-Leaves (ok a) w w1 first =
        let (cmd_reg, w2) = map_path os commands_path Access.read_write w1 in
        opened_store-Leaves a cmd_reg w w1 w2 first
          (map_path-Mapped os laws commands_path Access.read_write w1)

    open_sized-Leaves :
        (short : Option Failure) (w : W)
        → Leaves state_path commands_path w (open_sized os state_path commands_path short w)
    unfolding open_sized
    open_sized-Leaves (some e) w =
        inl (e, refl, record { opens = λ other. refl; maps = λ other. refl })
    open_sized-Leaves none w =
        let (state_reg, w1) = map_path os state_path Access.read_only w in
        open_commands-Leaves state_reg w w1 (map_path-Mapped os laws state_path Access.read_only w)

    size_commands-Leaves :
        (short : Option Failure) (w : W)
        → Leaves state_path commands_path w (size_commands os state_path commands_path short w)
    unfolding size_commands
    size_commands-Leaves (some e) w =
        inl (e, refl, record { opens = λ other. refl; maps = λ other. refl })
    size_commands-Leaves none w =
        let (short, w1) = ensure_file_sized os commands_path commands_map_size w in
        Leaves-before w w1 _ _ (ensure-Same os laws commands_path commands_map_size w)
          (open_sized-Leaves short w1)

    -- Whichever of its calls fail, an Open leaves the same descriptors open as before. Where it gives
    -- an error, it leaves also the same maps; else exactly two more, those of its store.
    pub open_store-Leaves :
        (w : W) → Leaves state_path commands_path w (open_store os state_path commands_path w)
    unfolding open_store
    open_store-Leaves w =
        let (short, w1) = ensure_file_sized os state_path total_size w in
        Leaves-before w w1 _ _ (ensure-Same os laws state_path total_size w)
          (size_commands-Leaves short w1)

    unmapped_twice :
        (a b : ℕ) (w w1 : W)
        → AddsTwo a b w w1
        → let w2 = (os.unmap a w1).1 in
          ((os.unmap a w1).0 ≡ true) × ((os.unmap b w2).0 ≡ true) × Same os laws w (os.unmap b w2).1
    unmapped_twice a b w w1 two =
        let w2 = (os.unmap a w1).1 in
        let mine : laws.is_mapped a w1 ≡ true = ground (arith, two.maps a) in
        let first = λ (other : ℕ). laws.unmap_lem a other w1 mine in
        let other_mine : laws.is_mapped b w2 ≡ true =
          let after = (first b).2 in ground (arith, two.maps b, two.apart) in
        let second = λ (other : ℕ). laws.unmap_lem b other w2 other_mine in
        (
          (first a).0,
          (second b).0,
          record {
            opens = λ other. (second other).1 ∙ ((first other).1 ∙ two.opens other);
            maps = λ other.
                let after = (first other).2 in
                let behind = (second other).2 in
                ground (arith, two.maps other, two.fresh_a, two.fresh_b, two.apart);
          },
        )

    closed_reads :
        (s : Store) (o : Others) (m : Memory o)
        → s.state ≡ none
        → read_snapshot o s m ≡ (Outcome.err Error.invalid, m)
    unfolding read_snapshot
    closed_reads s o m gone = rw gone refl

    closed_writes :
        (s : Store) (o : Others) (cmd : ℕ) (m : Memory o)
        → s.commands ≡ none
        → write_command o s cmd m ≡ (some Error.invalid, m)
    unfolding write_command
    closed_writes s o cmd m gone = rw gone refl

    -- A Close of a store that an Open has given succeeds, and leaves the descriptors and the maps as
    -- they were before the Open; behind it every snapshot and command is refused, and a second
    -- Close does nothing.
    pub open-close :
        (s : Store) (w : W)
        → (open_store os state_path commands_path w).0 ≡ ok s
        → let (failed, closed, w2) =
            close_store os s (open_store os state_path commands_path w).1 in
          (failed ≡ none)
          × Same os laws w w2
          × (close_store os closed w2 ≡ (none, closed, w2))
          × ((o : Others) (m : Memory o)
              → read_snapshot o closed m ≡ (Outcome.err Error.invalid, m))
          × ((o : Others) (cmd : ℕ) (m : Memory o)
              → write_command o closed cmd m ≡ (some Error.invalid, m))
    unfolding close_store unmap_region
    open-close s w opened = elim (open_store-Leaves w) [
      | inl (e, failed, _) ↦ absurd (ground arith)
      | inr (a, b, done, two) ↦
          let same : s ≡ record {
            state_path = state_path;
            commands_path = commands_path;
            state = some a;
            commands = some b;
          } =
            cc in
          let (first, second, balanced) = unmapped_twice a b w _ two in
          rw (same, first, second)
            (
              refl,
              balanced,
              refl,
              λ o m. closed_reads _ o m refl,
              λ o cmd m. closed_writes _ o cmd m refl,
            )
    ]
