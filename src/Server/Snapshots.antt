-- ===== src/Server/Snapshots.antt =====
-- interface/internal/storage/storage.go, `ReadSnapshot`: what the server reads of the controller's state.
use segling.Prelude.{
  ℕ, zero, suc, ◌+◌, ◌^◌, ◌≤◌, ◌<◌, ◌≡◌, ◌⊎◌, inl, inr, refl, ap, true, false, Bool-cases, List,
  ◌++◌, length, ltb, arith,
}
use segling.Float.{F64}
use segling.Ahrs.{Public}
use segling.Server.{Error, Outcome, ok, err, ◌>>=◌, total_size, max_seqlock_spins}
use segling.Server.Decode.{decode_ahrs_public_v1}
use segling.Server.Layout.{layout, snapshot_of, decode-layout}
use segling.Server.Shared.{
  Others, Memory, Store, mapped_length, later, read_spins, read_seqlocked_payload, read_snapshot,
}
use segling.Server.Protocol.{Protocol, Agree, Unlocked, odd_at}
use segling.Server.Reading.{payload_at, sees_even, round_refused, round_grows, read_grows, copies}

module _ {o : Others} {base : ℕ} (p : Protocol o base) where
  -- A read that gives the payload as it is when the read ends, where nobody has the lock; or one that
  -- gives up, where another process has it.
  unfoldable pub Settles : Outcome (List ℕ) × Memory o → Type 0
  Settles (result, m) =
      ((result ≡ ok (payload_at base m.bytes)) × Unlocked p m)
      ⊎ ((result ≡ err Error.read_exhausted) × (p.holds m.outside ≡ true))

  pub read_spins-Settles :
      (n : ℕ) (m : Memory o)
      → (odd_at base m.bytes ≡ true) ⊎ (0 < n)
      → Agree p m
      → base + 128 ≤ length m.bytes
      → p.taken (read_spins o n base m).1.outside ≡ p.taken m.outside
      → Settles (read_spins o n base m)
  read_spins-Settles zero m (inr h) agreed within still = absurd (omega arith)
  read_spins-Settles zero m (inl odd) agreed within still =
      unfold Settles read_spins in inr (refl, ground (arith, agreed))
  read_spins-Settles (suc n) m begun agreed within still =
      let m1 = later o m in
      let agreed1 = p.agree m agreed in
      let none_taken : p.taken m1.outside ≡ p.taken m.outside =
        omega (arith, p.taken_grows m, round_grows p n m (read_grows p n)) in
      elim (Bool-cases (sees_even p m)) [
        | inl even ↦
            let free : Unlocked p m1 = (ground arith, ground (arith, agreed1)) in
            let (buf, bytes, free2) = copies p n m free within (omega arith) in
            unfold Settles in inl (rw bytes buf, free2)
        | inr odd ↦
            let e = round_refused p n m odd in
            let last = ap (λ out. p.taken out.1.outside) e in
            rw e (
              read_spins-Settles n m1 (inl (ground arith)) agreed1 (omega (arith, p.keeps_length m))
                (omega arith))
      ]

mapped_length_le :
    {o : Others} (s : Store) (m : Memory o) → mapped_length s.state m.bytes ≤ length m.bytes
mapped_length_le s m = ground arith

module _ {o : Others} (s : Store) (m : Memory o)
    (mapped : total_size ≤ mapped_length s.state m.bytes) where
  pub read_snapshot_mapped :
      let (payload, m1) = read_spins o max_seqlock_spins 128 m in
      read_snapshot o s m ≡ (payload >>= decode_ahrs_public_v1, m1)
  unfolding read_snapshot read_seqlocked_payload
  read_snapshot_mapped =
      let long : ltb (mapped_length s.state m.bytes) total_size ≡ false = ground arith in
      rw long refl

  module _ (p : Protocol o 128)
      (still : p.taken (read_snapshot o s m).1.outside ≡ p.taken m.outside) where
    spins_still : p.taken (read_spins o max_seqlock_spins 128 m).1.outside ≡ p.taken m.outside
    spins_still = rw (ap (λ out. p.taken out.1.outside) read_snapshot_mapped) at still

    -- From a map of full size, with processes that keep to the protocol: a snapshot that is read
    -- while nobody takes the lock is the decoded payload of the AHRS page, as it is when the read
    -- ends, and then nobody has the lock; or the read gives up after its last round, and one of
    -- the other processes still has the lock.
    pub read_snapshot_settles :
        Agree p m
        → let (result, m') = read_snapshot o s m in
          ((result ≡ decode_ahrs_public_v1 (payload_at 128 m'.bytes)) × Unlocked p m')
          ⊎ ((result ≡ err Error.read_exhausted) × (p.holds m'.outside ≡ true))
    unfolding Settles
    read_snapshot_settles agreed =
        let settled =
          read_spins-Settles p max_seqlock_spins m (inr (omega arith)) agreed
            (omega (arith, mapped_length_le s m)) spins_still in
        rw read_snapshot_mapped (elim settled [
          | inl (e, free) ↦ inl (rw e refl, free)
          | inr (e, held) ↦ inr (rw e refl, held)
        ])

    -- From a map of full size, with processes that keep to the protocol: where nobody has the lock
    -- of the AHRS page as the read begins, and nobody takes it, and the payload begins with the
    -- bytes of an ahrs_public_t of 64-bit doubles, the snapshot is that of its fields, the bytes
    -- stay as they are and nobody has the lock.
    pub read_snapshot-layout :
        (d : F64) (bits : d.D → ℕ) (wide : (x : d.D) → bits x < 2 ^ 64) (published : Public d)
        (rest : List ℕ)
        → Unlocked p m
        → payload_at 128 m.bytes ≡ layout d bits published ++ rest
        → let (result, m') = read_snapshot o s m in
          (result ≡ ok (snapshot_of d bits published)) × (m'.bytes ≡ m.bytes) × Unlocked p m'
    read_snapshot-layout d bits wide published rest free laid_out =
        let grown = round_grows p 4194303 m (read_grows p 4194303) in
        let kept : p.taken (later o m).outside ≡ p.taken m.outside =
          omega (arith, spins_still, p.taken_grows m) in
        let (bytes, idle) = p.rest m free.0 free.1 kept in
        let even : odd_at 128 (later o m).bytes ≡ false = rw bytes free.0 in
        let (payload, bytes2, free2) =
          copies p 4194303 m (even, idle) (omega (arith, mapped_length_le s m))
            (omega (arith, spins_still)) in
        rw read_snapshot_mapped (
          rw (payload, bytes, laid_out) (decode-layout d bits wide published rest),
          rw (bytes2, bytes) refl,
          free2,
        )
