-- ===== src/Server/Reading.antt =====
-- interface/internal/storage/storage.go, `readSeqlockedPayload`: reads that no other process disturbs.
use segling.Prelude.{
  ℕ, zero, suc, ◌+◌, ◌%◌, ◌≤◌, ◌<◌, ◌≡◌, inl, inr, refl, ap, Bool, true, false, ◌&&◌, Bool-cases,
  List, [], ◌∷◌, length, get_or, take, drop, ◌==◌, arith,
}
use segling.Server.{ok, seqlock_byte, seqlock_payload_bytes}
use segling.Server.Shared.{Others, Memory, later, load_byte, copy_bytes, read_spins}
use segling.Server.Protocol.{Protocol, Agree, Unlocked, odd_at}

pub take-drop-suc :
    (n i : ℕ) (xs : List ℕ)
    → i < length xs
    → get_or xs i 0 ∷ take n (drop (suc i) xs) ≡ take (suc n) (drop i xs)
take-drop-suc n i [] h = absurd (omega arith)
take-drop-suc n zero (x ∷ xs) h = refl
take-drop-suc n (suc i) (x ∷ xs) h = take-drop-suc n i xs (omega arith)

-- The payload of the page at `base`.
abbrev pub payload_at : ℕ → List ℕ → List ℕ
payload_at base bytes = take seqlock_payload_bytes (drop (base + seqlock_byte) bytes)

module _ {o : Others} {base : ℕ} (p : Protocol o base) where
  copy_grows : (n i : ℕ) (m : Memory o) → p.taken m.outside ≤ p.taken (copy_bytes o n i m).1.outside
  unfolding copy_bytes load_byte
  copy_grows zero i m = omega arith
  copy_grows (suc n) i m = omega (arith, p.taken_grows m, copy_grows n (suc i) (later o m))

  copy-Agree : (n i : ℕ) (m : Memory o) → Agree p m → Agree p (copy_bytes o n i m).1
  unfolding copy_bytes load_byte
  copy-Agree zero i m h = h
  copy-Agree (suc n) i m h = copy-Agree n (suc i) (later o m) (p.agree m h)

  length-copy : (n i : ℕ) (m : Memory o) → length (copy_bytes o n i m).1.bytes ≡ length m.bytes
  unfolding copy_bytes load_byte
  length-copy zero i m = refl
  length-copy (suc n) i m = omega (arith, length-copy n (suc i) (later o m), p.keeps_length m)

  -- A copy during which nobody takes the lock is of the bytes at its start.
  copy-Unlocked :
      (n i : ℕ) (m : Memory o)
      → Unlocked p m
      → i + n ≤ length m.bytes
      → p.taken (copy_bytes o n i m).1.outside ≡ p.taken m.outside
      → let (bs, m1) = copy_bytes o n i m in
        (bs ≡ take n (drop i m.bytes)) × (m1.bytes ≡ m.bytes) × Unlocked p m1
  unfolding copy_bytes load_byte
  copy-Unlocked zero i m free within same = (refl, refl, free)
  copy-Unlocked (suc n) i m free within same =
      let m1 = later o m in
      let still : p.taken m1.outside ≡ p.taken m.outside =
        omega (arith, p.taken_grows m, copy_grows n (suc i) m1) in
      let (bytes, idle) = p.rest m free.0 free.1 still in
      let even : odd_at base m1.bytes ≡ false = rw bytes free.0 in
      let (rest, bytes2, free2) =
        copy-Unlocked n (suc i) m1 (even, idle) (omega (arith, p.keeps_length m)) (omega arith) in
      (rw (rest, bytes) (take-drop-suc n i m.bytes (omega arith)), rw (bytes2, bytes) refl, free2)

  -- The memory after the second read of the byte, in a round that copies.
  abbrev pub after_copy : Memory o → Memory o
  after_copy m = later o (copy_bytes o seqlock_payload_bytes (base + seqlock_byte) m).1

  -- The two tests of a round.
  abbrev pub sees_even : Memory o → Bool
  sees_even m = get_or (later o m).bytes base 0 % 2 == 0

  abbrev pub sees_same : Memory o → Bool
  sees_same m =
      let s1 = get_or (later o m).bytes base 0 in
      let s2 = get_or (after_copy (later o m)).bytes base 0 in s1 == s2 && s2 % 2 == 0

  pub round_refused :
      (n : ℕ) (m : Memory o)
      → sees_even m ≡ false
      → read_spins o (suc n) base m ≡ read_spins o n base (later o m)
  unfolding read_spins load_byte
  round_refused n m odd = ground arith

  round_torn :
      (n : ℕ) (m : Memory o)
      → sees_even m ≡ true
      → sees_same m ≡ false
      → read_spins o (suc n) base m ≡ read_spins o n base (after_copy (later o m))
  unfolding read_spins load_byte
  round_torn n m even torn = ground arith

  pub round_read :
      (n : ℕ) (m : Memory o)
      → sees_even m ≡ true
      → sees_same m ≡ true
      → let (buf, m2) = copy_bytes o seqlock_payload_bytes (base + seqlock_byte) (later o m) in
        read_spins o (suc n) base m ≡ (ok buf, later o m2)
  unfolding read_spins load_byte
  round_read n m even same = ground arith

  after_copy-grows : (m : Memory o) → p.taken m.outside ≤ p.taken (after_copy m).outside
  after_copy-grows m = omega (
    arith,
    p.taken_grows (copy_bytes o seqlock_payload_bytes (base + seqlock_byte) m).1,
    copy_grows seqlock_payload_bytes (base + seqlock_byte) m,
  )

  -- Behind the first access of a round, where the rounds behind it go on.
  pub round_grows :
      (n : ℕ) (m : Memory o)
      → ((later_m : Memory o)
          → p.taken later_m.outside ≤ p.taken (read_spins o n base later_m).1.outside)
      → p.taken (later o m).outside ≤ p.taken (read_spins o (suc n) base m).1.outside
  round_grows n m ih =
      let m1 = later o m in
      let m3 = after_copy m1 in
      elim (Bool-cases (sees_even m)) [
        | inl even ↦ elim (Bool-cases (sees_same m)) [
          | inl same ↦ rw (round_read n m even same) (after_copy-grows m1)
          | inr torn ↦ rw (round_torn n m even torn) (omega (arith, after_copy-grows m1, ih m3))
        ]
        | inr odd ↦ rw (round_refused n m odd) (ih m1)
      ]

  pub read_grows :
      (n : ℕ) (m : Memory o) → p.taken m.outside ≤ p.taken (read_spins o n base m).1.outside
  read_grows zero m = unfold read_spins in omega arith
  read_grows (suc n) m = omega (arith, p.taken_grows m, round_grows n m (read_grows n))

  -- A round that begins where nobody has the lock, and in which nobody takes it, succeeds.
  pub copies :
      (n : ℕ) (m : Memory o)
      → Unlocked p (later o m)
      → base + 128 ≤ length m.bytes
      → p.taken (read_spins o (suc n) base m).1.outside ≡ p.taken (later o m).outside
      → let (result, m') = read_spins o (suc n) base m in
        (result ≡ ok (payload_at base (later o m).bytes))
        × (m'.bytes ≡ (later o m).bytes)
        × Unlocked p m'
  copies n m free within still =
      let m1 = later o m in
      let from = base + seqlock_byte in
      let m2 = (copy_bytes o seqlock_payload_bytes from m1).1 in
      let m3 = after_copy m1 in
      let even : sees_even m ≡ true = ground (arith, free.0) in
      let kept : p.taken m3.outside ≡ p.taken m1.outside = elim (Bool-cases (sees_same m)) [
        | inl same ↦
            let e = ap (λ out. p.taken out.1.outside) (round_read n m even same) in omega arith
        | inr torn ↦
            let e = ap (λ out. p.taken out.1.outside) (round_torn n m even torn) in
            omega (arith, read_grows n m3, after_copy-grows m1)
      ] in
      let grown = copy_grows seqlock_payload_bytes from m1 in
      let (buf, bytes, free2) =
        copy-Unlocked seqlock_payload_bytes from m1 free (omega (arith, p.keeps_length m))
          (omega (arith, p.taken_grows m2)) in
      let (bytes3, idle) = p.rest m2 free2.0 free2.1 (omega (arith, p.taken_grows m2)) in
      let as_before : m3.bytes ≡ m1.bytes = rw bytes3 bytes in
      let byte = ap (λ bs. get_or bs base 0) as_before in
      let same : sees_same m ≡ true = ground arith in
      rw (round_read n m even same) (ap ok buf, as_before, (ground arith, idle))
