-- ===== src/Server/Writer.antt =====
-- interface/internal/storage/storage.go, `readSeqlockedPayload`: a process that keeps to its protocol, and
-- writes between two accesses of the copy.
use segling.Prelude.{
  ℕ, zero, suc, ◌+◌, ◌%◌, ◌<◌, ◌≡◌, ◌∙◌, ◌⊎◌, inl, inr, refl, ap, true, false, ◌&&◌, not,
  Bool-cases, List, [], ◌∷◌, length, get_or, overwrite, length-overwrite, ◌==◌, leb, if◌then◌else◌,
  arith,
}
use segling.Server.{seqlock_byte}
use segling.Server.Shared.{Others, Memory, later, load_byte, copy_bytes}
use segling.Server.Protocol.{Protocol, IsBytes, odd_at}

get_or-overwrite_lt :
    (xs : List ℕ) (i j : ℕ) (ys : List ℕ) → j < i → get_or (overwrite xs i ys) j 0 ≡ get_or xs j 0
get_or-overwrite_lt [] i j ys h = refl
get_or-overwrite_lt (x ∷ xs) zero j ys h = absurd (omega arith)
get_or-overwrite_lt (x ∷ xs) (suc i) zero ys h = refl
get_or-overwrite_lt (x ∷ xs) (suc i) (suc j) ys h = get_or-overwrite_lt xs i j ys (omega arith)

overwrite-IsBytes :
    (xs : List ℕ) (i : ℕ) (ys : List ℕ) → IsBytes xs → IsBytes ys → IsBytes (overwrite xs i ys)
overwrite-IsBytes [] i ys h k j = omega arith
overwrite-IsBytes (x ∷ xs) (suc i) ys h k zero = h zero
overwrite-IsBytes (x ∷ xs) (suc i) ys h k (suc j) = overwrite-IsBytes xs i ys (λ l. h (suc l)) k j
overwrite-IsBytes (x ∷ xs) zero [] h k j = h j
overwrite-IsBytes (x ∷ xs) zero (y ∷ ys) h k zero = k zero
overwrite-IsBytes (x ∷ xs) zero (y ∷ ys) h k (suc j) =
    overwrite-IsBytes xs zero ys (λ l. h (suc l)) (λ l. k (suc l)) j

module _ (base k : ℕ) (payload : List ℕ) where
  -- A writer that is as fast as can be: right before the server's access k + 2 it takes the lock, if
  -- nobody has it, writes the payload of the page at `base`, and releases the lock.
  -- The state counts the accesses.
  abbrev pub writer : Others
  writer = record {
    W = ℕ;
    act = λ bytes t. (
      if t == suc k && not (odd_at base bytes)
          then overwrite bytes (base + seqlock_byte) payload
          else bytes,
      suc t,
    );
    flushes = λ w. true;
  }

  abbrev pub written : List ℕ → List ℕ
  written bytes = overwrite bytes (base + seqlock_byte) payload

  pub later-writer :
      (m : Memory writer)
      → (((later writer m).bytes ≡ written m.bytes)
          × (m.outside ≡ suc k)
          × (odd_at base m.bytes ≡ false))
        ⊎ (((later writer m).bytes ≡ m.bytes)
            × ((m.outside == suc k && not (odd_at base m.bytes)) ≡ false))
  unfolding later
  later-writer m = elim (Bool-cases (m.outside == suc k && not (odd_at base m.bytes))) [
    | inl now ↦ inl (rw now refl, ground arith, ground arith)
    | inr other ↦ inr (rw other refl, other)
  ]

  pub outside-writer : (m : Memory writer) → (later writer m).outside ≡ suc m.outside
  unfolding later
  outside-writer m = refl

  pub length-writer : (m : Memory writer) → length (later writer m).bytes ≡ length m.bytes
  length-writer m = elim (later-writer m) [
    | inl (e, _, _) ↦ rw e (length-overwrite m.bytes (base + seqlock_byte) payload)
    | inr (e, _) ↦ ap length e
  ]

  IsBytes-writer :
      IsBytes payload → (m : Memory writer) → IsBytes m.bytes → IsBytes (later writer m).bytes
  IsBytes-writer small m h = elim (later-writer m) [
    | inl (e, _, _) ↦ rw e (overwrite-IsBytes m.bytes (base + seqlock_byte) payload h small)
    | inr (e, _) ↦ rw e h
  ]

  pub byte-writer :
      (m : Memory writer) → get_or (later writer m).bytes base 0 ≡ get_or m.bytes base 0
  byte-writer m =
      let kept = get_or-overwrite_lt m.bytes (base + seqlock_byte) base payload (omega arith) in
      elim (later-writer m) [ inl (e, _, _) ↦ rw e kept | inr (e, _) ↦ rw e refl ]

  pub odd-writer : (m : Memory writer) → odd_at base (later writer m).bytes ≡ odd_at base m.bytes
  odd-writer m = ap (λ b. b % 2 == 1) (byte-writer m)

  abbrev pub taken_by : ℕ → ℕ
  taken_by t = if leb t (suc k) then 0 else 1

  -- The writer keeps to the protocol.
  pub writer-Protocol : IsBytes payload → Protocol writer base
  writer-Protocol small = record {
    holds = λ t. false;
    taken = taken_by;
    keeps_length = length-writer;
    keeps_bytes = IsBytes-writer small;
    taken_grows = λ m. rw (outside-writer m) (ground arith);
    agree = λ m h. rw (odd-writer m) h;
    wait = λ m odd free. elim (later-writer m) [
      | inl (_, _, even) ↦ absurd (ground arith)
      | inr (e, _) ↦ (e, refl)
    ];
    rest = λ m even free kept. elim (later-writer m) [
      | inl (_, now, _) ↦ absurd (let next = outside-writer m in ground arith)
      | inr (e, _) ↦ (e, refl)
    ];
  }

  pub byte-copy :
      (n i : ℕ) (m : Memory writer)
      → get_or (copy_bytes writer n i m).1.bytes base 0 ≡ get_or m.bytes base 0
  unfolding copy_bytes load_byte
  byte-copy zero i m = refl
  byte-copy (suc n) i m = byte-copy n (suc i) (later writer m) ∙ byte-writer m
