-- ===== src/Server/Pace.antt =====
-- Other processes that make any number of accesses between two of the server's.
use segling.Prelude.{ℕ, zero, suc, ◌≤◌, ◌≡◌, refl, ◌∙◌, true, false, length, arith}
use segling.Server.Shared.{Others, Memory, later}
use segling.Server.Protocol.{Protocol, Agree, Unlocked, IsBytes, odd_at}

pub record Paced (o : Others) : Type 0 where
  pub inner : o.W
  pub clock : ℕ

module _ (o : Others) where
  unfoldable pub rounds : ℕ → Memory o → Memory o
  rounds zero m = m
  rounds (suc n) m = rounds n (later o m)

  -- Before the server's access number t they act `pace t` times.
  abbrev pub paced : (ℕ → ℕ) → Others
  paced pace = record {
    W = Paced o;
    act = λ bytes w.
        let m = rounds (pace w.clock) record { bytes = bytes; outside = w.inner } in
        (m.bytes, record { inner = m.outside; clock = suc w.clock });
    flushes = λ w. o.flushes w.inner;
  }

module _ {o : Others} {base : ℕ} (p : Protocol o base) where
  rounds-length : (n : ℕ) (m : Memory o) → length (rounds o n m).bytes ≡ length m.bytes
  unfolding rounds
  rounds-length zero m = refl
  rounds-length (suc n) m = rounds-length n (later o m) ∙ p.keeps_length m

  rounds-IsBytes : (n : ℕ) (m : Memory o) → IsBytes m.bytes → IsBytes (rounds o n m).bytes
  unfolding rounds
  rounds-IsBytes zero m h = h
  rounds-IsBytes (suc n) m h = rounds-IsBytes n (later o m) (p.keeps_bytes m h)

  rounds-grows : (n : ℕ) (m : Memory o) → p.taken m.outside ≤ p.taken (rounds o n m).outside
  unfolding rounds
  rounds-grows zero m = omega arith
  rounds-grows (suc n) m = omega (arith, p.taken_grows m, rounds-grows n (later o m))

  rounds-agree :
      (n : ℕ) (m : Memory o)
      → odd_at base m.bytes ≡ p.holds m.outside
      → odd_at base (rounds o n m).bytes ≡ p.holds (rounds o n m).outside
  unfolding rounds
  rounds-agree zero m h = h
  rounds-agree (suc n) m h = rounds-agree n (later o m) (p.agree m h)

  rounds-wait :
      (n : ℕ) (m : Memory o)
      → odd_at base m.bytes ≡ true
      → p.holds m.outside ≡ false
      → ((rounds o n m).bytes ≡ m.bytes) × (p.holds (rounds o n m).outside ≡ false)
  unfolding rounds
  rounds-wait zero m odd free = (refl, free)
  rounds-wait (suc n) m odd free =
      let (same, free1) = p.wait m odd free in
      let (same2, free2) = rounds-wait n (later o m) (rw same odd) free1 in (same2 ∙ same, free2)

  rounds-rest :
      (n : ℕ) (m : Memory o)
      → odd_at base m.bytes ≡ false
      → p.holds m.outside ≡ false
      → p.taken (rounds o n m).outside ≡ p.taken m.outside
      → ((rounds o n m).bytes ≡ m.bytes) × (p.holds (rounds o n m).outside ≡ false)
  unfolding rounds
  rounds-rest zero m even free still = (refl, free)
  rounds-rest (suc n) m even free still =
      let grown = p.taken_grows m in
      let grown1 = rounds-grows n (later o m) in
      let (same, free1) = p.rest m even free (omega arith) in
      let (same2, free2) = rounds-rest n (later o m) (rw same even) free1 (omega arith) in
      (same2 ∙ same, free2)

  abbrev pub inside : (pace : ℕ → ℕ) → Memory (paced o pace) → Memory o
  inside pace m = record { bytes = m.bytes; outside = m.outside.inner }

  -- They keep to the protocol at any pace.
  pub paced-Protocol : (pace : ℕ → ℕ) → Protocol (paced o pace) base
  unfolding later
  paced-Protocol pace = record {
    holds = λ w. p.holds w.inner;
    taken = λ w. p.taken w.inner;
    keeps_length = λ m. rounds-length (pace m.outside.clock) (inside pace m);
    keeps_bytes = λ m h. rounds-IsBytes (pace m.outside.clock) (inside pace m) h;
    taken_grows = λ m. rounds-grows (pace m.outside.clock) (inside pace m);
    agree = λ m h. rounds-agree (pace m.outside.clock) (inside pace m) h;
    wait = λ m odd free. rounds-wait (pace m.outside.clock) (inside pace m) odd free;
    rest = λ m even free still. rounds-rest (pace m.outside.clock) (inside pace m) even free still;
  }

  -- What it says of them.
  pub paced-Agree :
      (pace : ℕ → ℕ) (m : Memory (paced o pace))
      → Agree p (inside pace m)
      → Agree (paced-Protocol pace) m
  unfolding paced-Protocol
  paced-Agree pace m h = h

  pub Agree-paced :
      (pace : ℕ → ℕ) (m : Memory (paced o pace))
      → Agree (paced-Protocol pace) m
      → Agree p (inside pace m)
  unfolding paced-Protocol
  Agree-paced pace m h = h

  pub Unlocked-paced :
      (pace : ℕ → ℕ) (m : Memory (paced o pace))
      → Unlocked (paced-Protocol pace) m
      → Unlocked p (inside pace m)
  unfolding paced-Protocol
  Unlocked-paced pace m h = h
