-- ===== src/Server/Locking.antt =====
-- interface/internal/storage/storage.go, `seqLockCommandsBegin` and `seqLockCommandsEnd`: the lock on the
-- page of commands.
use Prim.Native.Nat.{bit_xor}
use segling.Prelude.{
  ℕ, zero, suc, ◌+◌, ◌*◌, ◌/◌, ◌%◌, ◌≤◌, ◌<◌, ◌≡◌, ◌⊎◌, inl, inr, refl, sym, ap, ◌∙◌, Bool, true,
  false, Bool-cases, List, [], ◌∷◌, length, get_or, set, get_or-set_self, length-set, ◌==◌, arith,
}
use segling.Storage.Commit.{bit_xor-byte}
use segling.Server.Shared.{
  Others, Memory, later, word, set_word, toggled, load_word, compare_and_swap, toggle_spins,
}
use segling.Server.Protocol.{Protocol, Agree, Locked, Unlocked, IsBytes, odd_at}

pub set-IsBytes : (xs : List ℕ) (i v : ℕ) → v < 256 → IsBytes xs → IsBytes (set xs i v)
set-IsBytes [] i v small h j = omega arith
set-IsBytes (x ∷ xs) zero v small h zero = small
set-IsBytes (x ∷ xs) zero v small h (suc j) = h (suc j)
set-IsBytes (x ∷ xs) (suc i) v small h zero = h zero
set-IsBytes (x ∷ xs) (suc i) v small h (suc j) = set-IsBytes xs i v small (λ l. h (suc l)) j

word-mod : (bytes : List ℕ) → IsBytes bytes → word bytes % 256 ≡ get_or bytes 0 0
unfolding word
word-mod bytes small = omega (arith, small 0)

-- Writing the word with its lowest byte toggled writes this byte only.
set_word-toggled :
    (bytes : List ℕ)
    → IsBytes bytes
    → 4 ≤ length bytes
    → set_word bytes (toggled (word bytes)) ≡ set bytes 0 (bit_xor (get_or bytes 0 0) 1)
unfolding set_word toggled
set_word-toggled [] small h = absurd (omega arith)
set_word-toggled (a ∷ []) small h = absurd (omega arith)
set_word-toggled (a ∷ b ∷ []) small h = absurd (omega arith)
set_word-toggled (a ∷ b ∷ c ∷ []) small h = absurd (omega arith)
set_word-toggled (a ∷ b ∷ c ∷ d ∷ rest) small h =
    let bytes = a ∷ b ∷ c ∷ d ∷ rest in
    let x = bit_xor a 1 in
    let low = word-mod bytes small in
    let w = word bytes in
    let below = (bit_xor-byte a (small 0)).2 in
    let e0 : (w / 256 * 256 + x) % 256 ≡ x = omega arith in
    let e1 : (w / 256 * 256 + x) / 256 % 256 ≡ b =
      unfold word in omega (arith, small 0, small 1, small 2, small 3) in
    let e2 : (w / 256 * 256 + x) / 65536 % 256 ≡ c =
      unfold word in omega (arith, small 0, small 1, small 2, small 3) in
    let e3 : (w / 256 * 256 + x) / 16777216 % 256 ≡ d =
      unfold word in omega (arith, small 0, small 1, small 2, small 3) in
    rw (low, e0, e1, e2, e3) refl

module _ (o : Others) (parity : ℕ) where
  -- The two tests of a round, and the memory behind it where it swaps.
  abbrev has_parity : Memory o → Bool
  has_parity m = word (later o m).bytes % 256 % 2 == parity

  abbrev unchanged : Memory o → Bool
  unchanged m = word (later o (later o m)).bytes == word (later o m).bytes

  abbrev swapped : Memory o → Memory o
  swapped m =
      let now = later o (later o m) in
      record now { bytes = set_word now.bytes (toggled (word (later o m).bytes)) }

  round_skipped :
      (n : ℕ) (m : Memory o)
      → has_parity m ≡ false
      → toggle_spins o parity (suc n) m ≡ toggle_spins o parity n (later o m)
  unfolding toggle_spins load_word
  round_skipped n m other = ground arith

  round_lost :
      (n : ℕ) (m : Memory o)
      → has_parity m ≡ true
      → unchanged m ≡ false
      → toggle_spins o parity (suc n) m ≡ toggle_spins o parity n (later o (later o m))
  unfolding toggle_spins load_word compare_and_swap
  round_lost n m same moved = ground arith

  round_won :
      (n : ℕ) (m : Memory o)
      → has_parity m ≡ true
      → unchanged m ≡ true
      → toggle_spins o parity (suc n) m ≡ (true, swapped m)
  unfolding toggle_spins load_word compare_and_swap
  round_won n m same still = ground arith

module _ {o : Others} (p : Protocol o 0) where
  -- A page of commands as the protocol keeps it.
  abbrev pub IsPage : Memory o → Type 0
  IsPage m = IsBytes m.bytes × (4 ≤ length m.bytes)

  IsPage-later : (m : Memory o) → IsPage m → IsPage (later o m)
  IsPage-later m (small, long) = (p.keeps_bytes m small, omega (arith, p.keeps_length m))

  swapped_bytes :
      (parity : ℕ) (m : Memory o)
      → IsPage m
      → unchanged o parity m ≡ true
      → let now = later o (later o m) in
        (swapped o parity m).bytes ≡ set now.bytes 0 (bit_xor (get_or now.bytes 0 0) 1)
  swapped_bytes parity m page still =
      let now = later o (later o m) in
      let (small, long) = IsPage-later (later o m) (IsPage-later m page) in
      let e : word now.bytes ≡ word (later o m).bytes = ground arith in
      rw (sym e) (set_word-toggled now.bytes small long)

  swapped-IsPage :
      (parity : ℕ) (m : Memory o)
      → IsPage m
      → unchanged o parity m ≡ true
      → IsPage (swapped o parity m)
  swapped-IsPage parity m page still =
      let now = later o (later o m) in
      let (small, long) = IsPage-later (later o m) (IsPage-later m page) in
      let b = bit_xor (get_or now.bytes 0 0) 1 in
      let below = (bit_xor-byte (get_or now.bytes 0 0) (small 0)).2 in
      rw (swapped_bytes parity m page still)
        (set-IsBytes now.bytes 0 b below small, omega (arith, length-set now.bytes 0 b))

  -- The server gets the lock, and no other process has it; or it gets none after all its rounds.
  unfoldable pub Begins : Bool × Memory o → Type 0
  Begins (done, m) = IsPage m × (((done ≡ true) × Locked p m) ⊎ ((done ≡ false) × Agree p m))

  pub toggle_spins-Begins :
      (n : ℕ) (m : Memory o) → IsPage m → Agree p m → Begins (toggle_spins o 0 n m)
  toggle_spins-Begins zero m page agreed = unfold Begins toggle_spins in (page, inr (refl, agreed))
  toggle_spins-Begins (suc n) m page agreed =
      let m1 = later o m in
      let m2 = later o m1 in
      let page1 = IsPage-later m page in
      let page2 = IsPage-later m1 page1 in
      let agreed1 = p.agree m agreed in
      let agreed2 = p.agree m1 agreed1 in
      elim (Bool-cases (has_parity o 0 m)) [
        | inr odd ↦ rw (round_skipped o 0 n m odd) (toggle_spins-Begins n m1 page1 agreed1)
        | inl even ↦ elim (Bool-cases (unchanged o 0 m)) [
          | inr moved ↦ rw (round_lost o 0 n m even moved) (toggle_spins-Begins n m2 page2 agreed2)
          | inl still ↦ rw (round_won o 0 n m even still) (
              let (small2, long2) = page2 in
              let byte = get_or m2.bytes 0 0 in
              let low = word-mod m2.bytes small2 in
              let free : odd_at 0 m2.bytes ≡ false = ground arith in
              let toggled_byte = get_or-set_self m2.bytes 0 (bit_xor byte 1) 0 (omega arith) in
              let parity = (bit_xor-byte byte (small2 0)).1 in
              let odd : odd_at 0 (swapped o 0 m).bytes ≡ true =
                rw (swapped_bytes 0 m page still, toggled_byte) (ground arith) in
              unfold Begins in
              (swapped-IsPage 0 m page still, inl (refl, (odd, ground (arith, agreed2)))))
        ]
      ]

  -- A round in which the others change nothing, where the byte has the parity.
  toggle_once :
      (parity n : ℕ) (m : Memory o)
      → IsPage m
      → (later o m).bytes ≡ m.bytes
      → (later o (later o m)).bytes ≡ (later o m).bytes
      → (get_or m.bytes 0 0 % 2 == parity) ≡ true
      → let (done, m') = toggle_spins o parity (suc n) m in
        (done ≡ true)
        × (m'.bytes ≡ set m.bytes 0 (bit_xor (get_or m.bytes 0 0) 1))
        × ((get_or m'.bytes 0 0 + get_or m.bytes 0 0) % 2 ≡ 1)
        × (m'.outside ≡ (later o (later o m)).outside)
  toggle_once parity n m page same1 same2 fits =
      let low = word-mod m.bytes page.0 in
      let has : has_parity o parity m ≡ true = rw (same1, low) fits in
      let still : unchanged o parity m ≡ true = rw (same2, same1) (ground arith) in
      let byte = get_or m.bytes 0 0 in
      let toggled_byte = get_or-set_self m.bytes 0 (bit_xor byte 1) 0 (omega arith) in
      let bytes =
        swapped_bytes parity m page still
        ∙ ap (λ bs. set bs 0 (bit_xor (get_or bs 0 0) 1)) (same2 ∙ same1) in
      rw (round_won o parity n m has still)
        (refl, bytes, rw (bytes, toggled_byte) (bit_xor-byte byte (page.0 0)).1, refl)

  -- Once the server has the lock, its first round gives it back, and nothing else changes.
  pub toggle_spins-Locked :
      (n : ℕ) (m : Memory o)
      → IsPage m
      → Locked p m
      → let (done, m') = toggle_spins o 1 (suc n) m in
        (done ≡ true) × (m'.bytes ≡ set m.bytes 0 (bit_xor (get_or m.bytes 0 0) 1)) × Unlocked p m'
  toggle_spins-Locked n m page (odd, free) =
      let (same1, free1) = p.wait m odd free in
      let (same2, free2) = p.wait (later o m) (rw same1 odd) free1 in
      let (done, bytes, parity, rest) = toggle_once 1 n m page same1 same2 odd in
      (done, bytes, (ground arith, rw rest free2))

  -- Where nobody has the lock, and nobody takes it first, the first round gets it.
  pub toggle_spins-Unlocked :
      (n : ℕ) (m : Memory o)
      → IsPage m
      → Unlocked p m
      → p.taken (later o (later o m)).outside ≡ p.taken m.outside
      → let (done, m') = toggle_spins o 0 (suc n) m in
        (done ≡ true) × (m'.bytes ≡ set m.bytes 0 (bit_xor (get_or m.bytes 0 0) 1)) × Locked p m'
  toggle_spins-Unlocked n m page (even, free) still =
      let m1 = later o m in
      let grown = p.taken_grows m in
      let grown1 = p.taken_grows m1 in
      let (same1, free1) = p.rest m even free (omega arith) in
      let (same2, free2) = p.rest m1 (rw same1 even) free1 (omega arith) in
      let (done, bytes, parity, rest) = toggle_once 0 n m page same1 same2 (ground arith) in
      (done, bytes, (ground arith, rw rest free2))
