-- ===== src/Server/Protocol.antt =====
-- The seqlock protocol of interface/internal/storage/storage.go, as the server asks it of the other
-- processes: the byte at the start of a page is odd while somebody has the lock.
use segling.Prelude.{ℕ, ◌%◌, ◌≤◌, ◌<◌, ◌≡◌, Bool, true, false, List, length, get_or, ◌==◌}
use segling.Server.Shared.{Others, Memory, later}

abbrev pub IsBytes : List ℕ → Type 0
IsBytes bytes = (i : ℕ) → get_or bytes i 0 < 256

abbrev pub odd_at : ℕ → List ℕ → Bool
odd_at base bytes = get_or bytes base 0 % 2 == 1

-- What the others keep to: the file keeps its length, and holds bytes. They toggle the byte as they
-- take and release the lock, and count how often they have taken it. While the server has the lock they
-- change nothing, and where nobody has it, nothing either unless they take it.
pub record Protocol (o : Others) (base : ℕ) : Type 0 where
  pub holds : o.W → Bool
  pub taken : o.W → ℕ
  pub keeps_length : (m : Memory o) → length (later o m).bytes ≡ length m.bytes
  pub keeps_bytes : (m : Memory o) → IsBytes m.bytes → IsBytes (later o m).bytes
  pub taken_grows : (m : Memory o) → taken m.outside ≤ taken (later o m).outside
  pub agree :
      (m : Memory o)
      → odd_at base m.bytes ≡ holds m.outside
      → odd_at base (later o m).bytes ≡ holds (later o m).outside
  pub wait :
      (m : Memory o)
      → odd_at base m.bytes ≡ true
      → holds m.outside ≡ false
      → ((later o m).bytes ≡ m.bytes) × (holds (later o m).outside ≡ false)
  pub rest :
      (m : Memory o)
      → odd_at base m.bytes ≡ false
      → holds m.outside ≡ false
      → taken (later o m).outside ≡ taken m.outside
      → ((later o m).bytes ≡ m.bytes) × (holds (later o m).outside ≡ false)

-- The byte tells whether one of the others has the lock.
abbrev pub Agree : {o : Others} {base : ℕ} → Protocol o base → Memory o → Type 0
Agree {base} p m = odd_at base m.bytes ≡ p.holds m.outside

-- Nobody has the lock.
abbrev pub Unlocked : {o : Others} {base : ℕ} → Protocol o base → Memory o → Type 0
Unlocked {base} p m = (odd_at base m.bytes ≡ false) × (p.holds m.outside ≡ false)

-- The server has it.
abbrev pub Locked : {o : Others} {base : ℕ} → Protocol o base → Memory o → Type 0
Locked {base} p m = (odd_at base m.bytes ≡ true) × (p.holds m.outside ≡ false)
