-- ===== src/Server/Rival.antt =====
-- interface/internal/storage/storage.go, `writeCommand`, access by access: a second server that shares
-- commands.bin, which queues one command after the other.
use Prim.Native.Nat.{bit_xor}
use segling.Prelude.{
  ℕ, suc, ◌+◌, ◌*◌, ◌/◌, ◌%◌, ◌≤◌, ◌<◌, ◌≡◌, ◌⊎◌, inl, inr, refl, ap, ◌∙◌, Bool, true, false,
  Bool-cases, List, [], ◌∷◌, length, get_or, set, get_or-set_ne, length-set, ltb, ◌==◌,
  if◌then◌else◌, arith,
}
use segling.Storage.Commit.{bit_xor-byte}
use segling.Server.{commands_map_size}
use segling.Server.Shared.{Others, Memory, later, word, set_word, toggled}
use segling.Server.Protocol.{IsBytes, odd_at}
use segling.Server.Locking.{set-IsBytes}

-- Where it stands: before it reads the word; before it swaps the even word 2h that it has read;
-- before it writes one of the bytes 1, 2 and 3; before it reads the word again; and before it swaps the
-- odd word 2h + 1 that it has read.
pub data Place : Type 0 where
  ready storing_1 storing_2 storing_3 leaving : Place
  swapping releasing : (h : ℕ) → Place

-- Its place, and how many locks it has taken.
pub record Rival : Type 0 where
  pub place : Place
  pub locks : ℕ

abbrev pub in_critical : Place → Bool
in_critical Place.ready = false
in_critical (Place.swapping h) = false
in_critical Place.storing_1 = true
in_critical Place.storing_2 = true
in_critical Place.storing_3 = true
in_critical Place.leaving = true
in_critical (Place.releasing h) = true

module _ (cmd : ℕ) where
  -- One access, to a page that is long enough.
  unfoldable pub access : List ℕ → Place → ℕ → List ℕ × Rival
  access bytes Place.ready locks =
      let w = word bytes in
      (
        bytes,
        record {
          place = if w % 256 % 2 == 0 then Place.swapping (w / 2) else Place.ready;
          locks = locks;
        },
      )
  access bytes (Place.swapping h) locks =
      if word bytes == h * 2
      then (set_word bytes (toggled (h * 2)), record { place = Place.storing_1; locks = suc locks })
      else (bytes, record { place = Place.ready; locks = locks })
  access bytes Place.storing_1 locks =
      (set bytes 1 cmd, record { place = Place.storing_2; locks = locks })
  access bytes Place.storing_2 locks =
      (set bytes 2 0, record { place = Place.storing_3; locks = locks })
  access bytes Place.storing_3 locks =
      (set bytes 3 0, record { place = Place.leaving; locks = locks })
  access bytes Place.leaving locks =
      let w = word bytes in
      (
        bytes,
        record {
          place = if w % 256 % 2 == 1 then Place.releasing (w / 2) else Place.leaving;
          locks = locks;
        },
      )
  access bytes (Place.releasing h) locks =
      if word bytes == h * 2 + 1
      then (set_word bytes (toggled (h * 2 + 1)), record { place = Place.ready; locks = locks })
      else (bytes, record { place = Place.leaving; locks = locks })

  abbrev pub rival : Others
  rival = record {
    W = Rival;
    act = λ bytes r.
        if ltb (length bytes) commands_map_size then (bytes, r) else access bytes r.place r.locks;
    flushes = λ r. true;
  }

length-set_word : (bytes : List ℕ) (v : ℕ) → length (set_word bytes v) ≡ length bytes
unfolding set_word
length-set_word bytes v =
    length-set _ 3 _ ∙ (length-set _ 2 _ ∙ (length-set _ 1 _ ∙ length-set bytes 0 _))

set_word-IsBytes : (bytes : List ℕ) (v : ℕ) → IsBytes bytes → IsBytes (set_word bytes v)
unfolding set_word
set_word-IsBytes bytes v h = set-IsBytes _ 3 _ (omega arith) (
    set-IsBytes _ 2 _ (omega arith)
      (set-IsBytes _ 1 _ (omega arith) (set-IsBytes bytes 0 _ (omega arith) h)))

-- The parity of the word is that of the byte; the toggled word has the other.
word-parity : (bytes : List ℕ) → word bytes % 2 ≡ get_or bytes 0 0 % 2
unfolding word
word-parity bytes = omega arith

odd-set_word :
    (bytes : List ℕ) (v : ℕ)
    → 128 ≤ length bytes
    → odd_at 0 (set_word bytes (toggled v)) ≡ (v % 2 == 0)
unfolding set_word toggled
odd-set_word [] v h = absurd (omega arith)
odd-set_word (a ∷ bytes) v h =
    let (_, parity, small) = bit_xor-byte (v % 256) (omega arith) in
    let low : (v / 256 * 256 + bit_xor (v % 256) 1) % 256 ≡ bit_xor (v % 256) 1 = omega arith in
    rw low (ground arith)

module _ (cmd : ℕ) (small : cmd < 256) (bytes : List ℕ) (long : 128 ≤ length bytes) where
  odd-set : (i v : ℕ) → 0 < i → odd_at 0 (set bytes i v) ≡ odd_at 0 bytes
  odd-set i v inside =
      ap (λ b. b % 2 == 1) (get_or-set_ne bytes {i = i} {j = 0} v 0 (λ e. omega arith))

  pub access-length :
      (place : Place) (locks : ℕ) → length (access cmd bytes place locks).0 ≡ length bytes
  unfolding access
  access-length Place.ready locks = refl
  access-length (Place.swapping h) locks = ground (arith, length-set_word bytes (toggled (h * 2)))
  access-length Place.storing_1 locks = length-set bytes 1 cmd
  access-length Place.storing_2 locks = length-set bytes 2 0
  access-length Place.storing_3 locks = length-set bytes 3 0
  access-length Place.leaving locks = refl
  access-length (Place.releasing h) locks =
      ground (arith, length-set_word bytes (toggled (h * 2 + 1)))

  pub access-agree :
      (place : Place) (locks : ℕ)
      → odd_at 0 bytes ≡ in_critical place
      → odd_at 0 (access cmd bytes place locks).0
        ≡ in_critical (access cmd bytes place locks).1.place
  unfolding access
  access-agree Place.ready locks h = ground (arith)
  access-agree (Place.swapping k) locks h = ground (arith, odd-set_word bytes (k * 2) long)
  access-agree Place.storing_1 locks h = odd-set 1 cmd (omega arith) ∙ h
  access-agree Place.storing_2 locks h = odd-set 2 0 (omega arith) ∙ h
  access-agree Place.storing_3 locks h = odd-set 3 0 (omega arith) ∙ h
  access-agree Place.leaving locks h = ground arith
  access-agree (Place.releasing k) locks h = ground (arith, odd-set_word bytes (k * 2 + 1) long)

  pub access-IsBytes :
      (place : Place) (locks : ℕ) → IsBytes bytes → IsBytes (access cmd bytes place locks).0
  unfolding access
  access-IsBytes Place.ready locks h = h
  access-IsBytes (Place.swapping k) locks h = elim (Bool-cases (word bytes == k * 2)) [
    | inl same ↦ rw same (set_word-IsBytes bytes (toggled (k * 2)) h)
    | inr moved ↦ rw moved h
  ]
  access-IsBytes Place.storing_1 locks h = set-IsBytes bytes 1 cmd small h
  access-IsBytes Place.storing_2 locks h = set-IsBytes bytes 2 0 (omega arith) h
  access-IsBytes Place.storing_3 locks h = set-IsBytes bytes 3 0 (omega arith) h
  access-IsBytes Place.leaving locks h = h
  access-IsBytes (Place.releasing k) locks h = elim (Bool-cases (word bytes == k * 2 + 1)) [
    | inl same ↦ rw same (set_word-IsBytes bytes (toggled (k * 2 + 1)) h)
    | inr moved ↦ rw moved h
  ]

  pub access-grows : (place : Place) (locks : ℕ) → locks ≤ (access cmd bytes place locks).1.locks
  unfolding access
  access-grows Place.ready locks = omega arith
  access-grows (Place.swapping h) locks = ground arith
  access-grows Place.storing_1 locks = omega arith
  access-grows Place.storing_2 locks = omega arith
  access-grows Place.storing_3 locks = omega arith
  access-grows Place.leaving locks = omega arith
  access-grows (Place.releasing h) locks = ground arith

  -- Outside of the critical section it changes nothing but by taking the lock, and this only where
  -- the byte is even.
  pub access-outside :
      (place : Place) (locks : ℕ)
      → in_critical place ≡ false
      → (((access cmd bytes place locks).0 ≡ bytes)
          × (in_critical (access cmd bytes place locks).1.place ≡ false))
        ⊎ (((access cmd bytes place locks).1.locks ≡ suc locks) × (odd_at 0 bytes ≡ false))
  unfolding access
  access-outside Place.ready locks h = inl (refl, ground arith)
  access-outside (Place.swapping k) locks h =
      let parity = word-parity bytes in
      elim (Bool-cases (word bytes == k * 2)) [
        | inl same ↦ rw same (inr (refl, ground arith))
        | inr moved ↦ rw moved (inl (refl, refl))
      ]
  access-outside Place.storing_1 locks h = cc
  access-outside Place.storing_2 locks h = cc
  access-outside Place.storing_3 locks h = cc
  access-outside Place.leaving locks h = cc
  access-outside (Place.releasing k) locks h = cc

module _ (cmd : ℕ) (small : cmd < 256) where
  pub later-rival :
      (m : Memory (rival cmd))
      → (later (rival cmd) m ≡ m)
        ⊎ ((128 ≤ length m.bytes)
            × ((later (rival cmd) m).bytes ≡ (access cmd m.bytes m.outside.place m.outside.locks).0)
            × ((later (rival cmd) m).outside
                ≡ (access cmd m.bytes m.outside.place m.outside.locks).1))
  unfolding later
  later-rival m = elim (Bool-cases (ltb (length m.bytes) commands_map_size)) [
    | inl short ↦ inl (rw short refl)
    | inr long ↦ inr (ground arith, rw long refl, rw long refl)
  ]
