-- ===== src/Server/Writing.antt =====
-- interface/internal/storage/storage.go, `writeCommand`: its branches, and what it writes once the server has the
-- lock.
use Prim.Native.Nat.{bit_xor}
use segling.Prelude.{
  ℕ, ◌%◌, ◌<◌, ◌≡◌, ◌≢◌, ◌⊎◌, inl, inr, refl, ap, ◌∙◌, true, false, Bool-cases, Option, none, some,
  List, get_or, set, get_or-set_ne, length-set, ltb, ◌==◌, if◌then◌else◌, arith,
}
use segling.Server.{Error, commands_map_size, max_seqlock_spins}
use segling.Server.Shared.{
  Others, Memory, Store, mapped_length, address_of, store_byte, toggle_spins, commands_seq_word,
  seq_lock_commands_begin, seq_lock_commands_end, flush, write_locked, write_command,
}
use segling.Server.Protocol.{Protocol, Locked, Unlocked}
use segling.Server.Locking.{IsPage, set-IsBytes, toggle_spins-Locked}

-- The page with a command, the reserved bytes at 0, and the byte of the lock toggled.
unfoldable pub with_command : ℕ → List ℕ → List ℕ
with_command cmd bytes = set (set (set (set bytes 1 cmd) 2 0) 3 0) 0 (bit_xor (get_or bytes 0 0) 1)

-- The branches of the code.
module _ (o : Others) where
  pub begin_aligned :
      (address : ℕ) (m : Memory o)
      → commands_seq_word commands_map_size address ≡ none
      → let (done, m1) = toggle_spins o 0 max_seqlock_spins m in
        seq_lock_commands_begin o commands_map_size address m
        ≡ (if done then none else some Error.lock_exhausted, m1)
  unfolding seq_lock_commands_begin
  begin_aligned address m aligned = ground arith

  pub begin_refused :
      (address : ℕ) (e : Error) (m : Memory o)
      → commands_seq_word commands_map_size address ≡ some e
      → seq_lock_commands_begin o commands_map_size address m ≡ (some e, m)
  unfolding seq_lock_commands_begin
  begin_refused address e m refused = ground arith

  end_aligned :
      (address : ℕ) (m : Memory o)
      → commands_seq_word commands_map_size address ≡ none
      → let (done, m1) = toggle_spins o 1 max_seqlock_spins m in
        seq_lock_commands_end o commands_map_size address m
        ≡ (if done then none else some Error.unlock_exhausted, m1)
  unfolding seq_lock_commands_end
  end_aligned address m aligned = ground arith

  write_unlocked :
      (address cmd : ℕ) (m : Memory o)
      → let m1 = store_byte o 3 0 (store_byte o 2 0 (store_byte o 1 cmd m)) in
        let (result, m2) = seq_lock_commands_end o commands_map_size address m1 in
        result ≡ none → write_locked o address cmd m ≡ (flush o m2, m2)
  unfolding write_locked
  write_unlocked address cmd m done = ground arith

  pub write_short :
      (s : Store) (cmd : ℕ) (m : Memory o)
      → ltb (mapped_length s.commands m.bytes) commands_map_size ≡ true
      → write_command o s cmd m ≡ (some Error.invalid, m)
  unfolding write_command
  write_short s cmd m short = ground arith

  module _ (s : Store) (cmd : ℕ) (m : Memory o)
      (long : ltb (mapped_length s.commands m.bytes) commands_map_size ≡ false) where
    abbrev pub begun : Option Error × Memory o
    begun = seq_lock_commands_begin o commands_map_size (address_of s.commands) m

    pub write_refused : (e : Error) → begun.0 ≡ some e → write_command o s cmd m ≡ (some e, begun.1)
    unfolding write_command
    write_refused e refused = ground arith

    pub write_granted :
        begun.0 ≡ none
        → write_command o s cmd m ≡ write_locked o (address_of s.commands) cmd begun.1
    unfolding write_command
    write_granted granted = ground arith

pub word_cases :
    (address : ℕ)
    → (commands_seq_word commands_map_size address ≡ none)
      ⊎ ((commands_seq_word commands_map_size address ≡ some Error.not_aligned) × (address % 4 ≢ 0))
unfolding commands_seq_word
word_cases address = elim (Bool-cases (address % 4 == 0)) [
  | inl aligned ↦ inl (rw aligned refl)
  | inr askew ↦ inr (rw askew refl, λ e. ground arith)
]

module _ {o : Others} (p : Protocol o 0) where
  store_byte-Locked :
      (i v : ℕ) (m : Memory o)
      → 0 < i
      → v < 256
      → IsPage p m
      → Locked p m
      → ((store_byte o i v m).bytes ≡ set m.bytes i v)
        × IsPage p (store_byte o i v m)
        × Locked p (store_byte o i v m)
  unfolding store_byte
  store_byte-Locked i v m inside small (bytes, long) (odd, free) =
      let (same, free1) = p.wait m odd free in
      let kept = get_or-set_ne m.bytes {i = i} {j = 0} v 0 (λ e. omega arith) in
      (
        ap (λ bs. set bs i v) same,
        rw same (set-IsBytes m.bytes i v small bytes, omega (arith, length-set m.bytes i v)),
        (rw (same, kept) odd, free1),
      )

  seq_lock_commands_end_lem :
      (address : ℕ) (m : Memory o)
      → commands_seq_word commands_map_size address ≡ none
      → IsPage p m
      → Locked p m
      → let (result, m') = seq_lock_commands_end o commands_map_size address m in
        (result ≡ none)
        × (m'.bytes ≡ set m.bytes 0 (bit_xor (get_or m.bytes 0 0) 1))
        × Unlocked p m'
  seq_lock_commands_end_lem address m aligned page locked =
      let (done, bytes, free) = toggle_spins-Locked p 4194303 m page locked in
      rw (end_aligned o address m aligned, done) (refl, bytes, free)

  pub write_locked_lem :
      (address cmd : ℕ) (m : Memory o)
      → cmd < 256
      → commands_seq_word commands_map_size address ≡ none
      → IsPage p m
      → Locked p m
      → let (result, m') = write_locked o address cmd m in
        (result ≡ flush o m') × (m'.bytes ≡ with_command cmd m.bytes) × Unlocked p m'
  unfolding with_command
  write_locked_lem address cmd m small aligned page locked =
      let m1 = store_byte o 1 cmd m in
      let m2 = store_byte o 2 0 m1 in
      let m3 = store_byte o 3 0 m2 in
      let (e1, page1, locked1) = store_byte-Locked 1 cmd m (omega arith) small page locked in
      let (e2, page2, locked2) =
        store_byte-Locked 2 0 m1 (omega arith) (omega arith) page1 locked1 in
      let (e3, page3, locked3) =
        store_byte-Locked 3 0 m2 (omega arith) (omega arith) page2 locked2 in
      let (none_wrong, e4, free) = seq_lock_commands_end_lem address m3 aligned page3 locked3 in
      let stored : (store_byte o 3 0 m2).bytes ≡ set (set (set m.bytes 1 cmd) 2 0) 3 0 =
        e3 ∙ ap (λ bs. set bs 3 0) (e2 ∙ ap (λ bs. set bs 2 0) e1) in
      let byte : get_or (set (set (set m.bytes 1 cmd) 2 0) 3 0) 0 0 ≡ get_or m.bytes 0 0 =
        get_or-set_ne (set (set m.bytes 1 cmd) 2 0) {i = 3} {j = 0} 0 0 (λ e. omega arith)
        ∙ (get_or-set_ne (set m.bytes 1 cmd) {i = 2} {j = 0} 0 0 (λ e. omega arith)
            ∙ get_or-set_ne m.bytes {i = 1} {j = 0} cmd 0 (λ e. omega arith)) in
      let bytes = e4 ∙ ap (λ bs. set bs 0 (bit_xor (get_or bs 0 0) 1)) stored in
      rw (write_unlocked o address cmd m none_wrong) (
        refl,
        bytes ∙ ap (λ b. set (set (set (set m.bytes 1 cmd) 2 0) 3 0) 0 (bit_xor b 1)) byte,
        free,
      )
