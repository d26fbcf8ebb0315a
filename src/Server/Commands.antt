-- ===== src/Server/Commands.antt =====
-- interface/internal/storage/storage.go, `writeCommand`: a command reaches the page whole, or not at all.
use Prim.Native.Nat.{bit_xor}
use segling.Prelude.{
  ℕ, ◌%◌, ◌≤◌, ◌<◌, ◌≡◌, ◌≢◌, ◌⊎◌, inl, inr, refl, ap, ◌∙◌, false, Bool-cases, none, some, List, [],
  ◌∷◌, length, get_or, set, length-set, ltb, arith,
}
use segling.Storage.Commit.{bit_xor-byte}
use segling.Server.{Error, commands_map_size, max_seqlock_spins}
use segling.Server.Shared.{
  Others, Memory, Store, mapped_length, address_of, later, toggle_spins, commands_seq_word,
  seq_lock_commands_begin, flush, write_command,
}
use segling.Server.Protocol.{Protocol, Agree, Unlocked, IsBytes}
use segling.Server.Locking.{IsPage, set-IsBytes, Begins, toggle_spins-Begins, toggle_spins-Unlocked}
use segling.Server.Writing.{
  with_command, begin_aligned, begin_refused, write_short, write_refused, write_granted, word_cases,
  write_locked_lem,
}

-- The page holds the command.
abbrev pub Holds : ℕ → List ℕ → Type 0
Holds cmd bytes = (get_or bytes 1 0 ≡ cmd) × (get_or bytes 2 0 ≡ 0) × (get_or bytes 3 0 ≡ 0)

with_command-Holds :
    (cmd : ℕ) (bytes : List ℕ) → 4 ≤ length bytes → Holds cmd (with_command cmd bytes)
unfolding with_command
with_command-Holds cmd [] h = absurd (omega arith)
with_command-Holds cmd (a ∷ []) h = absurd (omega arith)
with_command-Holds cmd (a ∷ b ∷ []) h = absurd (omega arith)
with_command-Holds cmd (a ∷ b ∷ c ∷ []) h = absurd (omega arith)
with_command-Holds cmd (a ∷ b ∷ c ∷ d ∷ rest) h = (refl, refl, refl)

-- The two toggles of the byte leave it as it was.
with_command-toggled :
    (cmd : ℕ) (bytes : List ℕ)
    → IsBytes bytes
    → 4 ≤ length bytes
    → with_command cmd (set bytes 0 (bit_xor (get_or bytes 0 0) 1))
      ≡ set (set (set bytes 1 cmd) 2 0) 3 0
unfolding with_command
with_command-toggled cmd [] small h = absurd (omega arith)
with_command-toggled cmd (a ∷ []) small h = absurd (omega arith)
with_command-toggled cmd (a ∷ b ∷ []) small h = absurd (omega arith)
with_command-toggled cmd (a ∷ b ∷ c ∷ []) small h = absurd (omega arith)
with_command-toggled cmd (a ∷ b ∷ c ∷ d ∷ rest) small h =
    ap (λ x. x ∷ cmd ∷ 0 ∷ 0 ∷ rest) (bit_xor-byte a (small 0)).0

module _ {o : Others} (p : Protocol o 0) (s : Store) (cmd : ℕ) (m : Memory o) where
  with_command-IsBytes :
      (bytes : List ℕ) → cmd < 256 → IsBytes bytes → IsBytes (with_command cmd bytes)
  unfolding with_command
  with_command-IsBytes bytes small h = set-IsBytes _ 0 _ (bit_xor-byte (get_or bytes 0 0) (h 0)).2 (
      set-IsBytes _ 3 0 (omega arith)
        (set-IsBytes _ 2 0 (omega arith) (set-IsBytes bytes 1 cmd small h)))

  -- A command of one byte to a page of bytes whose lock the server does not hold, whatever the
  -- other processes do in between, as long as they keep to the protocol: the page stays one of
  -- bytes; and the command is written whole, nobody has the lock behind it, and the result is that
  -- of the flush; or the server never got the lock; or the map is too short or not aligned, and
  -- nothing happened. The server never keeps the lock, and never fails to give it back.
  pub write_command_lem :
      cmd < 256
      → IsBytes m.bytes
      → Agree p m
      → let (result, m') = write_command o s cmd m in
        IsBytes m'.bytes
        × (((result ≡ flush o m') × Holds cmd m'.bytes × Unlocked p m')
            ⊎ ((result ≡ some Error.lock_exhausted) × Agree p m')
            ⊎ ((result ≡ some Error.invalid) × (mapped_length s.commands m.bytes < 128) × (m' ≡ m))
            ⊎ ((result ≡ some Error.not_aligned) × (address_of s.commands % 4 ≢ 0) × (m' ≡ m)))
  unfolding Begins
  write_command_lem small bytes agreed =
      let address = address_of s.commands in
      elim (Bool-cases (ltb (mapped_length s.commands m.bytes) commands_map_size)) [
        | inl short ↦
            rw (write_short o s cmd m short) (bytes, inr (inr (inl (refl, ground arith, refl))))
        | inr long ↦ elim (word_cases address) [
          | inr (askew, away) ↦
              let begun = begin_refused o address Error.not_aligned m askew in
              rw (write_refused o s cmd m long Error.not_aligned (ap (λ out. out.0) begun), begun)
                (bytes, inr (inr (inr (refl, away, refl))))
          | inl aligned ↦
              let begun = begin_aligned o address m aligned in
              let enough : 4 ≤ length m.bytes = ground arith in
              let (page, begins) =
                toggle_spins-Begins p max_seqlock_spins m (bytes, enough) agreed in
              elim begins [
                | inr (lost, agreed1) ↦
                    let result : (seq_lock_commands_begin o commands_map_size address m).0
                        ≡ some Error.lock_exhausted =
                      rw (begun, lost) refl in
                    rw (write_refused o s cmd m long Error.lock_exhausted result, begun)
                      (page.0, inr (inl (refl, agreed1)))
                | inl (won, locked) ↦
                    let result : (seq_lock_commands_begin o commands_map_size address m).0 ≡ none =
                      rw (begun, won) refl in
                    let (flushed, written, free) =
                      write_locked_lem p address cmd _ small aligned page locked in
                    rw (write_granted o s cmd m long result, begun)
                      (
                        rw written (with_command-IsBytes _ small page.0),
                        inl (flushed, rw written (with_command-Holds cmd _ page.1), free),
                      )
              ]
        ]
      ]

  -- With processes that keep to the protocol, where nobody has the lock, and nobody takes it
  -- before the server has read and swapped the word: a command of one byte to a page of bytes, of
  -- full length and at an aligned address, is written, with the result of the flush; of the page
  -- only the three bytes of the command change, and nobody has the lock.
  pub write_command_delivers :
      cmd < 256
      → IsBytes m.bytes
      → Unlocked p m
      → p.taken (later o (later o m)).outside ≡ p.taken m.outside
      → commands_map_size ≤ mapped_length s.commands m.bytes
      → address_of s.commands % 4 ≡ 0
      → let (result, m') = write_command o s cmd m in
        (result ≡ flush o m') × (m'.bytes ≡ set (set (set m.bytes 1 cmd) 2 0) 3 0) × Unlocked p m'
  write_command_delivers small bytes free still mapped even =
      let address = address_of s.commands in
      let long : ltb (mapped_length s.commands m.bytes) commands_map_size ≡ false = ground arith in
      let aligned : commands_seq_word commands_map_size address ≡ none = elim (word_cases address) [
        | inl fine ↦ fine
        | inr (_, askew) ↦ absurd (askew even)
      ] in
      let begun = begin_aligned o address m aligned in
      let enough : 4 ≤ length m.bytes = ground arith in
      let (won, toggled, locked) = toggle_spins-Unlocked p 4194303 m (bytes, enough) free still in
      let below = (bit_xor-byte (get_or m.bytes 0 0) (bytes 0)).2 in
      let b = bit_xor (get_or m.bytes 0 0) 1 in
      let result : (seq_lock_commands_begin o commands_map_size address m).0 ≡ none =
        rw (begun, won) refl in
      let page : IsPage p (toggle_spins o 0 max_seqlock_spins m).1 =
        rw toggled (set-IsBytes m.bytes 0 b below bytes, omega (arith, length-set m.bytes 0 b)) in
      let (flushed, written, unlocked) =
        write_locked_lem p address cmd _ small aligned page locked in
      rw (write_granted o s cmd m long result, begun)
        (
          flushed,
          written ∙ (ap (with_command cmd) toggled ∙ with_command-toggled cmd m.bytes bytes enough),
          unlocked,
        )
