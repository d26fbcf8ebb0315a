-- ===== src/Server/Shared.antt =====
-- Memory that the server shares with other processes, as interface/internal/storage/storage.go accesses
-- it. Others may act between any two accesses, so each access lets them act first.
use Prim.Native.Nat.{bit_xor}
use segling.Prelude.{
  ℕ, zero, suc, ◌+◌, ◌*◌, ◌/◌, ◌%◌, Bool, true, false, ◌&&◌, Option, none, some, List, [], ◌∷◌,
  length, set, get_or, ltb, ◌==◌, if◌then◌else◌,
}
use segling.Server.{
  Error, Outcome, ok, err, ◌>>=◌, Snapshot, file_size, total_size, commands_map_size, seqlock_byte,
  seqlock_payload_bytes, max_seqlock_spins, file_id_ahrs, cmd_calibrate_imu, cmd_calibrate_compass,
}
use segling.Server.Decode.{decode_ahrs_public_v1}

-- The processes that have mapped the same file: `act` is what all of them do to its bytes between two
-- accesses of the server. `flushes` tells whether a Flush by the server succeeds.
pub record Others : Type 1 where
  pub W : Type 0
  pub act : List ℕ → W → List ℕ × W
  pub flushes : W → Bool

-- The bytes of the file, and the state of the others.
pub record Memory (o : Others) : Type 0 where
  pub bytes : List ℕ
  pub outside : o.W

-- `Store`: the paths of state.bin and commands.bin, and the addresses of their maps, where these are not
-- nil.
pub record Store : Type 0 where
  pub state_path : List ℕ
  pub commands_path : List ℕ
  pub state : Option ℕ
  pub commands : Option ℕ

-- `len` of a map.
abbrev pub mapped_length : Option ℕ → List ℕ → ℕ
mapped_length none bytes = 0
mapped_length (some address) bytes = length bytes

abbrev pub address_of : Option ℕ → ℕ
address_of none = 0
address_of (some address) = address

-- The word that the first four bytes are, and the bytes with a word in their place.
unfoldable pub word : List ℕ → ℕ
word m = get_or m 0 0 + 256 * get_or m 1 0 + 65536 * get_or m 2 0 + 16777216 * get_or m 3 0

unfoldable pub set_word : List ℕ → ℕ → List ℕ
set_word m v =
    set (set (set (set m 0 (v % 256)) 1 (v / 256 % 256)) 2 (v / 65536 % 256)) 3 (v / 16777216 % 256)

-- `(w & 0xffffff00) | uint32(b^1)`, where `b` is the lowest byte of `w`.
unfoldable pub toggled : ℕ → ℕ
toggled w = w / 256 * 256 + bit_xor (w % 256) 1

-- `commandsSeqWord`, of a page by its length and its address: the error, or none.
unfoldable pub commands_seq_word : ℕ → ℕ → Option Error
commands_seq_word len address =
    if ltb len 4
    then some Error.invalid
    else (if address % 4 == 0 then none else some Error.not_aligned)

module _ (o : Others) where
  -- The memory once the others have acted.
  unfoldable pub later : Memory o → Memory o
  later m = let (bytes, w) = o.act m.bytes m.outside in record { bytes = bytes; outside = w }

  -- Reading a byte, a word, writing a byte, and `atomic.CompareAndSwapUint32` on the first word.
  unfoldable pub load_byte : ℕ → Memory o → ℕ × Memory o
  load_byte i m = let now = later m in (get_or now.bytes i 0, now)

  unfoldable pub load_word : Memory o → ℕ × Memory o
  load_word m = let now = later m in (word now.bytes, now)

  unfoldable pub store_byte : ℕ → ℕ → Memory o → Memory o
  store_byte i v m = let now = later m in record now { bytes = set now.bytes i v }

  unfoldable pub compare_and_swap : ℕ → ℕ → Memory o → Bool × Memory o
  compare_and_swap old new m =
      let now = later m in
      if word now.bytes == old
      then (true, record now { bytes = set_word now.bytes new })
      else (false, now)

  -- `copy`, byte by byte: so many bytes from an index on.
  unfoldable pub copy_bytes : ℕ → ℕ → Memory o → List ℕ × Memory o
  copy_bytes zero i m = ([], m)
  copy_bytes (suc n) i m =
      let (b, m1) = load_byte i m in let (bs, m2) = copy_bytes n (suc i) m1 in (b ∷ bs, m2)

  -- The loop of `readSeqlockedPayload`, so many rounds of it, on the page at `base`.
  -- `s & 1` is `s % 2`.
  unfoldable pub read_spins : ℕ → ℕ → Memory o → Outcome (List ℕ) × Memory o
  read_spins zero base m = (err Error.read_exhausted, m)
  read_spins (suc n) base m =
      let (s1, m1) = load_byte base m in
      elim (s1 % 2 == 0) [
        | false ↦ read_spins n base m1
        | true ↦
            let (buf, m2) = copy_bytes seqlock_payload_bytes (base + seqlock_byte) m1 in
            let (s2, m3) = load_byte base m2 in
            elim (s1 == s2 && s2 % 2 == 0) [ true ↦ (ok buf, m3) | false ↦ read_spins n base m3 ]
      ]

  -- `readSeqlockedPayload`, of a page by its place and its length.
  unfoldable pub read_seqlocked_payload : ℕ → ℕ → Memory o → Outcome (List ℕ) × Memory o
  read_seqlocked_payload base len m =
      if len == file_size then read_spins max_seqlock_spins base m else (err Error.invalid, m)

  unfoldable pub read_snapshot : Store → Memory o → Outcome Snapshot × Memory o
  read_snapshot s m =
      if ltb (mapped_length s.state m.bytes) total_size
      then (err Error.invalid, m)
      else (let (payload, m1) = read_seqlocked_payload (file_id_ahrs * file_size) file_size m in
          (payload >>= decode_ahrs_public_v1, m1))

  -- The loops of `seqLockCommandsBegin`, from parity 0, and `seqLockCommandsEnd`, from parity 1:
  -- whether a round has toggled the byte.
  unfoldable pub toggle_spins : ℕ → ℕ → Memory o → Bool × Memory o
  toggle_spins parity zero m = (false, m)
  toggle_spins parity (suc n) m =
      let (v, m1) = load_word m in
      elim (v % 256 % 2 == parity) [
        | false ↦ toggle_spins parity n m1
        | true ↦
            let (swapped, m2) = compare_and_swap v (toggled v) m1 in
            elim swapped [ true ↦ (true, m2) | false ↦ toggle_spins parity n m2 ]
      ]

  unfoldable pub seq_lock_commands_begin : ℕ → ℕ → Memory o → Option Error × Memory o
  seq_lock_commands_begin len address m = elim (commands_seq_word len address) [
    | some e ↦ (some e, m)
    | none ↦
        let (done, m1) = toggle_spins 0 max_seqlock_spins m in
        (if done then none else some Error.lock_exhausted, m1)
  ]

  unfoldable pub seq_lock_commands_end : ℕ → ℕ → Memory o → Option Error × Memory o
  seq_lock_commands_end len address m = elim (commands_seq_word len address) [
    | some e ↦ (some e, m)
    | none ↦
        let (done, m1) = toggle_spins 1 max_seqlock_spins m in
        (if done then none else some Error.unlock_exhausted, m1)
  ]

  unfoldable pub flush : Memory o → Option Error
  flush m = if o.flushes m.outside then none else some Error.flush_failed

  -- What `writeCommand` does once it has the lock.
  unfoldable pub write_locked : ℕ → ℕ → Memory o → Option Error × Memory o
  write_locked address cmd m =
      let m1 = store_byte 3 0 (store_byte 2 0 (store_byte 1 cmd m)) in
      let (unlocked, m2) = seq_lock_commands_end commands_map_size address m1 in
      elim unlocked [ some e ↦ (some e, m2) | none ↦ (flush m2, m2) ]

  unfoldable pub write_command : Store → ℕ → Memory o → Option Error × Memory o
  unfolding write_locked
  write_command s cmd m =
      let address = address_of s.commands in
      if ltb (mapped_length s.commands m.bytes) commands_map_size
      then (some Error.invalid, m)
      else (let (locked, m1) = seq_lock_commands_begin commands_map_size address m in
          elim locked [ some e ↦ (some e, m1) | none ↦ write_locked address cmd m1 ])

  unfoldable pub queue_calibrate_imu : Store → Memory o → Option Error × Memory o
  queue_calibrate_imu s m = write_command s cmd_calibrate_imu m

  unfoldable pub queue_calibrate_compass : Store → Memory o → Option Error × Memory o
  queue_calibrate_compass s m = write_command s cmd_calibrate_compass m
