-- ===== src/Server/Commits.antt =====
-- controller/src/storage.c's `voxor_commit` against interface/internal/storage/storage.go's
-- `ReadSnapshot`: which commits the server notices.
use Prim.Native.Nat.{bit_xor}
use segling.Prelude.{
  ℕ, zero, suc, ◌+◌, ◌*◌, ◌≤◌, ◌<◌, ◌≡◌, ◌⊎◌, inl, inr, Bool-cases, refl, ap, Bool, true, false,
  some, List, [], ◌∷◌, length, get_or, set, take, drop, ◌==◌, if◌then◌else◌, arith,
}
use segling.Storage.{voxor_commit, storage_file_size, storage_max_files, storage_state_map_bytes}
use segling.Storage.Commit.{voxor_commit_lem}
use segling.Server.{Error, Outcome, Snapshot, err, ◌>>=◌, total_size, max_seqlock_spins}
use segling.Server.Decode.{decode_ahrs_public_v1}
use segling.Server.Shared.{Others, Memory, Store, later, read_spins, read_snapshot}
use segling.Server.Protocol.{Protocol, odd_at}
use segling.Server.Reading.{payload_at, copies, round_refused}
use segling.Server.Snapshots.{read_snapshot_mapped}

-- Other processes that do nothing while the server reads; the state tells whether one has the lock.
abbrev pub resting : Others
resting = record { W = Bool; act = λ bytes w. (bytes, w); flushes = λ w. true }

pub later-resting : (m : Memory resting) → later resting m ≡ m
unfolding later
later-resting m = refl

-- They keep to the protocol.
abbrev pub resting-Protocol : (base : ℕ) → Protocol resting base
resting-Protocol base = record {
  holds = λ w. w;
  taken = λ w. 0;
  keeps_length = λ m. ap (λ (now : Memory resting). length now.bytes) (later-resting m);
  keeps_bytes = λ m h i. rw (later-resting m) (h i);
  taken_grows = λ m. omega arith;
  agree = λ m h. rw (later-resting m) h;
  wait = λ m odd free. rw (later-resting m) (refl, free);
  rest = λ m even free kept. rw (later-resting m) (refl, free);
}

-- What the server reads of these bytes, where nobody has the lock but by their parity.
abbrev pub at_rest : List ℕ → Memory resting
at_rest bytes = record { bytes = bytes; outside = false }

unfoldable pub snapshot_at_rest : Store → List ℕ → Outcome Snapshot
snapshot_at_rest s bytes = (read_snapshot resting s (at_rest bytes)).0

read_odd :
    (n : ℕ) (bytes : List ℕ)
    → odd_at 128 bytes ≡ true
    → (read_spins resting n 128 (at_rest bytes)).0 ≡ err Error.read_exhausted
unfolding read_spins
read_odd zero bytes odd = refl
read_odd (suc n) bytes odd =
    let e =
      round_refused (resting-Protocol 128) n (at_rest bytes)
        (rw (later-resting (at_rest bytes)) (ground arith)) in
    rw (e, later-resting (at_rest bytes)) (read_odd n bytes odd)

module _ (s : Store) (bytes : List ℕ) (address : ℕ) (mapped : s.state ≡ some address)
    (whole : length bytes ≡ total_size) where
  snapshot_mapped :
      snapshot_at_rest s bytes
      ≡ ((read_spins resting max_seqlock_spins 128 (at_rest bytes)).0 >>= decode_ahrs_public_v1)
  unfolding snapshot_at_rest
  snapshot_mapped =
      ap (λ out. out.0) (read_snapshot_mapped s (at_rest bytes) (rw mapped (omega arith)))

  pub snapshot_odd : odd_at 128 bytes ≡ true → snapshot_at_rest s bytes ≡ err Error.read_exhausted
  snapshot_odd odd = rw (snapshot_mapped, read_odd max_seqlock_spins bytes odd) refl

  pub snapshot_even :
      odd_at 128 bytes ≡ false
      → snapshot_at_rest s bytes ≡ decode_ahrs_public_v1 (payload_at 128 bytes)
  snapshot_even even =
      let (payload, _, _) =
        copies (resting-Protocol 128) 4194303 (at_rest bytes)
          (rw (later-resting (at_rest bytes)) (even, refl)) (omega arith) refl in
      rw (snapshot_mapped, payload, later-resting (at_rest bytes)) refl

-- A write outside a part of a list.
take-drop-set :
    (n from : ℕ) (xs : List ℕ) (i v : ℕ)
    → (i < from) ⊎ (from + n ≤ i)
    → take n (drop from (set xs i v)) ≡ take n (drop from xs)
take-drop-set n from [] i v away = refl
take-drop-set zero from (x ∷ xs) i v away = refl
take-drop-set (suc n) zero (x ∷ xs) zero v away = absurd (omega arith)
take-drop-set (suc n) zero (x ∷ xs) (suc i) v away =
    ap (λ ys. x ∷ ys) (take-drop-set n zero xs i v (omega arith))
take-drop-set (suc n) (suc from) (x ∷ xs) zero v away = refl
take-drop-set (suc n) (suc from) (x ∷ xs) (suc i) v away =
    take-drop-set (suc n) from xs i v (omega arith)

module _ (s : Store) (bytes : List ℕ) (address slot_id : ℕ) (mapped : s.state ≡ some address)
    (whole : length bytes ≡ storage_state_map_bytes) (slot : slot_id < storage_max_files)
    (byte : get_or bytes (slot_id * storage_file_size) 0 < 256) where
  committed_payload : payload_at 128 (voxor_commit bytes slot_id) ≡ payload_at 128 bytes
  unfolding voxor_commit
  committed_payload =
      take-drop-set 127 129 bytes (slot_id * 128) (bit_xor (get_or bytes (slot_id * 128) 0) 1)
        (omega arith)

  -- On the mapped state, where its slot begins with a byte, while nobody else writes it: the
  -- commit of a slot other than 1 changes nothing of what the server reads; a commit of slot 1
  -- where the byte of the slot is even makes its reads fail, and where it is odd, lets them give
  -- the payload.
  pub snapshot-voxor_commit : snapshot_at_rest s (voxor_commit bytes slot_id) ≡ (
      if slot_id == 1
      then (if odd_at 128 bytes
          then decode_ahrs_public_v1 (payload_at 128 bytes)
          else err Error.read_exhausted)
      else snapshot_at_rest s bytes)
  snapshot-voxor_commit =
      let committed = voxor_commit bytes slot_id in
      let base = slot_id * storage_file_size in
      let (parity, _, long, _) =
        voxor_commit_lem bytes slot_id whole slot byte (suc base) (λ e. omega arith) in
      elim (Bool-cases (slot_id == 1)) [
        | inl one ↦
            let here : base ≡ 128 = ground arith in
            let toggled = rw here at parity in
            elim (Bool-cases (odd_at 128 bytes)) [
              | inl odd ↦
                  let even : odd_at 128 committed ≡ false = ground arith in
                  rw (one, odd, snapshot_even s committed address mapped (omega arith) even)
                    (ap decode_ahrs_public_v1 committed_payload)
              | inr even ↦
                  let odd : odd_at 128 committed ≡ true = ground arith in
                  rw (one, even) (snapshot_odd s committed address mapped (omega arith) odd)
            ]
        | inr away ↦
            let same = (voxor_commit_lem bytes slot_id whole slot byte 128 (λ e. ground arith)).1 in
            elim (Bool-cases (odd_at 128 bytes)) [
              | inl odd ↦
                  rw
                    (
                      away,
                      snapshot_odd s committed address mapped (omega arith) (rw same odd),
                      snapshot_odd s bytes address mapped whole odd,
                    )
                    refl
              | inr even ↦
                  rw
                    (
                      away,
                      snapshot_even s committed address mapped (omega arith) (rw same even),
                      snapshot_even s bytes address mapped whole even,
                    )
                    (ap decode_ahrs_public_v1 committed_payload)
            ]
      ]
