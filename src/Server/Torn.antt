-- ===== src/Server/Torn.antt =====
-- interface/internal/storage/storage.go, `readSeqlockedPayload`: a write that begins and ends between
-- two accesses of the copy.
use segling.Prelude.{
  ℕ, zero, suc, ◌+◌, ◌-◌, ◌≤◌, ◌<◌, ◌≡◌, ◌≢◌, ◌∙◌, inl, inr, refl, sym, ap, true, false, List, [],
  ◌∷◌, ◌++◌, length, take, drop, overwrite, length-overwrite, length-drop, take-drop-overwrite,
  take-drop-take, drop-drop, drop-overwrite, arith,
}
use segling.Server.{ok, file_size, seqlock_byte}
use segling.Server.Shared.{Memory, later, load_byte, copy_bytes, read_seqlocked_payload}
use segling.Server.Protocol.{Protocol, IsBytes, odd_at}
use segling.Server.Reading.{payload_at, take-drop-suc, sees_even, sees_same, round_read}
use segling.Server.Writer.{
  writer, written, later-writer, outside-writer, length-writer, byte-writer, odd-writer,
  writer-Protocol, byte-copy,
}

take-nil : (n : ℕ) → ◌≡◌ {A = List ℕ} (take n []) []
take-nil zero = refl
take-nil (suc n) = refl

drop-take : (k n : ℕ) (xs : List ℕ) → drop k (take n xs) ≡ take (n - k) (drop k xs)
drop-take zero n xs = let e : n - 0 ≡ n = omega arith in rw e refl
drop-take (suc k) zero xs = let e : 0 - suc k ≡ 0 = omega arith in rw e refl
drop-take (suc k) (suc n) [] =
    let e : take (n - k) [] ≡ [] = take-nil (n - k) in
    let d : suc n - suc k ≡ n - k = omega arith in rw (d, e) refl
drop-take (suc k) (suc n) (x ∷ xs) =
    let e : suc n - suc k ≡ n - k = omega arith in rw e (drop-take k n xs)

module _ (base k : ℕ) (payload : List ℕ) where
  -- Away from the writer's turn nothing changes; in its turn, it writes.
  untouched :
      (m : Memory (writer base k payload))
      → m.outside ≢ suc k
      → (later (writer base k payload) m).bytes ≡ m.bytes
  untouched m away = elim (later-writer base k payload m) [
    | inl (_, now, _) ↦ absurd (away now)
    | inr (e, _) ↦ e
  ]

  in_turn :
      (m : Memory (writer base k payload))
      → m.outside ≡ suc k
      → odd_at base m.bytes ≡ false
      → (later (writer base k payload) m).bytes ≡ written base k payload m.bytes
  in_turn m now even = elim (later-writer base k payload m) [
    | inl (e, _, _) ↦ e
    | inr (_, other) ↦ absurd (ground arith)
  ]

  -- A copy behind the writer's turn, and one with its turn after `j` bytes.
  copy_behind :
      (n i : ℕ) (m : Memory (writer base k payload))
      → suc k < m.outside
      → i + n ≤ length m.bytes
      → (copy_bytes (writer base k payload) n i m).0 ≡ take n (drop i m.bytes)
  unfolding copy_bytes load_byte
  copy_behind zero i m late within = refl
  copy_behind (suc n) i m late within =
      let m1 = later (writer base k payload) m in
      let same = untouched m (λ e. omega arith) in
      let rest =
        copy_behind n (suc i) m1 (omega (arith, outside-writer base k payload m))
          (omega (arith, length-writer base k payload m)) in
      rw (rest, same) (take-drop-suc n i m.bytes (omega arith))

  copy_across :
      (n i j : ℕ) (m : Memory (writer base k payload))
      → m.outside + j ≡ suc k
      → j ≤ n
      → odd_at base m.bytes ≡ false
      → i + n ≤ length m.bytes
      → (copy_bytes (writer base k payload) n i m).0
        ≡ take j (drop i m.bytes) ++ take (n - j) (drop (i + j) (written base k payload m.bytes))
  unfolding copy_bytes load_byte
  copy_across zero i zero m turn some_left even within = refl
  copy_across zero i (suc j) m turn some_left even within = absurd (omega arith)
  copy_across (suc n) i zero m turn some_left even within =
      let m1 = later (writer base k payload) m in
      let now = in_turn m (omega arith) even in
      let long = length-writer base k payload m in
      let rest =
        copy_behind n (suc i) m1 (omega (arith, outside-writer base k payload m)) (omega arith) in
      let e : i + 0 ≡ i = omega arith in
      let d : suc n - 0 ≡ suc n = omega arith in
      rw (rest, e, d, now)
        (take-drop-suc n i (written base k payload m.bytes)
          (omega (arith, length-overwrite m.bytes (base + seqlock_byte) payload)))
  copy_across (suc n) i (suc j) m turn some_left even within =
      let m1 = later (writer base k payload) m in
      let same = untouched m (λ e. omega arith) in
      let rest =
        copy_across n (suc i) j m1 (omega (arith, outside-writer base k payload m)) (omega arith)
          (odd-writer base k payload m ∙ even) (omega (arith, length-writer base k payload m)) in
      let e : i + suc j ≡ suc i + j = omega arith in
      let d : suc n - suc j ≡ n - j = omega arith in
      rw (rest, e, d, same)
        (ap (λ bs. bs ++ take (n - j) (drop (suc i + j) (written base k payload m.bytes)))
          (take-drop-suc j i m.bytes (omega arith)))

  -- What is written base k payload of the payload from the byte `k` on.
  written_tail :
      (bytes : List ℕ)
      → base + 128 ≤ length bytes
      → length payload ≡ 127
      → take (127 - k) (drop (base + 1 + k) (written base k payload bytes)) ≡ drop k payload
  written_tail bytes within size =
      let tail = drop (base + 1) bytes in
      let from : base + 1 + 0 ≡ base + 1 = omega arith in
      let there = rw from at (drop-overwrite (base + 1) bytes 0 payload) in
      let whole : take 127 (overwrite tail 0 payload) ≡ payload =
        rw size at
          (take-drop-overwrite tail 0 payload (omega (arith, length-drop (base + 1) bytes))) in
      rw
        (
          sym (drop-drop k (base + 1) (written base k payload bytes)),
          there,
          sym (drop-take k 127 (overwrite tail 0 payload)),
          whole,
        )
        refl

  -- For each page of 128 bytes that nobody has locked, each new payload of 127 bytes and each k up
  -- to 127: there is another process that keeps to the protocol, with which the server reads the
  -- first k bytes of the old payload and the rest of the new one, and takes them for one.
  pub torn_read :
      (bytes : List ℕ)
      → odd_at base bytes ≡ false
      → base + 128 ≤ length bytes
      → k ≤ 127
      → length payload ≡ 127
      → IsBytes payload
      → Protocol (writer base k payload) base
        × ((read_seqlocked_payload
              (writer base k payload)
              base
              file_size
              record { bytes = bytes; outside = 0 }).0
            ≡ ok (take k (payload_at base bytes) ++ drop k payload))
  unfolding read_seqlocked_payload
  torn_read bytes even within some_left size small =
      let p = writer-Protocol base k payload small in
      let m : Memory (writer base k payload) = record { bytes = bytes; outside = 0 } in
      let m1 = later (writer base k payload) m in
      let same : m1.bytes ≡ bytes = untouched m (λ e. omega arith) in
      let byte =
        byte-writer base k payload (copy_bytes (writer base k payload) 127 (base + 1) m1).1
        ∙ byte-copy base k payload 127 (base + 1) m1 in
      let sees : sees_even p m ≡ true = rw same (ground arith) in
      let passes : sees_same p m ≡ true = ground arith in
      let copied =
        copy_across 127 (base + 1) k m1 (omega (arith, outside-writer base k payload m)) some_left
          (odd-writer base k payload m ∙ even) (omega (arith, length-writer base k payload m)) in
      let front : take k (drop (base + 1) m1.bytes) ≡ take k (payload_at base bytes) =
        rw same (sym (take-drop-take k 0 127 (drop (base + 1) bytes) (omega arith))) in
      let back : take (127 - k) (drop (base + 1 + k) (written base k payload m1.bytes))
          ≡ drop k payload =
        rw same (written_tail bytes within size) in
      let spun = ap (λ out. out.0) (round_read p 4194303 m sees passes) in
      (p, rw (spun, copied, front, back) refl)
