-- ===== src/Server/Rivalry.antt =====
-- interface/internal/storage/storage.go, `writeCommand`: two servers that share commands.bin.
use segling.Prelude.{ℕ, ◌<◌, ◌≡◌, ◌≢◌, ◌⊎◌, inl, inr, refl, ap, false, none, arith}
use segling.Server.Shared.{Memory, Store, flush, write_command}
use segling.Server.Protocol.{Protocol, IsBytes, odd_at}
use segling.Server.Commands.{Holds, write_command_lem}
use segling.Server.Pace.{paced, paced-Protocol, paced-Agree, Agree-paced, Unlocked-paced}
use segling.Server.Rival.{
  Rival, in_critical, rival, later-rival, access-length, access-agree, access-IsBytes, access-grows,
  access-outside,
}

module _ (other_cmd : ℕ) (small : other_cmd < 256) where
  -- A server that queues commands keeps to the protocol that it asks of the others.
  pub rival-Protocol : Protocol (rival other_cmd) 0
  rival-Protocol = record {
    holds = λ r. in_critical r.place;
    taken = λ r. r.locks;
    keeps_length = λ m. elim (later-rival other_cmd small m) [
      | inl same ↦ rw same refl
      | inr (long, bytes, _) ↦
          rw bytes (access-length other_cmd small m.bytes long m.outside.place m.outside.locks)
    ];
    keeps_bytes = λ m h. elim (later-rival other_cmd small m) [
      | inl same ↦ rw same h
      | inr (long, bytes, _) ↦
          rw bytes (access-IsBytes other_cmd small m.bytes long m.outside.place m.outside.locks h)
    ];
    taken_grows = λ m. elim (later-rival other_cmd small m) [
      | inl same ↦ rw same (omega arith)
      | inr (long, _, rest) ↦
          rw rest (access-grows other_cmd small m.bytes long m.outside.place m.outside.locks)
    ];
    agree = λ m h. elim (later-rival other_cmd small m) [
      | inl same ↦ rw same h
      | inr (long, bytes, rest) ↦
          rw (bytes, rest)
            (access-agree other_cmd small m.bytes long m.outside.place m.outside.locks h)
    ];
    wait = λ m odd free. elim (later-rival other_cmd small m) [
      | inl same ↦ rw same (refl, free)
      | inr (long, bytes, rest) ↦
          elim (access-outside other_cmd small m.bytes long m.outside.place m.outside.locks free) [
            | inl (same, free1) ↦ rw (bytes, rest) (same, free1)
            | inr (_, even) ↦ absurd (ground arith)
          ]
    ];
    rest = λ m even free still. elim (later-rival other_cmd small m) [
      | inl same ↦ rw same (refl, free)
      | inr (long, bytes, rest) ↦
          elim (access-outside other_cmd small m.bytes long m.outside.place m.outside.locks free) [
            | inl (same, free1) ↦ rw (bytes, rest) (same, free1)
            | inr (more, _) ↦ absurd (let e = ap (λ (r : Rival). r.locks) rest in omega arith)
          ]
    ];
  }

  -- A server, beside a second one that queues another command over and over on the same page of
  -- bytes, making any number of accesses between two of its own, from any place where the byte of
  -- the lock tells whether the second is between its two swaps: where the first reports a command
  -- of one byte as queued, the page holds it, the byte is even, and the second is outside its
  -- swaps; else the byte still tells where the second is, so the first has not kept the lock.
  pub two_servers :
      (pace : ℕ → ℕ) (s : Store) (cmd : ℕ) (m : Memory (paced (rival other_cmd) pace))
      → cmd < 256
      → IsBytes m.bytes
      → odd_at 0 m.bytes ≡ in_critical m.outside.inner.place
      → let (result, m') = write_command (paced (rival other_cmd) pace) s cmd m in
        ((result ≡ none)
          × Holds cmd m'.bytes
          × (odd_at 0 m'.bytes ≡ false)
          × (in_critical m'.outside.inner.place ≡ false))
        ⊎ ((result ≢ none) × (odd_at 0 m'.bytes ≡ in_critical m'.outside.inner.place))
  unfolding flush rival-Protocol
  two_servers pace s cmd m byte bytes agreed =
      let p = paced-Protocol rival-Protocol pace in
      let last = (write_command (paced (rival other_cmd) pace) s cmd m).1 in
      elim (write_command_lem p s cmd m byte bytes (paced-Agree rival-Protocol pace m agreed)).1 [
        | inl (result, holding, free) ↦
            let (even, outside) = Unlocked-paced rival-Protocol pace last free in
            inl (result, holding, even, outside)
        | inr (inl (lost, agreed1)) ↦ inr (λ e. cc, Agree-paced rival-Protocol pace last agreed1)
        | inr (inr (inl (short, _, same))) ↦ inr (λ e. cc, rw same agreed)
        | inr (inr (inr (askew, _, same))) ↦ inr (λ e. cc, rw same agreed)
      ]
