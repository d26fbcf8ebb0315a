-- ===== src/Storage/Commit.antt =====
-- controller/src/storage.c, `voxor_commit`: the byte that tells a reader which copy is current.
use Prim.Native.Nat.{bit_xor}
use segling.Prelude.{
  ℕ, zero, suc, ◌+◌, ◌*◌, ◌/◌, ◌%◌, ◌<◌, ◌≡◌, ◌≢◌, ◌⊎◌, inl, inr, refl, sym, ap, Bool, true, false,
  if◌then◌else◌, ◌&&◌, List, [], ◌∷◌, length, set, get_or, get_or-set_self, get_or-set_ne,
  length-set, ◌==◌, arith,
}
use segling.Storage.{voxor_commit, storage_file_size, storage_max_files, storage_state_map_bytes}

-- The exclusive or with 1 swaps the bytes 2k and 2k + 1.
swaps : ℕ → Bool
swaps k = bit_xor (k * 2) 1 == k * 2 + 1 && bit_xor (k * 2 + 1) 1 == k * 2

first_pairs : ℕ → Bool
first_pairs zero = true
first_pairs (suc n) = if swaps n then first_pairs n else false

swaps-at : (n k : ℕ) → k < n → first_pairs n ≡ true → swaps k ≡ true
unfolding first_pairs
swaps-at zero k below all = absurd (omega arith)
swaps-at (suc n) k below all = ground (arith, swaps-at n k)

byte_pairs : first_pairs 128 ≡ true
unfolding first_pairs swaps
byte_pairs = refl

pair-bit_xor : (k : ℕ) → k < 128 → (bit_xor (k * 2) 1 ≡ k * 2 + 1) × (bit_xor (k * 2 + 1) 1 ≡ k * 2)
unfolding swaps
pair-bit_xor k below = let both = swaps-at 128 k below byte_pairs in (ground arith, ground arith)

pub bit_xor-byte :
    (x : ℕ)
    → x < 256
    → (bit_xor (bit_xor x 1) 1 ≡ x) × ((bit_xor x 1 + x) % 2 ≡ 1) × (bit_xor x 1 < 256)
bit_xor-byte x below =
    let k = x / 2 in
    let (even, odd) = pair-bit_xor k (omega arith) in
    let parity : (x ≡ k * 2) ⊎ (x ≡ k * 2 + 1) = omega arith in
    elim parity [
      | inl e ↦ rw (e, even, odd) (refl, omega arith, omega arith)
      | inr e ↦ rw (e, odd, even) (refl, omega arith, omega arith)
    ]

set-get_or : (xs : List ℕ) (i : ℕ) → set xs i (get_or xs i 0) ≡ xs
set-get_or [] i = refl
set-get_or (x ∷ xs) zero = refl
set-get_or (x ∷ xs) (suc i) = ap (λ ys. x ∷ ys) (set-get_or xs i)

set-set : (xs : List ℕ) (i v w : ℕ) → set (set xs i v) i w ≡ set xs i w
set-set [] i v w = refl
set-set (x ∷ xs) zero v w = refl
set-set (x ∷ xs) (suc i) v w = ap (λ ys. x ∷ ys) (set-set xs i v w)

module _ (state : List ℕ) (slot_id : ℕ) (mapped : length state ≡ storage_state_map_bytes)
    (slot : slot_id < storage_max_files)
    (byte : get_or state (slot_id * storage_file_size) 0 < 256) where
  -- A commit of a slot of the mapped state changes the parity of the slot's first byte, keeps every
  -- other byte and the length of the state, and a second commit of the slot undoes it.
  pub voxor_commit_lem :
      (j : ℕ)
      → j ≢ slot_id * storage_file_size
      → let base = slot_id * storage_file_size in
        let committed = voxor_commit state slot_id in
        ((get_or committed base 0 + get_or state base 0) % 2 ≡ 1)
        × (get_or committed j 0 ≡ get_or state j 0)
        × (length committed ≡ length state)
        × (voxor_commit committed slot_id ≡ state)
  unfolding voxor_commit
  voxor_commit_lem j other =
      let base = slot_id * storage_file_size in
      let old = get_or state base 0 in
      let new = bit_xor old 1 in
      let xor = bit_xor-byte old byte in
      let here = get_or-set_self state base new 0 (omega arith) in
      (
        rw here xor.1,
        get_or-set_ne state new 0 (λ e. other (sym e)),
        length-set state base new,
        rw (here, set-set, xor.0) (set-get_or state base),
      )
