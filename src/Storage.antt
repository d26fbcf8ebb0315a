-- ===== src/Storage.antt =====
-- controller/src/storage.c and controller/include/controller/storage.h: the memory that the Go
-- backend reads, as a list of bytes.
pub mod Commit
pub mod Mapped
use Prim.Native.Nat.{bit_xor}
use segling.Prelude.{ℕ, ◌+◌, ◌*◌, ◌%◌, ◌^◌, Option, none, some, List, set, get_or}

-- `storage_result_t`
pub data StorageResult : Type 0 where
  ok error_unknown error_load_failed : StorageResult

-- `storage_t`: the address of the mapped state. No function of storage.c reads or writes it.
pub record Storage : Type 0 where
  pub state : ℕ

-- STORAGE_MAX_FILES, STORAGE_FILE_SIZE and STORAGE_STATE_MAP_BYTES
abbrev pub storage_max_files : ℕ
storage_max_files = 16

abbrev pub storage_file_size : ℕ
storage_file_size = 128

abbrev pub storage_state_map_bytes : ℕ
storage_state_map_bytes = storage_max_files * storage_file_size

-- The exclusive or of the first byte of a slot with 1, on the bytes of the mapped state.
unfoldable pub voxor_commit : List ℕ → ℕ → List ℕ
voxor_commit state slot_id =
    let slot_base = slot_id * storage_file_size in
    set state slot_base (bit_xor (get_or state slot_base 0) 1)

-- The system calls of `mmap_rw`: `open` gives a descriptor or fails, `mmap` gives an address or
-- fails, and `close` is made on every path that has opened the file.
pub record Mapping (W : Type 0) : Type 0 where
  pub open_file : List ℕ → W → Option ℕ × W
  pub map_file : ℕ → ℕ → W → Option ℕ × W
  pub close_file : ℕ → W → W

module _ {W : Type 0} (os : Mapping W) where
  open os use {open_file, map_file, close_file}

  mmap_opened : Option ℕ → ℕ → ℕ → W → StorageResult × ℕ × W
  mmap_opened none len out w = (StorageResult.error_load_failed, out, w)
  mmap_opened (some fd) len out w =
      let (p, w1) = map_file fd len w in
      elim p [
        | none ↦ (StorageResult.error_load_failed, out, close_file fd w1)
        | some address ↦ (StorageResult.ok, address, close_file fd w1)
      ]

  -- The last result is what `*out` holds when the call returns.
  unfoldable pub mmap_rw : List ℕ → ℕ → ℕ → W → StorageResult × ℕ × W
  unfolding mmap_opened
  mmap_rw path len out w = let (fd, w1) = open_file path w in mmap_opened fd len out w1

-- The functions of the interface: each returns STORAGE_RESULT_OK and does nothing else.
unfoldable pub storage_init : Storage → StorageResult × Storage
storage_init storage = (StorageResult.ok, storage)

unfoldable pub storage_write : Storage → ℕ → List ℕ → StorageResult × Storage
storage_write storage slot_id bytes = (StorageResult.ok, storage)

-- The list is what the buffer holds when the call returns.
unfoldable pub storage_read : Storage → ℕ → List ℕ → StorageResult × List ℕ
storage_read storage slot_id bytes = (StorageResult.ok, bytes)

unfoldable pub storage_commit : Storage → ℕ → StorageResult × Storage
storage_commit storage slot_id = (StorageResult.ok, storage)
