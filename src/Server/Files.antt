-- ===== src/Server/Files.antt =====
-- interface/internal/storage/storage.go: `ensureFileSized`, `Open` and `Close`.
use segling.Prelude.{ℕ, Bool, Option, none, some, List, ltb, if◌then◌else◌}
use segling.Server.{total_size, commands_map_size}
use segling.Server.Shared.{Store}

-- The errors that the functions pass on, by the call that fails.
pub data Failure : Type 0 where
  open_failed stat_failed truncate_failed close_failed map_failed unmap_failed : Failure

-- The flags of `os.OpenFile` that the source uses.
pub data Access : Type 0 where
  read_only read_write read_write_create : Access

-- os.OpenFile, the Size of File.Stat, File.Truncate and File.Close; mmap.Map of a whole file, which is
-- read-only or not, and Unmap. A failure is `none` or `false`.
pub record Os : Type 1 where
  pub W : Type 0
  pub open_file : List ℕ → Access → W → Option ℕ × W
  pub stat_size : ℕ → W → Option ℕ × W
  pub truncate : ℕ → ℕ → W → Bool × W
  pub close_file : ℕ → W → Bool × W
  pub map_file : ℕ → Access → W → Option ℕ × W
  pub unmap : ℕ → W → Bool × W

-- Go's pair of a value and one of these errors.
pub data Attempt {ℓ} (A : Type ℓ) : Type ℓ where
  ok : A → Attempt A
  err : Failure → Attempt A

module _ (os : Os) where
  open os use {W, open_file, stat_size, truncate, close_file, map_file, unmap}

  -- `return f.Close()`
  unfoldable pub close_result : ℕ → W → Option Failure × W
  close_result fd w =
      let (closed, w1) = close_file fd w in (if closed then none else some Failure.close_failed, w1)

  unfoldable pub size_file : ℕ → ℕ → Option ℕ → W → Option Failure × W
  size_file fd min_bytes none w = (some Failure.stat_failed, (close_file fd w).1)
  size_file fd min_bytes (some size) w =
      if ltb size min_bytes
      then (let (grown, w1) = truncate fd min_bytes w in
          if grown
          then close_result fd w1
          else (some Failure.truncate_failed, (close_file fd w1).1))
      else close_result fd w

  unfoldable pub size_opened : ℕ → Option ℕ → W → Option Failure × W
  size_opened min_bytes none w = (some Failure.open_failed, w)
  size_opened min_bytes (some fd) w =
      let (size, w1) = stat_size fd w in size_file fd min_bytes size w1

  unfoldable pub ensure_file_sized : List ℕ → ℕ → W → Option Failure × W
  ensure_file_sized path min_bytes w =
      let (opened, w1) = open_file path Access.read_write_create w in
      size_opened min_bytes opened w1

  abbrev pub mapped_result : Option ℕ → Attempt ℕ
  mapped_result none = err Failure.map_failed
  mapped_result (some address) = ok address

  -- The map of a file that `Open` has opened, which it closes again whether it could be mapped or not.
  unfoldable pub map_opened : Access → Option ℕ → W → Attempt ℕ × W
  map_opened access none w = (err Failure.open_failed, w)
  map_opened access (some fd) w =
      let (mapped, w1) = map_file fd access w in (mapped_result mapped, (close_file fd w1).1)

  unfoldable pub map_path : List ℕ → Access → W → Attempt ℕ × W
  map_path path access w = let (opened, w1) = open_file path access w in map_opened access opened w1

  -- The end of `Open`, from the maps that it has got.
  unfoldable pub opened_store : List ℕ → List ℕ → ℕ → Attempt ℕ → W → Attempt Store × W
  opened_store state_path commands_path state_reg (err e) w = (err e, (unmap state_reg w).1)
  opened_store state_path commands_path state_reg (ok cmd_reg) w = (
    ok record {
      state_path = state_path;
      commands_path = commands_path;
      state = some state_reg;
      commands = some cmd_reg;
    },
    w,
  )

  unfoldable pub open_commands : List ℕ → List ℕ → Attempt ℕ → W → Attempt Store × W
  open_commands state_path commands_path (err e) w = (err e, w)
  open_commands state_path commands_path (ok state_reg) w =
      let (cmd_reg, w1) = map_path commands_path Access.read_write w in
      opened_store state_path commands_path state_reg cmd_reg w1

  -- `Open` once state.bin, and then commands.bin, has its size or an error came.
  unfoldable pub open_sized : List ℕ → List ℕ → Option Failure → W → Attempt Store × W
  open_sized state_path commands_path (some e) w = (err e, w)
  open_sized state_path commands_path none w =
      let (state_reg, w1) = map_path state_path Access.read_only w in
      open_commands state_path commands_path state_reg w1

  unfoldable pub size_commands : List ℕ → List ℕ → Option Failure → W → Attempt Store × W
  size_commands state_path commands_path (some e) w = (err e, w)
  size_commands state_path commands_path none w =
      let (short, w1) = ensure_file_sized commands_path commands_map_size w in
      open_sized state_path commands_path short w1

  unfoldable pub open_store : List ℕ → List ℕ → W → Attempt Store × W
  open_store state_path commands_path w =
      let (short, w1) = ensure_file_sized state_path total_size w in
      size_commands state_path commands_path short w1

  -- One of the two regions of `Close`.
  unfoldable pub unmap_region : Option ℕ → W → Option Failure × W
  unmap_region none w = (none, w)
  unmap_region (some address) w =
      let (done, w1) = unmap address w in (if done then none else some Failure.unmap_failed, w1)

  abbrev pub first_failure : Option Failure → Option Failure → Option Failure
  first_failure none second = second
  first_failure (some e) second = some e

  unfoldable pub close_store : Store → W → Option Failure × Store × W
  close_store s w =
      let (err_state, w1) = unmap_region s.state w in
      let (err_commands, w2) = unmap_region s.commands w1 in
      (first_failure err_state err_commands, record s { state = none; commands = none }, w2)
