-- ===== src/Tests/Lifetime.antt =====
-- Opening and closing the Go server's store on a concrete system.
use segling.Prelude.{
  ℕ, ◌≡◌, refl, Bool, true, false, ◌&&◌, ◌||◌, not, Option, none, some, List, [], ◌∷◌, ◌==◌,
  if◌then◌else◌, arith,
}
use segling.Server.{Error, Outcome}
use segling.Server.Shared.{Others, Memory, Store, read_snapshot, write_command}
use segling.Server.Files.{
  Access, Os, open_store, close_store, ensure_file_sized, size_opened, size_file, close_result,
  map_path, map_opened, opened_store, open_commands, open_sized, size_commands,
}
use segling.Server.Lifetime.{OsLaws, Same}
use segling.Server.Lifetime.Balance.{Leaves, open_store-Leaves, open-close}

-- One descriptor, 3, and room for two maps.
pub record State : Type 0 where
  pub file : Bool
  pub first : Bool
  pub second : Bool

abbrev open_one : List ℕ → Access → State → Option ℕ × State
open_one path access w = if w.file then (none, w) else (some 3, record w { file = true })

abbrev map_one : ℕ → Access → State → Option ℕ × State
map_one fd access w =
    if w.first
    then (if w.second then (none, w) else (some 8192, record w { second = true }))
    else (some 4096, record w { first = true })

abbrev is_mapped_one : ℕ → State → Bool
is_mapped_one address w = address == 4096 && w.first || address == 8192 && w.second

abbrev unmap_one : ℕ → State → Bool × State
unmap_one address w = (
  is_mapped_one address w,
  record w { first = w.first && not (address == 4096); second = w.second && not (address == 8192) },
)

abbrev small_os : Os
small_os = record {
  W = State;
  open_file = open_one;
  stat_size = λ fd w. (some 0, w);
  truncate = λ fd size w. (true, w);
  close_file = λ fd w. (true, record w { file = w.file && not (fd == 3) });
  map_file = map_one;
  unmap = unmap_one;
}

abbrev is_open_one : ℕ → State → Bool
is_open_one fd w = fd == 3 && w.file

open_one-some :
    (path : List ℕ) (access : Access) (fd : ℕ) (w : State)
    → (open_one path access w).0 ≡ some fd
    → (is_open_one fd w ≡ false)
      × ((other : ℕ)
          → is_open_one other (open_one path access w).1 ≡ (other == fd || is_open_one other w))
open_one-some path access fd w got = (ground arith, λ other. ground arith)

open_one-none :
    (path : List ℕ) (access : Access) (other : ℕ) (w : State)
    → (open_one path access w).0 ≡ none
    → is_open_one other (open_one path access w).1 ≡ is_open_one other w
open_one-none path access other w refused = ground arith

open_one_maps :
    (path : List ℕ) (access : Access) (other : ℕ) (w : State)
    → is_mapped_one other (open_one path access w).1 ≡ is_mapped_one other w
open_one_maps path access other w = ground arith

close_one :
    (fd other : ℕ) (w : State)
    → is_open_one fd w ≡ true
    → is_open_one other (record w { file = w.file && not (fd == 3) })
      ≡ (not (other == fd) && is_open_one other w)
close_one fd other w mine = ground arith

map_one_opens :
    (fd : ℕ) (access : Access) (other : ℕ) (w : State)
    → is_open_one other (map_one fd access w).1 ≡ is_open_one other w
map_one_opens fd access other w = ground arith

map_one-some :
    (fd : ℕ) (access : Access) (address : ℕ) (w : State)
    → (map_one fd access w).0 ≡ some address
    → (is_mapped_one address w ≡ false)
      × ((other : ℕ)
          → is_mapped_one other (map_one fd access w).1
            ≡ (other == address || is_mapped_one other w))
map_one-some fd access address w done = (ground arith, λ other. ground arith)

map_one-none :
    (fd : ℕ) (access : Access) (other : ℕ) (w : State)
    → (map_one fd access w).0 ≡ none
    → is_mapped_one other (map_one fd access w).1 ≡ is_mapped_one other w
map_one-none fd access other w failed = ground arith

unmap_one_maps :
    (address other : ℕ) (w : State)
    → is_mapped_one address w ≡ true
    → is_mapped_one other (unmap_one address w).1
      ≡ (not (other == address) && is_mapped_one other w)
unmap_one_maps address other w mine = ground arith

abbrev small_os_laws : OsLaws small_os
small_os_laws = record {
  is_open = is_open_one;
  is_mapped = is_mapped_one;
  open_some = open_one-some;
  open_none = open_one-none;
  open_maps = open_one_maps;
  stat_keeps = λ fd other w. (refl, refl);
  truncate_keeps = λ fd size other w. (refl, refl);
  close_lem = λ fd other w mine. (close_one fd other w mine, refl);
  map_opens = map_one_opens;
  map_some = map_one-some;
  map_none = map_one-none;
  unmap_lem = λ address other w mine. (mine, refl, unmap_one_maps address other w mine);
}

abbrev fresh : State
fresh = record { file = false; first = false; second = false }

abbrev state_path : List ℕ
state_path = 115 ∷ []

abbrev commands_path : List ℕ
commands_path = 99 ∷ []

abbrev opened : Store
opened = record {
  state_path = state_path;
  commands_path = commands_path;
  state = some 4096;
  commands = some 8192;
}

open_store-Leaves_example :
    Leaves small_os small_os_laws state_path commands_path fresh
      (open_store small_os state_path commands_path fresh)
open_store-Leaves_example = open_store-Leaves small_os small_os_laws state_path commands_path fresh

open-close_example :
    let (failed, closed, w2) =
      close_store small_os opened (open_store small_os state_path commands_path fresh).1 in
    (failed ≡ none)
    × Same small_os small_os_laws fresh w2
    × (close_store small_os closed w2 ≡ (none, closed, w2))
    × ((o : Others) (m : Memory o) → read_snapshot o closed m ≡ (Outcome.err Error.invalid, m))
    × ((o : Others) (cmd : ℕ) (m : Memory o)
        → write_command o closed cmd m ≡ (some Error.invalid, m))
unfolding open_store ensure_file_sized size_opened size_file close_result size_commands open_sized
    map_path map_opened open_commands opened_store
open-close_example = open-close small_os small_os_laws state_path commands_path opened fresh refl
