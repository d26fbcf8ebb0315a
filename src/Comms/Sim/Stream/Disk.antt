-- ===== src/Comms/Sim/Stream/Disk.antt =====
-- controller/src/comms_sim.c: what stdio documents of a file of the disk that can be served.
use segling.Prelude.{ℕ, ◌+◌, ◌≤◌, ◌≡◌, Bool, true, Option, some, List, length}
use segling.Prelude.Int.{pos}
use segling.Comms.Sim.{Stdio}
use segling.Comms.Sim.Stream.{FileLaws}

-- Any call on a file may fail, so the facts are about the files of `disk`, which open and of which
-- no seek or read makes an error: `healthy` says that an open file is one of these. Its size is
-- found, and a range within it can be sought and is read whole.
pub record DiskLaws (io : Stdio) (laws : FileLaws io) : Type 0 where
  pub disk : List ℕ → io.W → Option (List ℕ)
  pub healthy : ℕ → io.W → Bool
  pub fopen_lem :
      (path bytes : List ℕ) (w : io.W)
      → disk path w ≡ some bytes
      → (file : ℕ) × ((io.fopen path w).0 ≡ some file)
        × (laws.contents file (io.fopen path w).1 ≡ bytes)
        × (healthy file (io.fopen path w).1 ≡ true)
  pub size_lem :
      (file : ℕ) (w : io.W)
      → healthy file w ≡ true
      → let (found, w1) = io.fseek_end file w in
        let (size, w2) = io.ftell file w1 in
        (found ≡ true)
        × (size ≡ pos (length (laws.contents file w)))
        × (laws.contents file w2 ≡ laws.contents file w)
        × (healthy file w2 ≡ true)
  pub read_lem :
      (file offset size : ℕ) (w : io.W)
      → healthy file w ≡ true
      → offset + size ≤ length (laws.contents file w)
      → let (found, w1) = io.fseek_set file offset w in
        let (bytes, w2) = io.fread file size w1 in
        (found ≡ true) × (length bytes ≡ size) × (healthy file w2 ≡ true)
