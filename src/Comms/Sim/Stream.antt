-- ===== src/Comms/Sim/Stream.antt =====
-- controller/src/comms_sim.c, seen from outside: a simulated device is a queue of frames, those of
-- its file from the current one on. What stdio documents of seeks, reads and writes of an open file
-- is a record of facts that the theorems take as a hypothesis.
pub mod Disk
pub mod Refine
pub mod Serves
pub mod Bus
pub mod Ready
pub mod Drain
pub mod Writes
pub mod Fresh
use segling.Prelude.{
  ℕ, zero, suc, ◌+◌, ◌-◌, ◌*◌, ◌≤◌, ◌≡◌, ◌≢◌, true, Option, none, some, List, [], ◌∷◌, take, drop,
  length, overwrite,
}
use segling.Comms.Sim.{Stdio, Device}

-- Each open file has its bytes, which only a write changes. After a seek that succeeds, a read that
-- gives as many bytes as are asked for gives those that stand there; and a write that is whole, and
-- does not reach past the end of the file, puts its bytes there.
pub record FileLaws (io : Stdio) : Type 0 where
  pub contents : ℕ → io.W → List ℕ
  pub fread_lem :
      (file offset size : ℕ) (w : io.W)
      → (io.fseek_set file offset w).0 ≡ true
      → length (io.fread file size (io.fseek_set file offset w).1).0 ≡ size
      → (io.fread file size (io.fseek_set file offset w).1).0
        ≡ take size (drop offset (contents file w))
  pub contents-fseek_set :
      (other file offset : ℕ) (w : io.W)
      → contents other (io.fseek_set file offset w).1 ≡ contents other w
  pub contents-fread :
      (other file size : ℕ) (w : io.W) → contents other (io.fread file size w).1 ≡ contents other w
  pub contents-fwrite :
      (file offset : ℕ) (bytes : List ℕ) (w : io.W)
      → offset + length bytes ≤ length (contents file w)
      → (io.fseek_set file offset w).0 ≡ true
      → (io.fwrite file bytes (io.fseek_set file offset w).1).0 ≡ length bytes
      → contents file (io.fwrite file bytes (io.fseek_set file offset w).1).1
        ≡ overwrite (contents file w) offset bytes

-- The first `count` pieces of `len` bytes.
unfoldable pub frames : ℕ → ℕ → List ℕ → List (List ℕ)
frames len zero bytes = []
frames len (suc count) bytes = take len bytes ∷ frames len count (drop len bytes)

-- The queue that stands for a device: the frames that are left.
module _ (io : Stdio) (laws : FileLaws io) where
  open io use {W}

  unfoldable pub file_bytes : Option ℕ → W → List ℕ
  file_bytes none w = []
  file_bytes (some file) w = laws.contents file w

  unfoldable pub stream : Device → W → List (List ℕ)
  stream device w =
      frames device.frame_len (device.frame_count - device.line_index)
        (drop (device.line_index * device.frame_len) (file_bytes device.file w))

-- What a read of a register gives of a frame that starts at the register `start_reg`.
abbrev pub registers : ℕ → ℕ → ℕ → List ℕ → List ℕ
registers start_reg reg size frame = take size (drop (reg - start_reg) frame)
