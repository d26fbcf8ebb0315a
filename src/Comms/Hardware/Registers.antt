-- ===== src/Comms/Hardware/Registers.antt =====
-- controller/src/comms_hardware.c with a device that is a bank of registers.
use segling.Prelude.{ℕ, suc, ◌≡◌, true, false, List, [], ◌∷◌, take, drop, length, overwrite}
use segling.Prelude.Int.{ℤ, pos, ltb_ℤ}
use segling.Comms.{Comms}
use segling.Comms.Hardware.{Bus}

-- The registers behind an address of the bus. A transfer that succeeds writes the bytes behind the
-- first one from the register on that this one names; with a second message that reads, it gives
-- the registers from there on.
pub record RegisterLaws (bus : Bus) : Type 0 where
  pub registers : ℕ → bus.W → List ℕ
  pub transfer_write :
      (fd : ℤ) (address reg len : ℕ) (bytes : List ℕ) (w : bus.W)
      → len ≡ suc (length bytes)
      → let (code, _, w1) =
          bus.transfer fd
            (record { addr = address; reads = false; len = len; buf = reg ∷ bytes } ∷ [])
            w in
        ltb_ℤ code (pos 0) ≡ false
        → registers address w1 ≡ overwrite (registers address w) reg bytes
  pub transfer_read :
      (fd : ℤ) (address reg len : ℕ) (w : bus.W)
      → let (code, bytes, w1) =
          bus.transfer fd
            (record { addr = address; reads = false; len = 1; buf = reg ∷ [] }
              ∷ record { addr = address; reads = true; len = len; buf = [] }
              ∷ [])
            w in
        ltb_ℤ code (pos 0) ≡ false → bytes ≡ take len (drop reg (registers address w))
