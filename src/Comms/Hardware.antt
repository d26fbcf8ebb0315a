-- ===== src/Comms/Hardware.antt =====
-- controller/src/comms_hardware.c: the I2C bus of the board. The system calls are a parameter.
pub mod Transfers
pub mod Registers
use segling.Prelude.{
  ℕ, suc, ◌+◌, ◌%◌, ◌^◌, Bool, true, false, ◌||◌, not, Option, none, some, List, [], ◌∷◌, length,
  ltb, ◌==◌, if◌then◌else◌,
}
use segling.Prelude.Int.{ℤ, pos, negsuc, ltb_ℤ}
use segling.Comms.{CommsResult, Comms, comms_buffer_size}

-- `struct i2c_msg`, with the bytes that it sends; a message that reads has the flag I2C_M_RD.
pub record Message : Type 0 where
  pub addr : ℕ
  pub reads : Bool
  pub len : ℕ
  pub buf : List ℕ

-- The system calls: `open` of I2C_DEVICE, `close`, and the `ioctl` I2C_RDWR of some messages, which
-- also gives the bytes that were read.
pub record Bus : Type 1 where
  pub W : Type 0
  pub open_bus : W → ℤ × W
  pub close_bus : ℤ → W → W
  pub transfer : ℤ → List Message → W → ℤ × List ℕ × W

-- The test of the arguments that a read and a write share.
unfoldable pub refused : Comms → Bool → ℕ → Bool
refused comms has_data size =
    not has_data
    || size == 0
    || ltb comms_buffer_size size
    || not comms.initialized
    || ltb_ℤ comms.i2c_fd (pos 0)

abbrev pub read_messages : ℕ → ℕ → ℕ → List Message
read_messages address reg size =
    record { addr = address; reads = false; len = 1; buf = reg ∷ [] }
    ∷ record { addr = address; reads = true; len = size % 2 ^ 16; buf = [] }
    ∷ []

abbrev pub write_messages : ℕ → ℕ → List ℕ → List Message
write_messages address reg bytes =
    record { addr = address; reads = false; len = suc (length bytes) % 2 ^ 16; buf = reg ∷ bytes }
    ∷ []

module _ (bus : Bus) where
  open bus use {W, open_bus, close_bus, transfer}

  unfoldable pub comms_init : Option Comms → W → CommsResult × Option Comms × W
  comms_init none w = (CommsResult.error_unknown, none, w)
  comms_init (some comms) w =
      let (fd, w1) = open_bus w in
      if ltb_ℤ fd (pos 0)
      then (
        CommsResult.error_read_failed,
        some (record { initialized = false; i2c_fd = negsuc 0 }),
        w1,
      )
      else (CommsResult.ok, some (record { initialized = true; i2c_fd = fd }), w1)

  unfoldable pub comms_deinit : Option Comms → W → CommsResult × Option Comms × W
  comms_deinit none w = (CommsResult.ok, none, w)
  comms_deinit (some comms) w =
      if not comms.initialized || ltb_ℤ comms.i2c_fd (pos 0)
      then (CommsResult.ok, some comms, w)
      else (
        CommsResult.ok,
        some (record { initialized = false; i2c_fd = negsuc 0 }),
        close_bus comms.i2c_fd w,
      )

  -- The Boolean says whether the buffer is there; the list is what is put in it.
  unfoldable pub comms_read_i2c : Option Comms → ℕ → ℕ → Bool → ℕ → W → CommsResult × List ℕ × W
  comms_read_i2c none address reg has_data size w = (CommsResult.error_read_failed, [], w)
  comms_read_i2c (some comms) address reg has_data size w =
      let (code, bytes, w1) = transfer comms.i2c_fd (read_messages address reg size) w in
      if refused comms has_data size
      then (CommsResult.error_read_failed, [], w)
      else (if ltb_ℤ code (pos 0) then CommsResult.error_read_failed else CommsResult.ok, bytes, w1)

  -- The data of a write are the `size` bytes at `data`; NULL is none.
  unfoldable pub comms_write_i2c : Option Comms → ℕ → ℕ → Option (List ℕ) → W → CommsResult × W
  comms_write_i2c (some comms) address reg (some bytes) w =
      let (code, _, w1) = transfer comms.i2c_fd (write_messages address reg bytes) w in
      if refused comms true (length bytes)
      then (CommsResult.error_write_failed, w)
      else (if ltb_ℤ code (pos 0) then CommsResult.error_write_failed else CommsResult.ok, w1)
  comms_write_i2c _ address reg _ w = (CommsResult.error_write_failed, w)
