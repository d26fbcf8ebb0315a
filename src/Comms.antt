-- ===== src/Comms.antt =====
-- controller/include/controller/comms.h: the types of the communication with I2C devices.
pub mod Sim
pub mod Hardware
use segling.Prelude.{ℕ, Bool}
use segling.Prelude.Int.{ℤ}

-- `comms_result_t`
pub data CommsResult : Type 0 where
  ok error_unknown error_read_failed error_write_failed : CommsResult

-- `comms_t`
pub record Comms : Type 0 where
  pub initialized : Bool
  pub i2c_fd : ℤ

-- COMMS_BUFFER_SIZE, as the Makefile sets it
abbrev pub comms_buffer_size : ℕ
comms_buffer_size = 128
