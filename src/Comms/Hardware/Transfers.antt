-- ===== src/Comms/Hardware/Transfers.antt =====
-- controller/src/comms_hardware.c: when the bus is used, and with which messages.
use segling.Prelude.{
  ℕ, suc, ◌%◌, ◌^◌, ◌≤◌, ◌<◌, ◌≡◌, ◌⊎◌, inl, inr, refl, Bool, true, false, Bool-cases, Option, none,
  some, List, [], ◌∷◌, length, arith,
}
use segling.Prelude.Int.{pos, ltb_ℤ, ◌≤ℤ◌}
use segling.Comms.{CommsResult, Comms}
use segling.Comms.Hardware.{
  Message, Bus, refused, comms_init, comms_deinit, comms_read_i2c, comms_write_i2c,
}

-- What a write needs: a bus that is up, and 1 to 128 bytes.
abbrev pub CanWrite : Comms → List ℕ → Type 0
CanWrite comms bytes =
    (comms.initialized ≡ true) × (pos 0 ≤ℤ comms.i2c_fd) × (1 ≤ length bytes) × (length bytes ≤ 128)

module _ (bus : Bus) where
  open bus use {W, transfer}

  -- A write either sends exactly one message, the register and then the data, whose length is the
  -- whole one and fits the buffer of 129 bytes, and fails exactly where the transfer does; or the
  -- bus is down or the size is not between 1 and 128, and it fails without using the bus.
  pub comms_write_i2c_lem :
      (comms : Comms) (address reg : ℕ) (bytes : List ℕ) (w : W)
      → let out = comms_write_i2c bus (some comms) address reg (some bytes) w in
        let message : Message = record {
          addr = address;
          reads = false;
          len = suc (length bytes);
          buf = reg ∷ bytes;
        } in
        let sent = transfer comms.i2c_fd (message ∷ []) w in
        (CanWrite comms bytes
          × (suc (length bytes) ≤ 129)
          × (out.1 ≡ sent.2)
          × ((ltb_ℤ sent.0 (pos 0) ≡ true) × (out.0 ≡ CommsResult.error_write_failed)
              ⊎ (ltb_ℤ sent.0 (pos 0) ≡ false) × (out.0 ≡ CommsResult.ok)))
        ⊎ (((comms.initialized ≡ false)
              ⊎ (ltb_ℤ comms.i2c_fd (pos 0) ≡ true)
              ⊎ (length bytes ≡ 0)
              ⊎ (128 < length bytes))
            × (out ≡ (CommsResult.error_write_failed, w)))
  unfolding comms_write_i2c refused
  comms_write_i2c_lem comms address reg bytes w =
      elim (Bool-cases (refused comms true (length bytes))) [
        | inl bad ↦ rw bad (inr (ground arith, refl))
        | inr good ↦
            let fits : CanWrite comms bytes = ground arith in
            let whole : suc (length bytes) % 2 ^ 16 ≡ suc (length bytes) = omega arith in
            rw (good, whole) (inl (fits, omega arith, refl, ground arith))
      ]

  -- After an opening, whatever it gave, and a close, reads and writes fail without using the bus.
  pub closed_bus_silent :
      (comms : Option Comms) (address reg size : ℕ) (has_data : Bool) (bytes : Option (List ℕ))
      (w w' : W)
      → let down = (comms_deinit bus (comms_init bus comms w).1 w').1 in
        (comms_read_i2c bus down address reg has_data size w'
          ≡ (CommsResult.error_read_failed, [], w'))
        × (comms_write_i2c bus down address reg bytes w' ≡ (CommsResult.error_write_failed, w'))
  unfolding comms_init comms_deinit comms_read_i2c comms_write_i2c refused
  closed_bus_silent none address reg size has_data bytes w w' = (refl, refl)
  closed_bus_silent (some comms) address reg size has_data none w w' = ground arith
  closed_bus_silent (some comms) address reg size has_data (some bytes) w w' = ground arith
