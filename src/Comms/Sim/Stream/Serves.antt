-- ===== src/Comms/Sim/Stream/Serves.antt =====
-- controller/src/comms_sim.c: what a read of a device may fail for.
use segling.Prelude.{
  ℕ, ◌+◌, ◌-◌, ◌≤◌, ◌<◌, ◌≡◌, ◌⊎◌, inl, inr, refl, true, false, Bool-cases, some, length, ◌==◌,
  arith,
}
use segling.Comms.Sim.{Stdio, Device, is_ok, frame_offset, outside_frame}
use segling.Comms.Sim.Access.{read_frame, read_device}
use segling.Comms.Sim.Stream.{FileLaws}
use segling.Comms.Sim.Stream.Refine.{read_frame_open}

lt_or_ge_ℕ : (a b : ℕ) → (a < b) ⊎ (b ≤ a)
lt_or_ge_ℕ a b = omega arith

module _ (io : Stdio) where
  open io use {W}

  -- What keeps a device from serving a read: it is gone, it has no frame left, the registers do not lie
  -- in the frame or are more than 128 bytes, or the file cannot be sought or gives another number
  -- of bytes.
  abbrev pub Hinders : Device → ℕ → ℕ → W → Type 0
  Hinders device reg size w =
      (device.disconnected ≡ true)
      ⊎ (device.frame_count ≤ device.line_index)
      ⊎ (reg < device.start_reg)
      ⊎ (device.frame_len < (reg - device.start_reg) + size)
      ⊎ (128 < size)
      ⊎ ((file : ℕ) × (device.file ≡ some file)
          × (((io.fseek_set file (frame_offset device reg) w).0 ≡ false)
              ⊎ ((length (io.fread file size (io.fseek_set file (frame_offset device reg) w).1).0
                    == size)
                  ≡ false)))

  -- A read that nothing refuses is one of the current frame.
  pub read_device-eq :
      (device : Device) (reg size : ℕ) (w : W)
      → device.disconnected ≡ false
      → device.line_index < device.frame_count
      → device.start_reg ≤ reg
      → outside_frame device reg size ≡ false
      → read_device io device reg size w ≡ read_frame io device reg size w
  unfolding read_device
  read_device-eq device reg size w here early above fits = ground arith

  outside_frame-cases :
      (device : Device) (reg size : ℕ)
      → (outside_frame device reg size ≡ false)
        ⊎ (device.frame_len < (reg - device.start_reg) + size)
        ⊎ (128 < size)
  unfolding outside_frame
  outside_frame-cases device reg size = ground arith

module _ (io : Stdio) (laws : FileLaws io) where
  open io use {W}

  read_frame-serves :
      (file : ℕ) (device : Device) (reg size : ℕ) (w : W)
      → device.file ≡ some file
      → device.start_reg ≤ reg
      → (is_ok (read_frame io device reg size w).0 ≡ true) ⊎ Hinders io device reg size w
  unfolding is_ok
  read_frame-serves file device reg size w opened above =
      let (found, w1) = io.fseek_set file (frame_offset device reg) w in
      rw (read_frame_open io laws file device reg size w opened above) (elim (Bool-cases found) [
        | inl good ↦ elim (Bool-cases (length (io.fread file size w1).0 == size)) [
          | inl full ↦ rw (good, full) (inl refl)
          | inr short ↦ inr (inr (inr (inr (inr (inr (file, opened, inr short))))))
        ]
        | inr lost ↦ inr (inr (inr (inr (inr (inr (file, opened, inl lost))))))
      ])

  -- A device serves a read, or something hinders it.
  pub read_device-serves :
      (file : ℕ) (device : Device) (reg size : ℕ) (w : W)
      → device.file ≡ some file
      → (is_ok (read_device io device reg size w).0 ≡ true) ⊎ Hinders io device reg size w
  read_device-serves file device reg size w opened = elim (Bool-cases device.disconnected) [
    | inl gone ↦ inr (inl gone)
    | inr here ↦ elim (lt_or_ge_ℕ device.line_index device.frame_count) [
      | inr ended ↦ inr (inr (inl ended))
      | inl early ↦ elim (lt_or_ge_ℕ reg device.start_reg) [
        | inl below ↦ inr (inr (inr (inl below)))
        | inr above ↦ elim (outside_frame-cases io device reg size) [
          | inr (inl past) ↦ inr (inr (inr (inr (inl past))))
          | inr (inr long) ↦ inr (inr (inr (inr (inr (inl long)))))
          | inl fits ↦
              rw (read_device-eq io device reg size w here early above fits)
                (read_frame-serves file device reg size w opened above)
        ]
      ]
    ]
  ]
