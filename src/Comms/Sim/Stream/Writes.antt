-- ===== src/Comms/Sim/Stream/Writes.antt =====
-- controller/src/comms_sim.c: a write to a simulated device, and a read of what it wrote.
use segling.Prelude.{
  ℕ, suc, ◌+◌, ◌-◌, ◌*◌, ◌≤◌, ◌<◌, ◌≡◌, ◌⊎◌, inl, inr, refl, sym, ap, ◌∙◌, true, false, some, List,
  ◌∷◌, overwrite, take, drop, length, take-drop-overwrite, take-overwrite, drop-overwrite,
  drop-overwrite_ge, ◌==◌, ==_iff, if◌then◌else◌, arith,
}
use segling.Comms.{CommsResult}
use segling.Comms.Sim.{Stdio, Device, is_ok, frame_offset, sim_seek_frame_reg, outside_frame}
use segling.Comms.Sim.Access.{read_frame, read_device, write_frame, write_device}
use segling.Comms.Sim.Frames.{mul_mono, inside_of_not_outside}
use segling.Comms.Sim.Stream.{FileLaws, frames, file_bytes, stream}
use segling.Comms.Sim.Stream.Serves.{read_device-eq}
use segling.Comms.Sim.Stream.Refine.{frames-next, read_frame_open}

module _ (io : Stdio) (laws : FileLaws io) where
  open io use {W}

  -- A write is refused, or it comes to a write of the current frame.
  write_device-cases :
      (device : Device) (reg : ℕ) (bytes : List ℕ) (w : W)
      → reg < 256
      → let out = write_device io device reg bytes w in
        let framed = write_frame io device reg bytes w in
        (is_ok out.0 ≡ false)
        ⊎ ((device.line_index < device.frame_count)
            × (device.start_reg ≤ reg)
            × ((reg - device.start_reg) + length bytes ≤ device.frame_len)
            × (out ≡ (framed.0, device, framed.1))
            × (device.disconnected ≡ false)
            × (outside_frame device reg (length bytes) ≡ false))
  unfolding write_device is_ok
  write_device-cases device reg bytes w small =
      ground (arith, inside_of_not_outside io device reg (length bytes) small)

  -- `write_frame` of an open file, with its two failures side by side.
  write_frame_open :
      (file : ℕ) (device : Device) (reg : ℕ) (bytes : List ℕ) (w : W)
      → device.file ≡ some file
      → device.start_reg ≤ reg
      → let (found, w1) = io.fseek_set file (frame_offset device reg) w in
        let (written, w2) = io.fwrite file bytes w1 in
        write_frame io device reg bytes w ≡ (
          if found
          then if written == length bytes
            then (CommsResult.ok, w2)
            else (CommsResult.error_write_failed, w2)
          else (CommsResult.error_read_failed, w1))
  unfolding write_frame is_ok sim_seek_frame_reg
  write_frame_open file device reg bytes w opened above = ground arith

  -- A write that succeeds was whole, at the place of the register in the current frame, and leaves the
  -- device as it is.
  write_frame_ok :
      (file : ℕ) (device : Device) (reg : ℕ) (bytes : List ℕ) (w : W)
      → device.file ≡ some file
      → device.start_reg ≤ reg
      → let (found, w1) = io.fseek_set file (frame_offset device reg) w in
        let (written, w2) = io.fwrite file bytes w1 in
        let out = write_frame io device reg bytes w in
        (is_ok out.0 ≡ false) ⊎ ((found ≡ true) × (written ≡ length bytes) × (out.1 ≡ w2))
  unfolding is_ok
  write_frame_ok file device reg bytes w opened above =
      rw (write_frame_open file device reg bytes w opened above) (ground arith)

  -- The file has its frames whole.
  inside_file :
      (device : Device) (reg size : ℕ) (contents : List ℕ)
      → device.line_index < device.frame_count
      → (reg - device.start_reg) + size ≤ device.frame_len
      → length contents ≡ device.frame_count * device.frame_len
      → frame_offset device reg + size ≤ length contents
  inside_file device reg size contents early inside whole =
      omega
        (arith, whole, mul_mono (suc device.line_index) device.frame_count device.frame_len early)

  -- A read of the frame, where the file can be sought and gives as many bytes, gives the file's bytes
  -- from the place of the register on.
  read_frame_whole :
      (file : ℕ) (device : Device) (reg size : ℕ) (w : W)
      → device.file ≡ some file
      → device.start_reg ≤ reg
      → (io.fseek_set file (frame_offset device reg) w).0 ≡ true
      → length (io.fread file size (io.fseek_set file (frame_offset device reg) w).1).0 ≡ size
      → let out = read_frame io device reg size w in
        (out.0 ≡ CommsResult.ok)
        × (out.1 ≡ take size (drop (frame_offset device reg) (laws.contents file w)))
  read_frame_whole file device reg size w opened above found full =
      let got = laws.fread_lem file (frame_offset device reg) size w found full in
      let counted : (length (io.fread file size (io.fseek_set file (frame_offset device reg) w).1).0
            == size)
          ≡ true =
        (==_iff _ _).1 full in
      rw (read_frame_open io laws file device reg size w opened above, found, counted) (refl, got)

  -- A write into the first frame of the queue: the frames behind it stay.
  abbrev pub Rewrites : Device → ℕ → List ℕ → W → Device → W → Type 0
  Rewrites device reg bytes w device' w' =
      (frame : List ℕ) × (rest : List (List ℕ)) × (stream io laws device w ≡ frame ∷ rest)
      × (stream io laws device' w' ≡ overwrite frame (reg - device.start_reg) bytes ∷ rest)

  stream-Rewrites :
      (file : ℕ) (device : Device) (reg : ℕ) (bytes : List ℕ) (w w' : W)
      → device.file ≡ some file
      → device.line_index < device.frame_count
      → (reg - device.start_reg) + length bytes ≤ device.frame_len
      → laws.contents file w' ≡ overwrite (laws.contents file w) (frame_offset device reg) bytes
      → Rewrites device reg bytes w device w'
  unfolding stream file_bytes
  stream-Rewrites file device reg bytes w w' opened early inside put =
      let len = device.frame_len in
      let line = device.line_index in
      let place = reg - device.start_reg in
      let old = laws.contents file w in
      let new = overwrite old (frame_offset device reg) bytes in
      let behind : line * len + place + length bytes ≤ suc line * len = omega arith in
      (
        take len (drop (line * len) old),
        frames len (device.frame_count - suc line) (drop (suc line * len) old),
        rw opened (frames-next len device.frame_count line old early),
        rw (opened, put)
            (frames-next len device.frame_count line new early
              ∙ ap (λ f. f ∷ frames len (device.frame_count - suc line) (drop (suc line * len) new))
                  (ap (take len) (drop-overwrite (line * len) old place bytes)
                    ∙ take-overwrite len (drop (line * len) old) place bytes)
              ∙ ap
                  (λ bs.
                    overwrite (take len (drop (line * len) old)) place bytes
                    ∷ frames len (device.frame_count - suc line) bs)
                  (drop-overwrite_ge (suc line * len) old (line * len + place) bytes behind)),
      )

  -- On a device whose file has whole frames, a write that succeeds leaves the device as it is and
  -- replaces the bytes of the first frame of its queue, at the place of the register, and no other
  -- frame; and a read of the same registers behind it, where the file can be sought and gives as many
  -- bytes, succeeds and gives the bytes that were written.
  pub write-read :
      (file : ℕ) (device : Device) (reg : ℕ) (bytes : List ℕ) (w : W)
      → device.file ≡ some file
      → length (laws.contents file w) ≡ device.frame_count * device.frame_len
      → reg < 256
      → is_ok (write_device io device reg bytes w).0 ≡ true
      → (io.fseek_set file (frame_offset device reg) (write_device io device reg bytes w).2).0
        ≡ true
      → length
          (io.fread file
            (length bytes)
            (io.fseek_set file
              (frame_offset device reg)
              (write_device io device reg bytes w).2).1).0
        ≡ length bytes
      → let (_, device', w') = write_device io device reg bytes w in
        let out = read_device io device' reg (length bytes) w' in
        (device' ≡ device)
        × Rewrites device reg bytes w device' w'
        × (out.0 ≡ CommsResult.ok)
        × (out.1 ≡ bytes)
  write-read file device reg bytes w opened whole small done again full =
      elim (write_device-cases device reg bytes w small) [
        | inl failed ↦ absurd (cc (failed, done))
        | inr (early, above, inside, e, here, within) ↦
            elim (write_frame_ok file device reg bytes w opened above) [
              | inl failed ↦ absurd (cc (ap (λ out. is_ok out.0) e, failed, done))
              | inr (found, written, state) ↦
                  let offset = frame_offset device reg in
                  let w' = (write_device io device reg bytes w).2 in
                  let landed : (write_frame io device reg bytes w).1 ≡ w' =
                    ap (λ out. out.2) (sym e) in
                  let fits =
                    inside_file device reg (length bytes) (laws.contents file w) early inside
                      whole in
                  let put =
                    ap (laws.contents file) (sym landed ∙ state)
                    ∙ laws.contents-fwrite file offset bytes w fits found written in
                  let read =
                    read_frame_whole file device reg (length bytes) w' opened above again full in
                  let kept = ap (λ out. out.1) e in
                  rw (kept, read_device-eq io device reg (length bytes) w' here early above within)
                    (
                      refl,
                      stream-Rewrites file device reg bytes w w' opened early inside put,
                      read.0,
                      read.1
                          ∙ ap (λ bs. take (length bytes) (drop offset bs)) put
                          ∙ take-drop-overwrite (laws.contents file w) offset bytes fits,
                    )
            ]
      ]
