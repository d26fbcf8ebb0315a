-- ===== src/Comms/Sim/Stream/Refine.antt =====
-- controller/src/comms_sim.c: reads refine the queue of frames.
use segling.Prelude.{
  ℕ, suc, ◌+◌, ◌-◌, ◌*◌, ◌%◌, ◌≤◌, ◌<◌, ◌≡◌, ◌⊎◌, inl, inr, refl, sym, subst, ap, ◌∙◌, true, false,
  Bool-cases, some, List, [], ◌∷◌, take, drop, length, drop-drop, take-drop-take, ◌==◌, ==_iff,
  if◌then◌else◌, arith,
}
use segling.Comms.{CommsResult}
use segling.Comms.Sim.{Stdio, Device, is_ok, frame_offset, sim_seek_frame_reg}
use segling.Comms.Sim.Access.{next_frame, read_frame, read_device}
use segling.Comms.Sim.Calls.{InService}
use segling.Comms.Sim.Frames.{inside_of_not_outside}
use segling.Comms.Sim.Stream.{FileLaws, frames, file_bytes, stream, registers}

pub frames-next :
    (len count line : ℕ) (bytes : List ℕ)
    → line < count
    → frames len (count - line) (drop (line * len) bytes)
      ≡ take len (drop (line * len) bytes)
        ∷ frames len (count - suc line) (drop (suc line * len) bytes)
unfolding frames
frames-next len count line bytes h =
    let e : count - line ≡ suc (count - suc line) = omega arith in
    let f : line * len + len ≡ suc line * len = omega arith in rw (e, drop-drop, f)

module _ (io : Stdio) (laws : FileLaws io) where
  open io use {W}

  abbrev first_frame : Device → ℕ → W → List ℕ
  first_frame device file w =
      take device.frame_len (drop (device.line_index * device.frame_len) (laws.contents file w))

  -- What a read does to the queue: it fails and leaves it alone, or it gives the registers that were
  -- asked for of the first frame, and takes this frame off.
  abbrev pub Dequeues : Device → ℕ → ℕ → W → CommsResult × List ℕ × Device × W → Type 0
  Dequeues device reg size w out =
      ((is_ok out.0 ≡ false) × (stream io laws out.2 out.3 ≡ stream io laws device w))
      ⊎ ((is_ok out.0 ≡ true)
          × ((frame : List ℕ) × (stream io laws device w ≡ frame ∷ stream io laws out.2 out.3)
              × (out.1 ≡ registers device.start_reg reg size frame)))

  bytes-read :
      (file : ℕ) (device : Device) (reg size : ℕ) (w : W)
      → (reg - device.start_reg) + size ≤ device.frame_len
      → (io.fseek_set file (frame_offset device reg) w).0 ≡ true
      → length (io.fread file size (io.fseek_set file (frame_offset device reg) w).1).0 ≡ size
      → (io.fread file size (io.fseek_set file (frame_offset device reg) w).1).0
        ≡ registers device.start_reg reg size (
            take device.frame_len
              (drop (device.line_index * device.frame_len) (laws.contents file w)))
  bytes-read file device reg size w inside found full =
      laws.fread_lem file (frame_offset device reg) size w found full
      ∙ sym (
          take-drop-take size (reg - device.start_reg) device.frame_len
            (drop (device.line_index * device.frame_len) (laws.contents file w)) inside
          ∙ ap (take size) (
              drop-drop (reg - device.start_reg) (device.line_index * device.frame_len)
                (laws.contents file w)))

  -- `read_frame` of an open file, with its two failures side by side.
  pub read_frame_open :
      (file : ℕ) (device : Device) (reg size : ℕ) (w : W)
      → device.file ≡ some file
      → device.start_reg ≤ reg
      → let (found, w1) = io.fseek_set file (frame_offset device reg) w in
        let (bytes, w2) = io.fread file size w1 in
        read_frame io device reg size w ≡ (
          if found
          then if length bytes == size
            then (CommsResult.ok, bytes, next_frame device, w2)
            else (CommsResult.error_read_failed, bytes, device, w2)
          else (CommsResult.error_read_failed, [], device, w1))
  unfolding read_frame is_ok sim_seek_frame_reg
  read_frame_open file device reg size w opened above = ground arith

  next_frame-stream :
      (file : ℕ) (device : Device) (w : W)
      → device.file ≡ some file
      → device.line_index < device.frame_count
      → device.frame_count ≤ 255
      → stream io laws device w
        ≡ take device.frame_len (drop (device.line_index * device.frame_len) (laws.contents file w))
          ∷ stream io laws (next_frame device) w
  unfolding stream file_bytes next_frame
  next_frame-stream file device w opened early few =
      let next : (device.line_index + 1) % 256 ≡ suc device.line_index = omega arith in
      rw (opened, next)
        (frames-next device.frame_len device.frame_count device.line_index (laws.contents file w)
          early)

  stream-contents :
      (file : ℕ) (device : Device) (w w' : W)
      → device.file ≡ some file
      → laws.contents file w' ≡ laws.contents file w
      → stream io laws device w' ≡ stream io laws device w
  unfolding stream file_bytes
  stream-contents file device w w' opened same = rw (opened, same)

  read_frame-Dequeues :
      (file : ℕ) (device : Device) (reg size : ℕ) (w : W)
      → device.file ≡ some file
      → device.start_reg ≤ reg
      → device.line_index < device.frame_count
      → device.frame_count ≤ 255
      → (reg - device.start_reg) + size ≤ device.frame_len
      → Dequeues device reg size w (read_frame io device reg size w)
  unfolding is_ok next_frame
  read_frame-Dequeues file device reg size w opened above early few inside =
      let (found, w1) = io.fseek_set file (frame_offset device reg) w in
      let (bytes, w2) = io.fread file size w1 in
      let sought = laws.contents-fseek_set file file (frame_offset device reg) w in
      let same = laws.contents-fread file file size w1 ∙ sought in
      rw (read_frame_open file device reg size w opened above) (elim (Bool-cases found) [
        | inl good ↦ elim (Bool-cases (length bytes == size)) [
          | inl full ↦
              rw (good, full)
                (inr (
                  refl,
                  (
                    first_frame device file w,
                    next_frame-stream file device w opened early few
                        ∙ ap (◌∷◌ (first_frame device file w))
                            (sym (stream-contents file (next_frame device) w w2 opened same)),
                    bytes-read file device reg size w inside good ((==_iff _ _).0 full),
                  ),
                ))
          | inr short ↦ rw (good, short) (inl (refl, stream-contents file device w w2 opened same))
        ]
        | inr lost ↦ rw lost (inl (refl, stream-contents file device w w1 opened sought))
      ])

  -- A read is refused and leaves the file alone, or it comes to a read of the current frame.
  pub read_device-cases :
      (device : Device) (reg size : ℕ) (w : W)
      → reg < 256
      → let out = read_device io device reg size w in
        (out ≡ (CommsResult.error_read_failed, [], device, w))
        ⊎ (out ≡ (CommsResult.error_read_failed, [], record device { disconnected = true }, w))
        ⊎ ((device.line_index < device.frame_count)
            × (device.start_reg ≤ reg)
            × ((reg - device.start_reg) + size ≤ device.frame_len)
            × (out ≡ read_frame io device reg size w))
  unfolding read_device
  read_device-cases device reg size w small =
      ground (arith, inside_of_not_outside io device reg size small)

  -- A read of a device in service refines the queue of its frames: it fails and leaves the queue
  -- alone, or it gives the registers that were asked for of the first frame, and takes this frame off.
  pub read_device-Dequeues :
      (device : Device) (reg size : ℕ) (w : W)
      → InService device
      → reg < 256
      → Dequeues device reg size w (read_device io device reg size w)
  unfolding is_ok stream
  read_device-Dequeues device reg size w ((file, opened), _, few, _, _, _) small =
      elim (read_device-cases device reg size w small) [
        | inl refused ↦ subst (Dequeues device reg size w) (sym refused) (inl (refl, refl))
        | inr (inl ended) ↦ subst (Dequeues device reg size w) (sym ended) (inl (refl, refl))
        | inr (inr (early, above, inside, e)) ↦
            subst (Dequeues device reg size w) (sym e)
              (read_frame-Dequeues file device reg size w opened above early few inside)
      ]
