-- ===== src/Io/Steady.antt =====
-- src/io.c on a card that answers: where a write leaves the output buffer, and reads from an input
-- buffer that is out of date.
use ee459spring.Base.{
  ℕ, refl, ◌≡◌, ◌<◌, ◌≤◌, ◌+◌, ◌/◌, ◌^◌, ◌∙◌, ◌==◌, ◌>>>◌, ap, List, [], ◌∷◌, length, arith,
  is_some, true, false, u8, u32, Bool-cases, inl, inr, Option, some, Option-cases, if◌then◌else◌,
}
use ee459spring.Io.{
  IoCtx, is_negative, io_get_byte, io_read_from, io_read_nbytes, io_put_byte, io_write_from,
  io_write_nbytes, assigned, io_flush_write_buffer,
}
use ee459spring.Io.Sectors.{Device}
use ee459spring.Io.Memory.{reach}
use ee459spring.Io.Reliable.{Answers, Addressed, put_byte-Addressed}

module _ (dev : Device) (r : Answers dev) where
  open dev use {Card, get_sector, put_sector}

  -- A read of a sector is answered.
  pub given : (c : Card) (a : ℕ) → a < 2 ^ 32 → (buf : List ℕ) × ((get_sector c a).0 ≡ some buf)
  given c a near = elim (Option-cases (get_sector c a).0) [
    | inl failed ↦ absurd (ground (arith, failed, r.gets c a near))
    | inr (buf, got) ↦ (buf, got)
  ]

  put_byte-sector :
      (k : ℕ) (io : IoCtx Card) (o byte : ℕ)
      → o < reach
      → Addressed dev io
      → (io_put_byte dev (λ _. k) io o byte).1.output_sector_addr ≡ o / 512
  unfolding io_put_byte io_flush_write_buffer
  put_byte-sector k io o byte near v = elim (Bool-cases (o / 512 == io.output_sector_addr)) [
    | inl hit ↦ rw hit (ground (arith, hit))
    | inr miss ↦
        let stored =
          r.puts io.card io.output_sector_addr io.output_sector_buf (omega (arith, v.output)) in
        let loaded =
          r.gets (put_sector io.card io.output_sector_addr io.output_sector_buf).1 (o / 512)
            (omega arith) in
        rw (miss, stored, loaded) (omega arith)
  ]

  write_from-sector :
      (k : ℕ) (bytes : List ℕ) (io : IoCtx Card) (offset i : ℕ) (byte : ℕ)
      → is_negative (u8 k) ≡ false
      → Addressed dev io
      → offset + i + length (byte ∷ bytes) ≤ reach
      → (io_write_from dev (λ _. k) io offset i (byte ∷ bytes)).1.output_sector_addr
        ≡ (offset + i + length bytes) / 512
  unfolding io_write_from
  write_from-sector k [] io offset i byte hk v near =
      let step = put_byte-Addressed dev r k io (u32 (offset + i)) byte (omega arith) v in
      let at : u32 (offset + i) ≡ offset + i = omega arith in
      rw (step.0, hk) (put_byte-sector k io (u32 (offset + i)) byte (omega arith) v ∙ omega arith)
  write_from-sector k (b ∷ bytes) io offset i byte hk v near =
      let step = put_byte-Addressed dev r k io (u32 (offset + i)) byte (omega arith) v in
      rw (step.0, hk)
        (write_from-sector k bytes (io_put_byte dev (λ _. k) io (u32 (offset + i)) byte).1 offset
            (i + 1) b hk step.1 (omega arith)
          ∙ omega arith)

  -- A write of at least one byte leaves the sector of its last byte in the output buffer.
  pub write_nbytes-sector :
      (k : ℕ) (io : IoCtx Card) (byte : ℕ) (bytes : List ℕ) (offset : ℕ)
      → is_negative (u8 k) ≡ false
      → Addressed dev io
      → offset + length (byte ∷ bytes) ≤ reach
      → (io_write_nbytes dev (λ _. k) io (byte ∷ bytes) offset).1.output_sector_addr
        ≡ (offset + length bytes) / 512
  unfolding io_write_nbytes
  write_nbytes-sector k io byte bytes offset hk v near =
      write_from-sector k bytes io offset 0 byte hk v (omega arith) ∙ omega arith

  get_byte-miss :
      (io : IoCtx Card) (buf : List ℕ) (o : ℕ)
      → o < 2 ^ 32
      → (o >>> 9 == io.input_sector_addr) ≡ false
      → io_get_byte dev io o ≡ io_get_byte dev (record io { input_sector_buf = buf }) o
  unfolding io_get_byte
  get_byte-miss io buf o near miss =
      let (buf', got) = given io.card (o >>> 9) (omega arith) in rw (miss, got) refl

  -- the rest of a read, after its first byte
  abbrev after_byte : ℕ → ℕ → List ℕ → ℕ × Option ℕ × IoCtx Card → ℕ × List ℕ × IoCtx Card
  after_byte offset slot slots (ret, byte, io') =
      let (code, slots', io'') = io_read_from dev io' offset 1 slots in
      if is_negative ret
      then (255, assigned byte slot ∷ slots, io')
      else (code, assigned byte slot ∷ slots', io'')

  -- A read that starts in another sector than that of the input buffer does not depend on the buffer.
  pub read_nbytes-miss :
      (io : IoCtx Card) (buf : List ℕ) (slot : ℕ) (slots : List ℕ) (offset : ℕ)
      → (u32 offset >>> 9 == io.input_sector_addr) ≡ false
      → io_read_nbytes dev io (slot ∷ slots) offset
        ≡ io_read_nbytes dev (record io { input_sector_buf = buf }) (slot ∷ slots) offset
  unfolding io_read_nbytes io_read_from
  read_nbytes-miss io buf slot slots offset miss =
      let start : u32 (offset + 0) ≡ u32 offset = omega arith in
      ap (after_byte offset slot slots)
        (get_byte-miss io buf (u32 (offset + 0)) (omega arith) (rw start miss))

  -- the context with the input buffer read again
  abbrev pub renewed : IoCtx Card → IoCtx Card
  renewed io = record io { input_sector_buf = dev.sector io.card io.input_sector_addr }

  -- Where the input buffer is not out of date, or does not hold the sector in which a read starts, the
  -- read goes as from a buffer that is read again.
  pub read_nbytes-renewed :
      (io : IoCtx Card) (slot : ℕ) (slots : List ℕ) (offset : ℕ)
      → ((u32 offset >>> 9 == io.input_sector_addr) ≡ true
          → io.input_sector_buf ≡ dev.sector io.card io.input_sector_addr)
      → io_read_nbytes dev io (slot ∷ slots) offset
        ≡ io_read_nbytes dev (renewed io) (slot ∷ slots) offset
  read_nbytes-renewed io slot slots offset good =
      elim (Bool-cases (u32 offset >>> 9 == io.input_sector_addr)) [
        | inl hit ↦
            ap
              (λ (b : List ℕ).
                io_read_nbytes dev (record io { input_sector_buf = b }) (slot ∷ slots) offset)
              (good hit)
        | inr miss ↦
            read_nbytes-miss io (dev.sector io.card io.input_sector_addr) slot slots offset miss
      ]

  get_byte-input :
      (io : IoCtx Card) (o : ℕ)
      → io.input_sector_addr < 2 ^ 16
      → (io_get_byte dev io o).2.input_sector_addr < 2 ^ 16
  unfolding io_get_byte
  get_byte-input io o h = elim (Bool-cases (o >>> 9 == io.input_sector_addr)) [
    | inl hit ↦ rw hit h
    | inr miss ↦ elim (Bool-cases (is_some (get_sector io.card (o >>> 9)).0)) [
      | inl got ↦ rw (miss, got) (omega arith)
      | inr failed ↦ rw (miss, failed) h
    ]
  ]

  read_from-input :
      (slots : List ℕ) (io : IoCtx Card) (offset i : ℕ)
      → io.input_sector_addr < 2 ^ 16
      → (io_read_from dev io offset i slots).2.input_sector_addr < 2 ^ 16
  unfolding io_read_from
  read_from-input [] io offset i h = h
  read_from-input (s ∷ slots) io offset i h =
      let h' = get_byte-input io (u32 (offset + i)) h in
      elim (Bool-cases (is_negative (io_get_byte dev io (u32 (offset + i))).0)) [
        | inl bad ↦ rw bad h'
        | inr ok ↦
            rw ok
              (read_from-input slots (io_get_byte dev io (u32 (offset + i))).2 offset (i + 1) h')
      ]

  pub read_nbytes-input :
      (io : IoCtx Card) (slots : List ℕ) (offset : ℕ)
      → io.input_sector_addr < 2 ^ 16
      → (io_read_nbytes dev io slots offset).2.input_sector_addr < 2 ^ 16
  unfolding io_read_nbytes
  read_nbytes-input io slots offset h = read_from-input slots io offset 0 h
