-- ===== src/Io/Alias.antt =====
-- What the 16-bit sector addresses and the missing `return` of src/io.c do outside their range.
use ee459spring.Io.Sync.{flush_write_stores}
use ee459spring.Base.{
  ℕ, refl, ◌≡◌, List, [], ◌∷◌, length, arith, ◌<◌, ◌^◌, ◌≤◌, ◌≢◌, ◌%◌, some, ◌>>>◌, ◌==◌, false,
  ◌/◌, true, Option-cases, inl, Bool-cases, inr, ap, get_or, ◌∙◌, set, length-set, get_or-set_self,
  is_some, u8, if◌then◌else◌, ◌&&◌, ltb, u32, ◌+◌,
}
use ee459spring.Io.{
  IoCtx, io_get_byte, io_put_byte, io_flush_write_buffer, io_write_from, io_write_nbytes,
  is_negative,
}
use ee459spring.Io.Sectors.{Device}
use ee459spring.Io.Memory.{reach, stored_byte}

module _ (dev : Device) where
  open dev use {
    Card, sector, get_sector, put_sector, get_some, sector-get, sector-put, length-sector,
  }

  -- After a read at or above 32 MiB, a read of the address modulo 32 MiB succeeds with no access to
  -- the card, and returns the byte of the higher address.
  pub get_byte_aliases :
      (io : IoCtx Card) (o : ℕ)
      → io.input_sector_addr < 2 ^ 16
      → reach ≤ o
      → (io_get_byte dev io o).0 ≡ 0
      → let again = io_get_byte dev (io_get_byte dev io o).2 (o % reach) in
        (again.0 ≡ 0) × (again.1 ≡ some (stored_byte dev io.card o))
  unfolding io_get_byte
  get_byte_aliases io o small far e = elim (Option-cases (get_sector io.card (o >>> 9)).0) [
    | inl failed ↦ absurd (omega (arith, rw (miss, failed) at e))
    | inr (buf, got) ↦
        rw (miss, got, hit, inner)
          (refl, ap (λ (b : List ℕ). some (get_or b (o % 512) 0)) (get_some _ _ buf got))
  ]
    where
      miss : (o >>> 9 == io.input_sector_addr) ≡ false
      miss = ground arith

      hit : (o % reach / 512 == o >>> 9 % 2 ^ 16) ≡ true
      hit = ground arith

      inner : o % reach % 512 ≡ o % 512
      inner = omega arith

  -- A byte written at or above 32 MiB is flushed to the sector 65536 places lower.
  pub flush_aliases :
      (leftover : IoCtx Card → ℕ) (io : IoCtx Card) (o byte : ℕ)
      → io.output_sector_addr < 2 ^ 16
      → reach ≤ o
      → let io1 = (io_put_byte dev leftover io o byte).1 in
        (io_put_byte dev leftover io o byte).0 ≢ 255
        → (io_flush_write_buffer dev io1).0 ≡ 0
        → stored_byte dev (io_flush_write_buffer dev io1).1.card (o % reach) ≡ byte
  unfolding io_put_byte io_flush_write_buffer
  flush_aliases leftover io o byte small far e f =
      elim (Bool-cases (put_sector io.card io.output_sector_addr io.output_sector_buf).0) [
        | inr failed ↦ absurd (rw (miss, failed) at e refl)
        | inl done ↦ elim (Option-cases (get_sector first (o / 512)).0) [
          | inl failed ↦ absurd (rw (miss, done, failed) at e refl)
          | inr (buf, got) ↦ lands done buf got
        ]
      ]
    where
      first : Card
      first = (put_sector io.card io.output_sector_addr io.output_sector_buf).1

      miss : (o / 512 == io.output_sector_addr) ≡ false
      miss = ground arith

      lands :
          (put_sector io.card io.output_sector_addr io.output_sector_buf).0 ≡ true
          → (buf : List ℕ) → (get_sector first (o / 512)).0 ≡ some buf
          → stored_byte dev
              (io_flush_write_buffer dev (io_put_byte dev leftover io o byte).1).1.card
              (o % reach)
            ≡ byte
      lands done buf got =
          flush_write_stores dev (io_put_byte dev leftover io o byte).1 (rw (miss, done, got) room)
            f (o % reach)
          ∙ rw (miss, done, got, hit, inner)
              (get_or-set_self buf (o % 512) byte 0 (omega (arith, full)))
        where
          full : length buf ≡ 512
          full = ap length (get_some _ _ buf got) ∙ length-sector first (o / 512)

          room : length (set buf (o % 512) byte) ≡ 512
          room = length-set buf (o % 512) byte ∙ full

          hit : (o % reach / 512 == o / 512 % 2 ^ 16) ≡ true
          hit = ground arith

          inner : o % reach % 512 ≡ o % 512
          inner = omega arith

  -- A card whose calls never fail.
  pub record Reliable : Type 0 where
    pub gets : (c : Card) (a : ℕ) → is_some (get_sector c a).0 ≡ true
    pub puts : (c : Card) (a : ℕ) (buf : List ℕ) → (put_sector c a buf).0 ≡ true

  -- On such a card the code of a write is what the missing `return` leaves behind.
  put_byte-leftover :
      (k : ℕ) (io : IoCtx Card) (o byte : ℕ)
      → Reliable
      → (io_put_byte dev (λ _. k) io o byte).0 ≡ u8 k
  unfolding io_put_byte io_flush_write_buffer
  put_byte-leftover k io o byte r = ground (
    arith,
    r.puts io.card io.output_sector_addr io.output_sector_buf,
    r.gets (put_sector io.card io.output_sector_addr io.output_sector_buf).1 (o / 512),
  )

  write_from-leftover :
      (k : ℕ) (bytes : List ℕ) (io : IoCtx Card) (offset i : ℕ)
      → Reliable
      → (io_write_from dev (λ _. k) io offset i bytes).0
        ≡ (if is_negative (u8 k) && ltb 0 (length bytes) then 255 else 0)
  unfolding io_write_from
  write_from-leftover k [] io offset i r = ground arith
  write_from-leftover k (byte ∷ bytes) io offset i r = ground (
    arith,
    put_byte-leftover k io (u32 (offset + i)) byte r,
    write_from-leftover k bytes (io_put_byte dev (λ _. k) io (u32 (offset + i)) byte).1 offset
        (i + 1) r,
  )

  -- On a card that never fails `io_write_nbytes` returns 0 for a buffer that is not empty exactly
  -- when the value left by the missing `return` of `io_put_byte`, the same `k` each time, is not
  -- negative; otherwise it returns -1.
  pub write_nbytes-leftover :
      (k : ℕ) (io : IoCtx Card) (bytes : List ℕ) (offset : ℕ)
      → Reliable
      → (io_write_nbytes dev (λ _. k) io bytes offset).0
        ≡ (if is_negative (u8 k) && ltb 0 (length bytes) then 255 else 0)
  unfolding io_write_nbytes
  write_nbytes-leftover k io bytes offset r = write_from-leftover k bytes io offset 0 r
