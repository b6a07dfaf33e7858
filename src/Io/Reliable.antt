-- ===== src/Io/Reliable.antt =====
-- Reads and writes of src/io.c on a card whose calls do not fail for 32-bit addresses.
use ee459spring.Base.{
  ℕ, refl, ◌≡◌, ◌<◌, ◌+◌, ◌≤◌, ◌^◌, ◌/◌, List, [], ◌∷◌, length, arith, is_some, true, false, u8,
  u32, ◌>>>◌, Bool-cases, inl, inr, ◌==◌,
}
use ee459spring.Io.{
  IoCtx, is_negative, io_get_byte, io_read_from, io_read_nbytes, io_put_byte, io_write_from,
  io_write_nbytes, io_flush_write_buffer, io_flush_read_buffer,
}
use ee459spring.Io.Sectors.{Device}
use ee459spring.Io.Memory.{reach}
use ee459spring.Io.Sync.{wrote, flushed, reloaded, read-write}

module _ (dev : Device) where
  open dev use {Card, get_sector, put_sector}

  pub record Answers : Type 0 where
    pub gets : (c : Card) (a : ℕ) → a < 2 ^ 32 → is_some (get_sector c a).0 ≡ true
    pub puts : (c : Card) (a : ℕ) (buf : List ℕ) → a < 2 ^ 32 → (put_sector c a buf).0 ≡ true

  -- the sector addresses of the context, which are `uint16_t`
  pub record Addressed (io : IoCtx Card) : Type 0 where
    pub input : io.input_sector_addr < 2 ^ 16
    pub output : io.output_sector_addr < 2 ^ 16

  module _ (r : Answers) where
    get_byte-code : (io : IoCtx Card) (o : ℕ) → o < 2 ^ 32 → (io_get_byte dev io o).0 ≡ 0
    unfolding io_get_byte
    get_byte-code io o h = ground (arith, r.gets io.card (o >>> 9) (omega arith))

    read_from-code :
        (slots : List ℕ) (io : IoCtx Card) (offset i : ℕ)
        → (io_read_from dev io offset i slots).0 ≡ 0
    unfolding io_read_from
    read_from-code [] io offset i = refl
    read_from-code (s ∷ slots) io offset i =
        let code = get_byte-code io (u32 (offset + i)) (omega arith) in
        rw code (read_from-code slots (io_get_byte dev io (u32 (offset + i))).2 offset (i + 1))

    -- so that no read fails
    pub read_nbytes-code :
        (io : IoCtx Card) (slots : List ℕ) (offset : ℕ) → (io_read_nbytes dev io slots offset).0 ≡ 0
    unfolding io_read_nbytes
    read_nbytes-code io slots offset = read_from-code slots io offset 0

    pub put_byte-Addressed :
        (k : ℕ) (io : IoCtx Card) (o byte : ℕ)
        → o < 2 ^ 32
        → Addressed io
        → ((io_put_byte dev (λ _. k) io o byte).0 ≡ u8 k)
          × Addressed (io_put_byte dev (λ _. k) io o byte).1
    unfolding io_put_byte io_flush_write_buffer
    put_byte-Addressed k io o byte h v = elim (Bool-cases (o / 512 == io.output_sector_addr)) [
      | inl hit ↦ rw hit (refl, record { input = v.input; output = v.output })
      | inr miss ↦
          let stored =
            r.puts io.card io.output_sector_addr io.output_sector_buf (omega (arith, v.output)) in
          let loaded =
            r.gets (put_sector io.card io.output_sector_addr io.output_sector_buf).1 (o / 512)
              (omega arith) in
          rw (miss, stored, loaded) (refl, record { input = v.input; output = omega arith })
    ]

    pub write_from-Addressed :
        (k : ℕ) (bytes : List ℕ) (io : IoCtx Card) (offset i : ℕ)
        → is_negative (u8 k) ≡ false
        → Addressed io
        → ((io_write_from dev (λ _. k) io offset i bytes).0 ≡ 0)
          × Addressed (io_write_from dev (λ _. k) io offset i bytes).1
    unfolding io_write_from
    write_from-Addressed k [] io offset i hk v = (refl, v)
    write_from-Addressed k (b ∷ bytes) io offset i hk v =
        let step = put_byte-Addressed k io (u32 (offset + i)) b (omega arith) v in
        rw (step.0, hk)
          (write_from-Addressed k bytes (io_put_byte dev (λ _. k) io (u32 (offset + i)) b).1 offset
            (i + 1) hk step.1)

    pub flush_write-Addressed :
        (io : IoCtx Card)
        → Addressed io
        → ((io_flush_write_buffer dev io).0 ≡ 0) × Addressed (io_flush_write_buffer dev io).1
    unfolding io_flush_write_buffer
    flush_write-Addressed io v = (
      rw (r.puts io.card io.output_sector_addr io.output_sector_buf (omega (arith, v.output))) refl,
      record { input = v.input; output = v.output },
    )

    pub flush_read-code : (io : IoCtx Card) → Addressed io → (io_flush_read_buffer dev io).0 ≡ 0
    unfolding io_flush_read_buffer
    flush_read-code io v = rw (r.gets io.card io.input_sector_addr (omega (arith, v.input))) refl

    -- On a card that answers, and below 32 MiB, the round trip of `read-write` ends well: all four calls
    -- return 0 and the bytes come back, where the value left by the missing `return` is not negative.
    pub read-write_total :
        (k : ℕ) (io : IoCtx Card) (bytes slots : List ℕ) (offset : ℕ)
        → is_negative (u8 k) ≡ false
        → Addressed io
        → length io.output_sector_buf ≡ 512
        → length slots ≡ length bytes
        → offset + length bytes ≤ reach
        → ((wrote dev (λ _. k) io bytes offset).0 ≡ 0)
          × ((flushed dev (λ _. k) io bytes offset).0 ≡ 0)
          × ((reloaded dev (λ _. k) io bytes offset).0 ≡ 0)
          × ((io_read_nbytes dev (reloaded dev (λ _. k) io bytes offset).1 slots offset).0 ≡ 0)
          × ((io_read_nbytes dev (reloaded dev (λ _. k) io bytes offset).1 slots offset).1 ≡ bytes)
    unfolding io_write_nbytes io_read_nbytes
    read-write_total k io bytes slots offset hk v room same near =
        let w = write_from-Addressed k bytes io offset 0 hk v in
        let f = flush_write-Addressed (wrote dev (λ _. k) io bytes offset).1 w.1 in
        let r' = flush_read-code (flushed dev (λ _. k) io bytes offset).1 f.1 in
        let g = read_from-code slots (reloaded dev (λ _. k) io bytes offset).1 offset 0 in
        (w.0, f.0, r', g, read-write dev (λ _. k) io bytes offset slots same room near w.0 f.0 r' g)
