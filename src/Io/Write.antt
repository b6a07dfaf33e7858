-- ===== src/Io/Write.antt =====
-- Writing: below 32 MiB `io_put_byte` and `io_write_nbytes` are writes to a flat memory of bytes.
use ee459spring.Base.{
  ℕ, refl, ◌≡◌, List, length, arith, if◌then◌else◌, ◌/◌, get_or, ◌==◌, set, length-set, ◌%◌, ◌∙◌,
  Bool-cases, inl, ==_iff, inr, ==_ne, ℕ_discrete, ◌<◌, ==_refl, true, get_or-set_self, some, ◌≢◌,
  sym, ap, get_or-set_ne, fun_ext, u8, ◌⊎◌, Option-cases, ◌^◌,
}
use ee459spring.Io.{IoCtx, place, io_put_byte, io_flush_write_buffer}
use ee459spring.Io.Sectors.{Device}
use ee459spring.Io.Memory.{reach, stored_byte, memory}

-- a memory after the write of one byte
abbrev pub update : (ℕ → ℕ) → ℕ → ℕ → ℕ → ℕ
update mem o byte a = if a == o then byte else mem a

-- A byte lands in its place of a sector's buffer, and nowhere else.
place-update :
    (buf : List ℕ) (byte o a k : ℕ)
    → length buf ≡ 512
    → o / 512 ≡ k
    → a / 512 ≡ k
    → get_or (set buf (o % 512) byte) (a % 512) 0
      ≡ (if a == o then byte else get_or buf (a % 512) 0)
place-update buf byte o a k room p q = elim (ℕ_discrete (a % 512) (o % 512)) [
  | yes e ↦
      let same : a ≡ o = omega arith in
      rw (same, ==_refl o, get_or-set_self buf (o % 512) byte 0 (omega arith)) refl
  | no ne ↦
      let other : a ≢ o = λ e. ne (ap (λ t. t % 512) e) in
      rw (==_ne a o other, get_or-set_ne buf (o % 512) (a % 512) byte 0 (λ e. ne (sym e))) refl
]

module _ (dev : Device) where
  open dev use {
    Card, sector, get_sector, put_sector, get_some, sector-get, length-sector, sector-put,
  }

  pub record Put (io : IoCtx Card) (o byte : ℕ) (io' : IoCtx Card) : Type 0 where
    pub room : length io'.output_sector_buf ≡ 512
    pub written : (a : ℕ) → memory dev io' a ≡ update (memory dev io) o byte a

  place-Put :
      (io : IoCtx Card) (o byte : ℕ)
      → length io.output_sector_buf ≡ 512
      → o / 512 ≡ io.output_sector_addr
      → Put io o byte (place dev io o byte)
  place-Put io o byte room there = record {
    room = length-set io.output_sector_buf (o % 512) byte ∙ room;
    written = λ a. elim (Bool-cases (a / 512 == io.output_sector_addr)) [
      | inl e ↦ rw e (
          place-update io.output_sector_buf byte o a io.output_sector_addr room there
            ((==_iff _ _).0 e))
      | inr e ↦ rw (e, ==_ne a o (λ s. ground arith)) refl
    ];
  }

  -- The flush and the fetch that precede a write to another sector.
  module _ (io : IoCtx Card) (o : ℕ) (buf : List ℕ) (room : length io.output_sector_buf ≡ 512)
      (near : o < reach)
      (flushed : (put_sector io.card io.output_sector_addr io.output_sector_buf).0 ≡ true)
      (got : (get_sector
          (put_sector io.card io.output_sector_addr io.output_sector_buf).1
          (o / 512)).0
        ≡ some buf) where
    abbrev after_flush : Card
    after_flush = (put_sector io.card io.output_sector_addr io.output_sector_buf).1

    abbrev refilled : IoCtx Card
    refilled = record io {
      output_sector_buf = buf;
      output_sector_addr = o / 512;
      card = (get_sector after_flush (o / 512)).1;
    }

    sector-refilled :
        (k : ℕ)
        → sector refilled.card k
          ≡ (if k == io.output_sector_addr then io.output_sector_buf else sector io.card k)
    sector-refilled k =
        sector-get after_flush (o / 512) k
        ∙ sector-put io.card io.output_sector_addr k io.output_sector_buf room flushed

    memory-stored : (a : ℕ) → stored_byte dev refilled.card a ≡ memory dev io a
    memory-stored a = elim (Bool-cases (a / 512 == io.output_sector_addr)) [
      | inl e ↦ rw (sector-refilled (a / 512), e) refl
      | inr e ↦ rw (sector-refilled (a / 512), e) refl
    ]

    buf-sector : buf ≡ sector refilled.card (o / 512)
    buf-sector =
        get_some after_flush (o / 512) buf got ∙ sym (sector-get after_flush (o / 512) (o / 512))

    memory-refilled : (a : ℕ) → memory dev refilled a ≡ memory dev io a
    memory-refilled a = elim (Bool-cases (a / 512 == o / 512)) [
      | inl e ↦
          let same : a / 512 ≡ o / 512 = (==_iff _ _).0 e in
          rw e (
            ap (λ (b : List ℕ). get_or b (a % 512) 0)
              (buf-sector ∙ ap (sector refilled.card) (sym same))
            ∙ memory-stored a)
      | inr e ↦ rw e (memory-stored a)
    ]

    refilled-Put : (byte : ℕ) → Put io o byte (place dev refilled o byte)
    refilled-Put byte =
        let p =
          place-Put refilled o byte (ap length buf-sector ∙ length-sector refilled.card (o / 512))
            refl in
        record {
          room = p.room;
          written =
              λ a. p.written a ∙ ap (λ (m : ℕ → ℕ). update m o byte a) (fun_ext memory-refilled);
        }

  module _ (leftover : IoCtx Card → ℕ) where
    -- either the byte is written, or -1 is returned and the output buffer is as it was
    pub record PutResult (io : IoCtx Card) (o byte : ℕ) (out : ℕ × IoCtx Card) : Type 0 where
      pub result :
          (Put io o byte out.1 × (out.0 ≡ u8 (leftover out.1)))
          ⊎ ((out.0 ≡ 255)
              × (out.1.output_sector_addr ≡ io.output_sector_addr)
              × (out.1.output_sector_buf ≡ io.output_sector_buf))

    -- Below 32 MiB `io_put_byte` writes one byte of the flat memory and returns the leftover value,
    -- or returns -1 with the output buffer as it was.
    pub put_byte-PutResult :
        (io : IoCtx Card) (o byte : ℕ)
        → length io.output_sector_buf ≡ 512
        → o < reach
        → PutResult io o byte (io_put_byte dev leftover io o byte)
    unfolding io_put_byte io_flush_write_buffer
    put_byte-PutResult io o byte room near = elim (Bool-cases (o / 512 == io.output_sector_addr)) [
      | inl hit ↦
          rw hit (record { result = inl (place-Put io o byte room ((==_iff _ _).0 hit), refl) })
      | inr miss ↦
          elim (Bool-cases (put_sector io.card io.output_sector_addr io.output_sector_buf).0) [
            | inr failed ↦ rw (miss, failed) (record { result = inr (refl, refl, refl) })
            | inl flushed ↦
                elim (Option-cases
                  (get_sector (put_sector io.card io.output_sector_addr io.output_sector_buf).1
                    (o / 512)).0) [
                      | inl none_got ↦
                          rw (miss, flushed, none_got) (record { result = inr (refl, refl, refl) })
                      | inr (buf, got) ↦
                          let small : (o / 512) % 2 ^ 16 ≡ o / 512 = omega arith in
                          rw (miss, flushed, got, small)
                            (record {
                              result = inl (refilled-Put io o buf room near flushed got byte, refl);
                            })
                    ]
          ]
    ]
