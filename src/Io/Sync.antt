-- ===== src/Io/Sync.antt =====
-- The two flushes: after both the card holds what was written, and reads return it.
use ee459spring.Io.Buffer.{write_nbytes-WroteAll, write_all, bytes_from-write_all}
use ee459spring.Base.{
  ℕ, refl, ◌≡◌, List, [], ◌∷◌, length, arith, Option-cases, inl, inr, ◌∙◌, sym, Bool-cases, ap, ◌+◌,
  ◌≤◌, ◌/◌, ◌==◌, fun_ext, get_or, ◌%◌,
}
use ee459spring.Io.{
  IoCtx, io_flush_write_buffer, io_flush_read_buffer, io_write_nbytes, io_read_nbytes,
}
use ee459spring.Io.Sectors.{Device}
use ee459spring.Io.Memory.{reach, stored_byte, memory, IsFresh}
use ee459spring.Io.Read.{bytes_from, read_nbytes-GotAll}

pub bytes_from-length :
    (mem : ℕ → ℕ) (o : ℕ) (slots bytes : List ℕ)
    → length slots ≡ length bytes
    → bytes_from mem o slots ≡ bytes_from mem o bytes
bytes_from-length mem o [] [] h = refl
bytes_from-length mem o [] (y ∷ ys) h = absurd (omega arith)
bytes_from-length mem o (x ∷ xs) [] h = absurd (omega arith)
bytes_from-length mem o (x ∷ xs) (y ∷ ys) h =
    ap (λ (t : List ℕ). mem o ∷ t) (bytes_from-length mem (o + 1) xs ys (omega arith))

module _ (dev : Device) where
  open dev use {Card, sector, get_sector, put_sector, get_some, sector-get, sector-put}

  pub flush_write_stores :
      (io : IoCtx Card)
      → length io.output_sector_buf ≡ 512
      → (io_flush_write_buffer dev io).0 ≡ 0
      → (a : ℕ) → stored_byte dev (io_flush_write_buffer dev io).1.card a ≡ memory dev io a
  unfolding io_flush_write_buffer
  flush_write_stores io room e a =
      elim (Bool-cases (put_sector io.card io.output_sector_addr io.output_sector_buf).0) [
        | inr failed ↦ absurd (omega (arith, rw failed at e))
        | inl done ↦
            rw (sector-put io.card io.output_sector_addr (a / 512) _ room done)
              (elim (Bool-cases (a / 512 == io.output_sector_addr)) [
                | inl hit ↦ rw hit refl
                | inr miss ↦ rw miss refl
              ])
      ]

  pub flush_read_fresh :
      (io : IoCtx Card)
      → (io_flush_read_buffer dev io).0 ≡ 0
      → IsFresh dev (io_flush_read_buffer dev io).1
        × ((k : ℕ) → sector (io_flush_read_buffer dev io).1.card k ≡ sector io.card k)
  unfolding io_flush_read_buffer
  flush_read_fresh io e = elim (Option-cases (get_sector io.card io.input_sector_addr).0) [
    | inl failed ↦ absurd (omega (arith, rw failed at e))
    | inr (buf, got) ↦
        rw got
          (get_some _ _ buf got ∙ sym (sector-get _ _ _), sector-get io.card io.input_sector_addr)
  ]

  -- the calls of a round trip, in order
  module _ (leftover : IoCtx Card → ℕ) (io : IoCtx Card) (bytes : List ℕ) (offset : ℕ) where
    abbrev pub wrote : ℕ × IoCtx Card
    wrote = io_write_nbytes dev leftover io bytes offset

    abbrev pub flushed : ℕ × IoCtx Card
    flushed = io_flush_write_buffer dev wrote.1

    abbrev pub reloaded : ℕ × IoCtx Card
    reloaded = io_flush_read_buffer dev flushed.1

    -- What is written below 32 MiB and flushed is what a read into a buffer of that size then
    -- returns, where none of the four calls fails.
    pub read-write :
        (slots : List ℕ)
        → length slots ≡ length bytes
        → length io.output_sector_buf ≡ 512
        → offset + length bytes ≤ reach
        → wrote.0 ≡ 0
        → flushed.0 ≡ 0
        → reloaded.0 ≡ 0
        → (io_read_nbytes dev reloaded.1 slots offset).0 ≡ 0
        → (io_read_nbytes dev reloaded.1 slots offset).1 ≡ bytes
    read-write slots same room near ew ef er e =
        let w = write_nbytes-WroteAll dev leftover io bytes offset room near ew in
        let r = flush_read_fresh flushed.1 er in
        let g = read_nbytes-GotAll dev reloaded.1 slots offset r.0 (omega arith) in
        elim g.result [
          | inr code ↦ absurd (omega arith)
          | inl (_, got) ↦
              got
              ∙ ap (λ (m : ℕ → ℕ). bytes_from m offset slots)
                  (fun_ext (λ a.
                    ap (λ (b : List ℕ). get_or b (a % 512) 0) (r.1 (a / 512))
                    ∙ flush_write_stores wrote.1 w.room ef a
                    ∙ w.written a))
              ∙ bytes_from-length (write_all (memory dev io) offset bytes) offset slots bytes same
              ∙ bytes_from-write_all (memory dev io) offset bytes
        ]
