-- ===== src/Fat/Settled.antt =====
-- src/io.c after both flushes, as src/fat.c leaves it before it updates a directory entry.
use ee459spring.Base.{
  ℕ, refl, ◌≡◌, ◌≢◌, ◌<◌, ◌≤◌, ◌+◌, ◌/◌, ◌%◌, ◌^◌, ◌∙◌, sym, ap, List, ◌∷◌, length, u32, true,
  arith, ◌==◌, ==_iff, ==_ne, fun_ext, get_or, ◌>>>◌, Bool-cases, inl, inr, if◌then◌else◌,
}
use mathlib.Core.Path.{subst}
use ee459spring.Io.{IoCtx, io_read_nbytes, io_flush_read_buffer, io_flush_write_buffer}
use ee459spring.Io.Sectors.{Device}
use ee459spring.Io.Memory.{reach, stored_byte, memory}
use ee459spring.Io.Read.{bytes_from, Kept, stored-Kept}
use ee459spring.Io.Sync.{flush_write_stores, flush_read_fresh}
use ee459spring.Io.Reliable.{Answers, Addressed, flush_write-Addressed, flush_read-code}
use ee459spring.Io.Steady.{renewed, read_nbytes-renewed, read_nbytes-input}
use ee459spring.Fat.Scan.{read_ok}

module _ (dev : Device) (answers : Answers dev) where
  open dev use {Card, sector, sector-put}

  -- A context after both flushes: it has `mem` in the memory, and in the card too; its input buffer is out
  -- of date at most where the output buffer's sector is.
  pub record Settled (mem : ℕ → ℕ) (last : ℕ) (io : IoCtx Card) : Type 0 where
    pub stored : stored_byte dev io.card ≡ mem
    pub kept : memory dev io ≡ mem
    pub room : length io.output_sector_buf ≡ 512
    pub valid : Addressed dev io
    pub out : io.output_sector_addr ≡ last
    pub input :
        io.input_sector_addr ≢ last → io.input_sector_buf ≡ sector io.card io.input_sector_addr

  pub settled :
      (io : IoCtx Card)
      → length io.output_sector_buf ≡ 512
      → Addressed dev io
      → Settled
          (memory dev io)
          io.output_sector_addr
          (io_flush_write_buffer dev (io_flush_read_buffer dev io).1).1
  unfolding io_flush_read_buffer io_flush_write_buffer
  settled io room v =
      let io2 = (io_flush_read_buffer dev io).1 in
      let (fresh, same) = flush_read_fresh dev io (flush_read-code dev answers io v) in
      let (code, v') =
        flush_write-Addressed dev answers io2 (record { input = v.input; output = v.output }) in
      let accepted =
        answers.puts io2.card io.output_sector_addr io.output_sector_buf
          (omega (arith, v.output)) in
      let still : (a : ℕ) → stored_byte dev io2.card a ≡ stored_byte dev io.card a =
        λ a. ap (λ (b : List ℕ). get_or b (a % 512) 0) (same (a / 512)) in
      let before : (a : ℕ) → memory dev io2 a ≡ memory dev io a = λ a.
        elim (Bool-cases (a / 512 == io.output_sector_addr)) [
          | inl e ↦ rw e refl
          | inr e ↦ rw e (still a)
        ] in
      let stores : (a : ℕ)
          → stored_byte dev (io_flush_write_buffer dev io2).1.card a ≡ memory dev io a =
        λ a. flush_write_stores dev io2 room code a ∙ before a in
      record {
        stored = fun_ext stores;
        kept = fun_ext (λ a. elim (Bool-cases (a / 512 == io.output_sector_addr)) [
          | inl e ↦ rw e refl
          | inr e ↦ rw e (rw e at (stores a))
        ]);
        room = room;
        valid = v';
        out = refl;
        input = λ ne.
            fresh
            ∙ sym (
                sector-put io2.card io.output_sector_addr io.input_sector_addr io.output_sector_buf
                  room accepted
                ∙ rw (==_ne _ _ ne) refl);
      }

  memory-Kept : {io io' : IoCtx Card} → Kept dev io io' → memory dev io' ≡ memory dev io
  memory-Kept {io = io} {io' = io'} kept = fun_ext (λ a. λ i.
      if a / 512 == kept.out_addr i
      then get_or (kept.out_buf i) (a % 512) 0
      else stored-Kept dev kept i a)

  -- what a read of a settled context returns and leaves
  abbrev pub Reads : (ℕ → ℕ) → ℕ → List ℕ → ℕ × List ℕ × IoCtx Card → Type 0
  Reads mem o slots (ret, bytes, io') =
      (bytes ≡ bytes_from mem o slots)
      × (memory dev io' ≡ mem)
      × (length io'.output_sector_buf ≡ 512)
      × Addressed dev io'

  pub read-Settled :
      (mem : ℕ → ℕ) (last : ℕ) (io : IoCtx Card) (slot : ℕ) (slots : List ℕ) (o : ℕ)
      → Settled mem last io
      → o + length (slot ∷ slots) ≤ reach
      → last ≢ o / 512
      → Reads mem o (slot ∷ slots) (io_read_nbytes dev io (slot ∷ slots) o)
  read-Settled mem last io slot slots o s near apart =
      let io' = renewed dev answers io in
      let good : (u32 o >>> 9 == io.input_sector_addr) ≡ true
          → io.input_sector_buf ≡ sector io.card io.input_sector_addr =
        λ hit. s.input (λ e. apart (sym e ∙ sym ((==_iff _ _).0 hit) ∙ omega arith)) in
      let (code, bytes, kept) = read_ok dev answers io' (slot ∷ slots) o refl near in
      subst (Reads mem o (slot ∷ slots))
        (sym (read_nbytes-renewed dev answers io slot slots o good))
        (
          bytes ∙ ap (λ (m : ℕ → ℕ). bytes_from m o (slot ∷ slots)) s.stored,
          memory-Kept kept ∙ s.kept,
          ap length kept.out_buf ∙ s.room,
          record {
            input = read_nbytes-input dev answers io' (slot ∷ slots) o s.valid.input;
            output = subst (λ (x : ℕ). x < 2 ^ 16) (sym kept.out_addr) s.valid.output;
          },
        )
