-- ===== src/Io/Buffer.antt =====
-- `io_write_nbytes`, and reading back what it wrote.
use ee459spring.Base.{
  ℕ, refl, ◌≡◌, List, [], ◌∷◌, length, arith, ◌<◌, ap₂, ◌+◌, ◌∙◌, ◌≤◌, ==_ne, ==_refl, u32,
  Bool-cases, inl, inr, fun_ext,
}
use ee459spring.Io.{IoCtx, io_write_from, io_write_nbytes, is_negative, io_put_byte}
use ee459spring.Io.Sectors.{Device}
use ee459spring.Io.Memory.{reach, memory}
use ee459spring.Io.Read.{bytes_from}
use ee459spring.Io.Write.{update, put_byte-PutResult}

-- a memory after the writes of a buffer from an offset on
unfoldable pub write_all : (ℕ → ℕ) → ℕ → List ℕ → ℕ → ℕ
write_all mem o [] = mem
write_all mem o (byte ∷ bytes) = write_all (update mem o byte) (o + 1) bytes

-- bytes below the offset are not touched
pub write_all-below :
    (mem : ℕ → ℕ) (o a : ℕ) (bytes : List ℕ) → a < o → write_all mem o bytes a ≡ mem a
unfolding write_all
write_all-below mem o a [] h = refl
write_all-below mem o a (byte ∷ bytes) h =
    write_all-below (update mem o byte) (o + 1) a bytes (omega arith)
    ∙ rw (==_ne a o (omega arith)) refl

-- A buffer that was written reads back as it is.
pub bytes_from-write_all :
    (mem : ℕ → ℕ) (o : ℕ) (bytes : List ℕ) → bytes_from (write_all mem o bytes) o bytes ≡ bytes
unfolding write_all
bytes_from-write_all mem o [] = refl
bytes_from-write_all mem o (byte ∷ bytes) =
    ap₂ ◌∷◌
      (write_all-below (update mem o byte) (o + 1) o bytes (omega arith) ∙ rw (==_refl o) refl)
      (bytes_from-write_all (update mem o byte) (o + 1) bytes)

module _ (dev : Device) where
  open dev use {Card}

  pub record WroteAll (io : IoCtx Card) (o : ℕ) (bytes : List ℕ) (io' : IoCtx Card) : Type 0 where
    pub room : length io'.output_sector_buf ≡ 512
    pub written : (a : ℕ) → memory dev io' a ≡ write_all (memory dev io) o bytes a

  module _ (leftover : IoCtx Card → ℕ) where
    write_from-WroteAll :
        (bytes : List ℕ) (io : IoCtx Card) (offset i : ℕ)
        → length io.output_sector_buf ≡ 512
        → offset + i + length bytes ≤ reach
        → (io_write_from dev leftover io offset i bytes).0 ≡ 0
        → WroteAll io (offset + i) bytes (io_write_from dev leftover io offset i bytes).1
    unfolding io_write_from write_all
    write_from-WroteAll [] io offset i room near e = record { room = room; written = λ a. refl }
    write_from-WroteAll (byte ∷ bytes) io offset i room near e =
        let at : u32 (offset + i) ≡ offset + i = omega arith in
        elim (Bool-cases (is_negative (io_put_byte dev leftover io (offset + i) byte).0)) [
          | inl neg ↦ absurd (omega (arith, rw (at, neg) at e))
          | inr nonneg ↦
              elim (put_byte-PutResult dev leftover io (offset + i) byte room
                (omega arith)).result [
                  | inl (p, _) ↦
                      let rest =
                        write_from-WroteAll bytes (io_put_byte dev leftover io (offset + i) byte).1
                          offset (i + 1) p.room (omega arith) (rw (at, nonneg) at e) in
                      let next : offset + (i + 1) ≡ offset + i + 1 = omega arith in
                      rw (at, nonneg)
                        (record {
                          room = rest.room;
                          written = λ a.
                              rest.written a
                              ∙ ap₂ (λ (m : ℕ → ℕ) (o : ℕ). write_all m o bytes a)
                                  (fun_ext p.written) next;
                        })
                  | inr (code, _, _) ↦ absurd (ground arith)
                ]
        ]

    -- Below 32 MiB, where `io_write_nbytes` returns 0 the bytes stand in the flat memory from the
    -- offset on, and every other byte of it is as it was.
    pub write_nbytes-WroteAll :
        (io : IoCtx Card) (bytes : List ℕ) (offset : ℕ)
        → length io.output_sector_buf ≡ 512
        → offset + length bytes ≤ reach
        → (io_write_nbytes dev leftover io bytes offset).0 ≡ 0
        → WroteAll io offset bytes (io_write_nbytes dev leftover io bytes offset).1
    unfolding io_write_nbytes
    write_nbytes-WroteAll io bytes offset room near e =
        let start : offset + 0 ≡ offset = omega arith in
        rw start at (write_from-WroteAll bytes io offset 0 room (omega arith) e)
