-- ===== src/Fat/Write.antt =====
-- Writing to a file (src/fat.c, `fat32_write_file_nbytes`) on a card that answers.
use mathlib.Core.Path.{subst}
use ee459spring.Base.{
  ℕ, refl, ◌≡◌, ◌≢◌, ◌≤◌, ◌+◌, ◌/◌, ◌∙◌, sym, ap, List, ◌∷◌, length, length-append, replicate, u8,
  u32, false, arith, fun_ext,
}
use ee459spring.Io.{IoCtx, is_negative, io_read_nbytes, io_write_nbytes}
use ee459spring.Io.Sectors.{Device}
use ee459spring.Io.Memory.{reach, memory}
use ee459spring.Io.Read.{bytes_from}
use ee459spring.Io.Buffer.{write_all, write_nbytes-WroteAll}
use ee459spring.Io.Sync.{bytes_from-length}
use ee459spring.Io.Reliable.{Answers, Addressed, write_from-Addressed}
use ee459spring.Io.Steady.{write_nbytes-sector}
use ee459spring.Fat.{File, FatCtx}
use ee459spring.Fat.Layout.{Entry, encode_entry, decode_entry}
use ee459spring.Fat.Files.{entry_offset, fat32_update_file_size, fat32_write_file_nbytes}
use ee459spring.Fat.Settled.{Settled, settled, read-Settled}

-- the entry at an address with its size increased
abbrev pub grown_entry : (ℕ → ℕ) → ℕ → ℕ → Entry
grown_entry mem o n =
    let e = decode_entry (bytes_from mem o (replicate 32 0)) in
    record e { file_size = u32 (e.file_size + n) }

-- a memory in which the entry at an address has grown
abbrev pub grow : (ℕ → ℕ) → ℕ → ℕ → ℕ → ℕ
grow mem o n = write_all mem o (encode_entry (grown_entry mem o n))

length-encode :
    (e : Entry)
    → length (encode_entry e)
      ≡ length e.filename + (length e.filename_ext + (2 + (length e.date_time_creat + 14)))
unfolding encode_entry
length-encode e = simp length-append (omega arith)

length-grown : (mem : ℕ → ℕ) (o n : ℕ) → length (encode_entry (grown_entry mem o n)) ≡ 32
unfolding decode_entry
length-grown mem o n = length-encode (grown_entry mem o n)

module _ (dev : Device) (answers : Answers dev) (k : ℕ) (hk : is_negative (u8 k) ≡ false) where
  open dev use {Card}

  write_nbytes-code :
      (io : IoCtx Card) (bytes : List ℕ) (o : ℕ)
      → Addressed dev io
      → ((io_write_nbytes dev (λ _. k) io bytes o).0 ≡ 0)
        × Addressed dev (io_write_nbytes dev (λ _. k) io bytes o).1
  unfolding io_write_nbytes
  write_nbytes-code io bytes o v = write_from-Addressed dev answers k bytes io o 0 hk v

  -- what a write leaves: a memory, room in the output buffer, and addresses of 16 bits
  abbrev pub Leaves : (ℕ → ℕ) → IoCtx Card → Type 0
  Leaves mem io =
      ((a : ℕ) → memory dev io a ≡ mem a) × (length io.output_sector_buf ≡ 512) × Addressed dev io

  pub write_nbytes-Leaves :
      (mem : ℕ → ℕ) (io : IoCtx Card) (bytes : List ℕ) (o : ℕ)
      → Leaves mem io
      → o + length bytes ≤ reach
      → Leaves (write_all mem o bytes) (io_write_nbytes dev (λ _. k) io bytes o).1
  write_nbytes-Leaves mem io bytes o (same, room, v) near =
      let (code, v') = write_nbytes-code io bytes o v in
      let w = write_nbytes-WroteAll dev (λ _. k) io bytes o room near code in
      (λ a. w.written a ∙ ap (λ (m : ℕ → ℕ). write_all m o bytes a) (fun_ext same), w.room, v')

  update_file_size_lem :
      (mem : ℕ → ℕ) (last : ℕ) (io : IoCtx Card) (slot : ℕ) (slots : List ℕ) (ctx : FatCtx)
      (file : File) (n : ℕ)
      → Settled dev answers mem last io
      → length (slot ∷ slots) ≡ 32
      → entry_offset ctx file + 32 ≤ reach
      → last ≢ entry_offset ctx file / 512
      → Leaves
          (grow mem (entry_offset ctx file) n)
          (fat32_update_file_size dev (λ _. k) (slot ∷ slots) ctx file n io).1
  unfolding fat32_update_file_size
  update_file_size_lem mem last io slot slots ctx file n s width near apart =
      let o = entry_offset ctx file in
      let (bytes, same, room, v) =
        read-Settled dev answers mem last io slot slots o s (omega (arith, width)) apart in
      let io' = (io_read_nbytes dev io (slot ∷ slots) o).2 in
      let grown = encode_entry (grown_entry mem o n) in
      subst
        (λ (b : List ℕ).
          Leaves (grow mem o n)
            (io_write_nbytes dev (λ _. k) io'
              (encode_entry
                (record (decode_entry b) { file_size = u32 ((decode_entry b).file_size + n) }))
              o).1)
        (sym (bytes ∙ bytes_from-length mem o (slot ∷ slots) (replicate 32 0) width))
        (write_nbytes-Leaves mem io' grown o (λ a. ap (λ (m : ℕ → ℕ). m a) same, room, v)
          (omega (arith, length-grown mem o n)))

  -- On a card that answers every call for a 32-bit address, with a leftover value that is not negative,
  -- for a context with 16-bit sector addresses and an output buffer of 512 bytes, and with 32 bytes for
  -- the entry, let a non-empty buffer go to a file and end below 32 MiB, as does the file's directory entry, and let
  -- the last byte's sector be another one than the entry's. Then fat32_write_file_nbytes returns 0, the
  -- file's position is behind the bytes, and the memory holds the bytes at the old position, and the entry
  -- that it then held with its size increased by their number, and is otherwise as it was; the output buffer
  -- still has 512 bytes, and the sector addresses 16 bits.
  pub write_file_nbytes-grow :
      (slot : ℕ) (slots : List ℕ) (ctx : FatCtx) (file : File) (byte : ℕ) (bytes : List ℕ)
      (io : IoCtx Card)
      → Addressed dev io
      → length io.output_sector_buf ≡ 512
      → length (slot ∷ slots) ≡ 32
      → file.current_byte_offset + length (byte ∷ bytes) ≤ reach
      → entry_offset ctx file + 32 ≤ reach
      → (file.current_byte_offset + length bytes) / 512 ≢ entry_offset ctx file / 512
      → (let n = length (byte ∷ bytes) in
          let at = file.current_byte_offset in
          let out =
            fat32_write_file_nbytes dev (λ _. k) (slot ∷ slots) ctx file (byte ∷ bytes) io in
          (out.0 ≡ 0)
          × (out.1 ≡ record file { current_byte_offset = at + n })
          × Leaves
              (grow (write_all (memory dev io) at (byte ∷ bytes)) (entry_offset ctx file) n)
              out.2)
  unfolding fat32_write_file_nbytes
  write_file_nbytes-grow slot slots ctx file byte bytes io v room width near near' apart =
      let at = file.current_byte_offset in
      let buf = byte ∷ bytes in
      let (written, room1, v1) =
        write_nbytes-Leaves (memory dev io) io buf at (λ a. refl, room, v) near in
      let io1 = (io_write_nbytes dev (λ _. k) io buf at).1 in
      let last = write_nbytes-sector dev answers k io byte bytes at hk v near in
      let s = settled dev answers io1 room1 v1 in
      let moved : u32 (at + length buf) ≡ at + length buf = omega arith in
      (
        refl,
        ap (λ (p : ℕ). record file { current_byte_offset = p }) moved,
        subst
            (λ (m : ℕ → ℕ).
              Leaves (grow m (entry_offset ctx file) (length buf))
                (fat32_write_file_nbytes dev (λ _. k) (slot ∷ slots) ctx file buf io).2)
            (fun_ext written)
            (update_file_size_lem (memory dev io1) io1.output_sector_addr _ slot slots ctx file
              (length buf) s width near' (λ e. apart (sym last ∙ e))),
      )
