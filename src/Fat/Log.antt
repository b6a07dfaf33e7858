-- ===== src/Fat/Log.antt =====
-- A file that src/fat.c creates and then writes to, as the log of the program's commented code is: its
-- entry and its bytes after any number of writes.
use ee459spring.Base.{
  ℕ, refl, fun_ext, ◌≡◌, ◌<◌, ◌≤◌, ◌+◌, ◌/◌, ◌∙◌, sym, ap, ap₂, List, [], ◌∷◌, ◌++◌, append_assoc,
  append-nil, length, length-append, u8, false, arith, none, some,
}
use mathlib.Core.Path.{subst}
use ee459spring.Io.{IoCtx, is_negative, assigned}
use ee459spring.Io.Sectors.{Device}
use ee459spring.Io.Memory.{reach, memory}
use ee459spring.Io.Buffer.{write_all}
use ee459spring.Io.Reliable.{Answers, Addressed}
use ee459spring.Fat.{File, FatCtx}
use ee459spring.Fat.Alloc.{fat32_file_exists}
use ee459spring.Fat.Layout.{Entry, encode_entry}
use ee459spring.Fat.Entries.{IsEntry, decode-encode}
use ee459spring.Fat.Files.{entry_offset, new_entry, fat32_creat_file, fat32_write_file_nbytes}
use ee459spring.Fat.Create.{created, creat_file-found}
use ee459spring.Fat.Write.{grow, write_file_nbytes-grow, write_nbytes-Leaves}
use ee459spring.Fat.Logged.{IsLog, entry-write_all, IsLog-grow, new_entry-IsEntry}

-- a list of buffers with at least one byte each, and all their bytes
abbrev pub Buffers : Type 0
Buffers = List (ℕ × List ℕ)

abbrev pub contents : Buffers → List ℕ
contents [] = []
contents ((byte, bytes) ∷ more) = (byte ∷ bytes) ++ contents more

module _ (dev : Device) (answers : Answers dev) (k : ℕ) (hk : is_negative (u8 k) ≡ false) where
  open dev use {Card}

  module _ (slot : ℕ) (slots : List ℕ) (width : length (slot ∷ slots) ≡ 32) (ctx : FatCtx) where
    -- the writes of the buffers one after the other
    abbrev pub write_each : Buffers → File × IoCtx Card → File × IoCtx Card
    write_each [] s = s
    write_each ((byte, bytes) ∷ more) (file, io) =
        let out = fat32_write_file_nbytes dev (λ _. k) (slot ∷ slots) ctx file (byte ∷ bytes) io in
        write_each more (out.1, out.2)

    record IsOpen (e : Entry) (o start : ℕ) (content : List ℕ) (s : File × IoCtx Card)
        : Type 0 where
      position : s.0.current_byte_offset ≡ start + length content
      place : entry_offset ctx s.0 ≡ o
      valid : Addressed dev s.1
      room : length s.1.output_sector_buf ≡ 512
      log : IsLog e o start content (memory dev s.1)

    write-IsOpen :
        (e : Entry) (o start : ℕ) (content : List ℕ) (file : File) (io : IoCtx Card) (byte : ℕ)
        (bytes : List ℕ)
        → IsEntry e
        → (o + 31) / 512 < start / 512
        → start + length (content ++ byte ∷ bytes) ≤ reach
        → IsOpen e o start content (file, io)
        → IsOpen e o start (content ++ byte ∷ bytes) (write_each ((byte, bytes) ∷ []) (file, io))
    write-IsOpen e o start content file io byte bytes v apart near s =
        let longer = length-append content (byte ∷ bytes) in
        let at = s.position in
        let place = s.place in
        let (code, moved, (same, room, valid)) =
          write_file_nbytes-grow dev answers k hk slot slots ctx file byte bytes io s.valid s.room
            width (omega (arith, at)) (omega (arith, place)) (λ q. omega (arith, at, place)) in
        record {
          position = ap (λ (f : File). f.current_byte_offset) moved ∙ omega (arith, at);
          place = ap (entry_offset ctx) moved ∙ s.place;
          valid = valid;
          room = room;
          log =
              subst (IsLog e o start (content ++ byte ∷ bytes))
                (sym (
                  fun_ext same
                  ∙ ap₂
                      (λ (p q : ℕ).
                        grow (write_all (memory dev io) p (byte ∷ bytes)) q (length (byte ∷ bytes)))
                      at place))
                (IsLog-grow e o start content (byte ∷ bytes) (memory dev io) v (omega arith) near
                  s.log);
        }

    write_each-IsOpen :
        (bufs : Buffers) (e : Entry) (o start : ℕ) (content : List ℕ) (s : File × IoCtx Card)
        → IsEntry e
        → (o + 31) / 512 < start / 512
        → start + length (content ++ contents bufs) ≤ reach
        → IsOpen e o start content s
        → IsOpen e o start (content ++ contents bufs) (write_each bufs s)
    write_each-IsOpen [] e o start content s v apart near opened =
        subst (λ c. IsOpen e o start c s) (sym (append-nil content)) opened
    write_each-IsOpen ((byte, bytes) ∷ more) e o start content (file, io) v apart near opened =
        let joined = append_assoc content (byte ∷ bytes) (contents more) in
        let shorter = length-append (content ++ byte ∷ bytes) (contents more) in
        let all = ap length joined in
        let next =
          write-IsOpen e o start content file io byte bytes v apart (omega (arith, shorter, all))
            opened in
        subst (λ c. IsOpen e o start c (write_each ((byte, bytes) ∷ more) (file, io))) joined
          (write_each-IsOpen more e o start (content ++ byte ∷ bytes)
            (write_each ((byte, bytes) ∷ []) (file, io)) v apart (omega (arith, all)) next)

    create-IsOpen :
        (file : File) (io : IoCtx Card) (loc cluster : ℕ)
        → Addressed dev io
        → length io.output_sector_buf ≡ 512
        → (let r = created dev (λ _. k) ctx file io loc cluster in
            entry_offset ctx r.1 + 32 ≤ reach
            → IsOpen
                (new_entry file cluster)
                (entry_offset ctx r.1)
                r.1.start_byte_offset
                []
                (r.1, r.2))
    create-IsOpen file io loc cluster v room near =
        let r = created dev (λ _. k) ctx file io loc cluster in
        let o = entry_offset ctx r.1 in
        let e = new_entry file cluster in
        let width32 = (decode-encode e (new_entry-IsEntry file cluster)).0 in
        let (same, room', v') =
          write_nbytes-Leaves dev answers k hk (memory dev io) io (encode_entry e) o
            (λ a. refl, room, v) (omega (arith, width32)) in
        record {
          position = omega arith;
          place = refl;
          valid = v';
          room = room';
          log = subst (IsLog e o r.1.start_byte_offset []) (sym (fun_ext same)) (record {
            entry = entry-write_all (memory dev io) o e (new_entry-IsEntry file cluster);
            stored = refl;
          });
        }

    -- On a card that answers every call for a 32-bit address, with a leftover value that is not negative,
    -- for a context with 16-bit sector addresses and an output buffer of 512 bytes, and with 32 bytes for
    -- the entry, let fat32_creat_file make a file whose name the cached directory does not have, with its entry in
    -- sectors before the file's first, and let buffers of at least one byte each be written to it that end
    -- below 32 MiB. Then the memory holds all their bytes, in order, from the file's first byte on, and the
    -- directory entry is the new one with their number as its size.
    pub creat_file-IsLog :
        (file : File) (io : IoCtx Card) (r : ℕ × File × IoCtx Card) (bufs : Buffers)
        → Addressed dev io
        → length io.output_sector_buf ≡ 512
        → fat32_file_exists ctx file ≡ none
        → fat32_creat_file dev (λ _. k) ctx file io ≡ some r
        → (entry_offset ctx r.1 + 31) / 512 < r.1.start_byte_offset / 512
        → r.1.start_byte_offset + length (contents bufs) ≤ reach
        → IsLog
            (new_entry file r.1.current_cluster)
            (entry_offset ctx r.1)
            r.1.start_byte_offset
            (contents bufs)
            (memory dev (write_each bufs (r.1, r.2)).1)
    creat_file-IsLog file io r bufs v room new made apart near =
        let (loc, cluster, _, _, result) = creat_file-found dev (λ _. k) ctx file io new in
        let c = created dev (λ _. k) ctx file io loc cluster in
        let same : c ≡ r = ap (λ o. assigned o r) (sym result ∙ made) in
        (write_each-IsOpen bufs (new_entry file r.1.current_cluster) (entry_offset ctx r.1)
          r.1.start_byte_offset [] (r.1, r.2) (new_entry-IsEntry file r.1.current_cluster) apart
          near
          (subst
            (λ (r : ℕ × File × IoCtx Card).
              entry_offset ctx r.1 + 32 ≤ reach
              → IsOpen (new_entry file r.1.current_cluster) (entry_offset ctx r.1)
                  r.1.start_byte_offset [] (r.1, r.2))
            same (create-IsOpen file io loc cluster v room) (omega arith))).log
