-- ===== src/Fat/Logged.antt =====
-- A directory entry and the bytes of its file (src/fat.c) in a memory, before and after a write.
-- entry and its bytes after any number of writes.
use ee459spring.Base.{
  ℕ, zero, suc, refl, ◌==◌, if◌then◌else◌, ◌≡◌, ◌<◌, ◌≤◌, ◌+◌, ◌∙◌, sym, ap, ap₂, List, [], ◌∷◌,
  ◌++◌, length, length-append, replicate, u32, arith, ==_ne,
}
use mathlib.Core.Path.{subst}
use ee459spring.Io.Memory.{reach}
use ee459spring.Io.Read.{bytes_from}
use ee459spring.Io.Write.{update}
use ee459spring.Io.Buffer.{write_all, write_all-below, bytes_from-write_all}
use ee459spring.Io.Sync.{bytes_from-length}
use ee459spring.Fat.{File, strncpy}
use ee459spring.Fat.Layout.{Entry, encode_entry, decode_entry}
use ee459spring.Fat.Entries.{IsEntry, decode-encode}
use ee459spring.Fat.Files.{new_entry}
use ee459spring.Fat.Write.{grow, grown_entry}

write_all-above :
    (mem : ℕ → ℕ) (o a : ℕ) (bytes : List ℕ)
    → o + length bytes ≤ a
    → write_all mem o bytes a ≡ mem a
unfolding write_all
write_all-above mem o a [] h = refl
write_all-above mem o a (byte ∷ bytes) h =
    write_all-above (update mem o byte) (o + 1) a bytes (omega arith)
    ∙ rw (==_ne a o (omega arith)) refl

bytes_from-agree :
    (m m' : ℕ → ℕ) (o : ℕ) (slots : List ℕ)
    → ((a : ℕ) → o ≤ a → a < o + length slots → m a ≡ m' a)
    → bytes_from m o slots ≡ bytes_from m' o slots
bytes_from-agree m m' o [] same = refl
bytes_from-agree m m' o (s ∷ slots) same =
    ap₂ ◌∷◌ (same o (omega arith) (omega arith))
      (bytes_from-agree m m' (o + 1) slots (λ a lo hi. same a (omega arith) (omega arith)))

bytes_from-append :
    (m : ℕ → ℕ) (o : ℕ) (xs ys : List ℕ)
    → bytes_from m o (xs ++ ys) ≡ bytes_from m o xs ++ bytes_from m (o + length xs) ys
bytes_from-append m o [] ys = ap (λ (p : ℕ). bytes_from m p ys) (omega arith)
bytes_from-append m o (x ∷ xs) ys =
    ap (λ (l : List ℕ). m o ∷ l)
      (bytes_from-append m (o + 1) xs ys
        ∙ ap (λ (p : ℕ). bytes_from m (o + 1) xs ++ bytes_from m p ys) (omega arith))

-- The directory entry at `o` is `e` with the size of the content, and the content stands at `start`.
pub record IsLog (e : Entry) (o start : ℕ) (content : List ℕ) (mem : ℕ → ℕ) : Type 0 where
  pub entry :
      decode_entry (bytes_from mem o (replicate 32 0)) ≡ record e { file_size = length content }
  pub stored : bytes_from mem start content ≡ content

sized : (e : Entry) (n : ℕ) → IsEntry e → n ≤ reach → IsEntry (record e { file_size = n })
sized e n v small = record {
  name_width = v.name_width;
  ext_width = v.ext_width;
  date_width = v.date_width;
  accessed = v.accessed;
  high = v.high;
  time = v.time;
  date = v.date;
  low = v.low;
  size = omega arith;
}

-- an entry that is written is what is then found there
pub entry-write_all :
    (mem : ℕ → ℕ) (o : ℕ) (e : Entry)
    → IsEntry e
    → decode_entry (bytes_from (write_all mem o (encode_entry e)) o (replicate 32 0)) ≡ e
entry-write_all mem o e v =
    let (width, back) = decode-encode e v in
    ap decode_entry (
      bytes_from-length (write_all mem o (encode_entry e)) o (replicate 32 0) (encode_entry e)
        (sym width)
      ∙ bytes_from-write_all mem o (encode_entry e))
    ∙ back

pub IsLog-grow :
    (e : Entry) (o start : ℕ) (content buf : List ℕ) (mem : ℕ → ℕ)
    → IsEntry e
    → o + 32 ≤ start
    → start + length (content ++ buf) ≤ reach
    → IsLog e o start content mem
    → IsLog e o start
        (content ++ buf)
        (grow (write_all mem (start + length content) buf) o (length buf))
IsLog-grow e o start content buf mem v below near log =
    let at = start + length content in
    let m1 = write_all mem at buf in
    let longer : length (content ++ buf) ≡ length content + length buf =
      length-append content buf in
    let same : bytes_from m1 o (replicate 32 0) ≡ bytes_from mem o (replicate 32 0) =
      bytes_from-agree m1 mem o (replicate 32 0)
        (λ a lo hi. write_all-below mem at a buf (omega arith)) in
    let e' = record e { file_size = length (content ++ buf) } in
    let valid' = sized e (length (content ++ buf)) v (omega arith) in
    let size : u32 (length content + length buf) ≡ length (content ++ buf) = omega arith in
    let grown : grown_entry m1 o (length buf) ≡ e' =
      ap (λ (x : Entry). record x { file_size = u32 (x.file_size + length buf) })
        (ap decode_entry same ∙ log.entry)
      ∙ ap (λ (n : ℕ). record e { file_size = n }) size in
    let m2 = write_all m1 o (encode_entry e') in
    let kept : bytes_from m2 start (content ++ buf) ≡ bytes_from m1 start (content ++ buf) =
      bytes_from-agree m2 m1 start (content ++ buf) (λ a lo hi.
        write_all-above m1 o a (encode_entry e') (omega (arith, (decode-encode e' valid').0))) in
    let old : bytes_from m1 start content ≡ content =
      bytes_from-agree m1 mem start content (λ a lo hi. write_all-below mem at a buf hi)
      ∙ log.stored in
    subst (IsLog e o start (content ++ buf))
      (sym (ap (λ (x : Entry). write_all m1 o (encode_entry x)) grown))
      (record {
        entry = entry-write_all m1 o e' valid';
        stored =
            kept
            ∙ bytes_from-append m1 start content buf
            ∙ ap₂ ◌++◌ old (bytes_from-write_all mem at buf);
      })

length-strncpy : (n : ℕ) (src : List ℕ) → length (strncpy n src) ≡ n
length-strncpy zero src = refl
length-strncpy (suc n) [] = ap suc (length-strncpy n [])
length-strncpy (suc n) (c ∷ src) = ap suc (length-strncpy n (if c == 0 then [] else src))

pub new_entry-IsEntry : (file : File) (cluster : ℕ) → IsEntry (new_entry file cluster)
new_entry-IsEntry file cluster = record {
  name_width = length-strncpy 8 file.file_name;
  ext_width = length-strncpy 3 file.file_ext;
  date_width = refl;
  accessed = omega arith;
  high = omega arith;
  time = omega arith;
  date = omega arith;
  low = omega arith;
  size = omega arith;
}
