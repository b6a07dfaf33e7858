-- ===== src/Fat/Scan.antt =====
-- The scan of the root directory (src/fat.c, `fat32_cache_root_dir`) against the bytes of the card.
use ee459spring.Base.{
  ℕ, zero, suc, refl, ◌≡◌, ◌≤◌, ◌+◌, ◌∙◌, sym, ap, List, [], ◌∷◌, ◌++◌, append_assoc, append-nil,
  map, length, replicate, true, false, some, inl, inr, arith, ◌==◌,
}
use mathlib.Core.Path.{subst}
use mathlib.Core.Option
use ee459spring.Io.{IoCtx, io_read_nbytes, is_negative}
use ee459spring.Io.Sectors.{Device}
use ee459spring.Io.Memory.{reach, stored_byte, IsFresh}
use ee459spring.Io.Read.{bytes_from, Kept, Kept-trans, Kept-refl, stored-Kept, read_nbytes-GotAll}
use ee459spring.Io.Sync.{bytes_from-length}
use ee459spring.Io.Reliable.{Answers, read_nbytes-code}
use ee459spring.Fat.{File, FatCtx, first_char, fat32_parse_entry, filename_never_used}
use ee459spring.Fat.Layout.{Entry, decode_entry, read32}
use ee459spring.Fat.Chain.{fat32_get_fat, fat32_open_file, cache_entries}
use ee459spring.Fat.Follow.{
  IsChain, last, link, fat_address, word_at, read32-bytes_from, last_cluster_lem,
}
use ee459spring.Fat.Listing.{
  dir_address, entry_at, passed_over, listed_cluster, skipped_lem, opened_cluster_lem, Found, Lists,
  cached, with_files, Lists-with_files, full, end_mark, pass, file,
}

never_used :
    (e : Entry)
    → (first_char e == filename_never_used) ≡ true
    → is_negative (fat32_parse_entry e) ≡ true
unfolding fat32_parse_entry
never_used e h = rw h refl

used :
    (e : Entry)
    → (first_char e == filename_never_used) ≡ false
    → is_negative (fat32_parse_entry e) ≡ false
unfolding fat32_parse_entry
used e h = ground (arith, h)

not_first : (e : Entry) → passed_over e ≡ false → (first_char e == filename_never_used) ≡ false
not_first e s = ground (arith, s)

length-bytes_from :
    (mem : ℕ → ℕ) (o : ℕ) (slots : List ℕ) → length (bytes_from mem o slots) ≡ length slots
length-bytes_from mem o [] = refl
length-bytes_from mem o (s ∷ slots) = ap suc (length-bytes_from mem (o + 1) slots)

module _ (dev : Device) (answers : Answers dev) where
  open dev use {Card}

  -- a read of an answering card
  pub read_ok :
      (io : IoCtx Card) (slots : List ℕ) (o : ℕ)
      → IsFresh dev io
      → o + length slots ≤ reach
      → (let out = io_read_nbytes dev io slots o in
          (out.0 ≡ 0) × (out.1 ≡ bytes_from (stored_byte dev io.card) o slots) × Kept dev io out.2)
  read_ok io slots o fresh near =
      let g = read_nbytes-GotAll dev io slots o fresh near in
      elim g.result [
        | inl (code, bytes) ↦ (code, bytes, g.kept)
        | inr bad ↦ absurd (omega (arith, read_nbytes-code dev answers io slots o))
      ]

  -- where following ends, from a fresh buffer
  abbrev pub FollowedTo : ℕ → FatCtx → ℕ → List ℕ → List ℕ → IoCtx Card → Type 0
  FollowedTo fuel ctx a n chain io =
      (io' : IoCtx Card) × (fat32_get_fat dev fuel ctx a n io ≡ some (0, n ++ chain, io'))
      × Kept dev io io'

  read_word :
      (io : IoCtx Card) (o : ℕ)
      → IsFresh dev io
      → o + 4 ≤ reach
      → (let out = io_read_nbytes dev io (replicate 4 0) o in
          (out.0 ≡ 0) × (read32 out.1 0 ≡ word_at (stored_byte dev io.card) o) × Kept dev io out.2)
  read_word io o fresh near =
      let (code, bytes, kept) = read_ok io (replicate 4 0) o fresh near in
      (
        code,
        ap (λ (b : List ℕ). read32 b 0) bytes ∙ read32-bytes_from (stored_byte dev io.card) o,
        kept,
      )

  pub follow :
      (fuel : ℕ) (ctx : FatCtx) (a : ℕ) (n chain : List ℕ) (io : IoCtx Card)
      → IsFresh dev io
      → IsChain (stored_byte dev io.card) ctx a chain
      → length chain ≤ fuel
      → FollowedTo fuel ctx a n chain io
  unfolding fat32_get_fat
  follow zero ctx a n _ io fresh (last near stop) h = absurd (omega arith)
  follow zero ctx a n _ io fresh (link {rest = rest} near go c) h = absurd (omega arith)
  follow (suc fuel) ctx a n _ io fresh (last near stop) h =
      let (code, word, kept) = read_word io (fat_address ctx a) fresh near in
      (
        (io_read_nbytes dev io (replicate 4 0) (fat_address ctx a)).2,
        rw
            (
              code,
              word,
              last_cluster_lem (word_at (stored_byte dev io.card) (fat_address ctx a)),
              stop,
            )
            refl,
        kept,
      )
  follow (suc fuel) ctx a n _ io fresh (link {rest = rest} near go c) h =
      let (code, word, kept) = read_word io (fat_address ctx a) fresh near in
      let io1 = (io_read_nbytes dev io (replicate 4 0) (fat_address ctx a)).2 in
      let next = word_at (stored_byte dev io.card) (fat_address ctx a) in
      let (io', ends, kept') =
        follow fuel ctx next (n ++ a ∷ []) rest io1 kept.fresh
          (subst (λ m. IsChain m ctx next rest) (sym (stored-Kept dev kept)) c) (omega arith) in
      (
        io',
        rw (code, word, last_cluster_lem next, go)
            (ends ∙ ap (λ (l : List ℕ). some (0, l, io')) (append_assoc n (a ∷ []) rest)),
        Kept-trans dev kept kept',
      )

  -- where the scan ends
  abbrev pub Scanned : ℕ → ℕ → ℕ → ℕ → List ℕ → File → FatCtx → List Found → IoCtx Card → Type 0
  Scanned fuel sz rounds j slots local ctx found io =
      (io' : IoCtx Card) × (cache_entries dev fuel sz rounds j slots local ctx io
        ≡ some (
          with_files ctx (ctx.root_dir_entries ++ map (cached ctx local.first_cluster) found),
          io',
        ))
      × Kept dev io io'

  -- the entry that a round reads
  read_entry :
      (mem : ℕ → ℕ) (sz j : ℕ) (slots : List ℕ) (ctx : FatCtx) (io : IoCtx Card)
      → stored_byte dev io.card ≡ mem
      → IsFresh dev io
      → length slots ≡ 32
      → dir_address ctx sz j + 32 ≤ reach
      → (let out = io_read_nbytes dev io slots (dir_address ctx sz j) in
          (out.0 ≡ 0)
          × (decode_entry out.1 ≡ entry_at mem ctx sz j)
          × (length out.1 ≡ 32)
          × Kept dev io out.2)
  read_entry mem sz j slots ctx io same fresh len near =
      let o = dir_address ctx sz j in
      let (code, bytes, kept) = read_ok io slots o fresh (omega arith) in
      (
        code,
        ap decode_entry (
            bytes
            ∙ ap (λ (m : ℕ → ℕ). bytes_from m o slots) same
            ∙ bytes_from-length mem o slots (replicate 32 0) len),
        ap length bytes ∙ length-bytes_from (stored_byte dev io.card) o slots ∙ len,
        kept,
      )

  pub cache_entries-Lists :
      (mem : ℕ → ℕ) (fuel sz rounds j : ℕ) (slots : List ℕ) (local : File) (ctx : FatCtx)
      (found : List Found) (io : IoCtx Card)
      → stored_byte dev io.card ≡ mem
      → IsFresh dev io
      → length slots ≡ 32
      → Lists mem ctx sz fuel rounds j found
      → Scanned fuel sz rounds j slots local ctx found io
  unfolding cache_entries fat32_open_file Option.bind
  cache_entries-Lists mem fuel sz zero j slots local ctx _ io same fresh len full = (
    io,
    ap (λ (l : List File). some (with_files ctx l, io)) (sym (append-nil ctx.root_dir_entries)),
    Kept-refl dev io fresh,
  )
  cache_entries-Lists mem fuel sz (suc rounds) j slots local ctx _ io same fresh len
        (end_mark near e) =
      let (code, entry, len', kept) = read_entry mem sz j slots ctx io same fresh len near in
      let io1 = (io_read_nbytes dev io slots (dir_address ctx sz j)).2 in
      (
        io1,
        rw (code, entry, never_used (entry_at mem ctx sz j) e)
            (ap (λ (l : List File). some (with_files ctx l, io1))
              (sym (append-nil ctx.root_dir_entries))),
        kept,
      )
  cache_entries-Lists mem fuel sz (suc rounds) j slots local ctx _ io same fresh len
        (pass near e s l) =
      let (code, entry, len', kept) = read_entry mem sz j slots ctx io same fresh len near in
      let out = io_read_nbytes dev io slots (dir_address ctx sz j) in
      let (io', ends, kept') =
        cache_entries-Lists mem fuel sz rounds (j + 1) out.1 local ctx _ out.2
          (stored-Kept dev kept ∙ same) kept.fresh len' l in
      (
        io',
        rw (code, entry, used (entry_at mem ctx sz j) e, skipped_lem (entry_at mem ctx sz j), s)
            ends,
        Kept-trans dev kept kept',
      )
  cache_entries-Lists mem fuel sz (suc rounds) j slots local ctx _ io same fresh len
        (file {chain = chain} {files = files} near s c h l) =
      let e = entry_at mem ctx sz j in
      let (code, entry, len', kept) = read_entry mem sz j slots ctx io same fresh len near in
      let out = io_read_nbytes dev io slots (dir_address ctx sz j) in
      let same' = stored-Kept dev kept ∙ same in
      let (io2, opens, kept2) =
        follow fuel ctx (listed_cluster e) [] chain out.2 kept.fresh
          (subst (λ m. IsChain m ctx (listed_cluster e) chain) (sym same') c) h in
      let f = cached ctx local.first_cluster (j, e, chain) in
      let ctx' = with_files ctx (ctx.root_dir_entries ++ f ∷ []) in
      let (io', ends, kept') =
        cache_entries-Lists mem fuel sz rounds (j + 1) out.1 f ctx' files io2
          (stored-Kept dev kept2 ∙ same') kept2.fresh len'
          (Lists-with_files mem ctx sz fuel rounds (j + 1) files (ctx.root_dir_entries ++ f ∷ [])
            l) in
      (
        io',
        rw
            (
              code,
              entry,
              used e (not_first e s),
              skipped_lem e,
              s,
              opened_cluster_lem e,
              opens,
              opened_cluster_lem e,
            )
            (ends
              ∙ ap (λ (l : List File). some (with_files ctx l, io'))
                  (append_assoc ctx.root_dir_entries (f ∷ [])
                    (map (cached ctx local.first_cluster) files))),
        Kept-trans dev kept (Kept-trans dev kept2 kept'),
      )
