-- ===== src/Fat/Table.antt =====
-- src/fat.c: entering a cluster in a file's list and in the file allocation table (`fat32_update_fat`),
-- and the functions that do nothing.
use ee459spring.Base.{
  ℕ, refl, ◌≡◌, ◌≤◌, ◌+◌, ◌*◌, ◌∙◌, ap, sym, fun_ext, List, [], ◌∷◌, ◌++◌, length, u8, u32, false,
  arith,
}
use ee459spring.Io.{IoCtx, io_write_nbytes, is_negative}
use ee459spring.Io.Sectors.{Device}
use ee459spring.Io.Memory.{reach, memory}
use ee459spring.Io.Buffer.{write_all, write_nbytes-WroteAll, bytes_from-write_all}
use ee459spring.Io.Reliable.{Answers, Addressed, write_from-Addressed}
use ee459spring.Fat.{File, FatCtx, fat32_is_last_cluster}
use ee459spring.Fat.Layout.{le32, read32, Entry}
use ee459spring.Fat.Follow.{IsChain, last, word_at, fat_address, read32-bytes_from}

unfoldable pub fat32_close_root_dir : FatCtx → FatCtx
fat32_close_root_dir ctx = ctx

unfoldable pub fat32_close_file : FatCtx → File → FatCtx × File
fat32_close_file ctx file = (ctx, file)

unfoldable pub fat32_update_directory_entry : FatCtx → Entry → ℕ
fat32_update_directory_entry ctx e = 0

-- the byte address of the table's entry that the code computes for a number
abbrev pub table_offset : FatCtx → ℕ → ℕ
table_offset ctx n = u32 (u32 (ctx.fat_begin_sector * 512) + u32 (4 * n))

abbrev pub delimiter : ℕ
delimiter = 0x0fffffff

module _ (dev : Device) (leftover : IoCtx dev.Card → ℕ) where
  open dev use {Card}

  -- The write to the entry of the previous cluster. `prev` is assigned the pointer to the data of the
  -- list's last node: `data_address` has the pointers, by the node's place in the list.
  abbrev pub link_previous : (ℕ → ℕ) → FatCtx → List ℕ → ℕ → IoCtx Card → IoCtx Card
  link_previous data_address ctx [] cluster io = io
  link_previous data_address ctx (c ∷ chain) cluster io =
      (io_write_nbytes dev leftover io (le32 cluster)
        (table_offset ctx (data_address (length chain)))).1

  -- No code is looked at.
  unfoldable pub fat32_update_fat : (ℕ → ℕ) → FatCtx → File → ℕ → IoCtx Card → ℕ × File × IoCtx Card
  fat32_update_fat data_address ctx file cluster io =
      let io1 = link_previous data_address ctx file.fat_list cluster io in
      (
        0,
        record file { fat_list = file.fat_list ++ cluster ∷ [] },
        (io_write_nbytes dev leftover io1 (le32 delimiter) (table_offset ctx cluster)).1,
      )

module _ (dev : Device) (answers : Answers dev) (k : ℕ) (hk : is_negative (u8 k) ≡ false) where
  open dev use {Card}

  -- For a file without clusters, on a card that answers every call for a 32-bit address, with a leftover
  -- value that is not negative, for a context with 16-bit sector addresses and an output buffer of
  -- 512 bytes, and with an entry of the table below 32 MiB, fat32_update_fat makes the cluster the
  -- file's whole list, and the table then links the cluster up to that list.
  pub update_fat-IsChain :
      (data_address : ℕ → ℕ) (ctx : FatCtx) (file : File) (cluster : ℕ) (io : IoCtx Card)
      → Addressed dev io
      → length io.output_sector_buf ≡ 512
      → table_offset ctx cluster + 4 ≤ reach
      → file.fat_list ≡ []
      → (let out = fat32_update_fat dev (λ _. k) data_address ctx file cluster io in
          (out.1.fat_list ≡ cluster ∷ []) × IsChain (memory dev out.2) ctx cluster out.1.fat_list)
  unfolding fat32_update_fat io_write_nbytes fat32_is_last_cluster
  update_fat-IsChain data_address ctx file cluster io v room near none_yet =
      let o = table_offset ctx cluster in
      let same : fat_address ctx cluster ≡ o = omega arith in
      let code = (write_from-Addressed dev answers k (le32 delimiter) io o 0 hk v).0 in
      let w = write_nbytes-WroteAll dev (λ _. k) io (le32 delimiter) o room near code in
      let io' = (io_write_nbytes dev (λ _. k) io (le32 delimiter) o).1 in
      let word : word_at (memory dev io') o ≡ delimiter =
        ap (λ (m : ℕ → ℕ). word_at m o) (fun_ext w.written)
        ∙ sym (read32-bytes_from (write_all (memory dev io) o (le32 delimiter)) o)
        ∙ ap (λ (b : List ℕ). read32 b 0)
            (bytes_from-write_all (memory dev io) o (le32 delimiter)) in
      rw none_yet (refl, last (rw same near) (rw (same, word) refl))
