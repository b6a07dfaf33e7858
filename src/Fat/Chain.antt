-- ===== src/Fat/Chain.antt =====
-- src/fat.c: following the file allocation table, opening files, and reading the root directory.
use ee459spring.Base.{
  ℕ, List, [], ◌∷◌, ◌+◌, u32, Option, Bool, if◌then◌else◌, none, some, take, ◌==◌, suc, ◌||◌,
  replicate, ◌*◌, ◌++◌, zero, not,
}
use ee459spring.Io.{IoCtx, io_read_nbytes, is_negative}
use ee459spring.Io.Sectors.{Device}
use mathlib.Core.Option
use ee459spring.Fat.{
  File, FatCtx, fat32_is_last_cluster, strncpy, fat32_calc_first_cluster, first_char,
  filename_never_used, filename_file_deleted, fat32_set_partition, is_lfn, fat32_set_context,
  fat32_parse_entry,
}
use ee459spring.Fat.Layout.{Entry, read32, decode_entry, decode_partition, decode_boot_sector}

-- the first cluster of an entry, as `fat32_open_file` computes it
abbrev pub opened_cluster : Entry → ℕ
opened_cluster e =
    u32 (fat32_calc_first_cluster e.first_cluster_addr_high e.first_cluster_addr_low + 2)

-- what `fat32_open_file` stores once the chain is known
abbrev pub opened : FatCtx → Entry → List ℕ → File → File
opened ctx e chain file = record file {
  fat_list = chain;
  file_size = e.file_size;
  start_byte_offset = 0;
  current_byte_offset = 0;
  file_name = strncpy 8 e.filename;
  file_ext = strncpy 3 e.filename_ext;
  current_cluster = opened_cluster e;
  sectors_per_cluster = ctx.sectors_per_cluster;
  current_sector = 0;
}

-- entries that the directory scan passes over
abbrev pub skipped : Entry → Bool
skipped e =
    first_char e == filename_never_used || first_char e == filename_file_deleted || is_lfn e == 1

-- is the partition one of FAT32?
abbrev pub is_fat32 : ℕ → Bool
is_fat32 partition_type = partition_type == 11 || partition_type == 12

module _ (dev : Device) where
  open dev use {Card}

  -- The do-while loop of `fat32_get_fat`, on fuel: a table with a cycle keeps it running (`none`).
  unfoldable pub fat32_get_fat :
      ℕ → FatCtx → ℕ → List ℕ → IoCtx Card → Option (ℕ × List ℕ × IoCtx Card)
  fat32_get_fat zero ctx curr_address n io = none
  fat32_get_fat (suc fuel) ctx curr_address n io =
      let (ret, bytes, io') =
        io_read_nbytes dev io (replicate 4 0)
          (u32 (512 * ctx.fat_begin_sector + curr_address * 4)) in
      let next_address = read32 bytes 0 in
      let more = fat32_get_fat fuel ctx next_address (n ++ (curr_address ∷ [])) io' in
      if is_negative ret
      then some (255, [], io')
      else if fat32_is_last_cluster next_address
      then some (0, n ++ (curr_address ∷ []), io')
      else more

  abbrev pub open_result : FatCtx → Entry → File → ℕ × List ℕ × IoCtx Card → ℕ × File × IoCtx Card
  open_result ctx e file (ret, chain, io) =
      if is_negative ret then (255, file, io) else (0, opened ctx e chain file, io)

  unfoldable pub fat32_open_file :
      ℕ → FatCtx → Entry → File → IoCtx Card → Option (ℕ × File × IoCtx Card)
  unfolding fat32_get_fat
  fat32_open_file fuel ctx e file io =
      Option.map (open_result ctx e file) (fat32_get_fat fuel ctx (opened_cluster e) [] io)

  -- The loop of `fat32_cache_root_dir` with `rounds` rounds left, from directory index `j` on. The
  -- local `file` and the entry's memory `e` keep their contents from round to round; the code of
  -- `fat32_open_file` is not looked at. `none` is a chain that does not end.
  unfoldable pub cache_entries :
      ℕ → ℕ → ℕ → ℕ → List ℕ → File → FatCtx → IoCtx Card → Option (FatCtx × IoCtx Card)
  unfolding fat32_open_file
  cache_entries fuel sector_size zero j e file ctx io = some (ctx, io)
  cache_entries fuel sector_size (suc rounds) j e file ctx io =
      let (ret, e', io') =
        io_read_nbytes dev io e (u32 (u32 (ctx.root_dir_sector * sector_size) + u32 (j * 32))) in
      let entry = decode_entry e' in
      let next = cache_entries fuel sector_size rounds (j + 1) e' file ctx io' in
      let keep : ℕ × File × IoCtx Card → Option (FatCtx × IoCtx Card) = λ r.
        let file' = record (r.1) { root_dir_offset = j } in
        cache_entries fuel sector_size rounds (j + 1) e' file'
          (record ctx { root_dir_entries = ctx.root_dir_entries ++ (file' ∷ []) }) r.2 in
      if is_negative ret
      then some (ctx, io')
      else if is_negative (fat32_parse_entry entry)
      then some (ctx, io')
      else if skipped entry
      then next
      else Option.bind (fat32_open_file fuel ctx entry file io') keep

  -- The scan looks at 16 entries. Its result is always 0.
  unfoldable pub fat32_cache_root_dir :
      ℕ → ℕ → List ℕ → File → FatCtx → IoCtx Card → Option (FatCtx × IoCtx Card)
  unfolding cache_entries
  fat32_cache_root_dir fuel sector_size e file ctx io =
      cache_entries fuel sector_size 16 0 e file ctx io

  -- The end of `initialize_fat32`, from what the read of the boot sector returned on.
  unfoldable pub start_directory :
      ℕ → ℕ → List ℕ → File → FatCtx → ℕ × List ℕ × IoCtx Card → Option (ℕ × FatCtx × IoCtx Card)
  unfolding fat32_cache_root_dir
  start_directory fuel sector_size stack file fat32 (ret, bs, io) =
      let fat' = fat32_set_context fat32 (decode_boot_sector bs) in
      let done : FatCtx × IoCtx Card → ℕ × FatCtx × IoCtx Card = λ r. (0, r.0, r.1) in
      if is_negative ret
      then some (255, fat32, io)
      else Option.map done (fat32_cache_root_dir fuel sector_size (take 32 stack) file fat' io)

  -- The middle of it, from what the read of the partition table returned on.
  unfoldable pub start_partition :
      ℕ → ℕ → List ℕ → File → FatCtx → ℕ × List ℕ × IoCtx Card → Option (ℕ × FatCtx × IoCtx Card)
  unfolding start_directory
  start_partition fuel sector_size stack file fat32 (ret, pt, io) =
      let part = decode_partition pt in
      let fat' = fat32_set_partition fat32 part in
      if is_negative ret
      then some (255, fat32, io)
      else if not (is_fat32 fat'.partition_type)
      then some (255, fat', io)
      else start_directory fuel sector_size stack file fat'
          (io_read_nbytes dev io (take 512 stack) (u32 (512 * part.start_sector)))

  -- The local variables `pt`, `bs`, `e` and the `file` of the scan are not initialised: `stack` and
  -- `file` are what they hold, `stack` with 512 bytes. The card's status and sector size come from `struct sd_ctx`.
  unfoldable pub initialize_fat32 :
      ℕ → Bool → ℕ → List ℕ → File → FatCtx → IoCtx Card → Option (ℕ × FatCtx × IoCtx Card)
  unfolding start_partition
  initialize_fat32 fuel sd_disabled sector_size stack file fat32 io =
      if sd_disabled
      then some (0, fat32, io)
      else start_partition fuel sector_size stack file fat32
          (io_read_nbytes dev io (take 64 stack) 0x1be)
