-- ===== src/Fat/Files.antt =====
-- src/fat.c: creating a file, writing to it, and its directory entry.
use mathlib.Core.Option
use ee459spring.Base.{ℕ, List, [], ◌+◌, u32, replicate, ◌*◌, u16, Option, length, ◌>>>◌, some, none}
use ee459spring.Io.{
  IoCtx, io_read_nbytes, io_write_nbytes, io_flush_read_buffer, io_flush_write_buffer,
}
use ee459spring.Io.Sectors.{Device}
use ee459spring.Fat.{File, FatCtx, strncpy, sub32}
use ee459spring.Fat.Alloc.{fat32_file_exists, fat32_get_next_root_dir_loc, fat32_get_next_cluster}
use ee459spring.Fat.Layout.{Entry, decode_entry, encode_entry}

-- the byte address of a file's directory entry
abbrev pub entry_offset : FatCtx → File → ℕ
entry_offset ctx file = u32 (u32 (ctx.root_dir_sector * 512) + u32 (file.root_dir_offset * 32))

-- the entry that `fat32_creat_file` writes: all zeros but the names and the cluster
abbrev pub new_entry : File → ℕ → Entry
new_entry file cluster = record {
  filename = strncpy 8 file.file_name;
  filename_ext = strncpy 3 file.file_ext;
  file_attr = 0;
  reserved = 0;
  date_time_creat = replicate 5 0;
  accessed_date = 0;
  first_cluster_addr_high = u16 (cluster >>> 16);
  time_last_modified = 0;
  date_last_modified = 0;
  first_cluster_addr_low = u16 cluster;
  file_size = 0;
}

-- the address of the first byte of a file, which both branches of `fat32_creat_file` end with
abbrev pub start_of : FatCtx → ℕ → ℕ
start_of ctx cluster = u32 (
    u32 (ctx.cluster_begin_sector * 512)
    + u32 (u32 (sub32 cluster 2 * ctx.sectors_per_cluster) * 512))

abbrev pub started : FatCtx → File → File
started ctx file = record file {
  start_byte_offset = start_of ctx file.current_cluster;
  current_byte_offset = start_of ctx file.current_cluster;
}

-- the branch for a file that the directory already has
abbrev pub reuse : File → File → File
reuse file f = record file {
  root_dir_offset = f.root_dir_offset;
  file_size = f.file_size;
  fat_list = f.fat_list;
  current_cluster = f.current_cluster;
}

module _ (dev : Device) where
  open dev use {Card}

  module _ (leftover : IoCtx Card → ℕ) where
    -- The read may fail and leave `stack`, what the variable held before; no code is looked at.
    unfoldable pub fat32_update_file_size : List ℕ → FatCtx → File → ℕ → IoCtx Card → ℕ × IoCtx Card
    fat32_update_file_size stack ctx file size io =
        let (ret, bytes, io1) = io_read_nbytes dev io stack (entry_offset ctx file) in
        let e = decode_entry bytes in
        let e' = record e { file_size = u32 (e.file_size + size) } in
        (0, (io_write_nbytes dev leftover io1 (encode_entry e') (entry_offset ctx file)).1)

    -- the new file, once its place and its cluster are found
    abbrev pub fresh_file : FatCtx → File → ℕ → ℕ → File
    fresh_file ctx file loc cluster = record file {
      root_dir_offset = loc;
      file_size = 0;
      fat_list = [];
      current_cluster = cluster;
    }

    -- The cached directory `ctx` is not changed. `none` is a search that does not end.
    unfoldable pub fat32_creat_file : FatCtx → File → IoCtx Card → Option (ℕ × File × IoCtx Card)
    unfolding fat32_get_next_root_dir_loc fat32_get_next_cluster
    fat32_creat_file ctx file io = found (fat32_file_exists ctx file)
      where
        store : ℕ → ℕ → ℕ × File × IoCtx Card
        store loc cluster = (
          0,
          started ctx (fresh_file ctx file loc cluster),
          (io_write_nbytes dev leftover io (encode_entry (new_entry file cluster))
              (entry_offset ctx (fresh_file ctx file loc cluster))).1,
        )

        at_place : ℕ → Option (ℕ × File × IoCtx Card)
        at_place loc = Option.map (store loc) (fat32_get_next_cluster ctx)

        found : Option File → Option (ℕ × File × IoCtx Card)
        found (some f) = some (0, started ctx (reuse file f), io)
        found none = Option.bind (fat32_get_next_root_dir_loc ctx) at_place

    -- No code is looked at.
    unfoldable pub fat32_write_file_nbytes :
        List ℕ → FatCtx → File → List ℕ → IoCtx Card → ℕ × File × IoCtx Card
    fat32_write_file_nbytes stack ctx file buf io =
        let io1 = (io_write_nbytes dev leftover io buf file.current_byte_offset).1 in
        let io2 = (io_flush_read_buffer dev io1).1 in
        let io3 = (io_flush_write_buffer dev io2).1 in
        let io4 = (fat32_update_file_size stack ctx file (length buf) io3).1 in
        (0, record file { current_byte_offset = u32 (file.current_byte_offset + length buf) }, io4)
