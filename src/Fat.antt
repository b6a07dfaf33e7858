-- ===== src/Fat.antt =====
-- src/fat.c and src/include/fat.h: the FAT32 file system. The linked lists of the code, which only
-- ever grow at their end, are lists; a function that writes through a pointer returns the new value.
-- Debug output is left out.
pub mod Layout
pub mod Entries
pub mod Chain
pub mod Follow
pub mod Listing
pub mod Scan
pub mod Mount
pub mod Alloc
pub mod Free
pub mod Files
pub mod Settled
pub mod Write
pub mod Logged
pub mod Log
pub mod Table
pub mod Create
pub mod Dump
pub mod Sample
mod MountTests
mod Tests
use ee459spring.Base.{
  ℕ, List, [], ◌∷◌, ◌+◌, bit_or, u32, if◌then◌else◌, get_or, Bool, suc, ◌^◌, ◌<<<◌, ◌*◌, bit_and,
  ◌==◌, leb, true, ◌-◌, ◌&&◌, zero, ◌%◌, ◌||◌,
}
use Layout.{Entry, Partition, BootSector}

-- `struct fat32_file`
pub record File : Type 0 where
  pub file_name : List ℕ
  pub file_ext : List ℕ
  pub file_size : ℕ
  pub start_byte_offset : ℕ
  pub current_byte_offset : ℕ
  pub root_dir_offset : ℕ
  pub current_cluster : ℕ
  pub first_cluster : ℕ
  pub current_sector : ℕ
  pub sectors_per_cluster : ℕ
  pub fat_list : List ℕ

-- `struct fat32_ctx`, without the pointer to the io context
pub record FatCtx : Type 0 where
  pub partition_type : ℕ
  pub start_sector : ℕ
  pub length_sectors : ℕ
  pub reserved_sectors : ℕ
  pub number_of_fats : ℕ
  pub sectors_per_fat_32 : ℕ
  pub sectors_per_cluster : ℕ
  pub cluster_number_root_dir : ℕ
  pub cluster_begin_sector : ℕ
  pub root_dir_sector : ℕ
  pub fat_begin_sector : ℕ
  pub root_dir_entries : List File

abbrev pub filename_never_used : ℕ
filename_never_used = 0x00

abbrev pub filename_file_deleted : ℕ
filename_file_deleted = 0xe5

abbrev pub filename_first_char_e5 : ℕ
filename_first_char_e5 = 0x05

-- a - b of type `uint32_t`
abbrev pub sub32 : ℕ → ℕ → ℕ
sub32 a b = (a + 2 ^ 32 - b) % 2 ^ 32

unfoldable pub fat32_calc_first_cluster : ℕ → ℕ → ℕ
fat32_calc_first_cluster high low = bit_or (high <<< 16) low

unfoldable pub fat32_calc_lba_from_cluster : ℕ → ℕ → ℕ → ℕ
fat32_calc_lba_from_cluster cluster_begin_lba sectors_per_cluster cluster_number =
    u32 (cluster_begin_lba + sub32 cluster_number 2 * sectors_per_cluster)

-- a name that is a long file name's part
abbrev pub is_lfn : Entry → ℕ
is_lfn e = if bit_and e.file_attr 0x0f == 0x0f then 1 else 0

-- the first byte of the name
abbrev pub first_char : Entry → ℕ
first_char e = get_or e.filename 0 0

-- -1 at the end of the directory, 0 for every other entry
unfoldable pub fat32_parse_entry : Entry → ℕ
fat32_parse_entry e =
    if first_char e == filename_never_used
    then 255
    else if first_char e == filename_file_deleted
    then 0
    else if first_char e == filename_first_char_e5
    then 0
    else if is_lfn e == 1
    then 0
    else 0

unfoldable pub fat32_set_partition : FatCtx → Partition → FatCtx
fat32_set_partition fat32 pt = record fat32 {
  partition_type = pt.partition_type;
  start_sector = pt.start_sector;
  length_sectors = pt.length_sectors;
}

-- the first sector of the clusters
abbrev pub begin_of : FatCtx → BootSector → ℕ
begin_of fat32 bs =
    u32 (fat32.start_sector + bs.reserved_sectors + u32 (bs.number_of_fats * bs.sectors_per_fat_32))

unfoldable pub fat32_set_context : FatCtx → BootSector → FatCtx
fat32_set_context fat32 bs = record fat32 {
  reserved_sectors = bs.reserved_sectors;
  number_of_fats = bs.number_of_fats;
  sectors_per_fat_32 = bs.sectors_per_fat_32;
  sectors_per_cluster = bs.sectors_per_cluster;
  cluster_number_root_dir = bs.cluster_number_root_dir;
  cluster_begin_sector = begin_of fat32 bs;
  root_dir_sector =
      u32 (begin_of fat32 bs + sub32 bs.cluster_number_root_dir 2 * bs.sectors_per_cluster);
  fat_begin_sector = u32 (fat32.start_sector + bs.reserved_sectors);
  root_dir_entries = [];
}

unfoldable pub fat32_is_last_cluster : ℕ → Bool
fat32_is_last_cluster dat = leb 0x0ffffff8 (bit_and 0x0fffffff dat)

-- `strncpy` of `n` bytes: the string, filled up with NULs
abbrev pub strncpy : ℕ → List ℕ → List ℕ
strncpy zero src = []
strncpy (suc n) [] = 0 ∷ strncpy n []
strncpy (suc n) (c ∷ src) = c ∷ strncpy n (if c == 0 then [] else src)

-- `!strncmp(a, b, n)`
abbrev pub strncmp_equal : ℕ → List ℕ → List ℕ → Bool
strncmp_equal zero a b = true
strncmp_equal (suc n) [] b = get_or b 0 0 == 0
strncmp_equal (suc n) (x ∷ a) [] = x == 0
strncmp_equal (suc n) (x ∷ a) (y ∷ b) = x == y && (x == 0 || strncmp_equal n a b)
