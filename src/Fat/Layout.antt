-- ===== src/Fat/Layout.antt =====
-- The packed structs of src/include/fat.h as bytes of the card, least significant byte first.
use ee459spring.Base.{ℕ, List, [], ◌∷◌, ◌+◌, ◌%◌, get_or, ◌*◌, ◌++◌, take, ◌/◌, drop}

abbrev pub le16 : ℕ → List ℕ
le16 n = n % 256 ∷ n / 256 % 256 ∷ []

abbrev pub le32 : ℕ → List ℕ
le32 n = n % 256 ∷ n / 256 % 256 ∷ n / 65536 % 256 ∷ n / 16777216 % 256 ∷ []

abbrev pub read16 : List ℕ → ℕ → ℕ
read16 b o = get_or b o 0 + 256 * get_or b (o + 1) 0

abbrev pub read32 : List ℕ → ℕ → ℕ
read32 b o = read16 b o + 65536 * read16 b (o + 2)

-- `struct FAT32Entry`
pub record Entry : Type 0 where
  pub filename : List ℕ
  pub filename_ext : List ℕ
  pub file_attr : ℕ
  pub reserved : ℕ
  pub date_time_creat : List ℕ
  pub accessed_date : ℕ
  pub first_cluster_addr_high : ℕ
  pub time_last_modified : ℕ
  pub date_last_modified : ℕ
  pub first_cluster_addr_low : ℕ
  pub file_size : ℕ

unfoldable pub encode_entry : Entry → List ℕ
encode_entry e =
    e.filename
    ++ (e.filename_ext
        ++ (e.file_attr ∷ e.reserved ∷ [])
        ++ (e.date_time_creat
            ++ (le16 e.accessed_date
                ++ (le16 e.first_cluster_addr_high
                    ++ (le16 e.time_last_modified
                        ++ (le16 e.date_last_modified
                            ++ (le16 e.first_cluster_addr_low ++ le32 e.file_size)))))))

unfoldable pub decode_entry : List ℕ → Entry
decode_entry b = record {
  filename = take 8 b;
  filename_ext = take 3 (drop 8 b);
  file_attr = get_or b 11 0;
  reserved = get_or b 12 0;
  date_time_creat = take 5 (drop 13 b);
  accessed_date = read16 b 18;
  first_cluster_addr_high = read16 b 20;
  time_last_modified = read16 b 22;
  date_last_modified = read16 b 24;
  first_cluster_addr_low = read16 b 26;
  file_size = read32 b 28;
}

-- `struct PartitionTable`, without the fields that are never read
pub record Partition : Type 0 where
  pub partition_type : ℕ
  pub start_sector : ℕ
  pub length_sectors : ℕ

unfoldable pub decode_partition : List ℕ → Partition
decode_partition b = record {
  partition_type = get_or b 4 0;
  start_sector = read32 b 8;
  length_sectors = read32 b 12;
}

-- `struct FAT32BootSector`, without the fields that are never read
pub record BootSector : Type 0 where
  pub sectors_per_cluster : ℕ
  pub reserved_sectors : ℕ
  pub number_of_fats : ℕ
  pub sectors_per_fat_32 : ℕ
  pub cluster_number_root_dir : ℕ

unfoldable pub decode_boot_sector : List ℕ → BootSector
decode_boot_sector b = record {
  sectors_per_cluster = get_or b 13 0;
  reserved_sectors = read16 b 14;
  number_of_fats = get_or b 16 0;
  sectors_per_fat_32 = read32 b 36;
  cluster_number_root_dir = read32 b 44;
}
