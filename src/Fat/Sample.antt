-- ===== src/Fat/Sample.antt =====
-- A small card with one file, for runs of src/fat.c.
use ee459spring.Base.{ℕ, refl, ◌≡◌, List, [], ◌∷◌, ◌++◌, replicate, arith, true, get_or, ◌+◌, ◌≤◌}
use ee459spring.Io.{IoCtx}
use ee459spring.Io.Ram.{ram, fit}
use ee459spring.Io.Memory.{stored_byte, reach}
use ee459spring.Io.Reliable.{Answers}
use ee459spring.Fat.{
  File, FatCtx, fat32_set_partition, fat32_set_context, fat32_is_last_cluster,
  fat32_calc_first_cluster,
}
use ee459spring.Fat.Layout.{decode_entry, decode_partition, decode_boot_sector}
use ee459spring.Fat.Chain.{is_fat32}
use ee459spring.Fat.Follow.{link, last}
use ee459spring.Fat.Listing.{Found, Lists, entry_at, pass, file, end_mark}
use ee459spring.Fat.Mount.{context_of, partition_of, boot_address}

pub ram-Answers : Answers ram
ram-Answers = record { gets = λ c a h. refl; puts = λ c a buf h. refl }

-- entry 0 is deleted, entry 1 is a file, entry 2 is the end
abbrev pub entry_bytes : ℕ → List ℕ
entry_bytes c =
    (c ∷ 66 ∷ 67 ∷ 68 ∷ 69 ∷ 70 ∷ 71 ∷ 72 ∷ 84 ∷ 88 ∷ 84 ∷ 32 ∷ [])
    ++ replicate 14 0
    ++ (3 ∷ 0 ∷ 44 ∷ 1 ∷ 0 ∷ 0 ∷ [])

-- sector 0 has the partition table, 1 the boot sector, 2 the allocation table, and 3 the directory
abbrev pub sectors : List (List ℕ)
sectors =
    (replicate 450 0 ++ (11 ∷ 0 ∷ 0 ∷ 0 ∷ 1 ∷ 0 ∷ 0 ∷ 0 ∷ 100 ∷ []))
    ∷ (replicate 13 0
        ++ (1 ∷ 1 ∷ 0 ∷ 1 ∷ [])
        ++ replicate 19 0
        ++ (1 ∷ [])
        ++ replicate 7 0
        ++ (2 ∷ []))
    ∷ (replicate 20 0 ++ (6 ∷ 0 ∷ 0 ∷ 0 ∷ 255 ∷ 255 ∷ 255 ∷ 15 ∷ []))
    ∷ (entry_bytes 0xe5 ++ entry_bytes 65)
    ∷ []

abbrev pub small_card : ℕ → List ℕ
small_card a = get_or sectors a []

abbrev pub at_start : IoCtx (ℕ → List ℕ)
at_start = record {
  input_sector_addr = 0;
  input_byte_addr = 0;
  input_sector_buf = fit 512 (small_card 0);
  output_sector_addr = 0;
  output_byte_addr = 0;
  output_sector_buf = fit 512 (small_card 0);
  card = small_card;
}

abbrev pub no_file : File
no_file = record {
  file_name = [];
  file_ext = [];
  file_size = 0;
  start_byte_offset = 0;
  current_byte_offset = 0;
  root_dir_offset = 0;
  current_cluster = 0;
  first_cluster = 0;
  current_sector = 0;
  sectors_per_cluster = 0;
  fat_list = [];
}

abbrev pub empty : FatCtx
empty = record {
  partition_type = 0;
  start_sector = 0;
  length_sectors = 0;
  reserved_sectors = 0;
  number_of_fats = 0;
  sectors_per_fat_32 = 0;
  sectors_per_cluster = 0;
  cluster_number_root_dir = 0;
  cluster_begin_sector = 0;
  root_dir_sector = 0;
  fat_begin_sector = 0;
  root_dir_entries = [];
}

abbrev pub mounted : FatCtx
mounted = record {
  partition_type = 11;
  start_sector = 1;
  length_sectors = 100;
  reserved_sectors = 1;
  number_of_fats = 1;
  sectors_per_fat_32 = 1;
  sectors_per_cluster = 1;
  cluster_number_root_dir = 2;
  cluster_begin_sector = 3;
  root_dir_sector = 3;
  fat_begin_sector = 2;
  root_dir_entries = [];
}

abbrev pub the_file : Found
the_file = (1, entry_at (stored_byte ram small_card) mounted 512 1, 5 ∷ 6 ∷ [])

pub Lists-one : Lists (stored_byte ram small_card) mounted 512 2 16 0 (the_file ∷ [])
unfolding decode_entry fat32_is_last_cluster fat32_calc_first_cluster
Lists-one = pass (omega arith) refl refl (
    file (omega arith) refl (link (omega arith) refl (last (omega arith) refl)) (omega arith)
      (end_mark (omega arith) refl))

abbrev pub stored : ℕ → ℕ
stored = stored_byte ram small_card

pub fat32_there : is_fat32 (partition_of stored).partition_type ≡ true
unfolding decode_partition
fat32_there = refl

pub boot_near : boot_address stored + 512 ≤ reach
unfolding decode_partition
boot_near = omega arith

pub Lists-here : Lists stored (context_of stored empty) 512 2 16 0 (the_file ∷ [])
unfolding fat32_set_partition fat32_set_context decode_partition decode_boot_sector
Lists-here = Lists-one
