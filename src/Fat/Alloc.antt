-- ===== src/Fat/Alloc.antt =====
-- src/fat.c: the searches over the cached root directory.
use ee459spring.Base.{
  ℕ, List, [], ◌∷◌, ◌+◌, Bool, length, Option, false, none, suc, ◌==◌, ◌||◌, if◌then◌else◌, some,
  ◌&&◌, zero,
}
use ee459spring.Fat.{File, FatCtx, strncmp_equal}

-- the inner loop: is the address in one file's list?
abbrev pub in_list : ℕ → List ℕ → Bool
in_list addr [] = false
in_list addr (t ∷ ts) = t == addr || in_list addr ts

-- the outer loop, over the files of the directory
abbrev pub fat32_address_in_dir : List File → ℕ → Bool
fat32_address_in_dir [] addr = false
fat32_address_in_dir (f ∷ fs) addr = in_list addr f.fat_list || fat32_address_in_dir fs addr

abbrev pub fat32_root_entry_found : List File → ℕ → Bool
fat32_root_entry_found [] loc = false
fat32_root_entry_found (file ∷ files) loc =
    file.root_dir_offset == loc || fat32_root_entry_found files loc

-- `while (taken(k)) k++;` with fuel
unfoldable pub first_free : ℕ → (ℕ → Bool) → ℕ → Option ℕ
first_free zero taken k = none
first_free (suc fuel) taken k =
    let more = first_free fuel taken (k + 1) in if taken k then more else some k

-- how many numbers a directory can take up, and one
abbrev pub cluster_fuel : List File → ℕ
cluster_fuel [] = 1
cluster_fuel (f ∷ fs) = length f.fat_list + cluster_fuel fs

unfoldable pub fat32_get_next_cluster : FatCtx → Option ℕ
unfolding first_free
fat32_get_next_cluster ctx =
    first_free (cluster_fuel ctx.root_dir_entries) (fat32_address_in_dir ctx.root_dir_entries) 2

unfoldable pub fat32_get_next_root_dir_loc : FatCtx → Option ℕ
unfolding first_free
fat32_get_next_root_dir_loc ctx =
    first_free (length ctx.root_dir_entries + 1) (fat32_root_entry_found ctx.root_dir_entries) 0

-- the first cached file of the same name and extension
abbrev pub find_file : File → List File → Option File
find_file file [] = none
find_file file (cached ∷ files) =
    let rest = find_file file files in
    if strncmp_equal 8 cached.file_name file.file_name
      && strncmp_equal 3 cached.file_ext file.file_ext
    then some cached
    else rest

unfoldable pub fat32_file_exists : FatCtx → File → Option File
fat32_file_exists ctx file = find_file file ctx.root_dir_entries
