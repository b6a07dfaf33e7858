-- ===== src/Fat/Tests.antt =====
-- The theorems about src/fat.c at concrete inputs.
use mathlib.Core.Option
use ee459spring.Base.{refl, ℕ, List, arith, length, [], ◌≡◌, ◌∷◌, some, none}
use ee459spring.Io.{IoCtx}
use ee459spring.Io.Ram.{ram, fit}
use ee459spring.Fat.{File, FatCtx, fat32_is_last_cluster}
use ee459spring.Fat.Layout.{Entry, encode_entry, decode_entry}
use ee459spring.Fat.Entries.{IsEntry, decode-encode}
use ee459spring.Fat.Follow.{IsChain, Followed, get_fat-Followed, link, last}
use ee459spring.Fat.Alloc.{
  fat32_file_exists, fat32_root_entry_found, fat32_address_in_dir, fat32_get_next_cluster,
  fat32_get_next_root_dir_loc,
}
use ee459spring.Fat.Free.{IsLeast, get_next_cluster-IsLeast, get_next_root_dir_loc-IsLeast}
use ee459spring.Fat.Files.{fat32_creat_file}
use ee459spring.Fat.Create.{created, IsNew, creat_file-IsNew, creat_file-same_place}
use ee459spring.Io.Memory.{stored_byte, memory}
use ee459spring.Fat.Sample.{ram-Answers}
use ee459spring.Fat.Logged.{IsLog}
use ee459spring.Fat.Log.{Buffers, write_each, creat_file-IsLog}
use ee459spring.Fat.Files.{new_entry}
use ee459spring.Base.{replicate}

-- the table stands in sector 1: cluster 2 links to 3, and 3 is the last
abbrev table : List ℕ
table = 0 ∷ 0 ∷ 0 ∷ 0 ∷ 0 ∷ 0 ∷ 0 ∷ 0 ∷ 3 ∷ 0 ∷ 0 ∷ 0 ∷ 255 ∷ 255 ∷ 255 ∷ 15 ∷ []

abbrev card : ℕ → List ℕ
card a = table

abbrev start : IoCtx (ℕ → List ℕ)
start = record {
  input_sector_addr = 0;
  input_byte_addr = 0;
  input_sector_buf = fit 512 table;
  output_sector_addr = 0;
  output_byte_addr = 0;
  output_sector_buf = fit 512 table;
  card = card;
}

abbrev named : ℕ → File
named c = record {
  file_name = c ∷ 0 ∷ [];
  file_ext = 0 ∷ [];
  file_size = 0;
  start_byte_offset = 0;
  current_byte_offset = 0;
  root_dir_offset = 0;
  current_cluster = 4;
  first_cluster = 0;
  current_sector = 0;
  sectors_per_cluster = 1;
  fat_list = 2 ∷ 3 ∷ [];
}

abbrev ctx : FatCtx
ctx = record {
  partition_type = 11;
  start_sector = 0;
  length_sectors = 4096;
  reserved_sectors = 1;
  number_of_fats = 2;
  sectors_per_fat_32 = 1;
  sectors_per_cluster = 1;
  cluster_number_root_dir = 2;
  cluster_begin_sector = 3;
  root_dir_sector = 3;
  fat_begin_sector = 1;
  root_dir_entries = named 65 ∷ [];
}

abbrev no_return : IoCtx (ℕ → List ℕ) → ℕ
no_return _ = 0

abbrev some_entry : Entry
some_entry = record {
  filename = 65 ∷ 66 ∷ 67 ∷ 68 ∷ 69 ∷ 70 ∷ 71 ∷ 72 ∷ [];
  filename_ext = 84 ∷ 88 ∷ 84 ∷ [];
  file_attr = 32;
  reserved = 0;
  date_time_creat = 1 ∷ 2 ∷ 3 ∷ 4 ∷ 5 ∷ [];
  accessed_date = 300;
  first_cluster_addr_high = 1;
  time_last_modified = 2;
  date_last_modified = 3;
  first_cluster_addr_low = 4660;
  file_size = 70000;
}

some_entry-IsEntry : IsEntry some_entry
some_entry-IsEntry = record {
  name_width = refl;
  ext_width = refl;
  date_width = refl;
  accessed = omega arith;
  high = omega arith;
  time = omega arith;
  date = omega arith;
  low = omega arith;
  size = omega arith;
}

entry_reads_back :
    (length (encode_entry some_entry) ≡ 32) × (decode_entry (encode_entry some_entry) ≡ some_entry)
entry_reads_back = decode-encode some_entry some_entry-IsEntry

two_clusters : IsChain (stored_byte ram card) ctx 2 (2 ∷ 3 ∷ [])
unfolding fat32_is_last_cluster
two_clusters = link (omega arith) refl (last (omega arith) refl)

get_fat-Followed_example : Followed ram 2 ctx 2 [] (2 ∷ 3 ∷ []) start
get_fat-Followed_example =
    get_fat-Followed ram 2 ctx 2 [] (2 ∷ 3 ∷ []) start refl two_clusters (omega arith)

get_next_cluster-IsLeast_example :
    (k : ℕ) × (fat32_get_next_cluster ctx ≡ some k)
    × IsLeast (fat32_address_in_dir ctx.root_dir_entries) 2 k
get_next_cluster-IsLeast_example = get_next_cluster-IsLeast ctx

finds_a_place :
    (k : ℕ) × (fat32_get_next_root_dir_loc ctx ≡ some k)
    × IsLeast (fat32_root_entry_found ctx.root_dir_entries) 0 k
finds_a_place = get_next_root_dir_loc-IsLeast ctx

new_b : fat32_file_exists ctx (named 66) ≡ none
unfolding fat32_file_exists
new_b = refl

new_c : fat32_file_exists ctx (named 67) ≡ none
unfolding fat32_file_exists
new_c = refl

creat_file-IsNew_example :
    (loc : ℕ) × (cluster : ℕ) × (r : ℕ × File × IoCtx (ℕ → List ℕ)) × IsLeast
      (fat32_root_entry_found ctx.root_dir_entries)
      0
      loc
    × IsLeast (fat32_address_in_dir ctx.root_dir_entries) 2 cluster
    × (fat32_creat_file ram no_return ctx (named 66) start ≡ some r)
    × IsNew ram no_return ctx (named 66) start loc cluster r
creat_file-IsNew_example = creat_file-IsNew ram no_return ctx (named 66) start new_b

creat_file-same_place_example :
    (r : ℕ × File × IoCtx (ℕ → List ℕ)) × (s : ℕ × File × IoCtx (ℕ → List ℕ)) × (fat32_creat_file
        ram no_return ctx
        (named 66)
        start
      ≡ some r)
    × (fat32_creat_file ram no_return ctx (named 67) r.2 ≡ some s)
    × (r.0 ≡ 0)
    × (s.0 ≡ 0)
    × (r.1.root_dir_offset ≡ s.1.root_dir_offset)
    × (r.1.current_cluster ≡ s.1.current_cluster)
creat_file-same_place_example =
    creat_file-same_place ram no_return ctx (named 66) (named 67) start new_b new_c

-- the new file has the second place and cluster 4
made :
    fat32_creat_file ram (λ _. 0) ctx (named 66) start
    ≡ some (created ram (λ _. 0) ctx (named 66) start 1 4)
unfolding fat32_creat_file fat32_file_exists fat32_get_next_root_dir_loc fat32_get_next_cluster
    Option.bind
made = refl

abbrev lines : Buffers
lines = (49, 44 ∷ []) ∷ (50, []) ∷ []

creat_file-IsLog_example :
    (let r = created ram (λ _. 0) ctx (named 66) start 1 4 in
      IsLog (new_entry (named 66) 4) 1568 2560 (49 ∷ 44 ∷ 50 ∷ []) (
        memory ram
          (write_each ram ram-Answers 0 refl 7 (replicate 31 7) refl ctx lines (r.1, r.2)).1))
creat_file-IsLog_example =
    creat_file-IsLog ram ram-Answers 0 refl 7 (replicate 31 7) refl ctx (named 66) start
      (created ram (λ _. 0) ctx (named 66) start 1 4) lines
      (record { input = omega arith; output = omega arith }) refl new_b made (omega arith)
      (omega arith)
