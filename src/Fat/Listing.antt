-- ===== src/Fat/Listing.antt =====
-- What the root directory of a card lists, as src/fat.c reads it.
use ee459spring.Base.{
  refl, ℕ, suc, ◌≡◌, ◌≤◌, ◌+◌, ◌*◌, List, [], ◌∷◌, length, replicate, true, false, u32, ◌==◌, Bool,
  bit_or, arith, ◌%◌, get_or, bit_and, ◌||◌, ◌^◌, bit_and_comm, ◌∙◌, bit_and_low_bits, Bool-cases,
  inl, inr,
}
use ee459spring.Io.Memory.{reach}
use ee459spring.Io.Read.{bytes_from}
use ee459spring.Fat.{File, FatCtx, strncpy}
use ee459spring.Fat.Layout.{Entry, decode_entry}
use ee459spring.Fat.Chain.{opened_cluster, skipped}
use ee459spring.Fat.{is_lfn, fat32_calc_first_cluster}
use ee459spring.Fat.Follow.{IsChain, last, link}

-- the address at which the scan reads entry `j`
abbrev pub dir_address : FatCtx → ℕ → ℕ → ℕ
dir_address ctx sector_size j = u32 (u32 (ctx.root_dir_sector * sector_size) + u32 (j * 32))

-- the entry that a memory of bytes holds there
abbrev pub entry_at : (ℕ → ℕ) → FatCtx → ℕ → ℕ → Entry
entry_at mem ctx sector_size j =
    decode_entry (bytes_from mem (dir_address ctx sector_size j) (replicate 32 0))

-- An entry of FAT32 that was never used starts with the byte 0. One that is no file starts with that or with
-- 0xE5, for a deleted file, or has the four low bits of its attributes set, for a long name.
abbrev pub is_unused : Entry → Bool
is_unused e = get_or e.filename 0 0 == 0

abbrev pub passed_over : Entry → Bool
passed_over e = is_unused e || get_or e.filename 0 0 == 0xe5 || e.file_attr % 16 == 15

-- Where the chain of an entry is looked for: two past the cluster that the entry's halves give.
abbrev pub listed_cluster : Entry → ℕ
listed_cluster e =
    (bit_or (65536 * e.first_cluster_addr_high) e.first_cluster_addr_low + 2) % 2 ^ 32

is_lfn_lem : (e : Entry) → (is_lfn e == 1) ≡ (e.file_attr % 16 == 15)
is_lfn_lem e =
    let low : bit_and e.file_attr 15 ≡ e.file_attr % 16 =
      bit_and_comm e.file_attr 15 ∙ bit_and_low_bits 4 e.file_attr in
    elim (Bool-cases (e.file_attr % 16 == 15)) [
      | inl e1 ↦ rw (low, e1) refl
      | inr e2 ↦ rw (low, e2) refl
    ]

-- The code's tests and the cluster it asks for are these.
pub skipped_lem : (e : Entry) → skipped e ≡ passed_over e
skipped_lem e = rw (is_lfn_lem e) refl

pub opened_cluster_lem : (e : Entry) → opened_cluster e ≡ listed_cluster e
unfolding fat32_calc_first_cluster
opened_cluster_lem e =
    let swap : e.first_cluster_addr_high * 65536 ≡ 65536 * e.first_cluster_addr_high =
      omega arith in
    rw swap refl

-- a file of the directory: its index, its entry, and its clusters
abbrev pub Found : Type 0
Found = ℕ × Entry × List ℕ

-- The files that the directory of `mem` lists in `rounds` entries from index `j` on, up to the first
-- entry that was never used; all of it lies below 32 MiB, and no chain, each from two past the entry's
-- first cluster, is longer than `fuel`.
pub data Lists (mem : ℕ → ℕ) (ctx : FatCtx) (sector_size fuel : ℕ)
    : ℕ → ℕ → List Found → Type 0 where
  full : {j : ℕ} → Lists mem ctx sector_size fuel 0 j []
  end_mark :
      {rounds j : ℕ}
      → dir_address ctx sector_size j + 32 ≤ reach
      → is_unused (entry_at mem ctx sector_size j) ≡ true
      → Lists mem ctx sector_size fuel (suc rounds) j []
  pass :
      {rounds j : ℕ} {files : List Found}
      → dir_address ctx sector_size j + 32 ≤ reach
      → is_unused (entry_at mem ctx sector_size j) ≡ false
      → passed_over (entry_at mem ctx sector_size j) ≡ true
      → Lists mem ctx sector_size fuel rounds (j + 1) files
      → Lists mem ctx sector_size fuel (suc rounds) j files
  file :
      {rounds j : ℕ} {chain : List ℕ} {files : List Found}
      → dir_address ctx sector_size j + 32 ≤ reach
      → passed_over (entry_at mem ctx sector_size j) ≡ false
      → IsChain mem ctx (listed_cluster (entry_at mem ctx sector_size j)) chain
      → length chain ≤ fuel
      → Lists mem ctx sector_size fuel rounds (j + 1) files
      → Lists mem ctx sector_size fuel
          (suc rounds)
          j
          ((j, entry_at mem ctx sector_size j, chain) ∷ files)

-- What is cached for a file. `first_cluster` is never assigned.
abbrev pub cached : FatCtx → ℕ → Found → File
cached ctx first_cluster (j, e, chain) = record {
  file_name = strncpy 8 e.filename;
  file_ext = strncpy 3 e.filename_ext;
  file_size = e.file_size;
  start_byte_offset = 0;
  current_byte_offset = 0;
  root_dir_offset = j;
  current_cluster = listed_cluster e;
  first_cluster = first_cluster;
  current_sector = 0;
  sectors_per_cluster = ctx.sectors_per_cluster;
  fat_list = chain;
}

abbrev pub with_files : FatCtx → List File → FatCtx
with_files ctx files = record ctx { root_dir_entries = files }

IsChain-with_files :
    (mem : ℕ → ℕ) (ctx : FatCtx) (files : List File) (a : ℕ) (chain : List ℕ)
    → IsChain mem ctx a chain
    → IsChain mem (with_files ctx files) a chain
IsChain-with_files mem ctx files a _ (last near stop) = last near stop
IsChain-with_files mem ctx files a _ (link near go c) =
    link near go (IsChain-with_files mem ctx files _ _ c)

-- The files cached so far do not matter to what is listed.
pub Lists-with_files :
    (mem : ℕ → ℕ) (ctx : FatCtx) (sz fuel rounds j : ℕ) (found : List Found) (files : List File)
    → Lists mem ctx sz fuel rounds j found
    → Lists mem (with_files ctx files) sz fuel rounds j found
Lists-with_files mem ctx sz fuel _ j _ files full = full
Lists-with_files mem ctx sz fuel _ j _ files (end_mark near e) = end_mark near e
Lists-with_files mem ctx sz fuel _ j _ files (pass near e s l) =
    pass near e s (Lists-with_files mem ctx sz fuel _ (j + 1) _ files l)
Lists-with_files mem ctx sz fuel _ j _ files (file near s c h l) =
    file near s (IsChain-with_files mem ctx files _ _ c) h
      (Lists-with_files mem ctx sz fuel _ (j + 1) _ files l)
