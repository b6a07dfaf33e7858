-- ===== src/Fat/Create.antt =====
-- What src/fat.c does when it makes a new file, and the bytes of its directory entry.
use native.Mathlib.Nat.{mul_assoc, add-mul, mod-add-div, add-mul-mod_self_left}
use ee459spring.Base.{
  append_assoc, ℕ, ◌≡◌, none, some, refl, ap, ap₂, List, u16, ◌≤◌, [], ◌*◌, ◌%◌, ◌>>>◌, arith, ◌+◌,
  ◌++◌, ◌/◌, ◌-◌, ◌^◌, replicate, sym, ◌∷◌, ◌∙◌,
}
use mathlib.Core.Option
use ee459spring.Io.{IoCtx, io_write_nbytes}
use ee459spring.Io.Sectors.{Device}
use ee459spring.Fat.{File, FatCtx, strncpy, sub32}
use ee459spring.Fat.Layout.{encode_entry}
use ee459spring.Fat.Alloc.{
  fat32_file_exists, fat32_root_entry_found, fat32_address_in_dir, fat32_get_next_root_dir_loc,
  fat32_get_next_cluster,
}
use ee459spring.Fat.Files.{fat32_creat_file, started, fresh_file, new_entry, entry_offset, start_of}
use ee459spring.Fat.Free.{IsLeast, get_next_cluster-IsLeast, get_next_root_dir_loc-IsLeast}

-- The byte address of a cluster's first byte.
abbrev pub first_byte : FatCtx → ℕ → ℕ
first_byte ctx cluster =
    (512 * ctx.cluster_begin_sector + 512 * ((cluster - 2) * ctx.sectors_per_cluster)) % 2 ^ 32

-- The 32 bytes of an entry of FAT32 with a name, its extension and a cluster, all else zero: the cluster's high half
-- stands in the bytes 20 and 21, its low half in 26 and 27.
abbrev pub entry_bytes : List ℕ → List ℕ → ℕ → List ℕ
entry_bytes name ext cluster =
    strncpy 8 name
    ++ (strncpy 3 ext
        ++ (replicate 9 0
            ++ (cluster / 2 ^ 16 % 256
                ∷ cluster / 2 ^ 24 % 256
                ∷ 0
                ∷ 0
                ∷ 0
                ∷ 0
                ∷ cluster % 256
                ∷ cluster / 2 ^ 8 % 256
                ∷ replicate 4 0)))

new_entry-bytes :
    (file : File) (cluster : ℕ)
    → encode_entry (new_entry file cluster) ≡ entry_bytes file.file_name file.file_ext cluster
unfolding encode_entry
new_entry-bytes file cluster =
    let b20 : u16 (cluster >>> 16) % 256 ≡ cluster / 2 ^ 16 % 256 = omega arith in
    let b21 : u16 (cluster >>> 16) / 256 % 256 ≡ cluster / 2 ^ 24 % 256 = omega arith in
    let b26 : u16 cluster % 256 ≡ cluster % 256 = omega arith in
    let b27 : u16 cluster / 256 % 256 ≡ cluster / 2 ^ 8 % 256 = omega arith in
    rw (b20, b21, b26, b27)
      (ap (λ (t : List ℕ). strncpy 8 file.file_name ++ t)
        (append_assoc (strncpy 3 file.file_ext) (0 ∷ 0 ∷ []) _))

mod-mul : (m x s : ℕ) → x % m * s % m ≡ x * s % m
mod-mul m x s =
    let whole : x % m * s + m * (x / m * s) ≡ x * s =
      ap (λ (t : ℕ). x % m * s + t) (sym (mul_assoc m (x / m) s))
      ∙ sym (add-mul (x % m) (m * (x / m)) s)
      ∙ ap (λ (t : ℕ). t * s) (mod-add-div x m) in
    sym (add-mul-mod_self_left (x % m * s) m (x / m * s)) ∙ ap (λ (t : ℕ). t % m) whole

start_of-first_byte :
    (ctx : FatCtx) (cluster : ℕ) → 2 ≤ cluster → start_of ctx cluster ≡ first_byte ctx cluster
start_of-first_byte ctx cluster from =
    let back : sub32 cluster 2 ≡ (cluster - 2) % 2 ^ 32 = omega arith in
    rw back (omega (arith, mod-mul (2 ^ 32) (cluster - 2) ctx.sectors_per_cluster))

module _ (dev : Device) where
  open dev use {Card}

  module _ (leftover : IoCtx Card → ℕ) where
    -- what the call leaves, once the place and the cluster are known
    abbrev pub created : FatCtx → File → IoCtx Card → ℕ → ℕ → ℕ × File × IoCtx Card
    created ctx file io loc cluster =
        let fresh = fresh_file dev leftover ctx file loc cluster in
        (
          0,
          started ctx fresh,
          (io_write_nbytes dev leftover io (encode_entry (new_entry file cluster))
              (entry_offset ctx fresh)).1,
        )

    creat_file-created :
        (ctx : FatCtx) (file : File) (io : IoCtx Card) (loc cluster : ℕ)
        → fat32_file_exists ctx file ≡ none
        → fat32_get_next_root_dir_loc ctx ≡ some loc
        → fat32_get_next_cluster ctx ≡ some cluster
        → fat32_creat_file dev leftover ctx file io ≡ some (created ctx file io loc cluster)
    unfolding fat32_creat_file Option.bind
    creat_file-created ctx file io loc cluster new at_loc at_cluster =
        rw (new, at_loc, at_cluster) refl

    pub creat_file-found :
        (ctx : FatCtx) (file : File) (io : IoCtx Card)
        → fat32_file_exists ctx file ≡ none
        → (loc : ℕ) × (cluster : ℕ) × IsLeast (fat32_root_entry_found ctx.root_dir_entries) 0 loc
          × IsLeast (fat32_address_in_dir ctx.root_dir_entries) 2 cluster
          × (fat32_creat_file dev leftover ctx file io ≡ some (created ctx file io loc cluster))
    creat_file-found ctx file io new =
        let (loc, at_loc, least_loc) = get_next_root_dir_loc-IsLeast ctx in
        let (cluster, at_cluster, least_cluster) = get_next_cluster-IsLeast ctx in
        (
          loc,
          cluster,
          least_loc,
          least_cluster,
          creat_file-created ctx file io loc cluster new at_loc at_cluster,
        )

    -- What a call for a new file gives, in plain terms: the file, and the card after 32 bytes were
    -- written at the address of its entry.
    pub record IsNew (ctx : FatCtx) (file : File) (io : IoCtx Card) (loc cluster : ℕ)
        (r : ℕ × File × IoCtx Card) : Type 0 where
      pub code : r.0 ≡ 0
      pub name : r.1.file_name ≡ file.file_name
      pub ext : r.1.file_ext ≡ file.file_ext
      pub place : r.1.root_dir_offset ≡ loc
      pub first : r.1.current_cluster ≡ cluster
      pub size : r.1.file_size ≡ 0
      pub clusters : r.1.fat_list ≡ []
      pub start : r.1.start_byte_offset ≡ first_byte ctx cluster
      pub position : r.1.current_byte_offset ≡ first_byte ctx cluster
      pub entry :
          r.2
          ≡ (io_write_nbytes dev leftover io
              (entry_bytes file.file_name file.file_ext cluster)
              ((512 * ctx.root_dir_sector + 32 * loc) % 2 ^ 32)).1

    -- For a name that the cached directory does not have, fat32_creat_file ends with 0: the file keeps
    -- its name and gets the least place and the least cluster from 2 on that no cached file has, size 0, no
    -- clusters in its list, and as first and current byte that of its cluster; and io_write_nbytes, whose
    -- result is not looked at, is given an entry of 32 bytes, with the names, the two halves of the cluster and
    -- zeros, at the address of its place in the directory. Addresses are those modulo 2 ^ 32.
    pub creat_file-IsNew :
        (ctx : FatCtx) (file : File) (io : IoCtx Card)
        → fat32_file_exists ctx file ≡ none
        → (loc : ℕ) × (cluster : ℕ) × (r : ℕ × File × IoCtx Card) × IsLeast
            (fat32_root_entry_found ctx.root_dir_entries)
            0
            loc
          × IsLeast (fat32_address_in_dir ctx.root_dir_entries) 2 cluster
          × (fat32_creat_file dev leftover ctx file io ≡ some r)
          × IsNew ctx file io loc cluster r
    creat_file-IsNew ctx file io new =
        let (loc, cluster, least_loc, least_cluster, made) = creat_file-found ctx file io new in
        let at_first = start_of-first_byte ctx cluster least_cluster.from in
        (
          loc,
          cluster,
          created ctx file io loc cluster,
          least_loc,
          least_cluster,
          made,
          record {
            code = refl;
            name = refl;
            ext = refl;
            place = refl;
            first = refl;
            size = refl;
            clusters = refl;
            start = at_first;
            position = at_first;
            entry =
                ap₂ (λ (bytes : List ℕ) (o : ℕ). (io_write_nbytes dev leftover io bytes o).1)
                  (new_entry-bytes file cluster) (omega arith);
          },
        )

    -- Two calls of fat32_creat_file, one after the other, for names that the cached directory does not
    -- have both end with 0 and give their files the same place in the root directory and the same
    -- cluster.
    pub creat_file-same_place :
        (ctx : FatCtx) (f g : File) (io : IoCtx Card)
        → fat32_file_exists ctx f ≡ none
        → fat32_file_exists ctx g ≡ none
        → (r : ℕ × File × IoCtx Card) × (s : ℕ × File × IoCtx Card) × (fat32_creat_file dev leftover
              ctx f io
            ≡ some r)
          × (fat32_creat_file dev leftover ctx g r.2 ≡ some s)
          × (r.0 ≡ 0)
          × (s.0 ≡ 0)
          × (r.1.root_dir_offset ≡ s.1.root_dir_offset)
          × (r.1.current_cluster ≡ s.1.current_cluster)
    creat_file-same_place ctx f g io newf newg =
        let (loc, at_loc, _) = get_next_root_dir_loc-IsLeast ctx in
        let (cluster, at_cluster, _) = get_next_cluster-IsLeast ctx in
        let r = created ctx f io loc cluster in
        (
          r,
          created ctx g r.2 loc cluster,
          creat_file-created ctx f io loc cluster newf at_loc at_cluster,
          creat_file-created ctx g r.2 loc cluster newg at_loc at_cluster,
          refl,
          refl,
          refl,
          refl,
        )
