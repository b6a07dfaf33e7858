-- ===== src/Fat/Mount.antt =====
-- The start of the file system (src/fat.c, `initialize_fat32`) on a card that answers.
use ee459spring.Base.{
  ◌-◌, [], ◌%◌, ◌^◌, ℕ, refl, ◌≡◌, ◌≤◌, ◌+◌, ◌*◌, ◌∙◌, sym, ap, List, map, length, take, replicate,
  u32, true, false, some, arith, length-replicate, length-take, Bool, if◌then◌else◌, not,
}
use ee459spring.Io.{IoCtx, io_read_nbytes}
use ee459spring.Io.Sectors.{Device}
use ee459spring.Io.Memory.{reach, stored_byte, IsFresh}
use ee459spring.Io.Read.{bytes_from, Kept, Kept-trans, stored-Kept}
use ee459spring.Io.Sync.{bytes_from-length}
use ee459spring.Io.Reliable.{Answers}
use ee459spring.Fat.{File, FatCtx, fat32_set_partition, fat32_set_context}
use ee459spring.Fat.Layout.{Partition, decode_partition, decode_boot_sector, BootSector}
use ee459spring.Fat.Chain.{
  is_fat32, initialize_fat32, fat32_cache_root_dir, start_directory, start_partition,
}
use ee459spring.Fat.Listing.{Found, Lists, cached, with_files}
use ee459spring.Fat.Scan.{read_ok, cache_entries-Lists}

-- the first partition's entry in the master boot record of a memory of bytes
abbrev pub partition_of : (ℕ → ℕ) → Partition
partition_of mem = decode_partition (bytes_from mem 0x1be (replicate 64 0))

-- the byte address of the boot sector
abbrev pub boot_address : (ℕ → ℕ) → ℕ
boot_address mem = u32 (512 * (partition_of mem).start_sector)

-- the boot sector of a memory of bytes
abbrev pub boot_of : (ℕ → ℕ) → BootSector
boot_of mem = decode_boot_sector (bytes_from mem (boot_address mem) (replicate 512 0))

-- The context that the two records give, with no files yet: the table stands behind the reserved sectors of the
-- partition, the clusters behind all copies of the table, the first of them being number 2.
abbrev pub context_of : (ℕ → ℕ) → FatCtx → FatCtx
context_of mem fat32 =
    let pt = partition_of mem in
    let bs = boot_of mem in
    let fats = pt.start_sector + bs.reserved_sectors in
    let clusters = fats + bs.number_of_fats * bs.sectors_per_fat_32 in
    record fat32 {
      partition_type = pt.partition_type;
      start_sector = pt.start_sector;
      length_sectors = pt.length_sectors;
      reserved_sectors = bs.reserved_sectors;
      number_of_fats = bs.number_of_fats;
      sectors_per_fat_32 = bs.sectors_per_fat_32;
      sectors_per_cluster = bs.sectors_per_cluster;
      cluster_number_root_dir = bs.cluster_number_root_dir;
      cluster_begin_sector = clusters % 2 ^ 32;
      root_dir_sector =
          (clusters + (bs.cluster_number_root_dir + 2 ^ 32 - 2) % 2 ^ 32 * bs.sectors_per_cluster)
          % 2 ^ 32;
      fat_begin_sector = fats % 2 ^ 32;
      root_dir_entries = [];
    }

-- It is the one that the code computes.
set_context-context_of :
    (mem : ℕ → ℕ) (fat32 : FatCtx)
    → fat32_set_context (fat32_set_partition fat32 (partition_of mem)) (boot_of mem)
      ≡ context_of mem fat32
unfolding fat32_set_partition fat32_set_context
set_context-context_of mem fat32 =
    let pt = partition_of mem in
    let bs = boot_of mem in
    let fats = pt.start_sector + bs.reserved_sectors in
    let all = bs.number_of_fats * bs.sectors_per_fat_32 in
    let before = (bs.cluster_number_root_dir + 2 ^ 32 - 2) % 2 ^ 32 * bs.sectors_per_cluster in
    let clusters : u32 (fats + u32 all) ≡ (fats + all) % 2 ^ 32 = omega arith in
    let root : ((fats + all) % 2 ^ 32 + before) % 2 ^ 32 ≡ (fats + all + before) % 2 ^ 32 =
      omega arith in
    rw (clusters, root) refl

module _ (dev : Device) (answers : Answers dev) where
  open dev use {Card}

  -- what a read of `n` bytes into the uninitialised memory finds
  read_stack :
      (mem : ℕ → ℕ) (n o : ℕ) (stack : List ℕ) (io : IoCtx Card)
      → stored_byte dev io.card ≡ mem
      → IsFresh dev io
      → length stack ≡ 512
      → n ≤ 512
      → o + n ≤ reach
      → (io' : IoCtx Card) × (io_read_nbytes dev io (take n stack) o
          ≡ (0, bytes_from mem o (replicate n 0), io'))
        × Kept dev io io'
  read_stack mem n o stack io same fresh room small near =
      let len : length (take n stack) ≡ n = length-take n stack ∙ omega arith in
      let (code, bytes, kept) = read_ok dev answers io (take n stack) o fresh (omega arith) in
      let filled =
        bytes
        ∙ ap (λ (m : ℕ → ℕ). bytes_from m o (take n stack)) same
        ∙ bytes_from-length mem o (take n stack) (replicate n 0)
            (len ∙ sym (length-replicate n 0)) in
      let io' = (io_read_nbytes dev io (take n stack) o).2 in
      (io', λ i. (code i, filled i, io'), kept)

  -- the steps of a start that goes well
  directory_ok :
      (fuel sector_size : ℕ) (stack bs : List ℕ) (file : File) (fat32 fat' : FatCtx)
      (io io' : IoCtx Card)
      → fat32_cache_root_dir dev fuel sector_size
          (take 32 stack)
          file
          (fat32_set_context fat32 (decode_boot_sector bs))
          io
        ≡ some (fat', io')
      → start_directory dev fuel sector_size stack file fat32 (0, bs, io) ≡ some (0, fat', io')
  unfolding start_directory
  directory_ok fuel sector_size stack bs file fat32 fat' io io' scan = rw scan refl

  partition_ok :
      (fuel sector_size : ℕ) (stack pt bs : List ℕ) (file : File) (fat32 : FatCtx)
      (io io' : IoCtx Card)
      → is_fat32 (decode_partition pt).partition_type ≡ true
      → io_read_nbytes dev io (take 512 stack) (u32 (512 * (decode_partition pt).start_sector))
        ≡ (0, bs, io')
      → start_partition dev fuel sector_size stack file fat32 (0, pt, io)
        ≡ start_directory dev fuel sector_size stack file
            (fat32_set_partition fat32 (decode_partition pt))
            (0, bs, io')
  unfolding start_partition fat32_set_partition
  partition_ok fuel sector_size stack pt bs file fat32 io io' fat second =
      let fat' = fat32_set_partition fat32 (decode_partition pt) in
      let second_read =
        io_read_nbytes dev io (take 512 stack) (u32 (512 * (decode_partition pt).start_sector)) in
      let go = start_directory dev fuel sector_size stack file fat' in
      ap (λ (b : Bool). if not b then some (255, fat', io) else go second_read) fat ∙ ap go second

  -- where a start that goes well ends, on a card that stores `mem`
  abbrev pub Mounted : (ℕ → ℕ) → ℕ → ℕ → List ℕ → File → FatCtx → List Found → IoCtx Card → Type 0
  Mounted mem fuel sector_size stack file fat32 found io =
      let fat = context_of mem fat32 in
      (io' : IoCtx Card) × (initialize_fat32 dev fuel false sector_size stack file fat32 io
        ≡ some (0, with_files fat (map (cached fat file.first_cluster) found), io'))
      × Kept dev io io'

  pub mount :
      (mem : ℕ → ℕ) (fuel sector_size : ℕ) (stack : List ℕ) (file : File) (fat32 : FatCtx)
      (found : List Found) (io : IoCtx Card)
      → stored_byte dev io.card ≡ mem
      → IsFresh dev io
      → length stack ≡ 512
      → is_fat32 (partition_of mem).partition_type ≡ true
      → boot_address mem + 512 ≤ reach
      → Lists mem (context_of mem fat32) sector_size fuel 16 0 found
      → Mounted mem fuel sector_size stack file fat32 found io
  unfolding initialize_fat32 fat32_cache_root_dir
  mount mem fuel sector_size stack file fat32 found io same fresh room fat near listed =
      let (io1, first, kept1) =
        read_stack mem 64 0x1be stack io same fresh room (omega arith) (omega arith) in
      let same1 = stored-Kept dev kept1 ∙ same in
      let (io2, second, kept2) =
        read_stack mem 512 (boot_address mem) stack io1 same1 kept1.fresh room (omega arith) near in
      let (io', ends, kept3) =
        cache_entries-Lists dev answers mem fuel sector_size 16 0 (take 32 stack) file
          (context_of mem fat32) found io2 (stored-Kept dev kept2 ∙ same1) kept2.fresh
          (length-take 32 stack ∙ omega arith) listed in
      (
        io',
        ap (start_partition dev fuel sector_size stack file fat32) first
            ∙ partition_ok fuel sector_size stack _ _ file fat32 io1 io2 fat second
            ∙ directory_ok fuel sector_size stack _ file
                (fat32_set_partition fat32 (partition_of mem)) _ io2 io'
                (ap
                    (λ (c : FatCtx).
                      fat32_cache_root_dir dev fuel sector_size (take 32 stack) file c io2)
                    (set_context-context_of mem fat32)
                  ∙ ends),
        Kept-trans dev kept1 (Kept-trans dev kept2 kept3),
      )

  -- On an enabled card that answers every call for a 32-bit address, with a fresh input buffer and 512 bytes
  -- of memory for the records: let the first partition be one of FAT32, and let the boot sector, the 16
  -- entries of the root directory that are read and the entries of the table for the chains lie below 32 MiB.
  -- A file is an entry before the first that starts with the byte 0, which does not start with 0xE5 and does
  -- not have all of the four low bits of its attributes set. Let the chain of each file end within the
  -- fuel; it is looked for from two past the cluster that its entry gives, which is not the chain of the
  -- entry's own cluster. Then initialize_fat32 returns 0 with the context that the two records on the card
  -- give, and the files cached are exactly those, in the directory's order, each with its index, its names,
  -- its size, that cluster and the chain from there; the card's bytes and the output side are as they were.
  pub initialize_fat32-Lists :
      (fuel sector_size : ℕ) (stack : List ℕ) (file : File) (fat32 : FatCtx) (found : List Found)
      (io : IoCtx Card)
      → IsFresh dev io
      → length stack ≡ 512
      → is_fat32 (partition_of (stored_byte dev io.card)).partition_type ≡ true
      → boot_address (stored_byte dev io.card) + 512 ≤ reach
      → Lists
          (stored_byte dev io.card)
          (context_of (stored_byte dev io.card) fat32)
          sector_size
          fuel
          16
          0
          found
      → Mounted (stored_byte dev io.card) fuel sector_size stack file fat32 found io
  initialize_fat32-Lists fuel sector_size stack file fat32 found io fresh room fat near listed =
      mount (stored_byte dev io.card) fuel sector_size stack file fat32 found io refl fresh room fat
        near listed
