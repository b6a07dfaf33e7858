-- ===== src/Fat/Free.antt =====
-- The searches of src/fat.c end, and find the least number that is not taken.
use ee459spring.Base.{
  ℕ, refl, ◌≡◌, List, [], ◌∷◌, ◌+◌, arith, Bool, true, ◌≢◌, ◌≤◌, if◌then◌else◌, false, some, length,
  ◌<◌, ◌==◌, suc, Bool-cases, zero, inr, inl, ℕ_discrete, Option-cases, none, ◌++◌, ◌||◌,
  length-append,
}
use ee459spring.Fat.{File, FatCtx}
use ee459spring.Fat.Alloc.{
  first_free, in_list, fat32_address_in_dir, fat32_root_entry_found, cluster_fuel,
  fat32_get_next_cluster, fat32_get_next_root_dir_loc,
}

-- `k` is free, and everything from `lo` up to it is taken
pub record IsLeast (taken : ℕ → Bool) (lo k : ℕ) : Type 0 where
  pub from : lo ≤ k
  pub free : taken k ≡ false
  pub below : (j : ℕ) → lo ≤ j → j < k → taken j ≡ true

first_free-IsLeast :
    (fuel : ℕ) (taken : ℕ → Bool) (lo k : ℕ)
    → first_free fuel taken lo ≡ some k
    → IsLeast taken lo k
unfolding first_free
first_free-IsLeast zero taken lo k e = cc
first_free-IsLeast (suc fuel) taken lo k e = elim (Bool-cases (taken lo)) [
  | inr free ↦
      let same : lo ≡ k = ground (arith, e, free) in
      record { from = omega arith; free = rw (← same) free; below = λ j p q. absurd (omega arith) }
  | inl hit ↦
      let ih = first_free-IsLeast fuel taken (lo + 1) k (rw hit at e) in
      record {
        from = omega (arith, ih.from);
        free = ih.free;
        below = λ j p q. elim (ℕ_discrete j lo) [
          | yes s ↦ rw s hit
          | no s ↦ ih.below j (omega arith) q
        ];
      }
]

-- Counting: a range of numbers that all stand in a list is no longer than the list.
remove : ℕ → List ℕ → List ℕ
remove k [] = []
remove k (x ∷ xs) = let rest = remove k xs in if x == k then xs else x ∷ rest

length-remove : (k : ℕ) (xs : List ℕ) → in_list k xs ≡ true → length (remove k xs) + 1 ≡ length xs
unfolding remove
length-remove k [] h = cc
length-remove k (x ∷ xs) h = ground (arith, length-remove k xs)

in_list-remove :
    (k j : ℕ) (xs : List ℕ) → j ≢ k → in_list j xs ≡ true → in_list j (remove k xs) ≡ true
unfolding remove
in_list-remove k j [] ne h = cc
in_list-remove k j (x ∷ xs) ne h = ground (arith, in_list-remove k j xs)

range-le :
    (n lo : ℕ) (xs : List ℕ) → ((j : ℕ) → lo ≤ j → j < lo + n → in_list j xs ≡ true) → n ≤ length xs
range-le zero lo xs h = omega arith
range-le (suc n) lo xs h =
    let top = h (lo + n) (omega arith) (omega arith) in
    let shorter =
      range-le n lo (remove (lo + n) xs)
        (λ j p q. in_list-remove (lo + n) j xs (omega arith) (h j p (omega arith))) in
    omega (arith, length-remove (lo + n) xs top)

-- a search that runs out of fuel has found everything taken
first_free-none :
    (fuel : ℕ) (taken : ℕ → Bool) (lo j : ℕ)
    → first_free fuel taken lo ≡ none
    → lo ≤ j
    → j < lo + fuel
    → taken j ≡ true
unfolding first_free
first_free-none zero taken lo j e p q = absurd (omega arith)
first_free-none (suc fuel) taken lo j e p q = elim (Bool-cases (taken lo)) [
  | inr free ↦ absurd (ground (arith, e, free))
  | inl hit ↦ elim (ℕ_discrete j lo) [
    | yes s ↦ rw s hit
    | no s ↦ first_free-none fuel taken (lo + 1) j (rw hit at e) (omega arith) (omega arith)
  ]
]

-- a search with more fuel than there are numbers that can be taken
first_free_lem :
    (fuel : ℕ) (taken : ℕ → Bool) (lo : ℕ) (xs : List ℕ)
    → ((j : ℕ) → taken j ≡ true → in_list j xs ≡ true)
    → length xs < fuel
    → (k : ℕ) × (first_free fuel taken lo ≡ some k) × IsLeast taken lo k
first_free_lem fuel taken lo xs all enough = elim (Option-cases (first_free fuel taken lo)) [
  | inl missing ↦
      let full =
        range-le fuel lo xs (λ j p q. all j (first_free-none fuel taken lo j missing p q)) in
      absurd (omega arith)
  | inr (k, found) ↦ (k, found, first_free-IsLeast fuel taken lo k found)
]

-- the clusters and the places of a directory's files, one after the other
fat_lists : List File → List ℕ
fat_lists [] = []
fat_lists (f ∷ fs) = f.fat_list ++ fat_lists fs

offsets : List File → List ℕ
offsets [] = []
offsets (f ∷ fs) = f.root_dir_offset ∷ offsets fs

in_list-++ : (k : ℕ) (xs ys : List ℕ) → in_list k (xs ++ ys) ≡ in_list k xs || in_list k ys
in_list-++ k [] ys = refl
in_list-++ k (x ∷ xs) ys = ground (arith, in_list-++ k xs ys)

address_in_dir-fat_lists :
    (fs : List File) (k : ℕ) → fat32_address_in_dir fs k ≡ in_list k (fat_lists fs)
unfolding fat_lists
address_in_dir-fat_lists [] k = refl
address_in_dir-fat_lists (f ∷ fs) k =
    cc (in_list-++ k f.fat_list (fat_lists fs), address_in_dir-fat_lists fs k)

root_entry_found-offsets :
    (fs : List File) (k : ℕ) → fat32_root_entry_found fs k ≡ in_list k (offsets fs)
unfolding offsets
root_entry_found-offsets [] k = refl
root_entry_found-offsets (f ∷ fs) k = cc (root_entry_found-offsets fs k)

length-fat_lists : (fs : List File) → cluster_fuel fs ≡ length (fat_lists fs) + 1
unfolding fat_lists
length-fat_lists [] = refl
length-fat_lists (f ∷ fs) =
    omega (arith, length-fat_lists fs, length-append f.fat_list (fat_lists fs))

length-offsets : (fs : List File) → length (offsets fs) ≡ length fs
unfolding offsets
length-offsets [] = refl
length-offsets (f ∷ fs) = cc (length-offsets fs)

-- fat32_get_next_cluster ends, with the least number from 2 on that no cached file has in its list
-- of clusters.
pub get_next_cluster-IsLeast :
    (ctx : FatCtx)
    → (k : ℕ) × (fat32_get_next_cluster ctx ≡ some k)
      × IsLeast (fat32_address_in_dir ctx.root_dir_entries) 2 k
unfolding fat32_get_next_cluster
get_next_cluster-IsLeast ctx =
    let fs = ctx.root_dir_entries in
    first_free_lem (cluster_fuel fs) (fat32_address_in_dir fs) 2 (fat_lists fs)
      (λ j t. cc (address_in_dir-fat_lists fs j, t)) (omega (arith, length-fat_lists fs))

-- fat32_get_next_root_dir_loc ends, with the least place from 0 on that no cached file has in the
-- root directory.
pub get_next_root_dir_loc-IsLeast :
    (ctx : FatCtx)
    → (k : ℕ) × (fat32_get_next_root_dir_loc ctx ≡ some k)
      × IsLeast (fat32_root_entry_found ctx.root_dir_entries) 0 k
unfolding fat32_get_next_root_dir_loc
get_next_root_dir_loc-IsLeast ctx =
    let fs = ctx.root_dir_entries in
    first_free_lem (length fs + 1) (fat32_root_entry_found fs) 0 (offsets fs)
      (λ j t. cc (root_entry_found-offsets fs j, t)) (omega (arith, length-offsets fs))
