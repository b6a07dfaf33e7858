-- ===== src/Fat/Entries.antt =====
-- The 32 bytes of a directory entry, `struct FAT32Entry` of src/include/fat.h.
use ee459spring.Base.{
  get_or, drop, ap, zero, ◌<◌, ◌%◌, ◌+◌, ◌*◌, ◌/◌, ℕ, List, [], ◌∷◌, ◌≡◌, refl, arith, suc, length,
}
use mathlib.Core.Path.{subst}
use ee459spring.Fat.Layout.{Entry, decode_entry, encode_entry}

-- the fields of an entry have the widths of `struct FAT32Entry`
pub record IsEntry (e : Entry) : Type 0 where
  pub name_width : length e.filename ≡ 8
  pub ext_width : length e.filename_ext ≡ 3
  pub date_width : length e.date_time_creat ≡ 5
  pub accessed : e.accessed_date < 65536
  pub high : e.first_cluster_addr_high < 65536
  pub time : e.time_last_modified < 65536
  pub date : e.date_last_modified < 65536
  pub low : e.first_cluster_addr_low < 65536
  pub size : e.file_size < 4294967296

bytes_le16 : (n : ℕ) → n < 65536 → n % 256 + 256 * (n / 256 % 256) ≡ n
bytes_le16 n h = omega arith

bytes_le32 :
    (n : ℕ)
    → n < 4294967296
    → n % 256 + 256 * (n / 256 % 256) + 65536 * (n / 65536 % 256 + 256 * (n / 16777216 % 256)) ≡ n
bytes_le32 n h = omega arith

-- a list rebuilt from its first cells
cells_of : ℕ → List ℕ → List ℕ
cells_of zero xs = []
cells_of (suc n) xs = get_or xs 0 0 ∷ cells_of n (drop 1 xs)

cells_of-all : (n : ℕ) (xs : List ℕ) → length xs ≡ n → cells_of n xs ≡ xs
unfolding cells_of
cells_of-all zero [] h = refl
cells_of-all zero (x ∷ xs) h = absurd (omega arith)
cells_of-all (suc n) [] h = absurd (omega arith)
cells_of-all (suc n) (x ∷ xs) h = ap (λ (t : List ℕ). x ∷ t) (cells_of-all n xs (omega arith))

-- the entry with its arrays written cell by cell
spelled : Entry → Entry
spelled e = record e {
  filename = cells_of 8 e.filename;
  filename_ext = cells_of 3 e.filename_ext;
  date_time_creat = cells_of 5 e.date_time_creat;
}

spelled_same : (e : Entry) → IsEntry e → spelled e ≡ e
unfolding spelled
spelled_same e v = λ i. record e {
  filename = cells_of-all 8 e.filename v.name_width i;
  filename_ext = cells_of-all 3 e.filename_ext v.ext_width i;
  date_time_creat = cells_of-all 5 e.date_time_creat v.date_width i;
}

length-spelled : (e : Entry) → length (encode_entry (spelled e)) ≡ 32
unfolding encode_entry spelled cells_of
length-spelled e = refl

decode_spelled : (e : Entry) → IsEntry e → decode_entry (encode_entry (spelled e)) ≡ spelled e
unfolding decode_entry encode_entry spelled cells_of
decode_spelled e v = λ i. record (spelled e) {
  accessed_date = bytes_le16 e.accessed_date v.accessed i;
  first_cluster_addr_high = bytes_le16 e.first_cluster_addr_high v.high i;
  time_last_modified = bytes_le16 e.time_last_modified v.time i;
  date_last_modified = bytes_le16 e.date_last_modified v.date i;
  first_cluster_addr_low = bytes_le16 e.first_cluster_addr_low v.low i;
  file_size = bytes_le32 e.file_size v.size i;
}

-- Every entry whose fields have the widths of the struct is what decode_entry reads back from the
-- bytes of encode_entry, which are 32.
pub decode-encode :
    (e : Entry) → IsEntry e → (length (encode_entry e) ≡ 32) × (decode_entry (encode_entry e) ≡ e)
decode-encode e v =
    subst (λ s. (length (encode_entry s) ≡ 32) × (decode_entry (encode_entry s) ≡ s))
      (spelled_same e v) (length-spelled e, decode_spelled e v)
