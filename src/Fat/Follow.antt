-- ===== src/Fat/Follow.antt =====
-- The loop of `fat32_get_fat` (src/fat.c) against the table that the card stores.
use ee459spring.Base.{
  refl, List, ℕ, u32, ap, sym, ◌+◌, ◌≤◌, ◌≡◌, replicate, length, ◌*◌, true, some, suc, false, ◌⊎◌,
  [], ◌++◌, ◌∷◌, inl, inr, ◌∙◌, append_assoc, arith, zero, Bool, leb, ◌%◌, ◌^◌, bit_and_low_bits,
}
use mathlib.Core.Path.{subst}
use ee459spring.Io.{IoCtx, io_read_nbytes}
use ee459spring.Io.Sectors.{Device}
use ee459spring.Io.Memory.{stored_byte, reach, IsFresh}
use ee459spring.Io.Read.{read_nbytes-GotAll, Kept, stored-Kept, bytes_from}
use ee459spring.Fat.{FatCtx, fat32_is_last_cluster}
use ee459spring.Fat.Layout.{read32}
use ee459spring.Fat.Chain.{fat32_get_fat}

-- a little-endian word of a memory of bytes
abbrev pub word_at : (ℕ → ℕ) → ℕ → ℕ
word_at mem o = mem o + 256 * mem (o + 1) + 65536 * (mem (o + 2) + 256 * mem (o + 3))

-- the byte address of the table's entry for a cluster
abbrev pub fat_address : FatCtx → ℕ → ℕ
fat_address ctx cluster = u32 (512 * ctx.fat_begin_sector + cluster * 4)

-- an entry of the table that ends a chain: of its 28 bits, at least 0xFFFFFF8
abbrev pub is_end : ℕ → Bool
is_end word = leb 0x0ffffff8 (word % 2 ^ 28)

pub last_cluster_lem : (word : ℕ) → fat32_is_last_cluster word ≡ is_end word
unfolding fat32_is_last_cluster
last_cluster_lem word = ap (leb 0x0ffffff8) (bit_and_low_bits 28 word)

-- The clusters that the table of `mem` links up from `a` on, all of whose entries lie below 32 MiB.
pub data IsChain (mem : ℕ → ℕ) (ctx : FatCtx) : ℕ → List ℕ → Type 0 where
  last :
      {a : ℕ}
      → fat_address ctx a + 4 ≤ reach
      → is_end (word_at mem (fat_address ctx a)) ≡ true
      → IsChain mem ctx a (a ∷ [])
  link :
      {a : ℕ} {rest : List ℕ}
      → fat_address ctx a + 4 ≤ reach
      → is_end (word_at mem (fat_address ctx a)) ≡ false
      → IsChain mem ctx (word_at mem (fat_address ctx a)) rest
      → IsChain mem ctx a (a ∷ rest)

pub read32-bytes_from :
    (mem : ℕ → ℕ) (o : ℕ) → read32 (bytes_from mem o (replicate 4 0)) 0 ≡ word_at mem o
read32-bytes_from mem o =
    let two : o + 1 + 1 ≡ o + 2 = omega arith in
    let three : o + 2 + 1 ≡ o + 3 = omega arith in rw (two, three) refl

module _ (dev : Device) where
  open dev use {Card}

  -- The walk from `a` with `n` collected so far ends: with -1, or with `chain` appended to `n`.
  pub record Followed (fuel : ℕ) (ctx : FatCtx) (a : ℕ) (n chain : List ℕ) (io : IoCtx Card)
      : Type 0 where
    pub ret : ℕ
    pub list : List ℕ
    pub io' : IoCtx Card
    pub ends : fat32_get_fat dev fuel ctx a n io ≡ some (ret, list, io')
    pub result : (ret ≡ 255) ⊎ ((ret ≡ 0) × (list ≡ n ++ chain))
    pub same : stored_byte dev io'.card ≡ stored_byte dev io.card

  failed :
      (fuel : ℕ) (ctx : FatCtx) (a : ℕ) (n chain : List ℕ) (io : IoCtx Card)
      → (io_read_nbytes dev io (replicate 4 0) (fat_address ctx a)).0 ≡ 255
      → Kept dev io (io_read_nbytes dev io (replicate 4 0) (fat_address ctx a)).2
      → Followed (suc fuel) ctx a n chain io
  unfolding fat32_get_fat
  failed fuel ctx a n chain io bad kept = record {
    ret = 255;
    list = [];
    io' = (io_read_nbytes dev io (replicate 4 0) (fat_address ctx a)).2;
    ends = rw bad refl;
    result = inl refl;
    same = stored-Kept dev kept;
  }

  module _ (fuel : ℕ) (ctx : FatCtx) (a : ℕ) (n : List ℕ) (io : IoCtx Card) where
    abbrev out : ℕ × List ℕ × IoCtx Card
    out = io_read_nbytes dev io (replicate 4 0) (fat_address ctx a)

    abbrev mem : ℕ → ℕ
    mem = stored_byte dev io.card

    at_last :
        Kept dev io out.2
        → (out.0 ≡ 0) × (read32 out.1 0 ≡ word_at mem (fat_address ctx a))
        → is_end (word_at mem (fat_address ctx a)) ≡ true
        → Followed (suc fuel) ctx a n (a ∷ []) io
    unfolding fat32_get_fat
    at_last kept (code, word) stop = record {
      ret = 0;
      list = n ++ (a ∷ []);
      io' = out.2;
      ends = rw (code, word, last_cluster_lem (word_at mem (fat_address ctx a)), stop) refl;
      result = inr (refl, refl);
      same = stored-Kept dev kept;
    }

    at_link :
        (rest : List ℕ)
        → Kept dev io out.2
        → (out.0 ≡ 0) × (read32 out.1 0 ≡ word_at mem (fat_address ctx a))
        → is_end (word_at mem (fat_address ctx a)) ≡ false
        → Followed fuel ctx (word_at mem (fat_address ctx a)) (n ++ (a ∷ [])) rest out.2
        → Followed (suc fuel) ctx a n (a ∷ rest) io
    unfolding fat32_get_fat
    at_link rest kept (code, word) go f = record {
      ret = f.ret;
      list = f.list;
      io' = f.io';
      ends = rw (code, word, last_cluster_lem (word_at mem (fat_address ctx a)), go) f.ends;
      result = elim f.result [
        | inl bad ↦ inl bad
        | inr (ok, all) ↦ inr (ok, all ∙ append_assoc n (a ∷ []) rest)
      ];
      same = f.same ∙ stored-Kept dev kept;
    }

  -- From a fresh input buffer, one that holds what the card stores in its sector: where the table that the
  -- card stores links up a finite chain of clusters, with all of the entries below 32 MiB, enough fuel (one
  -- round for each cluster) lets fat32_get_fat end, with -1 or with 0 and that chain after what it had
  -- collected; the bytes of the card are as they were. An entry ends a chain where its low 28 bits are
  -- 0xFFFFFF8 or more.
  pub get_fat-Followed :
      (fuel : ℕ) (ctx : FatCtx) (a : ℕ) (n chain : List ℕ) (io : IoCtx Card)
      → IsFresh dev io
      → IsChain (stored_byte dev io.card) ctx a chain
      → length chain ≤ fuel
      → Followed fuel ctx a n chain io
  get_fat-Followed zero ctx a n _ io fresh (last near stop) h = absurd (omega arith)
  get_fat-Followed zero ctx a n _ io fresh (link {rest = rest} near go c) h = absurd (omega arith)
  get_fat-Followed (suc fuel) ctx a n _ io fresh (last near stop) h =
      let g = read_nbytes-GotAll dev io (replicate 4 0) (fat_address ctx a) fresh near in
      elim g.result [
        | inl (code, bytes) ↦
            at_last fuel ctx a n io g.kept
              (
                code,
                ap (λ (b : List ℕ). read32 b 0) bytes
                    ∙ read32-bytes_from (stored_byte dev io.card) (fat_address ctx a),
              )
              stop
        | inr bad ↦ failed fuel ctx a n (a ∷ []) io bad g.kept
      ]
  get_fat-Followed (suc fuel) ctx a n _ io fresh (link {rest = rest} near go c) h =
      let g = read_nbytes-GotAll dev io (replicate 4 0) (fat_address ctx a) fresh near in
      elim g.result [
        | inl (code, bytes) ↦
            at_link fuel ctx a n io rest g.kept
              (
                code,
                ap (λ (b : List ℕ). read32 b 0) bytes
                    ∙ read32-bytes_from (stored_byte dev io.card) (fat_address ctx a),
              )
              go
              (get_fat-Followed fuel ctx _ _ rest _ g.kept.fresh
                (subst
                  (λ m. IsChain m ctx (word_at (stored_byte dev io.card) (fat_address ctx a)) rest)
                  (sym (stored-Kept dev g.kept)) c)
                (omega arith))
        | inr bad ↦ failed fuel ctx a n (a ∷ rest) io bad g.kept
      ]
