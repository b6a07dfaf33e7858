-- ===== src/Io/Read.antt =====
-- Reading: below 32 MiB `io_get_byte` and `io_read_nbytes` return the bytes that the card stores.
use ee459spring.Base.{
  refl, ℕ, ◌≡◌, List, [], ◌∷◌, length, arith, Option, ◌+◌, some, ◌<◌, ◌⊎◌, Bool-cases, none, ◌>>>◌,
  ◌==◌, inl, inr, Option-cases, true, false, ◌∙◌, ◌/◌, ◌%◌, ap, sym, ◌^◌, get_or, ◌≤◌, u32, fun_ext,
}
use ee459spring.Io.{IoCtx, io_get_byte, io_read_from, io_read_nbytes}
use ee459spring.Io.Sectors.{Device}
use ee459spring.Io.Memory.{reach, stored_byte, IsFresh}

-- what the `n` slots from offset `o` on should hold
abbrev pub bytes_from : (ℕ → ℕ) → ℕ → List ℕ → List ℕ
bytes_from mem o [] = []
bytes_from mem o (_ ∷ slots) = mem o ∷ bytes_from mem (o + 1) slots

module _ (dev : Device) where
  open dev use {Card, sector, get_sector, get_some, sector-get}

  -- What a read leaves: the card's bytes, the output side, and a fresh input buffer.
  pub record Kept (io io' : IoCtx Card) : Type 0 where
    pub fresh : IsFresh dev io'
    pub bytes : (a : ℕ) → sector io'.card a ≡ sector io.card a
    pub out_addr : io'.output_sector_addr ≡ io.output_sector_addr
    pub out_buf : io'.output_sector_buf ≡ io.output_sector_buf

  pub record Got (io : IoCtx Card) (o : ℕ) (out : ℕ × Option ℕ × IoCtx Card) : Type 0 where
    pub kept : Kept io out.2
    pub result :
        ((out.0 ≡ 0) × (out.1 ≡ some (stored_byte dev io.card o)))
        ⊎ ((out.0 ≡ 255) × (out.1 ≡ none))

  module _ (io : IoCtx Card) (o : ℕ) (fresh : IsFresh dev io) (h : o < reach) where
    get_byte-hit : (o >>> 9 == io.input_sector_addr) ≡ true → Got io o (io_get_byte dev io o)
    unfolding io_get_byte
    get_byte-hit hit = rw hit (record {
      kept = record { fresh = fresh; bytes = λ a. refl; out_addr = refl; out_buf = refl };
      result = inl (refl, ap some (ap (λ (b : List ℕ). get_or b (o % 512) 0) there));
    })
      where
        there : io.input_sector_buf ≡ sector io.card (o / 512)
        there = fresh ∙ ap (sector io.card) (ground arith)

    get_byte-failed :
        (o >>> 9 == io.input_sector_addr) ≡ false
        → (get_sector io.card (o >>> 9)).0 ≡ none
        → Got io o (io_get_byte dev io o)
    unfolding io_get_byte
    get_byte-failed miss failed =
        rw (miss, failed)
          (record {
            kept = record {
              fresh = fresh ∙ sym (sector-get io.card (o >>> 9) io.input_sector_addr);
              bytes = sector-get io.card (o >>> 9);
              out_addr = refl;
              out_buf = refl;
            };
            result = inr (refl, refl);
          })

    get_byte-loaded :
        (buf : List ℕ)
        → (o >>> 9 == io.input_sector_addr) ≡ false
        → (get_sector io.card (o >>> 9)).0 ≡ some buf
        → Got io o (io_get_byte dev io o)
    unfolding io_get_byte
    get_byte-loaded buf miss got =
        let same : buf ≡ sector io.card (o >>> 9) = get_some io.card (o >>> 9) buf got in
        let small : (o >>> 9) % 2 ^ 16 ≡ o >>> 9 = omega arith in
        rw (miss, got)
          (record {
            kept = record {
              fresh = rw small (same ∙ sym (sector-get io.card (o >>> 9) (o >>> 9)));
              bytes = sector-get io.card (o >>> 9);
              out_addr = refl;
              out_buf = refl;
            };
            result = inl (refl, ap (λ (b : List ℕ). some (get_or b (o % 512) 0)) same);
          })

    -- Below 32 MiB `io_get_byte` returns the byte that the card stores, or -1.
    pub get_byte-Got : Got io o (io_get_byte dev io o)
    get_byte-Got = elim (Bool-cases (o >>> 9 == io.input_sector_addr)) [
      | inl hit ↦ get_byte-hit hit
      | inr miss ↦ elim (Option-cases (get_sector io.card (o >>> 9)).0) [
        | inl failed ↦ get_byte-failed miss failed
        | inr (buf, got) ↦ get_byte-loaded buf miss got
      ]
    ]

  pub record GotAll (io : IoCtx Card) (o : ℕ) (slots : List ℕ) (out : ℕ × List ℕ × IoCtx Card)
      : Type 0 where
    pub kept : Kept io out.2
    pub result :
        ((out.0 ≡ 0) × (out.1 ≡ bytes_from (stored_byte dev io.card) o slots)) ⊎ (out.0 ≡ 255)

  pub Kept-refl : (io : IoCtx Card) → IsFresh dev io → Kept io io
  Kept-refl io fresh = record { fresh = fresh; bytes = λ a. refl; out_addr = refl; out_buf = refl }

  pub Kept-trans : {io io' io'' : IoCtx Card} → Kept io io' → Kept io' io'' → Kept io io''
  Kept-trans k l = record {
    fresh = l.fresh;
    bytes = λ a. l.bytes a ∙ k.bytes a;
    out_addr = l.out_addr ∙ k.out_addr;
    out_buf = l.out_buf ∙ k.out_buf;
  }

  pub stored-Kept :
      {io io' : IoCtx Card} → Kept io io' → stored_byte dev io'.card ≡ stored_byte dev io.card
  stored-Kept k = fun_ext (λ o. ap (λ (b : List ℕ). get_or b (o % 512) 0) (k.bytes (o / 512)))

  read_from-GotAll :
      (slots : List ℕ) (io : IoCtx Card) (offset i : ℕ)
      → IsFresh dev io
      → offset + i + length slots ≤ reach
      → GotAll io (offset + i) slots (io_read_from dev io offset i slots)
  unfolding io_read_from
  read_from-GotAll [] io offset i fresh h = record {
    kept = record { fresh = fresh; bytes = λ a. refl; out_addr = refl; out_buf = refl };
    result = inl (refl, refl);
  }
  read_from-GotAll (slot ∷ slots) io offset i fresh h =
      let at : u32 (offset + i) ≡ offset + i = omega arith in
      let g = get_byte-Got io (offset + i) fresh (omega arith) in
      rw at (elim g.result [
        | inl (code, byte) ↦
            rw (code, byte)
              (let ih =
                  read_from-GotAll slots (io_get_byte dev io (offset + i)).2 offset (i + 1)
                    g.kept.fresh (omega arith) in
                let next : offset + (i + 1) ≡ offset + i + 1 = omega arith in
                record {
                  kept = Kept-trans g.kept ih.kept;
                  result = elim ih.result [
                    | inl (c, s) ↦ inl (
                      c,
                      ap (λ (t : List ℕ). stored_byte dev io.card (offset + i) ∷ t)
                          (rw (next, stored-Kept g.kept) at s),
                    )
                    | inr c ↦ inr c
                  ];
                })
        | inr (code, byte) ↦ rw (code, byte) (record { kept = g.kept; result = inr refl })
      ])

  -- Below 32 MiB `io_read_nbytes` fills the buffer with the bytes that the card stores, or
  -- returns -1; either way the card and the output side stay as they were.
  pub read_nbytes-GotAll :
      (io : IoCtx Card) (slots : List ℕ) (offset : ℕ)
      → IsFresh dev io
      → offset + length slots ≤ reach
      → GotAll io offset slots (io_read_nbytes dev io slots offset)
  unfolding io_read_nbytes
  read_nbytes-GotAll io slots offset fresh h =
      let start : offset + 0 ≡ offset = omega arith in
      rw start at (read_from-GotAll slots io offset 0 fresh (omega arith))
