-- ===== src/Io/Memory.antt =====
-- The bytes that the card stores, and the bytes that a client of src/io.c has written: those of
-- the card, with the output buffer over them.
use ee459spring.Base.{ℕ, ◌≡◌, ◌^◌, get_or, if◌then◌else◌, ◌/◌, ◌%◌, ◌==◌}
use ee459spring.Io.{IoCtx}
use ee459spring.Io.Sectors.{Device}

-- 32 MiB: the addresses of the sectors below it fit 16 bits
abbrev pub reach : ℕ
reach = 2 ^ 25

module _ (dev : Device) where
  open dev use {Card, sector}

  abbrev pub stored_byte : Card → ℕ → ℕ
  stored_byte c o = get_or (sector c (o / 512)) (o % 512) 0

  abbrev pub memory : IoCtx Card → ℕ → ℕ
  memory io o =
      if o / 512 == io.output_sector_addr
      then get_or io.output_sector_buf (o % 512) 0
      else stored_byte io.card o

  -- The input buffer holds its sector of the card.
  abbrev pub IsFresh : IoCtx Card → Type 0
  IsFresh io = io.input_sector_buf ≡ sector io.card io.input_sector_addr
