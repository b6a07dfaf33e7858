-- ===== src/Io.antt =====
-- src/io.c and src/include/io.h: bytes of the card through one sector buffer for reading and one
-- for writing. A function that writes through the struct pointer returns the new struct, which
-- carries the card behind `sd_get_sector` and `sd_put_sector` with it.
pub mod Sectors
pub mod Memory
pub mod Read
pub mod Write
pub mod Buffer
pub mod Sync
pub mod Alias
pub mod Reliable
pub mod Steady
pub mod Ram
mod Tests
use ee459spring.Base.{
  ℕ, List, Bool, Option, if◌then◌else◌, set, leb, some, not, is_some, ◌>>>◌, ◌∷◌, ◌%◌, ◌/◌, u16,
  get_or, ◌==◌, u32, ◌+◌, none, u8, [],
}
use Sectors.{Device}

-- `struct io_ctx`; the checksums and the `sd` pointer are never read. The sector addresses are
-- `uint16_t`, the byte addresses `uint64_t`.
pub record IoCtx (Card : Type 0) : Type 0 where
  pub input_sector_addr : ℕ
  pub input_byte_addr : ℕ
  pub input_sector_buf : List ℕ
  pub output_sector_addr : ℕ
  pub output_byte_addr : ℕ
  pub output_sector_buf : List ℕ
  pub card : Card

-- the value -1 of type `int8_t`, as a bit pattern
abbrev pub minus_one : ℕ
minus_one = 255

-- `ret < 0` for an `int8_t`
abbrev pub is_negative : ℕ → Bool
is_negative ret = leb 128 ret

-- what a call leaves in a variable or buffer that held `old`
abbrev pub assigned {ℓ} : {A : Type ℓ} → Option A → A → A
assigned none old = old
assigned (some new) old = new

module _ (dev : Device) where
  open dev use {Card, get_sector, put_sector}

  -- The two buffers are filled from sector 0; a failure leaves the addresses as they were.
  unfoldable pub initialize_io : IoCtx Card → ℕ × IoCtx Card
  initialize_io io =
      let (in_buf, c) = get_sector io.card 0 in
      let io1 = record io { input_sector_buf = assigned in_buf io.input_sector_buf; card = c } in
      let (out_buf, c') = get_sector c 0 in
      let io2 = record io1 {
        output_sector_buf = assigned out_buf io.output_sector_buf;
        card = c';
      } in
      if not (is_some in_buf)
      then (minus_one, io1)
      else if not (is_some out_buf)
      then (minus_one, io2)
      else (
        0,
        record io2 {
          input_sector_addr = 0;
          input_byte_addr = 0;
          output_sector_addr = 0;
          output_byte_addr = 0;
        },
      )

  -- the sector read into the input buffer; its address is kept in 16 bits
  abbrev pub load_input : IoCtx Card → ℕ → Option (List ℕ) × Card → IoCtx Card
  load_input io sector_addr (buf, c) = record io {
    input_sector_buf = assigned buf io.input_sector_buf;
    input_sector_addr = if is_some buf then u16 sector_addr else io.input_sector_addr;
    card = c;
  }

  -- the read of one byte from the input buffer
  abbrev pub pick : IoCtx Card → ℕ → ℕ × Option ℕ × IoCtx Card
  pick io offset = (
    0,
    some (get_or io.input_sector_buf (offset % 512) 0),
    record io { input_byte_addr = u32 (offset >>> 9 + offset % 512) },
  )

  -- The option is what goes through `buf`.
  unfoldable pub io_get_byte : IoCtx Card → ℕ → ℕ × Option ℕ × IoCtx Card
  io_get_byte io offset =
      if offset >>> 9 == io.input_sector_addr
      then pick io offset
      else (let (buf, c) = get_sector io.card (offset >>> 9) in
          if is_some buf
          then pick (load_input io (offset >>> 9) (buf, c)) offset
          else (minus_one, none, load_input io (offset >>> 9) (buf, c)))

  -- The loop from index `i` on; the list is `ptr[i..nbytes)`, before and after.
  unfoldable pub io_read_from : IoCtx Card → ℕ → ℕ → List ℕ → ℕ × List ℕ × IoCtx Card
  io_read_from io offset i [] = (0, [], io)
  io_read_from io offset i (slot ∷ slots) =
      let (ret, byte, io') = io_get_byte io (u32 (offset + i)) in
      let (code, slots', io'') = io_read_from io' offset (i + 1) slots in
      if is_negative ret
      then (minus_one, assigned byte slot ∷ slots, io')
      else (code, assigned byte slot ∷ slots', io'')

  unfoldable pub io_read_nbytes : IoCtx Card → List ℕ → ℕ → ℕ × List ℕ × IoCtx Card
  unfolding io_read_from
  io_read_nbytes io buf offset = io_read_from io offset 0 buf

  unfoldable pub io_flush_read_buffer : IoCtx Card → ℕ × IoCtx Card
  io_flush_read_buffer io =
      let (buf, c) = get_sector io.card io.input_sector_addr in
      (
        if is_some buf then 0 else minus_one,
        record io { input_sector_buf = assigned buf io.input_sector_buf; card = c },
      )

  unfoldable pub io_flush_write_buffer : IoCtx Card → ℕ × IoCtx Card
  io_flush_write_buffer io =
      let (done, c) = put_sector io.card io.output_sector_addr io.output_sector_buf in
      (if done then 0 else minus_one, record io { card = c })

  -- the sector read into the output buffer
  abbrev pub load_output : IoCtx Card → ℕ → Option (List ℕ) × Card → IoCtx Card
  load_output io sector_addr (buf, c) = record io {
    output_sector_buf = assigned buf io.output_sector_buf;
    output_sector_addr = if is_some buf then u16 sector_addr else io.output_sector_addr;
    card = c;
  }

  -- the write of one byte into the output buffer
  abbrev pub place : IoCtx Card → ℕ → ℕ → IoCtx Card
  place io offset byte = record io {
    output_sector_buf = set io.output_sector_buf (offset % 512) byte;
    output_byte_addr = u32 (offset / 512 + offset % 512);
  }

  -- The function has no `return` on the path that writes: its value there is whatever the return
  -- register holds, the parameter `leftover` of the state.
  module _ (leftover : IoCtx Card → ℕ) where
    unfoldable pub io_put_byte : IoCtx Card → ℕ → ℕ → ℕ × IoCtx Card
    io_put_byte io offset byte =
        if offset / 512 == io.output_sector_addr
        then (u8 (leftover (place io offset byte)), place io offset byte)
        else (let (ret, io1) = io_flush_write_buffer io in
            let (buf, c) = get_sector io1.card (offset / 512) in
            let io2 = load_output io1 (offset / 512) (buf, c) in
            if is_negative ret
            then (minus_one, io1)
            else if is_some buf
            then (u8 (leftover (place io2 offset byte)), place io2 offset byte)
            else (minus_one, io2))

    -- The loop over the bytes `ptr[i..nbytes)`.
    unfoldable pub io_write_from : IoCtx Card → ℕ → ℕ → List ℕ → ℕ × IoCtx Card
    io_write_from io offset i [] = (0, io)
    io_write_from io offset i (byte ∷ bytes) =
        let (ret, io') = io_put_byte io (u32 (offset + i)) byte in
        let rest = io_write_from io' offset (i + 1) bytes in
        if is_negative ret then (minus_one, io') else rest

    unfoldable pub io_write_nbytes : IoCtx Card → List ℕ → ℕ → ℕ × IoCtx Card
    unfolding io_write_from
    io_write_nbytes io buf offset = io_write_from io offset 0 buf
