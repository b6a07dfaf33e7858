-- ===== src/Fifo.antt =====
-- src/fifo.c and src/include/fifo.h: the byte queue between the receive interrupt and the ELM327
-- reader. A function that writes through the struct pointer returns the new struct.
pub mod Latch
pub mod Inv
pub mod Refine
pub mod Stream
pub mod Drain
pub mod Dump
mod Tests
use ee459spring.Base.{
  ℕ, zero, suc, ◌+◌, Bool, true, false, ◌&&◌, not, Option, none, some, List, [], ◌∷◌, get_or, set,
  ◌==◌, leb, if◌then◌else◌, u8,
}

abbrev pub fifo_size : ℕ
fifo_size = 64

-- the values of `f_status`
pub data Status : Type 0 where
  full empty ready : Status

abbrev pub is_full : Status → Bool
is_full Status.full = true
is_full s = false

abbrev pub is_empty : Status → Bool
is_empty Status.empty = true
is_empty s = false

pub record Fifo : Type 0 where
  pub f_buf : List ℕ
  pub f_head : ℕ
  pub f_tail : ℕ
  pub f_status : Status

unfoldable pub initialize_fifo : Fifo → Fifo
initialize_fifo fifo = record fifo { f_head = 0; f_tail = 0; f_status = Status.empty }

-- `i++; if (i == FIFO_SIZE) i = 0;` on a `uint8_t`
abbrev pub advance : ℕ → ℕ
advance i = if u8 (i + 1) == fifo_size then 0 else u8 (i + 1)

-- the value -1 of type `char`, as a bit pattern
abbrev pub minus_one : ℕ
minus_one = 255

unfoldable pub fifo_write_byte : Fifo → ℕ → ℕ × Fifo
fifo_write_byte fifo byte =
    if not (is_full fifo.f_status)
    then (
      0,
      record fifo {
        f_buf = set fifo.f_buf fifo.f_head byte;
        f_head = advance fifo.f_head;
        f_status = if advance fifo.f_head == fifo.f_tail then Status.full else Status.ready;
      },
    )
    else (minus_one, fifo)

-- The option is what goes through `byte`; `none` leaves the caller's variable as it was.
unfoldable pub fifo_read_byte : Fifo → ℕ × Option ℕ × Fifo
fifo_read_byte fifo =
    if not (is_empty fifo.f_status)
    then (
      0,
      some (get_or fifo.f_buf fifo.f_tail 0),
      record fifo {
        f_tail = advance fifo.f_tail;
        f_status = if advance fifo.f_tail == fifo.f_head then Status.empty else fifo.f_status;
      },
    )
    else (minus_one, none, fifo)

-- `c < 0` for a `char`, which the build flags make signed or unsigned: the firmware is built with
-- -funsigned-char (`signed_char = false`), the host tests with the compiler's default.
abbrev pub char_negative : Bool → ℕ → Bool
char_negative signed_char c = signed_char && leb 128 c

-- The loop over the bytes `ptr[i..nbytes)`.
pub fifo_writen : Bool → Fifo → List ℕ → ℕ × Fifo
fifo_writen signed_char fifo [] = (0, fifo)
fifo_writen signed_char fifo (byte ∷ bytes) =
    let (ret, fifo') = fifo_write_byte fifo byte in
    let rest = fifo_writen signed_char fifo' bytes in
    if char_negative signed_char ret then (minus_one, fifo') else rest

-- what a read leaves in a variable that held `old`
abbrev pub assigned : Option ℕ → ℕ → ℕ
assigned none old = old
assigned (some byte) old = byte

-- The list is `ptr[i..nbytes)` before the loop, and the one returned is the same slots after it.
pub fifo_readn : Bool → Fifo → List ℕ → ℕ × List ℕ × Fifo
fifo_readn signed_char fifo [] = (0, [], fifo)
fifo_readn signed_char fifo (slot ∷ slots) =
    let (ret, byte, fifo') = fifo_read_byte fifo in
    let (code, slots', fifo'') = fifo_readn signed_char fifo' slots in
    if char_negative signed_char ret
    then (minus_one, assigned byte slot ∷ slots, fifo')
    else (code, assigned byte slot ∷ slots', fifo'')
