-- ===== src/Uart.antt =====
-- src/uart.c: the functions that write text. What the port is given is a list; the wait for the
-- transmitter and the registers are left out.
pub mod Hex
pub mod Ports
pub mod Strn
mod Tests
use ee459spring.Base.{
  ℕ, List, [], ◌∷◌, ◌++◌, ◌+◌, ◌*◌, ◌-◌, bit_and, ◌>>>◌, u8, ltb, c_string, if◌then◌else◌, Bool,
  suc, Option, some, zero, none,
}

abbrev pub isascii : ℕ → Bool
isascii c = ltb c 128

-- a digit: `'0' + v` below 10, else `'A' + v - 10`
abbrev pub digit_char : ℕ → ℕ
digit_char v = if ltb v 10 then 48 + v else 65 + v - 10

unfoldable pub uart_write_str : List ℕ → List ℕ
uart_write_str buf = c_string buf

-- `n <<= 4` keeps the low half of the byte.
unfoldable pub uart_write_hex : ℕ → List ℕ
uart_write_hex n =
    digit_char (bit_and (n >>> 4) 15) ∷ digit_char (bit_and (u8 (n * 16) >>> 4) 15) ∷ []

unfoldable pub uart_write_32 : ℕ → List ℕ
unfolding uart_write_hex
uart_write_32 val =
    uart_write_hex (u8 (val >>> 24))
    ++ (uart_write_hex (u8 (val >>> 16))
        ++ (uart_write_hex (u8 (val >>> 8)) ++ uart_write_hex (u8 val)))

-- The loop of `uart_write_strn`, with `n` rounds left, from `buf` on: a byte that is not ASCII is
-- passed over by `continue`, which leaves out `buf++` too.
unfoldable pub uart_write_strn : List ℕ → ℕ → List ℕ
uart_write_strn buf zero = []
uart_write_strn [] (suc n) = []
uart_write_strn (b ∷ buf) (suc n) =
    let stuck = uart_write_strn (b ∷ buf) n in
    let on = uart_write_strn buf n in if isascii b then b ∷ on else stuck

-- a byte stored before those that the rest of the loop stores
abbrev pub put_byte : ℕ → Option (List ℕ × List ℕ) → Option (List ℕ × List ℕ)
put_byte c none = none
put_byte c (some (got, line)) = some (c ∷ got, line)

-- The loop of `uart_read_strn`: the array from `buf` on after it, and the bytes of the line that are
-- left; `none` is a wait that does not end. What is tested is the old content of the array.
unfoldable pub uart_read_strn : List ℕ → ℕ → List ℕ → Option (List ℕ × List ℕ)
uart_read_strn buf zero line = some (buf, line)
uart_read_strn [] (suc n) line = some ([], line)
uart_read_strn (b ∷ buf) (suc n) [] =
    let stuck = uart_read_strn (b ∷ buf) n [] in if isascii b then none else stuck
uart_read_strn (b ∷ buf) (suc n) (c ∷ line) =
    let stuck = uart_read_strn (b ∷ buf) n (c ∷ line) in
    let on = uart_read_strn buf n line in if isascii b then put_byte c on else stuck
