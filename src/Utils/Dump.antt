-- ===== src/Utils/Dump.antt =====
-- src/utils.c: `dump_bin`, a listing of 16 bytes to a line, and `trace`. What the UART is given.
use ee459spring.Base.{
  ℕ, zero, suc, List, [], ◌∷◌, ◌++◌, ◌+◌, ◌%◌, ◌==◌, ◌>>>◌, ◌&&◌, leb, u8, set, codes, c_string,
  if◌then◌else◌,
}
use ee459spring.Uart.{uart_write_hex}

abbrev crlf : List ℕ
crlf = 13 ∷ 10 ∷ []

-- the start of a line at index `i`: the text of the line before, and the offset
abbrev pub new_line : ℕ → List ℕ → List ℕ
new_line i ascii =
    (if i == 0 then [] else codes "  ")
    ++ (c_string ascii
        ++ (crlf
            ++ (codes "  "
                ++ (uart_write_hex (u8 (i >>> 8)) ++ (uart_write_hex (u8 i) ++ codes "  ")))))

-- `isprint` of the C locale, and a dot for what is not
abbrev pub shown : ℕ → ℕ
shown b = if leb 32 b && leb b 126 then b else 46

-- the loop over the bytes from index `i` on, and what is printed after it; `ascii` is the local array
unfoldable pub dump_rows : List ℕ → ℕ → List ℕ → List ℕ
unfolding uart_write_hex
dump_rows [] i ascii = padding 16 i ++ (codes "  " ++ (c_string ascii ++ crlf))
  where
    -- `while ((i % 16) != 0)`, which ends within 16 rounds
    padding : ℕ → ℕ → List ℕ
    padding zero i = []
    padding (suc fuel) i = let rest = padding fuel (i + 1) in if i % 16 == 0 then [] else 32 ∷ rest
dump_rows (b ∷ bytes) i ascii =
    (if i % 16 == 0 then new_line i ascii else [])
    ++ (32 ∷ uart_write_hex b)
    ++ dump_rows bytes (i + 1) (set (set ascii (i % 16) (shown b)) (i % 16 + 1) 0)

-- `stack` is what the uninitialised array `ascii` of 18 bytes holds, which the first line prints.
unfoldable pub dump_bin : List ℕ → List ℕ → List ℕ
unfolding dump_rows
dump_bin stack bytes = (codes "HEXDATA" ++ (crlf ++ crlf)) ++ dump_rows bytes 0 stack

abbrev pub trace : List ℕ
trace = codes "trace" ++ crlf
