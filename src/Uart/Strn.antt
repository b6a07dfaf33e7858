-- ===== src/Uart/Strn.antt =====
-- `uart_write_strn` and `uart_read_strn` (src/uart.c) on text, and past it.
use ee459spring.Base.{
  ℕ, zero, suc, ◌≡◌, refl, List, [], ◌∷◌, ◌++◌, arith, length, take, Bool, true, false, ◌&&◌, some,
}
use ee459spring.Uart.{isascii, uart_write_strn, uart_read_strn}

abbrev pub all_ascii : List ℕ → Bool
all_ascii [] = true
all_ascii (b ∷ bs) = isascii b && all_ascii bs

write-stuck : (b n : ℕ) (bs : List ℕ) → isascii b ≡ false → uart_write_strn (b ∷ bs) n ≡ []
unfolding uart_write_strn
write-stuck b zero bs h = refl
write-stuck b (suc n) bs h = ground (arith, write-stuck b n bs h)

-- uart_write_strn sends the ASCII bytes before the first byte that is none, and nothing after it.
pub write_strn-prefix :
    (text rest : List ℕ) (b n : ℕ)
    → all_ascii text ≡ true
    → isascii b ≡ false
    → uart_write_strn (text ++ b ∷ rest) n ≡ take n text
unfolding uart_write_strn
write_strn-prefix text rest b zero ht hb = refl
write_strn-prefix [] rest b (suc n) ht hb = write-stuck b (suc n) rest hb
write_strn-prefix (c ∷ text) rest b (suc n) ht hb = ground (arith, write_strn-prefix text rest b n)

-- Where the old content of the array is ASCII, uart_read_strn fills the array with the line.
pub read_strn_lem :
    (old line rest : List ℕ)
    → all_ascii old ≡ true
    → length line ≡ length old
    → uart_read_strn old (length old) (line ++ rest) ≡ some (line, rest)
unfolding uart_read_strn
read_strn_lem [] [] rest h e = refl
read_strn_lem [] (c ∷ line) rest h e = absurd (omega arith)
read_strn_lem (b ∷ old) [] rest h e = absurd (omega arith)
read_strn_lem (b ∷ old) (c ∷ line) rest h e =
    let ascii : isascii b ≡ true = ground (arith, h) in
    rw (ascii, read_strn_lem old line rest (ground (arith, h)) (omega arith)) refl
