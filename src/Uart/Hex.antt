-- ===== src/Uart/Hex.antt =====
-- The hexadecimal output of src/uart.c is read back as the number.
use ee459spring.Base.{
  ℕ, ◌≡◌, List, [], ◌∷◌, ◌++◌, ◌+◌, ◌*◌, ◌/◌, ◌%◌, ◌<◌, ◌^◌, arith, u8, strtol_hex, bit_and,
  bit_and_low, bit_and-zero, ap, ◌∙◌, sym, append-nil, ◌>>>◌,
}
use ee459spring.Uart.{uart_write_hex, uart_write_32, digit_char}

low_half : (v : ℕ) → bit_and v 15 ≡ v % 16
low_half v = omega (
  arith,
  bit_and_low v 15,
  bit_and_low (v / 2) 7,
  bit_and_low (v / 2 / 2) 3,
  bit_and_low (v / 2 / 2 / 2) 1,
  bit_and-zero (v / 2 / 2 / 2 / 2),
)

two_chars :
    (hi lo acc : ℕ) (rest : List ℕ)
    → hi < 16
    → lo < 16
    → strtol_hex (digit_char hi ∷ digit_char lo ∷ rest) acc
      ≡ strtol_hex rest (acc * 256 + hi * 16 + lo)
two_chars hi lo acc rest h l = ground arith

write_hex_lem :
    (n acc : ℕ) (rest : List ℕ)
    → n < 256
    → strtol_hex (uart_write_hex n ++ rest) acc ≡ strtol_hex rest (acc * 256 + n)
unfolding uart_write_hex
write_hex_lem n acc rest h =
    let hi : bit_and (n >>> 4) 15 ≡ n / 16 = omega (arith, low_half (n >>> 4)) in
    let lo : bit_and (u8 (n * 16) >>> 4) 15 ≡ n % 16 =
      omega (arith, low_half (u8 (n * 16) >>> 4)) in
    let whole : acc * 256 + n / 16 * 16 + n % 16 ≡ acc * 256 + n = omega arith in
    rw (hi, lo)
      (two_chars (n / 16) (n % 16) acc rest (omega arith) (omega arith)
        ∙ ap (strtol_hex rest) whole)

-- For a 32-bit value the eight digits that uart_write_32 writes are read back by strtol in base 16 as
-- the value.
pub read-write_32 : (val : ℕ) → val < 2 ^ 32 → strtol_hex (uart_write_32 val) 0 ≡ val
unfolding uart_write_32
read-write_32 val h =
    let b3 = u8 (val >>> 24) in
    let b2 = u8 (val >>> 16) in
    let b1 = u8 (val >>> 8) in
    let b0 = u8 val in
    write_hex_lem b3 0 (uart_write_hex b2 ++ (uart_write_hex b1 ++ uart_write_hex b0)) (omega arith)
    ∙ write_hex_lem b2 (0 * 256 + b3) (uart_write_hex b1 ++ uart_write_hex b0) (omega arith)
    ∙ write_hex_lem b1 ((0 * 256 + b3) * 256 + b2) (uart_write_hex b0) (omega arith)
    ∙ ap (λ t. strtol_hex t (((0 * 256 + b3) * 256 + b2) * 256 + b1))
        (sym (append-nil (uart_write_hex b0)))
    ∙ write_hex_lem b0 (((0 * 256 + b3) * 256 + b2) * 256 + b1) [] (omega arith)
    ∙ omega arith
