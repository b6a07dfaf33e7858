-- ===== src/Utils.antt =====
-- src/utils.c: the functions that compute, and those that print bytes in hexadecimal.
pub mod Words
pub mod Dump
mod Tests
use ee459spring.Base.{
  ℕ, List, [], ◌∷◌, ◌++◌, ◌+◌, ◌/◌, ◌%◌, ◌==◌, ◌<<<◌, bit_or, u8, codes, hex_digit, if◌then◌else◌,
}

unfoldable pub bind_args : ℕ → ℕ → ℕ → ℕ → ℕ
bind_args arg0 arg1 arg2 arg3 =
    bit_or (bit_or (bit_or (arg0 <<< 24) (arg1 <<< 16)) (arg2 <<< 8)) arg3

-- the loop from index `i` on; the result is an `int8_t`
unfoldable pub find_byte : ℕ → List ℕ → ℕ → ℕ
find_byte byte [] i = 255
find_byte byte (ch ∷ buf) i =
    let rest = find_byte byte buf (i + 1) in if byte == ch then u8 i else rest

unfoldable pub byte_in_arr : ℕ → List ℕ → ℕ
unfolding find_byte
byte_in_arr byte buf = find_byte byte buf 0

-- "0x%02X " of a byte, which fills the six bytes of `hex`; what the UART is given
unfoldable pub dump_byte : ℕ → List ℕ
dump_byte byte = codes "0x" ++ (hex_digit (byte / 16) ∷ hex_digit (byte % 16) ∷ 32 ∷ [])

unfoldable pub dump_nbytes : List ℕ → List ℕ
unfolding dump_byte
dump_nbytes [] = 10 ∷ 13 ∷ []
dump_nbytes (b ∷ bs) = dump_byte b ++ dump_nbytes bs
