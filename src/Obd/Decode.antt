-- ===== src/Obd/Decode.antt =====
-- What `obd_command` (src/obd.c) stores of an answer that has arrived.
use ee459spring.Base.{
  ℕ, refl, ◌≡◌, List, [], ◌∷◌, ◌+◌, ◌*◌, ◌/◌, ◌%◌, ◌<◌, arith, Bool, true, false, ◌&&◌, ltb,
  hex_digit, strtol_hex, u8, c_string, strlen, length, drop, is_some, strstr, some, ◌∙◌,
}
use ee459spring.Obd.{parse_pairs, decode_answer, obd_resp, obd_fmt_resp, no_data, no_connect}
use ee459spring.Obd.Format.{hex_digits_of, fmt_resp-digits}

-- bytes as two upper case digits each
abbrev pub hex_text : List ℕ → List ℕ
hex_text [] = []
hex_text (b ∷ bs) = hex_digit (b / 16) ∷ hex_digit (b % 16) ∷ hex_text bs

abbrev pub all_bytes : List ℕ → Bool
all_bytes [] = true
all_bytes (b ∷ bs) = ltb b 256 && all_bytes bs

two_digits :
    (hi lo : ℕ) → hi < 16 → lo < 16 → strtol_hex (hex_digit hi ∷ hex_digit lo ∷ []) 0 ≡ hi * 16 + lo
two_digits hi lo h l = ground arith

parse-hex_text : (bs : List ℕ) → all_bytes bs ≡ true → parse_pairs (hex_text bs) ≡ bs
unfolding parse_pairs
parse-hex_text [] h = refl
parse-hex_text (b ∷ bs) h =
    let small : b < 256 = ground (arith, h) in
    let digits = two_digits (b / 16) (b % 16) (omega arith) (omega arith) in
    let byte : u8 (b / 16 * 16 + b % 16) ≡ b = omega arith in
    rw (digits, byte, parse-hex_text bs (ground (arith, h))) refl

even-hex_text : (bs : List ℕ) → length (hex_text bs) % 2 ≡ 0
even-hex_text [] = refl
even-hex_text (b ∷ bs) = omega (arith, even-hex_text bs)

-- An answer without the two error texts, in which obd_resp finds the mode byte at index k, and whose
-- hexadecimal digits from there on are those of bytes, is stored as these bytes, however the digits
-- are spaced.
pub decode_answer-bytes :
    (cmd buf bs : List ℕ) (k : ℕ)
    → is_some (strstr no_data buf) ≡ false
    → is_some (strstr no_connect buf) ≡ false
    → obd_resp cmd buf ≡ some k
    → strlen (drop k buf) < length (drop k buf)
    → all_bytes bs ≡ true
    → hex_digits_of (c_string (drop k buf)) ≡ hex_text bs
    → decode_answer cmd buf ≡ some bs
unfolding decode_answer
decode_answer-bytes cmd buf bs k ok connected found ended bytes digits =
    let (text, code) = fmt_resp-digits (drop k buf) ended in
    let zero_code : (obd_fmt_resp (drop k buf)).0 ≡ 0 = code ∙ rw (digits, even-hex_text bs) refl in
    rw (ok, connected, found, zero_code, text, digits, parse-hex_text bs bytes) refl
