-- ===== src/Obd/Line.antt =====
-- An answer of src/obd.c that is one line of bytes: how it is decoded.
use ee459spring.Base.{
  ℕ, refl, zero, suc, ◌≡◌, ◌<◌, ◌≤◌, ◌+◌, ◌/◌, ◌%◌, ◌∙◌, ap, List, [], ◌∷◌, ◌++◌, length, replicate,
  codes, c_string, strlen, is_some, some, true, false, Bool, ltb, ◌&&◌, arith, hex_digit, strstr,
  get_or, append_assoc, length-append, length-replicate,
}
use ee459spring.Obd.{decode_answer, obd_resp, overwrite}
use ee459spring.Obd.Format.{hex_digits_of}
use ee459spring.Obd.Decode.{hex_text, all_bytes, decode_answer-bytes}
use ee459spring.Elm.Read.{is_plain}

-- bytes as the ELM327 prints them, each with a blank after it
abbrev pub spaced : List ℕ → List ℕ
spaced [] = []
spaced (b ∷ bs) = hex_digit (b / 16) ∷ hex_digit (b % 16) ∷ 32 ∷ spaced bs

-- a line of bytes, and the empty line after it
abbrev pub line_of : List ℕ → List ℕ
line_of bytes = spaced bytes ++ 13 ∷ 13 ∷ []

-- no letter above F
is_low : List ℕ → Bool
is_low [] = true
is_low (c ∷ cs) = ltb c 71 && is_low cs

low-append : (xs ys : List ℕ) → is_low xs ≡ true → is_low ys ≡ true → is_low (xs ++ ys) ≡ true
unfolding is_low
low-append [] ys hx hy = hy
low-append (x ∷ xs) ys hx hy = ground (arith, low-append xs ys)

low-zeros : (k : ℕ) → is_low (replicate k 0) ≡ true
unfolding is_low
low-zeros zero = refl
low-zeros (suc k) = low-zeros k

low-spaced : (bs : List ℕ) → all_bytes bs ≡ true → is_low (spaced bs) ≡ true
unfolding is_low
low-spaced [] h = refl
low-spaced (b ∷ bs) h = ground (arith, low-spaced bs, h)

-- a text that starts with a higher letter does not occur
absent :
    (p : ℕ) (pat buf : List ℕ) → 70 < p → is_low buf ≡ true → is_some (strstr (p ∷ pat) buf) ≡ false
unfolding strstr is_low
absent p pat [] hp h = refl
absent p pat (c ∷ buf) hp h = ground (arith, absent p pat buf)

plain-spaced :
    (bs tail : List ℕ)
    → all_bytes bs ≡ true
    → is_plain tail ≡ true
    → is_plain (spaced bs ++ tail) ≡ true
plain-spaced [] tail h ht = ht
plain-spaced (b ∷ bs) tail h ht = ground (arith, plain-spaced bs tail)

digits-spaced :
    (bs tail : List ℕ)
    → all_bytes bs ≡ true
    → hex_digits_of tail ≡ []
    → hex_digits_of (spaced bs ++ tail) ≡ hex_text bs
digits-spaced [] tail h ht = ht
digits-spaced (b ∷ bs) tail h ht = ground (arith, digits-spaced bs tail)

c_string-plain :
    (xs : List ℕ) (k : ℕ) → is_plain xs ≡ true → c_string (xs ++ 62 ∷ replicate k 0) ≡ xs ++ 62 ∷ []
c_string-plain [] zero h = refl
c_string-plain [] (suc k) h = refl
c_string-plain (x ∷ xs) k h = ground (arith, c_string-plain xs k)

strlen-plain :
    (xs : List ℕ) (k : ℕ) → is_plain xs ≡ true → strlen (xs ++ 62 ∷ replicate k 0) ≡ length xs + 1
strlen-plain [] zero h = refl
strlen-plain [] (suc k) h = refl
strlen-plain (x ∷ xs) k h = ground (arith, strlen-plain xs k)

pub get_or-overwrite :
    (bytes old : List ℕ) (i : ℕ)
    → i < length bytes
    → length bytes ≤ length old
    → get_or (overwrite bytes old) i 0 ≡ get_or bytes i 0
get_or-overwrite [] old i h room = absurd (omega arith)
get_or-overwrite (b ∷ bytes) [] i h room = absurd (omega arith)
get_or-overwrite (b ∷ bytes) (x ∷ old) zero h room = refl
get_or-overwrite (b ∷ bytes) (x ∷ old) (suc i) h room =
    get_or-overwrite bytes old i (omega arith) (omega arith)

-- An array with a line of bytes, the prompt and zeros is decoded as the bytes, where the answer starts with
-- the mode that the command asks for.
module _ (cmd bytes : List ℕ) (k : ℕ) (h : all_bytes bytes ≡ true) where
  abbrev filled : List ℕ
  filled = line_of bytes ++ 62 ∷ replicate k 0

  pub line_plain : is_plain (line_of bytes) ≡ true
  line_plain = plain-spaced bytes (13 ∷ 13 ∷ []) h refl

  filled_low : is_low filled ≡ true
  unfolding is_low
  filled_low =
      low-append (line_of bytes) (62 ∷ replicate k 0)
        (low-append (spaced bytes) (13 ∷ 13 ∷ []) (low-spaced bytes h) refl) (low-zeros k)

  filled_digits : hex_digits_of (c_string filled) ≡ hex_text bytes
  filled_digits =
      ap hex_digits_of (c_string-plain (line_of bytes) k line_plain)
      ∙ ap hex_digits_of (append_assoc (spaced bytes) (13 ∷ 13 ∷ []) (62 ∷ []))
      ∙ digits-spaced bytes (13 ∷ 13 ∷ 62 ∷ []) h refl

  pub line_decoded : 0 < k → obd_resp cmd filled ≡ some 0 → decode_answer cmd filled ≡ some bytes
  line_decoded some_zeros mode_first =
      decode_answer-bytes cmd filled bytes 0
        (absent 78 (codes "O DATA") filled (omega arith) filled_low)
        (absent 85 (codes "NABLE TO CONNECT") filled (omega arith) filled_low) mode_first
        (omega (
          arith,
          strlen-plain (line_of bytes) k line_plain,
          length-append (line_of bytes) (62 ∷ replicate k 0),
          length-replicate {A = ℕ} k 0,
          some_zeros,
        ))
        h filled_digits
