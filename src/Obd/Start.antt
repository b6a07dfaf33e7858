-- ===== src/Obd/Start.antt =====
-- The start of src/obd.c (`initialize_obd`): the answer to the command 0100 names the supported PIDs.
use ee459spring.Obd.Line.{spaced, get_or-overwrite, line_of, line_plain, line_decoded}
use ee459spring.Base.{
  ℕ, refl, ◌≡◌, ◌≤◌, ◌+◌, ◌*◌, List, [], ◌∷◌, ◌++◌, length, replicate, codes, some, true, arith,
  strstr, bit_or-join, ◌^◌,
}
use ee459spring.Elm.{elm_command, elm_write}
use ee459spring.Elm.Read.{elm_read_lem}
use ee459spring.Obd.{
  initialize_obd, obd_command, obd_resp, supported_word, overwrite, obd_set_supported_ops,
}
use ee459spring.Obd.Decode.{all_bytes}

-- the line with the four bytes of the mask, and the empty line after it
abbrev pub mask_line : ℕ → ℕ → ℕ → ℕ → List ℕ
mask_line b1 b2 b3 b4 = spaced (0x41 ∷ 0x00 ∷ b1 ∷ b2 ∷ b3 ∷ b4 ∷ []) ++ 13 ∷ 13 ∷ []

-- the word that four bytes stand for, the first the highest
abbrev pub mask_of : ℕ → ℕ → ℕ → ℕ → ℕ
mask_of b1 b2 b3 b4 = b1 * 2 ^ 24 + (b2 * 2 ^ 16 + (b3 * 2 ^ 8 + b4))

module _ (b1 b2 b3 b4 : ℕ) (h : all_bytes (b1 ∷ b2 ∷ b3 ∷ b4 ∷ []) ≡ true) where
  abbrev bytes : List ℕ
  bytes = 0x41 ∷ 0x00 ∷ b1 ∷ b2 ∷ b3 ∷ b4 ∷ []

  word :
      (stack : List ℕ)
      → 6 ≤ length stack
      → supported_word (overwrite bytes stack) ≡ mask_of b1 b2 b3 b4
  unfolding supported_word
  word stack room =
      rw
        (
          get_or-overwrite bytes stack 2 (omega arith) room,
          get_or-overwrite bytes stack 3 (omega arith) room,
          get_or-overwrite bytes stack 4 (omega arith) room,
          get_or-overwrite bytes stack 5 (omega arith) room,
          bit_or-join 8 b3 b4 (ground (arith, h)),
          bit_or-join 16 b2 (b3 * 2 ^ 8 + b4) (ground (arith, h)),
        )
        (bit_or-join 24 b1 (b2 * 2 ^ 16 + (b3 * 2 ^ 8 + b4)) (ground (arith, h)))

  mode_first : obd_resp (codes "0100\r") (line_of bytes ++ 62 ∷ replicate 43 0) ≡ some 0
  unfolding obd_resp strstr
  mode_first = refl

  -- Where the ELM327 answers 0100 by the line "41 00 " with four bytes and the prompt, initialize_obd has
  -- sent that command, and the list holds the supported commands of that mask; the bytes after the
  -- prompt are left.
  pub initialize_obd-mask :
      (stack sent rest : List ℕ)
      → 6 ≤ length stack
      → initialize_obd stack sent (mask_line b1 b2 b3 b4 ++ 62 ∷ rest)
        ≡ some (sent ++ codes "0100\r", some (obd_set_supported_ops (mask_of b1 b2 b3 b4)), rest)
  unfolding initialize_obd obd_command elm_command elm_write
  initialize_obd-mask stack sent rest room =
      rw
        (
          elm_read_lem 64 (line_of bytes) rest (line_plain (codes "0100\r") bytes 43 h)
              (omega arith),
          line_decoded (codes "0100\r") bytes 43 h (omega arith) mode_first,
          word stack room,
        )
        refl
