-- ===== src/Utils/Words.antt =====
-- `bind_args` and `byte_in_arr` (src/utils.c), and the SD command that carries such a word.
use ee459spring.Base.{
  ℕ, refl, ◌≡◌, [], ◌∷◌, ◌+◌, ◌*◌, ◌<◌, ◌^◌, arith, bit_or-join, bit_or, ap, ◌∙◌, u8, ◌<<<◌, ◌>>>◌,
}
use ee459spring.Utils.{bind_args}
use ee459spring.Sd.{frame}

-- For bytes, bind_args is the 32-bit number that they write, the highest first, and the frame of an SD
-- command with that argument carries the four bytes in this order.
pub bind_args_lem :
    (cmd crc a b c d : ℕ)
    → a < 256
    → b < 256
    → c < 256
    → d < 256
    → (bind_args a b c d ≡ a * 2 ^ 24 + b * 2 ^ 16 + c * 2 ^ 8 + d)
      × (frame cmd (bind_args a b c d) crc ≡ cmd ∷ a ∷ b ∷ c ∷ d ∷ crc ∷ [])
unfolding bind_args
bind_args_lem cmd crc a b c d ha hb hc hd =
    (sum, rw sum (bytes (a * 2 ^ 24 + b * 2 ^ 16 + c * 2 ^ 8 + d) refl))
  where
    sum : bind_args a b c d ≡ a * 2 ^ 24 + b * 2 ^ 16 + c * 2 ^ 8 + d
    sum =
        let high = bit_or-join 24 a (b <<< 16) (omega arith) in
        let high' : a * 2 ^ 24 + (b <<< 16) ≡ (a * 256 + b) <<< 16 = omega arith in
        let mid = bit_or-join 16 (a * 256 + b) (c <<< 8) (omega arith) in
        let mid' : (a * 256 + b) * 2 ^ 16 + (c <<< 8) ≡ ((a * 256 + b) * 256 + c) <<< 8 =
          omega arith in
        let low = bit_or-join 8 ((a * 256 + b) * 256 + c) d (omega arith) in
        ap (λ t. bit_or (bit_or t (c <<< 8)) d) (high ∙ high')
        ∙ ap (λ t. bit_or t d) (mid ∙ mid')
        ∙ low
        ∙ omega arith

    bytes :
        (n : ℕ)
        → n ≡ a * 2 ^ 24 + b * 2 ^ 16 + c * 2 ^ 8 + d
        → frame cmd n crc ≡ cmd ∷ a ∷ b ∷ c ∷ d ∷ crc ∷ []
    bytes n e =
        let e3 : u8 (n >>> 24) ≡ a = omega arith in
        let e2 : u8 (n >>> 16) ≡ b = omega arith in
        let e1 : u8 (n >>> 8) ≡ c = omega arith in
        let e0 : u8 n ≡ d = omega arith in λ i. cmd ∷ e3 i ∷ e2 i ∷ e1 i ∷ e0 i ∷ crc ∷ []
