-- ===== src/I2c/Tests.antt =====
-- The theorems about src/i2c.c at concrete inputs.
use ee459spring.Base.{ℕ, refl, ◌≡◌, List, [], ◌∷◌, ◌++◌, some}
use ee459spring.I2c.{i2c_io, receive_nak, stop}
use ee459spring.I2c.Write.{bus, addressed, sends, i2c_io-written, i2c_io-refused}
use ee459spring.I2c.Read.{i2c_io-exchanged, addressed_to_read, acked, received}

-- the command that clears the display
abbrev clear : List ℕ
clear = 0xfe ∷ 0x51 ∷ []

abbrev acks : List (ℕ × ℕ)
acks = (0x28, 0) ∷ (0x29, 0) ∷ []

writes_two_bytes :
    i2c_io 0x50 clear [] 0 (bus ((0x08, 0) ∷ (0x18, 0) ∷ (acks ++ ([] ++ []))) [] [])
    ≡ some (0, bus [] (((addressed [] 0x50 ++ sends clear) ++ sends []) ++ stop ∷ []) [])
writes_two_bytes =
    i2c_io-written 0x50 (0x08, 0) (0x18, 0) [] [] refl refl clear [] acks [] [] refl refl refl refl
      refl

refused_byte :
    i2c_io 0x50
      ((0xfe ∷ []) ++ 0x51 ∷ (1 ∷ []))
      (2 ∷ [])
      3
      (bus ((0x08, 0) ∷ (0x18, 0) ∷ (((0x28, 0) ∷ []) ++ (0x30, 0) ∷ [])) [] [])
    ≡ some (0x30, bus [] ((addressed [] 0x50 ++ sends ((0xfe ∷ []) ++ 0x51 ∷ [])) ++ stop ∷ []) [])
refused_byte =
    i2c_io-refused 0x50 (0x08, 0) (0x18, 0) [] [] refl refl (0xfe ∷ []) (1 ∷ []) (2 ∷ []) 0x51 3
      ((0x28, 0) ∷ []) [] (0x30, 0) refl refl refl

i2c_io-exchanged_example :
    i2c_io 0x50 clear [] 2 (
      bus
        ((0x08, 0)
          ∷ (0x18, 0)
          ∷ (acks ++ ([] ++ ((0x10, 0) ∷ (0x40, 0) ∷ (((0x50, 7) ∷ []) ++ (0x58, 9) ∷ [])))))
        []
        [])
    ≡ some (
      0,
      bus []
          (((addressed_to_read ((addressed [] 0x50 ++ sends clear) ++ sends []) 0x50
                ++ acked ((0x50, 7) ∷ []))
              ++ receive_nak ∷ [])
            ++ stop ∷ [])
          (([] ++ received ((0x50, 7) ∷ [])) ++ received ((0x58, 9) ∷ [])),
    )
i2c_io-exchanged_example =
    i2c_io-exchanged 0x50 clear [] (0x08, 0) (0x18, 0) (0x10, 0) (0x40, 0) (0x58, 9) acks []
      ((0x50, 7) ∷ []) [] [] [] refl refl refl refl refl refl refl refl refl refl refl
