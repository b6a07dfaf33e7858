-- ===== src/Main/Tests.antt =====
-- The theorem about src/main.c at a concrete input.
use ee459spring.Base.{ℕ, refl, ◌≡◌, [], ◌∷◌, ◌++◌, some, false, codes, replicate, ◌-◌, ◌/◌, arith}
use ee459spring.Obd.Readings.{Floats}
use ee459spring.I2c.Write.{bus}
use ee459spring.Main.{Board, ask_and_show}
use ee459spring.Main.Show.{acks, frame}
use ee459spring.Main.Dial.{padded, rpm_text, ask_and_show-rpm}
use ee459spring.Obd.Line.{line_of}
use ee459spring.Obd.Supported.{row_of}

-- numbers without a fraction in spot of the floats
abbrev no_floats : Floats
no_floats = record {
  Float = ℕ;
  of_ℕ = λ n. n;
  hundredths = λ n. n / 100;
  div = λ m n. m / n;
  sub = λ m n. m - n;
}

abbrev board : Board
board = record {
  twi = bus (acks 3 (acks 20 [])) [] [];
  sent = [];
  incoming = line_of (0x41 ∷ 0x0c ∷ 0x1a ∷ 0xf8 ∷ []) ++ 62 ∷ [];
  buf = replicate 13 0;
  overrun = false;
  led = false;
}

the_line : line_of (0x41 ∷ 0x0c ∷ 0x1a ∷ 0xf8 ∷ []) ≡ codes "41 0C 1A F8 \r\r"
the_line = refl

-- 0x1AF8 quarters of a revolution are 1726
the_text : padded (rpm_text 0x1a 0xf8) ≡ codes "RPM: 1726rpm" ++ replicate 8 0
the_text = refl

ask_and_show-rpm_example :
    ask_and_show no_floats (λ _. []) (row_of 0x0c) board
    ≡ some (record board {
      sent = codes "010C\r";
      incoming = [];
      buf = 0xfe ∷ 0x45 ∷ 0x00 ∷ 0xf8 ∷ replicate 9 0;
      twi = bus [] (frame (frame [] (0xfe ∷ 0x45 ∷ 0x00 ∷ [])) (padded (rpm_text 0x1a 0xf8))) [];
    })
ask_and_show-rpm_example =
    ask_and_show-rpm 0x1a 0xf8 refl no_floats (λ _. []) board [] [] [] [] refl (omega arith) refl
