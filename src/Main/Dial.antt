-- ===== src/Main/Dial.antt =====
-- What src/main.c shows of an answer of the engine, from the bytes on the port to the display.
use ee459spring.Base.{
  ℕ, refl, zero, suc, ◌≡◌, ◌≤◌, ◌-◌, ◌∙◌, ap, List, [], ◌∷◌, ◌++◌, length, take, drop, replicate,
  codes, decimal, some, true, ltb, ◌||◌, arith, length-take, strstr,
}
use ee459spring.I2c.{Command}
use ee459spring.I2c.Write.{bus}
use ee459spring.Elm.{elm_command, elm_write}
use ee459spring.Elm.Read.{elm_read_lem}
use ee459spring.Obd.{Exchange, obd_command, obd_resp, overwrite}
use ee459spring.Obd.Commands.{Handler}
use ee459spring.Obd.Decode.{all_bytes}
use ee459spring.Obd.Line.{line_of, line_plain, line_decoded, get_or-overwrite}
use ee459spring.Obd.Readings.{Floats, handle, wrapped, rpm-maf, obd_get_engine_rpm}
use ee459spring.Obd.Supported.{row_of}
use ee459spring.Main.{Board, screen, ask_and_show}
use ee459spring.Main.Show.{acks, frame, with_cursor, ask_and_show-shown}

-- A text on the 20 places of the display: 19 characters at most, and zeros.
abbrev pub padded : List ℕ → List ℕ
padded text = take 19 text ++ replicate (20 - length (take 19 text)) 0

take-zeros : (n m : ℕ) → n ≤ m → take n (replicate {A = ℕ} m 0) ≡ replicate n 0
take-zeros zero m h = refl
take-zeros (suc n) zero h = absurd (omega arith)
take-zeros (suc n) (suc m) h = ap (λ (l : List ℕ). 0 ∷ l) (take-zeros n m (omega arith))

take-filled :
    (n m : ℕ) (xs : List ℕ)
    → length xs ≤ n
    → n ≤ m
    → take n (xs ++ replicate m 0) ≡ xs ++ replicate (n - length xs) 0
take-filled n m [] h hm =
    let none_gone : n - 0 ≡ n = omega arith in rw none_gone (take-zeros n m hm)
take-filled zero m (x ∷ xs) h hm = absurd (omega arith)
take-filled (suc n) m (x ∷ xs) h hm =
    let same : suc n - suc (length xs) ≡ n - length xs = omega arith in
    rw same (ap (λ (l : List ℕ). x ∷ l) (take-filled n m xs (omega arith) (omega arith)))

screen-padded : (text : List ℕ) → screen text ≡ padded text
unfolding screen
screen-padded text =
    take-filled 20 20 (take 19 text) (omega (arith, length-take 19 text)) (omega arith)

-- the first four bytes of `buf`, written over by the answer and then by the cursor's position
cursor-overwrite :
    (position x y z w : ℕ) (buf : List ℕ)
    → 4 ≤ length buf
    → with_cursor position (overwrite (x ∷ y ∷ z ∷ w ∷ []) buf)
      ≡ 0xfe ∷ 0x45 ∷ position ∷ w ∷ drop 4 buf
cursor-overwrite position x y z w [] h = absurd (omega arith)
cursor-overwrite position x y z w (a ∷ []) h = absurd (omega arith)
cursor-overwrite position x y z w (a ∷ b ∷ []) h = absurd (omega arith)
cursor-overwrite position x y z w (a ∷ b ∷ c ∷ []) h = absurd (omega arith)
cursor-overwrite position x y z w (a ∷ b ∷ c ∷ d ∷ buf) h = refl

abbrev pub rpm_bytes : ℕ → ℕ → List ℕ
rpm_bytes a b = 0x41 ∷ 0x0c ∷ a ∷ b ∷ []

-- what the display gets for the engine's speed
abbrev pub rpm_text : ℕ → ℕ → List ℕ
rpm_text a b = codes "RPM: " ++ (decimal (wrapped (rpm_bytes a b) 4) ++ codes "rpm")

module _ (a b : ℕ) (h : all_bytes (a ∷ b ∷ []) ≡ true) where
  abbrev bytes : List ℕ
  bytes = rpm_bytes a b

  all : all_bytes bytes ≡ true
  all = h

  mode_first : obd_resp (codes "010C\r") (line_of bytes ++ 62 ∷ replicate 49 0) ≡ some 0
  unfolding obd_resp strstr
  mode_first = refl

  exchanged :
      (sent later : List ℕ)
      → obd_command sent (codes "010C\r") (line_of bytes ++ 62 ∷ later)
        ≡ some (record { sent = sent ++ codes "010C\r"; written = some bytes; rest = later })
  unfolding obd_command elm_command elm_write
  exchanged sent later =
      rw
        (
          elm_read_lem 64 (line_of bytes) later (line_plain (codes "010C\r") bytes 49 all)
              (omega arith),
          line_decoded (codes "010C\r") bytes 49 all (omega arith) mode_first,
        )
        refl

  reading :
      (buf : List ℕ) → 4 ≤ length buf → obd_get_engine_rpm (overwrite bytes buf) ≡ wrapped bytes 4
  reading buf room =
      rw
        (
          get_or-overwrite bytes buf 2 (omega arith) room,
          get_or-overwrite bytes buf 3 (omega arith) room,
        )
        (rpm-maf bytes (ground (arith, h)) (ground (arith, h))).0

  module _ (fl : Floats) (show_float : fl.Float → List ℕ) where
    -- For bytes a and b: where the engine answers the command of PID 0x0C by the line "41 0C" with a and b, an
    -- empty line and the prompt, buf has at least four bytes, and the display acknowledges 3 and then 20 bytes:
    -- the round for that command sends 010C to the engine, leaves the bytes after the prompt, and gives the
    -- display the cursor's position 0 and then 20 bytes with at most 19 characters of "RPM: ", the number
    -- and "rpm", and zeros after them. The number is (256 a + b) / 4 in decimal where a is below 128;
    -- above, it is minus the quarter of 65536 less 256 a + b.
    pub ask_and_show-rpm :
        (board : Board) (later : List ℕ) (rest : List (ℕ × ℕ)) (cs : List Command) (got : List ℕ)
        → board.incoming ≡ line_of (rpm_bytes a b) ++ 62 ∷ later
        → 4 ≤ length board.buf
        → board.twi ≡ bus (acks 3 (acks 20 rest)) cs got
        → ask_and_show fl show_float (row_of 0x0c) board
          ≡ some (record board {
            sent = board.sent ++ codes "010C\r";
            incoming = later;
            buf = 0xfe ∷ 0x45 ∷ 0x00 ∷ b ∷ drop 4 board.buf;
            twi = bus rest (frame (frame cs (0xfe ∷ 0x45 ∷ 0x00 ∷ [])) (padded (rpm_text a b))) got;
          })
    unfolding handle
    ask_and_show-rpm board later rest cs got arrives room t =
        let x : Exchange = record {
          sent = board.sent ++ codes "010C\r";
          written = some bytes;
          rest = later;
        } in
        let asked =
          ap (obd_command board.sent (codes "010C\r")) arrives ∙ exchanged board.sent later in
        let fits : board.overrun || ltb (length board.buf) 4 ≡ board.overrun =
          ground (arith, room) in
        ask_and_show-shown fl show_float (row_of 0x0c) board Handler.get_engine_rpm x bytes "RPM: "
          0x00 rest cs got refl asked refl refl (omega arith) t
        ∙ rw
            (
              fits,
              reading board.buf room,
              screen-padded (rpm_text a b),
              cursor-overwrite 0 0x41 0x0c a b board.buf room,
            )
            refl
