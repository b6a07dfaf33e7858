-- ===== src/Main/Show.antt =====
-- What the display is given by src/main.c.
use ee459spring.Base.{
  ℕ, zero, suc, refl, ap, sym, ◌≡◌, ◌≤◌, ◌∙◌, ◌==◌, true, List, [], ◌∷◌, ◌++◌, length, Option, some,
  none, arith, set, take, length-take, length-replicate, length-append, replicate, codes,
  if◌then◌else◌, Bool-cases, ==_iff, inl, inr,
}
use Prim.Native.String.{String}
use ee459spring.I2c.{Command, stop}
use ee459spring.I2c.Write.{bus, addressed, sends, all_report, i2c_io-written}
use ee459spring.Obd.{Exchange, obd_command, overwrite}
use ee459spring.Obd.Commands.{ObdCmd, Handler}
use ee459spring.Obd.Readings.{Floats, handle}
use ee459spring.Main.{
  Board, and_then, lcd_write, screen, put_text, units_text, show_reading, reading_text, take_answer,
  ask_and_show,
}

-- the reports of a display that acknowledges a transmission of `n` bytes
abbrev pub acks : ℕ → List (ℕ × ℕ) → List (ℕ × ℕ)
acks n rest = (0x08, 0) ∷ (0x18, 0) ∷ (replicate n (0x28, 0) ++ ([] ++ rest))

-- the commands of a transmission to the display, after others
abbrev pub frame : List Command → List ℕ → List Command
frame cs bytes = ((addressed cs 0x50 ++ sends bytes) ++ sends []) ++ stop ∷ []

acks-report : (n : ℕ) → all_report 0x28 (replicate n (0x28, 0)) ≡ true
acks-report zero = refl
acks-report (suc n) = acks-report n

pub lcd_write_lem :
    (b : ℕ) (bs : List ℕ) (n : ℕ) (board : Board) (rest : List (ℕ × ℕ)) (cs : List Command)
    (got : List ℕ)
    → n ≡ suc (length bs)
    → board.twi ≡ bus (acks n rest) cs got
    → lcd_write (b ∷ bs) board ≡ some (record board { twi = bus rest (frame cs (b ∷ bs)) got })
unfolding lcd_write
lcd_write_lem b bs n board rest cs got e t =
    let acked = length-replicate {A = ℕ × ℕ} n (0x28, 0) ∙ e in
    rw
      (
        t,
        i2c_io-written 0x50 (0x08, 0) (0x18, 0) cs got refl refl (b ∷ bs) [] (replicate n (0x28, 0))
            [] rest refl (acks-report n) acked refl refl,
      )
      refl

-- the label and the position of a command whose reading is shown
abbrev pub spot : ℕ → Option (String × ℕ)
spot pid =
    if pid == 0x0c
    then some ("RPM: ", 0x00)
    else if pid == 0x04
    then some ("LOAD: ", 0x40)
    else if pid == 0x05
    then some ("TEMP: ", 0x14)
    else if pid == 0x0d
    then some ("SPEED: ", 0x54)
    else none

abbrev pub line : ObdCmd → List ℕ → String → List ℕ
line cmd ret label = codes label ++ (ret ++ units_text cmd.obd_units)

abbrev pub put_at : ObdCmd → List ℕ → Board → Option (String × ℕ) → Option Board
put_at cmd ret board none = some board
put_at cmd ret board (some (label, position)) = put_text position (line cmd ret label) board

and_then-some : (r : Option Board) → and_then r some ≡ r
and_then-some none = refl
and_then-some (some b) = refl

-- The four tests in turn are one choice.
pub show_reading-spot :
    (cmd : ObdCmd) (ret : List ℕ) (board : Board)
    → show_reading cmd ret board ≡ put_at cmd ret board (spot cmd.obd_pid)
unfolding show_reading
show_reading-spot cmd ret board =
    let pid = cmd.obd_pid in
    elim (Bool-cases (pid == 0x0c)) [
      | inl e ↦
          rw ((==_iff pid 0x0c).0 e) (and_then-some (put_text 0x00 (line cmd ret "RPM: ") board))
      | inr e1 ↦ elim (Bool-cases (pid == 0x04)) [
        | inl e ↦
            rw ((==_iff pid 0x04).0 e) (and_then-some (put_text 0x40 (line cmd ret "LOAD: ") board))
        | inr e2 ↦ elim (Bool-cases (pid == 0x05)) [
          | inl e ↦
              rw ((==_iff pid 0x05).0 e)
                (and_then-some (put_text 0x14 (line cmd ret "TEMP: ") board))
          | inr e3 ↦ elim (Bool-cases (pid == 0x0d)) [
            | inl e ↦ rw ((==_iff pid 0x0d).0 e) refl
            | inr e4 ↦ rw (e1, e2, e3, e4) refl
          ]
        ]
      ]
    ]

length-set3 :
    (buf : List ℕ) (a b c : ℕ)
    → 3 ≤ length buf
    → take 3 (set (set (set buf 0 a) 1 b) 2 c) ≡ a ∷ b ∷ c ∷ []
length-set3 [] a b c h = absurd (omega arith)
length-set3 (x ∷ []) a b c h = absurd (omega arith)
length-set3 (x ∷ y ∷ []) a b c h = absurd (omega arith)
length-set3 (x ∷ y ∷ z ∷ buf) a b c h = refl

length-screen : (text : List ℕ) → length (screen text) ≡ 20
unfolding screen
length-screen text =
    let shown = take 19 text ++ replicate 20 0 in
    omega (arith, length-take 20 shown, length-append (take 19 text) (replicate 20 0))

length-overwrite : (bytes old : List ℕ) → length (overwrite bytes old) ≡ length old
length-overwrite [] old = refl
length-overwrite (b ∷ bytes) [] = refl
length-overwrite (b ∷ bytes) (x ∷ old) = ap suc (length-overwrite bytes old)

abbrev pub cursor_to : ℕ → List ℕ
cursor_to position = 0xfe ∷ 0x45 ∷ position ∷ []

-- `buf` after the cursor was set
abbrev pub with_cursor : ℕ → List ℕ → List ℕ
with_cursor position buf = set (set (set buf 0 0xfe) 1 0x45) 2 position

screen-cons : (text : List ℕ) → (b : ℕ) × (bs : List ℕ) × (screen text ≡ b ∷ bs)
unfolding screen
screen-cons [] = (0, replicate 19 0, refl)
screen-cons (c ∷ text) = (c, take 19 (take 18 text ++ replicate 20 0), refl)

-- what the board becomes when a text is shown
abbrev pub shown_on : Board → List Command → List ℕ → List (ℕ × ℕ) → ℕ → List ℕ → Board
shown_on board cs got rest position text = record board {
  buf = with_cursor position board.buf;
  twi = bus rest (frame (frame cs (cursor_to position)) (screen text)) got;
}

put_text_lem :
    (position : ℕ) (text : List ℕ) (board : Board) (rest : List (ℕ × ℕ)) (cs : List Command)
    (got : List ℕ)
    → 3 ≤ length board.buf
    → board.twi ≡ bus (acks 3 (acks 20 rest)) cs got
    → put_text position text board ≡ some (shown_on board cs got rest position text)
unfolding put_text
put_text_lem position text board rest cs got room t =
    let buf' = with_cursor position board.buf in
    let moved = record board { buf = buf' } in
    let (b, bs, e) = screen-cons text in
    let long : 20 ≡ suc (length bs) = sym (length-screen text) ∙ ap length e in
    rw
      (
        length-set3 board.buf 0xfe 0x45 position room,
        lcd_write_lem 0xfe (0x45 ∷ position ∷ []) 3 moved (acks 20 rest) cs got refl t,
        e,
        lcd_write_lem b bs 20
            (record moved { twi = bus (acks 20 rest) (frame cs (cursor_to position)) got }) rest
            (frame cs (cursor_to position)) got long refl,
      )
      refl

module _ (fl : Floats) (show_float : fl.Float → List ℕ) where
  -- a round, by the functions that it calls
  pub ask_and_show-shown :
      (cmd : ObdCmd) (board : Board) (h : Handler) (x : Exchange) (bytes : List ℕ) (label : String)
      (position : ℕ) (rest : List (ℕ × ℕ)) (cs : List Command) (got : List ℕ)
      → cmd.handle_data ≡ some h
      → obd_command board.sent cmd.obd_cmd board.incoming ≡ some x
      → x.written ≡ some bytes
      → spot cmd.obd_pid ≡ some (label, position)
      → 3 ≤ length board.buf
      → board.twi ≡ bus (acks 3 (acks 20 rest)) cs got
      → ask_and_show fl show_float cmd board ≡ (
          let b =
            take_answer fl show_float bytes (record board { sent = x.sent; incoming = x.rest }) in
          some (
            shown_on b cs got rest position
              (line cmd (reading_text fl show_float (handle fl h b.buf)) label)))
  unfolding ask_and_show
  ask_and_show-shown cmd board h x bytes label position rest cs got eh ex ew ep room t =
      let b = take_answer fl show_float bytes (record board { sent = x.sent; incoming = x.rest }) in
      let ret = reading_text fl show_float (handle fl h b.buf) in
      let still : 3 ≤ length b.buf = rw (length-overwrite bytes board.buf) room in
      rw (eh, ex, ew, show_reading-spot cmd ret b, ep)
        (put_text_lem position (line cmd ret label) b rest cs got still t)
