-- ===== src/Main.antt =====
-- src/main.c: the round that asks the engine for its readings and shows four of them on the display,
-- which is a slave on the two-wire bus. Debug output is left out.
pub mod Boot
pub mod SetUp
pub mod Stages
pub mod Ready
pub mod Show
pub mod Dial
mod BootTests
mod Tests
use ee459spring.Base.{
  ℕ, ℤ, pos, negsuc, zero, suc, List, [], ◌∷◌, ◌++◌, ◌+◌, ◌/◌, ◌%◌, ◌==◌, ltb, Bool, true, false,
  not, ◌||◌, Option, none, some, set, take, length, replicate, codes, c_string, if◌then◌else◌,
  decimal,
}
use Prim.Native.String.{String}
use ee459spring.I2c.{Twi, i2c_io}
use ee459spring.Obd.{Exchange, obd_command, overwrite}
use ee459spring.Obd.Commands.{ObdCmd, Handler}
use ee459spring.Obd.Readings.{Floats, Reading, whole, real, handle}

-- The two-wire bus; what the ELM327's port was given and the bytes that will arrive; the array `buf`
-- of `main` and whether a write has gone past its end; and the bit 0 of PORTB.
pub record Board : Type 0 where
  pub twi : Twi
  pub sent : List ℕ
  pub incoming : List ℕ
  pub buf : List ℕ
  pub overrun : Bool
  pub led : Bool

-- a step that may wait for ever, and the next
abbrev pub and_then : Option Board → (Board → Option Board) → Option Board
and_then none k = none
and_then (some b) k = k b

-- `i2c_io(0x50, bytes, n, NULL, 0, NULL, 0)`, whose result is not looked at
unfoldable pub lcd_write : List ℕ → Board → Option Board
unfolding i2c_io
lcd_write bytes board = done (i2c_io 0x50 bytes [] 0 board.twi)
  where
    done : Option (ℕ × Twi) → Option Board
    done none = none
    done (some (status, twi)) = some (record board { twi = twi })

-- the greeting before the loop: the array and its transmission
abbrev pub greeting : List ℕ
greeting = 0xfe ∷ 0x54 ∷ replicate 11 0

unfoldable pub greet : Board → Option Board
unfolding lcd_write
greet board = lcd_write greeting (record board { buf = greeting })

-- the string of the units; `printf` shows a null pointer this way
abbrev pub units_text : Option String → List ℕ
units_text none = codes "(null)"
units_text (some s) = codes s

-- `snprintf(lcd_screen[0], 20, …)` on 20 zeros
unfoldable pub screen : List ℕ → List ℕ
screen text = take 20 (take 19 text ++ replicate 20 0)

-- the cursor to a position of the display, and a text there
unfoldable pub put_text : ℕ → List ℕ → Board → Option Board
unfolding lcd_write screen
put_text position text board =
    let buf' = set (set (set board.buf 0 0xfe) 1 0x45) 2 position in
    and_then (lcd_write (take 3 buf') (record board { buf = buf' })) (lcd_write (screen text))

-- `if (cmd->obd_pid == pid) …`
abbrev pub show_if : ObdCmd → List ℕ → ℕ → String → ℕ → Board → Option Board
show_if cmd ret pid label position board =
    if cmd.obd_pid == pid
    then put_text position (codes label ++ (ret ++ units_text cmd.obd_units)) board
    else some board

-- the four tests in turn; `ret` is the text of the reading
unfoldable pub show_reading : ObdCmd → List ℕ → Board → Option Board
unfolding put_text
show_reading cmd ret board = and_then (show_if cmd ret 0x0c "RPM: " 0x00 board) (λ b1.
    and_then (show_if cmd ret 0x04 "LOAD: " 0x40 b1) (λ b2.
      and_then (show_if cmd ret 0x05 "TEMP: " 0x14 b2) (show_if cmd ret 0x0d "SPEED: " 0x54)))

-- `fl` has the float operations, `show_float` is `%.2f`.
module _ (fl : Floats) (show_float : fl.Float → List ℕ) where
  -- The text that the handler writes into `ret`. `obd_set_supported_ops` writes none: its command is not
  -- in the list, since the mask's first bit is that of the command 1.
  abbrev pub reading_text : Option (Reading fl.Float) → List ℕ
  reading_text none = []
  reading_text (some (whole n)) = decimal n
  reading_text (some (real x)) = show_float x

  -- the bytes of an answer go into `buf`, whatever its size is
  abbrev pub take_answer : List ℕ → Board → Board
  take_answer bytes board = record board {
    buf = overwrite bytes board.buf;
    overrun = board.overrun || ltb (length board.buf) (length bytes);
  }

  -- the body of `while (ptr)`
  unfoldable pub ask_and_show : ObdCmd → Board → Option Board
  unfolding obd_command show_reading handle
  ask_and_show cmd board = asked cmd.handle_data
    where
      answered : Handler → Option (List ℕ) → Board → Option Board
      answered h none b = some b
      answered h (some bytes) b =
          let b' = take_answer bytes b in show_reading cmd (reading_text (handle fl h b'.buf)) b'

      exchanged : Handler → Option Exchange → Option Board
      exchanged h none = none
      exchanged h (some x) =
          answered h x.written (record board { sent = x.sent; incoming = x.rest })

      asked : Option Handler → Option Board
      asked none = some board
      asked (some h) = exchanged h (obd_command board.sent cmd.obd_cmd board.incoming)

  unfoldable pub ask_all : List ObdCmd → Board → Option Board
  unfolding ask_and_show
  ask_all [] board = some board
  ask_all (cmd ∷ cmds) board = and_then (ask_and_show cmd board) (ask_all cmds)

  -- one round of `while (1)`: the cursor goes home, each command is asked, the light changes
  unfoldable pub main_round : List ObdCmd → Board → Option Board
  unfolding ask_all lcd_write
  main_round cmds board =
      let buf' = set (set board.buf 0 0xfe) 1 0x46 in
      and_then (lcd_write (take 2 buf') (record board { buf = buf' }))
        (λ b. and_then (ask_all cmds b) (λ b'. some (record b' { led = not b'.led })))
