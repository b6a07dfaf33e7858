-- ===== src/Main/Boot.antt =====
-- src/main.c: what `main` does before its loop, as built for the ATmega1284. The codes of the
-- initialisations are only reported, and the reports are left out.
use ee459spring.Base.{
  ℕ, List, [], ◌∷◌, ◌++◌, Bool, true, false, Option, none, some, bit_or, ◌<<<◌, take, length, ◌-◌,
}
use mathlib.Core.Option
use ee459spring.Pins.{Regs, Chip, initialize_pins}
use ee459spring.Spi.{initialize_spi}
use ee459spring.I2c.{initialize_i2c}
use ee459spring.Uart.Ports.{AvrBits, Reg, row, initialize_uart, myubrr}
use ee459spring.Fifo.{Fifo, initialize_fifo, fifo_read_byte}
use ee459spring.Serial.{receive_interrupt}
use ee459spring.Sd.{Bus, Run}
use ee459spring.Sd.Start.{SdCtx, SdStatus, initialize_sd}
use ee459spring.Io.{IoCtx, initialize_io, assigned}
use ee459spring.Io.Sectors.{Device}
use ee459spring.Fat.{File, FatCtx}
use ee459spring.Fat.Chain.{initialize_fat32}
use ee459spring.Elm.{initialize_elm}
use ee459spring.Obd.{initialize_obd}
use ee459spring.Obd.Commands.{ObdCmd}
use ee459spring.Main.{Board, greet}

-- The global variables of main.c and the registers that the initialisations write: the pins, SPCR, TWSR
-- and TWBR, and those of the two ports as a list of writes. While the card starts, its answers are
-- those of `bus`; from then on it is the card of `io`. The fifo is the one
-- that the bytes of `board` go through.
pub record System (Card : Type 0) : Type 0 where
  pub pins : Regs
  pub spcr : ℕ
  pub twi_regs : ℕ × ℕ
  pub usart : List (Reg × ℕ)
  pub fifo : Fifo
  pub sd : SdCtx
  pub bus : Bus
  pub io : IoCtx Card
  pub fat32 : FatCtx
  pub linked_list : List ObdCmd
  pub board : Board

-- a register that was written last, with the bits of `mask` set
abbrev pub or_last : List (Reg × ℕ) → ℕ → List (Reg × ℕ)
or_last [] mask = []
or_last ((r, v) ∷ []) mask = (r, v) ∷ (r, bit_or v mask) ∷ []
or_last (w ∷ w' ∷ ws) mask = w ∷ or_last (w' ∷ ws) mask

abbrev pub is_disabled : SdStatus → Bool
is_disabled SdStatus.disabled = true
is_disabled SdStatus.enabled = false

-- What the compiler and the uninitialised variables of the callees fix: the bits of the USARTs, the
-- clock, the fuel for chains of clusters, the stack of `initialize_fat32` and its `file`, and the array
-- `dat` of `initialize_obd`.
pub record Setting : Type 0 where
  pub bits : AvrBits
  pub rxcie1 : ℕ
  pub fosc : ℕ
  pub fuel : ℕ
  pub stack : List ℕ
  pub file : File
  pub dat : List ℕ

-- Bytes on their way through the fifo, one after the other: the interrupt writes each, and the reader
-- takes it out before the next arrives. What was received, and the fifo then.
unfoldable pub pass_bytes : List ℕ → Fifo → List ℕ × Fifo
unfolding receive_interrupt fifo_read_byte
pass_bytes [] fifo = ([], fifo)
pass_bytes (byte ∷ bytes) fifo =
    let (code, out, fifo') = fifo_read_byte (receive_interrupt fifo byte).1 in
    let (received, fifo'') = pass_bytes bytes fifo' in (with_byte out received, fifo'')
  where
    with_byte : Option ℕ → List ℕ → List ℕ
    with_byte none received = received
    with_byte (some b) received = b ∷ received

module _ (dev : Device) (set : Setting) where
  open dev use {Card}

  -- from the pins to the two-wire bus
  unfoldable pub start_chip : System Card → System Card
  unfolding initialize_pins initialize_uart initialize_spi initialize_i2c
  start_chip s =
      let ubrr = myubrr set.fosc 38400 in
      let (pins, spcr) = initialize_spi (initialize_pins Chip.atmega1284 s.pins) s.spcr in
      record s {
        pins = pins;
        spcr = spcr;
        twi_regs = initialize_i2c s.twi_regs;
        usart =
            s.usart
            ++ (initialize_uart (row set.bits 0) ubrr
                ++ or_last (initialize_uart (row set.bits 1) ubrr) (1 <<< set.rxcie1));
        fifo = initialize_fifo s.fifo;
      }

  -- the card, the io context and the file system; a failure of one does not keep the next from starting
  unfoldable pub start_storage : System Card → Option (System Card)
  start_storage s = from_sd (initialize_sd s.sd s.bus)
    where
      from_fat32 : System Card → Option (ℕ × FatCtx × IoCtx Card) → Option (System Card)
      from_fat32 s none = none
      from_fat32 s (some (code, fat32, io)) = some (record s { fat32 = fat32; io = io })

      from_sd : Run (ℕ × SdCtx) → Option (System Card)
      from_sd none = none
      from_sd (some ((code, sd), bus)) =
          from_fat32 (record s { sd = sd; bus = bus })
            (initialize_fat32 dev set.fuel (is_disabled sd.sd_status) sd.sd_sector_size set.stack
              set.file s.fat32 (initialize_io dev s.io).1)

  -- The ELM327 and the list of commands, which a failure leaves as it was. The bytes that the two
  -- initialisations read have gone through the fifo.
  unfoldable pub start_engine : System Card → Option (System Card)
  unfolding pass_bytes
  start_engine s = from_elm (initialize_elm s.board.sent (pass_bytes s.board.incoming s.fifo).0)
    where
      from_obd : Option (List ℕ × Option (List ObdCmd) × List ℕ) → Option (System Card)
      from_obd none = none
      from_obd (some (sent, ops, rest)) = some (record s {
        linked_list = assigned ops s.linked_list;
        fifo =
            (pass_bytes (take (length s.board.incoming - length rest) s.board.incoming) s.fifo).1;
        board = record (s.board) { sent = sent; incoming = rest };
      })

      from_elm : List ℕ × Option (List ℕ) → Option (System Card)
      from_elm (sent, none) = none
      from_elm (sent, some rest) = from_obd (initialize_obd set.dat sent rest)

  -- the greeting of the display
  unfoldable pub start_display : System Card → Option (System Card)
  start_display s = shown (greet s.board)
    where
      shown : Option Board → Option (System Card)
      shown none = none
      shown (some board) = some (record s { board = board })

  -- `main` up to its loop; `none` is a wait that does not end
  unfoldable pub start_up : System Card → Option (System Card)
  start_up s =
      Option.bind (start_storage (start_chip s)) (λ s1. Option.bind (start_engine s1) start_display)
