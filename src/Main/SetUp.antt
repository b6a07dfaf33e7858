-- ===== src/Main/SetUp.antt =====
-- src/main.c: what the registers hold after the initialisations of the chip, and what its fifo lets through.
use ee459spring.Base.{
  refl, ap₂, ℕ, ◌≡◌, ◌<◌, ◌/◌, ◌%◌, ◌^◌, ◌*◌, ◌-◌, ◌==◌, List, [], ◌∷◌, ◌++◌, length, some, false,
  ap, ◌∙◌, arith, bit_or, bit_and, bit_and_comm, bit_and_low_bits, get_or-set_self, length-set,
  ==_refl,
}
use ee459spring.Pins.{Chip, pin_at, initialize_pins}
use ee459spring.Pins.Drive.{level, digit, drive-Driven}
use ee459spring.Pins.Setup.{dir_digit, initialize_pins-directions}
use ee459spring.Spi.{initialize_spi, spi_initialize_slave_select}
use ee459spring.I2c.{initialize_i2c}
use ee459spring.Uart.Ports.{AvrBits, Reg, RegKind, reg, row, initialize_uart}
use ee459spring.Fifo.{Fifo, Status, advance, initialize_fifo, fifo_write_byte, fifo_read_byte}
use ee459spring.Serial.{receive_interrupt}
use ee459spring.Io.Sectors.{Device}
use ee459spring.Main.Boot.{System, Setting, start_chip, pass_bytes, or_last}

-- The writes that set up USART `n`, for a divisor of the clock: its high and its low byte, the size of a
-- character, and both directions on.
abbrev pub port_writes : AvrBits → ℕ → ℕ → List (Reg × ℕ)
port_writes bits n divisor =
    (reg RegKind.ubrrh n, divisor / 256 % 256)
    ∷ (reg RegKind.ubrrl n, divisor % 256)
    ∷ (reg RegKind.ucsrc n, bit_or (2 ^ bits.ucsz1) (2 ^ bits.ucsz0))
    ∷ (reg RegKind.ucsrb n, bit_or (2 ^ bits.rxen) (2 ^ bits.txen))
    ∷ []

initialize_uart-port_writes :
    (bits : AvrBits) (n divisor : ℕ)
    → initialize_uart (row bits n) divisor ≡ port_writes bits n divisor
unfolding initialize_uart
initialize_uart-port_writes bits n divisor =
    let low : bit_and divisor 255 ≡ divisor % 256 =
      bit_and_comm divisor 255 ∙ bit_and_low_bits 8 divisor in
    let one : (b : ℕ) → 1 * 2 ^ b ≡ 2 ^ b = λ b. omega arith in
    rw (low, one bits.ucsz1, one bits.ucsz0, one bits.rxen, one bits.txen) refl

-- What the set-up of the chip leaves: the select line of the SD card high, each pin with the direction
-- of its row in the table, the SPI on as a master at the lowest rate, the rate of the two-wire bus, and
-- the two ports at 38400 baud, the second with the interrupt for received bytes on.
pub record IsSetUp {Card : Type 0} (set : Setting) (s s' : System Card) : Type 0 where
  pub sd_line : level Chip.atmega1284 5 s'.pins ≡ some 1
  pub directions :
      (pin d : ℕ)
      → (pin_at Chip.atmega1284 pin).port_reg ≡ some d
      → (let p = pin_at Chip.atmega1284 pin in
          digit p.port_num (s'.pins.ddr d) ≡ dir_digit p.pin_dir (digit p.port_num (s.pins.ddr d)))
  pub spi : s'.spcr ≡ bit_or (bit_or (bit_or s.spcr 0x40) 0x10) 0x03
  pub two_wire : s'.twi_regs ≡ (0, 200)
  pub ports : s'.usart ≡ (
      let divisor = set.fosc / 16 / 38400 - 1 in
      s.usart
      ++ (port_writes set.bits 0 divisor
          ++ (port_writes set.bits 1 divisor
              ++ (
                reg RegKind.ucsrb 1,
                bit_or (bit_or (2 ^ set.bits.rxen) (2 ^ set.bits.txen)) (2 ^ set.rxcie1),
              )
                ∷ [])))

pub start_chip-IsSetUp :
    (dev : Device) (set : Setting) (s : System dev.Card) → IsSetUp set s (start_chip dev set s)
unfolding start_chip initialize_spi spi_initialize_slave_select initialize_i2c
start_chip-IsSetUp dev set s =
    let regs = initialize_pins Chip.atmega1284 s.pins in
    let high = (drive-Driven Chip.atmega1284 5 regs refl).0 in
    let divisor = set.fosc / 16 / 38400 - 1 in
    let one : 1 * 2 ^ set.rxcie1 ≡ 2 ^ set.rxcie1 = omega arith in
    record {
      sd_line = high.own;
      directions = λ pin d there.
          let p = pin_at Chip.atmega1284 pin in
          ap (λ (ddr : ℕ → ℕ). digit p.port_num (ddr d)) high.directions
          ∙ initialize_pins-directions Chip.atmega1284 s.pins pin d refl there;
      spi = refl;
      two_wire = refl;
      ports =
          ap₂
            (λ (first second : List (Reg × ℕ)).
              s.usart ++ (first ++ or_last second (1 * 2 ^ set.rxcie1)))
            (initialize_uart-port_writes set.bits 0 divisor)
            (initialize_uart-port_writes set.bits 1 divisor)
          ∙ ap
              (λ (mask : ℕ).
                s.usart
                ++ (port_writes set.bits 0 divisor
                    ++ or_last (port_writes set.bits 1 divisor) mask))
              one;
    }

-- a fifo that holds no byte
pub record IsClear (f : Fifo) : Type 0 where
  pub room : length f.f_buf ≡ 64
  pub inside : f.f_head < 64
  pub even : f.f_tail ≡ f.f_head
  pub says : f.f_status ≡ Status.empty

pub initialize_fifo-IsClear : (f : Fifo) → length f.f_buf ≡ 64 → IsClear (initialize_fifo f)
unfolding initialize_fifo
initialize_fifo-IsClear f room = record {
  room = room;
  inside = omega arith;
  even = refl;
  says = refl;
}

-- a byte goes through, and the fifo is clear again
one_byte :
    (f : Fifo) (b : ℕ)
    → IsClear f
    → (let out = fifo_read_byte (receive_interrupt f b).1 in (out.1 ≡ some b) × IsClear out.2)
unfolding receive_interrupt fifo_write_byte fifo_read_byte
one_byte f b c =
    let apart : (advance f.f_head == f.f_head) ≡ false = ground (arith, c.inside) in
    let near : advance f.f_head < 64 = ground (arith, c.inside) in
    let kept = get_or-set_self f.f_buf f.f_head b 0 (omega (arith, c.room, c.inside)) in
    let room = length-set f.f_buf f.f_head b ∙ c.room in
    rw (c.says, c.even, apart, kept, ==_refl (advance f.f_head))
      (refl, record { room = room; inside = near; even = refl; says = refl })

-- All bytes go through a clear fifo, which is clear at the end.
pub pass_bytes-all :
    (bytes : List ℕ) (f : Fifo)
    → IsClear f
    → ((pass_bytes bytes f).0 ≡ bytes) × IsClear (pass_bytes bytes f).1
unfolding pass_bytes
pass_bytes-all [] f c = (refl, c)
pass_bytes-all (b ∷ bytes) f c =
    let (got, clear) = one_byte f b c in
    let (all, clear') = pass_bytes-all bytes (fifo_read_byte (receive_interrupt f b).1).2 clear in
    (rw (got, all) refl, clear')
