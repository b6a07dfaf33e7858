-- ===== src/Spi.antt =====
-- src/spi.c: the select lines of the two slaves, on the ATmega1284 (src/include/pins.h), and the set-up
-- of the bus. The transfers of bytes are in the module Sd.
pub mod Select
mod Tests
use ee459spring.Base.{ℕ, ◌==◌, leb, if◌then◌else◌, bit_or, ◌^◌}
use ee459spring.Pins.{Regs, Chip, pin_high, pin_low}

abbrev pub pin_lcd_ss : ℕ
pin_lcd_ss = 4

abbrev pub pin_ss_sd : ℕ
pin_ss_sd = 5

abbrev pub spi_sd_card : ℕ
spi_sd_card = 1

abbrev pub spi_lcd : ℕ
spi_lcd = 2

-- The code is only reported.
unfoldable pub spi_initialize_slave_select : ℕ → Regs → Regs
unfolding pin_high
spi_initialize_slave_select pin regs = (pin_high Chip.atmega1284 pin regs).1

-- The second component is the register SPCR: SPE is bit 6, MSTR bit 4, SPR1 and SPR0 bits 1 and 0.
unfoldable pub initialize_spi : Regs → ℕ → Regs × ℕ
unfolding spi_initialize_slave_select
initialize_spi regs spcr = (
  spi_initialize_slave_select pin_ss_sd regs,
  bit_or (bit_or (bit_or spcr (2 ^ 6)) (2 ^ 4)) (bit_or (2 ^ 1) (2 ^ 0)),
)

-- `if (pin_low(pin) < 0) return -1; return 0;`
abbrev pub checked : ℕ × Regs → ℕ × Regs
checked (code, regs) = (if leb 128 code then 255 else 0, regs)

unfoldable pub spi_device_enable : ℕ → Regs → ℕ × Regs
unfolding pin_high pin_low
spi_device_enable dev regs =
    let r = (pin_high Chip.atmega1284 pin_lcd_ss (pin_high Chip.atmega1284 pin_ss_sd regs).1).1 in
    if dev == spi_sd_card
    then checked (pin_low Chip.atmega1284 pin_ss_sd r)
    else if dev == spi_lcd
    then checked (pin_low Chip.atmega1284 pin_lcd_ss r)
    else (255, r)

unfoldable pub spi_device_disable : ℕ → Regs → ℕ × Regs
unfolding pin_high
spi_device_disable dev regs =
    if dev == spi_sd_card
    then checked (pin_high Chip.atmega1284 pin_ss_sd regs)
    else if dev == spi_lcd
    then checked (pin_high Chip.atmega1284 pin_lcd_ss regs)
    else (255, regs)
