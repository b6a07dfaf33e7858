-- ===== src/Pins/Tests.antt =====
-- The theorems about src/pins.c at concrete inputs.
use ee459spring.Base.{refl, ◌≡◌, false}
use ee459spring.Pins.{Regs, Chip, pin_high, pin_low, initialize_pins, pin_at}
use ee459spring.Pins.Drive.{Driven, drive-Driven, digit}
use ee459spring.Pins.Setup.{dir_digit, initialize_pins-directions, is_matched}
use ee459spring.Pins.Tables.{port_b}
use ee459spring.Pins.Mega.{atmega2560_pins}

abbrev regs : Regs
regs = record { port = λ r. 0x55; ddr = λ r. 0xff }

drive-Driven_example :
    Driven Chip.atmega1284 5 1 regs (pin_high Chip.atmega1284 5 regs)
    × Driven Chip.atmega1284 5 0 regs (pin_low Chip.atmega1284 5 regs)
drive-Driven_example = drive-Driven Chip.atmega1284 5 regs refl

initialize_pins-directions_example :
    digit (pin_at Chip.atmega1284 7).port_num ((initialize_pins Chip.atmega1284 regs).ddr port_b)
    ≡ dir_digit
        (pin_at Chip.atmega1284 7).pin_dir
        (digit (pin_at Chip.atmega1284 7).port_num (regs.ddr port_b))
initialize_pins-directions_example =
    initialize_pins-directions Chip.atmega1284 regs 7 port_b refl refl

-- pin 35 of the ATmega2560 has another port's direction register
mega_table : is_matched atmega2560_pins ≡ false
mega_table = refl
