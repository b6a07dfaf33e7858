-- ===== src/Spi/Select.antt =====
-- The select lines that `spi_device_enable` and `spi_device_disable` (src/spi.c) leave.
use ee459spring.Base.{ℕ, refl, ◌≡◌, ◌≢◌, ◌==◌, ◌∙◌, some, if◌then◌else◌, arith, ℕ_discrete, ==_ne}
use ee459spring.Pins.{Regs, Chip, pin_high, pin_low}
use ee459spring.Pins.Drive.{level, drive-Driven}
use ee459spring.Spi.{spi_device_enable, pin_lcd_ss, pin_ss_sd, spi_sd_card, spi_lcd, checked}

-- the level of a pin of the ATmega1284
abbrev pub Line : ℕ → Regs → ℕ → Type 0
Line pin regs v = level Chip.atmega1284 pin regs ≡ some v

-- What a call leaves: its code, the two select lines, and every other pin as it was.
pub record Selected (code sd lcd : ℕ) (regs : Regs) (out : ℕ × Regs) : Type 0 where
  pub returns : out.0 ≡ code
  pub sd_line : Line pin_ss_sd out.1 sd
  pub lcd_line : Line pin_lcd_ss out.1 lcd
  pub others :
      (q : ℕ)
      → q ≢ pin_ss_sd
      → q ≢ pin_lcd_ss
      → level Chip.atmega1284 q out.1 ≡ level Chip.atmega1284 q regs

module _ (regs : Regs) where
  abbrev up_sd : Regs
  up_sd = (pin_high Chip.atmega1284 pin_ss_sd regs).1

  abbrev up : Regs
  up = (pin_high Chip.atmega1284 pin_lcd_ss up_sd).1

  both_up : Selected 255 1 1 regs (255, up)
  both_up =
      let a = (drive-Driven Chip.atmega1284 pin_ss_sd regs refl).0 in
      let b = (drive-Driven Chip.atmega1284 pin_lcd_ss up_sd refl).0 in
      record {
        returns = refl;
        sd_line = b.others pin_ss_sd (omega arith) ∙ a.own;
        lcd_line = b.own;
        others = λ q p r. b.others q r ∙ a.others q p;
      }

  sd_down : Selected 0 0 1 regs (checked (pin_low Chip.atmega1284 pin_ss_sd up))
  sd_down =
      let u = both_up in
      let d = (drive-Driven Chip.atmega1284 pin_ss_sd up refl).1 in
      record {
        returns = rw d.code refl;
        sd_line = d.own;
        lcd_line = d.others pin_lcd_ss (omega arith) ∙ u.lcd_line;
        others = λ q p r. d.others q p ∙ u.others q p r;
      }

  lcd_down : Selected 0 1 0 regs (checked (pin_low Chip.atmega1284 pin_lcd_ss up))
  lcd_down =
      let u = both_up in
      let d = (drive-Driven Chip.atmega1284 pin_lcd_ss up refl).1 in
      record {
        returns = rw d.code refl;
        sd_line = d.others pin_ss_sd (omega arith) ∙ u.sd_line;
        lcd_line = d.own;
        others = λ q p r. d.others q r ∙ u.others q p r;
      }

  -- spi_device_enable selects, with level 0, exactly the slave that it is asked for and returns 0; for
  -- any other number it deselects both and returns -1. No other pin changes.
  pub device_enable-Selected :
      (dev : ℕ)
      → Selected
          (if dev == spi_sd_card then 0 else if dev == spi_lcd then 0 else 255)
          (if dev == spi_sd_card then 0 else 1)
          (if dev == spi_sd_card then 1 else if dev == spi_lcd then 0 else 1)
          regs
          (spi_device_enable dev regs)
  unfolding spi_device_enable
  device_enable-Selected dev = elim (ℕ_discrete dev spi_sd_card) [
    | yes sd ↦ rw sd sd_down
    | no not_sd ↦ elim (ℕ_discrete dev spi_lcd) [
      | yes lcd ↦ rw lcd lcd_down
      | no not_lcd ↦ rw (==_ne dev spi_sd_card not_sd, ==_ne dev spi_lcd not_lcd) both_up
    ]
  ]
