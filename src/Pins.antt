-- ===== src/Pins.antt =====
-- src/pins.c: the pins of the chip as bits of its ports. The chip is chosen by the build
-- (src/include/debug.h: ATMEGA1284); delays and debug output are left out.
pub mod Tables
pub mod Mega
pub mod Places
pub mod Drive
pub mod Setup
mod Tests
use ee459spring.Base.{
  ℕ, Bool, true, false, List, [], ◌∷◌, ◌-◌, ◌^◌, ◌<<<◌, ◌&&◌, ◌==◌, ltb, length, get_or, bit_or,
  bit_and, Option, none, some, if◌then◌else◌, suc,
}
use Tables.{Pin, Dir, Pull, no_pin, atmega328_pins, atmega1284_pins}
use Mega.{atmega2560_pins}

-- the output and the direction register of each port
pub record Regs : Type 0 where
  pub port : ℕ → ℕ
  pub ddr : ℕ → ℕ

pub data Chip : Type 0 where
  atmega328 atmega2560 atmega1284 : Chip

abbrev pub pins_of : Chip → List Pin
pins_of Chip.atmega328 = atmega328_pins
pins_of Chip.atmega2560 = atmega2560_pins
pins_of Chip.atmega1284 = atmega1284_pins

-- `reg |= (1 << n)` and `reg &= ~(1 << n)` on a byte
abbrev pub set_bit : ℕ → ℕ → ℕ
set_bit n x = bit_or x (2 ^ n)

abbrev pub clear_bit : ℕ → ℕ → ℕ
clear_bit n x = bit_and x (255 - 2 ^ n)

abbrev pub update : (ℕ → ℕ) → ℕ → ℕ → ℕ → ℕ
update f r v q = if q == r then v else f q

abbrev pub is_output : Dir → Bool
is_output Dir.output = true
is_output d = false

abbrev pub is_input : Dir → Bool
is_input Dir.input = true
is_input d = false

abbrev pub is_ena : Pull → Bool
is_ena Pull.ena = true
is_ena p = false

-- an assignment through a pointer to a register; a null pointer is not followed
abbrev pub write_reg : (ℕ → ℕ) → Option ℕ → (ℕ → ℕ) → ℕ → ℕ
write_reg f none change = f
write_reg f (some r) change = update f r (change (f r))

-- one round of the loop of `initialize_pins`
abbrev pub setup_pin : Option ℕ → Pin → Regs → Regs
setup_pin none p regs = regs
setup_pin (some r) p regs =
    if is_output p.pin_dir
    then record regs { ddr = write_reg regs.ddr p.dir_reg (set_bit p.port_num) }
    else if is_input p.pin_dir
    then record regs {
      ddr = write_reg regs.ddr p.dir_reg (clear_bit p.port_num);
      port =
          if is_ena p.pull_up
          then update regs.port r (set_bit p.port_num (regs.port r))
          else regs.port;
    }
    else regs

unfoldable pub setup_pins : List Pin → Regs → Regs
setup_pins [] regs = regs
setup_pins (p ∷ ps) regs = setup_pins ps (setup_pin p.port_reg p regs)

unfoldable pub initialize_pins : Chip → Regs → Regs
unfolding setup_pins
initialize_pins chip regs = setup_pins (pins_of chip) regs

-- the inner tests of `pin_high` and `pin_low`, with what they do to the register
abbrev pub drive : Option ℕ → Dir → (ℕ → ℕ) → Regs → ℕ × Regs
drive none dir change regs = (255, regs)
drive (some r) dir change regs =
    if is_output dir
    then (0, record regs { port = update regs.port r (change (regs.port r)) })
    else (255, regs)

abbrev pub pin_at : Chip → ℕ → Pin
pin_at chip pin = get_or (pins_of chip) pin no_pin

abbrev pub in_range : Chip → ℕ → Bool
in_range chip pin = ltb pin (length (pins_of chip)) && ltb 0 pin

unfoldable pub pin_high : Chip → ℕ → Regs → ℕ × Regs
pin_high chip pin regs =
    let p = pin_at chip pin in
    if in_range chip pin then drive p.port_reg p.pin_dir (set_bit p.port_num) regs else (255, regs)

unfoldable pub pin_low : Chip → ℕ → Regs → ℕ × Regs
pin_low chip pin regs =
    let p = pin_at chip pin in
    if in_range chip pin
    then drive p.port_reg p.pin_dir (clear_bit p.port_num) regs
    else (255, regs)

-- No code is looked at.
unfoldable pub pulse_pin : Chip → ℕ → Regs → Regs
unfolding pin_high pin_low
pulse_pin chip pin regs = (pin_low chip pin (pin_high chip pin regs).1).1

-- the rest of the loop of `cycle_pins`, from pin `i` on
unfoldable pub pulse_from : Chip → List Pin → ℕ → Regs → Regs
unfolding pulse_pin
pulse_from chip [] i regs = regs
pulse_from chip (p ∷ ps) i regs =
    pulse_from chip ps (suc i) (elim p.port_reg [ none ↦ regs | some _ ↦ pulse_pin chip i regs ])

unfoldable pub cycle_pins : Chip → Regs → Regs
unfolding pulse_from
cycle_pins chip regs = pulse_from chip (pins_of chip) 0 regs
