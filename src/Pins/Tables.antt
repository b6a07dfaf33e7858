-- ===== src/Pins/Tables.antt =====
-- The pin tables of src/pins.c, one for each chip. The index is the pin number.
use ee459spring.Base.{ℕ, List, [], ◌∷◌, Option, none, some}

-- the ports of the chips, each with its direction register
abbrev pub port_a : ℕ
port_a = 0

abbrev pub port_b : ℕ
port_b = 1

abbrev pub port_c : ℕ
port_c = 2

abbrev pub port_d : ℕ
port_d = 3

abbrev pub port_e : ℕ
port_e = 4

abbrev pub port_f : ℕ
port_f = 5

abbrev pub port_g : ℕ
port_g = 6

abbrev pub port_h : ℕ
port_h = 7

abbrev pub port_j : ℕ
port_j = 8

abbrev pub port_k : ℕ
port_k = 9

abbrev pub port_l : ℕ
port_l = 10

-- `atmel_328_ddr_status` and `atmel_328_pull_status`
pub data Dir : Type 0 where
  input output dir_inval : Dir

pub data Pull : Type 0 where
  ena dis pull_inval : Pull

-- `struct atmel_328_pin`, with the ports for the pointers to their registers
pub record Pin : Type 0 where
  pub port_reg : Option ℕ
  pub port_num : ℕ
  pub pin_dir : Dir
  pub pull_up : Pull
  pub dir_reg : Option ℕ

abbrev pub pindef : ℕ → ℕ → Dir → Pull → ℕ → Pin
pindef port num dir pull dir_port = record {
  port_reg = some port;
  port_num = num;
  pin_dir = dir;
  pull_up = pull;
  dir_reg = some dir_port;
}

-- `PINDEF(NULL, 0, ATMEL_DIR_INVAL, ATMEL_PULL_INVAL, NULL)`
abbrev pub no_pin : Pin
no_pin = record {
  port_reg = none;
  port_num = 0;
  pin_dir = Dir.dir_inval;
  pull_up = Pull.pull_inval;
  dir_reg = none;
}

abbrev pub atmega328_pins : List Pin
atmega328_pins =
    no_pin
    ∷ no_pin
    ∷ (pindef port_d 0 Dir.input Pull.dis port_d)
    ∷ (pindef port_d 1 Dir.output Pull.dis port_d)
    ∷ (pindef port_d 2 Dir.output Pull.dis port_d)
    ∷ (pindef port_d 3 Dir.output Pull.dis port_d)
    ∷ (pindef port_d 4 Dir.output Pull.dis port_d)
    ∷ no_pin
    ∷ no_pin
    ∷ no_pin
    ∷ (pindef port_b 7 Dir.output Pull.dis port_b)
    ∷ (pindef port_d 5 Dir.output Pull.dis port_d)
    ∷ (pindef port_d 6 Dir.output Pull.dis port_d)
    ∷ (pindef port_d 7 Dir.output Pull.dis port_d)
    ∷ (pindef port_b 0 Dir.output Pull.dis port_b)
    ∷ (pindef port_b 1 Dir.output Pull.dis port_b)
    ∷ (pindef port_b 2 Dir.output Pull.dis port_b)
    ∷ (pindef port_b 3 Dir.output Pull.dis port_b)
    ∷ (pindef port_b 4 Dir.input Pull.ena port_b)
    ∷ (pindef port_b 5 Dir.output Pull.dis port_b)
    ∷ no_pin
    ∷ no_pin
    ∷ no_pin
    ∷ (pindef port_c 0 Dir.output Pull.dis port_c)
    ∷ (pindef port_c 1 Dir.output Pull.dis port_c)
    ∷ (pindef port_c 2 Dir.output Pull.dis port_c)
    ∷ (pindef port_c 3 Dir.output Pull.dis port_c)
    ∷ (pindef port_c 4 Dir.output Pull.dis port_c)
    ∷ (pindef port_c 5 Dir.output Pull.dis port_c)
    ∷ []

abbrev pub atmega1284_pins : List Pin
atmega1284_pins =
    no_pin
    ∷ (pindef port_b 0 Dir.output Pull.dis port_b)
    ∷ (pindef port_b 1 Dir.output Pull.dis port_b)
    ∷ (pindef port_b 2 Dir.output Pull.dis port_b)
    ∷ (pindef port_b 3 Dir.output Pull.dis port_b)
    ∷ (pindef port_b 4 Dir.output Pull.dis port_b)
    ∷ (pindef port_b 5 Dir.output Pull.dis port_b)
    ∷ (pindef port_b 6 Dir.input Pull.ena port_b)
    ∷ (pindef port_b 7 Dir.output Pull.dis port_b)
    ∷ no_pin
    ∷ no_pin
    ∷ no_pin
    ∷ no_pin
    ∷ no_pin
    ∷ (pindef port_d 0 Dir.output Pull.dis port_d)
    ∷ (pindef port_d 1 Dir.output Pull.dis port_d)
    ∷ (pindef port_d 2 Dir.output Pull.dis port_d)
    ∷ (pindef port_d 3 Dir.output Pull.dis port_d)
    ∷ (pindef port_d 4 Dir.output Pull.dis port_d)
    ∷ (pindef port_d 5 Dir.output Pull.dis port_d)
    ∷ (pindef port_d 6 Dir.output Pull.dis port_d)
    ∷ (pindef port_d 7 Dir.output Pull.dis port_d)
    ∷ (pindef port_c 0 Dir.input Pull.dis port_c)
    ∷ (pindef port_c 1 Dir.input Pull.dis port_c)
    ∷ (pindef port_c 2 Dir.output Pull.dis port_c)
    ∷ (pindef port_c 3 Dir.output Pull.dis port_c)
    ∷ (pindef port_c 4 Dir.output Pull.dis port_c)
    ∷ (pindef port_c 5 Dir.output Pull.dis port_c)
    ∷ (pindef port_c 6 Dir.output Pull.dis port_c)
    ∷ (pindef port_c 7 Dir.output Pull.dis port_c)
    ∷ no_pin
    ∷ no_pin
    ∷ no_pin
    ∷ (pindef port_a 7 Dir.output Pull.dis port_a)
    ∷ (pindef port_a 6 Dir.output Pull.dis port_a)
    ∷ (pindef port_a 5 Dir.output Pull.dis port_a)
    ∷ (pindef port_a 4 Dir.output Pull.dis port_a)
    ∷ (pindef port_a 3 Dir.output Pull.dis port_a)
    ∷ (pindef port_a 2 Dir.output Pull.dis port_a)
    ∷ (pindef port_a 1 Dir.output Pull.dis port_a)
    ∷ (pindef port_a 0 Dir.output Pull.dis port_a)
    ∷ []
