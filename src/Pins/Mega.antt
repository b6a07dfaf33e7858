-- ===== src/Pins/Mega.antt =====
-- The pin table of the ATmega2560 (src/pins.c).
use ee459spring.Base.{List, [], ◌∷◌, ◌++◌}
use ee459spring.Pins.Tables.{
  Pin, Dir, Pull, pindef, no_pin, port_a, port_b, port_c, port_d, port_e, port_f, port_g, port_h,
  port_j, port_k, port_l,
}

-- pins 0 to 49, and 50 to 100
abbrev pub atmega2560_low : List Pin
atmega2560_low =
    no_pin
    ∷ (pindef port_g 5 Dir.output Pull.dis port_g)
    ∷ (pindef port_e 0 Dir.input Pull.dis port_e)
    ∷ (pindef port_e 1 Dir.output Pull.dis port_e)
    ∷ (pindef port_e 2 Dir.output Pull.dis port_e)
    ∷ (pindef port_e 3 Dir.output Pull.dis port_e)
    ∷ (pindef port_e 4 Dir.output Pull.dis port_e)
    ∷ (pindef port_e 5 Dir.output Pull.dis port_e)
    ∷ (pindef port_e 6 Dir.output Pull.dis port_e)
    ∷ (pindef port_e 7 Dir.output Pull.dis port_e)
    ∷ no_pin
    ∷ no_pin
    ∷ (pindef port_h 0 Dir.output Pull.dis port_h)
    ∷ (pindef port_h 1 Dir.output Pull.dis port_h)
    ∷ (pindef port_h 2 Dir.output Pull.dis port_h)
    ∷ (pindef port_h 3 Dir.output Pull.dis port_h)
    ∷ (pindef port_h 4 Dir.output Pull.dis port_h)
    ∷ (pindef port_h 5 Dir.output Pull.dis port_h)
    ∷ (pindef port_h 6 Dir.output Pull.dis port_h)
    ∷ (pindef port_b 0 Dir.output Pull.dis port_b)
    ∷ (pindef port_b 1 Dir.output Pull.dis port_b)
    ∷ (pindef port_b 2 Dir.output Pull.dis port_b)
    ∷ (pindef port_b 3 Dir.input Pull.ena port_b)
    ∷ (pindef port_b 4 Dir.output Pull.dis port_b)
    ∷ (pindef port_b 5 Dir.output Pull.dis port_b)
    ∷ (pindef port_b 6 Dir.output Pull.dis port_b)
    ∷ (pindef port_b 7 Dir.output Pull.dis port_b)
    ∷ (pindef port_h 7 Dir.output Pull.dis port_h)
    ∷ (pindef port_g 3 Dir.output Pull.dis port_g)
    ∷ (pindef port_g 4 Dir.output Pull.dis port_g)
    ∷ no_pin
    ∷ no_pin
    ∷ no_pin
    ∷ no_pin
    ∷ no_pin
    ∷ (pindef port_l 0 Dir.output Pull.dis port_g)
    ∷ (pindef port_l 1 Dir.output Pull.dis port_l)
    ∷ (pindef port_l 2 Dir.output Pull.dis port_l)
    ∷ (pindef port_l 3 Dir.output Pull.dis port_l)
    ∷ (pindef port_l 4 Dir.output Pull.dis port_l)
    ∷ (pindef port_l 5 Dir.output Pull.dis port_l)
    ∷ (pindef port_l 6 Dir.output Pull.dis port_l)
    ∷ (pindef port_l 7 Dir.output Pull.dis port_l)
    ∷ (pindef port_d 0 Dir.output Pull.dis port_d)
    ∷ (pindef port_d 1 Dir.output Pull.dis port_d)
    ∷ (pindef port_d 2 Dir.input Pull.dis port_d)
    ∷ (pindef port_d 3 Dir.output Pull.dis port_d)
    ∷ (pindef port_d 4 Dir.output Pull.dis port_d)
    ∷ (pindef port_d 5 Dir.output Pull.dis port_d)
    ∷ (pindef port_d 6 Dir.output Pull.dis port_d)
    ∷ []

abbrev pub atmega2560_high : List Pin
atmega2560_high =
    (pindef port_d 7 Dir.output Pull.dis port_d)
    ∷ (pindef port_g 0 Dir.output Pull.dis port_g)
    ∷ (pindef port_g 1 Dir.output Pull.dis port_g)
    ∷ (pindef port_c 0 Dir.output Pull.dis port_c)
    ∷ (pindef port_c 1 Dir.output Pull.dis port_c)
    ∷ (pindef port_c 2 Dir.output Pull.dis port_c)
    ∷ (pindef port_c 3 Dir.output Pull.dis port_c)
    ∷ (pindef port_c 4 Dir.output Pull.dis port_c)
    ∷ (pindef port_c 5 Dir.output Pull.dis port_c)
    ∷ (pindef port_c 6 Dir.output Pull.dis port_c)
    ∷ (pindef port_c 7 Dir.output Pull.dis port_c)
    ∷ no_pin
    ∷ no_pin
    ∷ (pindef port_j 0 Dir.output Pull.dis port_j)
    ∷ (pindef port_j 1 Dir.output Pull.dis port_j)
    ∷ (pindef port_j 2 Dir.output Pull.dis port_j)
    ∷ (pindef port_j 3 Dir.output Pull.dis port_j)
    ∷ (pindef port_j 4 Dir.output Pull.dis port_j)
    ∷ (pindef port_j 5 Dir.output Pull.dis port_j)
    ∷ (pindef port_j 6 Dir.output Pull.dis port_j)
    ∷ (pindef port_g 2 Dir.output Pull.dis port_g)
    ∷ (pindef port_a 7 Dir.output Pull.dis port_a)
    ∷ (pindef port_a 6 Dir.output Pull.dis port_a)
    ∷ (pindef port_a 5 Dir.output Pull.dis port_a)
    ∷ (pindef port_a 4 Dir.output Pull.dis port_a)
    ∷ (pindef port_a 3 Dir.output Pull.dis port_a)
    ∷ (pindef port_a 2 Dir.output Pull.dis port_a)
    ∷ (pindef port_a 1 Dir.output Pull.dis port_a)
    ∷ (pindef port_a 0 Dir.output Pull.dis port_a)
    ∷ (pindef port_j 7 Dir.output Pull.dis port_j)
    ∷ no_pin
    ∷ no_pin
    ∷ (pindef port_k 7 Dir.output Pull.dis port_k)
    ∷ (pindef port_k 6 Dir.output Pull.dis port_k)
    ∷ (pindef port_k 5 Dir.output Pull.dis port_k)
    ∷ (pindef port_k 4 Dir.output Pull.dis port_k)
    ∷ (pindef port_k 3 Dir.output Pull.dis port_k)
    ∷ (pindef port_k 2 Dir.output Pull.dis port_k)
    ∷ (pindef port_k 1 Dir.output Pull.dis port_k)
    ∷ (pindef port_k 0 Dir.output Pull.dis port_k)
    ∷ (pindef port_f 7 Dir.output Pull.dis port_f)
    ∷ (pindef port_f 6 Dir.output Pull.dis port_f)
    ∷ (pindef port_f 5 Dir.output Pull.dis port_f)
    ∷ (pindef port_f 4 Dir.output Pull.dis port_f)
    ∷ (pindef port_f 3 Dir.output Pull.dis port_f)
    ∷ (pindef port_f 2 Dir.output Pull.dis port_f)
    ∷ (pindef port_f 1 Dir.output Pull.dis port_f)
    ∷ (pindef port_f 0 Dir.output Pull.dis port_f)
    ∷ no_pin
    ∷ no_pin
    ∷ no_pin
    ∷ []

abbrev pub atmega2560_pins : List Pin
atmega2560_pins = atmega2560_low ++ atmega2560_high
