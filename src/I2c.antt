-- ===== src/I2c.antt =====
-- src/i2c.c: transactions on the two-wire bus. What the hardware reports is a list, one pair of the
-- status and the data register for each command; a run that still waits where the list ends is `waiting`.
pub mod Write
pub mod Read
mod Tests
use ee459spring.Base.{
  ℕ, List, [], ◌∷◌, ◌++◌, Bool, true, false, zero, suc, bit_and, bit_or, ◌==◌, if◌then◌else◌,
  Option, some, not, none, ◌&&◌, ◌||◌,
}

-- the commands given through TWCR, with the byte that TWDR holds
pub data Command : Type 0 where
  start : Command
  send : ℕ → Command
  receive_ack : Command
  receive_nak : Command
  stop : Command

-- The bus: what will be reported, the commands given, and the bytes stored through `rp`.
pub record Twi : Type 0 where
  pub reports : List (ℕ × ℕ)
  pub commands : List Command
  pub got : List ℕ

-- How a part of `i2c_io` ends: it goes on, jumps to `nakstop`, or returns the status at once.
pub data Outcome {ℓ} (A : Type ℓ) : Type ℓ where
  next : A → Twi → Outcome A
  nakstop : ℕ → Twi → Outcome A
  leave : ℕ → Twi → Outcome A
  waiting : Outcome A

infixl 5 ◌>>=◌
abbrev pub ◌>>=◌ {ℓ κ} : {A : Type ℓ} {B : Type κ} → Outcome A → (A → Twi → Outcome B) → Outcome B
next a s >>= k = k a s
nakstop e s >>= k = nakstop e s
leave e s >>= k = leave e s
waiting >>= k = waiting

-- a command, the wait for TWINT, and the status without its prescaler bits
abbrev pub report : List (ℕ × ℕ) → List Command → List ℕ → Outcome (ℕ × ℕ)
report [] commands got = waiting
report ((twsr, twdr) ∷ rs) commands got =
    next (bit_and twsr 0xf8, twdr) (record { reports = rs; commands = commands; got = got })

unfoldable pub command : Command → Twi → Outcome (ℕ × ℕ)
command c s = report s.reports (s.commands ++ (c ∷ [])) s.got

-- `if (status != want) return(status);`
abbrev pub expect : ℕ → ℕ × ℕ → Twi → Outcome ℕ
expect want (status, twdr) s = if status == want then next twdr s else leave status s

-- the same with a jump to `nakstop` where the status is `nak`
abbrev pub expect_ack : ℕ → ℕ → ℕ × ℕ → Twi → Outcome ℕ
expect_ack want nak (status, twdr) s =
    if status == want
    then next twdr s
    else if status == nak
    then nakstop status s
    else leave status s

-- the loop over `an` or `wn` bytes
unfoldable pub write_bytes : List ℕ → Twi → Outcome (Unit {0})
unfolding command
write_bytes [] s = next tt s
write_bytes (b ∷ bs) s = command (send b) s >>= expect_ack 0x28 0x30 >>= λ _ s'. write_bytes bs s'

-- the first half, for at least one byte to write
unfoldable pub write_part : ℕ → List ℕ → List ℕ → Twi → Outcome (Unit {0})
unfolding command write_bytes
write_part device_addr ap wp s = command start s >>= expect 0x08 >>= (λ _ s1.
    command (send (bit_and device_addr 0xfe)) s1
    >>= expect_ack 0x18 0x20
    >>= (λ _ s2. write_bytes ap s2 >>= (λ _ s3. write_bytes wp s3)))

-- `*rp++ = TWDR`
abbrev pub keep : ℕ → Twi → Outcome (Unit {0})
keep b s = next tt (record s { got = s.got ++ (b ∷ []) })

-- all but the last of the bytes to read
unfoldable pub read_bytes : ℕ → Twi → Outcome (Unit {0})
unfolding command
read_bytes zero s = next tt s
read_bytes (suc n) s = command receive_ack s >>= expect 0x50 >>= keep >>= λ _ s'. read_bytes n s'

-- the second half, for `n` bytes and one
unfoldable pub read_part : Bool → ℕ → ℕ → Twi → Outcome (Unit {0})
unfolding command read_bytes
read_part wrote device_addr n s =
    command start s >>= expect (if wrote then 0x10 else 0x08) >>= (λ _ s1.
      command (send (bit_or device_addr 0x01)) s1
      >>= expect_ack 0x40 0x48
      >>= (λ _ s2. read_bytes n s2 >>= (λ _ s3. command receive_nak s3 >>= expect 0x58 >>= keep)))

abbrev pub is_nil : List ℕ → Bool
is_nil [] = true
is_nil (_ ∷ _) = false

-- The status that is returned and the bus, or `none` while it waits; the flag is `send_stop`.
unfoldable pub finish : Bool → Outcome (Unit {0}) → Option (ℕ × Twi)
finish stopped (next a s) =
    some (0, if stopped then record s { commands = s.commands ++ (stop ∷ []) } else s)
finish stopped (nakstop e s) = some (e, record s { commands = s.commands ++ (stop ∷ []) })
finish stopped (leave e s) = some (e, s)
finish stopped waiting = none

abbrev pub maybe_write : Bool → ℕ → List ℕ → List ℕ → Twi → Outcome (Unit {0})
maybe_write false device_addr ap wp s = next tt s
maybe_write true device_addr ap wp s = write_part device_addr ap wp s

abbrev pub maybe_read : Bool → ℕ → ℕ → Twi → Outcome (Unit {0})
maybe_read wrote device_addr zero s = next tt s
maybe_read wrote device_addr (suc n) s = read_part wrote device_addr n s

unfoldable pub i2c_io : ℕ → List ℕ → List ℕ → ℕ → Twi → Option (ℕ × Twi)
unfolding write_part read_part finish
i2c_io device_addr ap wp rn s =
    let wrote = not (is_nil ap && is_nil wp) in
    finish (wrote || not (rn == 0))
      (maybe_write wrote device_addr ap wp s >>= λ _ s'. maybe_read wrote device_addr rn s')

-- The registers TWSR and TWBR.
unfoldable pub initialize_i2c : ℕ × ℕ → ℕ × ℕ
initialize_i2c regs = (0, 200)
