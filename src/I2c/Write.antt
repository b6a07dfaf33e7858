-- ===== src/I2c/Write.antt =====
-- Transactions that the slave acknowledges, and one that it does not.
use ee459spring.Base.{
  ℕ, refl, ap, sym, ◌≡◌, ◌∙◌, ◌==◌, Bool, true, false, ◌&&◌, List, [], ◌∷◌, ◌++◌, length,
  append-nil, append_assoc, some, arith, bit_and, and_left, and_right,
}
use ee459spring.I2c.{
  Command, start, send, stop, Twi, next, nakstop, command, write_bytes, write_part, finish, i2c_io,
  is_nil,
}

abbrev pub bus : List (ℕ × ℕ) → List Command → List ℕ → Twi
bus reports commands got = record { reports = reports; commands = commands; got = got }

-- a report with a given status
abbrev pub reports_status : ℕ → ℕ × ℕ → Bool
reports_status want (twsr, twdr) = bit_and twsr 0xf8 == want

abbrev pub all_report : ℕ → List (ℕ × ℕ) → Bool
all_report want [] = true
all_report want (r ∷ rs) = reports_status want r && all_report want rs

abbrev pub sends : List ℕ → List Command
sends [] = []
sends (b ∷ bs) = send b ∷ sends bs

status_of : (twsr want : ℕ) → (bit_and twsr 0xf8 == want) ≡ true → bit_and twsr 0xf8 ≡ want
status_of twsr want h = ground (arith, h)

module _ (rest : List (ℕ × ℕ)) (got : List ℕ) where
  write_bytes_lem :
      (bs : List ℕ) (rs : List (ℕ × ℕ)) (cs : List Command)
      → all_report 0x28 rs ≡ true
      → length rs ≡ length bs
      → write_bytes bs (bus (rs ++ rest) cs got) ≡ next tt (bus rest (cs ++ sends bs) got)
  unfolding write_bytes command
  write_bytes_lem [] [] cs h e = ap (λ c. next tt (bus rest c got)) (sym (append-nil cs))
  write_bytes_lem [] (r ∷ rs) cs h e = absurd (omega arith)
  write_bytes_lem (b ∷ bs) [] cs h e = absurd (omega arith)
  write_bytes_lem (b ∷ bs) ((twsr, twdr) ∷ rs) cs h e =
      let first = and_left (bit_and twsr 0xf8 == 0x28) (all_report 0x28 rs) h in
      rw first (
        write_bytes_lem bs rs (cs ++ send b ∷ [])
          (and_right (bit_and twsr 0xf8 == 0x28) (all_report 0x28 rs) h) (omega arith)
        ∙ ap (λ c. next tt (bus rest c got)) (append_assoc cs (send b ∷ []) (sends bs)))

  write_bytes-refused :
      (front back : List ℕ) (b : ℕ) (rs : List (ℕ × ℕ)) (twsr twdr : ℕ) (cs : List Command)
      → all_report 0x28 rs ≡ true
      → length rs ≡ length front
      → (bit_and twsr 0xf8 == 0x30) ≡ true
      → write_bytes (front ++ b ∷ back) (bus (rs ++ (twsr, twdr) ∷ rest) cs got)
        ≡ nakstop 0x30 (bus rest (cs ++ sends (front ++ b ∷ [])) got)
  unfolding write_bytes command
  write_bytes-refused [] back b [] twsr twdr cs h e bad =
      let other : (bit_and twsr 0xf8 == 0x28) ≡ false = rw (status_of twsr 0x30 bad) refl in
      rw (other, bad)
        (ap (λ s. nakstop s (bus rest (cs ++ send b ∷ []) got)) (status_of twsr 0x30 bad))
  write_bytes-refused [] back b (r ∷ rs) twsr twdr cs h e bad = absurd (omega arith)
  write_bytes-refused (f ∷ front) back b [] twsr twdr cs h e bad = absurd (omega arith)
  write_bytes-refused (f ∷ front) back b ((sr, dr) ∷ rs) twsr twdr cs h e bad =
      let first = and_left (bit_and sr 0xf8 == 0x28) (all_report 0x28 rs) h in
      rw first (
        write_bytes-refused front back b rs twsr twdr (cs ++ send f ∷ [])
          (and_right (bit_and sr 0xf8 == 0x28) (all_report 0x28 rs) h) (omega arith) bad
        ∙ ap (λ c. nakstop 0x30 (bus rest c got))
            (append_assoc cs (send f ∷ []) (sends (front ++ b ∷ []))))

-- a transaction that has addressed the slave to write
abbrev pub addressed : List Command → ℕ → List Command
addressed cs device = (cs ++ start ∷ []) ++ send (bit_and device 0xfe) ∷ []

module _ (device : ℕ) (started selected : ℕ × ℕ) (cs : List Command) (got : List ℕ)
    (start_ok : reports_status 0x08 started ≡ true)
    (select_ok : reports_status 0x18 selected ≡ true) where
  pub write_part_lem :
      (ap wp : List ℕ) (acks ws rest : List (ℕ × ℕ))
      → all_report 0x28 acks ≡ true
      → length acks ≡ length ap
      → all_report 0x28 ws ≡ true
      → length ws ≡ length wp
      → write_part device ap wp (bus (started ∷ selected ∷ (acks ++ (ws ++ rest))) cs got)
        ≡ next tt (bus rest ((addressed cs device ++ sends ap) ++ sends wp) got)
  unfolding write_part command
  write_part_lem ap wp acks ws rest ha ea hw ew =
      rw
        (
          start_ok,
          select_ok,
          write_bytes_lem (ws ++ rest) got ap acks (addressed cs device) ha ea,
          write_bytes_lem rest got wp ws (addressed cs device ++ sends ap) hw ew,
        )
        refl

  -- A write of two byte arrays, not both empty, that the slave acknowledges byte for byte: i2c_io
  -- returns 0, having given START, the address for writing, the bytes of both in order, and STOP.
  pub i2c_io-written :
      (ap wp : List ℕ) (acks ws rest : List (ℕ × ℕ))
      → (is_nil ap && is_nil wp) ≡ false
      → all_report 0x28 acks ≡ true
      → length acks ≡ length ap
      → all_report 0x28 ws ≡ true
      → length ws ≡ length wp
      → i2c_io device ap wp 0 (bus (started ∷ selected ∷ (acks ++ (ws ++ rest))) cs got)
        ≡ some (0, bus rest (((addressed cs device ++ sends ap) ++ sends wp) ++ stop ∷ []) got)
  unfolding i2c_io finish
  i2c_io-written ap wp acks ws rest some_byte ha ea hw ew =
      rw (some_byte, write_part_lem ap wp acks ws rest ha ea hw ew) refl

  -- Where the slave does not acknowledge a byte of the first array, i2c_io returns the status 0x30
  -- and gives STOP after that byte; the bytes behind it and those of the second array are not sent,
  -- and nothing is read.
  pub i2c_io-refused :
      (front back wp : List ℕ) (b rn : ℕ) (acks rest : List (ℕ × ℕ)) (refused : ℕ × ℕ)
      → all_report 0x28 acks ≡ true
      → length acks ≡ length front
      → reports_status 0x30 refused ≡ true
      → i2c_io device
          (front ++ b ∷ back)
          wp
          rn
          (bus (started ∷ selected ∷ (acks ++ refused ∷ rest)) cs got)
        ≡ some (0x30, bus rest ((addressed cs device ++ sends (front ++ b ∷ [])) ++ stop ∷ []) got)
  unfolding i2c_io finish write_part command
  i2c_io-refused front back wp b rn acks rest (twsr, twdr) ha ea bad =
      let some_byte : is_nil (front ++ b ∷ back) ≡ false = not_nil front in
      rw
        (
          some_byte,
          start_ok,
          select_ok,
          write_bytes-refused rest got front back b acks twsr twdr (addressed cs device) ha ea bad,
        )
        refl
    where
      not_nil : (xs : List ℕ) → is_nil (xs ++ b ∷ back) ≡ false
      not_nil [] = refl
      not_nil (x ∷ xs) = refl
