-- ===== src/I2c/Read.antt =====
-- Transactions that read.
use ee459spring.Base.{
  ℕ, suc, refl, ap, sym, ◌≡◌, ◌∙◌, ◌==◌, Bool, true, false, ◌&&◌, List, [], ◌∷◌, ◌++◌, length,
  append-nil, append_assoc, some, bit_and, bit_or, if◌then◌else◌, and_left, and_right,
}
use ee459spring.I2c.{
  Command, start, send, receive_ack, receive_nak, stop, next, command, read_bytes, read_part,
  finish, i2c_io, is_nil,
}
use ee459spring.I2c.Write.{bus, reports_status, all_report, sends, addressed, write_part_lem}

-- the data registers of reports
abbrev pub received : List (ℕ × ℕ) → List ℕ
received [] = []
received ((twsr, twdr) ∷ rs) = twdr ∷ received rs

abbrev pub acked : List (ℕ × ℕ) → List Command
acked [] = []
acked (r ∷ rs) = receive_ack ∷ acked rs

module _ (rest : List (ℕ × ℕ)) where
  read_bytes_lem :
      (rs : List (ℕ × ℕ)) (cs : List Command) (got : List ℕ)
      → all_report 0x50 rs ≡ true
      → read_bytes (length rs) (bus (rs ++ rest) cs got)
        ≡ next tt (bus rest (cs ++ acked rs) (got ++ received rs))
  unfolding read_bytes command
  read_bytes_lem [] cs got h =
      λ i. next tt (bus rest (sym (append-nil cs) i) (sym (append-nil got) i))
  read_bytes_lem ((twsr, twdr) ∷ rs) cs got h =
      let first = and_left (bit_and twsr 0xf8 == 0x50) (all_report 0x50 rs) h in
      rw first (
        read_bytes_lem rs (cs ++ receive_ack ∷ []) (got ++ twdr ∷ [])
          (and_right (bit_and twsr 0xf8 == 0x50) (all_report 0x50 rs) h)
        ∙ (λ i. next tt (
            bus rest (append_assoc cs (receive_ack ∷ []) (acked rs) i)
              (append_assoc got (twdr ∷ []) (received rs) i))))

-- a transaction that has addressed the slave to read
abbrev pub addressed_to_read : List Command → ℕ → List Command
addressed_to_read cs device = (cs ++ start ∷ []) ++ send (bit_or device 0x01) ∷ []

module _ (device : ℕ) (wrote : Bool) (started selected : ℕ × ℕ) (data' : List (ℕ × ℕ)) (end : ℕ × ℕ)
    (rest : List (ℕ × ℕ)) (start_ok : reports_status (if wrote then 0x10 else 0x08) started ≡ true)
    (select_ok : reports_status 0x40 selected ≡ true) (data_ok : all_report 0x50 data' ≡ true)
    (end_ok : reports_status 0x58 end ≡ true) where
  abbrev pub reading : List (ℕ × ℕ)
  reading = started ∷ selected ∷ (data' ++ end ∷ rest)

  -- the commands of the reading half, and the bytes that it stores
  abbrev pub read_commands : List Command → List Command
  read_commands cs = (addressed_to_read cs device ++ acked data') ++ receive_nak ∷ []

  abbrev pub read_got : List ℕ → List ℕ
  read_got got = (got ++ received data') ++ received (end ∷ [])

  read_part_lem :
      (cs : List Command) (got : List ℕ)
      → read_part wrote device (length data') (bus reading cs got)
        ≡ next tt (bus rest (read_commands cs) (read_got got))
  unfolding read_part command
  read_part_lem cs got =
      rw
        (
          start_ok,
          select_ok,
          read_bytes_lem (end ∷ rest) data' (addressed_to_read cs device) got data_ok,
          end_ok,
        )
        refl

-- A write that is acknowledged byte for byte, followed by a read of at least one byte: i2c_io returns
-- 0, having given START, the address for writing and the bytes, START again, the address for reading,
-- an acknowledge for every byte but the last, and STOP; it stores the bytes received, in order.
pub i2c_io-exchanged :
    (device : ℕ) (ap wp : List ℕ) (w1 w2 r1 r2 end : ℕ × ℕ) (acks1 acks2 data' rest : List (ℕ × ℕ))
    (cs : List Command) (got : List ℕ)
    → (is_nil ap && is_nil wp) ≡ false
    → reports_status 0x08 w1 ≡ true
    → reports_status 0x18 w2 ≡ true
    → all_report 0x28 acks1 ≡ true
    → length acks1 ≡ length ap
    → all_report 0x28 acks2 ≡ true
    → length acks2 ≡ length wp
    → reports_status 0x10 r1 ≡ true
    → reports_status 0x40 r2 ≡ true
    → all_report 0x50 data' ≡ true
    → reports_status 0x58 end ≡ true
    → i2c_io device ap wp
        (suc (length data'))
        (bus (w1 ∷ w2 ∷ (acks1 ++ (acks2 ++ (r1 ∷ r2 ∷ (data' ++ end ∷ rest))))) cs got)
      ≡ some (
        0,
        bus rest
            (((addressed_to_read ((addressed cs device ++ sends ap) ++ sends wp) device
                  ++ acked data')
                ++ receive_nak ∷ [])
              ++ stop ∷ [])
            ((got ++ received data') ++ received (end ∷ [])),
      )
unfolding i2c_io finish
i2c_io-exchanged device ap wp w1 w2 r1 r2 end acks1 acks2 data' rest cs got some_byte hw1 hw2 h1 e1
      h2 e2 hr1 hr2 hd he =
    rw
      (
        some_byte,
        write_part_lem device w1 w2 cs got hw1 hw2 ap wp acks1 acks2
            (r1 ∷ r2 ∷ (data' ++ end ∷ rest)) h1 e1 h2 e2,
        read_part_lem device true r1 r2 data' end rest hr1 hr2 hd he
            ((addressed cs device ++ sends ap) ++ sends wp) got,
      )
      refl
