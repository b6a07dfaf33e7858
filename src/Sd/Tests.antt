-- ===== src/Sd/Tests.antt =====
-- The theorems about src/sd.c at concrete inputs.
use ee459spring.Io.{IoCtx}
use ee459spring.Io.Ram.{fit}
use ee459spring.Sd.Card.{Timing, card_put, card_get}
use ee459spring.Sd.Stores.{card_get-put}
use ee459spring.Sd.{
  Run, sd_command, sd_acommand, send_all, spi_write_char, spi_read_char, response, sd_get_bytes,
  wait_ready,
}
use ee459spring.Sd.Start.{SdType, SdCtx, initialize_sd, tries, sd_wake_up}
use ee459spring.Sd.Outcome.{Every, Outcome, initialize_sd-Outcome}
use ee459spring.Utils.{bind_args}
use ee459spring.Base.{
  refl, ◌≡◌, List, [], ◌∷◌, ◌++◌, arith, true, false, length, some, none, ℕ, replicate,
  if◌then◌else◌, ◌==◌,
}
use ee459spring.Sd.{sd_get_sector, sd_put_sector}
use ee459spring.Sd.Steps.{bus_with, polls, polls_end}
use ee459spring.Sd.Sector.{asked, get_sector-data, get_sector-timeout}
use ee459spring.Sd.Put.{commanded, put_sector-accepted, put_sector-refused}
use ee459spring.Sd.Begin.{spoken, enabled_as, initialize_sd-Follows}
use ee459spring.Base.{Bool}
use ee459spring.Sd.Sample.{six, fresh, sdhc_card}
use ee459spring.Sd.Sample.{conversation, conversation-Follows}

abbrev bytes : List ℕ
bytes = 1 ∷ 2 ∷ 0xfe ∷ 0xff ∷ []

-- busy for one read; the checksum 0x12 0x34 after the data
get_sector-data_example :
    sd_get_sector 9 (length bytes) (
      bus_with
        ((0 ∷ [])
          ++ 0xff
            ∷ (six
                ++ ((0xff ∷ 0 ∷ []) ++ 0xfe ∷ (bytes ++ ((0x12 ∷ 0x34 ∷ []) ++ 0xff ∷ (7 ∷ []))))))
        []
        false)
    ≡ some (
      some bytes,
      bus_with
          (7 ∷ [])
          (((asked [] (0 ∷ []) 9 ++ polls_end (0xff ∷ 0 ∷ [])) ++ polls bytes)
            ++ polls_end (0x12 ∷ 0x34 ∷ []))
          false,
    )
get_sector-data_example =
    get_sector-data 9 (0 ∷ []) six (0xff ∷ 0 ∷ []) bytes (0x12 ∷ 0x34 ∷ []) (7 ∷ []) [] false refl
      refl refl (omega arith) refl

abbrev silence : List ℕ
silence = replicate 1001 0xff

silent_card :
    sd_get_sector 9 512 (bus_with ((0 ∷ []) ++ 0xff ∷ (six ++ (silence ++ (7 ∷ [])))) [] false)
    ≡ some (none, bus_with (7 ∷ []) (asked [] (0 ∷ []) 9 ++ polls silence) false)
silent_card = get_sector-timeout 9 512 (0 ∷ []) six silence (7 ∷ []) [] false refl refl refl refl

abbrev echo : List ℕ
echo = replicate 7 0xff

put_sector-accepted_example :
    sd_put_sector 9 bytes (
      bus_with
        ((0 ∷ [])
          ++ 0xff
            ∷ (six
                ++ ((0xff ∷ [])
                    ++ 0x00 ∷ (echo ++ ((0xff ∷ []) ++ 0x05 ∷ ((0 ∷ []) ++ 0xff ∷ (7 ∷ [])))))))
        []
        false)
    ≡ some (
      0,
      bus_with
          (7 ∷ [])
          (((commanded [] (0 ∷ []) (0xff ∷ []) 9 ++ 0xfe ∷ (bytes ++ 0xff ∷ 0xff ∷ []))
              ++ polls_end (0xff ∷ []))
            ++ polls_end (0 ∷ []))
          false,
    )
put_sector-accepted_example =
    put_sector-accepted 9 bytes (0 ∷ []) six (0xff ∷ []) echo (0xff ∷ []) (0 ∷ []) (7 ∷ []) [] false
      refl refl refl (omega arith) refl refl (omega arith) refl

put_sector-refused_example :
    sd_put_sector 9 bytes
      (bus_with ((0 ∷ []) ++ 0xff ∷ (six ++ ((0xff ∷ []) ++ 0x20 ∷ (7 ∷ [])))) [] false)
    ≡ some (255, bus_with (7 ∷ []) (commanded [] (0 ∷ []) (0xff ∷ []) 9) true)
put_sector-refused_example =
    put_sector-refused 9 0x20 bytes (0 ∷ []) six (0xff ∷ []) (7 ∷ []) [] false refl refl refl
      (omega arith) refl refl

initialize_sd-Outcome_example : Every Outcome (initialize_sd fresh sdhc_card)
initialize_sd-Outcome_example = initialize_sd-Outcome fresh sdhc_card

abbrev Starts : Run (ℕ × SdCtx) → Type 0
Starts none = ⊥
Starts (some ((ret, sd), bus)) =
    (ret ≡ 0) × (sd.sd_type ≡ SdType.type_sdhc) × (bus.replies ≡ []) × (bus.selected ≡ true)

sdhc-Starts : Starts (initialize_sd fresh sdhc_card)
unfolding initialize_sd sd_wake_up tries sd_command sd_acommand send_all spi_write_char
    spi_read_char response sd_get_bytes wait_ready bind_args
sdhc-Starts = (refl, refl, refl, refl)

abbrev timing : Timing
timing = record {
  busy = 0 ∷ [];
  waits = 0xff ∷ 0xff ∷ [];
  noise = 0xff ∷ [];
  settling = 0xff ∷ [];
  tail = 0 ∷ 1 ∷ [];
  busy_ok = refl;
  waits_ok = refl;
  waits_short = omega arith;
  noise_ok = refl;
  noise_short = omega arith;
  settling_ok = refl;
  settling_short = omega arith;
  tail_ok = refl;
}

abbrev ones : List ℕ
ones = replicate 512 1

stores_ones :
    ((card_put timing (λ _. []) 70000 ones).0 ≡ true)
    × ((card_get timing (card_put timing (λ _. []) 70000 ones).1 70000).0
        ≡ some (if 70000 == 70000 then ones else fit 512 []))
stores_ones = card_get-put timing (λ _. []) 70000 70000 ones (omega arith) (omega arith) refl

abbrev zeros : List ℕ
zeros = replicate 512 0

abbrev context : IoCtx (ℕ → List ℕ)
context = record {
  input_sector_addr = 2;
  input_byte_addr = 0;
  input_sector_buf = zeros;
  output_sector_addr = 7;
  output_byte_addr = 0;
  output_sector_buf = zeros;
  card = λ _. [];
}

-- three bytes across the end of sector 1
abbrev three : List ℕ
three = 5 ∷ 6 ∷ 7 ∷ []

initialize_sd-Follows_example :
    (sent' : List ℕ) × (sel' : Bool) × (initialize_sd fresh
        (bus_with (spoken conversation ++ 7 ∷ []) [] true)
      ≡ some ((0, enabled_as fresh SdType.type_sdhc), bus_with (7 ∷ []) sent' sel'))
initialize_sd-Follows_example =
    initialize_sd-Follows fresh conversation conversation-Follows (7 ∷ []) [] true
