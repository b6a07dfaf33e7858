-- ===== src/Sd/Card.antt =====
-- A card that follows the protocol, before which the functions of src/sd.c run.
use ee459spring.Base.{
  ℕ, ◌≡◌, ◌<◌, ◌+◌, ◌*◌, ◌^◌, ◌==◌, Bool, true, false, List, [], ◌∷◌, ◌++◌, length, take, drop,
  replicate, Option, some, none, ltb, if◌then◌else◌, get_or, ◌≤◌,
}
use ee459spring.Io.Ram.{fit}
use ee459spring.Sd.{Run, sd_get_sector, sd_put_sector}
use ee459spring.Sd.Steps.{lacks, polls_end, bus_with}
use ee459spring.Sd.Put.{no_response, no_data_response}

-- What a card answers while it is busy, before the token or a response, before the data response, and
-- after the data.
pub record Timing : Type 0 where
  pub busy : List ℕ
  pub waits : List ℕ
  pub noise : List ℕ
  pub settling : List ℕ
  pub tail : List ℕ
  pub busy_ok : lacks 0xff busy ≡ true
  pub waits_ok : lacks 0xfe waits ≡ true
  pub waits_short : length waits ≤ 1000
  pub noise_ok : no_response noise ≡ true
  pub noise_short : length noise < 7
  pub settling_ok : no_data_response settling ≡ true
  pub settling_short : length settling < 128
  pub tail_ok : lacks 0xff tail ≡ true

-- the byte of a command and its address, where it stands in the log of the bus
abbrev pub command_byte : List ℕ → ℕ
command_byte log = get_or log 0 0

abbrev pub address_in : List ℕ → ℕ
address_in log =
    get_or log 1 0 * 2 ^ 24 + get_or log 2 0 * 2 ^ 16 + get_or log 3 0 * 2 ^ 8 + get_or log 4 0

module _ (t : Timing) where
  -- what the card answers to a command to read a sector with the given content
  abbrev pub read_answers : List ℕ → List ℕ
  read_answers content =
      t.busy ++ 0xff ∷ (replicate 6 0xff ++ (t.waits ++ 0xfe ∷ (content ++ (t.tail ++ 0xff ∷ []))))

  -- and to a command to write a sector of `n` bytes
  abbrev pub write_answers : ℕ → List ℕ
  write_answers n =
      t.busy
      ++ 0xff
        ∷ (replicate 6 0xff
            ++ (t.noise
                ++ 0x00 ∷ (replicate (n + 3) 0xff ++ (t.settling ++ 0x05 ∷ (t.tail ++ 0xff ∷ [])))))

  -- what the card finds in the log of the bus: the command, and the data of a write behind the token
  abbrev pub command_in : List ℕ → List ℕ
  command_in log = drop (length (polls_end t.busy)) log

  abbrev pub data_in : List ℕ → List ℕ
  data_in log = take 512 (drop 1 (drop (length (polls_end t.noise)) (drop 6 (command_in log))))

  -- To the command to write a sector, the card stores what it was sent, at the address that it was sent.
  abbrev pub store_log : (ℕ → List ℕ) → List ℕ → ℕ → List ℕ
  store_log store log i =
      if command_byte (command_in log) == 0x58
      then if i == address_in (command_in log) then data_in log else store i
      else store i

  -- To the command to read a sector, it answers what it stores at the address that it was sent, and to
  -- any other nothing but zeros.
  abbrev pub answer_to : (ℕ → List ℕ) → List ℕ → List ℕ
  answer_to store log =
      if command_byte (command_in log) == 0x51
      then fit 512 (store (address_in (command_in log)))
      else replicate 512 0

  -- what a run has sent
  abbrev pub log_after : Run (Option (List ℕ)) → List ℕ
  log_after none = []
  log_after (some (buf, bus)) = bus.sent

  -- What is sent before the token does not depend on the data: a run with zeros for data shows it.
  unfoldable pub read_log : ℕ → List ℕ
  unfolding sd_get_sector
  read_log a = log_after (sd_get_sector a 512 (bus_with (read_answers (replicate 512 0)) [] false))

  abbrev pub read_result : (ℕ → List ℕ) → Run (Option (List ℕ)) → Option (List ℕ) × (ℕ → List ℕ)
  read_result store none = (none, store)
  read_result store (some (buf, bus)) = (buf, store)

  abbrev pub write_result : (ℕ → List ℕ) → Run ℕ → Bool × (ℕ → List ℕ)
  write_result store none = (false, store)
  write_result store (some (ret, bus)) = (ret == 0, store_log store bus.sent)

  -- the two calls; an address is a `uint32_t`
  unfoldable pub card_get : (ℕ → List ℕ) → ℕ → Option (List ℕ) × (ℕ → List ℕ)
  unfolding sd_get_sector read_log
  card_get store a =
      if ltb a (2 ^ 32)
      then read_result store
          (sd_get_sector a 512 (bus_with (read_answers (answer_to store (read_log a))) [] false))
      else (none, store)

  unfoldable pub card_put : (ℕ → List ℕ) → ℕ → List ℕ → Bool × (ℕ → List ℕ)
  unfolding sd_put_sector
  card_put store a buf =
      if ltb a (2 ^ 32)
      then write_result store (sd_put_sector a buf (bus_with (write_answers (length buf)) [] false))
      else (false, store)
