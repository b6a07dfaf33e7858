-- ===== src/Sd/Begin.antt =====
-- `initialize_sd` (src/sd.c) before a card of type 2 that follows the protocol.
use ee459spring.Base.{
  ℕ, refl, ◌≡◌, ◌≤◌, List, [], ◌++◌, length, Bool, true, ◌==◌, bit_and, some, get_or, if◌then◌else◌,
  Bool-cases, inl, inr,
}
use ee459spring.Utils.{bind_args}
use ee459spring.Sd.{sd_ready, sd_get_bytes}
use ee459spring.Sd.Steps.{lacks, bus_with}
use ee459spring.Sd.Start.{
  SdCtx, SdType, SdStatus, initialize_sd, sd_wake_up, tries, no_pause, check_voltage, start_card,
  check_register, read_register, sd_cmd0, sd_cmd8, sd_cmd58, sd_acmd41,
}
use ee459spring.Sd.Gives.{Gives, Gives-then, Gives-ready, Reply, Tries-Gives}
use ee459spring.Sd.Rounds.{
  ready_after, attempts, all_bad, attempts-Tries, Round, rounds, all_waiting, rounds-Tries,
  Gives-eight, Gives-wake,
}

-- The conversation at the start of a card of type 2: it may need several tries of CMD0, CMD8, ACMD41 and
-- CMD58, but no more than nine of each; the echo of CMD8 has the pattern 0xAA.
pub record Conversation : Type 0 where
  pub wake : List ℕ
  pub idle_tries : List Reply
  pub idle : Reply
  pub busy : List ℕ
  pub voltage_tries : List Reply
  pub voltage : Reply
  pub echo : List ℕ
  pub start_tries : List (Round × List ℕ)
  pub started : Round
  pub busy' : List ℕ
  pub register_tries : List Reply
  pub register : Reply
  pub ocr : List ℕ

abbrev pub spoken : Conversation → List ℕ
spoken c =
    c.wake
    ++ (attempts c.idle_tries c.idle
        ++ (ready_after c.busy
            ++ (attempts c.voltage_tries c.voltage
                ++ (c.echo
                    ++ (rounds c.start_tries c.started
                        ++ (ready_after c.busy'
                            ++ (attempts c.register_tries c.register ++ (c.ocr ++ []))))))))

pub record Follows (c : Conversation) : Type 0 where
  pub wake_ok : length c.wake ≡ 10
  pub idle_tries_ok : (all_bad 1 c.idle_tries ≡ true) × (length c.idle_tries ≤ 8)
  pub idle_ok : c.idle.r1 ≡ 1
  pub busy_ok : lacks 0xff c.busy ≡ true
  pub voltage_tries_ok : (all_bad 1 c.voltage_tries ≡ true) × (length c.voltage_tries ≤ 8)
  pub voltage_ok : c.voltage.r1 ≡ 1
  pub echo_ok : (length c.echo ≡ 8) × (get_or c.echo 3 0 ≡ 0xaa)
  pub start_tries_ok : (all_waiting c.start_tries ≡ true) × (length c.start_tries ≤ 8)
  pub started_ok : c.started.second.r1 ≡ 0
  pub busy'_ok : lacks 0xff c.busy' ≡ true
  pub register_tries_ok : (all_bad 0 c.register_tries ≡ true) × (length c.register_tries ≤ 8)
  pub register_ok : c.register.r1 ≡ 0
  pub ocr_ok : length c.ocr ≡ 8

-- the two highest bits of the register tell an SDHC card
abbrev pub type_of : List ℕ → SdType
type_of ocr = if bit_and (get_or ocr 0 0) 0xc0 == 0xc0 then SdType.type_sdhc else SdType.type_2

abbrev pub enabled_as : SdCtx → SdType → SdCtx
enabled_as sd kind = record sd {
  sd_type = kind;
  sd_status = SdStatus.enabled;
  sd_sector_size = 512;
}

module _ (sd : SdCtx) (c : Conversation) (f : Follows c) where
  abbrev of_type_2 : SdCtx
  of_type_2 = record sd { sd_type = SdType.type_2 }

  read_register-Gives :
      Gives (c.ocr ++ []) (read_register of_type_2 0) (0, enabled_as sd (type_of c.ocr))
  read_register-Gives =
      Gives-then c.ocr [] (sd_get_bytes 8) _ c.ocr (0, enabled_as sd (type_of c.ocr))
        (Gives-eight c.ocr f.ocr_ok)
        (λ rest sent sel. (
          sent,
          sel,
          elim (Bool-cases (bit_and (get_or c.ocr 0 0) 0xc0 == 0xc0)) [
            | inl e ↦ rw e refl
            | inr e ↦ rw e refl
          ],
        ))

  done : ℕ × SdCtx
  done = (0, enabled_as sd (type_of c.ocr))

  check_register-Gives :
      Gives
        (ready_after c.busy' ++ (attempts c.register_tries c.register ++ (c.ocr ++ [])))
        (check_register of_type_2 0)
        done
  unfolding done
  check_register-Gives =
      Gives-then (ready_after c.busy') _ sd_ready _ 0 done (Gives-ready c.busy' f.busy'_ok) (
        Gives-then (attempts c.register_tries c.register) _ (tries 8 sd_cmd58 no_pause 0) _ (some 0)
          done
          (Tries-Gives sd_cmd58 no_pause 0 8 (attempts c.register_tries c.register) (
            attempts-Tries 0x7a (bind_args 0 0 0 0) 0xff 0 8 c.register_tries c.register
              f.register_tries_ok.0 f.register_ok f.register_tries_ok.1))
          read_register-Gives)

  start_card-Gives :
      Gives
        (rounds c.start_tries c.started
          ++ (ready_after c.busy' ++ (attempts c.register_tries c.register ++ (c.ocr ++ []))))
        (start_card of_type_2)
        done
  start_card-Gives =
      Gives-then (rounds c.start_tries c.started) _ (tries 8 (sd_acmd41 of_type_2) sd_ready 0) _
        (some 0) done
        (Tries-Gives (sd_acmd41 of_type_2) sd_ready 0 8 (rounds c.start_tries c.started) (
          rounds-Tries 0x69 (bind_args 0x40 0 0 0) 0xff 8 c.start_tries c.started f.start_tries_ok.0
            f.started_ok f.start_tries_ok.1))
        check_register-Gives

  check_voltage-Gives :
      Gives
        (c.echo
          ++ (rounds c.start_tries c.started
              ++ (ready_after c.busy' ++ (attempts c.register_tries c.register ++ (c.ocr ++ [])))))
        (check_voltage sd 1)
        done
  check_voltage-Gives =
      let (long, pattern) = f.echo_ok in
      Gives-then c.echo _ (sd_get_bytes 8) _ c.echo done (Gives-eight c.echo long)
        (rw pattern start_card-Gives)

  -- Before a card of type 2 whose answers follow the protocol, each of CMD0, CMD8, ACMD41 and CMD58 being
  -- answered well within nine tries and the echo of CMD8 having the pattern 0xAA, initialize_sd returns 0 with
  -- the card enabled, 512 bytes to a sector, and SDHC as its type exactly where the register's two highest
  -- bits are set; it takes these answers and no more.
  pub initialize_sd-Follows :
      (rest sent : List ℕ) (sel : Bool)
      → (sent' : List ℕ) × (sel' : Bool) × (initialize_sd sd (bus_with (spoken c ++ rest) sent sel)
          ≡ some ((0, enabled_as sd (type_of c.ocr)), bus_with rest sent' sel'))
  unfolding initialize_sd done
  initialize_sd-Follows = Gives-then c.wake _ sd_wake_up _ 0 done (Gives-wake c.wake f.wake_ok) (
      Gives-then (attempts c.idle_tries c.idle) _ (tries 8 sd_cmd0 no_pause 1) _ (some 1) done
        (Tries-Gives sd_cmd0 no_pause 1 8 (attempts c.idle_tries c.idle) (
          attempts-Tries 0x40 0 0x95 1 8 c.idle_tries c.idle f.idle_tries_ok.0 f.idle_ok
            f.idle_tries_ok.1))
        (Gives-then (ready_after c.busy) _ sd_ready _ 0 done (Gives-ready c.busy f.busy_ok) (
          Gives-then (attempts c.voltage_tries c.voltage) _ (tries 8 sd_cmd8 no_pause 1) _ (some 1)
            done
            (Tries-Gives sd_cmd8 no_pause 1 8 (attempts c.voltage_tries c.voltage) (
              attempts-Tries 0x48 (bind_args 0 0 1 0xaa) 0x87 1 8 c.voltage_tries c.voltage
                f.voltage_tries_ok.0 f.voltage_ok f.voltage_tries_ok.1))
            check_voltage-Gives)))
