-- ===== src/Sd/Start.antt =====
-- src/sd.c, `initialize_sd`: the card is woken up and asked for its type.
use ee459spring.Base.{
  ℕ, zero, suc, List, ◌==◌, Bool, true, false, Option, none, some, if◌then◌else◌, bit_and, bit_or,
  get_or, replicate,
}
use ee459spring.Utils.{bind_args}
use ee459spring.Sd.{
  Bus, Run, and_then, disable, send_all, sd_ready, sd_command, sd_acommand, sd_get_bytes,
  wait_ready,
}

pub data SdType : Type 0 where
  type_1 type_2 type_sdhc : SdType

pub data SdStatus : Type 0 where
  enabled disabled : SdStatus

-- `struct sd_ctx`
pub record SdCtx : Type 0 where
  pub sd_type : SdType
  pub sd_status : SdStatus
  pub sd_sector_size : ℕ

-- 80 clocks to a card that is not selected. `spi_device_disable` does not fail: the pin is an output in
-- the table of the chip.
unfoldable pub sd_wake_up : Bus → Run ℕ
unfolding send_all
sd_wake_up bus = send_all (replicate 10 0xff) (disable bus)

-- The loop `while ((ret = command) != good) { pause; if (++trials > MAX_CMD_TRIALS) goto failure; }`
-- with `left` trials left: the good answer, or `none` where it gives up.
unfoldable pub tries : ℕ → (Bus → Run (ℕ × List ℕ)) → (Bus → Run ℕ) → ℕ → Bus → Run (Option ℕ)
tries zero command pause good bus = and_then (command bus) (λ r b.
    if r.0 == good then some (some r.0, b) else and_then (pause b) (λ _ b'. some (none, b')))
tries (suc left) command pause good bus = and_then (command bus) (λ r b.
    if r.0 == good
    then some (some r.0, b)
    else and_then (pause b) (λ _ b'. tries left command pause good b'))

-- a loop that only waits by its delay
abbrev pub no_pause : Bus → Run ℕ
no_pause bus = some (0, bus)

-- the label `failure`
abbrev pub failure : SdCtx → Bus → Run (ℕ × SdCtx)
failure sd bus = some ((255, record sd { sd_status = SdStatus.disabled }), disable bus)

abbrev pub success : SdCtx → Bus → Run (ℕ × SdCtx)
success sd bus = some ((0, record sd { sd_status = SdStatus.enabled; sd_sector_size = 512 }), bus)

abbrev pub is_type_2 : SdType → Bool
is_type_2 SdType.type_2 = true
is_type_2 t = false

-- the answer of a loop, or its `goto failure`
abbrev pub or_fail : SdCtx → (ℕ → Bus → Run (ℕ × SdCtx)) → Option ℕ → Bus → Run (ℕ × SdCtx)
or_fail sd next none bus = failure sd bus
or_fail sd next (some ret) bus = next ret bus

-- what follows the loop on CMD58: the card's register says whether it is an SDHC card
abbrev pub read_register : SdCtx → ℕ → Bus → Run (ℕ × SdCtx)
read_register sd ret bus = and_then (sd_get_bytes 8 bus) (λ buf b.
    success
      (if bit_and (get_or buf 0 0) 0xc0 == 0xc0
        then record sd { sd_type = SdType.type_sdhc }
        else sd)
      b)

abbrev pub sd_cmd58 : Bus → Run (ℕ × List ℕ)
sd_cmd58 bus = sd_command 0x7a (bind_args 0 0 0 0) 0xff 0 bus

-- what follows the loop on ACMD41
abbrev pub check_register : SdCtx → ℕ → Bus → Run (ℕ × SdCtx)
check_register sd ret bus = and_then (sd_ready bus) (λ _ b1.
    if is_type_2 sd.sd_type
    then and_then (tries 8 sd_cmd58 no_pause 0 b1) (λ r b2. or_fail sd (read_register sd) r b2)
    else success sd b1)

abbrev pub sd_acmd41 : SdCtx → Bus → Run (ℕ × List ℕ)
sd_acmd41 sd bus =
    sd_acommand 0x69 (if is_type_2 sd.sd_type then bind_args 0x40 0 0 0 else bind_args 0 0 0 0) 0xff
      0 bus

abbrev pub start_card : SdCtx → Bus → Run (ℕ × SdCtx)
start_card sd bus =
    and_then (tries 8 (sd_acmd41 sd) sd_ready 0 bus) (λ r b. or_fail sd (check_register sd) r b)

-- what follows the loop on CMD8: the type of the card, or its echo of the pattern 0xAA
abbrev pub check_voltage : SdCtx → ℕ → Bus → Run (ℕ × SdCtx)
check_voltage sd ret bus =
    if ret == bit_or 1 4
    then start_card (record sd { sd_type = SdType.type_1 }) bus
    else if ret == 1
    then and_then (sd_get_bytes 8 bus) (λ buf b.
      if get_or buf 3 0 == 0xaa
      then start_card (record sd { sd_type = SdType.type_2 }) b
      else failure sd b)
    else failure sd bus

abbrev pub sd_cmd0 : Bus → Run (ℕ × List ℕ)
sd_cmd0 bus = sd_command 0x40 0 0x95 0 bus

abbrev pub sd_cmd8 : Bus → Run (ℕ × List ℕ)
sd_cmd8 bus = sd_command 0x48 (bind_args 0 0 1 0xaa) 0x87 0 bus

-- The result is 0, or -1 as a byte.
unfoldable pub initialize_sd : SdCtx → Bus → Run (ℕ × SdCtx)
unfolding sd_wake_up tries sd_command sd_acommand sd_get_bytes wait_ready bind_args
initialize_sd sd bus = and_then (sd_wake_up bus) (λ _ b1.
    and_then (tries 8 sd_cmd0 no_pause 1 b1) (λ r b2.
      or_fail sd
        (λ _ b3. and_then (sd_ready b3) (λ _ b4.
          and_then (tries 8 sd_cmd8 no_pause 1 b4) (λ r' b5. or_fail sd (check_voltage sd) r' b5)))
        r b2))
