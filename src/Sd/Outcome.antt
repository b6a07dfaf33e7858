-- ===== src/Sd/Outcome.antt =====
-- How `initialize_sd` ends.
use ee459spring.Sd.Steps.{bus_with}
use ee459spring.Base.{
  ℕ, zero, suc, refl, ◌≡◌, ◌⊎◌, inl, inr, List, [], ◌∷◌, ◌++◌, ◌==◌, Bool, true, false, Option,
  none, some, if◌then◌else◌, arith, replicate, ap, get_or,
}
use ee459spring.Sd.{
  Bus, Run, and_then, sd_ready, sd_get_bytes, spi_write_char, spi_read_char, response, sd_command,
  send_all,
}
use ee459spring.Sd.Start.{
  SdType, SdStatus, SdCtx, tries, failure, or_fail, read_register, check_register, start_card,
  check_voltage, initialize_sd, no_pause, sd_cmd0, sd_cmd8, sd_cmd58, sd_acmd41, is_type_2,
  sd_wake_up,
}

-- what holds of a run wherever it ends
abbrev pub Every {ℓ} : {A : Type ℓ} → (A → Bus → Type 0) → Run A → Type 0
Every P none = Unit
Every P (some (a, bus)) = P a bus

Every-and_then :
    {A B : Type 0} (P : A → Bus → Type 0) (Q : B → Bus → Type 0) (run : Run A)
    (next : A → Bus → Run B)
    → Every P run
    → ((a : A) (bus : Bus) → P a bus → Every Q (next a bus))
    → Every Q (and_then run next)
Every-and_then P Q none next h k = tt
Every-and_then P Q (some (a, bus)) next h k = k a bus h

-- where nothing is known of the first run
Every-after :
    {A B : Type 0} (Q : B → Bus → Type 0) (run : Run A) (next : A → Bus → Run B)
    → ((a : A) (bus : Bus) → Every Q (next a bus))
    → Every Q (and_then run next)
Every-after Q none next k = tt
Every-after Q (some (a, bus)) next k = k a bus

-- a loop of trials ends with the good answer or gives up
abbrev Tried : ℕ → Option ℕ → Bus → Type 0
Tried good out bus = (out ≡ some good) ⊎ (out ≡ none)

-- the card is enabled with its sector size and is of type 2 or SDHC, or it is disabled, and then it is
-- not selected
abbrev pub Enabled : SdCtx → Type 0
Enabled sd =
    (sd.sd_status ≡ SdStatus.enabled)
    × (sd.sd_sector_size ≡ 512)
    × ((sd.sd_type ≡ SdType.type_2) ⊎ (sd.sd_type ≡ SdType.type_sdhc))

abbrev pub Outcome : ℕ × SdCtx → Bus → Type 0
Outcome (ret, sd) bus =
    ((ret ≡ 0) × Enabled sd)
    ⊎ ((ret ≡ 255) × (sd.sd_status ≡ SdStatus.disabled) × (bus.selected ≡ false))

Every-if :
    {A : Type 0} (P : A → Bus → Type 0) (test : Bool) (r r' : Run A)
    → (test ≡ true → Every P r)
    → (test ≡ false → Every P r')
    → Every P (if test then r else r')
Every-if P true r r' h h' = h refl
Every-if P false r r' h h' = h' refl

failure-Outcome : (sd : SdCtx) (bus : Bus) → Every Outcome (failure sd bus)
failure-Outcome sd bus = inr (refl, refl, refl)

equal : (a b : ℕ) → (a == b) ≡ true → a ≡ b
equal a b e = ground arith

tries-Tried :
    (left : ℕ) (command : Bus → Run (ℕ × List ℕ)) (pause : Bus → Run ℕ) (good : ℕ) (bus : Bus)
    → Every (Tried good) (tries left command pause good bus)
unfolding tries
tries-Tried zero command pause good bus = Every-after (Tried good) (command bus) _ (λ r b.
    Every-if (Tried good) (r.0 == good) _ _ (λ e. inl (ap some (equal r.0 good e)))
      (λ _. Every-after (Tried good) (pause b) _ (λ _ _. inr refl)))
tries-Tried (suc left) command pause good bus = Every-after (Tried good) (command bus) _ (λ r b.
    Every-if (Tried good) (r.0 == good) _ _ (λ e. inl (ap some (equal r.0 good e)))
      (λ _. Every-after (Tried good) (pause b) _ (λ _ b'. tries-Tried left command pause good b')))

-- A loop of trials and what follows it.
stage-Outcome :
    (sd : SdCtx) (next : ℕ → Bus → Run (ℕ × SdCtx)) (command : Bus → Run (ℕ × List ℕ))
    (pause : Bus → Run ℕ) (good : ℕ) (bus : Bus)
    → ((b : Bus) → Every Outcome (next good b))
    → Every Outcome (and_then (tries 8 command pause good bus) (or_fail sd next))
stage-Outcome sd next command pause good bus h =
    Every-and_then (Tried good) Outcome (tries 8 command pause good bus) (or_fail sd next)
      (tries-Tried 8 command pause good bus) go
  where
    go : (r : Option ℕ) (b : Bus) → Tried good r b → Every Outcome (or_fail sd next r b)
    go r b (inl e) = rw e (h b)
    go r b (inr e) = rw e (failure-Outcome sd b)

-- the type that the context has after the voltage was checked
abbrev Type2 : SdCtx → Type 0
Type2 sd = sd.sd_type ≡ SdType.type_2

read_register-Outcome : (sd : SdCtx) (bus : Bus) → Type2 sd → Every Outcome (read_register sd 0 bus)
read_register-Outcome sd bus t = Every-after Outcome (sd_get_bytes 8 bus) _ (λ buf b. ground arith)

check_register-Outcome :
    (sd : SdCtx) (bus : Bus) → Type2 sd → Every Outcome (check_register sd 0 bus)
check_register-Outcome sd bus t = Every-after Outcome (sd_ready bus) _ (λ _ b.
    Every-if Outcome (is_type_2 sd.sd_type) _ _
      (λ _.
        stage-Outcome sd (read_register sd) sd_cmd58 no_pause 0 b
          (λ b'. read_register-Outcome sd b' t))
      (λ _. inl (refl, (refl, refl, inl t))))

start_card-Outcome : (sd : SdCtx) (bus : Bus) → Type2 sd → Every Outcome (start_card sd bus)
start_card-Outcome sd bus t =
    stage-Outcome sd (check_register sd) (sd_acmd41 sd) sd_ready 0 bus
      (λ b. check_register-Outcome sd b t)

-- The answer that ends the loop on CMD8 is not that of a card of type 1.
check_voltage-Outcome : (sd : SdCtx) (bus : Bus) → Every Outcome (check_voltage sd 1 bus)
check_voltage-Outcome sd bus = Every-after Outcome (sd_get_bytes 8 bus) _ (λ buf b.
    Every-if Outcome (get_or buf 3 0 == 0xaa) _ _
      (λ _. start_card-Outcome (record sd { sd_type = SdType.type_2 }) b refl)
      (λ _. failure-Outcome sd b))

-- Wherever initialize_sd returns, either it returns 0, and the card is enabled with 512 bytes to
-- a sector and is of type 2 or SDHC, or it returns -1, and the card is disabled and deselected.
pub initialize_sd-Outcome : (sd : SdCtx) (bus : Bus) → Every Outcome (initialize_sd sd bus)
unfolding initialize_sd
initialize_sd-Outcome sd bus = Every-after Outcome (sd_wake_up bus) _ (λ _ b1.
    stage-Outcome sd
      (λ _ b3.
        and_then (sd_ready b3)
          (λ _ b4. and_then (tries 8 sd_cmd8 no_pause 1 b4) (or_fail sd (check_voltage sd))))
      sd_cmd0 no_pause 1 b1
      (λ b3. Every-after Outcome (sd_ready b3) _ (λ _ b4.
        stage-Outcome sd (check_voltage sd) sd_cmd8 no_pause 1 b4 (check_voltage-Outcome sd))))

-- what the card is sent by nine CMD0
abbrev resets : ℕ → List ℕ
resets zero = []
resets (suc n) = 0x40 ∷ 0 ∷ 0 ∷ 0 ∷ 0 ∷ 0x95 ∷ (replicate 8 0xff ++ resets n)

-- On a bus without a card, which answers 0xFF always, initialize_sd returns -1 after the 80 clocks and
-- nine CMD0, each of which waits for eight bytes, and leaves the card disabled and deselected.
pub initialize_sd-absent :
    (sd : SdCtx) (rest : List ℕ) (sel : Bool)
    → initialize_sd sd (bus_with (replicate 136 0xff ++ rest) [] sel)
      ≡ some (
        (255, record sd { sd_status = SdStatus.disabled }),
        bus_with rest (replicate 10 0xff ++ resets 9) false,
      )
unfolding initialize_sd spi_write_char spi_read_char response sd_wake_up tries sd_command send_all
initialize_sd-absent sd rest sel = refl
