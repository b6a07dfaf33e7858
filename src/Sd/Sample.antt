-- ===== src/Sd/Sample.antt =====
-- The answers of an SDHC card to `initialize_sd` (src/sd.c).
use ee459spring.Sd.Steps.{bus_with}
use ee459spring.Base.{ℕ, List, [], ◌∷◌, ◌++◌, replicate, true}
use ee459spring.Sd.{Bus}
use ee459spring.Sd.Start.{SdCtx, SdType, SdStatus}
use ee459spring.Sd.Gives.{Reply}
use ee459spring.Sd.Rounds.{Round}
use ee459spring.Sd.Begin.{Conversation, Follows}
use ee459spring.Base.{bit_and, refl, arith, ◌≡◌, ◌==◌, false}

abbrev pub six : List ℕ
six = 0xff ∷ 0xff ∷ 0xff ∷ 0xff ∷ 0xff ∷ 0xff ∷ []

abbrev pub fresh : SdCtx
fresh = record { sd_type = SdType.type_1; sd_status = SdStatus.disabled; sd_sector_size = 0 }

-- what the card answers to a command after the six bytes of it
abbrev pub answer : ℕ → List ℕ
answer r1 = six ++ 0xff ∷ r1 ∷ []

-- an SDHC card that needs a second CMD0 and a second ACMD41
abbrev pub sdhc_card : Bus
sdhc_card =
    bus_with
      (replicate 10 0xff
        ++ (answer 0x81
            ++ (replicate 6 0xff
                ++ (answer 1
                    ++ (0
                        ∷ 0xff
                        ∷ (answer 1
                            ++ (0 ∷ 0 ∷ 1 ∷ 0xaa ∷ replicate 4 0xff
                                ++ (answer 1
                                    ++ (0xff ∷ answer 1)
                                    ++ (0xff ∷ answer 1
                                        ++ (0xff ∷ answer 0)
                                        ++ (0xff ∷ answer 0 ++ (0xc0 ∷ replicate 7 0xff)))))))))))
      [] true

abbrev pub reply : (r1 : ℕ) → (bit_and r1 0x80 == 0x80) ≡ false → Reply
reply r1 ok = record {
  six = six;
  noise = 0xff ∷ [];
  r1 = r1;
  six_ok = refl;
  noise_ok = refl;
  noise_short = omega arith;
  r1_ok = ok;
}

abbrev pub acmd41 : (r1 : ℕ) → (bit_and r1 0x80 == 0x80) ≡ false → Round
acmd41 r1 ok = record { first = reply 1 refl; busy = 0 ∷ []; second = reply r1 ok; busy_ok = refl }

-- an SDHC card that needs a second CMD0 and a second ACMD41
abbrev pub conversation : Conversation
conversation = record {
  wake = replicate 10 0xff;
  idle_tries = reply 5 refl ∷ [];
  idle = reply 1 refl;
  busy = 0 ∷ [];
  voltage_tries = [];
  voltage = reply 1 refl;
  echo = 0 ∷ 0 ∷ 1 ∷ 0xaa ∷ replicate 4 0xff;
  start_tries = (acmd41 1 refl, 0 ∷ []) ∷ [];
  started = acmd41 0 refl;
  busy' = [];
  register_tries = [];
  register = reply 0 refl;
  ocr = 0xc0 ∷ replicate 7 0xff;
}

pub conversation-Follows : Follows conversation
conversation-Follows = record {
  wake_ok = refl;
  idle_tries_ok = (refl, omega arith);
  idle_ok = refl;
  busy_ok = refl;
  voltage_tries_ok = (refl, omega arith);
  voltage_ok = refl;
  echo_ok = (refl, refl);
  start_tries_ok = (refl, omega arith);
  started_ok = refl;
  busy'_ok = refl;
  register_tries_ok = (refl, omega arith);
  register_ok = refl;
  ocr_ok = refl;
}
