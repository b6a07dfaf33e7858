-- ===== src/Sd/Gives.antt =====
-- Runs of src/sd.c on answers that they use up, and the loops that repeat a command.
use ee459spring.Base.{
  ℕ, zero, suc, refl, ◌≡◌, ◌<◌, ◌∙◌, ap, List, [], ◌∷◌, ◌++◌, append_assoc, length, Bool, true,
  false, ◌==◌, bit_and, some, arith, ==_refl,
}
use ee459spring.Sd.{Bus, Run, and_then, sd_ready, sd_command, sd_get_bytes, wait_ready, frame}
use ee459spring.Sd.Steps.{
  lacks, bus_with, polls, polls_end, wait_ready_lem, send_all_lem, get_bytes_lem,
}
use ee459spring.Sd.Put.{no_response, response_lem}
use ee459spring.Sd.Start.{tries}

-- Whatever was sent before and will be answered later, the run takes these answers and returns `a`.
abbrev pub Gives : {A : Type 0} → List ℕ → (Bus → Run A) → A → Type 0
Gives replies run a =
    (rest sent : List ℕ) (sel : Bool)
    → (sent' : List ℕ) × (sel' : Bool) × (run (bus_with (replies ++ rest) sent sel)
        ≡ some (a, bus_with rest sent' sel'))

pub Gives-then :
    {A B : Type 0} (r r' : List ℕ) (run : Bus → Run A) (next : A → Bus → Run B) (a : A) (b : B)
    → Gives r run a
    → Gives r' (next a) b
    → Gives (r ++ r') (λ bus. and_then (run bus) next) b
Gives-then r r' run next a b g h rest sent sel =
    let (sent1, sel1, first) = g (r' ++ rest) sent sel in
    let (sent2, sel2, second) = h rest sent1 sel1 in
    (
      sent2,
      sel2,
      ap (λ (l : List ℕ). and_then (run (bus_with l sent sel)) next) (append_assoc r r' rest)
          ∙ ap (λ x. and_then x next) first
          ∙ second,
    )

-- a card that is ready at last
pub Gives-ready : (busy : List ℕ) → lacks 0xff busy ≡ true → Gives (busy ++ 0xff ∷ []) sd_ready 0
Gives-ready busy h rest sent sel = (
  sent ++ polls_end busy,
  sel,
  ap (λ (l : List ℕ). wait_ready l sent sel) (append_assoc busy (0xff ∷ []) rest)
      ∙ wait_ready_lem rest sel busy sent h,
)

pub Gives-bytes : (data' : List ℕ) → Gives data' (sd_get_bytes (length data')) data'
Gives-bytes data' rest sent sel = (sent ++ polls data', sel, get_bytes_lem rest sel data' sent)

-- What the card answers to a command: six bytes while it is sent, noise, and the response.
pub record Reply : Type 0 where
  pub six : List ℕ
  pub noise : List ℕ
  pub r1 : ℕ
  pub six_ok : length six ≡ 6
  pub noise_ok : no_response noise ≡ true
  pub noise_short : length noise < 7
  pub r1_ok : (bit_and r1 0x80 == 0x80) ≡ false

abbrev pub said : Reply → List ℕ
said p = p.six ++ (p.noise ++ p.r1 ∷ [])

pub Gives-command :
    (cmd arg crc : ℕ) (p : Reply) → Gives (said p) (sd_command cmd arg crc 0) (p.r1, [])
unfolding sd_command
Gives-command cmd arg crc p rest sent sel =
    let joined : said p ++ rest ≡ p.six ++ (p.noise ++ p.r1 ∷ rest) =
      append_assoc p.six (p.noise ++ p.r1 ∷ []) rest
      ∙ ap (λ (l : List ℕ). p.six ++ l) (append_assoc p.noise (p.r1 ∷ []) rest) in
    (
      (sent ++ frame cmd arg crc) ++ polls_end p.noise,
      true,
      rw
          (
            joined,
            send_all_lem (p.noise ++ p.r1 ∷ rest) true (frame cmd arg crc) p.six sent p.six_ok,
            response_lem rest true 8 p.r1 p.noise (sent ++ frame cmd arg crc) p.noise_ok p.r1_ok
                (omega (arith, p.noise_short)),
          )
          refl,
    )

-- the answers to tries of a command that end with a good one, each bad one with those to the pause
pub data Tries (command : Bus → Run (ℕ × List ℕ)) (pause : Bus → Run ℕ) (good : ℕ)
    : ℕ → List ℕ → Type 0 where
  good_try : {left : ℕ} {r : List ℕ} → Gives r command (good, []) → Tries command pause good left r
  bad_try :
      {left x : ℕ} (r p rs : List ℕ)
      → Gives r command (x, [])
      → (x == good) ≡ false
      → Gives p pause 0
      → Tries command pause good left rs
      → Tries command pause good (suc left) (r ++ (p ++ rs))

pub Tries-Gives :
    (command : Bus → Run (ℕ × List ℕ)) (pause : Bus → Run ℕ) (good left : ℕ) (rs : List ℕ)
    → Tries command pause good left rs
    → Gives rs (tries left command pause good) (some good)
unfolding tries
Tries-Gives command pause good zero rs (good_try g) rest sent sel =
    let (sent', sel', e) = g rest sent sel in (sent', sel', rw (e, ==_refl good) refl)
Tries-Gives command pause good (suc left) rs (good_try g) rest sent sel =
    let (sent', sel', e) = g rest sent sel in (sent', sel', rw (e, ==_refl good) refl)
Tries-Gives command pause good (suc left) _ (bad_try {x = x} r p rs g bad q t) rest sent sel =
    let (sent1, sel1, e1) = g (p ++ (rs ++ rest)) sent sel in
    let (sent2, sel2, e2) = q (rs ++ rest) sent1 sel1 in
    let (sent3, sel3, e3) = Tries-Gives command pause good left rs t rest sent2 sel2 in
    let joined : (r ++ (p ++ rs)) ++ rest ≡ r ++ (p ++ (rs ++ rest)) =
      append_assoc r (p ++ rs) rest ∙ ap (λ (l : List ℕ). r ++ l) (append_assoc p rs rest) in
    (sent3, sel3, rw (joined, e1, bad, e2) e3)
