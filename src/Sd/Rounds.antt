-- ===== src/Sd/Rounds.antt =====
-- The tries of commands in `initialize_sd` (src/sd.c), each on answers of a known form.
use ee459spring.Base.{
  ℕ, zero, suc, refl, ◌≡◌, ◌≤◌, List, [], ◌∷◌, ◌++◌, length, Bool, true, false, not, ◌&&◌, ◌==◌,
  arith, replicate,
}
use mathlib.Core.Path.{subst}
use ee459spring.Sd.{sd_ready, sd_command, sd_acommand, sd_get_bytes}
use ee459spring.Sd.Steps.{lacks, send_all_lem}
use ee459spring.Sd.Start.{sd_wake_up, no_pause}
use ee459spring.Sd.Gives.{
  Gives, Gives-then, Gives-ready, Gives-bytes, Gives-command, Reply, said, Tries, good_try, bad_try,
}

-- a card that is busy for a while
abbrev pub ready_after : List ℕ → List ℕ
ready_after busy = busy ++ 0xff ∷ []

-- tries of one command: those that get another response than the good one, and the one that gets it
abbrev pub attempts : List Reply → Reply → List ℕ
attempts [] p = said p
attempts (q ∷ qs) p = said q ++ ([] ++ attempts qs p)

abbrev pub all_bad : ℕ → List Reply → Bool
all_bad good [] = true
all_bad good (q ∷ qs) = not (q.r1 == good) && all_bad good qs

pub attempts-Tries :
    (cmd arg crc good left : ℕ) (qs : List Reply) (p : Reply)
    → all_bad good qs ≡ true
    → p.r1 ≡ good
    → length qs ≤ left
    → Tries (sd_command cmd arg crc 0) no_pause good left (attempts qs p)
attempts-Tries cmd arg crc good left [] p bad e h =
    good_try (
      subst (λ r. Gives (said p) (sd_command cmd arg crc 0) (r, [])) e
        (Gives-command cmd arg crc p))
attempts-Tries cmd arg crc good zero (q ∷ qs) p bad e h = absurd (omega arith)
attempts-Tries cmd arg crc good (suc left) (q ∷ qs) p bad e h =
    bad_try (said q) [] (attempts qs p) (Gives-command cmd arg crc q) (ground (arith, bad))
      (λ rest sent sel. (sent, sel, refl))
      (attempts-Tries cmd arg crc good left qs p (ground (arith, bad)) e (omega arith))

-- one ACMD41: the reply to CMD55, a wait, and the reply to the command
pub record Round : Type 0 where
  pub first : Reply
  pub busy : List ℕ
  pub second : Reply
  pub busy_ok : lacks 0xff busy ≡ true

abbrev pub round_bytes : Round → List ℕ
round_bytes r = said r.first ++ (ready_after r.busy ++ said r.second)

-- rounds with a wait after each but the last
abbrev pub rounds : List (Round × List ℕ) → Round → List ℕ
rounds [] r = round_bytes r
rounds ((q, busy) ∷ qs) r = round_bytes q ++ (ready_after busy ++ rounds qs r)

abbrev pub all_waiting : List (Round × List ℕ) → Bool
all_waiting [] = true
all_waiting ((q, busy) ∷ qs) = not (q.second.r1 == 0) && lacks 0xff busy && all_waiting qs

Gives-round :
    (cmd arg crc : ℕ) (r : Round)
    → Gives (round_bytes r) (sd_acommand cmd arg crc 0) (r.second.r1, [])
unfolding sd_acommand
Gives-round cmd arg crc r =
    let answered : (r.first.r1 == 0xff) ≡ false = ground (arith, r.first.r1_ok) in
    Gives-then (said r.first) (ready_after r.busy ++ said r.second) (sd_command 0x77 0 0xff 0) _
      (r.first.r1, []) (r.second.r1, []) (Gives-command 0x77 0 0xff r.first)
      (rw answered (
        Gives-then (ready_after r.busy) (said r.second) sd_ready (λ _ b. sd_command cmd arg crc 0 b)
          0 (r.second.r1, []) (Gives-ready r.busy r.busy_ok) (Gives-command cmd arg crc r.second)))

pub rounds-Tries :
    (cmd arg crc left : ℕ) (qs : List (Round × List ℕ)) (r : Round)
    → all_waiting qs ≡ true
    → r.second.r1 ≡ 0
    → length qs ≤ left
    → Tries (sd_acommand cmd arg crc 0) sd_ready 0 left (rounds qs r)
rounds-Tries cmd arg crc left [] r waiting e h = good_try (
    subst (λ x. Gives (round_bytes r) (sd_acommand cmd arg crc 0) (x, [])) e
      (Gives-round cmd arg crc r))
rounds-Tries cmd arg crc zero (q ∷ qs) r waiting e h = absurd (omega arith)
rounds-Tries cmd arg crc (suc left) ((q, busy) ∷ qs) r waiting e h =
    bad_try (round_bytes q) (ready_after busy) (rounds qs r) (Gives-round cmd arg crc q)
      (ground (arith, waiting)) (Gives-ready busy (ground (arith, waiting)))
      (rounds-Tries cmd arg crc left qs r (ground (arith, waiting)) e (omega arith))

pub Gives-eight : (data' : List ℕ) → length data' ≡ 8 → Gives data' (sd_get_bytes 8) data'
Gives-eight data' e = subst (λ n. Gives data' (sd_get_bytes n) data') e (Gives-bytes data')

pub Gives-wake : (bytes : List ℕ) → length bytes ≡ 10 → Gives bytes sd_wake_up 0
unfolding sd_wake_up
Gives-wake bytes e rest sent sel =
    (sent ++ replicate 10 0xff, false, send_all_lem rest false (replicate 10 0xff) bytes sent e)
