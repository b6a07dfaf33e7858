-- ===== src/Sd/Sector.antt =====
-- `sd_get_sector` (src/sd.c) against what the card answers.
use ee459spring.Base.{ℕ, refl, ◌≡◌, List, ◌∷◌, ◌++◌, ◌≤◌, Bool, true, false, length, some, none}
use ee459spring.Sd.{sd_get_sector, sd_init_read_sector, frame}
use ee459spring.Sd.Steps.{
  lacks, polls, polls_end, bus_with, wait_ready_lem, send_all_lem, await_token_lem,
  await_token-timeout, get_bytes_lem,
}

-- what the bus has been sent once the command is out
abbrev pub asked : List ℕ → List ℕ → ℕ → List ℕ
asked sent busy addr = (sent ++ polls_end busy) ++ frame 0x51 addr 0xff

-- A card that is ready at last, answers the six bytes of the command, sends the token 0xFE within
-- 1001 reads, then the data and, at last, 0xFF: sd_get_sector returns the data, has sent the command
-- to read the sector between reads, and deselects the card. What the card sends between the data and
-- the first 0xFF is lost.
pub get_sector-data :
    (addr : ℕ) (busy six waits bytes tail rest sent : List ℕ) (sel : Bool)
    → lacks 0xff busy ≡ true
    → length six ≡ 6
    → lacks 0xfe waits ≡ true
    → length waits ≤ 1000
    → lacks 0xff tail ≡ true
    → sd_get_sector addr (length bytes) (
        bus_with
          (busy ++ 0xff ∷ (six ++ (waits ++ 0xfe ∷ (bytes ++ (tail ++ 0xff ∷ rest)))))
          sent
          sel)
      ≡ some (
        some bytes,
        bus_with rest
            (((asked sent busy addr ++ polls_end waits) ++ polls bytes) ++ polls_end tail)
            false,
      )
unfolding sd_get_sector sd_init_read_sector
get_sector-data addr busy six waits bytes tail rest sent sel hb h6 hw near ht =
    rw
      (
        wait_ready_lem (six ++ (waits ++ 0xfe ∷ (bytes ++ (tail ++ 0xff ∷ rest)))) true busy sent
            hb,
        send_all_lem (waits ++ 0xfe ∷ (bytes ++ (tail ++ 0xff ∷ rest))) true (frame 0x51 addr 0xff)
            six (sent ++ polls_end busy) h6,
        await_token_lem (bytes ++ (tail ++ 0xff ∷ rest)) true 1000 waits (asked sent busy addr) hw
            near,
        get_bytes_lem (tail ++ 0xff ∷ rest) true bytes (asked sent busy addr ++ polls_end waits),
        wait_ready_lem rest true tail ((asked sent busy addr ++ polls_end waits) ++ polls bytes) ht,
      )
      refl

-- A card that never sends the token in 1001 reads after the command: sd_get_sector returns -1, leaves
-- the buffer alone and deselects the card.
pub get_sector-timeout :
    (addr size : ℕ) (busy six waits rest sent : List ℕ) (sel : Bool)
    → lacks 0xff busy ≡ true
    → length six ≡ 6
    → lacks 0xfe waits ≡ true
    → length waits ≡ 1001
    → sd_get_sector addr size (bus_with (busy ++ 0xff ∷ (six ++ (waits ++ rest))) sent sel)
      ≡ some (none, bus_with rest (asked sent busy addr ++ polls waits) false)
unfolding sd_get_sector sd_init_read_sector
get_sector-timeout addr size busy six waits rest sent sel hb h6 hw long =
    rw
      (
        wait_ready_lem (six ++ (waits ++ rest)) true busy sent hb,
        send_all_lem (waits ++ rest) true (frame 0x51 addr 0xff) six (sent ++ polls_end busy) h6,
        await_token-timeout rest true 1000 waits (asked sent busy addr) hw long,
      )
      refl
