-- ===== src/Sd/Put.antt =====
-- `sd_put_sector` (src/sd.c) against what the card answers.
use ee459spring.Base.{
  ℕ, refl, ◌≡◌, List, [], ◌∷◌, ◌++◌, ◌+◌, ◌<◌, arith, Bool, true, false, not, ◌&&◌, ◌==◌, length,
  some, zero, suc, bit_and, append_assoc, ap, ◌∙◌, if◌then◌else◌,
}
use ee459spring.Sd.{
  sd_put_sector, sd_init_put_sector, sd_command, sd_put_bytes, response, data_response,
  spi_read_char, spi_write_char, frame,
}
use ee459spring.Sd.Steps.{lacks, polls_end, bus_with, wait_ready_lem, send_all_lem}

-- no byte is a response: all have their highest bit set
abbrev pub no_response : List ℕ → Bool
no_response [] = true
no_response (x ∷ xs) = bit_and x 0x80 == 0x80 && no_response xs

-- no byte has the form of a data response
abbrev pub no_data_response : List ℕ → Bool
no_data_response [] = true
no_data_response (x ∷ xs) = not (bit_and x 0x11 == 0x01) && no_data_response xs

module _ (rest : List ℕ) (sel : Bool) where
  pub response_lem :
      (left ret : ℕ) (noise sent : List ℕ)
      → no_response noise ≡ true
      → (bit_and ret 0x80 == 0x80) ≡ false
      → length noise + 1 < left
      → response left (bus_with (noise ++ ret ∷ rest) sent sel)
        ≡ some (ret, bus_with rest (sent ++ polls_end noise) sel)
  unfolding response spi_read_char spi_write_char
  response_lem zero ret noise sent h hr le = absurd (omega arith)
  response_lem (suc left) ret [] sent h hr le =
      let more : (left == 0) ≡ false = ground arith in rw (more, hr) refl
  response_lem (suc left) ret (x ∷ noise) sent h hr le =
      let more : (left == 0) ≡ false = ground arith in
      let high : (bit_and x 0x80 == 0x80) ≡ true = ground (arith, h) in
      rw (more, high)
        (response_lem left ret noise (sent ++ 0xff ∷ []) (ground (arith, h)) hr (omega arith)
          ∙ ap (λ s. some (ret, bus_with rest s sel))
              (append_assoc sent (0xff ∷ []) (polls_end noise)))

  data_response_lem :
      (left : ℕ) (noise sent : List ℕ)
      → no_data_response noise ≡ true
      → length noise < left
      → data_response left (bus_with (noise ++ 0x05 ∷ rest) sent sel)
        ≡ some (0, bus_with rest (sent ++ polls_end noise) sel)
  unfolding data_response spi_read_char spi_write_char
  data_response_lem zero noise sent h le = absurd (omega arith)
  data_response_lem (suc left) [] sent h le = refl
  data_response_lem (suc left) (x ∷ noise) sent h le =
      let other : (bit_and x 0x11 == 0x01) ≡ false = ground (arith, h) in
      rw other (
        data_response_lem left noise (sent ++ 0xff ∷ []) (ground (arith, h)) (omega arith)
        ∙ ap (λ s. some (0, bus_with rest s sel)) (append_assoc sent (0xff ∷ []) (polls_end noise)))

-- what the bus has been sent once the write command has its response
abbrev pub commanded : List ℕ → List ℕ → List ℕ → ℕ → List ℕ
commanded sent busy noise addr =
    ((sent ++ polls_end busy) ++ frame 0x58 addr 0xff) ++ polls_end noise

init_put_lem :
    (addr ret : ℕ) (busy six noise rest sent : List ℕ)
    → lacks 0xff busy ≡ true
    → length six ≡ 6
    → no_response noise ≡ true
    → length noise < 7
    → (bit_and ret 0x80 == 0x80) ≡ false
    → sd_init_put_sector addr (bus_with (busy ++ 0xff ∷ (six ++ (noise ++ ret ∷ rest))) sent true)
      ≡ some (if ret == 0 then 0 else 255, bus_with rest (commanded sent busy noise addr) true)
unfolding sd_init_put_sector sd_command
init_put_lem addr ret busy six noise rest sent hb h6 hn short hr =
    rw
      (
        wait_ready_lem (six ++ (noise ++ ret ∷ rest)) true busy sent hb,
        send_all_lem (noise ++ ret ∷ rest) true (frame 0x58 addr 0xff) six (sent ++ polls_end busy)
            h6,
        response_lem rest true 8 ret noise ((sent ++ polls_end busy) ++ frame 0x58 addr 0xff) hn hr
            (omega arith),
      )
      refl

-- A card that is ready at last, accepts the write command within seven reads, answers each byte of the
-- data, accepts the data within 128 reads and is ready at last: sd_put_sector returns 0, has sent the
-- command, the token, the data and two bytes of checksum, and deselects the card.
pub put_sector-accepted :
    (addr : ℕ) (buf busy six noise echo noise' tail rest sent : List ℕ) (sel : Bool)
    → lacks 0xff busy ≡ true
    → length six ≡ 6
    → no_response noise ≡ true
    → length noise < 7
    → length echo ≡ length (0xfe ∷ (buf ++ 0xff ∷ 0xff ∷ []))
    → no_data_response noise' ≡ true
    → length noise' < 128
    → lacks 0xff tail ≡ true
    → sd_put_sector addr buf (
        bus_with
          (busy
            ++ 0xff ∷ (six ++ (noise ++ 0x00 ∷ (echo ++ (noise' ++ 0x05 ∷ (tail ++ 0xff ∷ rest))))))
          sent
          sel)
      ≡ some (
        0,
        bus_with rest
            (((commanded sent busy noise addr ++ 0xfe ∷ (buf ++ 0xff ∷ 0xff ∷ []))
                ++ polls_end noise')
              ++ polls_end tail)
            false,
      )
unfolding sd_put_sector sd_put_bytes
put_sector-accepted addr buf busy six noise echo noise' tail rest sent sel hb h6 hn short he hd
      short' ht =
    let out = commanded sent busy noise addr in
    let data' = 0xfe ∷ (buf ++ 0xff ∷ 0xff ∷ []) in
    let answer = noise' ++ 0x05 ∷ (tail ++ 0xff ∷ rest) in
    rw
      (
        init_put_lem addr 0 busy six noise (echo ++ answer) sent hb h6 hn short refl,
        send_all_lem answer true data' echo out he,
        data_response_lem (tail ++ 0xff ∷ rest) true 128 noise' (out ++ data') hd short',
        wait_ready_lem rest true tail ((out ++ data') ++ polls_end noise') ht,
      )
      refl

-- A card that is ready at last and answers the write command within seven reads with an error code:
-- sd_put_sector returns -1 without having sent the data, and leaves the card selected.
pub put_sector-refused :
    (addr ret : ℕ) (buf busy six noise rest sent : List ℕ) (sel : Bool)
    → lacks 0xff busy ≡ true
    → length six ≡ 6
    → no_response noise ≡ true
    → length noise < 7
    → (bit_and ret 0x80 == 0x80) ≡ false
    → (ret == 0) ≡ false
    → sd_put_sector addr buf (bus_with (busy ++ 0xff ∷ (six ++ (noise ++ ret ∷ rest))) sent sel)
      ≡ some (255, bus_with rest (commanded sent busy noise addr) true)
unfolding sd_put_sector
put_sector-refused addr ret buf busy six noise rest sent sel hb h6 hn short hr bad =
    rw (init_put_lem addr ret busy six noise rest sent hb h6 hn short hr, bad) refl
