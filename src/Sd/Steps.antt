-- ===== src/Sd/Steps.antt =====
-- The loops of src/sd.c, each on answers of a known form.
use ee459spring.Base.{
  ℕ, refl, ◌≡◌, List, [], ◌∷◌, ◌++◌, ◌+◌, ◌≤◌, arith, Bool, true, false, not, ◌&&◌, ◌==◌, length,
  some, zero, suc, append_assoc, sym, ap, ◌∙◌, append-nil,
}
use ee459spring.Sd.{
  Bus, wait_ready, send_all, spi_write_char, spi_read_char, await_token, sd_get_bytes,
}

-- is the byte not in the list?
abbrev pub lacks : ℕ → List ℕ → Bool
lacks b [] = true
lacks b (x ∷ xs) = not (x == b) && lacks b xs

-- one 0xFF sent for each answer, and one more
abbrev pub polls : List ℕ → List ℕ
polls [] = []
polls (x ∷ xs) = 0xff ∷ polls xs

abbrev pub polls_end : List ℕ → List ℕ
polls_end [] = 0xff ∷ []
polls_end (x ∷ xs) = 0xff ∷ polls_end xs

abbrev pub bus_with : List ℕ → List ℕ → Bool → Bus
bus_with replies sent sel = record { replies = replies; sent = sent; selected = sel }

module _ (rest : List ℕ) (sel : Bool) where
  pub wait_ready_lem :
      (busy sent : List ℕ)
      → lacks 0xff busy ≡ true
      → wait_ready (busy ++ 0xff ∷ rest) sent sel
        ≡ some (0, bus_with rest (sent ++ polls_end busy) sel)
  unfolding wait_ready
  wait_ready_lem [] sent h = refl
  wait_ready_lem (x ∷ busy) sent h =
      let busy_now : (x == 0xff) ≡ false = ground (arith, h) in
      rw busy_now (
        wait_ready_lem busy (sent ++ 0xff ∷ []) (ground (arith, h))
        ∙ ap (λ s. some (0, bus_with rest s sel)) (append_assoc sent (0xff ∷ []) (polls_end busy)))

  pub send_all_lem :
      (bs rs sent : List ℕ)
      → length rs ≡ length bs
      → send_all bs (bus_with (rs ++ rest) sent sel) ≡ some (0, bus_with rest (sent ++ bs) sel)
  unfolding send_all spi_write_char
  send_all_lem [] [] sent e = ap (λ s. some (0, bus_with rest s sel)) (sym (append-nil sent))
  send_all_lem [] (r ∷ rs) sent e = absurd (omega arith)
  send_all_lem (b ∷ bs) [] sent e = absurd (omega arith)
  send_all_lem (b ∷ bs) (r ∷ rs) sent e =
      send_all_lem bs rs (sent ++ b ∷ []) (omega arith)
      ∙ ap (λ s. some (0, bus_with rest s sel)) (append_assoc sent (b ∷ []) bs)

  pub await_token_lem :
      (left : ℕ) (waits sent : List ℕ)
      → lacks 0xfe waits ≡ true
      → length waits ≤ left
      → await_token left (bus_with (waits ++ 0xfe ∷ rest) sent sel)
        ≡ some (0, bus_with rest (sent ++ polls_end waits) sel)
  unfolding await_token spi_read_char spi_write_char
  await_token_lem zero [] sent h e = refl
  await_token_lem zero (x ∷ waits) sent h e = absurd (omega arith)
  await_token_lem (suc left) [] sent h e = refl
  await_token_lem (suc left) (x ∷ waits) sent h e =
      let other : (x == 0xfe) ≡ false = ground (arith, h) in
      rw other (
        await_token_lem left waits (sent ++ 0xff ∷ []) (ground (arith, h)) (omega arith)
        ∙ ap (λ s. some (0, bus_with rest s sel)) (append_assoc sent (0xff ∷ []) (polls_end waits)))

  pub await_token-timeout :
      (left : ℕ) (waits sent : List ℕ)
      → lacks 0xfe waits ≡ true
      → length waits ≡ left + 1
      → await_token left (bus_with (waits ++ rest) sent sel)
        ≡ some (255, bus_with rest (sent ++ polls waits) sel)
  unfolding await_token spi_read_char spi_write_char
  await_token-timeout left [] sent h e = absurd (omega arith)
  await_token-timeout zero (x ∷ []) sent h e =
      let other : (x == 0xfe) ≡ false = ground (arith, h) in rw other refl
  await_token-timeout zero (x ∷ y ∷ waits) sent h e = absurd (omega arith)
  await_token-timeout (suc left) (x ∷ waits) sent h e =
      let other : (x == 0xfe) ≡ false = ground (arith, h) in
      rw other (
        await_token-timeout left waits (sent ++ 0xff ∷ []) (ground (arith, h)) (omega arith)
        ∙ ap (λ s. some (255, bus_with rest s sel)) (append_assoc sent (0xff ∷ []) (polls waits)))

  pub get_bytes_lem :
      (data' sent : List ℕ)
      → sd_get_bytes (length data') (bus_with (data' ++ rest) sent sel)
        ≡ some (data', bus_with rest (sent ++ polls data') sel)
  unfolding sd_get_bytes spi_read_char spi_write_char
  get_bytes_lem [] sent = ap (λ s. some ([], bus_with rest s sel)) (sym (append-nil sent))
  get_bytes_lem (b ∷ bs) sent =
      rw (get_bytes_lem bs (sent ++ 0xff ∷ []))
        (ap (λ s. some (b ∷ bs, bus_with rest s sel)) (append_assoc sent (0xff ∷ []) (polls bs)))
