-- ===== src/Io/Sectors.antt =====
-- What src/io.c relies on of `sd_get_sector` and `sd_put_sector` (src/sd.c): a card of sectors of
-- 512 bytes. Either call may fail.
use ee459spring.Base.{ℕ, ◌≡◌, Bool, Option, List, length, some, true, if◌then◌else◌, ◌==◌}

pub record Device : Type 1 where
  -- the card and the bus, with all that decides whether a call succeeds
  pub Card : Type 0
  -- the bytes that the card stores
  pub sector : Card → ℕ → List ℕ
  -- the new content of the buffer, or `none` for the return value -1, which leaves the buffer alone
  pub get_sector : Card → ℕ → Option (List ℕ) × Card
  -- `true` for the return value 0
  pub put_sector : Card → ℕ → List ℕ → Bool × Card
  pub length-sector : (c : Card) (a : ℕ) → length (sector c a) ≡ 512
  pub get_some :
      (c : Card) (a : ℕ) (buf : List ℕ) → (get_sector c a).0 ≡ some buf → buf ≡ sector c a
  pub sector-get : (c : Card) (a i : ℕ) → sector (get_sector c a).1 i ≡ sector c i
  pub sector-put :
      (c : Card) (a i : ℕ) (buf : List ℕ)
      → length buf ≡ 512
      → (put_sector c a buf).0 ≡ true
      → sector (put_sector c a buf).1 i ≡ (if i == a then buf else sector c i)
