-- ===== src/Sd.antt =====
-- src/sd.c: the SD card over the SPI bus. What the card answers is a list, one byte for each byte that
-- is exchanged; `none` is a run that is still waiting where the list ends. Delays and debug output are
-- left out.
pub mod Steps
pub mod Sector
pub mod Put
pub mod Start
pub mod Outcome
pub mod Gives
pub mod Rounds
pub mod Begin
pub mod Card
pub mod Stores
pub mod Flat
pub mod Sample
mod Tests
use ee459spring.Base.{
  ℕ, List, [], ◌∷◌, ◌++◌, ◌+◌, ◌==◌, Bool, true, false, not, Option, none, some, if◌then◌else◌,
  bit_and, u8, ◌>>>◌, zero, suc, leb,
}

-- The bus: the bytes that the card will answer, those it has been sent, and its select line.
pub record Bus : Type 0 where
  pub replies : List ℕ
  pub sent : List ℕ
  pub selected : Bool

-- a run with the bus after it
abbrev pub Run {ℓ} : Type ℓ → Type ℓ
Run A = Option (A × Bus)

-- a run followed by another
abbrev pub and_then {ℓ ℓ'} : {A : Type ℓ} {B : Type ℓ'} → Run A → (A → Bus → Run B) → Run B
and_then none k = none
and_then (some (a, bus)) k = k a bus

-- `spi_write_char` of src/spi.c, which returns what the card answers
unfoldable pub spi_write_char : ℕ → Bus → Run ℕ
spi_write_char ch bus = answered bus.replies
  where
    answered : List ℕ → Run ℕ
    answered [] = none
    answered (r ∷ rs) =
        some (r, record { replies = rs; sent = bus.sent ++ (ch ∷ []); selected = bus.selected })

unfoldable pub spi_read_char : Bus → Run ℕ
unfolding spi_write_char
spi_read_char bus = spi_write_char 0xff bus

abbrev pub enable : Bus → Bus
enable bus = record bus { selected = true }

abbrev pub disable : Bus → Bus
disable bus = record bus { selected = false }

-- `while (sd_is_busy())`: reads up to the first 0xFF; the list is what the card will answer
unfoldable pub wait_ready : List ℕ → List ℕ → Bool → Run ℕ
wait_ready [] sent sel = none
wait_ready (r ∷ rs) sent sel =
    let more = wait_ready rs (sent ++ (0xff ∷ [])) sel in
    if r == 0xff
    then some (0, record { replies = rs; sent = sent ++ (0xff ∷ []); selected = sel })
    else more

abbrev pub sd_ready : Bus → Run ℕ
sd_ready bus = wait_ready bus.replies bus.sent bus.selected

-- bytes sent in order, whatever is answered
unfoldable pub send_all : List ℕ → Bus → Run ℕ
unfolding spi_write_char
send_all [] bus = some (0, bus)
send_all (b ∷ bs) bus = and_then (spi_write_char b bus) (λ _ bus'. send_all bs bus')

-- a command, its argument from the highest byte on, and the checksum
abbrev pub frame : ℕ → ℕ → ℕ → List ℕ
frame cmd arg crc = cmd ∷ u8 (arg >>> 24) ∷ u8 (arg >>> 16) ∷ u8 (arg >>> 8) ∷ u8 arg ∷ crc ∷ []

-- The do-while loop of `sd_command` with `left` trials left: the answer of the last of them is not
-- looked at.
unfoldable pub response : ℕ → Bus → Run ℕ
unfolding spi_read_char
response zero bus = some (0xff, bus)
response (suc left) bus = and_then (spi_read_char bus) (λ ret bus'.
    let more = response left bus' in
    if left == 0
    then some (0xff, bus')
    else if bit_and ret 0x80 == 0x80
    then more
    else some (ret, bus'))

-- the loop that reads `n` bytes into a buffer, here and in `sd_get_bytes`
unfoldable pub sd_get_bytes : ℕ → Bus → Run (List ℕ)
unfolding spi_read_char
sd_get_bytes zero bus = some ([], bus)
sd_get_bytes (suc n) bus =
    and_then (spi_read_char bus)
      (λ b bus'. and_then (sd_get_bytes n bus') (λ bs bus''. some (b ∷ bs, bus'')))

-- `sd_command`, with the bytes it puts into `buf`. Without bytes to read the card stays selected.
unfoldable pub sd_command : ℕ → ℕ → ℕ → ℕ → Bus → Run (ℕ × List ℕ)
unfolding send_all response sd_get_bytes
sd_command cmd arg crc bytes bus = and_then (send_all (frame cmd arg crc) (enable bus)) (λ _ bus'.
    if bytes == 0
    then and_then (response 8 bus') (λ ret b. some ((ret, []), b))
    else and_then (sd_get_bytes bytes bus') (λ buf b. some ((0xff, buf), disable b)))

-- CMD55 first; the result 0xFF is a failure.
unfoldable pub sd_acommand : ℕ → ℕ → ℕ → ℕ → Bus → Run (ℕ × List ℕ)
unfolding sd_command wait_ready
sd_acommand cmd arg crc bytes bus = and_then (sd_command 0x77 0 0xff 0 bus) (λ r bus'.
    if r.0 == 0xff
    then some ((0xff, []), bus')
    else and_then (sd_ready bus') (λ _ b. sd_command cmd arg crc bytes b))

-- the first byte below 0x80
unfoldable pub sd_get_resp_byte : List ℕ → ℕ
sd_get_resp_byte [] = 0xff
sd_get_resp_byte (b ∷ bs) =
    let rest = sd_get_resp_byte bs in if bit_and b 0x80 == 0 then b else rest

-- the index of that byte, as an `int8_t`, or -1
unfoldable pub find_resp : List ℕ → ℕ → ℕ
find_resp [] i = 255
find_resp (b ∷ bs) i = let rest = find_resp bs (i + 1) in if bit_and b 0x80 == 0 then u8 i else rest

unfoldable pub sd_find_resp_byte : List ℕ → ℕ
unfolding find_resp
sd_find_resp_byte buf = find_resp buf 0

-- The loop of `sd_cmd_resp` with `left` reads left. `&` binds before `=`: what is assigned and returned
-- is the bit 7 of the answer.
unfoldable pub sd_cmd_resp : ℕ → Bus → Run ℕ
unfolding spi_read_char
sd_cmd_resp zero bus = some (0xff, bus)
sd_cmd_resp (suc left) bus = and_then (spi_read_char bus) (λ r bus'.
    let more = sd_cmd_resp left bus' in
    let ret = bit_and r 0x80 in if ret == 0 then some (ret, bus') else more)

-- Waits for the data token: the first read and `left` more, or the result -1.
unfoldable pub await_token : ℕ → Bus → Run ℕ
unfolding spi_read_char
await_token zero bus =
    and_then (spi_read_char bus) (λ r bus'. some (if r == 0xfe then 0 else 255, bus'))
await_token (suc left) bus =
    and_then (spi_read_char bus)
      (λ r bus'. let more = await_token left bus' in if r == 0xfe then some (0, bus') else more)

unfoldable pub sd_init_read_sector : ℕ → Bus → Run ℕ
unfolding wait_ready send_all await_token
sd_init_read_sector arg bus =
    and_then (sd_ready bus)
      (λ _ b1. and_then (send_all (frame 0x51 arg 0xff) b1) (λ _ b2. await_token 1000 b2))

-- The new content of the buffer, or `none` for the result -1.
unfoldable pub sd_get_sector : ℕ → ℕ → Bus → Run (Option (List ℕ))
unfolding sd_init_read_sector sd_get_bytes wait_ready
sd_get_sector addr size bus = and_then (sd_init_read_sector addr (enable bus)) (λ ret b1.
    if leb 128 ret
    then some (none, disable b1)
    else and_then (sd_get_bytes size b1)
        (λ buf b2. and_then (sd_ready b2) (λ _ b3. some (some buf, disable b3))))

unfoldable pub sd_init_put_sector : ℕ → Bus → Run ℕ
unfolding wait_ready sd_command
sd_init_put_sector addr bus = and_then (sd_ready bus) (λ _ b1.
    and_then (sd_command 0x58 addr 0xff 0 b1) (λ r b2. some (if r.0 == 0 then 0 else 255, b2)))

-- the begin token, the data and two bytes for the checksum
unfoldable pub sd_put_bytes : List ℕ → Bus → Run ℕ
unfolding send_all
sd_put_bytes buf bus = send_all (0xfe ∷ buf ++ (0xff ∷ 0xff ∷ [])) bus

-- The loop that looks for the data response, with `left` reads left: 0 where the data is accepted.
unfoldable pub data_response : ℕ → Bus → Run ℕ
unfolding spi_read_char
data_response zero bus = some (255, bus)
data_response (suc left) bus = and_then (spi_read_char bus) (λ ret bus'.
    let more = data_response left bus' in
    if bit_and ret 0x11 == 0x01
    then some (if bit_and ret 0x0e == 0x04 then 0 else 255, bus')
    else more)

-- Where the command fails the card stays selected.
unfoldable pub sd_put_sector : ℕ → List ℕ → Bus → Run ℕ
unfolding sd_init_put_sector sd_put_bytes data_response wait_ready
sd_put_sector addr buf bus = and_then (sd_init_put_sector addr (enable bus)) (λ ret b1.
    if leb 128 ret
    then some (255, b1)
    else and_then (sd_put_bytes buf b1) (λ _ b2.
      and_then (data_response 128 b2)
        (λ code b3. and_then (sd_ready b3) (λ _ b4. some (code, disable b4)))))
