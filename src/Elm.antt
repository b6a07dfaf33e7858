-- ===== src/Elm.antt =====
-- src/elm.c: commands to the ELM327 and its answers. The bytes that the receive interrupt puts into
-- the fifo are a list in order of arrival; the loop that waits on an empty fifo is the wait for the
-- next of them, and `none` is a wait that does not end.
pub mod Read
pub mod Start
mod Tests
use ee459spring.Base.{
  ℕ, List, [], ◌∷◌, codes, ◌++◌, Bool, Option, c_string, is_some, some, replicate, strstr, leb,
  none, ◌&&◌, ltb, suc, set, ◌+◌, u8, if◌then◌else◌, zero,
}

-- `strstr(buf, ">")` is not null
abbrev pub elm_response_complete : List ℕ → Bool
elm_response_complete buf = is_some (strstr (62 ∷ []) buf)

-- What a read leaves: its return value (a `uint8_t`), the caller's array, whether a NUL was written
-- past the end of the array, and the bytes that have not been taken.
pub record Answer : Type 0 where
  pub ret : ℕ
  pub buf : List ℕ
  pub overrun : Bool
  pub rest : List ℕ

-- The loop, with `len` bytes left to read, the array, and the index `cur`.
unfoldable pub elm_read_loop : ℕ → ℕ → List ℕ → ℕ → ℕ → List ℕ → Option Answer
elm_read_loop size zero buf cur ret incoming =
    some (record { ret = ret; buf = buf; overrun = leb size cur && ltb 0 cur; rest = incoming })
elm_read_loop size (suc len) buf cur ret [] = none
elm_read_loop size (suc len) buf cur ret (ch ∷ incoming) =
    let buf' = set (set buf cur ch) (cur + 1) 0 in
    let more = elm_read_loop size len buf' (cur + 1) (u8 (ret + 1)) incoming in
    if elm_response_complete buf'
    then some
        (record { ret = u8 (ret + 1); buf = buf'; overrun = leb size (cur + 1); rest = incoming })
    else more

-- The array is filled with zeros first.
unfoldable pub elm_read : ℕ → List ℕ → Option Answer
unfolding elm_read_loop
elm_read size incoming = elm_read_loop size size (replicate size 0) 0 0 incoming

-- `elm_write` sends the string; `elm_command` sends it and reads the answer. The first component is
-- what the UART has been given so far.
unfoldable pub elm_write : List ℕ → List ℕ → List ℕ
elm_write sent cmd = sent ++ c_string cmd

unfoldable pub elm_command : List ℕ → List ℕ → ℕ → List ℕ → List ℕ × Option Answer
unfolding elm_write elm_read
elm_command sent cmd size incoming = (elm_write sent cmd, elm_read size incoming)

abbrev pub elm_reset : List ℕ
elm_reset = codes "ATZ" ++ (13 ∷ [])

abbrev pub echo_off : List ℕ
echo_off = codes "ATE0" ++ (13 ∷ [])

abbrev pub search_bus : List ℕ
search_bus = codes "ATSP0" ++ (13 ∷ [])

-- The three commands in turn, each with 32 bytes of the buffer; no `elm_command` returns a negative
-- number, so that no answer is looked at and the result is 0.
unfoldable pub initialize_elm : List ℕ → List ℕ → List ℕ × Option (List ℕ)
unfolding elm_command
initialize_elm sent incoming = after_reset (elm_command sent elm_reset 32 incoming)
  where
    after_search : List ℕ × Option Answer → List ℕ × Option (List ℕ)
    after_search (sent, none) = (sent, none)
    after_search (sent, some a) = (sent, some a.rest)

    after_echo : List ℕ × Option Answer → List ℕ × Option (List ℕ)
    after_echo (sent, none) = (sent, none)
    after_echo (sent, some a) = after_search (elm_command sent search_bus 32 a.rest)

    after_reset : List ℕ × Option Answer → List ℕ × Option (List ℕ)
    after_reset (sent, none) = (sent, none)
    after_reset (sent, some a) = after_echo (elm_command sent echo_off 32 a.rest)
