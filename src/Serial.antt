-- ===== src/Serial.antt =====
-- The receive interrupt of src/main.c and the reader of src/elm.c, which share the fifo: a schedule says
-- in which order bytes arrive and the reader goes round its loop.
pub mod Equivalence
pub mod Finish
pub mod Race
mod Tests
use ee459spring.Base.{
  get_or, ℕ, zero, suc, ◌+◌, ◌==◌, Bool, true, false, not, ◌&&◌, ◌||◌, List, [], ◌∷◌, ◌++◌, set,
  leb, ltb, u8, replicate, if◌then◌else◌, Option, some, none,
}
use ee459spring.Fifo.{Status, advance, Fifo, fifo_write_byte, fifo_read_byte, is_empty, assigned}
use ee459spring.Elm.{Answer, elm_response_complete, elm_read_loop}

pub data Event : Type 0 where
  arrive : ℕ → Event
  poll : Event

-- `elm_read` within its loop, with `len`, `buf`, `cur` and `ret`; or after it, with what it returns,
-- the array, and whether a NUL was written past its end
pub data Reader : Type 0 where
  running : ℕ → List ℕ → ℕ → ℕ → Reader
  finished : ℕ → List ℕ → Bool → Reader

-- `elm_read` entered with an array of `size` bytes
abbrev pub entered : ℕ → Reader
entered size = running size (replicate size 0) 0 0

-- The interrupt: the code of `fifo_write_byte` is not looked at; `true` is a byte that is lost.
unfoldable pub receive_interrupt : Fifo → ℕ → Bool × Fifo
receive_interrupt fifo byte =
    let (ret, fifo') = fifo_write_byte fifo byte in (not (ret == 0), fifo')

-- the round of the loop after a byte was read
abbrev pub stored : ℕ → ℕ → List ℕ → ℕ → ℕ → ℕ → Reader
stored size len buf cur ret ch =
    let buf' = set (set buf cur ch) (cur + 1) 0 in
    if elm_response_complete buf'
    then finished (u8 (ret + 1)) buf' (leb size (cur + 1))
    else running len buf' (cur + 1) (u8 (ret + 1))

-- one round of `while (len)`: an empty fifo is passed over
unfoldable pub poll_round : ℕ → Reader → Fifo → Reader × Fifo
poll_round size (finished ret buf overrun) fifo = (finished ret buf overrun, fifo)
poll_round size (running zero buf cur ret) fifo =
    (finished ret buf (leb size cur && ltb 0 cur), fifo)
poll_round size (running (suc len) buf cur ret) fifo =
    let (code, ch, fifo') = fifo_read_byte fifo in
    if is_empty fifo.f_status
    then (running (suc len) buf cur ret, fifo)
    else (stored size len buf cur ret (assigned ch 0), fifo')

-- The reader and the fifo after a schedule, and whether a byte was lost.
unfoldable pub run_schedule : ℕ → Reader → Fifo → List Event → Reader × Fifo × Bool
run_schedule size r fifo [] = (r, fifo, false)
run_schedule size r fifo (arrive b ∷ es) =
    let (lost, fifo') = receive_interrupt fifo b in
    let (r', fifo'', more) = run_schedule size r fifo' es in (r', fifo'', lost || more)
run_schedule size r fifo (poll ∷ es) =
    let (r', fifo') = poll_round size r fifo in run_schedule size r' fifo' es

-- the bytes of a schedule
abbrev pub arrivals : List Event → List ℕ
arrivals [] = []
arrivals (arrive b ∷ es) = b ∷ arrivals es
arrivals (poll ∷ es) = arrivals es

-- `fifo_read_byte` on a fifo that is not empty, in two halves: the byte and the new tail with the result
-- of the last comparison, and what is stored for it.
unfoldable pub read_front : Fifo → ℕ × Fifo × Bool
read_front fifo =
    let tail = advance fifo.f_tail in
    (get_or fifo.f_buf fifo.f_tail 0, record fifo { f_tail = tail }, tail == fifo.f_head)

unfoldable pub read_back : Bool → Fifo → Fifo
read_back last fifo = if last then record fifo { f_status = Status.empty } else fifo
