-- ===== src/Serial/Equivalence.antt =====
-- Whatever the schedule, the reader sees the bytes in order of arrival.
use ee459spring.Base.{
  ℕ, zero, suc, refl, ap, ◌≡◌, ◌∙◌, false, List, [], ◌∷◌, ◌++◌, append_assoc, Option, some, arith,
  Bool-cases, inl, inr, or_left, or_right, set, ◌+◌,
}
use ee459spring.Fifo.{Fifo, fifo_read_byte, is_empty, is_full, assigned}
use ee459spring.Fifo.Inv.{IsValid, write-IsValid, read-IsValid}
use ee459spring.Fifo.Refine.{contents, view, write_refines, read_refines}
use ee459spring.Fifo.Latch
use ee459spring.Fifo.Latch.{Latch, latch, push, pop, pop_bytes}
use ee459spring.Elm.{Answer, elm_response_complete, elm_read_loop}
use ee459spring.Serial.{
  Event, arrive, poll, Reader, running, finished, receive_interrupt, stored, poll_round,
  run_schedule, arrivals,
}

-- what the reader would return if the bytes that are still to come were a list
abbrev pub outlook : ℕ → Reader → List ℕ → Option Answer
outlook size (running len buf cur ret) incoming = elm_read_loop size len buf cur ret incoming
outlook size (finished ret buf overrun) incoming =
    some (record { ret = ret; buf = buf; overrun = overrun; rest = incoming })

-- a byte that is not lost is the last of the fifo
interrupt-contents :
    (f : Fifo) (b : ℕ)
    → IsValid f
    → (receive_interrupt f b).0 ≡ false
    → contents (receive_interrupt f b).1 ≡ contents f ++ b ∷ []
unfolding receive_interrupt Latch.push
interrupt-contents f b v kept = ground (arith, write_refines f b v)

read_code : (f : Fifo) → is_empty f.f_status ≡ false → (fifo_read_byte f).0 ≡ 0
unfolding fifo_read_byte
read_code f some_byte = ground arith

-- what a poll of a fifo that is not empty takes
read-contents :
    (f : Fifo)
    → IsValid f
    → is_empty f.f_status ≡ false
    → contents f ≡ assigned (fifo_read_byte f).1 0 ∷ contents (fifo_read_byte f).2
unfolding Latch.pop
read-contents f v some_byte = go (contents f) refl (read_refines f v)
  where
    go :
        (c : List ℕ)
        → contents f ≡ c
        → (let (code, out, f') = fifo_read_byte f in (code, out, view f'))
          ≡ pop_bytes c (is_full f.f_status)
        → c ≡ assigned (fifo_read_byte f).1 0 ∷ contents (fifo_read_byte f).2
    go [] e r = ground (arith, r, read_code f some_byte)
    go (x ∷ xs) e r = ground (arith, r)

pub round-IsValid : (size : ℕ) (r : Reader) (f : Fifo) → IsValid f → IsValid (poll_round size r f).1
unfolding poll_round
round-IsValid size (running zero buf cur ret) f v = v
round-IsValid size (running (suc len) buf cur ret) f v = ground (arith, read-IsValid f v)
round-IsValid size (finished ret buf overrun) f v = v

outlook-stored :
    (size len : ℕ) (buf : List ℕ) (cur ret ch : ℕ) (incoming : List ℕ)
    → elm_read_loop size (suc len) buf cur ret (ch ∷ incoming)
      ≡ outlook size (stored size len buf cur ret ch) incoming
unfolding elm_read_loop
outlook-stored size len buf cur ret ch incoming =
    elim (Bool-cases (elm_response_complete (set (set buf cur ch) (cur + 1) 0))) [
      | inl e ↦ rw e
      | inr e ↦ rw e
    ]

-- A round of the loop does not change what the reader will return.
pub round-outlook :
    (size : ℕ) (r : Reader) (f : Fifo) (more : List ℕ)
    → IsValid f
    → outlook size r (contents f ++ more)
      ≡ (let (r', f') = poll_round size r f in outlook size r' (contents f' ++ more))
unfolding poll_round elm_read_loop
round-outlook size (finished ret buf overrun) f more v = refl
round-outlook size (running zero buf cur ret) f more v = refl
round-outlook size (running (suc len) buf cur ret) f more v =
    elim (Bool-cases (is_empty f.f_status)) [
      | inl e ↦ rw e
      | inr e ↦ rw (
        e,
        read-contents f v e,
        outlook-stored size len buf cur ret (assigned (fifo_read_byte f).1 0)
            (contents (fifo_read_byte f).2 ++ more),
      )
    ]

pub interrupt-IsValid : (f : Fifo) (b : ℕ) → IsValid f → IsValid (receive_interrupt f b).1
unfolding receive_interrupt
interrupt-IsValid f b v = write-IsValid f b v

-- Whatever the order in which bytes arrive and the reader goes round its loop, from a valid fifo
-- and if no byte is lost, the reader will return after the schedule what it would have returned
-- before it, had the bytes of the fifo, those of the schedule and those that come later been one
-- list.
pub schedule-outlook :
    (size : ℕ) (es : List Event) (r : Reader) (f : Fifo) (more : List ℕ)
    → IsValid f
    → (run_schedule size r f es).2 ≡ false
    → outlook size r (contents f ++ (arrivals es ++ more))
      ≡ (let (r', f', lost) = run_schedule size r f es in outlook size r' (contents f' ++ more))
unfolding run_schedule
schedule-outlook size [] r f more v kept = refl
schedule-outlook size (arrive b ∷ es) r f more v kept =
    let f' = (receive_interrupt f b).1 in
    let lost = (receive_interrupt f b).0 in
    let lost_later = (run_schedule size r f' es).2 in
    let now = interrupt-contents f b v (or_left lost lost_later kept) in
    let regroup : contents f ++ b ∷ (arrivals es ++ more) ≡ contents f' ++ (arrivals es ++ more) =
      rw (now, append_assoc (contents f) (b ∷ []) (arrivals es ++ more)) in
    ap (outlook size r) regroup
    ∙ schedule-outlook size es r f' more (interrupt-IsValid f b v) (or_right lost lost_later kept)
schedule-outlook size (poll ∷ es) r f more v kept =
    round-outlook size r f (arrivals es ++ more) v
    ∙ schedule-outlook size es (poll_round size r f).0 (poll_round size r f).1 more
        (round-IsValid size r f v) kept
