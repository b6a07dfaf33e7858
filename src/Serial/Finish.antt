-- ===== src/Serial/Finish.antt =====
-- The reader's loop ends once the whole answer has arrived.
use ee459spring.Base.{
  ℕ, zero, suc, refl, ap, ◌≡◌, ◌<◌, ◌∙◌, sym, Bool, true, false, ◌||◌, List, [], ◌∷◌, ◌++◌,
  append-nil, Option, some, none, arith, Bool-cases, inl, inr, replicate, length, u8, ◌+◌, ◌-◌, leb,
}
use ee459spring.Fifo.{Fifo, fifo_read_byte, is_empty, assigned}
use ee459spring.Fifo.Inv.{IsValid}
use ee459spring.Fifo.Refine.{contents}
use ee459spring.Elm.{Answer, elm_read_loop, elm_read}
use ee459spring.Elm.Read.{is_plain, elm_read_lem}
use ee459spring.Serial.{
  Event, arrive, poll, Reader, running, finished, entered, receive_interrupt, stored, poll_round,
  run_schedule, arrivals,
}
use ee459spring.Serial.Equivalence.{
  outlook, schedule-outlook, round-outlook, round-IsValid, interrupt-IsValid,
}

-- the rounds that the loop has left at most
abbrev pub remaining : Reader → ℕ
remaining (running len buf cur ret) = suc len
remaining (finished ret buf overrun) = 0

-- the reader has returned `a`, and its bytes that were not taken are still in the fifo
abbrev pub Ended : Answer → Reader × Fifo × Bool → Type 0
Ended a (r, f, lost) = (r ≡ finished a.ret a.buf a.overrun) × (contents f ≡ a.rest)

-- what `elm_read` returns for the bytes `bs`, a prompt and the bytes `rest`
abbrev pub answer : ℕ → List ℕ → List ℕ → Answer
answer size bs rest = record {
  ret = u8 (length bs + 1);
  buf = bs ++ 62 ∷ replicate (size - (length bs + 1)) 0;
  overrun = leb size (length bs + 1);
  rest = rest;
}

-- a value that stands for an answer where there is none
abbrev the : Option Answer → Answer
the (some a) = a
the none = record { ret = 0; buf = []; overrun = false; rest = [] }

finished-Ended :
    (size n ret : ℕ) (buf : List ℕ) (overrun : Bool) (f : Fifo) (a : Answer)
    → outlook size (finished ret buf overrun) (contents f) ≡ some a
    → Ended a (run_schedule size (finished ret buf overrun) f (replicate n poll))
unfolding run_schedule poll_round
finished-Ended size zero ret buf overrun f a e =
    (ap (λ o. finished (the o).ret (the o).buf (the o).overrun) e, ap (λ o. (the o).rest) e)
finished-Ended size (suc n) ret buf overrun f a e = finished-Ended size n ret buf overrun f a e

empty-contents : (f : Fifo) → IsValid f → is_empty f.f_status ≡ true → contents f ≡ []
empty-contents f v e = ground arith

never :
    (size len : ℕ) (buf : List ℕ) (cur ret : ℕ) (a : Answer)
    → ¬ (outlook size (running (suc len) buf cur ret) [] ≡ some a)
unfolding elm_read_loop
never size len buf cur ret a e = cc

stored-remaining :
    (size len : ℕ) (buf : List ℕ) (cur ret ch : ℕ)
    → remaining (stored size len buf cur ret ch) < suc (suc len)
stored-remaining size len buf cur ret ch = ground arith

-- a round of a reader that has its answer is not a wait
round-remaining :
    (size len : ℕ) (buf : List ℕ) (cur ret : ℕ) (f : Fifo) (a : Answer)
    → IsValid f
    → outlook size (running len buf cur ret) (contents f) ≡ some a
    → remaining (poll_round size (running len buf cur ret) f).0 < suc len
unfolding poll_round
round-remaining size zero buf cur ret f a v e = omega arith
round-remaining size (suc len) buf cur ret f a v e = elim (Bool-cases (is_empty f.f_status)) [
  | inl waits ↦
      let stuck = ap (outlook size (running (suc len) buf cur ret)) (empty-contents f v waits) in
      absurd (never size len buf cur ret a (sym stuck ∙ e))
  | inr b ↦ rw b (stored-remaining size len buf cur ret (assigned (fifo_read_byte f).1 0))
]

round-kept :
    (size : ℕ) (r : Reader) (f : Fifo)
    → IsValid f
    → outlook size r (contents f)
      ≡ (let (r', f') = poll_round size r f in outlook size r' (contents f'))
round-kept size r f v =
    ap (outlook size r) (sym (append-nil (contents f)))
    ∙ round-outlook size r f [] v
    ∙ ap (outlook size (poll_round size r f).0) (append-nil (contents (poll_round size r f).1))

polls-Ended :
    (size n : ℕ) (r : Reader) (f : Fifo) (a : Answer)
    → IsValid f
    → remaining r < suc n
    → outlook size r (contents f) ≡ some a
    → Ended a (run_schedule size r f (replicate n poll))
unfolding run_schedule
polls-Ended size n (finished ret buf overrun) f a v h e =
    finished-Ended size n ret buf overrun f a e
polls-Ended size zero (running len buf cur ret) f a v h e = absurd (omega arith)
polls-Ended size (suc n) (running len buf cur ret) f a v h e =
    let r = running len buf cur ret in
    let (r', f') = poll_round size r f in
    let fewer = round-remaining size len buf cur ret f a v e in
    polls-Ended size n r' f' a (round-IsValid size r f v) (omega arith)
      (sym (round-kept size r f v) ∙ e)

or_assoc : (a b c : Bool) → ((a || b) || c) ≡ (a || (b || c))
or_assoc true b c = refl
or_assoc false b c = refl

-- the schedules in a row
run-append :
    (size : ℕ) (es later : List Event) (r : Reader) (f : Fifo)
    → run_schedule size r f (es ++ later) ≡ (
        let (r', f', lost) = run_schedule size r f es in
        let (r'', f'', more) = run_schedule size r' f' later in (r'', f'', lost || more))
unfolding run_schedule
run-append size [] later r f = refl
run-append size (arrive b ∷ es) later r f =
    let (lost, f') = receive_interrupt f b in
    let (r', f_then, lost_later) = run_schedule size r f' es in
    let (r_last, f_last, lost_last) = run_schedule size r' f_then later in
    let ih = run-append size es later r f' in
    rw (or_assoc lost lost_later lost_last)
      (ap (λ (out : Reader × Fifo × Bool). (out.0, out.1, lost || out.2)) ih)
run-append size (poll ∷ es) later r f =
    run-append size es later (poll_round size r f).0 (poll_round size r f).1

run-IsValid :
    (size : ℕ) (es : List Event) (r : Reader) (f : Fifo)
    → IsValid f
    → IsValid (run_schedule size r f es).1
unfolding run_schedule
run-IsValid size [] r f v = v
run-IsValid size (arrive b ∷ es) r f v =
    run-IsValid size es r (receive_interrupt f b).1 (interrupt-IsValid f b v)
run-IsValid size (poll ∷ es) r f v =
    run-IsValid size es (poll_round size r f).0 (poll_round size r f).1 (round-IsValid size r f v)

poll-remaining :
    (size : ℕ) (r : Reader) (f : Fifo) → remaining (poll_round size r f).0 < suc (remaining r)
unfolding poll_round
poll-remaining size (finished ret buf overrun) f = omega arith
poll-remaining size (running zero buf cur ret) f = omega arith
poll-remaining size (running (suc len) buf cur ret) f =
    ground (arith, stored-remaining size len buf cur ret (assigned (fifo_read_byte f).1 0))

run-remaining :
    (size : ℕ) (es : List Event) (r : Reader) (f : Fifo)
    → remaining (run_schedule size r f es).0 < suc (remaining r)
unfolding run_schedule
run-remaining size [] r f = omega arith
run-remaining size (arrive b ∷ es) r f = run-remaining size es r (receive_interrupt f b).1
run-remaining size (poll ∷ es) r f = omega (
  arith,
  run-remaining size es (poll_round size r f).0 (poll_round size r f).1,
  poll-remaining size r f,
)

-- However the bytes of an answer without NULs, which is shorter than the array, its prompt and
-- later bytes arrive among the rounds of the loop, if the fifo is valid and empty at first and
-- none of them is lost, then as many further rounds as the array has bytes and one are enough for
-- elm_read to return: it has the length of the answer and its prompt as a byte, the answer and
-- the prompt before zeros in the array, and the bytes after the prompt are still in the fifo.
pub schedule-Ended :
    (size : ℕ) (es : List Event) (f : Fifo) (bs rest : List ℕ)
    → IsValid f
    → contents f ≡ []
    → is_plain bs ≡ true
    → length bs < size
    → arrivals es ≡ bs ++ 62 ∷ rest
    → (run_schedule size (entered size) f es).2 ≡ false
    → Ended
        (answer size bs rest)
        (run_schedule size (entered size) f (es ++ replicate (suc size) poll))
unfolding elm_read
schedule-Ended size es f bs rest v nothing plain fits sent kept =
    let (r', f', lost) = run_schedule size (entered size) f es in
    let seen = schedule-outlook size es (entered size) f [] v kept in
    let start : contents f ++ (arrivals es ++ []) ≡ bs ++ 62 ∷ rest =
      rw (nothing, append-nil (arrivals es), sent) in
    let whole = ap (outlook size (entered size)) start ∙ elm_read_lem size bs rest plain fits in
    let now = ap (outlook size r') (append-nil (contents f')) in
    rw (run-append size es (replicate (suc size) poll) (entered size) f) (
      polls-Ended size (suc size) r' f' (answer size bs rest)
        (run-IsValid size es (entered size) f v)
        (omega (arith, run-remaining size es (entered size) f)) (sym now ∙ sym seen ∙ whole))
