-- ===== src/Serial/Race.antt =====
-- The receive interrupt within `fifo_read_byte` (src/fifo.c), which runs with interrupts enabled.
use ee459spring.Base.{
  ℕ, zero, suc, refl, ◌≡◌, ◌≢◌, ◌<◌, ◌==◌, true, false, List, [], ◌∷◌, length, get_or, replicate,
  arith, some, ap, ◌∙◌, sym, get_or-set_self,
}
use ee459spring.Fifo.{Fifo, Status, is_full, is_empty, advance, fifo_read_byte, fifo_write_byte}
use ee459spring.Fifo.Inv.{IsValid, Consistent, count, stored}
use ee459spring.Fifo.Refine.{contents, length-contents}
use ee459spring.Serial.{
  running, poll, receive_interrupt, poll_round, run_schedule, read_front, read_back,
}

-- Without an interrupt in between the two halves are the whole.
pub front-back :
    (f : Fifo)
    → is_empty f.f_status ≡ false
    → (let (byte, f', last) = read_front f in (0, some byte, read_back last f')) ≡ fifo_read_byte f
unfolding read_front read_back fifo_read_byte
front-back f h = ground arith

-- The fifo says that it is empty, though it holds the byte `b`.
pub record Stuck (b : ℕ) (f : Fifo) : Type 0 where
  pub waits : is_empty f.f_status ≡ true
  pub held : get_or f.f_buf f.f_tail 0 ≡ b
  pub apart : f.f_head ≢ f.f_tail

-- the reader goes round its loop without end
abbrev pub Spins : Fifo → Type 0
Spins f =
    (n size len : ℕ) (buf : List ℕ) (cur ret : ℕ)
    → run_schedule size (running (suc len) buf cur ret) f (replicate n poll)
      ≡ (running (suc len) buf cur ret, f, false)

empty-Spins : (f : Fifo) → is_empty f.f_status ≡ true → Spins f
unfolding run_schedule poll_round
empty-Spins f h zero size len buf cur ret = refl
empty-Spins f h (suc n) size len buf cur ret =
    let here : poll_round size (running (suc len) buf cur ret) f
        ≡ (running (suc len) buf cur ret, f) =
      rw h refl in
    ap (λ rf. run_schedule size rf.0 rf.1 (replicate n poll)) here
    ∙ empty-Spins f h n size len buf cur ret

-- a fifo with a single byte, as indices
one_byte :
    (f : Fifo) (x : ℕ)
    → IsValid f
    → contents f ≡ x ∷ []
    → is_full f.f_status ≡ false
    → advance f.f_tail ≡ f.f_head
one_byte f x v e h =
    let n : 1 ≡ count f = ap length (sym e) ∙ length-contents f in go f.f_status v.consistent h n
  where
    go :
        (s : Status)
        → Consistent s f.f_head f.f_tail
        → is_full s ≡ false
        → 1 ≡ stored s f.f_head f.f_tail
        → advance f.f_tail ≡ f.f_head
    go Status.full c open_now n = cc
    go Status.empty c open_now n = ground arith
    go Status.ready c open_now n = ground arith

advance-ne : (i : ℕ) → i < 64 → advance i ≢ i
advance-ne i h e = ground arith

-- the state after `fifo_read_byte` if `b` arrives between its two halves
abbrev pub interrupted : Fifo → ℕ → Fifo
interrupted f b = let (byte, f', last) = read_front f in read_back last (receive_interrupt f' b).1

-- Where a byte arrives while fifo_read_byte takes the last byte out of a valid fifo that is not marked
-- full, after the indices were compared and before the status is stored, the interrupt loses nothing, but the fifo says that it is
-- empty while it holds the new byte, and elm_read goes round its loop for ever.
pub interrupted-Stuck :
    (f : Fifo) (x b : ℕ)
    → IsValid f
    → contents f ≡ x ∷ []
    → is_full f.f_status ≡ false
    → ((receive_interrupt (read_front f).1 b).0 ≡ false)
      × Stuck b (interrupted f b)
      × Spins (interrupted f b)
unfolding read_front read_back receive_interrupt fifo_write_byte
interrupted-Stuck f x b v e h =
    let last = one_byte f x v e h in
    let compared : (advance f.f_tail == f.f_head) ≡ true = ground (arith, last) in
    let empty_now : is_empty (interrupted f b).f_status ≡ true = rw compared refl in
    let stuck : Stuck b (interrupted f b) = record {
      waits = empty_now;
      held = rw (compared, h, last) (get_or-set_self f.f_buf f.f_head b 0 (omega arith));
      apart = rw (compared, h, last) (advance-ne f.f_head v.head_in);
    } in
    (rw h refl, stuck, empty-Spins (interrupted f b) empty_now)
