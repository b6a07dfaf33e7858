-- ===== src/Fifo/Refine.antt =====
-- A valid fifo behaves as the latched queue of the bytes that it holds.
use ee459spring.Base.{
  ℕ, zero, suc, ◌+◌, ◌-◌, ◌%◌, ◌<◌, ◌≡◌, refl, ap, ap₂, false, List, [], ◌∷◌, ◌++◌, length, arith,
  get_or, set, Bool-cases, inl, inr, none, if◌then◌else◌, ◌==◌, get_or-set_self, get_or-set_ne,
}
use ee459spring.Fifo.{Fifo, Status, is_full, advance, fifo_write_byte, fifo_read_byte}
use ee459spring.Fifo.Inv.{IsValid, Consistent, stored, count, write-IsValid, read-IsValid}
use ee459spring.Fifo.Latch
use ee459spring.Fifo.Latch.{Latch, latch, is_nil, Op, write, read, Reply}

-- the `n` bytes from index `t` on, going round at 64
abbrev pub window : List ℕ → ℕ → ℕ → List ℕ
window buf t zero = []
window buf t (suc n) = get_or buf t 0 ∷ window buf ((t + 1) % 64) n

length-window : (buf : List ℕ) (t n : ℕ) → length (window buf t n) ≡ n
length-window buf t zero = refl
length-window buf t (suc n) = ap suc (length-window buf ((t + 1) % 64) n)

-- Writing just past a window extends it by that byte.
window-set :
    (buf : List ℕ) (x n t i : ℕ)
    → length buf ≡ 64
    → t < 64
    → n < 64
    → i ≡ (t + n) % 64
    → window (set buf i x) t (suc n) ≡ window buf t n ++ (x ∷ [])
window-set buf x zero t i hs ht hn e = ap (λ b. b ∷ []) (ground (arith, get_or-set_self buf t x 0))
window-set buf x (suc n) t i hs ht hn e =
    ap₂ ◌∷◌ (get_or-set_ne buf i t x 0 (omega arith))
      (window-set buf x n ((t + 1) % 64) i hs (omega arith) (omega arith) (omega arith))

abbrev pub contents : Fifo → List ℕ
contents f = window f.f_buf f.f_tail (count f)

pub length-contents : (f : Fifo) → length (contents f) ≡ count f
length-contents f = length-window f.f_buf f.f_tail (count f)

-- the latched queue that a fifo stands for
abbrev pub view : Fifo → Latch
view f = latch (contents f) (is_full f.f_status)

-- the code's wrap-around of an index
advance-mod : (i : ℕ) → i < 64 → advance i ≡ (i + 1) % 64
advance-mod i h = ground arith

-- the code tests the status, `window` matches on the count
window_pos :
    (buf : List ℕ) (t n : ℕ)
    → 0 < n
    → window buf t n ≡ get_or buf t 0 ∷ window buf ((t + 1) % 64) (n - 1)
window_pos buf t zero h = absurd (omega arith)
window_pos buf t (suc n) h = ap (λ k. get_or buf t 0 ∷ window buf ((t + 1) % 64) k) (omega arith)

is_nil-window : (buf : List ℕ) (t n : ℕ) → is_nil (window buf t n) ≡ (n == 0)
is_nil-window buf t zero = refl
is_nil-window buf t (suc n) = ground arith

-- What a write that is let through does to the count, the status and the place of the head.
record Grows (s : Status) (h t : ℕ) : Type 0 where
  below : stored s h t < 64
  head : h ≡ (t + stored s h t) % 64
  next :
      stored (if advance h == t then Status.full else Status.ready) (advance h) t
      ≡ suc (stored s h t)
  closed : is_full (if advance h == t then Status.full else Status.ready) ≡ (stored s h t + 1 == 64)

open_Grows :
    (s : Status) (h t : ℕ) → h < 64 → t < 64 → Consistent s h t → is_full s ≡ false → Grows s h t
open_Grows Status.full h t hh ht c e = cc
open_Grows Status.empty h t hh ht c e = record {
  below = ground arith;
  head = ground arith;
  next = ground arith;
  closed = ground arith;
}
open_Grows Status.ready h t hh ht c e = record {
  below = ground arith;
  head = ground arith;
  next = ground arith;
  closed = ground arith;
}

-- `fifo_write_byte` returns the code of the latched push, and leaves the fifo holding its queue.
pub write_refines :
    (f : Fifo) (x : ℕ)
    → IsValid f
    → let (c, f') = fifo_write_byte f x in (c, view f') ≡ Latch.push (view f) x
unfolding fifo_write_byte Latch.push
write_refines f x v = elim (Bool-cases (is_full f.f_status)) [
  | inl e ↦ ground arith
  | inr e ↦
      let g = open_Grows f.f_status f.f_head f.f_tail v.head_in v.tail_in v.consistent e in
      rw (
        e,
        g.next,
        g.closed,
        window-set f.f_buf x (count f) f.f_tail f.f_head v.room v.tail_in g.below g.head,
        length-contents f,
      )
]

-- `fifo_read_byte` returns the code and byte of the latched pop, and leaves the fifo holding the rest.
pub read_refines :
    (f : Fifo)
    → IsValid f
    → let (c, out, f') = fifo_read_byte f in (c, out, view f') ≡ Latch.pop (view f)
unfolding fifo_read_byte Latch.pop
read_refines f v = ground (
  arith,
  advance-mod f.f_tail,
  window_pos f.f_buf f.f_tail (count f),
  is_nil-window f.f_buf ((f.f_tail + 1) % 64) (count f - 1),
)

-- No sequence of calls tells a valid fifo from the latched queue of its contents.
unfoldable pub fifo_run : Fifo → List Op → List Reply
fifo_run f [] = []
fifo_run f (write x ∷ ops) = let (c, f') = fifo_write_byte f x in (c, none) ∷ fifo_run f' ops
fifo_run f (read ∷ ops) = let (c, out, f') = fifo_read_byte f in (c, out) ∷ fifo_run f' ops

pub run_refines : (ops : List Op) (f : Fifo) → IsValid f → fifo_run f ops ≡ Latch.run (view f) ops
unfolding fifo_run Latch.run
run_refines [] f v = refl
run_refines (write x ∷ ops) f v =
    rw (run_refines ops (fifo_write_byte f x).1 (write-IsValid f x v), ← write_refines f x v)
run_refines (read ∷ ops) f v =
    rw (run_refines ops (fifo_read_byte f).2 (read-IsValid f v), ← read_refines f v)
