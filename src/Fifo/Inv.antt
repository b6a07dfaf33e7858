-- ===== src/Fifo/Inv.antt =====
-- The representation invariant of `struct fifo_t`, and the bytes that a valid struct holds.
use ee459spring.Base.{
  ℕ, ◌+◌, ◌-◌, ◌%◌, ◌<◌, ◌≡◌, ◌≢◌, length, arith, length-set, if◌then◌else◌, ◌==◌,
}
use ee459spring.Fifo.{Fifo, Status, initialize_fifo, fifo_write_byte, fifo_read_byte}

-- A full fifo may have head and tail anywhere: a read does not clear the status.
abbrev pub Consistent : Status → ℕ → ℕ → Type 0
Consistent Status.full head tail = Unit
Consistent Status.empty head tail = head ≡ tail
Consistent Status.ready head tail = head ≢ tail

pub record IsValid (f : Fifo) : Type 0 where
  pub room : length f.f_buf ≡ 64
  pub head_in : f.f_head < 64
  pub tail_in : f.f_tail < 64
  pub consistent : Consistent f.f_status f.f_head f.f_tail

-- how many bytes stand between tail and head
abbrev pub stored : Status → ℕ → ℕ → ℕ
stored Status.full head tail = if head == tail then 64 else (head + 64 - tail) % 64
stored s head tail = (head + 64 - tail) % 64

abbrev pub count : Fifo → ℕ
count f = stored f.f_status f.f_head f.f_tail

pub initialize_fifo-IsValid : (f : Fifo) → length f.f_buf ≡ 64 → IsValid (initialize_fifo f)
unfolding initialize_fifo
initialize_fifo-IsValid f h = ground arith

pub write-IsValid : (f : Fifo) (x : ℕ) → IsValid f → IsValid (fifo_write_byte f x).1
unfolding fifo_write_byte
write-IsValid f x v = ground (arith, length-set f.f_buf f.f_head x)

pub read-IsValid : (f : Fifo) → IsValid f → IsValid (fifo_read_byte f).2
unfolding fifo_read_byte
read-IsValid f v = ground arith
