-- ===== src/Timer.antt =====
-- src/time.c: the counters of the timers. A timer that is neither of the two has no counter: a write is
-- left out, and what a read returns is not defined.
use ee459spring.Base.{ℕ, Option, none, some, u8}

pub data AtmelTimer : Type 0 where
  timer_0 timer_1 timer_2 : AtmelTimer

-- `struct atmel_328_time`
pub record Time : Type 0 where
  pub timer_value : ℕ
  pub timer_reg : AtmelTimer
  pub timer_ctl : ℕ

-- the registers TCNT0, of 8 bits, and TCNT1, of 16
pub record Counters : Type 0 where
  pub tcnt_0 : ℕ
  pub tcnt_1 : ℕ

unfoldable pub get_timer_val : Time → Counters → Option ℕ
get_timer_val t regs = counter t.timer_reg
  where
    counter : AtmelTimer → Option ℕ
    counter AtmelTimer.timer_0 = some regs.tcnt_0
    counter AtmelTimer.timer_1 = some regs.tcnt_1
    counter AtmelTimer.timer_2 = none

unfoldable pub set_time : Time → ℕ → Counters → Counters
set_time t val regs = store t.timer_reg
  where
    store : AtmelTimer → Counters
    store AtmelTimer.timer_0 = record regs { tcnt_0 = u8 val }
    store AtmelTimer.timer_1 = record regs { tcnt_1 = val }
    store AtmelTimer.timer_2 = regs
