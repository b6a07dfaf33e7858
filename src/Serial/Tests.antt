-- ===== src/Serial/Tests.antt =====
-- The theorems about the interrupt and the reader at a concrete schedule.
use ee459spring.Serial.Race.{Stuck, Spins, interrupted, interrupted-Stuck}
use ee459spring.Serial.{read_front}
use ee459spring.Base.{◌∷◌, List, [], refl, replicate, arith, false, ◌≡◌, ◌++◌, strstr, set}
use ee459spring.Fifo.{Fifo, Status, fifo_write_byte, fifo_read_byte}
use ee459spring.Fifo.Inv.{IsValid}
use ee459spring.Fifo.Refine.{contents}
use ee459spring.Serial.{
  Event, arrive, poll, entered, receive_interrupt, poll_round, run_schedule, arrivals,
}
use ee459spring.Serial.Equivalence.{outlook, schedule-outlook}
use ee459spring.Serial.Finish.{Ended, answer, schedule-Ended}

abbrev idle : Fifo
idle = record { f_buf = replicate 64 0; f_head = 5; f_tail = 5; f_status = Status.empty }

-- a round that waits, "O", "K", a round that takes the "O", and the prompt
abbrev events : List Event
events = poll ∷ arrive 79 ∷ arrive 75 ∷ poll ∷ arrive 62 ∷ []

nothing_lost : (run_schedule 6 (entered 6) idle events).2 ≡ false
unfolding run_schedule receive_interrupt poll_round fifo_write_byte fifo_read_byte strstr
nothing_lost = refl

idle-IsValid : IsValid idle
idle-IsValid = omega arith

schedule-outlook_example : outlook 6 (entered 6) (contents idle ++ (arrivals events ++ 13 ∷ [])) ≡ (
    let (r', f', lost) = run_schedule 6 (entered 6) idle events in
    outlook 6 r' (contents f' ++ 13 ∷ []))
schedule-outlook_example =
    schedule-outlook 6 events (entered 6) idle (13 ∷ []) idle-IsValid nothing_lost

schedule-Ended_example :
    Ended
      (answer 6 (79 ∷ 75 ∷ []) [])
      (run_schedule 6 (entered 6) idle (events ++ replicate 7 poll))
schedule-Ended_example =
    schedule-Ended 6 events idle (79 ∷ 75 ∷ []) [] idle-IsValid refl refl (omega arith) refl
      nothing_lost

-- the prompt is to come, and one byte is left to read
abbrev one_left : Fifo
one_left = record {
  f_buf = set (replicate 64 0) 63 75;
  f_head = 0;
  f_tail = 63;
  f_status = Status.ready;
}

one_left-IsValid : IsValid one_left
one_left-IsValid = omega arith

interrupted-Stuck_example :
    ((receive_interrupt (read_front one_left).1 62).0 ≡ false)
    × Stuck 62 (interrupted one_left 62)
    × Spins (interrupted one_left 62)
interrupted-Stuck_example = interrupted-Stuck one_left 75 62 one_left-IsValid refl refl
