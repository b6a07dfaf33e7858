-- ===== src/Fifo/Tests.antt =====
-- Runs of fifo.c, and the theorems about it at concrete inputs.
use ee459spring.Fifo.Latch
use ee459spring.Fifo.Drain.{Drained, Refuses, reads, readn-Drained, reads-Refuses}
use ee459spring.Fifo.Stream.{Written, writen-Written}
use ee459spring.Fifo.Refine.{fifo_run, contents, view, run_refines}
use ee459spring.Fifo.Latch.{Op, read, write}
use ee459spring.Fifo.Inv.{IsValid, initialize_fifo-IsValid, write-IsValid}
use ee459spring.Fifo.{
  Fifo, fifo_write_byte, initialize_fifo, Status, fifo_read_byte, fifo_writen, fifo_readn,
}
use ee459spring.Base.{◌≡◌, refl, List, [], ◌∷◌, arith, replicate, set, false, drop, some, none}

abbrev fresh : Fifo
fresh = record { f_buf = replicate 64 0; f_head = 0; f_tail = 0; f_status = Status.empty }

-- two bytes across the end of the buffer
abbrev wrapped : Fifo
wrapped = record {
  f_buf = set (set (replicate 64 0) 63 8) 0 9;
  f_head = 1;
  f_tail = 63;
  f_status = Status.ready;
}

-- 64 bytes stored
abbrev filled : Fifo
filled = record { f_buf = replicate 64 7; f_head = 5; f_tail = 5; f_status = Status.full }

wrapped-IsValid : IsValid wrapped
wrapped-IsValid = omega arith

filled-IsValid : IsValid filled
filled-IsValid = omega arith

abbrev script : List Op
script = read ∷ write 4 ∷ read ∷ read ∷ read ∷ []

run_wrapped :
    fifo_run wrapped script ≡ (0, some 8) ∷ (0, none) ∷ (0, some 9) ∷ (0, some 4) ∷ (255, none) ∷ []
unfolding fifo_run fifo_write_byte fifo_read_byte
run_wrapped = refl

initialize_fifo-IsValid_example : IsValid (initialize_fifo filled)
initialize_fifo-IsValid_example = initialize_fifo-IsValid filled refl

write_keeps : IsValid (fifo_write_byte wrapped 3).1
write_keeps = write-IsValid wrapped 3 wrapped-IsValid

run_refines_example : fifo_run wrapped script ≡ Latch.run (view wrapped) script
run_refines_example = run_refines script wrapped wrapped-IsValid

writen-Written_example : Written false wrapped (1 ∷ 2 ∷ []) (fifo_writen false wrapped (1 ∷ 2 ∷ []))
writen-Written_example = writen-Written false (1 ∷ 2 ∷ []) wrapped wrapped-IsValid

readn-Drained_example :
    Drained false wrapped (0 ∷ 0 ∷ 0 ∷ []) (fifo_readn false wrapped (0 ∷ 0 ∷ 0 ∷ []))
readn-Drained_example = readn-Drained false (0 ∷ 0 ∷ 0 ∷ []) wrapped wrapped-IsValid

reads-Refuses_example : Refuses 1 (reads 10 filled) (drop 10 (contents filled))
reads-Refuses_example = reads-Refuses 10 filled 1 filled-IsValid refl (omega arith)
