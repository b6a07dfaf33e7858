-- ===== src/Fifo/Dump.antt =====
-- src/fifo.c: `fifo_dump_mem`, as the text that it prints.
use ee459spring.Base.{ℕ, suc, List, [], ◌∷◌, ◌++◌, ◌==◌, if◌then◌else◌, codes, pos, decimal}
use ee459spring.Fifo.{Fifo, Status}

abbrev pub status_line : Status → List ℕ
status_line Status.full = codes "full" ++ 10 ∷ []
status_line Status.empty = codes "empty" ++ 10 ∷ []
status_line Status.ready = codes "ready" ++ 10 ∷ []

-- the loop over the buffer from index `i` on
unfoldable pub memory_lines : Fifo → List ℕ → ℕ → List ℕ
memory_lines fifo [] i = []
memory_lines fifo (b ∷ bytes) i =
    codes "fifo address: "
    ++ (decimal (pos i)
        ++ (codes " data: "
            ++ (decimal (pos b)
                ++ (codes " "
                    ++ ((if fifo.f_head == i then codes " <- head" else [])
                        ++ ((if fifo.f_tail == i then codes " <- tail" else [])
                            ++ 10 ∷ memory_lines fifo bytes (suc i)))))))

unfoldable pub fifo_dump_mem : Fifo → List ℕ
unfolding memory_lines
fifo_dump_mem fifo =
    codes "fifo status: " ++ (status_line fifo.f_status ++ memory_lines fifo fifo.f_buf 0)
