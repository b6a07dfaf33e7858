-- ===== src/Io/Tests.antt =====
-- The theorems about src/io.c at concrete inputs.
use ee459spring.Io.Sync.{flushed, reloaded, read-write}
use ee459spring.Io.Memory.{stored_byte, reach}
use ee459spring.Io.Buffer.{WroteAll, write_nbytes-WroteAll}
use ee459spring.Io.Read.{GotAll, read_nbytes-GotAll}
use ee459spring.Io.Alias.{Reliable, get_byte_aliases, flush_aliases, write_nbytes-leftover}
use ee459spring.Base.{
  ℕ, refl, ◌≡◌, List, [], ◌∷◌, length, arith, some, if◌then◌else◌, ◌%◌, ◌^◌, ◌+◌, ◌≢◌, u8, ◌&&◌,
  ltb,
}
use ee459spring.Io.{
  IoCtx, io_get_byte, io_write_nbytes, io_flush_write_buffer, io_flush_read_buffer, io_read_nbytes,
  io_put_byte, is_negative,
}
use ee459spring.Io.Ram.{ram, fit}

ram-Reliable : Reliable ram
ram-Reliable = record { gets = λ c a. refl; puts = λ c a buf. refl }

-- sector `a` starts with the byte `a % 256`
abbrev numbered : ℕ → List ℕ
numbered a = a % 256 ∷ []

abbrev start : IoCtx (ℕ → List ℕ)
start = record {
  input_sector_addr = 0;
  input_byte_addr = 0;
  input_sector_buf = fit 512 (numbered 0);
  output_sector_addr = 0;
  output_byte_addr = 0;
  output_sector_buf = fit 512 (numbered 0);
  card = numbered;
}

abbrev ok_return : IoCtx (ℕ → List ℕ) → ℕ
ok_return _ = 0

reads_sector_three : (io_get_byte ram start 1536).1 ≡ some 3
unfolding io_get_byte
reads_sector_three = refl

abbrev three : List ℕ
three = 5 ∷ 6 ∷ 7 ∷ []

abbrev slots : List ℕ
slots = 0 ∷ 0 ∷ 0 ∷ []

-- across the end of sector 2
abbrev place_of : ℕ
place_of = 1535

wrote_ok : (io_write_nbytes ram ok_return start three place_of).0 ≡ 0
unfolding io_write_nbytes io_put_byte io_flush_write_buffer
wrote_ok = refl

flushed_ok : (flushed ram ok_return start three place_of).0 ≡ 0
unfolding io_flush_write_buffer
flushed_ok = refl

reloaded_ok : (reloaded ram ok_return start three place_of).0 ≡ 0
unfolding io_flush_read_buffer
reloaded_ok = refl

read_ok : (io_read_nbytes ram (reloaded ram ok_return start three place_of).1 slots place_of).0 ≡ 0
unfolding io_read_nbytes io_get_byte
read_ok = ground arith

reads_three : GotAll ram start place_of slots (io_read_nbytes ram start slots place_of)
reads_three = read_nbytes-GotAll ram start slots place_of refl (omega arith)

write_nbytes-WroteAll_example :
    WroteAll ram start place_of three (io_write_nbytes ram ok_return start three place_of).1
write_nbytes-WroteAll_example =
    write_nbytes-WroteAll ram ok_return start three place_of refl (omega arith) wrote_ok

read-write_example :
    (io_read_nbytes ram (reloaded ram ok_return start three place_of).1 slots place_of).1 ≡ three
read-write_example =
    read-write ram ok_return start three place_of slots refl refl (omega arith) wrote_ok flushed_ok
      reloaded_ok read_ok

got_far : (io_get_byte ram start (2 ^ 25 + 512)).0 ≡ 0
unfolding io_get_byte
got_far = refl

get_byte_aliases_example :
    let again = io_get_byte ram (io_get_byte ram start (2 ^ 25 + 512)).2 ((2 ^ 25 + 512) % reach) in
    (again.0 ≡ 0) × (again.1 ≡ some (stored_byte ram numbered (2 ^ 25 + 512)))
get_byte_aliases_example =
    get_byte_aliases ram start (2 ^ 25 + 512) (omega arith) (omega arith) got_far

put_far : (io_put_byte ram ok_return start (2 ^ 25 + 512) 9).0 ≢ 255
unfolding io_put_byte io_flush_write_buffer
put_far = omega arith

flush_far : (io_flush_write_buffer ram (io_put_byte ram ok_return start (2 ^ 25 + 512) 9).1).0 ≡ 0
unfolding io_flush_write_buffer
flush_far = refl

flush_aliases_example :
    stored_byte ram
      (io_flush_write_buffer ram (io_put_byte ram ok_return start (2 ^ 25 + 512) 9).1).1.card
      ((2 ^ 25 + 512) % reach)
    ≡ 9
flush_aliases_example =
    flush_aliases ram ok_return start (2 ^ 25 + 512) 9 (omega arith) (omega arith) put_far flush_far

bad_leftover :
    (io_write_nbytes ram (λ _. 200) start three place_of).0
    ≡ (if is_negative (u8 200) && ltb 0 (length three) then 255 else 0)
bad_leftover = write_nbytes-leftover ram 200 start three place_of ram-Reliable
