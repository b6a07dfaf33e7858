-- ===== src/Obd.antt =====
-- src/obd.c and src/include/obd.h: the table of OBD-II commands, the exchange of a command and its
-- answer with the ELM327, and the conversion of answers into numbers.
pub mod Commands
pub mod Pids
pub mod Readings
pub mod Supported
pub mod Format
pub mod Decode
pub mod Line
pub mod Start
pub mod OnHeap
mod Tests
use ee459spring.Base.{
  ℕ, List, [], ◌∷◌, codes, none, suc, if◌then◌else◌, Option, strlen, u8, bit_or, ◌+◌, ltb, ◌==◌,
  get_or, set, strtol_hex, some, ◌/◌, hex_digit, strstr, not, ◌%◌, drop, ◌<<<◌, bit_and, take,
  isspace, c_string, ◌&&◌, is_some, zero, isxdigit, ◌||◌,
}
use Commands.{ObdCmd, obd_cmds}
use ee459spring.Elm.{Answer, elm_command}

-- what a row outside the table would be
abbrev pub no_cmd : ObdCmd
no_cmd = record {
  obd_pid = 0;
  resp_bytes = 0;
  obd_units = none;
  obd_cmd = [];
  cmd_str = "";
  handle_data = none;
}

-- The loop of `obd_set_supported_ops` with `rounds` rounds left, from index `i` and the mask on;
-- the list grows at its head.
unfoldable pub push_supported : ℕ → ℕ → ℕ → ℕ → List ObdCmd → List ObdCmd
push_supported res zero i mask found = found
push_supported res (suc rounds) i mask found =
    push_supported res rounds (i + 1) (mask / 2)
      (if bit_and res mask == 0 then found else get_or obd_cmds i no_cmd ∷ found)

-- `i` goes from 1 to 0x1f.
unfoldable pub obd_set_supported_ops : ℕ → List ObdCmd
unfolding push_supported
obd_set_supported_ops res = push_supported res 31 1 0x80000000 []

-- `snprintf(pream, 3, "%02lX", v)`: the first two of the upper case digits of a number below 4096
abbrev pub first_hex_digits : ℕ → List ℕ
first_hex_digits v =
    if ltb v 256
    then hex_digit (v / 16) ∷ hex_digit (v % 16) ∷ []
    else hex_digit (v / 256) ∷ hex_digit (v / 16 % 16) ∷ []

-- The index in `buf` at which the answer to the command starts, or `none` for NULL.
unfoldable pub obd_resp : List ℕ → List ℕ → Option ℕ
obd_resp cmd buf =
    if strlen cmd == 5
    then strstr (first_hex_digits (0x40 + strtol_hex (take 2 cmd) 0)) buf
    else none

-- The loop of `obd_fmt_resp`, with fuel: the array, the index `i` to read and the index `n` to write.
unfoldable pub fmt_loop : ℕ → List ℕ → ℕ → ℕ → List ℕ × ℕ
fmt_loop zero str i n = (str, n)
fmt_loop (suc fuel) str i n =
    let c = get_or str i 0 in
    let keep = not (isspace c) && isxdigit c in
    let more =
      fmt_loop fuel (if keep then set str n c else str) (i + 1) (if keep then n + 1 else n) in
    if ltb i (strlen str) then more else (str, n)

-- The code is 0, or -1 where the digits are odd in number.
unfoldable pub obd_fmt_resp : List ℕ → ℕ × List ℕ
unfolding fmt_loop
obd_fmt_resp str =
    let (str', n) = fmt_loop (strlen str) str 0 0 in
    let done = set str' n 0 in (if strlen done % 2 == 0 then 0 else 255, done)

-- The bytes written to `ret[i..]` from the pairs of digits that are left.
unfoldable pub parse_pairs : List ℕ → List ℕ
parse_pairs [] = []
parse_pairs (hi ∷ []) = []
parse_pairs (hi ∷ lo ∷ rest) = u8 (strtol_hex (hi ∷ lo ∷ []) 0) ∷ parse_pairs rest

abbrev pub no_data : List ℕ
no_data = codes "NO DATA"

abbrev pub no_connect : List ℕ
no_connect = codes "UNABLE TO CONNECT"

-- what `obd_command` does with the array that the ELM327 has filled
unfoldable pub decode_answer : List ℕ → List ℕ → Option (List ℕ)
unfolding obd_resp obd_fmt_resp parse_pairs
decode_answer cmd buf =
    if is_some (strstr no_data buf) || is_some (strstr no_connect buf)
    then none
    else from_index (obd_resp cmd buf)
  where
    from_index : Option ℕ → Option (List ℕ)
    from_index none = none
    from_index (some k) =
        let (code, str) = obd_fmt_resp (drop k buf) in
        if code == 0 then some (parse_pairs (c_string str)) else none

-- What a command leaves: what the UART has been given, the bytes written to `dat[0..]` or `none` for
-- the code -1, and the bytes that the fifo still holds.
pub record Exchange : Type 0 where
  pub sent : List ℕ
  pub written : Option (List ℕ)
  pub rest : List ℕ

-- `none` is a wait for the answer that does not end. `size` is not used by the code.
unfoldable pub obd_command : List ℕ → List ℕ → List ℕ → Option Exchange
unfolding decode_answer
obd_command sent cmd incoming =
    if strlen cmd == 5
    then answered (elm_command sent cmd 64 incoming)
    else some (record { sent = sent; written = none; rest = incoming })
  where
    answered : List ℕ × Option Answer → Option Exchange
    answered (sent', none) = none
    answered (sent', some a) =
        some (record { sent = sent'; written = decode_answer cmd a.buf; rest = a.rest })

-- `(new_buf[2] << 24) | (new_buf[3] << 16) | (new_buf[4] << 8) | new_buf[5]`
unfoldable pub supported_word : List ℕ → ℕ
supported_word dat =
    bit_or (get_or dat 2 0 <<< 24)
      (bit_or (get_or dat 3 0 <<< 16) (bit_or (get_or dat 4 0 <<< 8) (get_or dat 5 0)))

-- an array after the write of bytes at its start
abbrev pub overwrite : List ℕ → List ℕ → List ℕ
overwrite [] old = old
overwrite (b ∷ bs) [] = []
overwrite (b ∷ bs) (_ ∷ old) = b ∷ overwrite bs old

-- What the UART has been given, the list of supported commands or `none` for the code -1, and the
-- bytes that the fifo still holds. `stack` is what the uninitialised array `dat` holds before the
-- call; the outer `none` is a wait that does not end.
unfoldable pub initialize_obd :
    List ℕ → List ℕ → List ℕ → Option (List ℕ × Option (List ObdCmd) × List ℕ)
unfolding obd_command supported_word obd_set_supported_ops
initialize_obd stack sent incoming =
    exchanged (obd_command sent (get_or obd_cmds 0 no_cmd).obd_cmd incoming)
  where
    from_bytes : Option (List ℕ) → Option (List ObdCmd)
    from_bytes none = none
    from_bytes (some bytes) = some (obd_set_supported_ops (supported_word (overwrite bytes stack)))

    exchanged : Option Exchange → Option (List ℕ × Option (List ObdCmd) × List ℕ)
    exchanged none = none
    exchanged (some x) = some (x.sent, from_bytes x.written, x.rest)
