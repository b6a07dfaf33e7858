-- ===== src/Main/BootTests.antt =====
-- A start of src/main.c with a card of one file and an ELM327 whose car supports some PIDs.
use ee459spring.Base.{ℕ, List, [], ◌∷◌, ◌++◌, replicate, codes, false, true}
use ee459spring.I2c.Write.{bus}
use ee459spring.Fifo.{Status}
use ee459spring.Sd.Sample.{fresh, conversation}
use ee459spring.Sd.Steps.{bus_with}
use ee459spring.Sd.Begin.{spoken}
use ee459spring.Fat.Sample.{at_start, no_file, empty}
use ee459spring.Obd.Start.{mask_line}
use ee459spring.Main.Show.{acks}
use ee459spring.Main.Boot.{System, Setting}
use ee459spring.Main.Ready.{Ready}

abbrev setting : Setting
setting = record {
  bits = record { ucsz0 = 1; ucsz1 = 2; rxen = 4; txen = 3; rxc = 7; udre = 5 };
  rxcie1 = 7;
  fosc = 9830400;
  fuel = 2;
  stack = replicate 512 7;
  file = no_file;
  dat = replicate 64 0;
}

-- the three answers of a start
abbrev version : List ℕ
version = codes "\r\rELM327 v1.5\r\r"

abbrev ok : List ℕ
ok = codes "OK\r\r"

abbrev off : System (ℕ → List ℕ)
off = record {
  pins = record { port = λ _. 0; ddr = λ _. 0 };
  spcr = 0;
  twi_regs = (0xf8, 0);
  usart = [];
  fifo = record { f_buf = replicate 64 0; f_head = 3; f_tail = 4; f_status = Status.ready };
  sd = fresh;
  bus = bus_with (spoken conversation ++ []) [] true;
  io = at_start;
  fat32 = empty;
  linked_list = [];
  board = record {
    twi = bus (acks 13 []) [] [];
    sent = [];
    incoming = version ++ 62 ∷ (ok ++ 62 ∷ (ok ++ 62 ∷ (mask_line 0xbe 0x1f 0xa8 0x13 ++ 62 ∷ [])));
    buf = [];
    overrun = false;
    led = false;
  };
}
