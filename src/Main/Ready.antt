-- ===== src/Main/Ready.antt =====
-- src/main.c: a start of the whole device that goes well.
use ee459spring.Base.{ℕ, ◌≡◌, List, ◌++◌, map, codes}
use mathlib.Core.Option
use ee459spring.I2c.{Twi}
use ee459spring.Io.Sectors.{Device}
use ee459spring.Io.Memory.{stored_byte, IsFresh}
use ee459spring.Io.Reliable.{Answers}
use ee459spring.Fat.Listing.{Found, cached, with_files}
use ee459spring.Fat.Mount.{context_of}
use ee459spring.Obd.Supported.{row_of, supported_pids}
use ee459spring.Main.Boot.{System, Setting}
use ee459spring.Sd.Start.{SdType}
use ee459spring.Sd.Begin.{enabled_as}
use ee459spring.Main.SetUp.{IsSetUp, IsClear}

module _ (dev : Device) (answers : Answers dev) (set : Setting) where
  open dev use {Card, sector, get_sector, get_some, sector-get}

  -- The device after a start: the files and the commands that were found, what the ELM327 and the display
  -- were sent, and the bytes that the ELM327 has sent beyond its answers.
  pub record Ready (s : System Card) (kind : SdType) (found : List Found) (mask : ℕ) (rest : List ℕ)
      (twi : Twi) (s' : System Card) : Type 0 where
    pub card : s'.sd ≡ enabled_as s.sd kind
    pub files :
        (let fat = context_of (stored_byte dev s.io.card) s.fat32 in
          s'.fat32 ≡ with_files fat (map (cached fat set.file.first_cluster) found))
    pub chip : IsSetUp set s s'
    pub commands : s'.linked_list ≡ map row_of (supported_pids mask 31 1)
    pub sent :
        s'.board.sent
        ≡ (((s.board.sent ++ codes "ATZ\r") ++ codes "ATE0\r") ++ codes "ATSP0\r") ++ codes "0100\r"
    pub incoming : s'.board.incoming ≡ rest
    pub shown : s'.board.twi ≡ twi
    pub fifo : IsClear s'.fifo
    pub fresh : IsFresh dev s'.io
