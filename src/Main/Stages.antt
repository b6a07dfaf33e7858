-- ===== src/Main/Stages.antt =====
-- src/main.c: the stages of a start, each where it goes well.
use ee459spring.Base.{
  ℕ, refl, ◌≡◌, ◌≤◌, ◌+◌, ◌∙◌, sym, ap, List, ◌∷◌, length, map, some, true, false, replicate, inl,
  inr, arith, fun_ext, get_or, ◌/◌, ◌%◌, take, ◌-◌,
}
use mathlib.Core.Path.{subst}
use ee459spring.I2c.{Command}
use ee459spring.I2c.Write.{bus}
use ee459spring.Sd.{Bus}
use ee459spring.Sd.Start.{SdCtx, SdStatus, initialize_sd}
use ee459spring.Sd.Outcome.{Every, Outcome, initialize_sd-Outcome}
use ee459spring.Io.{IoCtx, initialize_io}
use ee459spring.Io.Sectors.{Device}
use ee459spring.Io.Memory.{reach, stored_byte, IsFresh}
use ee459spring.Io.Reliable.{Answers}
use ee459spring.Io.Steady.{given}
use ee459spring.Fat.{FatCtx}
use ee459spring.Fat.Chain.{is_fat32, initialize_fat32}
use ee459spring.Fat.Listing.{Found, Lists, cached, with_files}
use ee459spring.Fat.Mount.{partition_of, boot_address, context_of, mount}
use ee459spring.Elm.{initialize_elm}
use ee459spring.Obd.{initialize_obd}
use ee459spring.Main.{greet, greeting, ObdCmd}
use ee459spring.Main.Show.{acks, frame, lcd_write_lem}
use ee459spring.Fifo.{Fifo}
use ee459spring.Main.SetUp.{IsClear, pass_bytes-all}
use ee459spring.Main.Boot.{pass_bytes, System, Setting, start_storage, start_engine, start_display}

module _ (dev : Device) (answers : Answers dev) (set : Setting) where
  open dev use {Card, sector, get_sector, get_some, sector-get}

  -- the io context starts with the card's sector 0 in the input buffer
  initialize_io-fresh :
      (io : IoCtx Card)
      → IsFresh dev (initialize_io dev io).1
        × (stored_byte dev (initialize_io dev io).1.card ≡ stored_byte dev io.card)
  unfolding initialize_io
  initialize_io-fresh io =
      let (buf, got) = given dev answers io.card 0 (omega arith) in
      let c1 = (get_sector io.card 0).1 in
      let (buf', got') = given dev answers c1 0 (omega arith) in
      let same : (a : ℕ) → sector (get_sector c1 0).1 a ≡ sector io.card a =
        λ a. sector-get c1 0 a ∙ sector-get io.card 0 a in
      rw (got, got')
        (
          get_some io.card 0 buf got ∙ sym (same 0),
          fun_ext (λ o. ap (λ (b : List ℕ). get_or b (o % 512) 0) (same (o / 512))),
        )

  -- a card that has started is enabled, with 512 bytes to a sector
  enabled :
      (sd sd' : SdCtx) (b b' : Bus)
      → initialize_sd sd b ≡ some ((0, sd'), b')
      → (sd'.sd_status ≡ SdStatus.enabled) × (sd'.sd_sector_size ≡ 512)
  enabled sd sd' b b' run = elim (subst (Every Outcome) run (initialize_sd-Outcome sd b)) [
    | inl (code, on) ↦ (on.0, on.1)
    | inr (code, off, free) ↦ absurd (omega (arith, code))
  ]

  stored_run :
      (s : System Card) (sd' : SdCtx) (bus' : Bus) (fat : FatCtx) (io' : IoCtx Card)
      → initialize_sd s.sd s.bus ≡ some ((0, sd'), bus')
      → sd'.sd_status ≡ SdStatus.enabled
      → sd'.sd_sector_size ≡ 512
      → initialize_fat32 dev set.fuel false 512 set.stack set.file s.fat32
          (initialize_io dev s.io).1
        ≡ some (0, fat, io')
      → start_storage dev set s ≡ some (record s { sd = sd'; bus = bus'; fat32 = fat; io = io' })
  unfolding start_storage
  stored_run s sd' bus' fat io' run on size ends = rw (run, on, size, ends) refl

  -- the storage after a start that goes well
  unfoldable pub mounted : System Card → SdCtx → Bus → List Found → IoCtx Card → System Card
  mounted s sd' bus' found io' =
      let fat = context_of (stored_byte dev s.io.card) s.fat32 in
      record s {
        sd = sd';
        bus = bus';
        io = io';
        fat32 = with_files fat (map (cached fat set.file.first_cluster) found);
      }

  pub storage_ok :
      (s : System Card) (sd' : SdCtx) (bus' : Bus) (found : List Found)
      → initialize_sd s.sd s.bus ≡ some ((0, sd'), bus')
      → length set.stack ≡ 512
      → is_fat32 (partition_of (stored_byte dev s.io.card)).partition_type ≡ true
      → boot_address (stored_byte dev s.io.card) + 512 ≤ reach
      → Lists
          (stored_byte dev s.io.card)
          (context_of (stored_byte dev s.io.card) s.fat32)
          512
          set.fuel
          16
          0
          found
      → (io' : IoCtx Card) × (start_storage dev set s ≡ some (mounted s sd' bus' found io'))
        × IsFresh dev io'
  unfolding mounted
  storage_ok s sd' bus' found run room fat near listed =
      let (fresh, same) = initialize_io-fresh s.io in
      let (on, size) = enabled s.sd sd' s.bus bus' run in
      let io0 = (initialize_io dev s.io).1 in
      let (io', ends, kept) =
        mount dev answers (stored_byte dev s.io.card) set.fuel 512 set.stack set.file s.fat32 found
          io0 same fresh room fat near listed in
      (io', stored_run s sd' bus' _ io' run on size ends, kept.fresh)

  pub engine_ok :
      (s : System Card) (sent rest sent' rest' : List ℕ) (ops : List ObdCmd)
      → IsClear s.fifo
      → initialize_elm s.board.sent s.board.incoming ≡ (sent, some rest)
      → initialize_obd set.dat sent rest ≡ some (sent', some ops, rest')
      → (fifo' : Fifo) × IsClear fifo'
        × (start_engine dev set s
            ≡ some (record s {
              linked_list = ops;
              fifo = fifo';
              board = record (s.board) { sent = sent'; incoming = rest' };
            }))
  unfolding start_engine
  engine_ok s sent rest sent' rest' ops clear elm obd =
      let incoming = s.board.incoming in
      let read = take (length incoming - length rest') incoming in
      (
        (pass_bytes read s.fifo).1,
        (pass_bytes-all read s.fifo clear).1,
        rw ((pass_bytes-all incoming s.fifo clear).0, elm, obd) refl,
      )

  pub display_ok :
      (s : System Card) (reports : List (ℕ × ℕ)) (cs : List Command) (got : List ℕ)
      → s.board.twi ≡ bus (acks 13 reports) cs got
      → start_display dev set s
        ≡ some (record s {
          board = record (s.board) { buf = greeting; twi = bus reports (frame cs greeting) got };
        })
  unfolding start_display greet
  display_ok s reports cs got t =
      rw
        (lcd_write_lem 0xfe (0x54 ∷ replicate 11 0) 13 (record (s.board) { buf = greeting }) reports
          cs got refl t)
        refl
