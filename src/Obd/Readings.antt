-- ===== src/Obd/Readings.antt =====
-- The functions of src/obd.c that turn the bytes of an answer into a number. `int` has 16 bits on the
-- AVR. The number is what they hand to `sprintf`; floats are those of a parameter.
use ee459spring.Base.{
  ℕ, List, get_or, ◌+◌, ℤ, ◌/◌, Option, ◌*◌, ◌<◌, sub_ℕ, int16, pos, div_ℤ, none, ◌≡◌, bit_and,
  some, ◌>>>◌, ◌-◌, arith, if◌then◌else◌, ltb,
}
use ee459spring.Obd.Commands.{Handler}

-- the `float` operations that the code uses
pub record Floats : Type 1 where
  pub Float : Type 0
  pub of_ℕ : ℕ → Float
  -- a decimal constant, as hundredths
  pub hundredths : ℕ → Float
  pub div : Float → Float → Float
  pub sub : Float → Float → Float

-- the argument of `%d` or of `%.2f`
pub data Reading (Float : Type 0) : Type 0 where
  whole : ℤ → Reading Float
  real : Float → Reading Float

-- `res[k]`
abbrev pub res : List ℕ → ℕ → ℕ
res dat k = get_or dat k 0

abbrev pub obd_get_coolant_temp : List ℕ → ℤ
obd_get_coolant_temp dat = sub_ℕ (res dat 2) 40

abbrev pub obd_get_fuel_pressure : List ℕ → ℤ
obd_get_fuel_pressure dat = int16 (res dat 2 * 3)

abbrev pub obd_get_manifold_pressure : List ℕ → ℤ
obd_get_manifold_pressure dat = pos (res dat 2)

-- `res[2] * 256` and the sum are computed in `int` and wrap around.
abbrev pub obd_get_engine_rpm : List ℕ → ℤ
obd_get_engine_rpm dat = div_ℤ (int16 (res dat 2 * 256 + res dat 3)) 4

abbrev pub obd_get_vehicle_speed : List ℕ → ℤ
obd_get_vehicle_speed dat = pos (res dat 2)

abbrev pub obd_get_timing_advance : List ℕ → ℤ
obd_get_timing_advance dat = sub_ℕ (res dat 2 / 2) 64

abbrev pub obd_get_air_temp : List ℕ → ℤ
obd_get_air_temp dat = sub_ℕ (res dat 2) 40

abbrev pub obd_get_maf_rate : List ℕ → ℤ
obd_get_maf_rate dat = div_ℤ (int16 (res dat 2 * 256 + res dat 3)) 100

abbrev pub obd_get_oxygen_sensors : List ℕ → ℤ
obd_get_oxygen_sensors dat = pos (bit_and (res dat 2) 0x0f + bit_and (res dat 2 >>> 4) 0x0f)

module _ (fl : Floats) where
  open fl use {Float, of_ℕ, hundredths, div, sub}

  abbrev pub obd_get_engine_load : List ℕ → Float
  obd_get_engine_load dat = div (of_ℕ (res dat 2)) (hundredths 255)

  abbrev pub obd_get_fuel_trim : List ℕ → Float
  obd_get_fuel_trim dat = sub (div (of_ℕ (res dat 2)) (hundredths 128)) (of_ℕ 100)

  abbrev pub obd_get_throttle_pos : List ℕ → Float
  obd_get_throttle_pos dat = div (of_ℕ (res dat 2)) (hundredths 255)

  -- the division is one of integers
  abbrev pub obd_get_oxygen_data : List ℕ → Float
  obd_get_oxygen_data dat = of_ℕ (res dat 2 / 200)

  -- `(*(cmd->handle_data))(ret, buf, …)`; `none` for `obd_set_supported_ops`, which formats nothing.
  unfoldable pub handle : Handler → List ℕ → Option (Reading Float)
  handle Handler.set_supported_ops dat = none
  handle Handler.get_engine_load dat = some (real (obd_get_engine_load dat))
  handle Handler.get_coolant_temp dat = some (whole (obd_get_coolant_temp dat))
  handle Handler.get_fuel_trim dat = some (real (obd_get_fuel_trim dat))
  handle Handler.get_fuel_pressure dat = some (whole (obd_get_fuel_pressure dat))
  handle Handler.get_manifold_pressure dat = some (whole (obd_get_manifold_pressure dat))
  handle Handler.get_engine_rpm dat = some (whole (obd_get_engine_rpm dat))
  handle Handler.get_vehicle_speed dat = some (whole (obd_get_vehicle_speed dat))
  handle Handler.get_timing_advance dat = some (whole (obd_get_timing_advance dat))
  handle Handler.get_air_temp dat = some (whole (obd_get_air_temp dat))
  handle Handler.get_maf_rate dat = some (whole (obd_get_maf_rate dat))
  handle Handler.get_throttle_pos dat = some (real (obd_get_throttle_pos dat))
  handle Handler.get_oxygen_sensors dat = some (whole (obd_get_oxygen_sensors dat))
  handle Handler.get_oxygen_data dat = some (real (obd_get_oxygen_data dat))

-- the number (256 A + B) / d of an answer of two bytes
abbrev pub two_bytes : List ℕ → ℕ → ℕ
two_bytes dat d = (256 * res dat 2 + res dat 3) / d

-- what the code makes of (256 A + B) / d
abbrev pub wrapped : List ℕ → ℕ → ℤ
wrapped dat d =
    if ltb (res dat 2) 128
    then pos (two_bytes dat d)
    else sub_ℕ 0 ((65536 - (256 * res dat 2 + res dat 3)) / d)

-- The engine speed and the air flow are (256 A + B) / 4 and (256 A + B) / 100 where A is below 128.
-- Above, the sum wraps around: the value is zero or negative.
pub rpm-maf :
    (dat : List ℕ)
    → res dat 2 < 256
    → res dat 3 < 256
    → (obd_get_engine_rpm dat ≡ wrapped dat 4) × (obd_get_maf_rate dat ≡ wrapped dat 100)
rpm-maf dat ha hb = (ground arith, ground arith)
