-- ===== src/Obd/Commands.antt =====
-- The table `obd_cmds` of src/obd.c.
use ee459spring.Base.{ℕ, List, [], ◌∷◌, codes, Option, none, some, ◌++◌}
use Prim.Native.String.{String}

-- the functions that `handle_data` may point to
pub data Handler : Type 0 where
  set_supported_ops get_engine_load get_coolant_temp get_fuel_trim get_fuel_pressure : Handler
  get_manifold_pressure get_engine_rpm get_vehicle_speed get_timing_advance get_air_temp : Handler
  get_maf_rate get_throttle_pos get_oxygen_sensors get_oxygen_data : Handler

-- `struct obd_cmd`; a null pointer is `none`
pub record ObdCmd : Type 0 where
  pub obd_pid : ℕ
  pub resp_bytes : ℕ
  pub obd_units : Option String
  pub obd_cmd : List ℕ
  pub cmd_str : String
  pub handle_data : Option Handler

-- one row; `digits` are the four digits before the carriage return
abbrev row : ℕ → ℕ → Option String → String → String → Option Handler → ObdCmd
row pid bytes units digits name handler = record {
  obd_pid = pid;
  resp_bytes = bytes;
  obd_units = units;
  obd_cmd = codes digits ++ (13 ∷ []);
  cmd_str = name;
  handle_data = handler;
}

-- rows 0x00 to 0x0f, whose `obd_pid` are the first values of the enumeration in obd.h
abbrev pub obd_cmds_low : List ObdCmd
obd_cmds_low =
    (row 0x00 4 none "0100" "PIDS SUPPORTED 01 02" (some Handler.set_supported_ops))
    ∷ (row 0x01 4 none "0101" "MONITOR STATUS SINCE DTCS CLEARED" none)
    ∷ (row 0x02 2 none "0102" "FREEZE DTC" none)
    ∷ (row 0x03 2 none "0103" "FUEL SYSTEM STATUS" none)
    ∷ (row 0x04 1 (some "%") "0104" "CALCULATED ENGINE LOAD" (some Handler.get_engine_load))
    ∷ (row 0x05 1 (some "* Celsius") "0105" "ENGINE COOLANT TEMP 1" (some Handler.get_coolant_temp))
    ∷ (row 0x06 1 (some "%") "0106" "SHORT TERM FUEL TRIM 1" (some Handler.get_fuel_trim))
    ∷ (row 0x07 1 (some "%") "0107" "LONG TERM FUEL TRIM 1" (some Handler.get_fuel_trim))
    ∷ (row 0x08 1 (some "%") "0108" "SHORT TERM FUEL TRIM 2" (some Handler.get_fuel_trim))
    ∷ (row 0x09 1 (some "%") "0109" "LONG TERM FUEL TRIM 2" (some Handler.get_fuel_trim))
    ∷ (row 0x0a 1 (some "kPa") "010A" "FUEL PRESSURE" (some Handler.get_fuel_pressure))
    ∷ (row 0x0b 1 (some "kPa") "010B" "INTAKE MANIFOLD ABS PRESSURE 1"
        (some Handler.get_manifold_pressure))
    ∷ (row 0x0c 2 (some "rpm") "010C" "ENGINE RPM" (some Handler.get_engine_rpm))
    ∷ (row 0x0d 1 (some "km/h") "010D" "VEHICLE SPEED" (some Handler.get_vehicle_speed))
    ∷ (row 0x0e 1 (some "° before TDC") "010E" "TIMING ADVANCE" (some Handler.get_timing_advance))
    ∷ (row 0x0f 1 (some "° Celsius") "010F" "INTAKE AIR TEMP 1" (some Handler.get_air_temp))
    ∷ []

-- rows 0x10 to 0x1f
abbrev pub obd_cmds_high : List ObdCmd
obd_cmds_high =
    (row 0x10 2 (some "g/s") "0110" "MAF RATE" (some Handler.get_maf_rate))
    ∷ (row 0x11 1 (some "%") "0111" "THROTTLE POSITION 1" (some Handler.get_throttle_pos))
    ∷ (row 0x12 1 none "0112" "COMMANDED SECONDARY AIR STAT" none)
    ∷ (row 0x13 1 (some "Sensor(s)") "0113" "TOTAL OXYGEN SENSORS 2 BANKS"
        (some Handler.get_oxygen_sensors))
    ∷ (row 0x14 2 (some "Volts") "0114" "OXYGEN SENSOR 1 2 BANK" (some Handler.get_oxygen_data))
    ∷ (row 0x15 2 (some "Volts") "0115" "OXYGEN SENSOR 2 2 BANK" (some Handler.get_oxygen_data))
    ∷ (row 0x16 2 (some "Volts") "0116" "OXYGEN SENSOR 3 2 BANK" (some Handler.get_oxygen_data))
    ∷ (row 0x17 2 (some "Volts") "0117" "OXYGEN SENSOR 4 2 BANK" (some Handler.get_oxygen_data))
    ∷ (row 0x18 2 (some "Volts") "0118" "OXYGEN SENSOR 5 2 BANK" (some Handler.get_oxygen_data))
    ∷ (row 0x19 2 (some "Volts") "0119" "OXYGEN SENSOR 6 2 BANK" (some Handler.get_oxygen_data))
    ∷ (row 0x1a 2 (some "Volts") "011A" " OXYGEN SENSOR 7 2 BANK" (some Handler.get_oxygen_data))
    ∷ (row 0x1b 2 (some "Volts") "011B" "OXYGEN SENSOR 8 2 BANK" (some Handler.get_oxygen_data))
    ∷ (row 0x1c 1 none "011C" "OBD STANDARDS" none)
    ∷ (row 0x1d 1 none "011D" "TOTAL OXYGEN SENSORS 4 BANKS" none)
    ∷ (row 0x1e 1 none "011E" "AUXILIARY INPUT STATUS" none)
    ∷ (row 0x1f 2 (some "s") "011F" "RUN TIME ENGINE START" none)
    ∷ []

abbrev pub obd_cmds : List ObdCmd
obd_cmds = obd_cmds_low ++ obd_cmds_high
