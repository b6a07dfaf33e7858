-- ===== src/Obd/Tests.antt =====
-- Runs of src/obd.c, and the theorems about it at concrete inputs.
use ee459spring.Obd.Pids.{ObdPid, pid_value}
use ee459spring.Obd.Supported.{
  row_of, supported_pids, command_of, set_supported_ops-pids, obd_cmds-row,
}
use ee459spring.Obd.Readings.{obd_get_engine_rpm, obd_get_maf_rate, rpm-maf, wrapped}
use ee459spring.Obd.Commands.{obd_cmds}
use ee459spring.Obd.Format.{hex_digits_of, fmt_resp-digits}
use ee459spring.Obd.Decode.{decode_answer-bytes}
use ee459spring.Linked.{Ptr, Heap, done}
use ee459spring.Linked.Chain.{IsList}
use ee459spring.Obd.OnHeap.{set_supported_ops_on_heap, set_supported_ops-IsList}
use ee459spring.Base.{none}
use ee459spring.Obd.Start.{mask_line, mask_of, initialize_obd-mask}
use ee459spring.Obd.{initialize_obd}
use ee459spring.Obd.{
  obd_fmt_resp, obd_resp, no_data, no_connect, decode_answer, obd_cmds, obd_set_supported_ops,
  no_cmd,
}
use ee459spring.Base.{
  c_string, if◌then◌else◌, length, ◌%◌, ◌==◌, is_some, false, ℕ, refl, ◌≡◌, List, [], ◌∷◌, arith,
  codes, get_or, map, ◌++◌, strstr, replicate, some,
}

-- the answer "41 0C 1A F8" to the engine speed command
abbrev rpm_answer : List ℕ
rpm_answer = codes "41 0C 1A F8" ++ (13 ∷ 62 ∷ [])

rpm_run :
    decode_answer (command_of 12) (rpm_answer ++ replicate 51 0)
    ≡ some (0x41 ∷ 0x0c ∷ 0x1a ∷ 0xf8 ∷ [])
unfolding decode_answer strstr
rpm_run = refl

twelfth_row :
    ((get_or obd_cmds 12 no_cmd).obd_pid ≡ 12)
    × ((get_or obd_cmds 12 no_cmd).obd_cmd ≡ command_of 12)
twelfth_row = obd_cmds-row 12 (omega arith)

set_supported_ops-pids_example :
    (obd_set_supported_ops 0xbe1fa813 ≡ map row_of (supported_pids 0xbe1fa813 31 1))
    × (map (λ c. c.obd_pid) (obd_set_supported_ops 0xbe1fa813) ≡ supported_pids 0xbe1fa813 31 1)
set_supported_ops-pids_example = set_supported_ops-pids 0xbe1fa813

abbrev rpm_bytes : List ℕ
rpm_bytes = 0x41 ∷ 0x0c ∷ 0x1a ∷ 0xf8 ∷ []

rpm-maf_example :
    (obd_get_engine_rpm rpm_bytes ≡ wrapped rpm_bytes 4)
    × (obd_get_maf_rate rpm_bytes ≡ wrapped rpm_bytes 100)
rpm-maf_example = rpm-maf rpm_bytes (omega arith) (omega arith)

abbrev filled : List ℕ
filled = rpm_answer ++ replicate 51 0

fmt_resp-digits_example :
    (c_string (obd_fmt_resp filled).1 ≡ hex_digits_of (c_string filled))
    × ((obd_fmt_resp filled).0
        ≡ (if length (hex_digits_of (c_string filled)) % 2 == 0 then 0 else 255))
fmt_resp-digits_example = fmt_resp-digits filled (omega arith)

no_error : is_some (strstr no_data filled) ≡ false
unfolding strstr
no_error = refl

no_fault : is_some (strstr no_connect filled) ≡ false
unfolding strstr
no_fault = refl

starts : obd_resp (command_of 12) filled ≡ some 0
unfolding obd_resp strstr
starts = refl

decode_answer-bytes_example :
    decode_answer (command_of 12) filled ≡ some (0x41 ∷ 0x0c ∷ 0x1a ∷ 0xf8 ∷ [])
decode_answer-bytes_example =
    decode_answer-bytes (command_of 12) filled (0x41 ∷ 0x0c ∷ 0x1a ∷ 0xf8 ∷ []) 0 no_error no_fault
      starts (omega arith) refl refl

-- the names in `obd_cmds`, row by row
abbrev row_names : List ObdPid
row_names =
    ObdPid.pids_supported_01_02 ∷ ObdPid.monitor_status_since_dtcs_cleared ∷ ObdPid.freeze_dtc
    ∷ ObdPid.fuel_system_status ∷ ObdPid.calculated_engine_load ∷ ObdPid.engine_coolant_temp_1
    ∷ ObdPid.short_term_fuel_trim_1 ∷ ObdPid.long_term_fuel_trim_1 ∷ ObdPid.short_term_fuel_trim_2
    ∷ ObdPid.long_term_fuel_trim_2 ∷ ObdPid.fuel_pressure ∷ ObdPid.intake_manifold_abs_pressure_1
    ∷ ObdPid.engine_rpm ∷ ObdPid.vehicle_speed ∷ ObdPid.timing_advance ∷ ObdPid.intake_air_temp_1
    ∷ ObdPid.maf_rate ∷ ObdPid.throttle_position_1 ∷ ObdPid.commanded_secondary_air_stat
    ∷ ObdPid.total_oxygen_sensors_2_banks ∷ ObdPid.oxygen_sensor_1_2_bank
    ∷ ObdPid.oxygen_sensor_2_2_bank ∷ ObdPid.oxygen_sensor_3_2_bank ∷ ObdPid.oxygen_sensor_4_2_bank
    ∷ ObdPid.oxygen_sensor_5_2_bank ∷ ObdPid.oxygen_sensor_6_2_bank ∷ ObdPid.oxygen_sensor_7_2_bank
    ∷ ObdPid.oxygen_sensor_8_2_bank ∷ ObdPid.obd_standards ∷ ObdPid.total_oxygen_sensors_4_banks
    ∷ ObdPid.auxiliary_input_status ∷ ObdPid.run_time_engine_start ∷ []

rows_in_order : map (λ c. c.obd_pid) obd_cmds ≡ map pid_value row_names
rows_in_order = refl

-- the comment in obd.h gives 0xA6
odometer_value : pid_value ObdPid.odometer ≡ 0xa3
odometer_value = refl

initialize_obd-mask_example :
    initialize_obd (replicate 64 7) [] (mask_line 0xbe 0x1f 0xa8 0x13 ++ 62 ∷ (13 ∷ []))
    ≡ some
        ([] ++ codes "0100\r", some (obd_set_supported_ops (mask_of 0xbe 0x1f 0xa8 0x13)), 13 ∷ [])
initialize_obd-mask_example =
    initialize_obd-mask 0xbe 0x1f 0xa8 0x13 refl (replicate 64 7) [] (13 ∷ []) (omega arith)

abbrev empty_heap : Heap
empty_heap = record { fresh = 1; node = λ _. none; block = λ _. none }

set_supported_ops-IsList_example :
    (p : Ptr) × (g : Heap) × (set_supported_ops_on_heap (λ c. c.obd_pid ∷ []) 0xbe1fa813 empty_heap
      ≡ done p g)
    × IsList g p (map (λ c. c.obd_pid ∷ []) (obd_set_supported_ops 0xbe1fa813))
set_supported_ops-IsList_example =
    set_supported_ops-IsList (λ c. c.obd_pid ∷ []) 0xbe1fa813 empty_heap (omega arith)
