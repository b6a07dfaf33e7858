-- ===== src/Obd/Pids.antt =====
-- src/include/obd.h: the enumeration of the commands of the first mode.
use ee459spring.Base.{ℕ}

pub data ObdPid : Type 0 where
  pids_supported_01_02 monitor_status_since_dtcs_cleared freeze_dtc fuel_system_status : ObdPid
  calculated_engine_load engine_coolant_temp_1 short_term_fuel_trim_1 long_term_fuel_trim_1 : ObdPid
  short_term_fuel_trim_2 long_term_fuel_trim_2 fuel_pressure intake_manifold_abs_pressure_1 : ObdPid
  engine_rpm vehicle_speed timing_advance intake_air_temp_1 maf_rate throttle_position_1 : ObdPid
  commanded_secondary_air_stat total_oxygen_sensors_2_banks oxygen_sensor_1_2_bank : ObdPid
  oxygen_sensor_2_2_bank oxygen_sensor_3_2_bank oxygen_sensor_4_2_bank : ObdPid
  oxygen_sensor_5_2_bank oxygen_sensor_6_2_bank oxygen_sensor_7_2_bank : ObdPid
  oxygen_sensor_8_2_bank obd_standards total_oxygen_sensors_4_banks auxiliary_input_status : ObdPid
  run_time_engine_start pids_supported_21_40 distance_with_mil_on : ObdPid
  fuel_pressure_rel_to_manifold fuel_rail_pressure oxygen_sensor_1_4_bank_volts : ObdPid
  oxygen_sensor_2_4_bank_volts oxygen_sensor_3_4_bank_volts oxygen_sensor_4_4_bank_volts : ObdPid
  oxygen_sensor_5_4_bank_volts oxygen_sensor_6_4_bank_volts oxygen_sensor_7_4_bank_volts : ObdPid
  oxygen_sensor_8_4_bank_volts commanded_egr egr_error commanded_evaporative_purge : ObdPid
  fuel_tank_level_input warm_ups_since_codes_cleared distance_traveled_since_codes_cleared : ObdPid
  evap_system_vapor_pressure_1 abs_barometric_pressure oxygen_sensor_1_4_bank_curr : ObdPid
  oxygen_sensor_2_4_bank_curr oxygen_sensor_3_4_bank_curr oxygen_sensor_4_4_bank_curr : ObdPid
  oxygen_sensor_5_4_bank_curr oxygen_sensor_6_4_bank_curr oxygen_sensor_7_4_bank_curr : ObdPid
  oxygen_sensor_8_4_bank_curr cat_temp_bank_1_sensor_1 cat_temp_bank_2_sensor_1 : ObdPid
  cat_temp_bank_1_sensor_2 cat_temp_bank_2_sensor_2 pids_supported_41_60 : ObdPid
  monitor_status_this_drive_cycle control_module_voltage absolute_load : ObdPid
  commanded_fuel_air_ratio relative_throttle_position ambient_air_temp : ObdPid
  absolute_throttle_position_b absolute_throttle_position_c accelorator_pedal_position_d : ObdPid
  accelorator_pedal_position_e accelorator_pedal_position_f commanded_throttle_actuator : ObdPid
  time_run_with_mil_on time_since_trouble_codes_cleared max_far_o2v_o2c_abs_man_pres : ObdPid
  max_maf_rate fuel_type ethanol_fuel_percent abs_evap_sys_vapor_pres : ObdPid
  evap_system_vapor_pressure_2 secondary_o2_trim_short_term_bank_1_3 : ObdPid
  secondary_o2_trim_long_term_bank_1_3 secondary_o2_trim_short_term_bank_2_4 : ObdPid
  secondary_o2_trim_long_term_bank_2_4 fuel_rail_abs_pressure relative_accel_pedal_pos : ObdPid
  hybrid_battery_pack_life engine_oil_temp fuel_injection_timing engine_fuel_rate_1 : ObdPid
  emissions_requirements pids_supported_61_80 engine_demand_percent_torque : ObdPid
  engine_actual_percent_torque engine_reference_torque engine_data_percent_torque : ObdPid
  aux_io_supported maf_sensor engine_coolant_temp_2 intake_air_temp_2 : ObdPid
  commanded_egr_and_egr_err diesel_intake_air_control exhaust_recirc_temp throttle_control : ObdPid
  fuel_pressure_control injection_pressure_control turbo_inlet_pressure : ObdPid
  boost_pressure_control var_turbo_control wastegate_control exhaust_pressure turbo_rpm : ObdPid
  turbo_temp_1 turbo_temp_2 intercooler_temp exhaust_temp_bank_1 exhaust_temp_bank_2 : ObdPid
  diesel_particulate_filter_1 diesel_particulate_filter_2 diesel_particulate_filter_temp : ObdPid
  nox_control_status pm_control_status engine_run_time pids_supported_81_a0 : ObdPid
  engine_run_time_aux_emmission_1 engine_run_time_aux_emmission_2 nox_sensor : ObdPid
  manifold_surface_temp nox_reagent pm_sensor intake_manifold_abs_pressure_2 : ObdPid
  scr_induce_system run_time_for_aecd_11_15 run_time_for_aecd_16_20 diesel_aftertreatment : ObdPid
  oxygen_wideband throttle_position_2 engine_friction_percent_torque pm_sensor_bank_1_2 : ObdPid
  obd_information_1 obd_information_2 fuel_system_control obd_counters nox_warnging : ObdPid
  exhaust_temp_1 exhaust_temp_2 hybrid_ev_data diesel_exhaust_fluid oxygen_sensor_data : ObdPid
  engine_fuel_rate_2 exhaust_flow_rate fuel_system_percent pids_supported_a1_c0 : ObdPid
  nox_sensor_corrected_data cylinder_fuel_rate evap_system_vapor_pressure_3 : ObdPid
  transmission_gear diesel_exhaust_fluid_treatment odometer : ObdPid

-- The value of each, which the compiler counts from 0.
abbrev pub pid_value : ObdPid → ℕ
pid_value ObdPid.pids_supported_01_02 = 0x00
pid_value ObdPid.monitor_status_since_dtcs_cleared = 0x01
pid_value ObdPid.freeze_dtc = 0x02
pid_value ObdPid.fuel_system_status = 0x03
pid_value ObdPid.calculated_engine_load = 0x04
pid_value ObdPid.engine_coolant_temp_1 = 0x05
pid_value ObdPid.short_term_fuel_trim_1 = 0x06
pid_value ObdPid.long_term_fuel_trim_1 = 0x07
pid_value ObdPid.short_term_fuel_trim_2 = 0x08
pid_value ObdPid.long_term_fuel_trim_2 = 0x09
pid_value ObdPid.fuel_pressure = 0x0a
pid_value ObdPid.intake_manifold_abs_pressure_1 = 0x0b
pid_value ObdPid.engine_rpm = 0x0c
pid_value ObdPid.vehicle_speed = 0x0d
pid_value ObdPid.timing_advance = 0x0e
pid_value ObdPid.intake_air_temp_1 = 0x0f
pid_value ObdPid.maf_rate = 0x10
pid_value ObdPid.throttle_position_1 = 0x11
pid_value ObdPid.commanded_secondary_air_stat = 0x12
pid_value ObdPid.total_oxygen_sensors_2_banks = 0x13
pid_value ObdPid.oxygen_sensor_1_2_bank = 0x14
pid_value ObdPid.oxygen_sensor_2_2_bank = 0x15
pid_value ObdPid.oxygen_sensor_3_2_bank = 0x16
pid_value ObdPid.oxygen_sensor_4_2_bank = 0x17
pid_value ObdPid.oxygen_sensor_5_2_bank = 0x18
pid_value ObdPid.oxygen_sensor_6_2_bank = 0x19
pid_value ObdPid.oxygen_sensor_7_2_bank = 0x1a
pid_value ObdPid.oxygen_sensor_8_2_bank = 0x1b
pid_value ObdPid.obd_standards = 0x1c
pid_value ObdPid.total_oxygen_sensors_4_banks = 0x1d
pid_value ObdPid.auxiliary_input_status = 0x1e
pid_value ObdPid.run_time_engine_start = 0x1f
pid_value ObdPid.pids_supported_21_40 = 0x20
pid_value ObdPid.distance_with_mil_on = 0x21
pid_value ObdPid.fuel_pressure_rel_to_manifold = 0x22
pid_value ObdPid.fuel_rail_pressure = 0x23
pid_value ObdPid.oxygen_sensor_1_4_bank_volts = 0x24
pid_value ObdPid.oxygen_sensor_2_4_bank_volts = 0x25
pid_value ObdPid.oxygen_sensor_3_4_bank_volts = 0x26
pid_value ObdPid.oxygen_sensor_4_4_bank_volts = 0x27
pid_value ObdPid.oxygen_sensor_5_4_bank_volts = 0x28
pid_value ObdPid.oxygen_sensor_6_4_bank_volts = 0x29
pid_value ObdPid.oxygen_sensor_7_4_bank_volts = 0x2a
pid_value ObdPid.oxygen_sensor_8_4_bank_volts = 0x2b
pid_value ObdPid.commanded_egr = 0x2c
pid_value ObdPid.egr_error = 0x2d
pid_value ObdPid.commanded_evaporative_purge = 0x2e
pid_value ObdPid.fuel_tank_level_input = 0x2f
pid_value ObdPid.warm_ups_since_codes_cleared = 0x30
pid_value ObdPid.distance_traveled_since_codes_cleared = 0x31
pid_value ObdPid.evap_system_vapor_pressure_1 = 0x32
pid_value ObdPid.abs_barometric_pressure = 0x33
pid_value ObdPid.oxygen_sensor_1_4_bank_curr = 0x34
pid_value ObdPid.oxygen_sensor_2_4_bank_curr = 0x35
pid_value ObdPid.oxygen_sensor_3_4_bank_curr = 0x36
pid_value ObdPid.oxygen_sensor_4_4_bank_curr = 0x37
pid_value ObdPid.oxygen_sensor_5_4_bank_curr = 0x38
pid_value ObdPid.oxygen_sensor_6_4_bank_curr = 0x39
pid_value ObdPid.oxygen_sensor_7_4_bank_curr = 0x3a
pid_value ObdPid.oxygen_sensor_8_4_bank_curr = 0x3b
pid_value ObdPid.cat_temp_bank_1_sensor_1 = 0x3c
pid_value ObdPid.cat_temp_bank_2_sensor_1 = 0x3d
pid_value ObdPid.cat_temp_bank_1_sensor_2 = 0x3e
pid_value ObdPid.cat_temp_bank_2_sensor_2 = 0x3f
pid_value ObdPid.pids_supported_41_60 = 0x40
pid_value ObdPid.monitor_status_this_drive_cycle = 0x41
pid_value ObdPid.control_module_voltage = 0x42
pid_value ObdPid.absolute_load = 0x43
pid_value ObdPid.commanded_fuel_air_ratio = 0x44
pid_value ObdPid.relative_throttle_position = 0x45
pid_value ObdPid.ambient_air_temp = 0x46
pid_value ObdPid.absolute_throttle_position_b = 0x47
pid_value ObdPid.absolute_throttle_position_c = 0x48
pid_value ObdPid.accelorator_pedal_position_d = 0x49
pid_value ObdPid.accelorator_pedal_position_e = 0x4a
pid_value ObdPid.accelorator_pedal_position_f = 0x4b
pid_value ObdPid.commanded_throttle_actuator = 0x4c
pid_value ObdPid.time_run_with_mil_on = 0x4d
pid_value ObdPid.time_since_trouble_codes_cleared = 0x4e
pid_value ObdPid.max_far_o2v_o2c_abs_man_pres = 0x4f
pid_value ObdPid.max_maf_rate = 0x50
pid_value ObdPid.fuel_type = 0x51
pid_value ObdPid.ethanol_fuel_percent = 0x52
pid_value ObdPid.abs_evap_sys_vapor_pres = 0x53
pid_value ObdPid.evap_system_vapor_pressure_2 = 0x54
pid_value ObdPid.secondary_o2_trim_short_term_bank_1_3 = 0x55
pid_value ObdPid.secondary_o2_trim_long_term_bank_1_3 = 0x56
pid_value ObdPid.secondary_o2_trim_short_term_bank_2_4 = 0x57
pid_value ObdPid.secondary_o2_trim_long_term_bank_2_4 = 0x58
pid_value ObdPid.fuel_rail_abs_pressure = 0x59
pid_value ObdPid.relative_accel_pedal_pos = 0x5a
pid_value ObdPid.hybrid_battery_pack_life = 0x5b
pid_value ObdPid.engine_oil_temp = 0x5c
pid_value ObdPid.fuel_injection_timing = 0x5d
pid_value ObdPid.engine_fuel_rate_1 = 0x5e
pid_value ObdPid.emissions_requirements = 0x5f
pid_value ObdPid.pids_supported_61_80 = 0x60
pid_value ObdPid.engine_demand_percent_torque = 0x61
pid_value ObdPid.engine_actual_percent_torque = 0x62
pid_value ObdPid.engine_reference_torque = 0x63
pid_value ObdPid.engine_data_percent_torque = 0x64
pid_value ObdPid.aux_io_supported = 0x65
pid_value ObdPid.maf_sensor = 0x66
pid_value ObdPid.engine_coolant_temp_2 = 0x67
pid_value ObdPid.intake_air_temp_2 = 0x68
pid_value ObdPid.commanded_egr_and_egr_err = 0x69
pid_value ObdPid.diesel_intake_air_control = 0x6a
pid_value ObdPid.exhaust_recirc_temp = 0x6b
pid_value ObdPid.throttle_control = 0x6c
pid_value ObdPid.fuel_pressure_control = 0x6d
pid_value ObdPid.injection_pressure_control = 0x6e
pid_value ObdPid.turbo_inlet_pressure = 0x6f
pid_value ObdPid.boost_pressure_control = 0x70
pid_value ObdPid.var_turbo_control = 0x71
pid_value ObdPid.wastegate_control = 0x72
pid_value ObdPid.exhaust_pressure = 0x73
pid_value ObdPid.turbo_rpm = 0x74
pid_value ObdPid.turbo_temp_1 = 0x75
pid_value ObdPid.turbo_temp_2 = 0x76
pid_value ObdPid.intercooler_temp = 0x77
pid_value ObdPid.exhaust_temp_bank_1 = 0x78
pid_value ObdPid.exhaust_temp_bank_2 = 0x79
pid_value ObdPid.diesel_particulate_filter_1 = 0x7a
pid_value ObdPid.diesel_particulate_filter_2 = 0x7b
pid_value ObdPid.diesel_particulate_filter_temp = 0x7c
pid_value ObdPid.nox_control_status = 0x7d
pid_value ObdPid.pm_control_status = 0x7e
pid_value ObdPid.engine_run_time = 0x7f
pid_value ObdPid.pids_supported_81_a0 = 0x80
pid_value ObdPid.engine_run_time_aux_emmission_1 = 0x81
pid_value ObdPid.engine_run_time_aux_emmission_2 = 0x82
pid_value ObdPid.nox_sensor = 0x83
pid_value ObdPid.manifold_surface_temp = 0x84
pid_value ObdPid.nox_reagent = 0x85
pid_value ObdPid.pm_sensor = 0x86
pid_value ObdPid.intake_manifold_abs_pressure_2 = 0x87
pid_value ObdPid.scr_induce_system = 0x88
pid_value ObdPid.run_time_for_aecd_11_15 = 0x89
pid_value ObdPid.run_time_for_aecd_16_20 = 0x8a
pid_value ObdPid.diesel_aftertreatment = 0x8b
pid_value ObdPid.oxygen_wideband = 0x8c
pid_value ObdPid.throttle_position_2 = 0x8d
pid_value ObdPid.engine_friction_percent_torque = 0x8e
pid_value ObdPid.pm_sensor_bank_1_2 = 0x8f
pid_value ObdPid.obd_information_1 = 0x90
pid_value ObdPid.obd_information_2 = 0x91
pid_value ObdPid.fuel_system_control = 0x92
pid_value ObdPid.obd_counters = 0x93
pid_value ObdPid.nox_warnging = 0x94
pid_value ObdPid.exhaust_temp_1 = 0x95
pid_value ObdPid.exhaust_temp_2 = 0x96
pid_value ObdPid.hybrid_ev_data = 0x97
pid_value ObdPid.diesel_exhaust_fluid = 0x98
pid_value ObdPid.oxygen_sensor_data = 0x99
pid_value ObdPid.engine_fuel_rate_2 = 0x9a
pid_value ObdPid.exhaust_flow_rate = 0x9b
pid_value ObdPid.fuel_system_percent = 0x9c
pid_value ObdPid.pids_supported_a1_c0 = 0x9d
pid_value ObdPid.nox_sensor_corrected_data = 0x9e
pid_value ObdPid.cylinder_fuel_rate = 0x9f
pid_value ObdPid.evap_system_vapor_pressure_3 = 0xa0
pid_value ObdPid.transmission_gear = 0xa1
pid_value ObdPid.diesel_exhaust_fluid_treatment = 0xa2
pid_value ObdPid.odometer = 0xa3
