-- ===== src/Config.antt =====
-- Constants of main/app_config.h, and the build options of main/Kconfig.projbuild that the modelled
-- code depends on.
use meb_commander.Base.{ℕ, ◌*◌, Bool, false}

abbrev pub control_period_ms : ℕ
control_period_ms = 500

abbrev pub telemetry_period_ms : ℕ
telemetry_period_ms = 1000

abbrev pub telemetry_min_period_ms : ℕ
telemetry_min_period_ms = 100

abbrev pub telemetry_max_period_ms : ℕ
telemetry_max_period_ms = 60000

abbrev pub bms_soc_poll_period_ms : ℕ
bms_soc_poll_period_ms = 5000

abbrev pub can_signal_stale_ms : ℕ
can_signal_stale_ms = 30000

abbrev pub led_brightness : ℕ
led_brightness = 12

abbrev pub can_id_diag_req : ℕ
can_id_diag_req = 0x17fc007b

abbrev pub can_id_diag_resp : ℕ
can_id_diag_resp = 0x17fe007b

abbrev pub can_id_heating_status : ℕ
can_id_heating_status = 0x12dd54d2

abbrev pub can_id_charging_optimization : ℕ
can_id_charging_optimization = 0x1a5555b2

abbrev pub can_id_dynamic : ℕ
can_id_dynamic = 0x12dd54d0

abbrev pub can_id_temperature : ℕ
can_id_temperature = 0x16a954a6

abbrev pub temperature_status_under_optimal : ℕ
temperature_status_under_optimal = 1

abbrev pub pm_min_cpu_freq_mhz : ℕ
pm_min_cpu_freq_mhz = 48

abbrev pub led_gpio : ℕ
led_gpio = 27

abbrev pub led_count : ℕ
led_count = 1

abbrev pub led_rmt_resolution_hz : ℕ
led_rmt_resolution_hz = 10 * 1000 * 1000

abbrev pub host_uart_tx_gpio : ℕ
host_uart_tx_gpio = 11

abbrev pub host_uart_rx_gpio : ℕ
host_uart_rx_gpio = 12

abbrev pub host_uart_baud_rate : ℕ
host_uart_baud_rate = 115200

abbrev pub twai_tx_gpio : ℕ
twai_tx_gpio = 4

abbrev pub twai_rx_gpio : ℕ
twai_rx_gpio = 5

abbrev pub twai_bitrate : ℕ
twai_bitrate = 500000

abbrev pub twai_data_bitrate : ℕ
twai_data_bitrate = 2000000

abbrev pub can_test_tx_id : ℕ
can_test_tx_id = 0x12345678

-- MEB_CAN_TEST_TX_ENABLED
abbrev pub can_test_tx_enabled : Bool
can_test_tx_enabled = false

-- MEB_SAFETY_AUTO_OFF_ENABLED and MEB_SAFETY_AUTO_OFF_MINUTES, which the build chooses.
pub record Safety : Type 0 where
  pub enabled : Bool
  pub minutes : ℕ
