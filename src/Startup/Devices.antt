-- ===== src/Startup/Devices.antt =====
-- The start of the devices and of what runs on them: `meb_power_management_init` in
-- main/power_management.c, `meb_status_led_start` in main/status_led.c, `meb_can_init` in
-- main/can_bus.c and `meb_control_start` in main/control.c.
use meb_commander.Base.{ℕ, Bool, false, List, ◌++◌, Option, none, some, if◌then◌else◌, codes}
use meb_commander.Base.Decimal.{decimal}
use meb_commander.Config.{
  pm_min_cpu_freq_mhz, led_gpio, led_count, led_rmt_resolution_hz, host_uart_tx_gpio,
  host_uart_rx_gpio, twai_tx_gpio, twai_rx_gpio, twai_bitrate, twai_data_bitrate,
  can_test_tx_enabled,
}
use meb_commander.Esp.{EspErr, no_mem, not_supported, is_ok}
use meb_commander.Event.{Event}
use meb_commander.Settings.{Nvs}
use meb_commander.Power.{PmLock, start_debug_pm_monitor}
use meb_commander.Can.{tx_slot_count}
use meb_commander.Can.Filters.{Filters, configure_rx_filters}
use meb_commander.Startup.{
  Chip, Build, Boot, Fallible, ◌>>◌, done, perform, NodeConfig, Call, must, must_or, note,
  load_interval, can_rx_frames, debug_pm, status_led, can_rx, can_test_tx, control, telemetry,
  create_queue, create_task, pm_configure, gpio_sleep_sel_dis, pm_lock_create, pm_lock_acquire,
  pm_lock_release, led_strip_new, led_strip_clear, twai_new_node, twai_reconfig_timing,
  twai_mask_filter, twai_range_filter, twai_register_callbacks, twai_enable,
}
use meb_commander.Startup.Timing.{
  bit_timing, data_timing, can_arb_sample_point_permill, can_data_sample_point_permill,
  can_data_ssp_permill,
}

-- MEB_BUILD_MODE and the numbers of the event that `meb_can_init` records.
unfoldable pub build_mode : Bool → List ℕ
unfolding codes
build_mode production = if production then codes "production" else codes "development"

unfoldable pub can_started : Event
unfolding codes decimal
can_started = record {
  component = codes "can";
  event = codes "started";
  detail =
      decimal twai_bitrate
      ++ codes "/"
      ++ decimal twai_data_bitrate
      ++ codes " bit/s sp="
      ++ decimal can_arb_sample_point_permill
      ++ codes "/"
      ++ decimal can_data_sample_point_permill
      ++ codes " ssp="
      ++ decimal can_data_ssp_permill;
}

abbrev pub node_config : NodeConfig
node_config = record {
  tx = twai_tx_gpio;
  rx = twai_rx_gpio;
  bitrate = twai_bitrate;
  data_bitrate = twai_data_bitrate;
  fail_retry_cnt = 3;
  tx_queue_depth = tx_slot_count;
}

module _ (C : Chip) (N : Nvs) where
  -- A call whose failure is passed on, and one whose failure is reported as `code`.
  abbrev pub call : Call → Fallible (Boot C N)
  call c = perform C N (must c)

  abbrev pub call_or : EspErr → Call → Fallible (Boot C N)
  call_or code c = perform C N (must_or code c)

  -- keep_gpio_active_in_light_sleep, where GPIO_NUM_NC is `none`
  abbrev keep_gpio_active : Option ℕ → Fallible (Boot C N)
  keep_gpio_active none = done
  keep_gpio_active (some gpio_num) = call (gpio_sleep_sel_dis gpio_num)

  unfoldable pub configure_light_sleep_gpio_behavior : Bool → Fallible (Boot C N)
  configure_light_sleep_gpio_behavior slp_disable_gpio =
      if slp_disable_gpio
      then (do
        keep_gpio_active (some led_gpio)
        keep_gpio_active (some host_uart_tx_gpio)
        keep_gpio_active (some host_uart_rx_gpio)
        keep_gpio_active (some twai_tx_gpio)
        keep_gpio_active (some twai_rx_gpio))
      else done

  -- The lock of `Power` on the chip.
  abbrev pm_lock : PmLock
  pm_lock = record {
    World = Boot C N;
    create = call pm_lock_create;
    acquire = call pm_lock_acquire;
    release = call pm_lock_release;
    create_task =
        λ b. let (e, b') = call_or no_mem (create_task debug_pm 3072 2) b in (is_ok e, b');
  }

  -- start_debug_pm_monitor from the start values of its static variables
  unfoldable pub start_monitor : Fallible (Boot C N)
  unfolding start_debug_pm_monitor
  start_monitor b =
      let (e, s) =
        start_debug_pm_monitor pm_lock (record { created = false; held = false; world = b }) in
      (e, s.world)

  -- The calls for light sleep, if it is compiled in.
  unfoldable pub light_sleep_init : Build → Fallible (Boot C N)
  unfolding configure_light_sleep_gpio_behavior start_monitor
  light_sleep_init build =
      if build.light_sleep
      then configure_light_sleep_gpio_behavior build.slp_disable_gpio >> start_monitor
      else done

  unfoldable pub power_management_init : Build → Fallible (Boot C N)
  unfolding light_sleep_init
  power_management_init build =
      if build.pm_enabled
      then (call (pm_configure build.max_cpu_freq_mhz pm_min_cpu_freq_mhz build.light_sleep)
          >> light_sleep_init build)
      else done

  unfoldable pub configure_led : Fallible (Boot C N)
  configure_led = do
    call (led_strip_new led_gpio led_count led_rmt_resolution_hz)
    call led_strip_clear

  unfoldable pub status_led_start : Fallible (Boot C N)
  unfolding configure_led
  status_led_start = do configure_led; call_or no_mem (create_task status_led 3072 3)

  unfoldable pub configure_exact_canfd_timing : ℕ → Fallible (Boot C N)
  unfolding data_timing bit_timing
  configure_exact_canfd_timing bitrate b = elim (data_timing bitrate) [
    | none ↦ (not_supported, b)
    | some t ↦ call (twai_reconfig_timing bit_timing t) b
  ]

  -- The filters of `Can.Filters` on the chip.
  abbrev pub filters : Filters
  filters = record {
    World = Boot C N;
    ext_id_mask = C.ext_id_mask;
    config_mask_filter = λ i f. call (twai_mask_filter i f);
    config_range_filter = λ i f. call (twai_range_filter i f);
  }

  unfoldable pub can_init : Fallible (Boot C N)
  unfolding configure_exact_canfd_timing configure_rx_filters can_started
  can_init = do
    call_or no_mem (create_queue can_rx_frames 64)
    call (twai_new_node node_config)
    configure_exact_canfd_timing twai_data_bitrate
    configure_rx_filters filters C.mask_filters
    call twai_register_callbacks
    call twai_enable
    call_or no_mem (create_task can_rx 4096 8)
    perform C N (note can_started)

  unfoldable pub can_start_test_tx : Fallible (Boot C N)
  can_start_test_tx =
      if can_test_tx_enabled then call_or no_mem (create_task can_test_tx 4096 5) else done

  unfoldable pub control_start : Fallible (Boot C N)
  control_start = do
    perform C N load_interval
    call_or no_mem (create_task control 4096 6)
    call_or no_mem (create_task telemetry 4096 4)
