-- ===== src/Startup.antt =====
-- The start of the firmware: `app_main` in main/meb-preheat.c and the `meb_*_init` and `meb_*_start`
-- functions that it calls. Each of them is a sequence of calls of ESP-IDF, NimBLE and FreeRTOS, with
-- arguments that are written out here, and of the settings that they store; the chip and the storage
-- are the parameters `Chip` and `Nvs`. What is done is kept in a log, in order. The tasks run from
-- their creation on, which is not in this model of the start.
pub mod Timing
pub mod Devices
pub mod Consoles
pub mod Main
pub mod Runs
pub mod Script
pub mod Order
pub mod Ready
use meb_commander.Base.{ℕ, Bool, true, List, [], ◌∷◌, ◌++◌, if◌then◌else◌}
use meb_commander.Esp.{EspErr, esp_ok, is_ok, next}
use meb_commander.Event.{Event}
use meb_commander.Settings.{Nvs, init}
use meb_commander.Control.{Control, load_telemetry_interval_setting}
use meb_commander.Can.Filters.{MaskFilter, RangeFilter}

pub data Lock : Type 0 where
  diag state uart_write ble_notify : Lock

pub data Queue : Type 0 where
  ble_commands can_rx_frames : Queue

pub data Task : Type 0 where
  debug_pm uart_cmd ble_cmd status_led can_rx can_test_tx control telemetry : Task

-- twai_timing_advanced_config_t
pub record BitTiming : Type 0 where
  pub brp : ℕ
  pub prop_seg : ℕ
  pub tseg_1 : ℕ
  pub tseg_2 : ℕ
  pub sjw : ℕ
  pub ssp_offset : ℕ

-- What varies in twai_onchip_node_config_t.
pub record NodeConfig : Type 0 where
  pub tx : ℕ
  pub rx : ℕ
  pub bitrate : ℕ
  pub data_bitrate : ℕ
  pub fail_retry_cnt : ℕ
  pub tx_queue_depth : ℕ

-- A characteristic of the GATT service: its UUID's bytes, and the operations that it allows.
pub record Characteristic : Type 0 where
  pub uuid : List ℕ
  pub write : Bool
  pub write_no_rsp : Bool
  pub read : Bool
  pub notify : Bool

-- ble_gatt_svc_def
pub record Service : Type 0 where
  pub uuid : List ℕ
  pub characteristics : List Characteristic

-- What the code sets of ble_hs_adv_fields, whose flags are BLE_HS_ADV_F_DISC_GEN and
-- BLE_HS_ADV_F_BREDR_UNSUP.
pub record AdvFields : Type 0 where
  pub disc_gen : Bool
  pub bredr_unsup : Bool
  pub name : List ℕ
  pub uuids128 : List (List ℕ)

-- The calls, with their arguments: the depth of a queue; the stack and the priority of a task; the
-- two clock rates and whether there is light sleep; pins; sizes.
pub data Call : Type 0 where
  create_mutex : Lock → Call
  create_queue : Queue → ℕ → Call
  create_task : Task → ℕ → ℕ → Call
  pm_configure : ℕ → ℕ → Bool → Call
  gpio_sleep_sel_dis : ℕ → Call
  pm_lock_create pm_lock_acquire pm_lock_release : Call
  uart_param_config : ℕ → Call
  uart_set_pin : ℕ → ℕ → Call
  uart_driver_install : ℕ → ℕ → Call
  uart_flush_input : Call
  nimble_port_init set_host_callbacks svc_gap_init svc_gatt_init : Call
  gatts_count_cfg gatts_add_svcs : Service → Call
  gap_device_name_set : List ℕ → Call
  store_config_init start_host_task : Call
  ensure_addr id_infer_auto : Call
  adv_set_fields adv_rsp_set_fields : AdvFields → Call
  adv_start : Call
  led_strip_new : ℕ → ℕ → ℕ → Call
  led_strip_clear : Call
  twai_new_node : NodeConfig → Call
  twai_reconfig_timing : BitTiming → BitTiming → Call
  twai_mask_filter : ℕ → MaskFilter → Call
  twai_range_filter : ℕ → RangeFilter → Call
  twai_register_callbacks twai_enable : Call

-- What the firmware does with a call's failure: it passes the error on, or another one in its place,
-- or it goes on. The other actions are the two that use the settings, and what is told.
pub data Action : Type 0 where
  must : Call → Action
  must_or : EspErr → Call → Action
  ignored : Call → Action
  unless_installed : Call → Action
  init_settings : Action
  load_interval : Action
  note : Event → Action
  print : List ℕ → Action

-- The calls' results, where a handle that is not NULL and pdPASS are ESP_OK, and
-- uart_is_driver_installed. `ext_id_mask` is TWAI_EXT_ID_MASK, and `mask_filters` the number of mask
-- filters of the controller.
pub record Chip : Type 1 where
  pub World : Type 0
  pub perform : Call → World → EspErr × World
  pub driver_installed : World → Bool
  pub ext_id_mask : ℕ
  pub mask_filters : ℕ

-- The options of the build: CONFIG_MEB_PRODUCTION_BUILD, CONFIG_PM_ENABLE,
-- MEB_PM_LIGHT_SLEEP_RUNTIME_ENABLED where power management is enabled, CONFIG_PM_SLP_DISABLE_GPIO,
-- CONFIG_ESP_DEFAULT_CPU_FREQ_MHZ and CONFIG_BT_NIMBLE_ENABLED.
pub record Build : Type 0 where
  pub production : Bool
  pub pm_enabled : Bool
  pub light_sleep : Bool
  pub slp_disable_gpio : Bool
  pub max_cpu_freq_mhz : ℕ
  pub ble_enabled : Bool

-- Something that may fail, and what follows it where it does not.
abbrev pub Fallible : Type 0 → Type 0
Fallible W = W → EspErr × W

infixl 5 ◌>>◌
abbrev pub ◌>>◌ : {W : Type 0} → Fallible W → Fallible W → Fallible W
(m >> follow) b = next (m b) follow

abbrev pub done : {W : Type 0} → Fallible W
done b = (esp_ok, b)

module _ (C : Chip) (N : Nvs) where
  -- The actions done, each with the result that its caller sees; the events recorded in the
  -- diagnostics log; `s_ble_started`; and the telemetry interval with the settings.
  pub record Boot : Type 0 where
    pub world : C.World
    pub control : Control N
    pub ble_started : Bool
    pub log : List (Action × EspErr)
    pub events : List Event

  -- The action's entry, with what the caller sees of it.
  abbrev logged : Action → EspErr → Fallible Boot
  logged a e b = (e, record b { log = b.log ++ ((a, e) ∷ []) })

  unfoldable pub perform : Action → Fallible Boot
  perform (must c) b =
      let (e, world) = C.perform c b.world in logged (must c) e (record b { world = world })
  perform (must_or code c) b =
      let (e, world) = C.perform c b.world in
      logged (must_or code c) (if is_ok e then esp_ok else code) (record b { world = world })
  perform (ignored c) b =
      let (e, world) = C.perform c b.world in logged (ignored c) esp_ok (record b { world = world })
  perform (unless_installed c) b =
      let (e, world) = C.perform c b.world in
      if C.driver_installed b.world
      then logged (unless_installed c) esp_ok b
      else logged (unless_installed c) e (record b { world = world })
  perform init_settings b =
      let (e, settings) = init N b.control.settings in
      logged init_settings e (record b { control = record b.control { settings = settings } })
  perform load_interval b =
      let (e, events, c) = load_telemetry_interval_setting N b.control in
      logged load_interval e (record b { control = c; events = b.events ++ events })
  perform (note event) b =
      logged (note event) esp_ok (record b { events = b.events ++ (event ∷ []) })
  perform (print text) b = logged (print text) esp_ok b
