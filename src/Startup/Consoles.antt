-- ===== src/Startup/Consoles.antt =====
-- The start of the two consoles, `meb_serial_console_init` in main/serial_console.c and
-- `meb_ble_console_init` in main/ble_console.c, with the callbacks that NimBLE makes when it is ready
-- and when it was reset. The address type that NimBLE infers goes unread into the call that
-- advertises, which is without limit in time, undirected and generally discoverable.
use meb_commander.Base.{ℕ, Bool, true, false, List, [], ◌∷◌, ◌++◌, if◌then◌else◌, codes}
use meb_commander.Base.Int.{ℤ}
use meb_commander.Base.Decimal.{decimal_ℤ}
use meb_commander.Config.{host_uart_tx_gpio, host_uart_rx_gpio, host_uart_baud_rate}
use meb_commander.Esp.{esp_fail, no_mem}
use meb_commander.Event.{Event}
use meb_commander.Settings.{Nvs}
use meb_commander.Startup.{
  Chip, Boot, Fallible, ◌>>◌, done, perform, Service, AdvFields, ignored, unless_installed,
  init_settings, note, uart_write, ble_notify, ble_commands, uart_cmd, ble_cmd, create_mutex,
  create_queue, create_task, uart_param_config, uart_set_pin, uart_driver_install, uart_flush_input,
  nimble_port_init, set_host_callbacks, svc_gap_init, svc_gatt_init, gatts_count_cfg,
  gatts_add_svcs, gap_device_name_set, store_config_init, start_host_task, ensure_addr,
  id_infer_auto, adv_set_fields, adv_rsp_set_fields, adv_start,
}
use meb_commander.Startup.Devices.{call, call_or}

-- `s_service_uuid`, `s_rx_uuid` and `s_tx_uuid`, which differ in the byte `n`.
unfoldable pub uuid_bytes : ℕ → List ℕ
uuid_bytes n =
    0x00 ∷ 0x0e ∷ 0xd9 ∷ 0x7f ∷ 0x0b ∷ 0x9c ∷ 0xf3 ∷ 0x9a ∷ 0x1f ∷ 0x4a ∷ 0xaa ∷ 0xf8 ∷ n ∷ 0xc0
    ∷ 0x57 ∷ 0x7e ∷ []

-- MEB_BLE_DEVICE_NAME
abbrev pub device_name : List ℕ
device_name = codes "MEB-Preheat"

-- `s_gatt_svcs`
unfoldable pub gatt_svcs : Service
unfolding uuid_bytes
gatt_svcs = record {
  uuid = uuid_bytes 0;
  characteristics =
      record {
        uuid = uuid_bytes 1;
        write = true;
        write_no_rsp = true;
        read = false;
        notify = false;
      }
      ∷ record {
        uuid = uuid_bytes 2;
        write = false;
        write_no_rsp = false;
        read = true;
        notify = true;
      }
      ∷ [];
}

unfoldable pub adv_fields : AdvFields
adv_fields = record { disc_gen = true; bredr_unsup = true; name = device_name; uuids128 = [] }

unfoldable pub rsp_fields : AdvFields
unfolding uuid_bytes
rsp_fields = record {
  disc_gen = false;
  bredr_unsup = false;
  name = [];
  uuids128 = uuid_bytes 0 ∷ [];
}

module _ (C : Chip) (N : Nvs) where
  unfoldable pub serial_console_init : Fallible (Boot C N)
  serial_console_init = do
    call_or C N no_mem (create_mutex uart_write)
    call C N (uart_param_config host_uart_baud_rate)
    call C N (uart_set_pin host_uart_tx_gpio host_uart_rx_gpio)
    perform C N (unless_installed (uart_driver_install 1024 2048))
    perform C N (ignored uart_flush_input)
    call_or C N no_mem (create_task uart_cmd 8192 5)

  -- meb_ble_console_init where NimBLE is enabled
  unfoldable pub nimble_console_init : Fallible (Boot C N)
  unfolding gatt_svcs
  nimble_console_init = do
    call_or C N no_mem (create_queue ble_commands 8)
    call_or C N no_mem (create_mutex ble_notify)
    perform C N init_settings
    call C N nimble_port_init
    perform C N (ignored set_host_callbacks)
    perform C N (ignored svc_gap_init)
    perform C N (ignored svc_gatt_init)
    call_or C N esp_fail (gatts_count_cfg gatt_svcs)
    call_or C N esp_fail (gatts_add_svcs gatt_svcs)
    call_or C N esp_fail (gap_device_name_set device_name)
    perform C N (ignored store_config_init)
    call_or C N no_mem (create_task ble_cmd 8192 5)
    perform C N (ignored start_host_task)

  unfoldable pub ble_console_init : Bool → Fallible (Boot C N)
  unfolding nimble_console_init
  ble_console_init ble_enabled = if ble_enabled then nimble_console_init else done

  -- What `advertise` does, which itself returns nothing.
  unfoldable pub advertise : Fallible (Boot C N)
  unfolding adv_fields rsp_fields
  advertise = do
    call C N (adv_set_fields adv_fields)
    call C N (adv_rsp_set_fields rsp_fields)
    call C N adv_start

  unfoldable pub on_reset : ℤ → Boot C N → Boot C N
  unfolding codes decimal_ℤ
  on_reset reason b =
      let event : Event = record {
        component = codes "ble";
        event = codes "host_reset";
        detail = codes "reason=" ++ decimal_ℤ reason;
      } in
      (perform C N (note event) b).1

  -- The end of `on_sync`.
  unfoldable pub begin_service : Fallible (Boot C N)
  unfolding advertise codes
  begin_service b =
      let event : Event = record {
        component = codes "ble";
        event = codes "advertising";
        detail = device_name;
      } in
      perform C N (note event) (advertise (record b { ble_started = true })).1

  unfoldable pub on_sync : Boot C N → Boot C N
  unfolding begin_service
  on_sync b = ((call C N ensure_addr >> call C N id_infer_auto >> begin_service) b).1
