-- ===== src/Diag/Status.antt =====
-- main/diagnostics.c: what the device reports of its uptime, its last reset and its heap. ESP-IDF
-- gives the readings; a reset reason has its number there.
use meb_commander.Base.{ℕ, ◌/◌, List, codes}

-- esp_reset_reason_t; `unnamed` is a number that the switch does not name.
pub data ResetReason : Type 0 where
  unknown poweron external software panic int_wdt task_wdt wdt deepsleep brownout sdio : ResetReason
  unnamed : ResetReason

-- meb_diag_reset_reason_name
unfoldable pub reset_reason_name : ResetReason → List ℕ
unfolding codes
reset_reason_name poweron = codes "poweron"
reset_reason_name external = codes "external"
reset_reason_name software = codes "software"
reset_reason_name panic = codes "panic"
reset_reason_name int_wdt = codes "interrupt_watchdog"
reset_reason_name task_wdt = codes "task_watchdog"
reset_reason_name wdt = codes "watchdog"
reset_reason_name deepsleep = codes "deepsleep"
reset_reason_name brownout = codes "brownout"
reset_reason_name sdio = codes "sdio"
reset_reason_name unknown = codes "unknown"
reset_reason_name unnamed = codes "other"

-- The heap sizes that ESP-IDF gives.
pub record Heap : Type 0 where
  pub free : ℕ
  pub minimum_free : ℕ
  pub free_8bit : ℕ
  pub minimum_free_8bit : ℕ
  pub largest_free_8bit_block : ℕ

-- meb_diag_status_t; `reset_code` is the number of the reason.
pub record DiagStatus : Type 0 where
  pub uptime_ms : ℕ
  pub reset_reason : ResetReason
  pub reset_code : ℕ
  pub heap : Heap

-- meb_diag_get_status at the time `now_us`
unfoldable pub get_status : ℕ → ResetReason → ℕ → Heap → DiagStatus
get_status now_us reason code heap = record {
  uptime_ms = now_us / 1000;
  reset_reason = reason;
  reset_code = code;
  heap = heap;
}
