-- ===== src/Power.antt =====
-- main/power_management.c: the lock that keeps the chip from light sleep while a debugger is attached.
pub mod Held
use meb_commander.Base.{ℕ, ◌+◌, ◌*◌, Bool, true, false, ◌||◌, not, same, ltb, if◌then◌else◌}
use meb_commander.Esp.{EspErr, esp_ok, no_mem, is_ok}

-- esp_pm_lock_create, esp_pm_lock_acquire and esp_pm_lock_release of the lock, and
-- xTaskCreate of the task that watches the debugger, with whether it returns pdPASS.
pub record PmLock : Type 1 where
  pub World : Type 0
  pub create : World → EspErr × World
  pub acquire : World → EspErr × World
  pub release : World → EspErr × World
  pub create_task : World → Bool × World

module _ (L : PmLock) where
  open L use {World}

  -- `s_debug_pm_lock != NULL` and `s_debug_pm_lock_held`.
  pub record PmState : Type 0 where
    pub created : Bool
    pub held : Bool
    pub world : World

  unfoldable pub set_debug_pm_lock : Bool → PmState → EspErr × PmState
  set_debug_pm_lock hold s =
      let (e, world) = if hold then L.acquire s.world else L.release s.world in
      if not s.created || same hold s.held
      then (esp_ok, s)
      else if is_ok e
      then (esp_ok, record s { held = hold; world = world })
      else (e, record s { world = world })

  -- A round of `debug_pm_task` at the time `now_us`, where `grace_until_us` is the end of the time for
  -- a debugger to attach.
  unfoldable pub debug_pm_round : ℕ → ℕ → Bool → PmState → EspErr × PmState
  unfolding set_debug_pm_lock
  debug_pm_round grace_until_us now_us debugger_attached s =
      set_debug_pm_lock (debugger_attached || ltb now_us grace_until_us) s

  unfoldable pub start_debug_pm_monitor : PmState → EspErr × PmState
  unfolding set_debug_pm_lock
  start_debug_pm_monitor s =
      let (e, world) = L.create s.world in
      let (e', s') = set_debug_pm_lock true (record s { created = true; world = world }) in
      let (task_created, world') = L.create_task s'.world in
      if not (is_ok e)
      then (e, record s { world = world })
      else if not (is_ok e')
      then (e', s')
      else ((if task_created then esp_ok else no_mem), record s' { world = world' })
