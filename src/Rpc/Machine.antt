-- ===== src/Rpc/Machine.antt =====
-- What the commands of main/serial_console.c act on: the state of the modules that they call.
use meb_commander.Base.{ℕ, suc, Bool, List, [], ◌∷◌, true, false, if◌then◌else◌}
use meb_commander.Config.{Safety}
use meb_commander.Event.{Event}
use meb_commander.State.{AppState}
use meb_commander.Ota.Platform.{Platform}
use meb_commander.Ota.Session.{Device}
use meb_commander.Settings.{Nvs}
use meb_commander.Control.{Control}
use meb_commander.Diag.{Log, Reading, record_event}
use meb_commander.Diag.Status.{DiagStatus}
use meb_commander.Can.{Can}
use meb_commander.Can.Diagnostics.{NodeInfo}

-- What a command reads of the system while it runs: the times at which it sets the state and takes
-- the snapshot, the status for `meb_diag_get_status`, the CAN controller's, whether xTaskCreate makes
-- the task that reboots, and the timer and heap when its first event is recorded, its second and so on.
pub record Reads : Type 0 where
  pub set_us : ℕ
  pub snapshot_us : ℕ
  pub status : DiagStatus
  pub node_info : NodeInfo
  pub task_created : Bool
  pub recorded : ℕ → Reading

-- The build: the automatic end of heating, and whether it is a production build.
pub record Build : Type 0 where
  pub safety : Safety
  pub production : Bool

module _ (P : Platform) (N : Nvs) where
  -- `reboots` are the delays of the tasks that reboot, the last first.
  pub record Machine : Type 0 where
    pub state : AppState
    pub ota : Device P
    pub control : Control N
    pub log : Log
    pub can : Can
    pub reboots : List ℕ

  -- The machine after a command, the events that it records, and what it prints, in order.
  pub record Outcome : Type 0 where
    pub machine : Machine
    pub events : List Event
    pub lines : List (List ℕ)

  -- A reply that changes nothing.
  abbrev pub reply : Machine → List (List ℕ) → Outcome
  reply m lines = record { machine = m; events = []; lines = lines }

  -- meb_ota_update_schedule_reboot: the machine with one more task, if xTaskCreate makes one.
  unfoldable pub schedule_reboot : Reads → ℕ → Machine → Bool × Machine
  schedule_reboot reads delay_ms m =
      if reads.task_created then (true, record m { reboots = delay_ms ∷ m.reboots }) else (false, m)

-- `meb_diag_record_event` for each of the events, from the n-th that the command records.
unfoldable pub note_events : Reads → ℕ → List Event → Log → Log
unfolding record_event
note_events reads n [] l = l
note_events reads n (e ∷ events) l =
    note_events reads (suc n) events (record_event (reads.recorded n) e l)

module _ (P : Platform) (N : Nvs) where
  -- The machine that a command leaves, its events being in the log. No command that reads the log
  -- records an event before that.
  unfoldable pub noted : Reads → Outcome P N → Machine P N
  unfolding note_events
  noted reads r = record (r.machine) { log = note_events reads 0 r.events r.machine.log }
