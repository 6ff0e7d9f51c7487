-- ===== src/Rpc/Invariant.antt =====
-- What holds of the modules together between the commands of main/serial_console.c.
use meb_commander.Base.{ℕ, ◌≡◌, ◌<◌, ◌≤◌, ◌^◌, List, some, Bool, codes, if-elim}
use meb_commander.Console.Number.{parse_uint_value-bound}
use meb_commander.State
use meb_commander.Ota
use meb_commander.Control
use meb_commander.State.Invariant.{
  IsValid-later, set_heating_enabled-IsValid, set_auto_off_timer_minutes-IsValid,
}
use meb_commander.Ota.Platform.{Platform, Partition}
use meb_commander.Ota.Session.Invariant.{
  update_begin-IsValid, update_write-IsValid, update_end-IsValid, update_cancel-IsValid,
}
use meb_commander.Settings.{Nvs}
use meb_commander.Control.Interval.{change-IsValid}
use meb_commander.Rpc.Machine.{Reads, Build, Machine, schedule_reboot}
use meb_commander.Rpc.Heating.{param}
use meb_commander.Rpc.Command.{process_command}
use meb_commander.Rpc.Change.{
  Change, unchanged, heating, auto_off_timer, interval, begin_update, write_chunk, end_update,
  cancel_update, reset, reboot,
}
use meb_commander.Rpc.Processed.{process_command-Change}

module _ (P : Platform) (N : Nvs) where
  -- The invariants of the modules, at the time `now`.
  pub record IsValid (now : ℕ) (m : Machine P N) : Type 0 where
    pub state : State.Invariant.IsValid now m.state
    pub ota : Ota.Session.Invariant.IsValid m.ota.ota
    pub control : Control.Interval.IsValid N m.control

  -- The partitions for updates are below 2 ^ 31 bytes.
  abbrev pub HasSmallPartitions : Type 0
  HasSmallPartitions =
      (w : P.World) (p : Partition) → P.next_update_partition w ≡ some p → p.size < 2 ^ 31

  pub IsValid-after : (t now : ℕ) {m : Machine P N} → t ≤ now → IsValid t m → IsValid now m
  IsValid-after t now later v = record {
    state = IsValid-later t now later v.state;
    ota = v.ota;
    control = v.control;
  }

  reboots-IsValid :
      (reads : Reads) (now : ℕ) {m : Machine P N}
      → now ≤ reads.set_us
      → IsValid now m
      → IsValid reads.set_us (schedule_reboot P N reads 500 m).1
  unfolding schedule_reboot
  reboots-IsValid reads now {m} later v =
      let after = IsValid-after now reads.set_us later v in
      let both : (Bool × Machine P N) → Type 0 = λ r. IsValid reads.set_us r.1 in
      if-elim both reads.task_created
        (λ made. record { state = after.state; ota = after.ota; control = after.control })
        (λ failed. after)

  Change-IsValid :
      (reads : Reads) (cmd : List ℕ) (now : ℕ) {m m' : Machine P N}
      → HasSmallPartitions
      → 0 < reads.set_us
      → now ≤ reads.set_us
      → IsValid now m
      → Change P N reads cmd m m'
      → IsValid reads.set_us m'
  unfolding codes
  Change-IsValid reads cmd now small positive later v unchanged =
      IsValid-after now reads.set_us later v
  Change-IsValid reads cmd now small positive later v (heating enabled asked parsed) = record {
    state =
        set_heating_enabled-IsValid enabled reads.set_us positive
          (IsValid-after now reads.set_us later v).state;
    ota = v.ota;
    control = v.control;
  }
  Change-IsValid reads cmd now small positive later v (auto_off_timer minutes asked parsed) =
      record {
        state =
            set_auto_off_timer_minutes-IsValid minutes reads.set_us
              (parse_uint_value-bound (param cmd (codes "minutes")) minutes parsed)
              (IsValid-after now reads.set_us later v).state;
        ota = v.ota;
        control = v.control;
      }
  Change-IsValid reads cmd now {m} small positive later v (interval ms asked parsed) = record {
    state = (IsValid-after now reads.set_us later v).state;
    ota = v.ota;
    control = change-IsValid N ms m.control v.control;
  }
  Change-IsValid reads cmd now {m} small positive later v
        (begin_update size sha256 asked parsed found) =
      record {
        state = (IsValid-after now reads.set_us later v).state;
        ota = update_begin-IsValid P size (some sha256) m.ota (small m.ota.world) v.ota;
        control = v.control;
      }
  Change-IsValid reads cmd now {m} small positive later v
        (write_chunk offset text asked parsed found) =
      record {
        state = (IsValid-after now reads.set_us later v).state;
        ota = update_write-IsValid P offset (some text) m.ota v.ota;
        control = v.control;
      }
  Change-IsValid reads cmd now {m} small positive later v (end_update asked) = record {
    state = (IsValid-after now reads.set_us later v).state;
    ota = update_end-IsValid P m.ota v.ota;
    control = v.control;
  }
  Change-IsValid reads cmd now {m} small positive later v (cancel_update asked) = record {
    state = (IsValid-after now reads.set_us later v).state;
    ota = update_cancel-IsValid P m.ota v.ota;
    control = v.control;
  }
  Change-IsValid reads cmd now {m} small positive later v (reset asked) =
      reboots-IsValid reads now later v
  Change-IsValid reads cmd now {m} small positive later v (reboot asked pending) =
      reboots-IsValid reads now later v

  -- Any command keeps the modules valid.
  pub process_command-IsValid :
      (build : Build) (reads : Reads) (cmd : List ℕ) (now : ℕ) (m : Machine P N)
      → HasSmallPartitions
      → 0 < reads.set_us
      → now ≤ reads.set_us
      → IsValid now m
      → IsValid reads.set_us (process_command P N build reads cmd m).machine
  process_command-IsValid build reads cmd now m small positive later v =
      Change-IsValid reads cmd now small positive later v
        (process_command-Change P N build reads cmd m)
