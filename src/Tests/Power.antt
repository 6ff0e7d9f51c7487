-- ===== src/Tests/Power.antt =====
-- The lock of main/power_management.c on a platform that counts its holders.
use meb_commander.Base.{ℕ, suc, ◌-◌, ◌≡◌, refl, Bool, true, false, List, [], ◌∷◌}
use meb_commander.Esp.{esp_ok}
use meb_commander.Power.{PmLock, debug_pm_round, start_debug_pm_monitor}
use meb_commander.Power.Held.{Laws, rounds, debug_pm_round-held}

abbrev counting : PmLock
counting = record {
  World = ℕ;
  create = λ w. (esp_ok, 0);
  acquire = λ w. (esp_ok, suc w);
  release = λ w. (esp_ok, w - 1);
  create_task = λ w. (true, w);
}

abbrev counting_laws : Laws counting
counting_laws = record {
  holders = λ w. w;
  created_free = λ w good. refl;
  acquired = λ w. refl;
  released = λ w. refl;
  task_keeps = λ w. refl;
}

abbrev before : List (ℕ × Bool)
before = (100, false) ∷ (9000, false) ∷ []

-- A debugger that attaches after the time of grace takes the lock again.
debug_pm_round-held_example :
    let s =
      rounds counting counting_laws 5000 before
        (start_debug_pm_monitor counting (record { created = false; held = false; world = 7 })).1 in
    (debug_pm_round counting 5000 9250 true s).1.world ≡ 1
unfolding start_debug_pm_monitor debug_pm_round rounds
debug_pm_round-held_example =
    debug_pm_round-held counting counting_laws 7 5000 9250 true before refl refl
