-- ===== src/Power/Held.antt =====
-- When the lock of main/power_management.c is held.
use meb_commander.Base.{
  ℕ, ◌≡◌, Bool, true, false, ◌||◌, List, [], ◌∷◌, ltb, if◌then◌else◌, arith, suc, ◌-◌, ◌∙◌, ap,
}
use meb_commander.Esp.{is_ok}
use meb_commander.Power.{PmLock, PmState, set_debug_pm_lock, debug_pm_round, start_debug_pm_monitor}

module _ (L : PmLock) where
  open L use {World}

  -- The number of times that the lock is acquired and not released, which ESP-IDF counts: a call that
  -- succeeds changes it by one, and one that fails keeps it.
  pub record Laws : Type 1 where
    pub holders : World → ℕ
    pub created_free : (w : World) → is_ok (L.create w).0 ≡ true → holders (L.create w).1 ≡ 0
    pub acquired :
        (w : World)
        → holders (L.acquire w).1 ≡ (if is_ok (L.acquire w).0 then suc (holders w) else holders w)
    pub released :
        (w : World)
        → holders (L.release w).1 ≡ (if is_ok (L.release w).0 then holders w - 1 else holders w)
    pub task_keeps : (w : World) → holders (L.create_task w).1 ≡ holders w

module _ (L : PmLock) (W : Laws L) where
  -- The flag says whether the lock is held, which is at most once.
  pub record IsValid (s : PmState L) : Type 0 where
    pub counted : W.holders s.world ≡ (if s.held then 1 else 0)
    pub made : s.created ≡ true

  pub set_debug_pm_lock-IsValid :
      (hold : Bool) (s : PmState L) → IsValid s → IsValid (set_debug_pm_lock L hold s).1
  unfolding set_debug_pm_lock
  set_debug_pm_lock-IsValid hold s v =
      ground (arith, v.counted, v.made, W.acquired s.world, W.released s.world)

  -- A call that succeeds has the effect that it names.
  set_debug_pm_lock-held :
      (hold : Bool) (s : PmState L)
      → IsValid s
      → is_ok (set_debug_pm_lock L hold s).0 ≡ true
      → (set_debug_pm_lock L hold s).1.held ≡ hold
  unfolding set_debug_pm_lock
  set_debug_pm_lock-held hold s v good = ground (arith, v.made, good)

  -- The static variables at boot, and the start of the monitor.
  abbrev boot : L.World → PmState L
  boot w = record { created = false; held = false; world = w }

  start_debug_pm_monitor-IsValid :
      (w : L.World)
      → is_ok (start_debug_pm_monitor L (boot w)).0 ≡ true
      → IsValid (start_debug_pm_monitor L (boot w)).1
  unfolding start_debug_pm_monitor set_debug_pm_lock
  start_debug_pm_monitor-IsValid w good = ground (
    arith,
    good,
    W.created_free w,
    W.acquired (L.create w).1,
    W.task_keeps (L.acquire (L.create w).1).1,
  )

  -- Rounds at the given times, with a debugger attached or not.
  unfoldable pub rounds : ℕ → List (ℕ × Bool) → PmState L → PmState L
  rounds grace_until_us [] s = s
  rounds grace_until_us ((now, attached) ∷ later) s =
      rounds grace_until_us later (debug_pm_round L grace_until_us now attached s).1

  rounds-IsValid :
      (grace_until_us : ℕ) (ts : List (ℕ × Bool)) (s : PmState L)
      → IsValid s
      → IsValid (rounds grace_until_us ts s)
  unfolding rounds debug_pm_round
  rounds-IsValid grace_until_us [] s v = v
  rounds-IsValid grace_until_us ((now, attached) ∷ later) s v =
      rounds-IsValid grace_until_us later (debug_pm_round L grace_until_us now attached s).1
        (set_debug_pm_lock-IsValid (attached || ltb now grace_until_us) s v)

  -- Once the monitor has started, whatever rounds came before, failed ones among them, after a round
  -- that succeeds the lock is held once if a debugger is attached or the time of grace lasts, and not
  -- at all otherwise.
  pub debug_pm_round-held :
      (w : L.World) (grace_until_us now : ℕ) (attached : Bool) (before : List (ℕ × Bool))
      → is_ok (start_debug_pm_monitor L (boot w)).0 ≡ true
      → let s = rounds grace_until_us before (start_debug_pm_monitor L (boot w)).1 in
        is_ok (debug_pm_round L grace_until_us now attached s).0 ≡ true
        → W.holders (debug_pm_round L grace_until_us now attached s).1.world
          ≡ (if attached || ltb now grace_until_us then 1 else 0)
  unfolding debug_pm_round
  debug_pm_round-held w grace_until_us now attached before started good =
      let s = rounds grace_until_us before (start_debug_pm_monitor L (boot w)).1 in
      let v =
        rounds-IsValid grace_until_us before (start_debug_pm_monitor L (boot w)).1
          (start_debug_pm_monitor-IsValid w started) in
      let wanted = attached || ltb now grace_until_us in
      let held = set_debug_pm_lock-held wanted s v good in
      let v' = set_debug_pm_lock-IsValid wanted s v in
      v'.counted ∙ ap (λ b. if b then 1 else 0) held
