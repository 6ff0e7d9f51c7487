-- ===== src/Control/Rounds.antt =====
-- When a round of the tasks in main/control.c sends a frame.
use meb_commander.Base.{
  ℕ, ◌+◌, ◌*◌, ◌≡◌, ◌<◌, ◌≤◌, refl, ◌∙◌, true, false, List, [], ◌∷◌, Bool-cases, inl, inr, arith,
  ◌⊎◌,
}
use meb_commander.Config.{Safety, temperature_status_under_optimal, bms_soc_poll_period_ms}
use meb_commander.Esp.{esp_ok}
use meb_commander.State.{
  AppState, minutes_to_us, can_signal_stale_us, apply_auto_off, safety_auto_off_deadline,
  get_snapshot, invalidate_stale_can_signals, can_signal_is_fresh, effective_auto_off_deadline,
}
use meb_commander.Can.{Can, Driver, request_bms_soc}
use meb_commander.Control.{wants_heat, control_round, soc_round}

-- Heat is wanted only in a state that has heating enabled, and whose last temperature status is
-- "under optimal" and less than thirty seconds old.
wants_heat_lem :
    (cfg : Safety) (t : ℕ) (s : AppState)
    → wants_heat (get_snapshot cfg t s) ≡ true
    → (s.state.heating_enabled ≡ true)
      × (s.state.temperature_status_charge.value ≡ temperature_status_under_optimal)
      × (t < s.temperature_status_charge_seen_us + can_signal_stale_us)
unfolding wants_heat get_snapshot invalidate_stale_can_signals can_signal_is_fresh
wants_heat_lem cfg t s h = ground arith

-- A check at or after the safety limit leaves heating off.
auto_off_at_limit :
    (cfg : Safety) (t : ℕ) (s : AppState)
    → cfg.enabled ≡ true
    → 0 < cfg.minutes
    → 0 < s.heating_enabled_since_us
    → s.heating_enabled_since_us + minutes_to_us cfg.minutes ≤ t
    → (apply_auto_off cfg t s).0.state.heating_enabled ≡ false
unfolding apply_auto_off effective_auto_off_deadline safety_auto_off_deadline
auto_off_at_limit cfg t s on m since late = ground arith

module _ (D : Driver) (cfg : Safety) where
  round-quiet :
      (t t' : ℕ) (between later : AppState → AppState) (s : AppState) (can : Can) (world : D.World)
      → wants_heat (get_snapshot cfg t' (between (apply_auto_off cfg t s).0)) ≡ false
      → let (s', events, lines, can', world') =
          control_round D cfg t t' between later s can world in
        (can' ≡ can) × (world' ≡ world)
  unfolding control_round
  round-quiet t t' between later s can world h = simp h (refl, refl)

  -- If a round of the control task reaches the bus, by changing the driver or the slots, then in the
  -- state that it looked at heating was enabled, and the last temperature status was "under optimal"
  -- and less than thirty seconds old; whatever the other tasks do during the round.
  pub control_round-request :
      (t t' : ℕ) (between later : AppState → AppState) (s : AppState) (can : Can) (world : D.World)
      → let (s', events, lines, can', world') =
          control_round D cfg t t' between later s can world in
        let seen = between (apply_auto_off cfg t s).0 in
        ((can' ≡ can) × (world' ≡ world))
        ⊎ ((seen.state.heating_enabled ≡ true)
            × (seen.state.temperature_status_charge.value ≡ temperature_status_under_optimal)
            × (t' < seen.temperature_status_charge_seen_us + can_signal_stale_us))
  control_round-request t t' between later s can world =
      let seen = between (apply_auto_off cfg t s).0 in
      elim (Bool-cases (wants_heat (get_snapshot cfg t' seen))) [
        | inl wanted ↦ inr (wants_heat_lem cfg t' seen wanted)
        | inr unwanted ↦ inl (round-quiet t t' between later s can world unwanted)
      ]

  -- With the safety limit built in, a round of the control task at or after the limit finds heating
  -- off or switches it off, and sends nothing, unless another task enables heating again meanwhile.
  pub control_round-limit :
      (t t' : ℕ) (between later : AppState → AppState) (s : AppState) (can : Can) (world : D.World)
      → cfg.enabled ≡ true
      → 0 < cfg.minutes
      → 0 < s.heating_enabled_since_us
      → s.heating_enabled_since_us + minutes_to_us cfg.minutes ≤ t
      → (between (apply_auto_off cfg t s).0).state.heating_enabled
        ≡ (apply_auto_off cfg t s).0.state.heating_enabled
      → let (s', events, lines, can', world') =
          control_round D cfg t t' between later s can world in
        ((apply_auto_off cfg t s).0.state.heating_enabled ≡ false) × (can' ≡ can) × (world' ≡ world)
  control_round-limit t t' between later s can world on m since late kept =
      let ended = at_limit in
      let (same, still) = round-quiet t t' between later s can world (unwanted (kept ∙ ended)) in
      (ended, same, still)
    where
      at_limit : (apply_auto_off cfg t s).0.state.heating_enabled ≡ false
      at_limit = auto_off_at_limit cfg t s on m since late

      unwanted :
          (between (apply_auto_off cfg t s).0).state.heating_enabled ≡ false
          → wants_heat (get_snapshot cfg t' (between (apply_auto_off cfg t s).0)) ≡ false
      unwanted off =
          let seen = between (apply_auto_off cfg t s).0 in
          elim (Bool-cases (wants_heat (get_snapshot cfg t' seen))) [
            | inr quiet ↦ quiet
            | inl wanted ↦
                let (enabled, status, fresh) = wants_heat_lem cfg t' seen wanted in
                absurd (ground (arith, off, enabled))
          ]

module _ (D : Driver) where
  -- Rounds of the telemetry task one after another, each at its time.
  abbrev pub soc_rounds : List ℕ → ℕ → Can → D.World → ℕ × Can × D.World
  soc_rounds [] due can world = (due, can, world)
  soc_rounds (now ∷ times) due can world =
      let (due', events, can', world') = soc_round D now due can world in
      soc_rounds times due' can' world'

  abbrev pub AllBefore : ℕ → List ℕ → Type 0
  AllBefore limit [] = Unit
  AllBefore limit (now ∷ times) = (now < limit) × AllBefore limit times

  soc_rounds-early :
      (times : List ℕ) (due : ℕ) (can : Can) (world : D.World)
      → AllBefore due times
      → soc_rounds times due can world ≡ (due, can, world)
  unfolding soc_round
  soc_rounds-early [] due can world h = refl
  soc_rounds-early (now ∷ times) due can world (h, more) =
      let quiet : soc_round D now due can world ≡ (due, [], can, world) = ground arith in
      simp quiet (soc_rounds-early times due can world more)

  -- After a round that asked for the state of charge and got ESP_OK, the rounds of the next five
  -- seconds send nothing, and leave the slots and the driver as they are.
  pub soc_round-spacing :
      (now due : ℕ) (times : List ℕ) (can : Can) (world : D.World)
      → due ≤ now
      → (request_bms_soc D can world).0 ≡ esp_ok
      → AllBefore (now + bms_soc_poll_period_ms * 1000) times
      → let (due', events, can', world') = soc_round D now due can world in
        soc_rounds times due' can' world' ≡ (due', can', world')
  unfolding soc_round
  soc_round-spacing now due times can world h ok early =
      let (due', events, can', world') = soc_round D now due can world in
      let later : (soc_round D now due can world).0 ≡ now + bms_soc_poll_period_ms * 1000 =
        ground arith in
      soc_rounds-early times due' can' world' (rw later early)
