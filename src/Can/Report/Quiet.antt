-- ===== src/Can/Report/Quiet.antt =====
-- What `report_isr_diagnostics` in main/can_bus.c leaves for the next report.
use meb_commander.Base.{ℕ, ◌+◌, ◌%◌, ◌^◌, ◌≡◌, ◌<◌, refl, [], ◌∷◌, Option, arith}
use meb_commander.Event.{numbered}
use meb_commander.Can.{Can}
use meb_commander.Can.Report.{
  ErrorStates, NodeStatus, Reported, since, report_overflow, report_errors, report_states,
  report_failures, report_exhaustion, report_isr_diagnostics,
}

module _ (S : ErrorStates) where
  -- No counter has moved since it was last reported.
  pub record Settled (c : Can) (r : Reported) : Type 0 where
    pub overflow : c.rx_queue_overflow_count ≡ r.last_overflow_count
    pub errors : c.error_event_count ≡ r.last_error_event_count
    pub states : c.state_change_count ≡ r.last_state_change_count
    pub failures : c.tx_failure_count ≡ r.last_tx_failure_count
    pub exhaustion : c.tx_slot_exhaustion_count ≡ r.last_tx_slot_exhaustion_count

  report_overflow_state :
      (c : Can) (r : Reported)
      → (report_overflow S c r).1 ≡ record r { last_overflow_count = c.rx_queue_overflow_count }
  unfolding report_overflow
  report_overflow_state c r = ground arith

  report_errors_state :
      (status : Option NodeStatus) (c : Can) (r : Reported)
      → let (events, c', r') = report_errors S status c r in
        (c' ≡ record c { error_flags_seen = c'.error_flags_seen })
        × (r' ≡ record r { last_error_event_count = c.error_event_count })
  unfolding report_errors
  report_errors_state status c r = ground arith

  report_states_state :
      (status : Option NodeStatus) (c : Can) (r : Reported)
      → let r' = (report_states S status c r).1 in
        r' ≡ record r {
          last_state_change_count = c.state_change_count;
          last_state_entry_count = r'.last_state_entry_count;
        }
  unfolding report_states
  report_states_state status c r = ground arith

  report_failures_state :
      (c : Can) (r : Reported)
      → (report_failures S c r).1 ≡ record r { last_tx_failure_count = c.tx_failure_count }
  unfolding report_failures
  report_failures_state c r = ground arith

  report_exhaustion_state :
      (c : Can) (r : Reported)
      → (report_exhaustion S c r).1
        ≡ record r { last_tx_slot_exhaustion_count = c.tx_slot_exhaustion_count }
  unfolding report_exhaustion
  report_exhaustion_state c r = ground arith

  report_isr_diagnostics-Settled :
      (status : Option NodeStatus) (c : Can) (r : Reported)
      → let (events, c', r') = report_isr_diagnostics S status c r in Settled c' r'
  unfolding report_isr_diagnostics
  report_isr_diagnostics-Settled status c r =
      let r1 = (report_overflow S c r).1 in
      let (events, c', r2) = report_errors S status c r1 in
      let r3 = (report_states S status c' r2).1 in
      let r4 = (report_failures S c' r3).1 in
      let o = report_overflow_state c r in
      let e = report_errors_state status c r1 in
      let s = report_states_state status c' r2 in
      let f = report_failures_state c' r3 in
      let x = report_exhaustion_state c' r4 in
      record { overflow = cc; errors = cc; states = cc; failures = cc; exhaustion = cc }

  Settled-quiet :
      (status : Option NodeStatus) (c : Can) (r : Reported)
      → Settled c r
      → report_isr_diagnostics S status c r ≡ ([], c, r)
  unfolding report_isr_diagnostics report_overflow report_errors report_states report_failures
      report_exhaustion
  Settled-quiet status c r s = simp (o, e, st, f, x) refl
    where
      o : report_overflow S c r ≡ ([], r)
      o = ground (arith, s.overflow)

      e : report_errors S status c r ≡ ([], c, r)
      e = ground (arith, s.errors)

      st : report_states S status c r ≡ ([], r)
      st = ground (arith, s.states)

      f : report_failures S c r ≡ ([], r)
      f = ground (arith, s.failures)

      x : report_exhaustion S c r ≡ ([], r)
      x = ground (arith, s.exhaustion)

  -- A report after a report, with no callback between, says nothing and changes nothing.
  pub report_isr_diagnostics-quiet :
      (status later : Option NodeStatus) (c : Can) (r : Reported)
      → let (events, c', r') = report_isr_diagnostics S status c r in
        report_isr_diagnostics S later c' r' ≡ ([], c', r')
  report_isr_diagnostics-quiet status later c r =
      let (events, c', r') = report_isr_diagnostics S status c r in
      Settled-quiet later c' r' (report_isr_diagnostics-Settled status c r)

  -- A report says how many frames were dropped since the last one, if any were and fewer than
  -- 2 ^ 32, before it says what else it would say.
  pub report_isr_diagnostics-dropped :
      (status : Option NodeStatus) (c : Can) (r : Reported) (dropped : ℕ)
      → 0 < dropped
      → dropped < 2 ^ 32
      → r.last_overflow_count < 2 ^ 32
      → c.rx_queue_overflow_count ≡ (r.last_overflow_count + dropped) % 2 ^ 32
      → let told = record r { last_overflow_count = c.rx_queue_overflow_count } in
        (report_isr_diagnostics S status c r).0
        ≡ numbered "can" "rx_queue_full" "dropped=" dropped
          ∷ (report_isr_diagnostics S status c told).0
  unfolding report_isr_diagnostics report_overflow
  report_isr_diagnostics-dropped status c r dropped p fits small e = simp (first, again) refl
    where
      told : Reported
      told = record r { last_overflow_count = c.rx_queue_overflow_count }

      same : since c.rx_queue_overflow_count r.last_overflow_count ≡ dropped
      same = omega (arith, e)

      first : report_overflow S c r ≡ (numbered "can" "rx_queue_full" "dropped=" dropped ∷ [], told)
      first = ground (arith, same)

      again : report_overflow S c told ≡ ([], told)
      again = ground arith
