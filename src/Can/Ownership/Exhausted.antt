-- ===== src/Can/Ownership/Exhausted.antt =====
-- When a transmission of main/can_bus.c finds no slot.
use meb_commander.Base.{ℕ, ◌≡◌, ◌<◌, ◌≢◌, refl, sym, ◌∙◌, true, List, arith, ◌↔◌}
use meb_commander.Esp.{EspErr}
use meb_commander.Event.{Event}
use meb_commander.Can.{Can, Driver, tx_slot_count, transmit_fd_frame}
use meb_commander.Can.Pool.{
  Transmitted, off, exhausted, refused, taken, transmit_fd_frame-Transmitted,
}
use meb_commander.Can.Ownership.{Laws, Agrees}

module _ (D : Driver) (L : Laws D) where
  open D use {World}
  open L use {holds}

  -- Where the slots in use are those whose frame the driver holds and the node is up, a transmission
  -- finds no slot exactly when the driver holds all eight frames, and only then the count of that
  -- grows.
  pub transmit_fd_frame-exhausted :
      (id : ℕ) (bytes name : List ℕ) (c : Can) (w : World)
      → Agrees D L (c, w)
      → c.ready ≡ true
      → let (e, events, c', w') = transmit_fd_frame D id bytes name c w in
        (c'.tx_slot_exhaustion_count ≢ c.tx_slot_exhaustion_count)
        ↔ ((k : ℕ) → k < tx_slot_count → holds w k ≡ true)
  transmit_fd_frame-exhausted id bytes name c w a on =
      go (transmit_fd_frame-Transmitted D id bytes name c w L.fits)
    where
      go :
          {r : EspErr × List Event × Can × World}
          → Transmitted D id bytes name c w r
          → ((r.2).tx_slot_exhaustion_count ≢ c.tx_slot_exhaustion_count)
            ↔ ((k : ℕ) → k < tx_slot_count → holds w k ≡ true)
      go (off x e) = absurd (ground (arith, on, x))
      go (exhausted all e) = rw e (
        (λ more k h. sym (a.owned k h) ∙ all k (omega (arith, a.count, h))),
        (λ held. λ same. ground (arith, same)),
      )
      go (refused i e w' events l idle t bad p) = rw p (
        (λ more. absurd (more refl)),
        (λ held. absurd (
            ground (
              arith,
              a.owned i (omega (arith, a.count, l)),
              idle,
              held i (omega (arith, a.count, l)),
            ))),
      )
      go (taken i w' l idle t p) = rw p (
        (λ more. absurd (more refl)),
        (λ held. absurd (
            ground (
              arith,
              a.owned i (omega (arith, a.count, l)),
              idle,
              held i (omega (arith, a.count, l)),
            ))),
      )
