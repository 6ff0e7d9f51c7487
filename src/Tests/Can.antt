-- ===== src/Tests/Can.antt =====
-- The CAN bus on a driver that takes every frame and keeps it.
use meb_commander.Base.{
  ℕ, ◌≡◌, refl, ap, sym, Bool, true, false, List, [], ◌∷◌, none, if◌then◌else◌, ◌==◌, get_or, codes,
  arith,
}
use meb_commander.Config.{can_id_diag_req}
use meb_commander.Esp.{EspErr, esp_ok}
use meb_commander.Event.{Event}
use meb_commander.Can.{Can, Driver, fresh, empty_slot, transmit_fd_frame}
use meb_commander.Can.Ownership.{
  Laws, Steps, Agrees, sent, stop, next, fresh-Agrees, Steps-Agrees, transmit_fd_frame-held,
}

abbrev pub keeper : Driver
keeper = record {
  World = ℕ → Bool;
  fd_frame_max_len = 64;
  classic_frame_max_len = 8;
  len2dlc = λ n. n;
  dlc2len = λ n. n;
  transmit = λ i s wait w. (esp_ok, λ k. if k == i then true else w k);
  receive_from_isr = λ w. (none, w);
  queue_send = λ m w. (true, w);
  queue_receive = λ w. (none, w);
  err_to_name = λ e. [];
}

pub keeper_laws : Laws keeper
keeper_laws = record {
  holds = λ w k. w k;
  holds_taken = λ i wait s w w' e k. sym (ap (λ (x : EspErr × (ℕ → Bool)). x.1 k) e);
  holds_refused =
      λ i wait s e w w' p bad k. absurd (bad (sym (ap (λ (x : EspErr × (ℕ → Bool)). x.0) p)));
  fits = omega arith;
}

abbrev pub idle_bus : ℕ → Bool
idle_bus k = false

abbrev request : List ℕ
request = 3 ∷ 34 ∷ 2 ∷ 140 ∷ 85 ∷ 85 ∷ 85 ∷ 85 ∷ []

idle_start : Agrees keeper keeper_laws (fresh, idle_bus)
unfolding keeper_laws
idle_start = fresh-Agrees keeper keeper_laws idle_bus (λ k. refl)

abbrev after : EspErr × List Event × Can × (ℕ → Bool)
after = transmit_fd_frame keeper can_id_diag_req request (codes "bms_soc") fresh idle_bus

one_frame : Steps keeper keeper_laws (fresh, idle_bus) (after.2, after.3)
one_frame =
    next (sent can_id_diag_req request (codes "bms_soc") fresh idle_bus) (stop (after.2, after.3))

Steps-Agrees_example : Agrees keeper keeper_laws (after.2, after.3)
Steps-Agrees_example = Steps-Agrees keeper keeper_laws one_frame idle_start

transmit_fd_frame-held_example :
    let (e, events, c', w') =
      transmit_fd_frame keeper can_id_diag_req request (codes "bms_soc") after.2 after.3 in
    get_or c'.tx_slots 0 empty_slot ≡ get_or after.2.tx_slots 0 empty_slot
unfolding keeper_laws transmit_fd_frame
transmit_fd_frame-held_example =
    transmit_fd_frame-held keeper keeper_laws can_id_diag_req request (codes "bms_soc") after.2
      after.3 0 Steps-Agrees_again (omega arith) refl
  where
    Steps-Agrees_again : Agrees keeper keeper_laws (after.2, after.3)
    Steps-Agrees_again = Steps-Agrees keeper keeper_laws one_frame idle_start
