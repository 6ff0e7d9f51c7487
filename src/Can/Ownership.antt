-- ===== src/Can/Ownership.antt =====
-- Which transmit slots of main/can_bus.c are in use, against which frames the TWAI driver holds.
pub mod Exhausted
use meb_commander.Base.{
  ℕ, ◌≡◌, ◌≤◌, ◌<◌, ◌≢◌, refl, ap, sym, ◌∙◌, Bool, true, false, List, some, length, set, get_or,
  arith, ◌==◌, ==_iff, ◌↔◌, if◌then◌else◌, Bool-cases, inl, inr, get_or-replicate, get_or-set_self,
  get_or-set_ne, length-set,
}
use meb_commander.Esp.{EspErr, esp_ok}
use meb_commander.Event.{Event}
use meb_commander.Can.{
  Can, Driver, TxSlot, fresh, empty_slot, tx_slot_count, release_at, release_tx_slot_from_isr,
  tx_done_callback, error_callback, state_change_callback, transmit_fd_frame, fill_slot,
}
use meb_commander.Can.Pool.{
  Transmitted, off, exhausted, refused, taken, transmit_fd_frame-Transmitted, loaded,
}
use meb_commander.Can.Pool.InUse.{get_or-set_in_use, length-release_at, get_or-release_at_in_use}

module _ (D : Driver) where
  open D use {World}

  -- The driver keeps a frame that it took until it reports it as done, and no frame that it refused.
  pub record Laws : Type 1 where
    pub holds : World → ℕ → Bool
    pub holds_taken :
        (i wait : ℕ) (s : TxSlot) (w w' : World)
        → D.transmit i s wait w ≡ (esp_ok, w')
        → (k : ℕ) → holds w' k ≡ (if k == i then true else holds w k)
    pub holds_refused :
        (i wait : ℕ) (s : TxSlot) (e : EspErr) (w w' : World)
        → D.transmit i s wait w ≡ (e, w')
        → e ≢ esp_ok
        → (k : ℕ) → holds w' k ≡ holds w k
    pub fits : 8 ≤ D.fd_frame_max_len

module _ (D : Driver) (L : Laws D) where
  open D use {World}
  open L use {holds}

  -- The calls of the tasks and of the driver, one after another. The driver reports a frame as done
  -- that it holds, and then holds it no more.
  pub data Step : Can × World → Can × World → Type 0 where
    sent :
        (id : ℕ) (bytes name : List ℕ) (c : Can) (w : World)
        → Step
            (c, w)
            ((transmit_fd_frame D id bytes name c w).2, (transmit_fd_frame D id bytes name c w).3)
    done :
        (i : ℕ) (success : Bool) (c : Can) (w w' : World)
        → holds w i ≡ true
        → ((k : ℕ) → holds w' k ≡ (if k == i then false else holds w k))
        → Step (c, w) (tx_done_callback (some i) success c, w')
    error : (flags : ℕ) (c : Can) (w : World) → Step (c, w) (error_callback flags c, w)
    changed : (old new : ℕ) (c : Can) (w : World) → Step (c, w) (state_change_callback old new c, w)

  pub data Steps : Can × World → Can × World → Type 0 where
    stop : (s : Can × World) → Steps s s
    next : {s t u : Can × World} → Step s t → Steps t u → Steps s u

  -- The slots in use are those whose frame the driver holds.
  pub record Agrees (s : Can × World) : Type 0 where
    pub count : length (s.0).tx_slots ≡ tx_slot_count
    pub owned :
        (k : ℕ) → k < tx_slot_count → (get_or (s.0).tx_slots k empty_slot).in_use ≡ holds s.1 k

  pub fresh-Agrees : (w : World) → ((k : ℕ) → holds w k ≡ false) → Agrees (fresh, w)
  fresh-Agrees w none = record {
    count = refl;
    owned = λ k h.
        ap (λ (s : TxSlot). s.in_use) (get_or-replicate tx_slot_count k empty_slot) ∙ sym (none k);
  }

  tx_done-Agrees :
      (i : ℕ) (success : Bool) (c : Can) (w w' : World)
      → ((k : ℕ) → holds w' k ≡ (if k == i then false else holds w k))
      → Agrees (c, w)
      → Agrees (tx_done_callback (some i) success c, w')
  unfolding tx_done_callback release_tx_slot_from_isr release_at
  tx_done-Agrees i success c w w' gone a = record {
    count = ground (
      arith,
      a.count,
      length-set c.tx_slots i (record (get_or c.tx_slots i empty_slot) { in_use = false }),
    );
    owned = λ k h. ground (
      arith,
      a.owned k h,
      gone k,
      get_or-set_in_use c.tx_slots i k (record (get_or c.tx_slots i empty_slot) { in_use = false }),
    );
  }

  transmit-Agrees :
      (id : ℕ) (bytes name : List ℕ) (c : Can) (w : World)
      → Agrees (c, w)
      → let (e, events, c', w') = transmit_fd_frame D id bytes name c w in Agrees (c', w')
  unfolding fill_slot
  transmit-Agrees id bytes name c w a =
      go (transmit_fd_frame-Transmitted D id bytes name c w L.fits)
    where
      go :
          {r : EspErr × List Event × Can × World}
          → Transmitted D id bytes name c w r
          → Agrees (r.2, r.3)
      go (off h e) = rw e a
      go (exhausted all e) = rw e (record { count = a.count; owned = a.owned })
      go (refused i e w' events k idle t bad p) = rw p (record {
        count =
            length-release_at (set c.tx_slots i (loaded D id bytes c i)) i
            ∙ length-set c.tx_slots i (loaded D id bytes c i)
            ∙ a.count;
        owned = λ j h.
            get_or-release_at_in_use c.tx_slots i j (loaded D id bytes c i) k idle
            ∙ a.owned j h
            ∙ sym (L.holds_refused i 500 (loaded D id bytes c i) e w w' t (λ z. ground arith) j);
      })
      go (taken i w' k idle t p) = rw p (record {
        count = length-set c.tx_slots i (loaded D id bytes c i) ∙ a.count;
        owned = λ j h. ground (
          arith,
          get_or-set_in_use c.tx_slots i j (loaded D id bytes c i) k,
          a.owned j h,
          L.holds_taken i 500 (loaded D id bytes c i) w w' t j,
        );
      })

  Step-Agrees : {s t : Can × World} → Step s t → Agrees s → Agrees t
  unfolding error_callback state_change_callback
  Step-Agrees (sent id bytes name c w) a = transmit-Agrees id bytes name c w a
  Step-Agrees (done i success c w w' h gone) a = tx_done-Agrees i success c w w' gone a
  Step-Agrees (error flags c w) a = record { count = a.count; owned = a.owned }
  Step-Agrees (changed old new c w) a = record { count = a.count; owned = a.owned }

  -- Whatever the tasks send and the driver reports, in whatever order, the slots in use remain those
  -- whose frame the driver holds.
  pub Steps-Agrees : {s t : Can × World} → Steps s t → Agrees s → Agrees t
  Steps-Agrees (stop s) a = a
  Steps-Agrees (next one more) a = Steps-Agrees more (Step-Agrees one a)

  -- Where the slots in use are those whose frame the driver holds, a transmission leaves each slot
  -- whose frame the driver holds as it is.
  pub transmit_fd_frame-held :
      (id : ℕ) (bytes name : List ℕ) (c : Can) (w : World) (k : ℕ)
      → Agrees (c, w)
      → k < tx_slot_count
      → holds w k ≡ true
      → let (e, events, c', w') = transmit_fd_frame D id bytes name c w in
        get_or c'.tx_slots k empty_slot ≡ get_or c.tx_slots k empty_slot
  unfolding release_at
  transmit_fd_frame-held id bytes name c w k a h held =
      go (transmit_fd_frame-Transmitted D id bytes name c w L.fits)
    where
      other : (i : ℕ) → (get_or c.tx_slots i empty_slot).in_use ≡ false → i ≢ k
      other i idle e =
          let kept = ap (λ n. (get_or c.tx_slots n empty_slot).in_use) e in
          ground (arith, kept, idle, a.owned k h, held)

      go :
          {r : EspErr × List Event × Can × World}
          → Transmitted D id bytes name c w r
          → get_or (r.2).tx_slots k empty_slot ≡ get_or c.tx_slots k empty_slot
      go (off x e) = rw e refl
      go (exhausted all e) = rw e refl
      go (refused i e w' events l idle t bad p) =
          let filled = set c.tx_slots i (loaded D id bytes c i) in
          rw p (
            get_or-set_ne filled i k (record (get_or filled i empty_slot) { in_use = false })
              empty_slot (other i idle)
            ∙ get_or-set_ne c.tx_slots i k (loaded D id bytes c i) empty_slot (other i idle))
      go (taken i w' l idle t p) =
          rw p (get_or-set_ne c.tx_slots i k (loaded D id bytes c i) empty_slot (other i idle))
