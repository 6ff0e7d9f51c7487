-- ===== src/Can/Pool.antt =====
-- The transmit slots of main/can_bus.c as a pool: who owns a slot, and when.
pub mod InUse
use meb_commander.Base.{
  ℕ, zero, suc, Bool-cases, inl, inr, ap, ◌∙◌, ◌+◌, ◌≡◌, ◌≤◌, ◌<◌, refl, true, false, List, [], ◌∷◌,
  Option, none, some, length, set, get_or, get_or-set_self, arith,
}
use meb_commander.Esp.{EspErr, esp_ok, timeout, invalid_state, is_ok, is_ok→eq, is_ok→eq}
use meb_commander.Event.{Event}
use meb_commander.Can.{
  TxSlot, Can, Driver, empty_slot, claim_from, fill_slot, alloc_tx_slot, release_at, transmit_slot,
  transmit_fd_frame, increment,
}

-- What the search for a free slot finds from index `i` on.
pub data Claimed (i : ℕ) (fill : TxSlot → TxSlot) (slots : List TxSlot)
    : Option ℕ × List TxSlot → Type 0 where
  full :
      {r : Option ℕ × List TxSlot}
      → ((k : ℕ) → k < length slots → (get_or slots k empty_slot).in_use ≡ true)
      → r ≡ (none, slots)
      → Claimed i fill slots r
  at :
      {r : Option ℕ × List TxSlot} (k : ℕ)
      → k < length slots
      → (get_or slots k empty_slot).in_use ≡ false
      → r ≡ (some (i + k), set slots k (fill (get_or slots k empty_slot)))
      → Claimed i fill slots r

claim_from-Claimed :
    (i : ℕ) (fill : TxSlot → TxSlot) (slots : List TxSlot)
    → Claimed i fill slots (claim_from i fill slots)
unfolding claim_from
claim_from-Claimed i fill [] = full (λ k h. absurd (omega arith)) refl
claim_from-Claimed i fill (slot ∷ slots) = elim (Bool-cases slot.in_use) [
  | inl busy ↦ later busy (claim_from-Claimed (i + 1) fill slots)
  | inr idle ↦ at 0 (omega arith) idle (ground arith)
]
  where
    later :
        slot.in_use ≡ true
        → Claimed (i + 1) fill slots (claim_from (i + 1) fill slots)
        → Claimed i fill (slot ∷ slots) (claim_from i fill (slot ∷ slots))
    later busy (full all e) = full (all_busy all) (ground arith)
      where
        all_busy :
            ((k : ℕ) → k < length slots → (get_or slots k empty_slot).in_use ≡ true)
            → (k : ℕ) → k < length (slot ∷ slots)
            → (get_or (slot ∷ slots) k empty_slot).in_use ≡ true
        all_busy all zero h = busy
        all_busy all (suc k) h = all k (omega arith)
    later busy (at k h idle e) = at (suc k) (omega arith) idle (ground arith)

module _ (D : Driver) where
  open D use {World}

  -- The slot that carries a frame of eight bytes.
  abbrev pub loaded : ℕ → List ℕ → Can → ℕ → TxSlot
  loaded id bytes c i = fill_slot D id bytes 8 (get_or c.tx_slots i empty_slot)

  -- The ways in which `transmit_fd_frame` ends.
  pub data Transmitted (id : ℕ) (bytes name : List ℕ) (c : Can) (world : World)
      : EspErr × List Event × Can × World → Type 0 where
    off :
        {r : EspErr × List Event × Can × World}
        → c.ready ≡ false
        → r ≡ (invalid_state, [], c, world)
        → Transmitted id bytes name c world r
    exhausted :
        {r : EspErr × List Event × Can × World}
        → ((k : ℕ) → k < length c.tx_slots → (get_or c.tx_slots k empty_slot).in_use ≡ true)
        → r ≡ (
          timeout,
          [],
          record c { tx_slot_exhaustion_count = increment c.tx_slot_exhaustion_count },
          world,
        )
        → Transmitted id bytes name c world r
    refused :
        {r : EspErr × List Event × Can × World} (i : ℕ) (e : EspErr) (w : World)
        (events : List Event)
        → i < length c.tx_slots
        → (get_or c.tx_slots i empty_slot).in_use ≡ false
        → D.transmit i (loaded id bytes c i) 500 world ≡ (e, w)
        → is_ok e ≡ false
        → r ≡ (
          e,
          events,
          record c { tx_slots = release_at i (set c.tx_slots i (loaded id bytes c i)) },
          w,
        )
        → Transmitted id bytes name c world r
    taken :
        {r : EspErr × List Event × Can × World} (i : ℕ) (w : World)
        → i < length c.tx_slots
        → (get_or c.tx_slots i empty_slot).in_use ≡ false
        → D.transmit i (loaded id bytes c i) 500 world ≡ (esp_ok, w)
        → r ≡ (esp_ok, [], record c { tx_slots = set c.tx_slots i (loaded id bytes c i) }, w)
        → Transmitted id bytes name c world r

  transmit_slot-refused :
      (i : ℕ) (name : List ℕ) (c : Can) (world w : World) (e : EspErr)
      → D.transmit i (get_or c.tx_slots i empty_slot) 500 world ≡ (e, w)
      → is_ok e ≡ false
      → transmit_slot D i name c world ≡ (
        e,
        (transmit_slot D i name c world).1,
        record c { tx_slots = release_at i c.tx_slots },
        w,
      )
  unfolding transmit_slot
  transmit_slot-refused i name c world w e t bad = simp t (ground arith)

  transmit_slot-taken :
      (i : ℕ) (name : List ℕ) (c : Can) (world w : World)
      → D.transmit i (get_or c.tx_slots i empty_slot) 500 world ≡ (esp_ok, w)
      → transmit_slot D i name c world ≡ (esp_ok, [], c, w)
  unfolding transmit_slot
  transmit_slot-taken i name c world w t = simp t (ground arith)

  transmit_fd_frame-claimed :
      (id : ℕ) (bytes name : List ℕ) (c : Can) (world : World) (i : ℕ) (slots : List TxSlot)
      → 8 ≤ D.fd_frame_max_len
      → c.ready ≡ true
      → claim_from 0 (fill_slot D id bytes 8) c.tx_slots ≡ (some i, slots)
      → transmit_fd_frame D id bytes name c world
        ≡ transmit_slot D i name (record c { tx_slots = slots }) world
  unfolding transmit_fd_frame alloc_tx_slot
  transmit_fd_frame-claimed id bytes name c world i slots fits on found = ground arith

  pub transmit_fd_frame-Transmitted :
      (id : ℕ) (bytes name : List ℕ) (c : Can) (world : World)
      → 8 ≤ D.fd_frame_max_len
      → Transmitted id bytes name c world (transmit_fd_frame D id bytes name c world)
  unfolding transmit_fd_frame
  transmit_fd_frame-Transmitted id bytes name c world fits = elim (Bool-cases c.ready) [
    | inr h ↦ off h (ground arith)
    | inl h ↦ on h (claim_from-Claimed 0 (fill_slot D id bytes 8) c.tx_slots)
  ]
    where
      sent :
          (i : ℕ) (e : EspErr) (w : World)
          → c.ready ≡ true
          → i < length c.tx_slots
          → (get_or c.tx_slots i empty_slot).in_use ≡ false
          → claim_from 0 (fill_slot D id bytes 8) c.tx_slots
            ≡ (some i, set c.tx_slots i (loaded id bytes c i))
          → D.transmit i (loaded id bytes c i) 500 world ≡ (e, w)
          → Transmitted id bytes name c world (transmit_fd_frame D id bytes name c world)
      sent i e w h k idle found t =
          let filled = set c.tx_slots i (loaded id bytes c i) in
          let same = get_or-set_self c.tx_slots i (loaded id bytes c i) empty_slot k in
          let call = transmit_fd_frame-claimed id bytes name c world i filled fits h found in
          let t' = ap (λ (s : TxSlot). D.transmit i s 500 world) same ∙ t in
          elim (Bool-cases (is_ok e)) [
            | inl good ↦
                let ok_w = ap (λ x. (x, w)) (is_ok→eq e good) in
                taken i w k idle (t ∙ ok_w) (
                  call
                  ∙ transmit_slot-taken i name (record c { tx_slots = filled }) world w (t' ∙ ok_w))
            | inr bad ↦ refused i e w _ k idle t bad (
                call
                ∙ transmit_slot-refused i name (record c { tx_slots = filled }) world w e t' bad)
          ]

      on :
          c.ready ≡ true
          → Claimed 0
              (fill_slot D id bytes 8)
              c.tx_slots
              (claim_from 0 (fill_slot D id bytes 8) c.tx_slots)
          → Transmitted id bytes name c world (transmit_fd_frame D id bytes name c world)
      on h (full all e) = exhausted all (ground arith)
      on h (at i k idle e) =
          let (result, w) = D.transmit i (loaded id bytes c i) 500 world in
          sent i result w h k idle (ground arith) refl
