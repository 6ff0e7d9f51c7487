-- ===== src/Ble/Notify/Audience.antt =====
-- What each client of main/ble_console.c receives of a text that is written.
use meb_commander.Base.{
  ℕ, suc, ◌≡◌, ◌≢◌, ◌≤◌, refl, ap, sym, ◌∙◌, Bool, true, false, ◌||◌, ◌&&◌, not, List, [], ◌∷◌,
  ◌++◌, Option, none, some, ◌==◌, length, take, arith, Bool-cases, inl, inr, take-length,
}
use mathlib.Core.List.{append-nil}
use meb_commander.Event.{Event}
use meb_commander.Ble.{Peer}
use meb_commander.Ble.Peers.{lookup, IsUnique}
use meb_commander.Ble.Notify.Delivery.{Laws, Delivered, send_chunks-Delivered}
use meb_commander.Ble.Notify.{Link, send_chunks, send_all, write}

abbrev is_on : Option Bool → Bool
is_on none = false
is_on (some b) = b

-- The connection has a client that wants notifications.
unfoldable pub wants_text : ℕ → List Peer → Bool
unfolding lookup
wants_text k peers = is_on (lookup k peers)

-- An entry that is passed by is of a client that does not want notifications, or of none.
wants_text-skipped :
    (k : ℕ) (p : Peer) (peers : List Peer)
    → (p.in_use ≡ true → lookup p.conn_handle peers ≡ none)
    → p.in_use && p.notify_enabled ≡ false
    → wants_text k (p ∷ peers) ≡ wants_text k peers
unfolding wants_text lookup
wants_text-skipped k p peers u skipped = elim (Bool-cases (k == p.conn_handle)) [
  | inr other ↦ ground (arith, other)
  | inl here ↦
      let same : k ≡ p.conn_handle = ground (arith, here) in
      elim (Bool-cases p.in_use) [
        | inl busy ↦
            let gone : lookup k peers ≡ none = rw same (u busy) in
            ground (arith, here, busy, skipped, gone)
        | inr idle ↦ ground (arith, idle)
      ]
]

wants_text-none : (k : ℕ) (peers : List Peer) → lookup k peers ≡ none → wants_text k peers ≡ false
unfolding wants_text
wants_text-none k peers e = rw e refl

append-nil_left : (xs ys : List Event) → xs ++ ys ≡ [] → xs ≡ []
append-nil_left [] ys e = refl
append-nil_left (x ∷ xs) ys e = ground (arith, e)

append-nil_right : (xs ys : List Event) → xs ++ ys ≡ [] → ys ≡ []
append-nil_right [] ys e = e
append-nil_right (x ∷ xs) ys e = ground (arith, e)

module _ (L : Link) (W : Laws L) where
  open L use {World}
  open W use {received}

  -- Connection `k` has received a beginning of `text`, nothing if it does not want notifications, and
  -- all of it if nothing was reported.
  pub record Reached (k : ℕ) (wants : Bool) (text : List ℕ) (world : World) (r : World × List Event)
      : Type 0 where
    pub n : ℕ
    pub got : received r.0 k ≡ received world k ++ take n text
    pub silent : wants ≡ false → n ≡ 0
    pub complete : wants ≡ true → r.1 ≡ [] → length text ≤ n

  skip-Reached :
      (k : ℕ) (text : List ℕ) (world : World) (events : List Event)
      → Reached k false text world (world, events)
  skip-Reached k text world events = record {
    n = 0;
    got = sym (append-nil (received world k));
    silent = λ e. refl;
    complete = λ e. absurd (ground arith);
  }

  -- A client with an entry of its own, and the clients after it, which are others.
  first-Reached :
      (k : ℕ) (wants : Bool) (text : List ℕ) (world world' : World) (events : List Event)
      (r : World × List Event)
      → wants ≡ false
      → Delivered L W k text world (world', events)
      → Reached k wants text world' r
      → Reached k true text world (r.0, events ++ r.1)
  first-Reached k wants text world world' events r single d later = record {
    n = d.n;
    got = unchanged ∙ d.got;
    silent = λ e. absurd (ground arith);
    complete = λ e none_told. d.complete (append-nil_left events r.1 none_told);
  }
    where
      unchanged : received r.0 k ≡ received world' k
      unchanged =
          later.got
          ∙ ap (λ m. received world' k ++ take m text) (later.silent single)
          ∙ append-nil (received world' k)

  -- A client that `world` to `world'` brought nothing.
  later-Reached :
      (k : ℕ) (wants : Bool) (text : List ℕ) (world world' : World) (events : List Event)
      (r : World × List Event)
      → received world' k ≡ received world k
      → Reached k wants text world' r
      → Reached k wants text world (r.0, events ++ r.1)
  later-Reached k wants text world world' events r same later = record {
    n = later.n;
    got = later.got ∙ ap (λ (v : List ℕ). v ++ take later.n text) same;
    silent = later.silent;
    complete = λ e none_told. later.complete e (append-nil_right events r.1 none_told);
  }

  send_all-nil :
      (tx_handle : ℕ) (text : List ℕ) (world : World)
      → send_all L tx_handle text [] world ≡ (world, [])
  unfolding send_all
  send_all-nil tx_handle text world = refl

  send_all-skipped :
      (tx_handle : ℕ) (text : List ℕ) (p : Peer) (peers : List Peer) (world : World)
      → p.in_use && p.notify_enabled ≡ false
      → send_all L tx_handle text (p ∷ peers) world ≡ send_all L tx_handle text peers world
  unfolding send_all
  send_all-skipped tx_handle text p peers world skipped = ground (arith, skipped)

  send_all-served :
      (tx_handle : ℕ) (text : List ℕ) (p : Peer) (peers : List Peer) (world : World)
      → p.in_use && p.notify_enabled ≡ true
      → let sent = send_chunks L (suc (length text)) tx_handle p.conn_handle text 0 world in
        let later = send_all L tx_handle text peers sent.0 in
        send_all L tx_handle text (p ∷ peers) world ≡ (later.0, sent.1 ++ later.1)
  unfolding send_all
  send_all-served tx_handle text p peers world served =
      let skip : not p.in_use || not p.notify_enabled ≡ false = ground (arith, served) in
      rw skip refl

  pub send_all-Reached :
      (tx_handle k : ℕ) (text : List ℕ) (peers : List Peer) (world : World)
      → IsUnique peers
      → Reached k (wants_text k peers) text world (send_all L tx_handle text peers world)
  unfolding wants_text lookup
  send_all-Reached tx_handle k text [] world u =
      rw (send_all-nil tx_handle text world) (skip-Reached k text world [])
  send_all-Reached tx_handle k text (p ∷ peers) world (u, v) =
      let sent = send_chunks L (suc (length text)) tx_handle p.conn_handle text 0 world in
      let d : Delivered L W p.conn_handle text world sent =
        send_chunks-Delivered L W (suc (length text)) tx_handle p.conn_handle text 0 world
          (omega arith) in
      elim (Bool-cases (p.in_use && p.notify_enabled)) [
        | inr skipped ↦
            let alike : wants_text k (p ∷ peers) ≡ wants_text k peers =
              wants_text-skipped k p peers u skipped in
            rw (send_all-skipped tx_handle text p peers world skipped, alike)
              (send_all-Reached tx_handle k text peers world v)
        | inl served ↦
            let r = send_all L tx_handle text peers sent.0 in
            elim (Bool-cases (k == p.conn_handle)) [
              | inl here ↦
                  let wanted : wants_text k (p ∷ peers) ≡ true = ground (arith, served, here) in
                  let same : k ≡ p.conn_handle = ground (arith, here) in
                  let used : p.in_use ≡ true = ground (arith, served) in
                  let single = wants_text-none p.conn_handle peers (u used) in
                  let next = send_all-Reached tx_handle p.conn_handle text peers sent.0 v in
                  rw (send_all-served tx_handle text p peers world served, wanted, same)
                    (first-Reached p.conn_handle (wants_text p.conn_handle peers) text world sent.0
                      sent.1 r single d next)
              | inr other ↦
                  let alike : wants_text k (p ∷ peers) ≡ wants_text k peers =
                    ground (arith, other) in
                  let next = send_all-Reached tx_handle k text peers sent.0 v in
                  rw (send_all-served tx_handle text p peers world served, alike)
                    (later-Reached k (wants_text k peers) text world sent.0 sent.1 r
                      (d.others k other) next)
            ]
      ]

  -- `meb_ble_console_write` of a text, once BLE has started and where the characteristic is known.
  pub write-Reached :
      (tx_handle k : ℕ) (text : List ℕ) (peers : List Peer) (world : World)
      → tx_handle ≢ 0
      → IsUnique peers
      → Reached k (wants_text k peers) text world (write L true tx_handle (some text) peers world)
  unfolding write
  write-Reached tx_handle k [] peers world h u = record {
    n = 0;
    got = sym (append-nil (received world k));
    silent = λ e. refl;
    complete = λ e f. omega arith;
  }
  write-Reached tx_handle k (c ∷ text) peers world h u =
      let full : write L true tx_handle (some (c ∷ text)) peers world
          ≡ send_all L tx_handle (c ∷ text) peers world =
        ground (arith, h) in
      rw full (send_all-Reached tx_handle k (c ∷ text) peers world u)

  -- A text that is written once BLE has started, with the characteristic known and no connection in two
  -- entries, comes whole to each client that wants notifications, if no error is recorded, though a
  -- notification brings no more than the MTU of its connection has room for.
  pub write-delivers :
      (tx_handle k : ℕ) (text : List ℕ) (peers : List Peer) (world : World)
      → tx_handle ≢ 0
      → IsUnique peers
      → wants_text k peers ≡ true
      → (write L true tx_handle (some text) peers world).1 ≡ []
      → received (write L true tx_handle (some text) peers world).0 k ≡ received world k ++ text
  write-delivers tx_handle k text peers world h u wanted told =
      let r = write-Reached tx_handle k text peers world h u in
      r.got
      ∙ ap (λ (v : List ℕ). received world k ++ v) (take-length r.n text (r.complete wanted told))
