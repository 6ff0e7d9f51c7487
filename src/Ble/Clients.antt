-- ===== src/Ble/Clients.antt =====
-- What the GAP events of main/ble_console.c do, against the clients as a map.
use meb_commander.Base.{
  ℕ, ◌≡◌, ◌≢◌, ◌⊎◌, refl, ap, ◌∙◌, Bool, true, false, not, ◌&&◌, List, [], ◌∷◌, Option, none, some,
  ◌==◌, if◌then◌else◌, arith, Bool-cases, Option-cases, inl, inr,
}
use mathlib.Core.Path.{fun_ext}
use meb_commander.Ble.{
  Peer, no_peer, find_peer, claim_peer, alloc_peer, remove_peer, set_notify, GapEvent, connect,
  disconnect, adv_complete, subscribe, mtu, other_event, is_zero, gap_event_cb,
}
use meb_commander.Ble.Peers.{
  lookup, IsUnique, has_free, alter, notifying, find_peer-none, find_peer-some, lookup-claim_peer,
  IsUnique-claim_peer, find_peer-alter, lookup-alter_clear, lookup-alter-notifying,
  IsUnique-alter_clear, IsUnique-alter-notifying, find_peer-claim_peer,
}

-- What `alloc_peer` does for a connection that has an entry or finds a free one.
record Allocated (h : ℕ) (peers : List Peer) : Type 0 where
  found : find_peer h (alloc_peer h peers).1 ≡ (alloc_peer h peers).0
  known : lookup h (alloc_peer h peers).1 ≢ none
  looked_up :
      (k : ℕ)
      → lookup k (alloc_peer h peers).1 ≡ (
          if k == h
          then elim (lookup h peers) [ none ↦ some false | some on ↦ some on ]
          else lookup k peers)
  unique : IsUnique peers → IsUnique (alloc_peer h peers).1

-- The connection has an entry, or an entry is free.
abbrev pub HasRoom : ℕ → List Peer → Type 0
HasRoom h peers = lookup h peers ≡ none → has_free peers ≡ true

alloc_peer-Allocated : (h : ℕ) (peers : List Peer) → HasRoom h peers → Allocated h peers
unfolding alloc_peer
alloc_peer-Allocated h peers room = go (Option-cases (find_peer h peers))
  where
    go : (find_peer h peers ≡ none) ⊎ ((i : ℕ) × (find_peer h peers ≡ some i)) → Allocated h peers
    go (inl e) =
        let gone = find_peer-none h peers e in
        record {
          found = ground (arith, e, find_peer-claim_peer h peers gone);
          known = ground (arith, e, gone, room gone, lookup-claim_peer h h peers);
          looked_up = λ k. ground (arith, e, gone, room gone, lookup-claim_peer h k peers);
          unique = λ u.
              let same : (alloc_peer h peers).1 ≡ (claim_peer h peers).1 = ground (arith, e) in
              rw same (IsUnique-claim_peer h peers gone u);
        }
    go (inr (i, e)) =
        let there = find_peer-some h i peers e in
        record {
          found = ground (arith, e);
          known = let same : (alloc_peer h peers).1 ≡ peers = ground (arith, e) in rw same there;
          looked_up = λ k. ground (arith, e, there);
          unique = λ u. let same : (alloc_peer h peers).1 ≡ peers = ground (arith, e) in rw same u;
        }

remove_peer-lookup :
    (h : ℕ) (peers : List Peer)
    → IsUnique peers
    → ((k : ℕ) → lookup k (remove_peer h peers) ≡ (if k == h then none else lookup k peers))
      × IsUnique (remove_peer h peers)
unfolding remove_peer
remove_peer-lookup h peers u = go (Option-cases (find_peer h peers))
  where
    go :
        (find_peer h peers ≡ none) ⊎ ((i : ℕ) × (find_peer h peers ≡ some i))
        → ((k : ℕ) → lookup k (remove_peer h peers) ≡ (if k == h then none else lookup k peers))
          × IsUnique (remove_peer h peers)
    go (inl e) =
        let same : remove_peer h peers ≡ peers = ground (arith, e) in
        ((λ k. ground (arith, e, find_peer-none h peers e)), rw same u)
    go (inr (i, e)) =
        let cleared = find_peer-alter h i (λ p. no_peer) peers e in
        let same : remove_peer h peers ≡ alter h (λ p. no_peer) peers =
          ground (arith, e, cleared) in
        (
          (λ k. ap (λ ps. lookup k ps) same ∙ lookup-alter_clear h k peers u),
          rw same (IsUnique-alter_clear h peers u),
        )

set_notify-lookup :
    (h : ℕ) (on : Bool) (peers : List Peer)
    → lookup h peers ≢ none
    → ((k : ℕ)
        → lookup k (set_notify (find_peer h peers) on peers)
          ≡ (if k == h then some on else lookup k peers))
      × (IsUnique peers → IsUnique (set_notify (find_peer h peers) on peers))
unfolding set_notify
set_notify-lookup h on peers known = go (Option-cases (find_peer h peers))
  where
    go :
        (find_peer h peers ≡ none) ⊎ ((i : ℕ) × (find_peer h peers ≡ some i))
        → ((k : ℕ)
            → lookup k (set_notify (find_peer h peers) on peers)
              ≡ (if k == h then some on else lookup k peers))
          × (IsUnique peers → IsUnique (set_notify (find_peer h peers) on peers))
    go (inl e) = absurd (known (find_peer-none h peers e))
    go (inr (i, e)) =
        let changed = find_peer-alter h i (notifying on) peers e in
        (
          (λ k. simp (e, changed) (lookup-alter-notifying h k on peers known)),
          (λ u. simp (e, changed) (IsUnique-alter-notifying h on peers u)),
        )

-- The clients as a map: what an event makes of it.
unfoldable pub track : ℕ → GapEvent → (ℕ → Option Bool) → ℕ → Option Bool
track tx_handle (connect status h) clients k =
    if is_zero status && k == h
    then elim (clients h) [ none ↦ some false | some on ↦ some on ]
    else clients k
track tx_handle (disconnect reason h) clients k = if k == h then none else clients k
track tx_handle (subscribe attr_handle h cur_notify) clients k =
    if attr_handle == tx_handle && k == h then some (not (cur_notify == 0)) else clients k
track tx_handle adv_complete clients k = clients k
track tx_handle (mtu h value) clients k = clients k
track tx_handle other_event clients k = clients k

-- An event that brings a connection finds an entry for it.
abbrev pub Fits : GapEvent → List Peer → Type 0
Fits (connect status h) peers = HasRoom h peers
Fits (subscribe attr_handle h cur_notify) peers = HasRoom h peers
Fits _ peers = Unit

gap_event_cb-track :
    (tx_handle : ℕ) (e : GapEvent) (peers : List Peer)
    → IsUnique peers
    → Fits e peers
    → IsUnique (gap_event_cb tx_handle e peers).0
      × ((k : ℕ)
          → lookup k (gap_event_cb tx_handle e peers).0 ≡ track tx_handle e (λ h. lookup h peers) k)
unfolding gap_event_cb track
gap_event_cb-track tx_handle (connect status h) peers u fits =
    let a = alloc_peer-Allocated h peers fits in
    elim (Bool-cases (is_zero status)) [
      | inl good ↦ (ground (arith, good, a.unique u), (λ k. ground (arith, good, a.looked_up k)))
      | inr bad ↦ (simp bad u, (λ k. ground (arith, bad)))
    ]
gap_event_cb-track tx_handle (disconnect reason h) peers u fits =
    let (looked, unique) = remove_peer-lookup h peers u in (unique, looked)
gap_event_cb-track tx_handle (subscribe attr_handle h cur_notify) peers u fits =
    let a = alloc_peer-Allocated h peers fits in
    let peers' = (alloc_peer h peers).1 in
    let on = not (cur_notify == 0) in
    let (looked, unique) = set_notify-lookup h on peers' a.known in
    elim (Bool-cases (attr_handle == tx_handle)) [
      | inl ours ↦
          let event = subscribe attr_handle h cur_notify in
          let changed = set_notify (find_peer h peers') on peers' in
          let same : (gap_event_cb tx_handle event peers).0 ≡ changed =
            ground (arith, ours, a.found) in
          (
            rw same (unique (a.unique u)),
            (λ k. ap (λ ps. lookup k ps) same ∙ looked k ∙ ground (arith, ours, a.looked_up k)),
          )
      | inr other ↦ (simp other u, (λ k. ground (arith, other)))
    ]
gap_event_cb-track tx_handle adv_complete peers u fits = (u, (λ k. refl))
gap_event_cb-track tx_handle (mtu h value) peers u fits = (u, (λ k. refl))
gap_event_cb-track tx_handle other_event peers u fits = (u, (λ k. refl))

-- A run of events.
unfoldable pub gap_events : ℕ → List GapEvent → List Peer → List Peer
gap_events tx_handle [] peers = peers
gap_events tx_handle (e ∷ events) peers =
    gap_events tx_handle events (gap_event_cb tx_handle e peers).0

unfoldable pub track_all : ℕ → List GapEvent → (ℕ → Option Bool) → ℕ → Option Bool
track_all tx_handle [] clients = clients
track_all tx_handle (e ∷ events) clients = track_all tx_handle events (track tx_handle e clients)

abbrev pub AllFit : ℕ → List GapEvent → List Peer → Type 0
AllFit tx_handle [] peers = Unit
AllFit tx_handle (e ∷ events) peers =
    Fits e peers × AllFit tx_handle events (gap_event_cb tx_handle e peers).0

-- From a table with no connection twice, after events that each find an entry for the connection they
-- bring, the table looks up what the events make of the map: a connection is known from its
-- connection or subscription to its disconnection, with what it last asked about notifications.
pub gap_events-track_all :
    (tx_handle : ℕ) (events : List GapEvent) (peers : List Peer)
    → IsUnique peers
    → AllFit tx_handle events peers
    → (k : ℕ)
    → lookup k (gap_events tx_handle events peers)
      ≡ track_all tx_handle events (λ h. lookup h peers) k
unfolding gap_events track_all
gap_events-track_all tx_handle [] peers u fits k = refl
gap_events-track_all tx_handle (e ∷ events) peers u (fit, fits) k =
    let (unique, tracked) = gap_event_cb-track tx_handle e peers u fit in
    gap_events-track_all tx_handle events (gap_event_cb tx_handle e peers).0 unique fits k
    ∙ ap (λ clients. track_all tx_handle events clients k) (fun_ext tracked)
