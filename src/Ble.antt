-- ===== src/Ble.antt =====
-- main/ble_console.c: the table of connected clients and the GAP events that change it. A pointer into
-- `s_peers` is an index. NimBLE's own state is not here; the calls of `advertise` are counted.
pub mod Peers
pub mod Clients
pub mod Rx
pub mod Queue
pub mod Notify
use meb_commander.Base.{
  ℕ, zero, suc, ◌+◌, Bool, true, false, ◌&&◌, not, List, [], ◌∷◌, ◌++◌, Option, none, some, ◌==◌,
  if◌then◌else◌, get_or, set, codes,
}
use meb_commander.Base.Int.{ℤ}
use meb_commander.Base.Decimal.{decimal, decimal_ℤ}
use meb_commander.Event.{Event, numbered}

-- ble_peer_t
pub record Peer : Type 0 where
  pub in_use : Bool
  pub notify_enabled : Bool
  pub conn_handle : ℕ

-- A peer that `memset` clears.
abbrev pub no_peer : Peer
no_peer = record { in_use = false; notify_enabled = false; conn_handle = 0 }

-- `in_use && conn_handle == handle`
abbrev pub is_peer : ℕ → Peer → Bool
is_peer handle p = p.in_use && p.conn_handle == handle

abbrev pub map_suc : Option ℕ → Option ℕ
map_suc none = none
map_suc (some i) = some (suc i)

unfoldable pub find_peer : ℕ → List Peer → Option ℕ
find_peer handle [] = none
find_peer handle (p ∷ peers) =
    let later = map_suc (find_peer handle peers) in if is_peer handle p then some zero else later

-- The second loop of `alloc_peer`: the first free entry.
unfoldable pub claim_peer : ℕ → List Peer → Option ℕ × List Peer
claim_peer handle [] = (none, [])
claim_peer handle (p ∷ peers) =
    let (found, rest) = claim_peer handle peers in
    if not p.in_use
    then (some zero, record { in_use = true; notify_enabled = false; conn_handle = handle } ∷ peers)
    else (map_suc found, p ∷ rest)

unfoldable pub alloc_peer : ℕ → List Peer → Option ℕ × List Peer
unfolding find_peer claim_peer
alloc_peer handle peers = elim (find_peer handle peers) [
  | some i ↦ (some i, peers)
  | none ↦ claim_peer handle peers
]

unfoldable pub remove_peer : ℕ → List Peer → List Peer
unfolding find_peer
remove_peer handle peers = elim (find_peer handle peers) [
  | some i ↦ set peers i no_peer
  | none ↦ peers
]

-- `peer->notify_enabled = on`, if there is a peer.
unfoldable pub set_notify : Option ℕ → Bool → List Peer → List Peer
set_notify none on peers = peers
set_notify (some i) on peers = set peers i (record (get_or peers i no_peer) { notify_enabled = on })

-- The events that `gap_event_cb` handles, with the fields that it reads.
pub data GapEvent : Type 0 where
  connect : ℤ → ℕ → GapEvent
  disconnect : ℤ → ℕ → GapEvent
  adv_complete : GapEvent
  subscribe : ℕ → ℕ → ℕ → GapEvent
  mtu : ℕ → ℕ → GapEvent
  other_event : GapEvent

-- `status == 0`
abbrev pub is_zero : ℤ → Bool
is_zero (ℤ.pos zero) = true
is_zero _ = false

-- gap_event_cb, where `s_tx_val_handle` is `tx_handle`: the peers, how often it advertises, and the
-- events that it records.
unfoldable pub gap_event_cb : ℕ → GapEvent → List Peer → List Peer × ℕ × List Event
unfolding alloc_peer remove_peer set_notify codes decimal
gap_event_cb tx_handle (connect status handle) peers =
    if is_zero status
    then ((alloc_peer handle peers).1, 0, numbered "ble" "connected" "handle=" handle ∷ [])
    else (
      peers,
      1,
      record {
        component = codes "ble";
        event = codes "connect_failed";
        detail = codes "status=" ++ decimal_ℤ status;
      }
          ∷ [],
    )
gap_event_cb tx_handle (disconnect reason handle) peers = (
  remove_peer handle peers,
  1,
  record {
    component = codes "ble";
    event = codes "disconnected";
    detail = codes "reason=" ++ decimal_ℤ reason;
  }
      ∷ [],
)
gap_event_cb tx_handle adv_complete peers = (peers, 1, [])
gap_event_cb tx_handle (subscribe attr_handle handle cur_notify) peers =
    let (found, peers') = alloc_peer handle peers in
    let on = not (cur_notify == 0) in
    if attr_handle == tx_handle
    then (
      set_notify found on peers',
      0,
      record {
        component = codes "ble";
        event = codes "notify";
        detail = (if on then codes "on" else codes "off") ++ codes " handle=" ++ decimal handle;
      }
          ∷ [],
    )
    else (peers, 0, [])
gap_event_cb tx_handle (mtu handle value) peers = (
  peers,
  0,
  record {
    component = codes "ble";
    event = codes "mtu";
    detail = codes "handle=" ++ decimal handle ++ codes " mtu=" ++ decimal value;
  }
      ∷ [],
)
gap_event_cb tx_handle other_event peers = (peers, 0, [])
