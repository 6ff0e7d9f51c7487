-- ===== src/Tests/Ble.antt =====
-- Clients, lines and notifications of main/ble_console.c at concrete inputs.
use meb_commander.Base.{
  ℕ, ◌≡◌, ◌≢◌, refl, true, false, List, [], ◌∷◌, ◌++◌, some, ◌==◌, if◌then◌else◌, arith, codes, All,
  ltb, map, length, ◌<◌, take,
}
use meb_commander.Base.Int.{pos}
use meb_commander.Lines.{lines, IsLine}
use meb_commander.Ble.{Peer, no_peer, GapEvent, connect, disconnect, subscribe, gap_event_cb}
use meb_commander.Ble.Peers.{lookup}
use meb_commander.Ble.Clients.{gap_events, track_all, gap_events-track_all}
use meb_commander.Ble.Rx.{
  Inbox, Queued, queue_line, drop_line, gatt_access_cb, gatt_writes, IsPacket, cmd_rx_buf_size,
}
use meb_commander.Ble.Queue.{Fifo, gatt_writes-contents}
use meb_commander.Ble.Notify.{Link, write}
use meb_commander.Ble.Notify.Delivery.{Laws}
use meb_commander.Ble.Notify.Audience.{wants_text, write-delivers}

abbrev peers : List Peer
peers = no_peer ∷ no_peer ∷ []

abbrev phone_and_laptop : List GapEvent
phone_and_laptop =
    connect (pos 0) 4 ∷ connect (pos 0) 9 ∷ subscribe 12 9 1 ∷ disconnect (pos 19) 4 ∷ []

gap_events-track_all_example :
    lookup 9 (gap_events 12 phone_and_laptop peers)
    ≡ track_all 12 phone_and_laptop (λ h. lookup h peers) 9
unfolding lookup gap_event_cb
gap_events-track_all_example =
    gap_events-track_all 12 phone_and_laptop peers
      ((λ busy. absurd (ground (arith, busy))), ((λ busy. absurd (ground (arith, busy))), tt))
      ((λ new. refl), ((λ new. refl), ((λ new. absurd (ground (arith, new))), (tt, tt)))) 9

-- Of two clients, the one that stays and asked for notifications has them.
two_clients : lookup 9 (gap_events 12 phone_and_laptop peers) ≡ some true
unfolding lookup gap_events gap_event_cb
two_clients = refl

-- A queue that lists the lines, eight at most, and buffers that are copied whole.
abbrev pub listing : Inbox
listing = record {
  World = List (List ℕ);
  created = true;
  queue_send = λ line w. if ltb (length w) 8 then (true, w ++ (line ∷ [])) else (false, w);
  to_flat = λ om size. some om;
  can_append = λ text. true;
}

pub listing_sent :
    (line : List ℕ) (w : List (List ℕ)) → length w < 8 → (listing.queue_send line w).0 ≡ true
listing_sent line w room = ground (arith, room)

pub listing_appended :
    (line : List ℕ) (w : List (List ℕ))
    → (listing.queue_send line w).0 ≡ true
    → (listing.queue_send line w).1 ≡ w ++ (line ∷ [])
listing_appended line w sent = ground (arith, sent)

abbrev pub listing_fifo : Fifo listing
listing_fifo = record {
  contents = λ w. w;
  made = refl;
  sent = listing_sent;
  appended = listing_appended;
}

abbrev pub empty_queue : Queued listing
empty_queue = record { world = []; events = [] }

abbrev pub packets : List (List ℕ)
packets = codes "{\"id\"" ∷ codes ":1}\n" ∷ codes "{}\n" ∷ []

abbrev pub commands : List (List ℕ)
commands = codes "\"id\":1}" ∷ codes "}" ∷ []

pub packets_fit : All (IsPacket listing) packets
unfolding codes
packets_fit = (
  (omega arith, omega arith, refl),
  ((omega arith, omega arith, refl), ((omega arith, omega arith, refl), tt)),
)

pub commands_fit : All (IsLine (queue_line listing) (drop_line listing) cmd_rx_buf_size) commands
unfolding codes
commands_fit = (
  ((refl, (refl, (refl, (refl, (refl, (refl, (refl, tt))))))), omega arith),
  (((refl, tt), omega arith), tt),
)

gatt_writes-contents_example :
    let (line, q) = gatt_writes listing 3 5 packets ([], empty_queue) in
    (q.world ≡ [] ++ map (λ text. b'{' ∷ text) commands) × (line ≡ []) × (q.events ≡ [])
unfolding lines codes
gatt_writes-contents_example =
    gatt_writes-contents listing listing_fifo 3 5 packets commands empty_queue packets_fit
      commands_fit (ground arith) refl (omega arith)

two_commands :
    (gatt_writes listing 3 5 packets ([], empty_queue)).1.world
    ≡ codes "{\"id\":1}" ∷ codes "{}" ∷ []
unfolding gatt_writes gatt_access_cb
two_commands = refl

-- What each connection has received, of each notification as much as its MTU of 30 leaves room for.
abbrev radio : Link
radio = record {
  World = ℕ → List ℕ;
  att_mtu = λ conn w. 30;
  mbuf_from_flat = λ bytes w. (true, w);
  notify_custom =
      λ conn handle bytes w. (pos 0, (λ k. if k == conn then w k ++ take 27 bytes else w k));
}

truth : true ≢ false
truth e = absurd (ground (arith, e))

abbrev radio_laws : Laws radio
radio_laws = record {
  received = λ w. w;
  mbuf_keeps = λ bytes w k. refl;
  mbuf_keeps_mtu = λ bytes w conn. refl;
  notify_connected = λ conn handle bytes w e. omega arith;
  notify_brings = λ conn handle bytes w k e. refl;
  notify_fails = λ conn handle bytes w k e. absurd (truth e);
}

abbrev silence : ℕ → List ℕ
silence k = []

abbrev served : List Peer
served = no_peer ∷ record { in_use = true; notify_enabled = true; conn_handle = 9 } ∷ []

abbrev reply : List ℕ
reply = codes "{\"id\":1,\"result\":\"heating\",\"padding\":0}\n"

write-delivers_example : (write radio true 12 (some reply) served silence).0 9 ≡ [] ++ reply
unfolding lookup wants_text write
write-delivers_example =
    write-delivers radio radio_laws 12 9 reply served silence (ground arith)
      ((λ busy. absurd (ground (arith, busy))), ((λ busy. refl), tt)) refl refl

-- A text of forty bytes goes out in two chunks and is complete.
whole_reply : (write radio true 12 (some reply) served silence).0 9 ≡ reply
unfolding write
whole_reply = refl
