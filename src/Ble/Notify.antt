-- ===== src/Ble/Notify.antt =====
-- `meb_ble_console_write` in main/ble_console.c: a text goes to each client that wants notifications,
-- in chunks that its connection takes. The calls of NimBLE are the parameter `Link`.
pub mod Delivery
pub mod Audience
use meb_commander.Base.{
  ℕ, zero, suc, ◌+◌, ◌-◌, ◌≡◌, ◌≢◌, ◌≤◌, ◌<◌, refl, ap, sym, ◌∙◌, Bool, true, false, ◌||◌, ◌&&◌,
  not, List, [], ◌∷◌, ◌++◌, Option, none, some, ltb, ◌==◌, if◌then◌else◌, length, take, drop, arith,
  codes,
}
use meb_commander.Base.Int.{ℤ}
use meb_commander.Base.Decimal.{decimal, decimal_ℤ}
use meb_commander.Event.{Event, plain}
use meb_commander.Ble.{Peer, is_zero}

-- BLE_NOTIFY_MIN_CHUNK_SIZE
abbrev pub notify_min_chunk_size : ℕ
notify_min_chunk_size = 20

-- ble_att_mtu, whether ble_hs_mbuf_from_flat gives a buffer, and ble_gatts_notify_custom of a buffer
-- with the given bytes on the connection.
pub record Link : Type 1 where
  pub World : Type 0
  pub att_mtu : ℕ → World → ℕ
  pub mbuf_from_flat : List ℕ → World → Bool × World
  pub notify_custom : ℕ → ℕ → List ℕ → World → ℤ × World

-- The size of a chunk for the MTU of the connection.
unfoldable pub max_chunk : ℕ → ℕ
max_chunk mtu =
    let wanted = if ltb 3 mtu then mtu - 3 else notify_min_chunk_size in
    if ltb wanted notify_min_chunk_size then notify_min_chunk_size else wanted

module _ (L : Link) where
  open L use {World}

  -- The size of the chunk at `offset`.
  unfoldable pub chunk_len : ℕ → List ℕ → ℕ → World → ℕ
  unfolding max_chunk
  chunk_len conn text offset world =
      let left = length text - offset in
      let most = max_chunk (L.att_mtu conn world) in if ltb most left then most else left

  -- The loop over the chunks of `text`, from `offset` on; each round takes one unit of fuel.
  unfoldable pub send_chunks : ℕ → ℕ → ℕ → List ℕ → ℕ → World → World × List Event
  unfolding chunk_len plain codes decimal decimal_ℤ
  send_chunks zero tx_handle conn text offset world = (world, [])
  send_chunks (suc fuel) tx_handle conn text offset world =
      let len = chunk_len conn text offset world in
      let chunk = take len (drop offset text) in
      let (allocated, world') = L.mbuf_from_flat chunk world in
      let (rc, world'') = L.notify_custom conn tx_handle chunk world' in
      let rest = send_chunks fuel tx_handle conn text (offset + len) world'' in
      if not (ltb offset (length text))
      then (world, [])
      else if not allocated
      then (world', plain "ble" "notify_oom" "" ∷ [])
      else if not (is_zero rc)
      then (
        world'',
        record {
          component = codes "ble";
          event = codes "notify_failed";
          detail = codes "handle=" ++ decimal conn ++ codes " rc=" ++ decimal_ℤ rc;
        }
            ∷ [],
      )
      else rest

  -- The loop over the peers. One more round than there are bytes is enough.
  unfoldable pub send_all : ℕ → List ℕ → List Peer → World → World × List Event
  unfolding send_chunks
  send_all tx_handle text [] world = (world, [])
  send_all tx_handle text (p ∷ peers) world =
      let (world', events) =
        if not p.in_use || not p.notify_enabled
        then (world, [])
        else send_chunks (suc (length text)) tx_handle p.conn_handle text 0 world in
      let (world'', later) = send_all tx_handle text peers world' in (world'', events ++ later)

  -- meb_ble_console_write; `started` says that BLE has started and that the lock exists
  unfoldable pub write : Bool → ℕ → Option (List ℕ) → List Peer → World → World × List Event
  unfolding send_all
  write started tx_handle none peers world = (world, [])
  write started tx_handle (some text) peers world =
      if not started || (length text == 0 || tx_handle == 0)
      then (world, [])
      else send_all tx_handle text peers world
