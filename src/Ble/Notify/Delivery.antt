-- ===== src/Ble/Notify/Delivery.antt =====
-- What the clients of main/ble_console.c receive of a text.
use meb_commander.Base.{
  ℕ, zero, suc, ◌+◌, ◌-◌, ◌≡◌, ◌≢◌, ◌≤◌, ◌<◌, refl, ap, sym, ◌∙◌, true, false, List, [], ◌++◌, ltb,
  ◌==◌, if◌then◌else◌, length, take, drop, arith, Bool-cases, inl, inr, length-drop, drop-drop,
  take-take-drop, take-length, length-take,
}
use mathlib.Core.List.{append-nil, append_assoc}
use meb_commander.Event.{Event}
use meb_commander.Ble.{is_zero}
use meb_commander.Ble.Notify.{Link, max_chunk, chunk_len, send_chunks, notify_min_chunk_size}

module _ (L : Link) where
  open L use {World}

  -- A notification that returns 0 goes to a connection, whose MTU is at least 23, and brings as many of
  -- its bytes as the MTU has room for behind the three of the header; nothing else brings any bytes.
  -- Allocating a buffer leaves the MTU.
  pub record Laws : Type 1 where
    pub received : World → ℕ → List ℕ
    pub mbuf_keeps :
        (bytes : List ℕ) (w : World) (k : ℕ)
        → received (L.mbuf_from_flat bytes w).1 k ≡ received w k
    pub mbuf_keeps_mtu :
        (bytes : List ℕ) (w : World) (conn : ℕ)
        → L.att_mtu conn (L.mbuf_from_flat bytes w).1 ≡ L.att_mtu conn w
    pub notify_connected :
        (conn handle : ℕ) (bytes : List ℕ) (w : World)
        → is_zero (L.notify_custom conn handle bytes w).0 ≡ true
        → 23 ≤ L.att_mtu conn w
    pub notify_brings :
        (conn handle : ℕ) (bytes : List ℕ) (w : World) (k : ℕ)
        → is_zero (L.notify_custom conn handle bytes w).0 ≡ true
        → received (L.notify_custom conn handle bytes w).1 k
          ≡ (if k == conn then received w k ++ take (L.att_mtu conn w - 3) bytes else received w k)
    pub notify_fails :
        (conn handle : ℕ) (bytes : List ℕ) (w : World) (k : ℕ)
        → is_zero (L.notify_custom conn handle bytes w).0 ≡ false
        → received (L.notify_custom conn handle bytes w).1 k ≡ received w k

-- A chunk has at least twenty bytes where so many are left, and never more than the MTU leaves room
-- for, where that is at least twenty.
pub max_chunk-bounds :
    (mtu : ℕ)
    → (notify_min_chunk_size ≤ max_chunk mtu)
      × (notify_min_chunk_size + 3 ≤ mtu → max_chunk mtu + 3 ≤ mtu)
unfolding max_chunk
max_chunk-bounds mtu = (ground arith, λ h. ground arith)

module _ (L : Link) (W : Laws L) where
  open L use {World}
  open W use {received}

  -- From `world` to `world'` connection `conn` has received the first `n` bytes of `rest`, and the
  -- others nothing; all of it, if nothing was reported.
  pub record Delivered (conn : ℕ) (rest : List ℕ) (world : World) (r : World × List Event)
      : Type 0 where
    pub n : ℕ
    pub got : received r.0 conn ≡ received world conn ++ take n rest
    pub others : (k : ℕ) → (k == conn) ≡ false → received r.0 k ≡ received world k
    pub complete : r.1 ≡ [] → length rest ≤ n

  chunk_len-bounds :
      (conn : ℕ) (text : List ℕ) (offset : ℕ) (world : World)
      → offset < length text
      → (0 < chunk_len L conn text offset world)
        × (chunk_len L conn text offset world ≤ length text - offset)
  unfolding chunk_len max_chunk
  chunk_len-bounds conn text offset world h = (ground arith, ground arith)

  -- A chunk is no longer than what a notification brings.
  chunk_len-fits :
      (conn : ℕ) (text : List ℕ) (offset : ℕ) (world : World)
      → 23 ≤ L.att_mtu conn world
      → chunk_len L conn text offset world ≤ L.att_mtu conn world - 3
  unfolding chunk_len
  chunk_len-fits conn text offset world h =
      ground (arith, h, (max_chunk-bounds (L.att_mtu conn world)).1)

  -- A notification that returns 0 brings a chunk whole.
  chunk_brought :
      (tx_handle conn : ℕ) (text : List ℕ) (offset : ℕ) (world : World) (k : ℕ)
      → let chunk = take (chunk_len L conn text offset world) (drop offset text) in
        let world' = (L.mbuf_from_flat chunk world).1 in
        let (rc, world'') = L.notify_custom conn tx_handle chunk world' in
        is_zero rc ≡ true
        → received world'' k ≡ (if k == conn then received world k ++ chunk else received world k)
  chunk_brought tx_handle conn text offset world k good =
      let len = chunk_len L conn text offset world in
      let chunk = take len (drop offset text) in
      let world' = (L.mbuf_from_flat chunk world).1 in
      let mtu : L.att_mtu conn world' ≡ L.att_mtu conn world = W.mbuf_keeps_mtu chunk world conn in
      let connected = W.notify_connected conn tx_handle chunk world' good in
      let fits = chunk_len-fits conn text offset world (omega (arith, mtu, connected)) in
      let whole : take (L.att_mtu conn world' - 3) chunk ≡ chunk =
        take-length (L.att_mtu conn world' - 3) chunk
          (omega (arith, mtu, fits, length-take len (drop offset text))) in
      ground (
        arith,
        whole,
        W.notify_brings conn tx_handle chunk world' k good,
        W.mbuf_keeps chunk world k,
      )

  -- Nothing is delivered, or nothing was left.
  idle-Delivered :
      (conn : ℕ) (rest : List ℕ) (world world' : World) (events : List Event)
      → ((k : ℕ) → received world' k ≡ received world k)
      → (events ≡ [] → length rest ≤ 0)
      → Delivered conn rest world (world', events)
  idle-Delivered conn rest world world' events kept done = record {
    n = 0;
    got = kept conn ∙ sym (append-nil (received world conn));
    others = λ k h. kept k;
    complete = done;
  }

  -- After a chunk of `len` bytes, what is delivered of the rest.
  chunk-Delivered :
      (conn len offset : ℕ) (text : List ℕ) (world world' : World) (r : World × List Event)
      → ((k : ℕ)
          → received world' k ≡ (
              if k == conn
              then received world k ++ take len (drop offset text)
              else received world k))
      → len ≤ length text - offset
      → Delivered conn (drop (offset + len) text) world' r
      → Delivered conn (drop offset text) world r
  chunk-Delivered conn len offset text world world' r brought h d = record {
    n = len + d.n;
    got =
        d.got
        ∙ ap (λ (v : List ℕ). v ++ take d.n (drop (offset + len) text)) here
        ∙ append_assoc (received world conn) (take len (drop offset text))
            (take d.n (drop (offset + len) text))
        ∙ ap (λ (v : List ℕ). received world conn ++ (take len (drop offset text) ++ take d.n v))
            (sym (drop-drop offset len text))
        ∙ ap (λ (v : List ℕ). received world conn ++ v) (take-take-drop len d.n (drop offset text));
    others = λ k other. d.others k other ∙ ground (arith, brought k, other);
    complete =
        λ e. omega (arith, d.complete e, length-drop offset text, length-drop (offset + len) text);
  }
    where
      here : received world' conn ≡ received world conn ++ take len (drop offset text)
      here = ground (arith, brought conn)

  pub send_chunks-Delivered :
      (fuel tx_handle conn : ℕ) (text : List ℕ) (offset : ℕ) (world : World)
      → length text - offset < fuel
      → Delivered conn
          (drop offset text)
          world
          (send_chunks L fuel tx_handle conn text offset world)
  unfolding send_chunks
  send_chunks-Delivered zero tx_handle conn text offset world h = absurd (omega arith)
  send_chunks-Delivered (suc fuel) tx_handle conn text offset world h =
      let sent = send_chunks L (suc fuel) tx_handle conn text offset world in
      let len = chunk_len L conn text offset world in
      let chunk = take len (drop offset text) in
      let world' = (L.mbuf_from_flat chunk world).1 in
      let rc = (L.notify_custom conn tx_handle chunk world').0 in
      let world'' = (L.notify_custom conn tx_handle chunk world').1 in
      let later = send_chunks L fuel tx_handle conn text (offset + len) world'' in
      let kept = W.mbuf_keeps chunk world in
      elim (Bool-cases (ltb offset (length text))) [
        | inr over ↦
            let same : sent ≡ (world, []) = ground (arith, over) in
            rw same (
              idle-Delivered conn (drop offset text) world world [] (λ k. refl)
                (λ e. ground (arith, over, length-drop offset text)))
        | inl more ↦ elim (Bool-cases (L.mbuf_from_flat chunk world).0) [
          | inr oom ↦
              let same : sent ≡ (world', sent.1) = ground (arith, more, oom) in
              let told : sent.1 ≢ [] = ground (arith, more, oom) in
              rw same (
                idle-Delivered conn (drop offset text) world world' sent.1 kept
                  (λ e. absurd (told e)))
          | inl allocated ↦ elim (Bool-cases (is_zero rc)) [
            | inr failed ↦
                let same : sent ≡ (world'', sent.1) = ground (arith, more, allocated, failed) in
                let told : sent.1 ≢ [] = ground (arith, more, allocated, failed) in
                rw same (
                  idle-Delivered conn (drop offset text) world world'' sent.1
                    (λ k. W.notify_fails conn tx_handle chunk world' k failed ∙ kept k)
                    (λ e. absurd (told e)))
            | inl good ↦
                let same : sent ≡ later = ground (arith, more, allocated, good) in
                let (some_byte, most) =
                  chunk_len-bounds conn text offset world (ground (arith, more)) in
                rw same (
                  chunk-Delivered conn len offset text world world'' later
                    (λ k. chunk_brought tx_handle conn text offset world k good) most
                    (send_chunks-Delivered fuel tx_handle conn text (offset + len) world''
                      (omega arith)))
          ]
        ]
      ]
