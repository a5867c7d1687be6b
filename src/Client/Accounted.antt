-- ===== src/Client/Accounted.antt =====
-- Received data: what is acknowledged to lwIP, and what is counted for later.
use espasync_tcp.Common.{
  ℕ, ◌+◌, ◌-◌, ◌*◌, ◌%◌, ◌^◌, ◌≤◌, ◌≡◌, refl, true, false, none, some, List, [], ◌∷◌, arith, length,
  length-append, option-both, if◌then◌else◌,
}
use espasync_tcp.Lwip.{Pcb, Pbuf, Handler, Event, Stack, Trace, tcp_recved, invoke, on_data}
use espasync_tcp.Client.State.{World, App, log, set_client, touch}
use espasync_tcp.Client.Receive.{ack, settle, hand_data, recv_one, recv_chain, chain_bytes}
use espasync_tcp.Client.Teardown.{close}

-- the bytes acknowledged to lwIP
pub recved : Trace → ℕ
recved [] = 0
recved (tcp_recved p n ∷ t) = n + recved t
recved (c ∷ t) = recved t

-- bytes acknowledged, or counted to be acknowledged later; the counter has 32 bits
abbrev pub accounted : World → ℕ
accounted w = (recved w.trace + w.client.rx_ack_len) % 2 ^ 32

-- `ack(len)` on a client with a pcb acknowledges at most what is counted, and moves just that from
-- the counter to lwIP.
pub accounted-ack :
    (len : ℕ) (w : World) (p : Pcb)
    → w.client.pcb ≡ some p
    → let (n, v) = ack len w in
      (n ≤ len)
      × (n ≤ w.client.rx_ack_len)
      × (recved v.trace ≡ n + recved w.trace)
      × (v.client.rx_ack_len + n ≡ w.client.rx_ack_len)
unfolding ack recved
accounted-ack len w p e = ground arith

settle-accounted :
    (s : Stack) (app : App) (p : Pcb) (b : Pbuf) (w : World)
    → w.tracker.has_client ≡ true
    → accounted (settle s app p b w) ≡ (accounted w + length b.payload) % 2 ^ 32
unfolding settle recved
settle-accounted s app p b w h = ground arith

-- Handlers that neither unhook the client nor take over the acknowledgement of packets, and that
-- account for what they acknowledge.
pub record Fair (app : App) : Type 0 where
  pub keeps_account : (h : Handler) (e : Event) (w : World) → accounted (app h e w) ≡ accounted w
  pub keeps_client :
      (h : Handler) (e : Event) (w : World) → (app h e w).tracker.has_client ≡ w.tracker.has_client
  pub keeps_packets :
      (h : Handler) (e : Event) (w : World)
      → (app h e w).client.handlers.pb_cb ≡ w.client.handlers.pb_cb
  pub grows : (h : Handler) (e : Event) (w : World) → recved w.trace ≤ recved (app h e w).trace

module _ (s : Stack) (app : App) (fair : Fair app) where
  abbrev Attached : World → Type 0
  Attached w = (w.tracker.has_client ≡ true) × (w.client.handlers.pb_cb ≡ none)

  -- the handler leaves alone what `Fair` says
  abbrev Same : World → World → Type 0
  Same w v =
      (accounted v ≡ accounted w)
      × (v.tracker.has_client ≡ w.tracker.has_client)
      × (v.client.handlers.pb_cb ≡ w.client.handlers.pb_cb)
      × (recved w.trace ≤ recved v.trace)

  app-Same : (h : Handler) (e : Event) (w : World) → Same w (app h e w)
  app-Same h e w = (
    fair.keeps_account h e w,
    fair.keeps_client h e w,
    fair.keeps_packets h e w,
    fair.grows h e w,
  )

  hand_data-Same : (b : Pbuf) (w : World) → Same w (hand_data s app b w)
  unfolding hand_data recved
  hand_data-Same b w =
      let w1 = set_client (record w.client { recv_pbuf_flags = b.flags }) w in
      option-both (Same w) w.client.handlers.recv_cb (λ _. (refl, refl, refl, omega arith))
        (λ h _. app-Same h (on_data b.payload) (log (invoke h (on_data b.payload)) w1))

  settle-recved :
      (p : Pcb) (b : Pbuf) (w : World)
      → w.tracker.has_client ≡ true
      → recved (settle s app p b w).trace
        ≡ (if w.client.ack_pcb then length b.payload else 0) + recved w.trace
  unfolding settle recved
  settle-recved p b w h = ground arith

  settle-Same :
      (p : Pcb) (b : Pbuf) (w : World)
      → ((settle s app p b w).tracker.has_client ≡ w.tracker.has_client)
        × ((settle s app p b w).client.handlers.pb_cb ≡ w.client.handlers.pb_cb)
  unfolding settle
  settle-Same p b w = ground arith

  -- the client as the data handler of a packet finds it
  abbrev pub prepared : World → World
  prepared w = set_client (record (touch w).client { ack_pcb = true }) (touch w)

  -- The bytes that should be acknowledged at once: those that a data handler acknowledges by `ack`, and
  -- a whole packet if its data handler did not call `ackLater`.
  unfoldable pub acked : Pcb → List Pbuf → World → ℕ
  acked p [] w = 0
  acked p (b ∷ bs) w =
      let v = hand_data s app b (prepared w) in
      ((recved v.trace - recved w.trace) + (if v.client.ack_pcb then length b.payload else 0))
      + acked p bs (recv_one s app p b w)

  recv_one-acked :
      (p : Pcb) (b : Pbuf) (w : World)
      → Attached w
      → let v = hand_data s app b (prepared w) in
        recved (recv_one s app p b w).trace
        ≡ recved w.trace
          + ((recved v.trace - recved w.trace) + (if v.client.ack_pcb then length b.payload else 0))
  unfolding recv_one recved
  recv_one-acked p b w h =
      let v = hand_data s app b (prepared w) in
      ground (arith, hand_data-Same b (prepared w), settle-recved p b v)

  recv_one-accounted :
      (p : Pcb) (b : Pbuf) (w : World)
      → Attached w
      → (accounted (recv_one s app p b w) ≡ (accounted w + length b.payload) % 2 ^ 32)
        × Attached (recv_one s app p b w)
  unfolding recv_one recved
  recv_one-accounted p b w h =
      let v = hand_data s app b (prepared w) in
      ground (arith, hand_data-Same b (prepared w), settle-Same p b v, settle-accounted s app p b v)

  -- `_recv` on a plain client without a packet handler accounts for every byte of the chain: the sum
  -- of what is acknowledged to lwIP and of what is counted for a later `ack` grows by the length of
  -- the chain (modulo the 32 bits of the counter). And lwIP is told of a packet's bytes just if the
  -- data handler did not ask for a later acknowledgement by `ackLater`, besides what the handlers
  -- acknowledge themselves. The tracker has the client, and the handlers are `Fair`.
  pub accounted-recv_chain :
      (p : Pcb) (bs : List Pbuf) (w : World)
      → w.tracker.has_client ≡ true
      → w.client.handlers.pb_cb ≡ none
      → (accounted (recv_chain s app p bs w) ≡ (accounted w + length (chain_bytes bs)) % 2 ^ 32)
        × (recved (recv_chain s app p bs w).trace ≡ recved w.trace + acked p bs w)
  unfolding recv_chain chain_bytes acked
  accounted-recv_chain p [] w h k = (omega arith, omega arith)
  accounted-recv_chain p (b ∷ bs) w h k =
      let (one, still) = recv_one-accounted p b w (h, k) in
      let (all, told) = accounted-recv_chain p bs (recv_one s app p b w) still.0 still.1 in
      (
        ground (arith, one, all, length-append b.payload (chain_bytes bs)),
        ground (arith, recv_one-acked p b w (h, k), told),
      )

-- On a client with a pcb `close` acknowledges the counted bytes and keeps them counted, so that a later `ack` acknowledges
-- them a second time.
pub close-ack_twice :
    (s : Stack) (app : App) (p : Pcb) (w : World)
    → w.client.pcb ≡ some p
    → recved (ack w.client.rx_ack_len (close s app false w)).1.trace
      ≡ recved w.trace + 2 * w.client.rx_ack_len
unfolding close ack recved
close-ack_twice s app p w e = ground arith
