-- ===== src/Client/Receive.antt =====
-- Receiving: `_recv`, and the acknowledgement of received data.
use espasync_tcp.Common.{
  ℕ, ◌-◌, ◌++◌, true, false, not, Option, none, some, List, [], ◌∷◌, if◌then◌else◌, ltb, ◌==◌,
  length, add32,
}
use espasync_tcp.Lwip.{
  Pcb, Pbuf, Err, ok, is_ok, on_data, on_packet, Stack, clock, tcp_recved, pbuf_free, ssl_read,
}
use espasync_tcp.Tracker.{ee_recv_cb}
use espasync_tcp.Client.State.{
  World, App, log, set_client, close_error, mark_errored, touch, on_pcb, call_handler,
  clear_tcp_callbacks,
}
use espasync_tcp.Client.Upcalls.{deliver}
use espasync_tcp.Client.Teardown.{shut, error, forget_pcb}

-- the bytes of a chain of `pbuf`s
unfoldable pub chain_bytes : List Pbuf → List ℕ
chain_bytes [] = []
chain_bytes (b ∷ bs) = b.payload ++ chain_bytes bs

unfoldable pub free_chain : List Pbuf → World → World
free_chain [] w = w
free_chain (b ∷ bs) w = free_chain bs (log (pbuf_free b.address) w)

-- `ack(len)`
unfoldable pub ack : ℕ → World → ℕ × World
ack len w =
    let n : ℕ = if ltb w.client.rx_ack_len len then w.client.rx_ack_len else len in
    let w1 : World = if n == 0 then w else on_pcb (λ p. log (tcp_recved p n)) w in
    (n, set_client (record w1.client { rx_ack_len = w1.client.rx_ack_len - n }) w1)

-- `ackLater()`
unfoldable pub ack_later : World → World
ack_later w = set_client (record w.client { ack_pcb = false }) w

-- `ackPacket(pb)`; `none` is NULL
unfoldable pub ack_packet : Option Pbuf → World → World
ack_packet none w = w
ack_packet (some b) w =
    log (pbuf_free b.address) (on_pcb (λ p. log (tcp_recved p (length b.payload))) w)

module _ (s : Stack) (app : App) where
  -- after the data handler: acknowledge now, or count for later
  unfoldable pub settle : Pcb → Pbuf → World → World
  settle p b w =
      if w.tracker.has_client
      then (let w1 = touch w in
          if not w1.client.ack_pcb
          then set_client
              (record w1.client { rx_ack_len = add32 w1.client.rx_ack_len (length b.payload) }) w1
          else log (tcp_recved p (length b.payload)) w1)
      else w

  -- the data handler is called for one `pbuf`
  unfoldable pub hand_data : Pbuf → World → World
  hand_data b w = elim w.client.handlers.recv_cb [
    | none ↦ w
    | some h ↦
        call_handler app (some h) (on_data b.payload)
          (set_client (record w.client { recv_pbuf_flags = b.flags }) w)
  ]

  -- one round of the loop in `_recv`
  unfoldable pub recv_one : Pcb → Pbuf → World → World
  unfolding settle hand_data
  recv_one p b w =
      let w1 = set_client (record (touch w).client { ack_pcb = true }) (touch w) in
      elim w1.client.handlers.pb_cb [
        | some h ↦ call_handler app (some h) (on_packet b) w1
        | none ↦ log (pbuf_free b.address) (settle p b (hand_data b w1))
      ]

  -- the loop in `_recv`
  unfoldable pub recv_chain : Pcb → List Pbuf → World → World
  recv_chain p [] w = w
  recv_chain p (b ∷ bs) w =
      let rest = recv_chain p bs (recv_one p b w) in
      if w.tracker.has_client then rest else free_chain (b ∷ bs) w

  -- the TLS branch of `_recv`
  unfoldable pub recv_tls : Pcb → List Pbuf → World → World
  recv_tls p pb w =
      let answer = s.ssl_read_result w.trace p (chain_bytes pb) in
      let w1 = deliver app answer.upcalls (log (ssl_read p (chain_bytes pb)) w) in
      elim answer.result [ none ↦ shut s app (touch w1) | some _ ↦ w1 ]

  -- the branch of `_recv` for an error or a NULL pcb
  unfoldable pub recv_failed : Option Pcb → Err → World → World
  recv_failed pcb e w =
      let w1 = mark_errored ee_recv_cb (close_error e w) in
      let w2 : World = elim pcb [ none ↦ w1 | some p ↦ clear_tcp_callbacks p w1 ] in
      error s app e (forget_pcb w2)

  unfoldable pub recv_data : Pcb → List Pbuf → World → World
  unfolding recv_tls recv_chain
  recv_data p pb w =
      let w1 =
        close_error ok
          (set_client (record w.client { rx_last_packet = s.millis w.trace }) (log clock w)) in
      if w1.client.use_tls then recv_tls p pb w1 else recv_chain p pb w1

  -- `_recv`
  unfoldable pub recv : Option Pcb → List Pbuf → Err → World → World
  unfolding recv_failed recv_data
  recv none pb e w = recv_failed none e w
  recv (some p) pb e w =
      if is_ok e
      then elim pb [ [] ↦ shut s app w | b ∷ bs ↦ recv_data p (b ∷ bs) w ]
      else recv_failed (some p) e w
