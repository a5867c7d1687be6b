-- ===== src/Client/Deletion.antt =====
-- Deleting a client from its own data handler.
use espasync_tcp.Common.{◌≡◌, ◌&&◌, not, true, false, none, some, arith}
use espasync_tcp.Lwip.{Pcb, Pbuf, Handler, Event, Stack, Trace, is_ok, on_data, invoke}
use espasync_tcp.Tracker.{set_close_error, clear_client}
use espasync_tcp.Client.State.{World, App, log, set_client, touch, clear_tcp_callbacks}
use espasync_tcp.Client.Receive.{settle, hand_data, recv_one}
use espasync_tcp.Client.Teardown.{shut, release_tls, close_or_abort, destroy}

module _ (s : Stack) (app : App) (p : Pcb)
    (closes : (t : Trace) → is_ok (s.close_result t p) ≡ true) where
  -- Of a client with a pcb, without a disconnect handler, and where lwIP closes it, the destructor
  -- gives the memory back, and takes the client out of the shared tracker just for a TLS client.
  pub destroy-has_client :
      (w : World)
      → w.client.pcb ≡ some p
      → w.client.handlers.discard_cb ≡ none
      → ((destroy s app w).deleted ≡ true)
        × ((destroy s app w).tracker.has_client ≡ (w.tracker.has_client && not w.client.use_tls))
        × ((destroy s app w).client.pcb ≡ none)
  unfolding destroy shut release_tls clear_tcp_callbacks close_or_abort set_close_error clear_client
  destroy-has_client w e d =
      ground (arith, closes (clear_tcp_callbacks p (release_tls s app p w)).trace)

  -- Where the data handler of a plain client deletes the client, the round of `_recv` for that packet
  -- goes on to use the deleted object. The client has a pcb, which lwIP closes, and neither a packet
  -- nor a disconnect handler, and the tracker has the client.
  pub recv_one-uses_deleted :
      (handlers : App) (b : Pbuf) (h : Handler) (w : World)
      → w.client.pcb ≡ some p
      → w.client.handlers.discard_cb ≡ none
      → w.client.handlers.pb_cb ≡ none
      → w.client.handlers.recv_cb ≡ some h
      → w.client.use_tls ≡ false
      → w.tracker.has_client ≡ true
      → ((e : Event) (v : World) → handlers h e v ≡ destroy s app v)
      → (recv_one s handlers p b w).fault ≡ true
  unfolding recv_one hand_data settle
  recv_one-uses_deleted handlers b h w e d a c t k del =
      let w1 = set_client (record (touch w).client { ack_pcb = true }) (touch w) in
      let w2 = set_client (record w1.client { recv_pbuf_flags = b.flags }) w1 in
      let w3 = log (invoke h (on_data b.payload)) w2 in
      ground (arith, del (on_data b.payload) w3, destroy-has_client w3)
