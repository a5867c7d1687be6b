-- ===== src/Client/Secured.antt =====
-- A client that a TLS server makes: what becomes of its data.
use espasync_tcp.Common.{ℕ, ◌≡◌, true, false, none, some, List, [], ◌∷◌, arith}
use espasync_tcp.Lwip.{
  Pcb, Pbuf, Handler, Stack, Trace, ok, is_ok, on_data, invoke, clock, pbuf_free,
}
use espasync_tcp.Tracker.{new_tracker, set_close_error}
use espasync_tcp.Client.State.{World, App, no_handlers, log, set_client, close_error, touch}
use espasync_tcp.Client.Status.{space}
use espasync_tcp.Client.Connect.{bind_ssl}
use espasync_tcp.Client.Create.{construct, bind_tcp, fresh}
use espasync_tcp.Client.Receive.{recv, recv_data, recv_chain, recv_one, hand_data, settle}
use espasync_tcp.Client.Transmit.{write}
use espasync_tcp.Client.Outcomes.{Leaves, outcome, min_size, write-Leaves}

module _ (s : Stack) (app : App) where
  -- the client that `_accept` of a TLS server makes, after the connect handler registered `h` for
  -- its data
  abbrev pub accepted : Pcb → Handler → Trace → World
  accepted p h t =
      let c = construct s app (some p) true t in
      set_client (record c.client { handlers = record no_handlers { recv_cb = some h } }) c

  accepted-fields :
      (p : Pcb) (h : Handler) (t : Trace)
      → s.ssl_new_server_ok (bind_tcp s p (fresh (some p) t)).trace p ≡ true
      → ((accepted p h t).client.use_tls ≡ false)
        × ((accepted p h t).client.pcb ≡ some p)
        × ((accepted p h t).client.handlers.recv_cb ≡ some h)
        × ((accepted p h t).client.handlers.pb_cb ≡ none)
        × ((accepted p h t).tracker.has_client ≡ true)
  unfolding construct bind_tcp bind_ssl new_tracker
  accepted-fields p h t e = ground arith

  -- A client that was made on a TLS context, and for which the glue has a session, sends and
  -- receives as a plain client: `write` gives the bytes to lwIP as they are, and `_recv` hands the
  -- bytes from the wire to the data handler.
  pub accepted-plain :
      (p : Pcb) (h : Handler) (t : Trace) (bytes : List ℕ) (size flags : ℕ) (b : Pbuf)
      → s.ssl_new_server_ok (bind_tcp s p (fresh (some p) t)).trace p ≡ true
      → let w = accepted p h t in
        Leaves
          (outcome s p bytes size flags w)
          p
          bytes
          (min_size (space s w) size)
          flags
          w
          (write s app (some bytes) size flags w)
        × ((v : World) × (recv s app (some p) (b ∷ []) ok w
              ≡ log (pbuf_free b.address) (
                  settle s app p b
                    (app h (on_data b.payload) (log (invoke h (on_data b.payload)) v)))))
  unfolding recv recv_data recv_chain recv_one hand_data is_ok set_close_error
  accepted-plain p h t bytes size flags b e =
      let w = accepted p h t in
      let f = accepted-fields p h t e in
      let w0 = set_client (record w.client { rx_last_packet = s.millis w.trace }) (log clock w) in
      let w1 = touch (close_error ok w0) in
      let w2 = set_client (record w1.client { ack_pcb = true }) w1 in
      (
        write-Leaves s app p bytes size flags w f.1 f.0,
        (set_client (record w2.client { recv_pbuf_flags = b.flags }) w2, ground (arith, f)),
      )
