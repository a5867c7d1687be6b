-- ===== src/Client/Teardown.antt =====
-- Ways in which a client gives up its pcb: `_close`, `close`, `abort`, `_error`, `_s_error` and the
-- destructor.
use espasync_tcp.Common.{Bool, true, false, none, some, if◌then◌else◌}
use espasync_tcp.Lwip.{
  Pcb, Err, abrt, is_ok, on_error, on_disconnect, Stack, tcp_close, tcp_abort, tcp_recved, ssl_free,
}
use espasync_tcp.Tracker.{ee_error_cb, clear_client}
use espasync_tcp.Client.State.{
  World, App, log, set_client, close_error, mark_errored, touch, call_handler, clear_tcp_callbacks,
}

abbrev pub forget_pcb : World → World
forget_pcb w = set_client (record w.client { pcb = none }) w

module _ (s : Stack) (app : App) where
  -- the part of `_error` before the handlers
  unfoldable pub drop_pcb : World → World
  drop_pcb w = elim w.client.pcb [
    | none ↦ w
    | some p ↦ forget_pcb (if w.client.use_tls then log (ssl_free p) w else w)
  ]

  -- `_error`
  unfoldable pub error : Err → World → World
  unfolding drop_pcb
  error e w =
      let w1 = drop_pcb w in
      let w2 = touch (call_handler app w1.client.handlers.error_cb (on_error e) w1) in
      call_handler app w2.client.handlers.discard_cb on_disconnect w2

  unfoldable pub s_error : Err → World → World
  s_error e w = error e (mark_errored ee_error_cb (close_error e w))

  -- `tcp_abort(pcb)`: lwIP may call the registered error function before it returns.
  unfoldable pub run_tcp_abort : Pcb → World → World
  run_tcp_abort p w =
      let w' = log (tcp_abort p) w in if s.abort_notifies w.trace p then s_error abrt w' else w'

  unfoldable pub abort : World → World
  unfolding run_tcp_abort
  abort w = elim w.client.pcb [
    | none ↦ w
    | some p ↦ close_error abrt (forget_pcb (touch (run_tcp_abort p w)))
  ]

  -- the TLS part of `_close`
  unfoldable pub release_tls : Pcb → World → World
  release_tls p w =
      if w.client.use_tls
      then set_client
          (record w.client {
            x509_minimal = false;
            x509_insecure = false;
            x509_knownkey = false;
            handshake_done = false;
          })
          (log (ssl_free p) w)
      else w

  -- `tcp_close(_pcb)` with the callbacks cleared, and an abort where it fails
  unfoldable pub close_or_abort : Pcb → World → World
  unfolding abort
  close_or_abort p w =
      let w' = log (tcp_close p) w in
      if is_ok (s.close_result w.trace p)
      then close_error (s.close_result w.trace p) w'
      else abort w'

  -- `_close`
  unfoldable pub shut : World → World
  unfolding release_tls clear_tcp_callbacks close_or_abort
  shut w = elim w.client.pcb [
    | none ↦ w
    | some p ↦
        let w1 = forget_pcb (close_or_abort p (clear_tcp_callbacks p (release_tls p w))) in
        call_handler app w1.client.handlers.discard_cb on_disconnect w1
  ]

  -- `close(now)`
  unfoldable pub close : Bool → World → World
  unfolding shut
  close now w =
      let w1 : World = elim w.client.pcb [
        | none ↦ w
        | some p ↦ log (tcp_recved p w.client.rx_ack_len) w
      ] in
      if now then shut w1 else set_client (record w1.client { close_pcb = true }) w1

  -- `~AsyncClient()`, and the memory is given back
  unfoldable pub destroy : World → World
  unfolding shut
  destroy w =
      let w1 = touch (shut w) in
      record w1 {
        tracker = if w1.client.use_tls then clear_client w1.tracker else w1.tracker;
        deleted = true;
      }
