-- ===== src/Client/Connect.antt =====
-- Connecting: `connect`, name resolution, the `_connected` callback and the choice of the X.509
-- validator.
use espasync_tcp.Common.{
  ℕ, ◌/◌, ◌%◌, ◌&&◌, Bool, true, false, not, Option, none, some, List, if◌then◌else◌, ◌==◌, is_some,
}
use espasync_tcp.Lwip.{
  Pcb, Err, is_ok, on_connect, on_error, on_disconnect, dns_failed, Stack, resolved, pending,
  failed, clock, tcp_new, tcp_setprio, tcp_connect, bind_slot, arg_slot, err_slot, recv_slot,
  sent_slot, poll_slot, ssl_arg_slot, ssl_data_slot, ssl_handshake_slot, ssl_err_slot,
  dns_gethostbyname, ssl_new_client,
}
use espasync_tcp.Tracker.{ee_connected_cb}
use espasync_tcp.Client.State.{
  World, App, log, set_client, close_error, mark_errored, touch, call_handler, clear_tcp_callbacks,
}
use espasync_tcp.Client.Status.{connected}
use espasync_tcp.Client.Teardown.{shut, error, forget_pcb}

-- `mode & (SSL_AUTH_INSECURE | SSL_AUTH_FINGERPRINT | SSL_AUTH_SELF_SIGNED)`
abbrev pub skips_chain : ℕ → Bool
skips_chain mode = not (mode % 8 == 0)

-- `mode & SSL_AUTH_KNOWN_KEY`
abbrev pub wants_known_key : ℕ → Bool
wants_known_key mode = not (mode / 8 % 2 == 0)

-- `_ca_certs && _ca_certs->getCount() != 0`
abbrev pub has_anchors : Option ℕ → Bool
has_anchors none = false
has_anchors (some n) = not (n == 0)

-- `tcp_ssl_arg`, `tcp_ssl_data`, `tcp_ssl_handshake` and `tcp_ssl_err`
unfoldable pub bind_ssl : Pcb → World → World
bind_ssl p w = log (bind_slot ssl_err_slot p true) (
    log (bind_slot ssl_handshake_slot p true)
      (log (bind_slot ssl_data_slot p true) (log (bind_slot ssl_arg_slot p true) w)))

module _ (s : Stack) (app : App) where
  -- `_initClientX509Validator`, in a build with elliptic curves
  unfoldable pub init_client_x509_validator : World → Bool × World
  init_client_x509_validator w =
      if skips_chain w.client.ssl_auth_mode
      then (if s.alloc_ok w.trace
          then (true, set_client (record w.client { x509_insecure = true }) w)
          else (false, set_client (record w.client { x509_insecure = false }) w))
      else (if is_some w.client.knownkey && wants_known_key w.client.ssl_auth_mode
          then (if s.alloc_ok w.trace
              then (true, set_client (record w.client { x509_knownkey = true }) w)
              else (false, set_client (record w.client { x509_knownkey = false }) w))
          else (if s.alloc_ok w.trace
              then (
                has_anchors w.client.ca_certs,
                set_client (record w.client { x509_minimal = true }) w,
              )
              else (false, set_client (record w.client { x509_minimal = false }) w)))

  -- `connect(ip, port, use_tls)`
  unfoldable pub connect_ip : ℕ → Bool → World → Bool × World
  connect_ip port tls w =
      let w1 = set_client (record w.client { use_tls = tls }) w in
      if connected s w1
      then (false, w1)
      else (let w2 = log tcp_new w1 in
          elim (s.new_pcb w1.trace) [
            | none ↦ (false, w2)
            | some p ↦
                let w3 = log (bind_slot err_slot p true) (
                  log (bind_slot arg_slot p true) (
                    set_client (record w2.client { handshake_done = false })
                      (log (tcp_setprio p) w2))) in
                (is_ok (s.connect_result w3.trace p), log (tcp_connect p port) w3)
          ])

  -- `connect(host, port, use_tls)`
  unfoldable pub connect_host : List ℕ → ℕ → Bool → World → Bool × World
  unfolding connect_ip
  connect_host host port tls w =
      let w1 = log (dns_gethostbyname host) (
        set_client
          (record w.client {
            connect_port = port;
            use_tls = tls;
            handshake_done = false;
            host = some host;
          })
          w) in
      elim (s.dns_result w.trace) [
        | resolved ↦ connect_ip port tls w1
        | pending ↦ (true, w1)
        | failed ↦ (false, w1)
      ]

  -- `_dns_found`; the flag says whether an address was found
  unfoldable pub dns_found : Bool → World → World
  unfolding connect_ip
  dns_found true w = (connect_ip w.client.connect_port w.client.use_tls w).1
  dns_found false w =
      let w1 = touch (call_handler app w.client.handlers.error_cb (on_error dns_failed) w) in
      call_handler app w1.client.handlers.discard_cb on_disconnect w1

  -- the tail of `_connected`
  unfoldable pub announce : World → World
  announce w = elim w.client.handlers.connect_cb [
    | none ↦ w
    | some h ↦ if connected s w then call_handler app (some h) on_connect w else w
  ]

  -- the TLS part of `_connected`, after the validator was set up
  unfoldable pub start_tls : World → World
  unfolding announce bind_ssl
  start_tls w = elim w.client.pcb [
    | none ↦ shut s app w
    | some p ↦
        let w1 = log (ssl_new_client p) w in
        if s.ssl_new_client_ok w.trace p then announce (bind_ssl p w1) else shut s app w1
  ]

  -- the branch of `_connected` for an error or a NULL pcb
  unfoldable pub connected_failed : Option Pcb → Err → World → World
  connected_failed pcb e w =
      let w1 = mark_errored ee_connected_cb (close_error e w) in
      let w2 : World = elim pcb [ none ↦ w1 | some p ↦ clear_tcp_callbacks p w1 ] in
      error s app e (forget_pcb w2)

  -- what `_connected` sets up on a live pcb
  unfoldable pub adopt : Pcb → World → World
  adopt p w = log (bind_slot poll_slot p true) (
      log (bind_slot sent_slot p true) (
        log (bind_slot recv_slot p true) (
          log (tcp_setprio p) (
            set_client
              (record w.client {
                pcb = some p;
                pcb_busy = false;
                rx_last_packet = s.millis w.trace;
              })
              (log clock w)))))

  -- `_connected`
  unfoldable pub on_connected : Option Pcb → Err → World → World
  unfolding connected_failed adopt start_tls init_client_x509_validator
  on_connected none e w = connected_failed none e w
  on_connected (some p) e w =
      if is_ok e
      then (let w1 = adopt p w in
          if w1.client.use_tls
          then (let (valid, w2) = init_client_x509_validator w1 in
              start_tls (if valid then w2 else touch (shut s app w2)))
          else announce w1)
      else connected_failed (some p) e w
