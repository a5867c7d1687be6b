-- ===== src/Client/Create.antt =====
-- The constructor and the assignment of `AsyncClient`.
use espasync_tcp.Common.{ℕ, Bool, true, false, Option, none, some, if◌then◌else◌}
use espasync_tcp.Lwip.{
  Pcb, Trace, Stack, clock, tcp_setprio, bind_slot, arg_slot, recv_slot, sent_slot, err_slot,
  poll_slot, ssl_new_server,
}
use espasync_tcp.Tracker.{new_tracker}
use espasync_tcp.Client.State.{Client, World, App, no_handlers, log, set_client}
use espasync_tcp.Client.Teardown.{shut}
use espasync_tcp.Client.Connect.{bind_ssl}

-- `ASYNC_MAX_ACK_TIME`, `ASYNC_MAX_RX_TIME` and `ASYNC_TCP_SSL_X509_MODE`
abbrev pub max_ack_time : ℕ
max_ack_time = 3000

abbrev pub max_rx_time : ℕ
max_rx_time = 5

abbrev pub x509_mode : ℕ
x509_mode = 0

-- The members as the initialiser list leaves them. `_fingerprint`, `_knownkey`, `_host` and
-- `_ca_certs` are not in it; they are taken to be NULL.
abbrev pub fresh_client : Option Pcb → Client
fresh_client p = record {
  pcb = p;
  handlers = no_handlers;
  pcb_busy = false;
  pcb_sent_at = 0;
  close_pcb = false;
  ack_pcb = true;
  tx_unacked_len = 0;
  tx_acked_len = 0;
  rx_ack_len = 0;
  rx_last_packet = 0;
  rx_since_timeout = max_rx_time;
  ack_timeout = max_ack_time;
  connect_port = 0;
  recv_pbuf_flags = 0;
  use_tls = false;
  ssl_auth_mode = x509_mode;
  handshake_done = false;
  host = none;
  knownkey = none;
  fingerprint = none;
  ca_certs = none;
  x509_minimal = false;
  x509_insecure = false;
  x509_knownkey = false;
}

abbrev pub fresh : Option Pcb → Trace → World
fresh p t = record {
  client = fresh_client p;
  tracker = new_tracker;
  deleted = false;
  fault = false;
  trace = t;
}

-- `tcp_setprio`, `tcp_arg`, `tcp_recv`, `tcp_sent`, `tcp_err` and `tcp_poll` on a pcb that is there
unfoldable pub bind_tcp : Stack → Pcb → World → World
bind_tcp s p w = log (bind_slot poll_slot p true) (
    log (bind_slot err_slot p true) (
      log (bind_slot sent_slot p true) (
        log (bind_slot recv_slot p true) (
          log (bind_slot arg_slot p true) (
            log (tcp_setprio p) (
              set_client (record w.client { rx_last_packet = s.millis w.trace }) (log clock w)))))))

module _ (s : Stack) (app : App) where
  -- `AsyncClient(pcb, ssl_ctx)`; the flag says whether there is a TLS context
  unfoldable pub construct : Option Pcb → Bool → Trace → World
  unfolding bind_tcp new_tracker
  construct none ssl_ctx t = fresh none t
  construct (some p) ssl_ctx t =
      let w1 = bind_tcp s p (fresh (some p) t) in
      let w2 = log (ssl_new_server p) w1 in
      if ssl_ctx
      then (if s.ssl_new_server_ok w1.trace p then bind_ssl p w2 else shut s app w2)
      else w1

  -- the part of `operator=` that runs when the other client has a pcb
  unfoldable pub take_over : Pcb → World → World
  unfolding bind_tcp
  take_over p w =
      let w1 = bind_tcp s p w in
      if s.ssl_has w1.trace p
      then bind_ssl p (set_client (record w1.client { use_tls = true; handshake_done = false }) w1)
      else set_client (record w1.client { use_tls = false; handshake_done = true }) w1

  -- `*this = other`; the tracker is shared from here on, and is here copied
  unfoldable pub assign : World → World → World
  unfolding take_over shut
  assign other w =
      let w1 = shut s app w in
      let w2 = record w1 {
        tracker = other.tracker;
        client = record w1.client { pcb = other.client.pcb };
      } in
      elim other.client.pcb [ none ↦ w2 | some p ↦ take_over p w2 ]
