-- ===== src/Checks/Samples.antt =====
-- A stack, handlers and worlds for the examples.
use espasync_tcp.Common.{true, false, not, some, [], ◌∷◌, arith}
use espasync_tcp.Lwip.{Err, ok, Stack, SslAnswer, resolved, Pbuf}
use espasync_tcp.Client.State.{World, App, Handlers, no_handlers}
use espasync_tcp.Client.Create.{fresh, fresh_client}
use espasync_tcp.Client.Teardown.{shut}
use espasync_tcp.Client.AbortContract.{err_cleared, Quiet, Keeps, shut-Honest}

abbrev pub idle_answer : SslAnswer
idle_answer = record { upcalls = []; result = some 0 }

-- Calls succeed, but for `tcp_close`, whose result is given; `tcp_abort` calls an error function
-- that was not taken back; the clock stands at 70000 ms.
abbrev pub stack : Err → Stack
stack closes = record {
  millis = λ _. 70000;
  pcb_state = λ _ _. 4;
  sndbuf = λ _ _. 1000;
  new_pcb = λ _. some 9;
  connect_result = λ _ _. ok;
  close_result = λ _ _. closes;
  write_result = λ _ _. ok;
  output_result = λ _ _. ok;
  abort_notifies = λ t p. not (err_cleared t p);
  bind_result = λ _ _. ok;
  listen_result = λ _ _. some 3;
  dns_result = λ _. resolved;
  alloc_ok = λ _. true;
  ssl_new_server_ok = λ _ _. true;
  ssl_new_client_ok = λ _ _. true;
  ssl_write_result = λ _ _ _. idle_answer;
  ssl_read_result = λ _ _ _. idle_answer;
  ssl_has = λ _ _. false;
}

pub stack-Quiet : (closes : Err) → Quiet (stack closes)
stack-Quiet closes t p h = ground arith

-- handlers that do nothing
abbrev pub inert : App
inert h e w = w

pub inert-Keeps : Keeps inert
inert-Keeps h e n w k = k

-- handlers that close the client at once
abbrev pub closing : Err → App
closing closes h e w = shut (stack closes) inert w

pub closing-Keeps : (closes : Err) → Keeps (closing closes)
closing-Keeps closes h e n w k =
    shut-Honest (stack closes) inert (stack-Quiet closes) inert-Keeps n w k

-- every handler is registered
abbrev pub handlers : Handlers
handlers = record no_handlers {
  recv_cb = some 1;
  sent_cb = some 2;
  poll_cb = some 3;
  timeout_cb = some 4;
}

-- A plain client on pcb 5 with 100 bytes outstanding and 30 received bytes to acknowledge.
abbrev pub plain : World
plain = record (fresh (some 5) []) {
  client = record (fresh_client (some 5)) {
    handlers = handlers;
    pcb_busy = true;
    pcb_sent_at = 66000;
    rx_last_packet = 69000;
    tx_unacked_len = 100;
    rx_ack_len = 30;
  };
}

abbrev pub packet : Pbuf
packet = record { address = 1; payload = 7 ∷ 8 ∷ []; flags = 0 }
