-- ===== src/Client/State.antt =====
-- The members of `AsyncClient`, and the state in which its methods run: the object, its error
-- tracker, and the trace of the calls that left the library.
use espasync_tcp.Common.{ℕ, Bool, true, false, ◌||◌, Option, none, some, List, ◌∷◌}
use espasync_tcp.Lwip.{
  Pcb, Handler, Err, Event, Call, Trace, invoke, bind_slot, arg_slot, recv_slot, sent_slot,
  err_slot, poll_slot,
}
use espasync_tcp.Tracker.{Tracker, set_close_error, set_errored, ErrorEvent}

-- `_connect_cb` to `_poll_cb`, each with its argument.
pub record Handlers : Type 0 where
  pub connect_cb : Option Handler
  pub discard_cb : Option Handler
  pub sent_cb : Option Handler
  pub error_cb : Option Handler
  pub recv_cb : Option Handler
  pub pb_cb : Option Handler
  pub timeout_cb : Option Handler
  pub poll_cb : Option Handler

abbrev pub no_handlers : Handlers
no_handlers = record {
  connect_cb = none;
  discard_cb = none;
  sent_cb = none;
  error_cb = none;
  recv_cb = none;
  pb_cb = none;
  timeout_cb = none;
  poll_cb = none;
}

pub data KeyType : Type 0 where
  rsa ec : KeyType

-- `AsyncClient` without the list links. The X.509 contexts are kept as the facts that they exist.
pub record Client : Type 0 where
  pub pcb : Option Pcb
  pub handlers : Handlers
  pub pcb_busy : Bool
  pub pcb_sent_at : ℕ
  pub close_pcb : Bool
  pub ack_pcb : Bool
  pub tx_unacked_len : ℕ
  pub tx_acked_len : ℕ
  pub rx_ack_len : ℕ
  pub rx_last_packet : ℕ
  pub rx_since_timeout : ℕ
  pub ack_timeout : ℕ
  pub connect_port : ℕ
  pub recv_pbuf_flags : ℕ
  pub use_tls : Bool
  pub ssl_auth_mode : ℕ
  pub handshake_done : Bool
  pub host : Option (List ℕ)
  -- the key type, RSA or EC, if a key is set
  pub knownkey : Option KeyType
  pub fingerprint : Option (List ℕ)
  -- the number of trust anchors, if a list is loaded
  pub ca_certs : Option ℕ
  pub x509_minimal : Bool
  pub x509_insecure : Bool
  pub x509_knownkey : Bool

-- `deleted` says that the object's memory was given back. `fault` records that a deleted object
-- was read or written, or that a null pcb was handed to lwIP.
pub record World : Type 0 where
  pub client : Client
  pub tracker : Tracker
  pub deleted : Bool
  pub fault : Bool
  pub trace : Trace

-- What the registered handlers do: any change of the state, calls of the client included.
abbrev pub App : Type 0
App = Handler → Event → World → World

abbrev pub log : Call → World → World
log c w = record w { trace = c ∷ w.trace }

abbrev pub set_client : Client → World → World
set_client c w = record w { client = c }

-- `setCloseError` and `setErrored` through the client's tracker.
abbrev pub close_error : Err → World → World
close_error e w = record w { tracker = set_close_error e w.tracker }

abbrev pub mark_errored : ErrorEvent → World → World
mark_errored ee w = record w { tracker = set_errored ee w.tracker }

-- A member is used after a handler may have deleted the object.
abbrev pub touch : World → World
touch w = record w { fault = w.fault || w.deleted }

abbrev pub fail : World → World
fail w = record w { fault = true }

-- lwIP is called on `_pcb`, which may be NULL.
abbrev pub on_pcb : (Pcb → World → World) → World → World
on_pcb f w = elim w.client.pcb [ none ↦ fail w | some p ↦ f p w ]

-- `if (_cb) _cb(_cb_arg, …)`
abbrev pub call_handler : App → Option Handler → Event → World → World
call_handler app none e w = w
call_handler app (some h) e w = app h e (log (invoke h e) w)

-- `tcp_arg`, `tcp_recv`, `tcp_sent`, `tcp_err` and `tcp_poll` with NULL
unfoldable pub clear_tcp_callbacks : Pcb → World → World
clear_tcp_callbacks p w = log (bind_slot poll_slot p false) (
    log (bind_slot err_slot p false) (
      log (bind_slot recv_slot p false)
        (log (bind_slot sent_slot p false) (log (bind_slot arg_slot p false) w))))
