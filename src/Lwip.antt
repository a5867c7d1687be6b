-- ===== src/Lwip.antt =====
-- What the library calls and does not implement: the raw TCP interface of lwIP, the clock, and the
-- TLS glue as its clients see it. Every call is recorded in a trace, newest first, and what the
-- stack answers is a function of the trace up to the call.
use espasync_tcp.Common.{ℕ, Bool, true, false, Option, List}

-- The address of a `tcp_pcb`.
abbrev pub Pcb : Type 0
Pcb = ℕ

-- A registered handler with its argument, as the application knows it.
abbrev pub Handler : Type 0
Handler = ℕ

-- `err_t`: the codes that `errorToString` names, and any other.
pub data Err : Type 0 where
  ok mem buf timeout rte inprogress val wouldblock abrt rst clsd conn arg : Err
  use_ already if_ isconn dns_failed : Err
  -- `err + 64` of an error of the TLS engine, as the 8 bits of an `int8_t`
  ssl : ℕ → Err
  other : ℕ → Err

unfoldable pub is_ok : Err → Bool
is_ok ok = true
is_ok _ = false

unfoldable pub is_abrt : Err → Bool
is_abrt abrt = true
is_abrt _ = false

-- One `pbuf` of a chain; the chain is a list, and NULL is the empty list.
pub record Pbuf : Type 0 where
  pub address : ℕ
  pub payload : List ℕ
  pub flags : ℕ

-- What a handler is called with.
pub data Event : Type 0 where
  on_connect on_disconnect on_poll : Event
  on_ack : ℕ → ℕ → Event
  on_error : Err → Event
  on_data : List ℕ → Event
  on_packet : Pbuf → Event
  on_timeout : ℕ → Event

-- The static functions that `tcp_recv`, `tcp_sent`, … and `tcp_ssl_data`, … register.
pub data Slot : Type 0 where
  arg_slot recv_slot sent_slot err_slot poll_slot accept_slot : Slot
  ssl_arg_slot ssl_data_slot ssl_handshake_slot ssl_err_slot : Slot

-- Calls out of the library. In `bind_slot` the flag says whether a function or NULL is registered.
pub data Call : Type 0 where
  tcp_new clock : Call
  tcp_setprio tcp_close tcp_abort tcp_output tcp_listen : Pcb → Call
  bind_slot : Slot → Pcb → Bool → Call
  tcp_connect tcp_bind tcp_recved : Pcb → ℕ → Call
  tcp_write : Pcb → List ℕ → ℕ → Call
  tcp_nagle_disable tcp_nagle_enable : Pcb → Call
  dns_gethostbyname : List ℕ → Call
  pbuf_free : ℕ → Call
  ssl_new_client ssl_new_server ssl_free : Pcb → Call
  ssl_write ssl_read : Pcb → List ℕ → Call
  -- the handler is called
  invoke : Handler → Event → Call

abbrev pub Trace : Type 0
Trace = List Call

-- What the TLS glue calls back while it writes or reads.
pub data Upcall : Type 0 where
  data_up : List ℕ → Upcall
  handshake_up : Upcall
  error_up : ℕ → Upcall

-- The upcalls in their order, then the result; `none` is a negative one.
pub record SslAnswer : Type 0 where
  pub upcalls : List Upcall
  pub result : Option ℕ

-- What `dns_gethostbyname` answers at once.
pub data DnsAnswer : Type 0 where
  resolved pending failed : DnsAnswer

pub record Stack : Type 0 where
  pub millis : Trace → ℕ
  pub pcb_state : Trace → Pcb → ℕ
  pub sndbuf : Trace → Pcb → ℕ
  pub new_pcb : Trace → Option Pcb
  pub connect_result : Trace → Pcb → Err
  pub close_result : Trace → Pcb → Err
  pub write_result : Trace → Pcb → Err
  pub output_result : Trace → Pcb → Err
  -- whether `tcp_abort` calls a registered error function before it returns
  pub abort_notifies : Trace → Pcb → Bool
  pub bind_result : Trace → Pcb → Err
  pub listen_result : Trace → Pcb → Option Pcb
  pub dns_result : Trace → DnsAnswer
  pub alloc_ok : Trace → Bool
  pub ssl_new_server_ok : Trace → Pcb → Bool
  pub ssl_new_client_ok : Trace → Pcb → Bool
  pub ssl_write_result : Trace → Pcb → List ℕ → SslAnswer
  pub ssl_read_result : Trace → Pcb → List ℕ → SslAnswer
  pub ssl_has : Trace → Pcb → Bool
