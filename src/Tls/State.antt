-- ===== src/Tls/State.antt =====
-- The state of the glue: one session for each TLS connection, in a linked list. The BearSSL engine
-- is a parameter, seen through the buffers that it hands out.
use espasync_tcp.Common.{
  ℕ, ◌-◌, Bool, true, Option, none, some, List, [], ◌∷◌, if◌then◌else◌, ◌==◌, length,
}
use espasync_tcp.Lwip.{Pcb, Upcall}

-- The calls of BearSSL's engine that the glue makes, on the engine's state.
pub record Engine (E : Type 0) : Type 0 where
  -- bits of `br_ssl_engine_current_state`
  pub closed : E → Bool
  pub recvapp : E → Bool
  pub sendapp : E → Bool
  pub last_error : E → ℕ
  -- the bytes in the buffer of `br_ssl_engine_recvapp_buf`, and `br_ssl_engine_recvapp_ack` of all
  pub recvapp_buf : E → List ℕ
  pub recvapp_ack : E → E
  -- the same for `sendrec`
  pub sendrec_buf : E → List ℕ
  pub sendrec_ack : E → E
  -- the room in the buffer of `br_ssl_engine_sendapp_buf`, and filling it followed by the `ack`
  pub sendapp_room : E → ℕ
  pub sendapp_put : List ℕ → E → E
  -- the same for `recvrec`
  pub recvrec_room : E → ℕ
  pub recvrec_put : List ℕ → E → E
  pub flush : E → E
  -- the engines that `br_ssl_client_reset` and `br_ssl_server_init_full_*` set up
  pub new_client : Option (List ℕ) → Option E
  pub new_server : E

-- `ASYNC_TCP_SSL_IN_BUFFER_SIZE`, `ASYNC_TCP_SSL_OUT_BUFFER_SIZE` and
-- `ASYNC_TCP_SSL_MAX_FEED_LOOPS`
abbrev pub in_buffer_size : ℕ
in_buffer_size = 1024

abbrev pub out_buffer_size : ℕ
out_buffer_size = 1024

abbrev pub max_feed_loops : ℕ
max_feed_loops = 10

-- `tcp_ssl_pcb`, at `address`. `accum` holds the bytes of `recvrec_accum` from
-- `recvrec_accum_pos` to the end of that array.
pub record Session (E : Type 0) : Type 0 where
  pub address : ℕ
  pub tcp : Pcb
  pub engine : E
  pub is_server : Bool
  pub handshake_done : Bool
  pub has_arg : Bool
  pub on_data : Bool
  pub on_handshake : Bool
  pub on_error : Bool
  pub accum : List ℕ

-- `recvrec_accum_pos`
abbrev pub accum_pos : {E : Type 0} → Session E → ℕ
accum_pos n = in_buffer_size - length n.accum

-- What the glue does to the outside.
pub data Effect : Type 0 where
  wrote recved : Pcb → List ℕ → Effect
  -- bytes given to the engine of the connection, by `br_ssl_engine_recvrec_ack`
  fed : Pcb → List ℕ → Effect
  output : Pcb → Effect
  freed_pbuf : Effect
  called : Pcb → Upcall → Effect

-- `tcp_ssl_pcbs`, the effects so far, newest first, and whether a freed session was used
pub record Glue (E : Type 0) : Type 0 where
  pub sessions : List (Session E)
  pub effects : List Effect
  pub fault : Bool

module _ {E : Type 0} where
  abbrev pub emit : Effect → Glue E → Glue E
  emit e g = record g { effects = e ∷ g.effects }

  abbrev pub use_freed : Glue E → Glue E
  use_freed g = record g { fault = true }

  -- the session behind a pointer
  unfoldable pub deref : ℕ → List (Session E) → Option (Session E)
  deref a [] = none
  deref a (n ∷ ns) = if n.address == a then some n else deref a ns

  -- a write through a pointer
  unfoldable pub update : ℕ → Session E → List (Session E) → List (Session E)
  update a m [] = []
  update a m (n ∷ ns) = if n.address == a then m ∷ ns else n ∷ update a m ns

  abbrev pub store : Session E → Glue E → Glue E
  store n g = record g { sessions = update n.address n g.sessions }
