-- ===== src/Client/OverGlue.antt =====
-- A client on the TLS glue: the answers of the glue to a client are those of the modelled glue, with
-- its sessions as the calls of the client so far have left them.
pub mod Hearing
pub mod Receiving
use espasync_tcp.Common.{
  ℕ, ◌≡◌, refl, sym, ap, ◌∙◌, Bool, true, false, Option, none, some, List, [], ◌∷◌, ◌++◌,
  append-nil, append_assoc, arith, if◌then◌else◌, ◌==◌, is_some,
}
use espasync_tcp.Lwip.{
  Pcb, Handler, Stack, Trace, Call, invoke, on_data, Event, Upcall, data_up, handshake_up, error_up,
  SslAnswer, ssl_new_client, ssl_new_server, ssl_free, ssl_write, ssl_read, bind_slot, ssl_arg_slot,
  ssl_data_slot, ssl_handshake_slot, ssl_err_slot,
}
use espasync_tcp.Client.State.{World, App, KeyType, log, touch, call_handler}
use espasync_tcp.Client.Upcalls.{upcall, deliver}
use espasync_tcp.Tls.State.{Engine, Session, Glue, Effect, called}
use espasync_tcp.Tls.Registry.{
  tcp_ssl_free, tcp_ssl_has, tcp_ssl_arg, tcp_ssl_data, tcp_ssl_handshake, tcp_ssl_err,
  tcp_ssl_new_server,
}
use espasync_tcp.Tls.Process.{Upper}
use espasync_tcp.Tls.Io.{tcp_ssl_read, tcp_ssl_write, tcp_ssl_new_client}
use espasync_tcp.Tls.Plaintext.{handed}

-- What the glue finds around it, as functions of the trace: the room in lwIP's send buffer, memory for
-- a session, the host name of a client and the key of a server.
pub record Surroundings : Type 0 where
  pub room : Trace → List Effect → Pcb → ℕ
  pub memory : Trace → Option (ℕ × Bool)
  pub host : Trace → Option (List ℕ)
  pub key : Trace → Option (Option KeyType)

-- the upcalls for `p`, in their order
unfoldable pub calls : Pcb → List Effect → List Upcall
calls p [] = []
calls p (called q u ∷ es) = if q == p then calls p es ++ u ∷ [] else calls p es
calls p (e ∷ es) = calls p es

-- the data in a run of upcalls
unfoldable pub plain : List Upcall → List ℕ
plain [] = []
plain (data_up bytes ∷ us) = bytes ++ plain us
plain (u ∷ us) = plain us

-- what the handler `h` got as data
unfoldable pub heard : Handler → Trace → List ℕ
heard h [] = []
heard h (invoke k (on_data bytes) ∷ t) = if k == h then heard h t ++ bytes else heard h t
heard h (c ∷ t) = heard h t

pub plain-append : (us vs : List Upcall) → plain (us ++ vs) ≡ plain us ++ plain vs
unfolding plain
plain-append [] vs = refl
plain-append (data_up bytes ∷ us) vs =
    ap (◌++◌ bytes) (plain-append us vs) ∙ sym (append_assoc bytes (plain us) (plain vs))
plain-append (handshake_up ∷ us) vs = plain-append us vs
plain-append (error_up e ∷ us) vs = plain-append us vs

module _ {E : Type 0} (b : Engine E) (fuel : ℕ) (around : Surroundings) (start : Glue E) where
  -- The upcalls are recorded, and made by the client when the call of the glue has ended.
  abbrev pub recording : Upper E
  recording p u g = g

  abbrev pub anew : Glue E → Glue E
  anew g = record g { effects = [] }

  unfoldable pub read_of : Trace → Pcb → List ℕ → Glue E → Bool × Glue E
  read_of t p bytes g = elim (tcp_ssl_read b recording (around.room t) fuel p bytes (anew g)) [
    | none ↦ (false, g)
    | some r ↦ r
  ]

  unfoldable pub write_of : Trace → Pcb → List ℕ → Glue E → Option ℕ × Glue E
  write_of t p bytes g = elim (tcp_ssl_write b recording (around.room t) fuel p bytes (anew g)) [
    | none ↦ (none, g)
    | some r ↦ r
  ]

  unfoldable pub client_of : Trace → Pcb → Glue E → Bool × Glue E
  client_of t p g =
      elim (tcp_ssl_new_client b recording (around.room t) fuel (around.memory t) (some p)
        (around.host t) (anew g)) [ none ↦ (false, g) | some r ↦ r ]

  unfoldable pub server_of : Trace → Pcb → Glue E → Bool × Glue E
  server_of t p g = tcp_ssl_new_server b (around.memory t) (some p) (around.key t) g

  -- what a call of the client does to the glue
  unfoldable pub after_call : Trace → Call → Glue E → Glue E
  unfolding read_of write_of client_of server_of
  after_call t (ssl_read p bytes) g = (read_of t p bytes g).1
  after_call t (ssl_write p bytes) g = (write_of t p bytes g).1
  after_call t (ssl_new_client p) g = (client_of t p g).1
  after_call t (ssl_new_server p) g = (server_of t p g).1
  after_call t (ssl_free p) g = (tcp_ssl_free p g).1
  after_call t (bind_slot ssl_arg_slot p set) g = tcp_ssl_arg p g
  after_call t (bind_slot ssl_data_slot p set) g = tcp_ssl_data p g
  after_call t (bind_slot ssl_handshake_slot p set) g = tcp_ssl_handshake p g
  after_call t (bind_slot ssl_err_slot p set) g = tcp_ssl_err p g
  after_call t c g = g

  -- the glue after all calls of a trace
  unfoldable pub replay : Trace → Glue E
  unfolding after_call
  replay [] = start
  replay (c ∷ t) = after_call t c (replay t)

  -- a stack with this glue
  unfoldable pub over_glue : Stack → Stack
  unfolding replay
  over_glue s = record s {
    ssl_read_result = λ t p bytes.
        let (ok, g) = read_of t p bytes (replay t) in
        record { upcalls = calls p g.effects; result = if ok then some 0 else none };
    ssl_write_result = λ t p bytes.
        let (n, g) = write_of t p bytes (replay t) in
        record { upcalls = calls p g.effects; result = n };
    ssl_new_client_ok = λ t p. (client_of t p (replay t)).0;
    ssl_new_server_ok = λ t p. (server_of t p (replay t)).0;
    ssl_has = λ t p. tcp_ssl_has p (replay t);
  }

  -- Handlers that leave the client alone, and call neither the glue nor the data handler.
  pub record Listens (app : App) (h : Handler) : Type 0 where
    pub keeps_client : (k : Handler) (e : Event) (w : World) → (app k e w).client ≡ w.client
    pub keeps_heard :
        (k : Handler) (e : Event) (w : World) → heard h (app k e w).trace ≡ heard h w.trace
    pub keeps_glue :
        (k : Handler) (e : Event) (w : World) → replay (app k e w).trace ≡ replay w.trace

pub plain-calls : (p : Pcb) (es : List Effect) → plain (calls p es) ≡ handed p es
unfolding plain calls handed
plain-calls p [] = refl
plain-calls p (called q (data_up bytes) ∷ es) =
    let last = plain-append (calls p es) (data_up bytes ∷ []) in
    ground (arith, plain-calls p es, last, append-nil bytes)
plain-calls p (called q handshake_up ∷ es) =
    let last = plain-append (calls p es) (handshake_up ∷ []) in
    ground (arith, plain-calls p es, last, append-nil (handed p es))
plain-calls p (called q (error_up r) ∷ es) =
    let last = plain-append (calls p es) (error_up r ∷ []) in
    ground (arith, plain-calls p es, last, append-nil (handed p es))
plain-calls p (e ∷ es) = plain-calls p es
