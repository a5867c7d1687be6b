-- ===== src/Server.antt =====
-- src/ESPAsyncTCPServer.cpp and .h, built with ASYNC_TCP_SSL_ENABLED: the listening socket and the
-- clients that it accepts.
pub mod Lifecycle
pub mod Accepting
use espasync_tcp.Common.{ℕ, ◌||◌, Bool, true, false, Option, none, some, ◌∷◌, if◌then◌else◌}
use espasync_tcp.Lwip.{
  Pcb, Handler, Err, ok, abrt, on_connect, is_ok, Call, Trace, Stack, tcp_new, tcp_setprio,
  tcp_bind, tcp_close, tcp_abort, tcp_listen, bind_slot, arg_slot, accept_slot, tcp_nagle_disable,
  tcp_nagle_enable, invoke,
}
use espasync_tcp.Client.State.{World, App, call_handler}
use espasync_tcp.Client.Create.{construct}

-- `AsyncServer`; the address is lwIP's, and a TLS context is kept as the fact that there is one
pub record Server : Type 0 where
  pub port : ℕ
  pub no_delay : Bool
  pub pcb : Option Pcb
  pub connect_cb : Option Handler
  pub ssl_ctx : Bool
  pub trace : Trace

abbrev pub note : Call → Server → Server
note c v = record v { trace = c ∷ v.trace }

-- `AsyncServer(addr, port)` and `AsyncServer(port)`
abbrev pub new_server : ℕ → Trace → Server
new_server port t = record {
  port = port;
  no_delay = false;
  pcb = none;
  connect_cb = none;
  ssl_ctx = false;
  trace = t;
}

unfoldable pub on_client : Option Handler → Server → Server
on_client cb v = record v { connect_cb = cb }

unfoldable get_no_delay : Server → Bool
get_no_delay v = v.no_delay

unfoldable pub set_no_delay : Bool → Server → Server
set_no_delay nodelay v = record v { no_delay = nodelay }

-- the tail of `begin`, on the listening pcb
abbrev pub listen_on : Pcb → Server → Server
listen_on l v =
    note (bind_slot accept_slot l true)
      (note (bind_slot arg_slot l true) (record v { pcb = some l }))

module _ (s : Stack) where
  -- the part of `begin` after `tcp_bind` succeeded
  unfoldable pub start_listening : Pcb → Server → Server
  start_listening p v =
      let v' = note (tcp_listen p) v in
      elim (s.listen_result v.trace p) [ none ↦ note (tcp_close p) v' | some l ↦ listen_on l v' ]

  -- the part of `begin` after a pcb was allocated
  unfoldable pub bind_and_listen : Pcb → Server → Server
  unfolding start_listening
  bind_and_listen p v =
      let v1 = note (tcp_setprio p) v in
      let v2 = note (tcp_bind p v1.port) v1 in
      if is_ok (s.bind_result v1.trace p) then start_listening p v2 else note (tcp_close p) v2

  unfoldable pub begin : Server → Server
  unfolding bind_and_listen
  begin v = elim v.pcb [
    | some _ ↦ v
    | none ↦ elim (s.new_pcb v.trace) [
      | none ↦ note tcp_new v
      | some p ↦ bind_and_listen p (note tcp_new v)
    ]
  ]

  -- `beginSecure`; the flag says whether `tcp_ssl_new_server_ctx` makes a context
  unfoldable pub begin_secure : Bool → Server → Server
  unfolding begin
  begin_secure ctx_ok v =
      if v.ssl_ctx then v else (if ctx_ok then begin (record v { ssl_ctx = true }) else v)

  -- the part of `end` for a listening pcb
  unfoldable pub stop_listening : Pcb → Server → Server
  stop_listening p v =
      let v1 = note (bind_slot accept_slot p false) (note (bind_slot arg_slot p false) v) in
      let v2 = note (tcp_close p) v1 in
      record (if is_ok (s.close_result v1.trace p) then v2 else note (tcp_abort p) v2) {
        pcb = none;
      }

  -- `end`, which is the destructor too
  unfoldable pub end : Server → Server
  unfolding stop_listening
  end v =
      let v1 : Server = elim v.pcb [ none ↦ v | some p ↦ stop_listening p v ] in
      record v1 { ssl_ctx = false }

  -- `~AsyncServer()`
  unfoldable destroy : Server → Server
  unfolding end
  destroy v = end v

  unfoldable pub status : Server → ℕ
  status v = elim v.pcb [ none ↦ 0 | some p ↦ s.pcb_state v.trace p ]

  -- the pcb of a connection that no client takes is closed or aborted
  unfoldable pub turn_away : Pcb → Server → Err × Server
  turn_away p v =
      let v' = note (tcp_close p) v in
      if is_ok (s.close_result v.trace p) then (ok, v') else (abrt, note (tcp_abort p) v')

  -- the part of `_accept` that makes the client and hands it to the connect handler `h`; the client
  -- is in the state in which the handler leaves it
  unfoldable pub welcome : App → Handler → Pcb → Server → Err × Option World × Server
  unfolding turn_away
  welcome app h p v =
      if s.alloc_ok v.trace
      then (let c =
            call_handler app (some h) on_connect (construct s app (some p) v.ssl_ctx v.trace) in
          (ok, some c, record v { trace = c.trace }))
      else (let (e, v') = turn_away p v in (e, none, v'))

  -- `_accept`
  unfoldable pub accept : App → Option Pcb → Err → Server → Err × Option World × Server
  unfolding turn_away welcome
  accept app none e v = (ok, none, v)
  accept app (some p) e v =
      if is_ok e
      then elim v.connect_cb [
        | none ↦ (let (r, v') = turn_away p v in (r, none, v'))
        | some h ↦
            welcome app h p
              (note (if v.no_delay || v.ssl_ctx then tcp_nagle_disable p else tcp_nagle_enable p) v)
      ]
      else (ok, none, v)

  -- `_s_accept`, on the server that is its argument
  unfoldable s_accept : App → Option Pcb → Err → Server → Err × Option World × Server
  unfolding accept
  s_accept app p e v = accept app p e v
