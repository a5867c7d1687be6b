-- ===== src/Server/Lifecycle.antt =====
-- Starting and stopping a server.
use espasync_tcp.Common.{
  ◌≡◌, ◌⊎◌, inl, inr, Bool, true, false, none, some, ◌∷◌, arith, if◌then◌else◌, Option-cases,
  Bool-cases,
}
use espasync_tcp.Lwip.{
  Pcb, Stack, Trace, is_ok, tcp_new, tcp_setprio, tcp_bind, tcp_listen, tcp_close, tcp_abort,
  bind_slot, arg_slot, accept_slot,
}
use espasync_tcp.Server.{
  Server, begin, bind_and_listen, start_listening, begin_secure, end, stop_listening, status,
}

-- a pcb is made, and then bound
abbrev pub made : Pcb → Server → Trace
made p v = tcp_setprio p ∷ tcp_new ∷ v.trace

abbrev pub bound : Pcb → Server → Trace
bound p v = tcp_bind p v.port ∷ made p v

-- What `begin` of a stopped server leaves: no pcb was to be had; or the one that was made is closed
-- again, because `tcp_bind` or then `tcp_listen` failed; or both succeeded, and the server listens on
-- the pcb that lwIP gave back for it, with its accept function set.
abbrev pub Started : Stack → Server → Server → Type 0
Started s v v' =
    ((s.new_pcb v.trace ≡ none) × (v'.pcb ≡ none) × (v'.trace ≡ tcp_new ∷ v.trace))
    ⊎ ((p : Pcb) × (s.new_pcb v.trace ≡ some p)
        × (v'.pcb ≡ none)
        × (((is_ok (s.bind_result (made p v) p) ≡ false) × (v'.trace ≡ tcp_close p ∷ bound p v))
            ⊎ ((is_ok (s.bind_result (made p v) p) ≡ true)
                × (s.listen_result (bound p v) p ≡ none)
                × (v'.trace ≡ tcp_close p ∷ tcp_listen p ∷ bound p v))))
    ⊎ ((p : Pcb) × (l : Pcb) × (s.new_pcb v.trace ≡ some p)
        × (is_ok (s.bind_result (made p v) p) ≡ true)
        × (s.listen_result (bound p v) p ≡ some l)
        × (v'.pcb ≡ some l)
        × (v'.trace
            ≡ bind_slot accept_slot l true ∷ bind_slot arg_slot l true ∷ tcp_listen p ∷ bound p v))

module _ (s : Stack) where
  -- `begin` of a stopped server ends in one of the three ways of `Started`: it keeps no pcb on any
  -- error path, and it listens just if the pcb that it made could be bound to its port and lwIP then
  -- made a listening pcb of it, and on that pcb.
  pub begin-Started : (v : Server) → v.pcb ≡ none → Started s v (begin s v)
  unfolding begin bind_and_listen start_listening
  begin-Started v h = elim (Option-cases (s.new_pcb v.trace)) [
    | inl e ↦ inl (e, ground arith, ground arith)
    | inr (p, e) ↦ inr (allocated p e)
  ]
    where
      allocated :
          (p : Pcb)
          → s.new_pcb v.trace ≡ some p
          → ((p : Pcb) × (s.new_pcb v.trace ≡ some p)
              × ((begin s v).pcb ≡ none)
              × (((is_ok (s.bind_result (made p v) p) ≡ false)
                    × ((begin s v).trace ≡ tcp_close p ∷ bound p v))
                  ⊎ ((is_ok (s.bind_result (made p v) p) ≡ true)
                      × (s.listen_result (bound p v) p ≡ none)
                      × ((begin s v).trace ≡ tcp_close p ∷ tcp_listen p ∷ bound p v))))
            ⊎ ((p : Pcb) × (l : Pcb) × (s.new_pcb v.trace ≡ some p)
                × (is_ok (s.bind_result (made p v) p) ≡ true)
                × (s.listen_result (bound p v) p ≡ some l)
                × ((begin s v).pcb ≡ some l)
                × ((begin s v).trace
                    ≡ bind_slot accept_slot l true
                      ∷ bind_slot arg_slot l true
                      ∷ tcp_listen p
                      ∷ bound p v))
      allocated p e = elim (Bool-cases (is_ok (s.bind_result (made p v) p))) [
        | inr no_bind ↦ inl (p, e, ground arith, inl (no_bind, ground arith))
        | inl yes_bind ↦ elim (Option-cases (s.listen_result (bound p v) p)) [
          | inl no_listen ↦ inl (p, e, ground arith, inr (yes_bind, no_listen, ground arith))
          | inr (l, listens) ↦ inr (p, l, e, yes_bind, listens, ground arith, ground arith)
        ]
      ]

  -- what `end` calls: a pcb that the server holds is closed, and then aborted if that fails
  abbrev pub released : Server → Trace
  released v = elim v.pcb [
    | none ↦ v.trace
    | some p ↦
        let t = bind_slot accept_slot p false ∷ bind_slot arg_slot p false ∷ v.trace in
        if is_ok (s.close_result t p) then tcp_close p ∷ t else tcp_abort p ∷ tcp_close p ∷ t
  ]

  -- After `end`, whatever lwIP answers, the server holds no pcb and no TLS context, its status is 0,
  -- a second `end` changes nothing, and a pcb that it held was closed, and then aborted if that
  -- failed.
  pub end-releases :
      (v : Server)
      → ((end s v).pcb ≡ none)
        × ((end s v).ssl_ctx ≡ false)
        × (status s (end s v) ≡ 0)
        × (end s (end s v) ≡ end s v)
        × ((end s v).trace ≡ released v)
  unfolding end stop_listening status
  end-releases v = (ground arith, ground arith, ground arith, ground arith, ground arith)

  ssl_ctx-begin : (v : Server) → (begin s v).ssl_ctx ≡ v.ssl_ctx
  unfolding begin bind_and_listen start_listening
  ssl_ctx-begin v = ground arith

  -- If `beginSecure` of a server without a TLS context makes one, but `begin` cannot listen, a second
  -- `beginSecure` leaves the server stopped, even where lwIP would now let it listen; after `end` it
  -- starts like a fresh one.
  pub begin_secure-stuck :
      (later : Stack) (v : Server) (ctx_ok : Bool)
      → v.ssl_ctx ≡ false
      → (begin_secure s true v).pcb ≡ none
      → (begin_secure later ctx_ok (begin_secure s true v) ≡ begin_secure s true v)
        × ((begin_secure later true (end s (begin_secure s true v))).pcb
            ≡ (begin later (record (begin_secure s true v) { ssl_ctx = true })).pcb)
  unfolding begin_secure end
  begin_secure-stuck later v ctx_ok h k =
      ground (arith, ssl_ctx-begin (record v { ssl_ctx = true }))
