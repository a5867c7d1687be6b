-- ===== src/Server/Accepting.antt =====
-- What becomes of a connection that lwIP offers to a server.
use espasync_tcp.Common.{
  ◌≡◌, ◌⊎◌, ◌||◌, inl, inr, refl, true, false, Option, none, some, ◌∷◌, arith, if◌then◌else◌,
  Bool-cases, if-split, option-both, ap, sym, ◌∙◌,
}
use espasync_tcp.Lwip.{
  Pcb, Handler, Err, ok, abrt, Stack, Trace, is_ok, on_connect, tcp_close, tcp_abort,
  tcp_nagle_disable, tcp_nagle_enable,
}
use espasync_tcp.Client.State.{World, App, call_handler}
use espasync_tcp.Client.Create.{construct}
use espasync_tcp.Server.{Server, note, turn_away, welcome, accept}

-- the trace in which the connection is handed on or turned away
abbrev pub offered : Pcb → Server → Trace
offered p v = elim v.connect_cb [
  | none ↦ v.trace
  | some _ ↦ (if v.no_delay || v.ssl_ctx then tcp_nagle_disable p else tcp_nagle_enable p) ∷ v.trace
]

-- there is no connect handler, or no memory for a client
abbrev pub Unwanted : Stack → Pcb → Server → Type 0
Unwanted s p v = (v.connect_cb ≡ none) ⊎ (s.alloc_ok (offered p v) ≡ false)

-- The connection has one owner afterwards: a client, if there is memory for it, that the connect
-- handler was given; or, if it is unwanted, nobody: then `tcp_close` took the pcb, or it refused and
-- the pcb was aborted.
abbrev pub Settled : Stack → App → Pcb → Server → Err × Option World × Server → Type 0
Settled s app p v r =
    ((h : Handler) × (v.connect_cb ≡ some h)
      × (s.alloc_ok (offered p v) ≡ true)
      × (r.0 ≡ ok)
      × (r.1
          ≡ some (
              call_handler app (some h) on_connect
                (construct s app (some p) v.ssl_ctx (offered p v)))))
    ⊎ (Unwanted s p v
        × (is_ok (s.close_result (offered p v) p) ≡ true)
        × (r.1 ≡ none)
        × (r.0 ≡ ok)
        × (r.2.trace ≡ tcp_close p ∷ offered p v))
    ⊎ (Unwanted s p v
        × (is_ok (s.close_result (offered p v) p) ≡ false)
        × (r.1 ≡ none)
        × (r.0 ≡ abrt)
        × (r.2.trace ≡ tcp_abort p ∷ tcp_close p ∷ offered p v))

module _ (s : Stack) (app : App) where
  turn_away-Settled :
      (p : Pcb) (v v' : Server)
      → v'.trace ≡ offered p v
      → Unwanted s p v
      → (let (e, u) = turn_away s p v' in Settled s app p v (e, none, u))
  unfolding turn_away
  turn_away-Settled p v v' h why =
      let there = ap (λ (t : Trace). is_ok (s.close_result t p)) (sym h) in
      elim (Bool-cases (is_ok (s.close_result v'.trace p))) [
        | inl closes ↦ inr (inl (why, there ∙ closes, ground arith, ground arith, ground arith))
        | inr fails ↦ inr (inr (why, there ∙ fails, ground arith, ground arith, ground arith))
      ]

  -- A connection that lwIP offers without error ends in one of the three ways of `Settled`. If there
  -- is a connect handler and memory for a client, a client is made of it, on a pcb with Nagle's
  -- algorithm off just for a server without delay or with TLS, and the connect handler is called with
  -- that client. Otherwise the pcb is closed; and if `tcp_close` fails it is aborted, and just then
  -- `_accept` returns ERR_ABRT.
  pub accept-Settled : (p : Pcb) (v : Server) → Settled s app p v (accept s app (some p) ok v)
  unfolding accept welcome is_ok
  accept-Settled p v =
      option-both (Settled s app p v) v.connect_cb
        (λ nobody. turn_away-Settled p v v (offered-none nobody) (inl nobody))
        (λ h somebody.
          let v' =
            note (if v.no_delay || v.ssl_ctx then tcp_nagle_disable p else tcp_nagle_enable p) v in
          let same = offered-some h somebody in
          let there = ap s.alloc_ok (sym same) in
          if-split (Settled s app p v) (s.alloc_ok v'.trace)
            (λ memory. inl (
              h,
              somebody,
              there ∙ memory,
              refl,
              ap
                  (λ (t : Trace).
                    some
                      (call_handler app (some h) on_connect (construct s app (some p) v.ssl_ctx t)))
                  same,
            ))
            (λ no_memory. turn_away-Settled p v v' same (inr (there ∙ no_memory))))
    where
      offered-none : v.connect_cb ≡ none → v.trace ≡ offered p v
      offered-none e = ground arith

      offered-some :
          (h : Handler)
          → v.connect_cb ≡ some h
          → (if v.no_delay || v.ssl_ctx then tcp_nagle_disable p else tcp_nagle_enable p) ∷ v.trace
            ≡ offered p v
      offered-some h e = ground arith

  -- An error, or no pcb, is ignored: nothing is called and nothing changes.
  pub accept-refused :
      (p : Option Pcb) (e : Err) (v : Server)
      → (p ≡ none) ⊎ (is_ok e ≡ false)
      → accept s app p e v ≡ (ok, none, v)
  unfolding accept
  accept-refused none e v h = refl
  accept-refused (some p) e v (inl h) = cc
  accept-refused (some p) e v (inr h) = rw h
