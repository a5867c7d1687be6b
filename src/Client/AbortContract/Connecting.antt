-- ===== src/Client/AbortContract/Connecting.antt =====
-- The return value of `_s_connected` against the calls of `tcp_abort`, and what a call of `abort`
-- does to it.
use espasync_tcp.Common.{
  ℕ, suc, ◌≡◌, inl, refl, false, none, some, arith, if-both, option-both, not,
}
use espasync_tcp.Lwip.{Pcb, Stack, ok, is_ok, is_abrt, on_connect, ssl_new_client}
use espasync_tcp.Tracker.{ee_ok, is_ee_ok, set_close_error, set_errored, get_callback_close_error}
use espasync_tcp.Client.State.{World, App, log}
use espasync_tcp.Client.Status.{connected}
use espasync_tcp.Client.Connect.{
  on_connected, adopt, start_tls, announce, bind_ssl, init_client_x509_validator,
}
use espasync_tcp.Client.Teardown.{abort, run_tcp_abort, s_error, error, drop_pcb}
use espasync_tcp.Client.Entry.{answer, s_connected}
use espasync_tcp.Client.AbortContract.{
  aborts, Calm, Honest, Quiet, Keeps, shut-Honest, call_handler-Honest,
}
use espasync_tcp.Client.AbortContract.Callbacks.{AbrtIffAborted, answer-AbrtIffAborted}

module _ (s : Stack) (app : App) (quiet : Quiet s) (keeps : Keeps app) where
  announce-Honest : (n : ℕ) (w : World) → Honest n w → Honest n (announce s app w)
  unfolding announce
  announce-Honest n w h =
      option-both (Honest n) w.client.handlers.connect_cb (λ _. h)
        (λ k _.
          if-both (Honest n) (connected s w)
            (call_handler-Honest s app quiet keeps (some k) on_connect n w h) h)

  start_tls-Honest : (n : ℕ) (w : World) → Honest n w → Honest n (start_tls s app w)
  unfolding start_tls bind_ssl aborts
  start_tls-Honest n w h =
      option-both (Honest n) w.client.pcb (λ _. shut-Honest s app quiet keeps n w h)
        (λ p _.
          let w1 = log (ssl_new_client p) w in
          if-both (Honest n) (s.ssl_new_client_ok w.trace p) (announce-Honest n (bind_ssl p w1) h)
            (shut-Honest s app quiet keeps n w1 h))

  validator-Calm : (n : ℕ) (w : World) → Calm n w → Calm n (init_client_x509_validator s app w).1
  unfolding init_client_x509_validator
  validator-Calm n w c = ground arith

  on_connected-Honest :
      (n : ℕ) (p : Pcb) (w : World) → Calm n w → Honest n (on_connected s app (some p) ok w)
  unfolding on_connected adopt aborts is_ok
  on_connected-Honest n p w c =
      let w1 = adopt s app p w in
      let (valid, w2) = init_client_x509_validator s app w1 in
      let h2 = inl (validator-Calm n w1 c) in
      if-both (Honest n) w1.client.use_tls
        (start_tls-Honest n _ (if-both (Honest n) valid h2 (shut-Honest s app quiet keeps n w2 h2)))
        (announce-Honest n w1 (inl c))

  -- From a client whose tracker holds no error event and was not left at ERR_ABRT, `_s_connected`
  -- without an error returns ERR_ABRT if and only if it called `tcp_abort`, and it calls it at most
  -- once, on every branch of the TLS set-up. lwIP calls no error function that was taken back, and
  -- each handler keeps to the same rule.
  pub s_connected-AbrtIffAborted :
      (p : Pcb) (w : World)
      → w.tracker.errored ≡ ee_ok
      → is_abrt w.tracker.close_error ≡ false
      → AbrtIffAborted (aborts w.trace) (s_connected s app (some p) ok w)
  unfolding s_connected
  s_connected-AbrtIffAborted p w e c =
      let n = aborts w.trace in
      answer-AbrtIffAborted n (on_connected s app (some p) ok w)
        (on_connected-Honest n p w (e, refl, c))

module _ (s : Stack) (app : App) where
  -- A client without error and disconnect handlers is aborted while its error function is
  -- registered, from within a callback. If lwIP calls that function from `tcp_abort`, the callback
  -- returns ERR_OK although it aborted the pcb; if not, it returns ERR_ABRT.
  pub abort-answer :
      (p : Pcb) (w : World)
      → w.client.pcb ≡ some p
      → w.tracker.errored ≡ ee_ok
      → w.client.handlers.error_cb ≡ none
      → w.client.handlers.discard_cb ≡ none
      → let r = answer (abort s app w) in
        (aborts r.1.trace ≡ suc (aborts w.trace))
        × (r.1.client.pcb ≡ none)
        × (is_abrt r.0 ≡ not (s.abort_notifies w.trace p))
  unfolding abort run_tcp_abort s_error error drop_pcb set_close_error set_errored
      get_callback_close_error is_ee_ok aborts is_abrt
  abort-answer p w a e h d = ground arith
