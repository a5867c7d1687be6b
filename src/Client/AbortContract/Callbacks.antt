-- ===== src/Client/AbortContract/Callbacks.antt =====
-- The return values of `_s_poll`, `_s_sent` and `_s_recv` against their calls of `tcp_abort`.
use espasync_tcp.Common.{
  ℕ, suc, ◌≡◌, ◌⊎◌, inl, refl, true, false, some, List, [], ◌∷◌, arith, if-both, option-both, not,
  ◌&&◌, ◌==◌, sub32,
}
use espasync_tcp.Lwip.{
  Pcb, Pbuf, Err, Upcall, Stack, ok, is_ok, is_abrt, on_data, on_packet, on_ack, clock, ssl_read,
}
use espasync_tcp.Tracker.{ee_ok, is_ee_ok, set_close_error, get_callback_close_error}
use espasync_tcp.Client.State.{World, App, log, set_client, close_error, touch, call_handler}
use espasync_tcp.Client.Upcalls.{upcall, deliver}
use espasync_tcp.Client.Transmit.{sent, count_sent, finish_sent}
use espasync_tcp.Client.Receive.{
  recv, recv_data, recv_chain, recv_one, recv_tls, settle, hand_data, free_chain, chain_bytes,
}
use espasync_tcp.Client.Poll.{poll, poll_timeouts, ack_expired, rx_expired, handshake_expired}
use espasync_tcp.Client.Teardown.{shut}
use espasync_tcp.Client.Entry.{answer, s_poll, s_sent, s_recv}
use espasync_tcp.Client.AbortContract.{
  aborts, Calm, Honest, Quiet, Keeps, shut-Honest, call_handler-Honest, close_error-Calm,
  ok-is_abrt,
}

-- Of a callback that started after `n` aborts: it returned ERR_ABRT and called `tcp_abort` once, or
-- it returned another code and did not call it.
abbrev pub AbrtIffAborted : ℕ → Err × World → Type 0
AbrtIffAborted n r =
    ((is_abrt r.0 ≡ true) × (aborts r.1.trace ≡ suc n))
    ⊎ ((is_abrt r.0 ≡ false) × (aborts r.1.trace ≡ n))

pub answer-AbrtIffAborted : (n : ℕ) (w : World) → Honest n w → AbrtIffAborted n (answer w)
unfolding get_callback_close_error
answer-AbrtIffAborted n w h = ground arith

module _ (s : Stack) (app : App) (quiet : Quiet s) (keeps : Keeps app) where
  poll_timeouts-Honest : (n now : ℕ) (w : World) → Honest n w → Honest n (poll_timeouts s app now w)
  unfolding poll_timeouts
  poll_timeouts-Honest n now w h =
      if-both (Honest n) (ack_expired s app now w) (call_handler-Honest s app quiet keeps _ _ n _ h)
        (if-both (Honest n) (rx_expired s app now w) (shut-Honest s app quiet keeps n w h) (
          if-both (Honest n) (handshake_expired s app now w) (shut-Honest s app quiet keeps n w h)
            (call_handler-Honest s app quiet keeps _ _ n w h)))

  settle-Honest :
      (n : ℕ) (p : Pcb) (b : Pbuf) (w : World) → Honest n w → Honest n (settle s app p b w)
  unfolding settle aborts
  settle-Honest n p b w h =
      if-both (Honest n) w.tracker.has_client (if-both (Honest n) (not w.client.ack_pcb) h h) h

  hand_data-Honest : (n : ℕ) (b : Pbuf) (w : World) → Honest n w → Honest n (hand_data s app b w)
  unfolding hand_data
  hand_data-Honest n b w h =
      option-both (Honest n) w.client.handlers.recv_cb (λ _. h)
        (λ a _.
          call_handler-Honest s app quiet keeps (some a) (on_data b.payload) n
            (set_client (record w.client { recv_pbuf_flags = b.flags }) w) h)

  recv_one-Honest :
      (n : ℕ) (p : Pcb) (b : Pbuf) (w : World) → Honest n w → Honest n (recv_one s app p b w)
  unfolding recv_one aborts
  recv_one-Honest n p b w h =
      let w1 = set_client (record (touch w).client { ack_pcb = true }) (touch w) in
      option-both (Honest n) w.client.handlers.pb_cb
        (λ _. settle-Honest n p b (hand_data s app b w1) (hand_data-Honest n b w1 h))
        (λ a _. call_handler-Honest s app quiet keeps (some a) (on_packet b) n w1 h)

  free_chain-Honest : (n : ℕ) (bs : List Pbuf) (w : World) → Honest n w → Honest n (free_chain bs w)
  unfolding free_chain aborts
  free_chain-Honest n [] w h = h
  free_chain-Honest n (b ∷ bs) w h = free_chain-Honest n bs _ h

  recv_chain-Honest :
      (n : ℕ) (p : Pcb) (bs : List Pbuf) (w : World)
      → Honest n w
      → Honest n (recv_chain s app p bs w)
  unfolding recv_chain
  recv_chain-Honest n p [] w h = h
  recv_chain-Honest n p (b ∷ bs) w h =
      if-both (Honest n) w.tracker.has_client
        (recv_chain-Honest n p bs (recv_one s app p b w) (recv_one-Honest n p b w h))
        (free_chain-Honest n (b ∷ bs) w h)

  upcall-Honest : (n : ℕ) (u : Upcall) (w : World) → Honest n w → Honest n (upcall app u w)
  unfolding upcall
  upcall-Honest n (Upcall.data_up x) w h = call_handler-Honest s app quiet keeps _ _ n w h
  upcall-Honest n Upcall.handshake_up w h = call_handler-Honest s app quiet keeps _ _ n _ h
  upcall-Honest n (Upcall.error_up e) w h = call_handler-Honest s app quiet keeps _ _ n w h

  deliver-Honest : (n : ℕ) (us : List Upcall) (w : World) → Honest n w → Honest n (deliver app us w)
  unfolding deliver
  deliver-Honest n [] w h = h
  deliver-Honest n (u ∷ us) w h = deliver-Honest n us _ (upcall-Honest n u _ h)

  recv_tls-Honest :
      (n : ℕ) (p : Pcb) (pb : List Pbuf) (w : World) → Honest n w → Honest n (recv_tls s app p pb w)
  unfolding recv_tls aborts
  recv_tls-Honest n p pb w h =
      let answer = s.ssl_read_result w.trace p (chain_bytes pb) in
      let w0 = log (ssl_read p (chain_bytes pb)) w in
      let w1 = deliver app answer.upcalls w0 in
      option-both (Honest n) answer.result
        (λ _. shut-Honest s app quiet keeps n (touch w1) (deliver-Honest n answer.upcalls w0 h))
        (λ _ _. deliver-Honest n answer.upcalls w0 h)

  finish_sent-Honest : (n : ℕ) (w : World) → Calm n w → Honest n (finish_sent s app w)
  unfolding finish_sent aborts
  finish_sent-Honest n w h =
      let w1 = close_error ok (set_client (record w.client { pcb_busy = false }) w) in
      let calm = close_error-Calm n ok w ok-is_abrt h in
      option-both (Honest n) w.client.handlers.sent_cb (λ _. inl calm)
        (λ a _.
          let time = sub32 (s.millis w1.trace) w1.client.pcb_sent_at in
          let event = on_ack w1.client.tx_acked_len time in
          let w2 = call_handler app (some a) event (log clock w1) in
          let h2 =
            call_handler-Honest s app quiet keeps (some a) event n (log clock w1) (inl calm) in
          if-both (Honest n) w2.tracker.has_client h2 h2)

  recv_data-Honest :
      (n : ℕ) (p : Pcb) (pb : List Pbuf) (w : World) → Calm n w → Honest n (recv_data s app p pb w)
  unfolding recv_data aborts
  recv_data-Honest n p pb w c =
      let w0 = set_client (record w.client { rx_last_packet = s.millis w.trace }) (log clock w) in
      let w1 = close_error ok w0 in
      let h = inl (close_error-Calm n ok w0 ok-is_abrt c) in
      if-both (Honest n) w1.client.use_tls (recv_tls-Honest n p pb w1 h)
        (recv_chain-Honest n p pb w1 h)

  sent-Honest : (n len : ℕ) (w : World) → Calm n w → Honest n (sent s app len w)
  unfolding sent count_sent aborts
  sent-Honest n len w c =
      let w1 = count_sent s app len w in
      if-both (Honest n) (w.client.use_tls && not w.client.handshake_done) (inl c)
        (if-both (Honest n) (w1.client.tx_unacked_len == 0) (finish_sent-Honest n w1 c) (inl c))

  start-Calm : (w : World) → w.tracker.errored ≡ ee_ok → Calm (aborts w.trace) (close_error ok w)
  unfolding set_close_error is_ee_ok
  start-Calm w e = ground (arith, ok-is_abrt)

  -- From a client whose tracker holds no error event, the `_s_poll` callback returns ERR_ABRT if and
  -- only if it called `tcp_abort`, and it calls it at most once; so do the handlers that it runs.
  -- lwIP calls no error function that was taken back, and each handler keeps to the same rule.
  pub s_poll-AbrtIffAborted :
      (w : World) → w.tracker.errored ≡ ee_ok → AbrtIffAborted (aborts w.trace) (s_poll s app w)
  unfolding s_poll poll aborts
  s_poll-AbrtIffAborted w e =
      let w1 = close_error ok w in
      let n = aborts w.trace in
      let h = inl (start-Calm w e) in
      answer-AbrtIffAborted n (poll s app w) (
        if-both (Honest n) w1.client.close_pcb
          (shut-Honest s app quiet keeps n (set_client (record w1.client { close_pcb = false }) w1)
            h)
          (poll_timeouts-Honest n (s.millis w1.trace) (log clock w1) h))

  -- From a client whose tracker holds no error event and was not left at ERR_ABRT, `_s_recv` without
  -- an error, of a chain of packets or of the end of the stream, returns ERR_ABRT if and only if it
  -- called `tcp_abort`, and it calls it at most once; so do the handlers that it runs. lwIP calls no
  -- error function that was taken back, and each handler keeps to the same rule.
  pub s_recv-AbrtIffAborted :
      (p : Pcb) (pb : List Pbuf) (w : World)
      → w.tracker.errored ≡ ee_ok
      → is_abrt w.tracker.close_error ≡ false
      → AbrtIffAborted (aborts w.trace) (s_recv s app (some p) pb ok w)
  unfolding s_recv recv recv_data aborts is_ok
  s_recv-AbrtIffAborted p [] w e c =
      answer-AbrtIffAborted (aborts w.trace) (shut s app w)
        (shut-Honest s app quiet keeps (aborts w.trace) w (inl (e, refl, c)))
  s_recv-AbrtIffAborted p (b ∷ bs) w e c =
      let n = aborts w.trace in
      answer-AbrtIffAborted n (recv s app (some p) (b ∷ bs) ok w)
        (recv_data-Honest n p (b ∷ bs) w (e, refl, c))

  -- From a client whose tracker holds no error event and was not left at ERR_ABRT, `_s_sent` of any
  -- number of bytes returns ERR_ABRT if and only if `tcp_abort` was called in it, by a handler, and
  -- it is called at most once. lwIP calls no error function that was taken back, and each handler
  -- keeps to the same rule.
  pub s_sent-AbrtIffAborted :
      (len : ℕ) (w : World)
      → w.tracker.errored ≡ ee_ok
      → is_abrt w.tracker.close_error ≡ false
      → AbrtIffAborted (aborts w.trace) (s_sent s app len w)
  unfolding s_sent sent count_sent aborts
  s_sent-AbrtIffAborted len w e c =
      let n = aborts w.trace in
      answer-AbrtIffAborted n (sent s app len w) (sent-Honest n len w (e, refl, c))
