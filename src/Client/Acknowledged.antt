-- ===== src/Client/Acknowledged.antt =====
-- Sent data and its acknowledgements: what `_sent` counts and reports.
use espasync_tcp.Common.{
  ℕ, suc, ◌+◌, ◌-◌, ◌^◌, ◌≤◌, ◌<◌, ◌≡◌, refl, ap, ◌∙◌, false, some, List, [], ◌∷◌, ◌++◌, arith,
  if◌then◌else◌, sub32,
}
use espasync_tcp.Lwip.{Handler, Stack, Trace, invoke, on_ack, ok, clock}
use espasync_tcp.Client.State.{Handlers, World, App, log, close_error, set_client, touch}
use espasync_tcp.Client.Transmit.{sent, count_sent, finish_sent}

-- how many handlers were called
pub invocations : Trace → ℕ
invocations [] = 0
invocations (invoke h e ∷ t) = suc (invocations t)
invocations (c ∷ t) = invocations t

unfoldable pub sum : List ℕ → ℕ
sum [] = 0
sum (x ∷ xs) = x + sum xs

module _ (s : Stack) (app : App) where
  -- a run of `_sent` callbacks
  pub sent_all : List ℕ → World → World
  sent_all [] w = w
  sent_all (len ∷ lens) w = sent_all lens (sent s app len w)

  -- the state while data is unacknowledged, after `n` more bytes were acknowledged
  abbrev pub Waits : ℕ → World → World → Type 0
  Waits n w v =
      (v.client.tx_unacked_len ≡ w.client.tx_unacked_len - n)
      × (v.client.tx_acked_len ≡ w.client.tx_acked_len + n)
      × (v.client.pcb_busy ≡ w.client.pcb_busy)
      × (invocations v.trace ≡ invocations w.trace)
      × (v.client.use_tls ≡ w.client.use_tls)
      × (v.client.handlers ≡ w.client.handlers)
      × (v.tracker ≡ w.tracker)

  sent-Waits :
      (len : ℕ) (w : World)
      → w.client.use_tls ≡ false
      → len < w.client.tx_unacked_len
      → w.client.tx_acked_len + len < 2 ^ 32
      → Waits len w (sent s app len w)
  unfolding sent count_sent invocations
  sent-Waits len w t h k = ground arith

  -- On a plain client, as long as less is acknowledged than is outstanding, `_sent` only moves
  -- the bytes from the one counter to the other: it calls no handler, and whether the client is busy
  -- stays as it was. The acknowledged bytes stay below 2 ^ 32.
  pub sent_all-Waits :
      (lens : List ℕ) (w : World)
      → w.client.use_tls ≡ false
      → sum lens < w.client.tx_unacked_len
      → w.client.tx_acked_len + sum lens < 2 ^ 32
      → Waits (sum lens) w (sent_all lens w)
  unfolding sum sent_all
  sent_all-Waits [] w t h k = ground arith
  sent_all-Waits (len ∷ lens) w t h k =
      ground (arith, sent-Waits len w, sent_all-Waits lens (sent s app len w))

  -- the handler is told of `total` bytes and the time since the last send, and the count of
  -- acknowledged bytes starts anew, if the client is still there
  abbrev pub reported : Handler → ℕ → World → World
  reported h total v =
      let event = on_ack total (sub32 (s.millis v.trace) v.client.pcb_sent_at) in
      let w2 = app h event (log (invoke h event) (log clock v)) in
      if w2.tracker.has_client
      then set_client (record (touch w2).client { tx_acked_len = 0 }) (touch w2)
      else w2

  -- the state in which the handler of the last acknowledgement is called
  abbrev pub all_acked : ℕ → World → World
  all_acked len w =
      let w1 = count_sent s app len w in
      close_error ok (set_client (record w1.client { pcb_busy = false }) w1)

  sent-reported :
      (len total : ℕ) (h : Handler) (w : World)
      → w.client.use_tls ≡ false
      → w.client.tx_unacked_len ≤ len
      → w.client.tx_acked_len + len ≡ total
      → total < 2 ^ 32
      → w.client.handlers.sent_cb ≡ some h
      → sent s app len w ≡ reported h total (all_acked len w)
  unfolding sent count_sent finish_sent
  sent-reported len total h w t a b c e = ground arith

  sent_all-append :
      (lens : List ℕ) (len : ℕ) (w : World)
      → sent_all (lens ++ len ∷ []) w ≡ sent s app len (sent_all lens w)
  unfolding sent_all
  sent_all-append [] len w = refl
  sent_all-append (x ∷ xs) len w = sent_all-append xs len (sent s app x w)

  -- The acknowledgement that covers the rest of what a plain client has outstanding ends the
  -- transfer: the client is no longer busy, nothing is outstanding, and the handler is called, the
  -- first one since the transfer began, with all the bytes acknowledged since then, which are fewer
  -- than 2 ^ 32.
  pub sent_all-reported :
      (lens : List ℕ) (len : ℕ) (h : Handler) (w : World)
      → w.client.use_tls ≡ false
      → sum lens < w.client.tx_unacked_len
      → w.client.tx_unacked_len ≤ sum lens + len
      → w.client.tx_acked_len + (sum lens + len) < 2 ^ 32
      → w.client.handlers.sent_cb ≡ some h
      → (v : World) × (sent_all (lens ++ len ∷ []) w
          ≡ reported h (w.client.tx_acked_len + (sum lens + len)) v)
        × (v.client.pcb_busy ≡ false)
        × (v.client.tx_unacked_len ≡ 0)
        × (invocations v.trace ≡ invocations w.trace)
  unfolding count_sent invocations
  sent_all-reported lens len h w t a b c e =
      let u = sent_all lens w in
      let wait = sent_all-Waits lens w t a (omega arith) in
      (
        all_acked len u,
        sent_all-append lens len w
            ∙ sent-reported len _ h u (wait.4 ∙ t) (omega (arith, wait)) (omega (arith, wait)) c
                (ap (λ (x : Handlers). x.sent_cb) wait.5 ∙ e),
        refl,
        ground (arith, wait),
        wait.3,
      )
