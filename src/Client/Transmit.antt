-- ===== src/Client/Transmit.antt =====
-- Sending: `add`, `send`, `write`, and the `_sent` callback.
use espasync_tcp.Common.{
  ℕ, ◌-◌, ◌&&◌, Bool, true, false, not, Option, none, some, List, if◌then◌else◌, ltb, ◌==◌, take,
  add32, sub32,
}
use espasync_tcp.Lwip.{Pcb, ok, is_ok, on_ack, Stack, clock, tcp_write, tcp_output, ssl_write}
use espasync_tcp.Client.State.{World, App, log, set_client, close_error, touch, fail, call_handler}
use espasync_tcp.Client.Status.{space}
use espasync_tcp.Client.Upcalls.{deliver}
use espasync_tcp.Client.Teardown.{shut}

module _ (s : Stack) (app : App) where
  -- `_tx_unacked_len += n`
  abbrev pub count_unacked : ℕ → World → World
  count_unacked n w =
      set_client (record w.client { tx_unacked_len = add32 w.client.tx_unacked_len n }) w

  -- the TLS branch of `add`; `bytes` are the `size` bytes at `data`
  unfoldable pub add_tls : Pcb → List ℕ → World → ℕ × World
  add_tls p bytes w =
      let answer = s.ssl_write_result w.trace p bytes in
      let w' = touch (deliver app answer.upcalls (log (ssl_write p bytes) w)) in
      elim answer.result [ none ↦ (0, shut s app w') | some n ↦ (n, count_unacked n w') ]

  -- the plain branch of `add`
  unfoldable pub add_plain : Pcb → List ℕ → ℕ → ℕ → World → ℕ × World
  add_plain p bytes size flags w =
      let n : ℕ = if ltb (space s w) size then space s w else size in
      let w' = log (tcp_write p (take n bytes) flags) w in
      if is_ok (s.write_result w.trace p) then (n, count_unacked n w') else (0, w')

  -- `add(data, size, apiflags)`; `none` is a NULL pointer
  unfoldable pub add : Option (List ℕ) → ℕ → ℕ → World → ℕ × World
  unfolding add_tls add_plain
  add none size flags w = (0, w)
  add (some bytes) size flags w = elim w.client.pcb [
    | none ↦ (0, w)
    | some p ↦
        if size == 0
        then (0, w)
        else (if space s w == 0
            then (0, w)
            else (if w.client.use_tls
                then add_tls p (take size bytes) w
                else add_plain p bytes size flags w))
  ]

  unfoldable pub send : World → Bool × World
  send w = if w.client.use_tls then (true, w) else elim w.client.pcb [
    | none ↦ (false, fail w)
    | some p ↦
        let w' = log (tcp_output p) w in
        if is_ok (s.output_result w.trace p)
        then (
          true,
          set_client (record w'.client { pcb_busy = true; pcb_sent_at = s.millis w'.trace })
              (log clock w'),
        )
        else (false, w')
  ]

  -- `write(data, size, apiflags)`
  unfoldable pub write : Option (List ℕ) → ℕ → ℕ → World → ℕ × World
  write bytes size flags w =
      let (n, w1) = add bytes size flags w in
      if n == 0
      then (0, w1)
      else (let (sent_ok, w2) = send w1 in if sent_ok then (n, w2) else (0, w2))

  -- the counters that `_sent` updates
  unfoldable pub count_sent : ℕ → World → World
  count_sent len w =
      let unacked = w.client.tx_unacked_len in
      set_client
        (record w.client {
          rx_last_packet = s.millis w.trace;
          tx_unacked_len = unacked - (if ltb len unacked then len else unacked);
          tx_acked_len = add32 w.client.tx_acked_len len;
        })
        (log clock w)

  abbrev reset_acked : World → World
  reset_acked w = set_client (record w.client { tx_acked_len = 0 }) w

  -- the part of `_sent` that runs when nothing is left unacknowledged
  unfoldable pub finish_sent : World → World
  finish_sent w =
      let w1 = close_error ok (set_client (record w.client { pcb_busy = false }) w) in
      elim w1.client.handlers.sent_cb [
        | none ↦ reset_acked w1
        | some h ↦
            let time = sub32 (s.millis w1.trace) w1.client.pcb_sent_at in
            let w2 =
              call_handler app (some h) (on_ack w1.client.tx_acked_len time) (log clock w1) in
            if w2.tracker.has_client then reset_acked (touch w2) else w2
      ]

  -- `_sent`
  unfoldable pub sent : ℕ → World → World
  unfolding count_sent finish_sent
  sent len w =
      if w.client.use_tls && not w.client.handshake_done
      then w
      else (let w1 = count_sent len w in
          if w1.client.tx_unacked_len == 0 then finish_sent w1 else w1)
