-- ===== src/Client/Poll.antt =====
-- The `_poll` callback: a requested close and the three timeouts.
use espasync_tcp.Common.{ℕ, ◌*◌, ◌%◌, ◌^◌, ◌&&◌, Bool, false, not, if◌then◌else◌, leb, ◌==◌, sub32}
use espasync_tcp.Lwip.{ok, on_poll, on_timeout, Stack, clock}
use espasync_tcp.Client.State.{World, App, log, set_client, close_error, call_handler}
use espasync_tcp.Client.Teardown.{shut}

-- `TCP_SSL_HANDSHAKE_TIMEOUT`
abbrev pub handshake_timeout : ℕ
handshake_timeout = 2000

module _ (s : Stack) (app : App) where
  unfoldable pub ack_expired : ℕ → World → Bool
  ack_expired now w =
      w.client.pcb_busy
      && (not (w.client.ack_timeout == 0)
          && leb w.client.ack_timeout (sub32 now w.client.pcb_sent_at))

  unfoldable pub rx_expired : ℕ → World → Bool
  rx_expired now w =
      not (w.client.rx_since_timeout == 0)
      && leb (w.client.rx_since_timeout * 1000 % 2 ^ 32) (sub32 now w.client.rx_last_packet)

  unfoldable pub handshake_expired : ℕ → World → Bool
  handshake_expired now w =
      w.client.use_tls
      && (not w.client.handshake_done && leb handshake_timeout (sub32 now w.client.rx_last_packet))

  -- the part of `_poll` after the clock is read
  unfoldable pub poll_timeouts : ℕ → World → World
  unfolding ack_expired rx_expired handshake_expired
  poll_timeouts now w =
      if ack_expired now w
      then call_handler app w.client.handlers.timeout_cb
          (on_timeout (sub32 now w.client.pcb_sent_at))
          (set_client (record w.client { pcb_busy = false }) w)
      else (if rx_expired now w
          then shut s app w
          else (if handshake_expired now w
              then shut s app w
              else call_handler app w.client.handlers.poll_cb on_poll w))

  -- `_poll`
  unfoldable pub poll : World → World
  unfolding poll_timeouts
  poll w =
      let w1 = close_error ok w in
      if w1.client.close_pcb
      then shut s app (set_client (record w1.client { close_pcb = false }) w1)
      else poll_timeouts (s.millis w1.trace) (log clock w1)
