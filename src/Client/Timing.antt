-- ===== src/Client/Timing.antt =====
-- `_poll` against a description in true time: the clock is the time modulo 2 ^ 32.
use espasync_tcp.Common.{
  ℕ, ◌+◌, ◌-◌, ◌*◌, ◌%◌, ◌^◌, ◌≤◌, ◌<◌, ◌≡◌, refl, ap, ◌∙◌, ◌&&◌, Bool, true, false, not, arith,
  if◌then◌else◌, leb, ◌==◌, sub32,
}
use espasync_tcp.Lwip.{Stack, on_poll, on_timeout}
use espasync_tcp.Client.State.{World, App, set_client, call_handler}
use espasync_tcp.Client.Teardown.{shut}
use espasync_tcp.Client.Poll.{
  poll_timeouts, ack_expired, rx_expired, handshake_expired, handshake_timeout,
}

-- What a poll that finds no requested close does.
pub data Action : Type 0 where
  report_timeout : ℕ → Action
  drop_connection : Action
  report_poll : Action

-- The description, in milliseconds since the last send and since the last packet.
pub due : World → ℕ → ℕ → Action
due w since_sent since_packet =
    if w.client.pcb_busy && (not (w.client.ack_timeout == 0) && leb w.client.ack_timeout since_sent)
    then report_timeout since_sent
    else (if not (w.client.rx_since_timeout == 0)
          && leb (w.client.rx_since_timeout * 1000) since_packet
        then drop_connection
        else (if w.client.use_tls
              && (not w.client.handshake_done && leb handshake_timeout since_packet)
            then drop_connection
            else report_poll))

pub perform : Stack → App → Action → World → World
perform s app (report_timeout ms) w =
    call_handler app w.client.handlers.timeout_cb (on_timeout ms)
      (set_client (record w.client { pcb_busy = false }) w)
perform s app drop_connection w = shut s app w
perform s app report_poll w = call_handler app w.client.handlers.poll_cb on_poll w

elapsed : (t now : ℕ) → t ≤ now → now < t + 2 ^ 32 → sub32 (now % 2 ^ 32) (t % 2 ^ 32) ≡ now - t
elapsed t now h k = omega arith

perform-if :
    (s : Stack) (app : App) (b : Bool) (x y : Action) (w : World)
    → perform s app (if b then x else y) w ≡ (if b then perform s app x w else perform s app y w)
perform-if s app true x y w = refl
perform-if s app false x y w = refl

-- If the last send and the last packet lie less than 2 ^ 32 ms back, and the receive timeout is
-- below 2 ^ 32 ms, then the timeouts of `_poll` come out as in true time, also where the 32-bit
-- clock has wrapped: first the acknowledgement timeout, which reports the elapsed time and leaves
-- the connection up, then the receive timeout and the handshake timeout, which close it, and else
-- the poll handler.
pub poll_timeouts-perform :
    (s : Stack) (app : App) (w : World) (sent_at packet_at now : ℕ)
    → w.client.pcb_sent_at ≡ sent_at % 2 ^ 32
    → w.client.rx_last_packet ≡ packet_at % 2 ^ 32
    → sent_at ≤ now
    → now < sent_at + 2 ^ 32
    → packet_at ≤ now
    → now < packet_at + 2 ^ 32
    → w.client.rx_since_timeout * 1000 < 2 ^ 32
    → poll_timeouts s app (now % 2 ^ 32) w
      ≡ perform s app (due w (now - sent_at) (now - packet_at)) w
unfolding poll_timeouts ack_expired rx_expired handshake_expired due perform
poll_timeouts-perform s app w sent_at packet_at now e f h1 h2 h3 h4 h5 =
    let p : sub32 (now % 2 ^ 32) w.client.pcb_sent_at ≡ now - sent_at =
      ap (sub32 (now % 2 ^ 32)) e ∙ elapsed sent_at now h1 h2 in
    let q : sub32 (now % 2 ^ 32) w.client.rx_last_packet ≡ now - packet_at =
      ap (sub32 (now % 2 ^ 32)) f ∙ elapsed packet_at now h3 h4 in
    let r : w.client.rx_since_timeout * 1000 % 2 ^ 32 ≡ w.client.rx_since_timeout * 1000 =
      omega arith in
    ground (arith, p, q, r)
