-- ===== src/Client/Upcalls.antt =====
-- `_s_data`, `_s_handshake` and `_s_ssl_error`, and the run of them that one call of the TLS glue
-- makes.
use espasync_tcp.Common.{ℕ, true, List, [], ◌∷◌, ◌+◌, ◌%◌, ◌^◌}
use espasync_tcp.Lwip.{ssl, on_data, on_connect, on_error, Upcall, data_up, handshake_up, error_up}
use espasync_tcp.Client.State.{World, App, set_client, touch, call_handler}

module _ (app : App) where
  unfoldable pub s_data : List ℕ → World → World
  s_data bytes w = call_handler app w.client.handlers.recv_cb (on_data bytes) w

  unfoldable pub s_handshake : World → World
  s_handshake w =
      call_handler app w.client.handlers.connect_cb on_connect
        (set_client (record w.client { handshake_done = true }) w)

  -- `_s_ssl_error` and `_ssl_error`; the error function takes an `int8_t`, of which these are the 8 bits
  unfoldable pub s_ssl_error : ℕ → World → World
  s_ssl_error e w =
      call_handler app w.client.handlers.error_cb (on_error (ssl ((e + 64) % 2 ^ 8))) w

  unfoldable pub upcall : Upcall → World → World
  unfolding s_data s_handshake s_ssl_error
  upcall (data_up bytes) w = s_data bytes w
  upcall handshake_up w = s_handshake w
  upcall (error_up e) w = s_ssl_error e w

  unfoldable pub deliver : List Upcall → World → World
  deliver [] w = w
  deliver (u ∷ us) w = deliver us (upcall u (touch w))
