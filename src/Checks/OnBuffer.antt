-- ===== src/Checks/OnBuffer.antt =====
-- Examples for the buffer, on a plain client, with a ring that is a list.
use espasync_tcp.Common.{
  ℕ, ◌≡◌, refl, true, false, none, some, List, [], ◌∷◌, ◌++◌, arith, min, length, take,
}
use espasync_tcp.Lwip.{mem, ok, Stack, is_ok}
use espasync_tcp.Client.State.{World, no_handlers}
use espasync_tcp.Client.Access.{on_poll, on_ack, on_disconnect, on_data, on_timeout}
use espasync_tcp.Client.Poll.{poll}
use espasync_tcp.Client.Create.{fresh, fresh_client}
use espasync_tcp.Buffer.Outlet.{Outlet, Callbacks, Accepts}
use espasync_tcp.Buffer.State.{Buffer, Hooks, returns, unfinished, rx_mode_free}
use espasync_tcp.Buffer.Transmit.{connected, write, send_loop}
use espasync_tcp.Buffer.Transmit.Append.{Appends, write-Appends}
use espasync_tcp.Buffer.Receive.{handle_string, handle_read_bytes, scan}
use espasync_tcp.Buffer.Receive.Delivery.{
  ring, StringRead, BytesRead, handle_string-StringRead, handle_read_bytes-BytesRead,
}
use espasync_tcp.Buffer.Packet.{rx_data}
use espasync_tcp.Buffer.Packet.Consumer.{IsConsumer, Listening}
use espasync_tcp.Buffer.Packet.InOrder.{rx_data-InOrder}
use espasync_tcp.Buffer.Packet.Ends.{Ends, rx_data-Ends}
use espasync_tcp.Buffer.OnClient.{Plain, async_client, async_client-Accepts, send_loop-refused}
use espasync_tcp.Buffer.Lifecycle.{construct, destroy}
use espasync_tcp.Buffer.Deleted.{with_buffer, on_disconnect-destroy}
use espasync_tcp.Checks.Rings.{Ring, ring_ops, ring_ops-IsQueue, heap}
use espasync_tcp.Checks.Samples.{stack, inert}

abbrev outlet : Outlet World
outlet = async_client (stack ok) inert

-- A data handler that takes one byte at most.
abbrev hooks : Hooks Ring World
hooks = record {
  on_rx = λ h bytes s. (min 1 (length bytes), s);
  on_done = λ h fine text s. s;
  on_disconnect = λ h s. (true, s);
}

-- an idle plain client on pcb 5 with a disconnect handler
abbrev idle : World
idle = record (fresh (some 5) []) {
  client = record (fresh_client (some 5)) { handlers = record no_handlers { discard_cb = some 7 } };
}

-- three bytes are to be sent, and two were received
abbrev buffer : Buffer Ring World
buffer = record {
  attached = true;
  client = idle;
  tx = record { items = 1 ∷ 2 ∷ 3 ∷ []; free = 1 } ∷ [];
  rx = some (record { items = 8 ∷ 9 ∷ []; free = 98 });
  rx_mode = rx_mode_free;
  rx_size = 3;
  rx_terminator = 10;
  read_bytes = some [];
  read_string = some (65 ∷ []);
  cb_rx = some 1;
  cb_done = some 2;
  cb_disconnect = none;
  asked = 0;
  deleted = false;
  fault = false;
}

outlet-Accepts : Accepts outlet (Plain 5)
unfolding is_ok
outlet-Accepts = async_client-Accepts (stack ok) inert (λ t q. refl) (λ t q. refl) 5

write-Appends_example :
    Appends ring_ops outlet heap ring_ops-IsQueue outlet-Accepts
      (4 ∷ 5 ∷ 6 ∷ [])
      buffer
      (write ring_ops outlet heap 2 (some (4 ∷ 5 ∷ 6 ∷ [])) buffer)
write-Appends_example =
    write-Appends ring_ops outlet heap ring_ops-IsQueue outlet-Accepts (λ n. refl) 0
      (4 ∷ 5 ∷ 6 ∷ []) buffer (omega arith, (refl, refl))

-- a stack that refuses all bytes
abbrev refusing : Stack
refusing = record (stack ok) { write_result = λ _ _. mem }

send_loop-refused_example :
    send_loop ring_ops (async_client refusing inert) heap 3 buffer ≡ unfinished
unfolding is_ok
send_loop-refused_example =
    send_loop-refused refusing inert ring_ops heap ring_ops-IsQueue 5 (λ n. refl) (λ t. refl)
      (λ t. omega arith) (λ t. refl) 3 buffer (refl, (refl, refl), refl, (_, _, refl, omega arith))

rx_data-Ends_example : Ends (rx_data ring_ops outlet heap hooks (5 ∷ 6 ∷ 7 ∷ []) buffer)
rx_data-Ends_example =
    rx_data-Ends ring_ops outlet heap hooks (λ h bytes s. omega arith) (5 ∷ 6 ∷ 7 ∷ []) buffer

abbrev two_items : Ring
two_items = record { items = 8 ∷ 9 ∷ []; free = 98 }

handle_string-StringRead_example :
    let (before, rest) = scan 10 (8 ∷ 9 ∷ 5 ∷ 10 ∷ 6 ∷ []) in
    StringRead ring_ops outlet heap hooks ring_ops-IsQueue
      (65 ∷ [])
      before
      rest
      (handle_string ring_ops outlet heap hooks two_items (5 ∷ 10 ∷ 6 ∷ []) buffer)
      (5 ∷ 10 ∷ 6 ∷ [])
handle_string-StringRead_example =
    handle_string-StringRead ring_ops outlet heap hooks ring_ops-IsQueue two_items (5 ∷ 10 ∷ 6 ∷ [])
      (65 ∷ []) 2 buffer refl refl refl

handle_read_bytes-BytesRead_example :
    BytesRead ring_ops outlet heap hooks ring_ops-IsQueue [] 3
      (8 ∷ 9 ∷ 5 ∷ 6 ∷ [])
      (handle_read_bytes ring_ops outlet heap hooks two_items (5 ∷ 6 ∷ []) buffer)
      (5 ∷ 6 ∷ [])
handle_read_bytes-BytesRead_example =
    handle_read_bytes-BytesRead ring_ops outlet heap hooks ring_ops-IsQueue two_items (5 ∷ 6 ∷ [])
      [] 2 buffer refl refl refl

-- the handlers under which the buffer's callbacks are registered
abbrev callbacks : Callbacks
callbacks = record { poll_cb = 3; ack_cb = 4; disconnect_cb = 7; data_cb = 5; timeout_cb = 6 }

-- a new buffer on a client that had no handlers
abbrev new_buffer : Buffer Ring World
new_buffer = construct ring_ops outlet heap hooks callbacks (fresh (some 5) [])

on_disconnect-destroy_example :
    let v = destroy ring_ops outlet heap hooks new_buffer in
    (poll
      (stack ok)
      (with_buffer (stack ok) inert ring_ops heap hooks 1 callbacks v)
      v.client).fault
    ≡ true
unfolding construct on_poll on_ack on_disconnect on_data on_timeout
on_disconnect-destroy_example =
    on_disconnect-destroy (stack ok) inert ring_ops heap hooks 1 callbacks 5 new_buffer refl refl
      refl refl (λ t. refl) (λ h v e. e)

-- A client that remembers the bytes that its data handler took.
abbrev remembering : Outlet (List ℕ)
remembering = record {
  connected = λ _. true;
  can_send = λ _. true;
  space = λ _. 1000;
  write = λ bytes log. (length bytes, log);
  close = λ log. log;
  destroy = λ log. log;
  attach = λ k log. log;
}

-- The data handler takes at most two bytes at a time.
abbrev taking : Hooks Ring (List ℕ)
taking = record {
  on_rx = λ h bytes s.
      (min 2 (length bytes), record s { client = s.client ++ take (min 2 (length bytes)) bytes });
  on_done = λ h fine text s. s;
  on_disconnect = λ h s. (true, s);
}

taking-IsConsumer : IsConsumer remembering taking 1 (λ log. log)
taking-IsConsumer = record {
  count = λ bytes s. omega arith;
  takes = λ bytes s. refl;
  keeps_ring = λ bytes s. refl;
  keeps_mode = λ bytes s. refl;
  keeps_handler = λ bytes s. refl;
  keeps_attached = λ bytes s. refl;
  keeps_connected = λ bytes s. refl;
}

abbrev listening : Buffer Ring (List ℕ)
listening = record {
  attached = true;
  client = 4 ∷ [];
  tx = [];
  rx = some (record { items = 8 ∷ 9 ∷ []; free = 1 });
  rx_mode = rx_mode_free;
  rx_size = 0;
  rx_terminator = 0;
  read_bytes = none;
  read_string = none;
  cb_rx = some 1;
  cb_done = none;
  cb_disconnect = none;
  asked = 0;
  deleted = false;
  fault = false;
}

rx_data-InOrder_example :
    (s' : Buffer Ring (List ℕ)) × (rx_data ring_ops remembering heap taking
        (5 ∷ 6 ∷ 7 ∷ [])
        listening
      ≡ returns s')
    × Listening ring_ops remembering heap taking ring_ops-IsQueue 1 taking-IsConsumer s'
    × (s'.client ++ ring ring_ops remembering heap taking ring_ops-IsQueue s'
        ≡ 4 ∷ 8 ∷ 9 ∷ 5 ∷ 6 ∷ 7 ∷ [])
unfolding connected
rx_data-InOrder_example =
    rx_data-InOrder ring_ops remembering heap taking ring_ops-IsQueue 1 taking-IsConsumer
      (λ n. refl) (λ n r. refl) (5 ∷ 6 ∷ 7 ∷ []) listening (refl, refl, refl, refl)
