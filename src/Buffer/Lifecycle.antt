-- ===== src/Buffer/Lifecycle.antt =====
-- The life of a buffer: construction, `stop`, the destructor, and the callbacks that
-- `_attachCallbacks` registers at the client.
use espasync_tcp.Common.{ℕ, ◌||◌, Bool, true, false, none, some, [], ◌∷◌, if◌then◌else◌, is_some}
use espasync_tcp.Lwip.{
  Event, on_connect, on_disconnect, on_poll, on_ack, on_error, on_data, on_packet, on_timeout,
}
use espasync_tcp.Buffer.Cbuf.{Cbuf}
use espasync_tcp.Buffer.Outlet.{Outlet, Callbacks}
use espasync_tcp.Buffer.State.{
  RxMode, rx_mode_none, rx_mode_free, rx_mode_read_bytes, rx_mode_terminator,
  rx_mode_terminator_string, Buffer, Heap, Hooks, Run, returns,
}
use espasync_tcp.Buffer.Transmit.{tcp_mss, send_buffer}
use espasync_tcp.Buffer.Receive.{call_done}
use espasync_tcp.Buffer.Packet.{rx_data, rx_ring_size}

-- the modes in which a read is pending
abbrev pub is_pending : RxMode → Bool
is_pending rx_mode_none = false
is_pending rx_mode_free = false
is_pending rx_mode_read_bytes = true
is_pending rx_mode_terminator = true
is_pending rx_mode_terminator_string = true

module _ {B C : Type 0} (c : Cbuf B) (o : Outlet C) (heap : Heap) (hooks : Hooks B C) where
  -- `_attachCallbacks`: the client calls `on_event` for these events from now on
  unfoldable pub attach_callbacks : Callbacks → Buffer B C → Buffer B C
  attach_callbacks k s = record s { client = o.attach k s.client }

  -- `AsyncTCPBuffer(client)`, of a client that is not NULL; each of the two rings needs memory.
  unfoldable pub construct : Callbacks → C → Buffer B C
  unfolding attach_callbacks
  construct k client = attach_callbacks k (record {
    attached = true;
    client = client;
    tx = if heap.gives 0 then c.make tcp_mss ∷ [] else [];
    rx = if heap.gives 1 then some (c.make rx_ring_size) else none;
    rx_mode = rx_mode_free;
    rx_size = 0;
    rx_terminator = 0;
    read_bytes = none;
    read_string = none;
    cb_rx = none;
    cb_done = none;
    cb_disconnect = none;
    asked = 2;
    deleted = false;
    fault = false;
  })

  -- `~AsyncTCPBuffer()`, and the memory is given back; the client stays as it is, but for `close`
  unfoldable pub destroy : Buffer B C → Buffer B C
  destroy s = record s {
    client = if s.attached then o.close s.client else s.client;
    rx = none;
    tx = [];
    deleted = true;
  }

  -- `stop`, which is `close` too
  unfoldable pub stop : Buffer B C → Buffer B C
  stop s =
      if s.attached
      then (let s1 = record s { client = o.close s.client; attached = false } in
          let s2 : Buffer B C =
            if is_some s1.cb_done
            then (if is_pending s1.rx_mode
                then call_done c o heap hooks false none (record s1 { rx_mode = rx_mode_none })
                else s1)
            else s1 in
          record s2 { rx_mode = rx_mode_none })
      else s

  -- the callback for the end of the connection: the client is deleted, and the buffer too unless
  -- the handler says otherwise
  unfoldable pub disconnected : Buffer B C → Buffer B C
  unfolding destroy
  disconnected s =
      let s1 = record s { attached = false } in
      let (del, s2) : Bool × Buffer B C = elim s1.cb_disconnect [
        | none ↦ (true, s1)
        | some h ↦ hooks.on_disconnect h s1
      ] in
      let s3 = record s2 { client = o.destroy s2.client } in if del then destroy s3 else s3

  -- a callback uses the buffer, whose memory may have been given back
  abbrev pub touched : Buffer B C → Buffer B C
  touched s = record s { fault = s.fault || s.deleted }

  -- what the client calls for an event, with the fuel for `_sendBuffer`; the callback for a timeout
  -- does not use the buffer
  unfoldable pub on_event : ℕ → Event → Buffer B C → Run (Buffer B C)
  unfolding disconnected
  on_event f (on_timeout ms) s = returns (record s { client = o.close s.client })
  on_event f on_poll s = elim s.tx [
    | [] ↦ returns (touched s)
    | b ∷ _ ↦ if c.is_empty b then returns (touched s) else send_buffer c o heap f (touched s)
  ]
  on_event f (on_ack len time) s = send_buffer c o heap f (touched s)
  on_event f on_disconnect s = returns (disconnected (touched s))
  on_event f (on_data buf) s = rx_data c o heap hooks buf (touched s)
  on_event f on_connect s = returns s
  on_event f (on_error e) s = returns s
  on_event f (on_packet b) s = returns s
