-- ===== src/Buffer/Deleted.antt =====
-- Deleting a buffer while its client is connected.
use espasync_tcp.Common.{
  ℕ, ◌≡◌, Bool, true, false, some, arith, if◌then◌else◌, option-both, ◌||◌, ◌==◌,
}
use espasync_tcp.Lwip.{Pcb, Handler, Stack, Trace, is_ok, on_disconnect, invoke, ok}
use espasync_tcp.Client.State.{World, App, log, set_client, close_error, clear_tcp_callbacks}
use espasync_tcp.Client.Teardown.{close, shut, forget_pcb, release_tls, close_or_abort}
use espasync_tcp.Client.Poll.{poll}
use espasync_tcp.Buffer.Cbuf.{Cbuf}
use espasync_tcp.Buffer.Outlet.{Callbacks}
use espasync_tcp.Buffer.State.{Buffer, Heap, Hooks, returns, panics, unfinished}
use espasync_tcp.Buffer.OnClient.{async_client}
use espasync_tcp.Buffer.Lifecycle.{destroy, disconnected, on_event}

-- one of the callbacks
abbrev pub is_callback : Callbacks → Handler → Bool
is_callback k h =
    h == k.disconnect_cb
    || (h == k.poll_cb || (h == k.ack_cb || (h == k.data_cb || h == k.timeout_cb)))

module _ (s : Stack) (app : App) {B : Type 0} (c : Cbuf B) (heap : Heap)
    (hooks : Hooks B World) where
  shut-disconnects :
      (app : App) (p : Pcb) (h : Handler) (w : World)
      → w.client.pcb ≡ some p
      → w.client.use_tls ≡ false
      → w.client.handlers.discard_cb ≡ some h
      → ((t : Trace) → s.close_result t p ≡ ok)
      → (u : World) × (shut s app w ≡ app h on_disconnect (log (invoke h on_disconnect) u))
  unfolding shut release_tls close_or_abort is_ok clear_tcp_callbacks
  shut-disconnects app p h w e plain d closes =
      let u = forget_pcb (close_or_abort s app p (clear_tcp_callbacks p w)) in
      (u, ground (arith, closes (clear_tcp_callbacks p w).trace))

  -- The application with the buffer in memory: for the buffer's callbacks, which `_attachCallbacks`
  -- registered, `on_event` runs on the buffer and the client, and a fault of the buffer is a fault of
  -- the run. `f` is the fuel for `_sendBuffer`.
  abbrev pub with_buffer : ℕ → Callbacks → Buffer B World → App
  with_buffer f k v h e w =
      if is_callback k h
      then elim (on_event c (async_client s app) heap hooks f e (record v { client = w })) [
        | returns v' ↦ record v'.client { fault = v'.client.fault || v'.fault }
        | panics ↦ w
        | unfinished ↦ w
      ]
      else app h e w

  -- a handler does not undo a fault
  abbrev pub FaultStays : Type 0
  FaultStays =
      (h : Handler) (v : Buffer B World) → v.fault ≡ true → (hooks.on_disconnect h v).1.fault ≡ true

  disconnected-fault :
      FaultStays
      → (v : Buffer B World) → v.fault ≡ true
      → (disconnected c (async_client s app) heap hooks v).fault ≡ true
  unfolding disconnected destroy
  disconnected-fault stays v e =
      option-both
        (λ (r : Bool × Buffer B World).
          (let v' = record r.1 { client = (async_client s app).destroy r.1.client } in
            if r.0 then destroy c (async_client s app) heap hooks v' else v').fault
          ≡ true)
        v.cb_disconnect (λ _. e)
        (λ h _.
          let (del, v') = hooks.on_disconnect h (record v { attached = false }) in
          let still : v'.fault ≡ true = stays h (record v { attached = false }) e in
          ground (arith, still))

  -- The destructor of a buffer on a client without TLS, with a pcb, to which the buffer's callbacks
  -- are attached, only asks the client to close later. If lwIP closes the pcb then, the next poll of
  -- the client calls the buffer's callback for the end of the connection, which uses the deleted
  -- buffer. The handlers of the buffer's user do not undo a fault.
  pub on_disconnect-destroy :
      (f : ℕ) (k : Callbacks) (p : Pcb) (v : Buffer B World)
      → v.attached ≡ true
      → v.client.client.pcb ≡ some p
      → v.client.client.use_tls ≡ false
      → v.client.client.handlers.discard_cb ≡ some k.disconnect_cb
      → ((t : Trace) → s.close_result t p ≡ ok)
      → FaultStays
      → let v' = destroy c (async_client s app) heap hooks v in
        (poll s (with_buffer f k v') v'.client).fault ≡ true
  unfolding destroy on_event close poll
  on_disconnect-destroy f k p v there e plain d closes stays =
      let v' = destroy c (async_client s app) heap hooks v in
      let w = close_error ok v'.client in
      let w1 = set_client (record w.client { close_pcb = false }) w in
      let (u, shuts) =
        shut-disconnects (with_buffer f k v') p k.disconnect_cb w1 (ground arith) (ground arith)
          (ground arith) closes in
      let u' = log (invoke k.disconnect_cb on_disconnect) u in
      let uses =
        disconnected-fault stays (record v' { client = u'; fault = v'.fault || v'.deleted })
          (ground arith) in
      ground (arith, shuts, uses)
