-- ===== src/Buffer/OnClient.antt =====
-- The buffer on an `AsyncClient`: the client fills the interface that the buffer uses.
use espasync_tcp.Common.{
  ℕ, zero, suc, ◌≤◌, ◌<◌, ◌≡◌, refl, true, false, some, List, [], ◌∷◌, ◌++◌, arith, if◌then◌else◌,
  ltb, ◌==◌, ◌&&◌, length, take, take-length, bool-split, list-both, ◌∙◌,
}
use espasync_tcp.Lwip.{Pcb, Stack, Trace, is_ok, tcp_write}
use espasync_tcp.Client.State.{World, App}
use espasync_tcp.Client.Access.{on_poll, on_ack, on_disconnect, on_data, on_timeout}
use espasync_tcp.Client.Status.{connected, space, can_send}
use espasync_tcp.Client.Transmit.{write, add, add_plain, send}
use espasync_tcp.Client.Teardown.{close, destroy}
use espasync_tcp.Buffer.Cbuf.{Cbuf, IsQueue}
use espasync_tcp.Buffer.Outlet.{Outlet, Accepts}
use espasync_tcp.Buffer.State.{Buffer, Heap, Run, unfinished, ask}
use espasync_tcp.Buffer.Transmit
use espasync_tcp.Buffer.Transmit.{send_round, send_loop, send_buffer, advance}

-- the bytes that were handed to `tcp_write` on the pcb, in order
unfoldable pub wired : Pcb → Trace → List ℕ
wired p [] = []
wired p (tcp_write q bytes flags ∷ t) = if q == p then wired p t ++ bytes else wired p t
wired p (call ∷ t) = wired p t

-- a client without TLS on the pcb
abbrev pub Plain : Pcb → World → Type 0
Plain p w = (w.client.pcb ≡ some p) × (w.client.use_tls ≡ false)

module _ (s : Stack) (app : App) where
  -- The handlers that a call of the client runs are those of `app`.
  abbrev pub async_client : Outlet World
  async_client = record {
    connected = connected s;
    can_send = can_send s;
    space = space s;
    write = λ bytes w. write s app (some bytes) (length bytes) 0 w;
    close = close s app false;
    destroy = destroy s app;
    attach = λ k w. on_timeout (some k.timeout_cb) (
        on_data (some k.data_cb) (
          on_disconnect (some k.disconnect_cb)
            (on_ack (some k.ack_cb) (on_poll (some k.poll_cb) w))));
  }

  -- A `write` of some bytes, for which there is space, to a client without TLS on a pcb, where lwIP
  -- takes and sends what it is given, takes all of them, puts them on the wire behind those before,
  -- and leaves a client that cannot send for now.
  write-wired :
      (writes : (t : Trace) (q : Pcb) → is_ok (s.write_result t q) ≡ true)
      (outputs : (t : Trace) (q : Pcb) → is_ok (s.output_result t q) ≡ true) (p : Pcb)
      (bytes : List ℕ) (w : World)
      → Plain p w
      → 0 < length bytes
      → length bytes ≤ space s w
      → let (n, w') = write s app (some bytes) (length bytes) 0 w in
        (n ≡ length bytes) × (wired p w'.trace ≡ wired p w.trace ++ bytes) × (can_send s w' ≡ false)
  unfolding write add add_plain send wired can_send
  write-wired writes outputs p bytes w plain some_bytes fits = ground (
    arith,
    writes w.trace p,
    outputs (tcp_write p (take (length bytes) bytes) 0 ∷ w.trace) p,
    take-length bytes,
  )

  write-Plain :
      (p : Pcb) (bytes : List ℕ) (w : World)
      → Plain p w
      → Plain p (write s app (some bytes) (length bytes) 0 w).1
  unfolding write add add_plain send
  write-Plain p bytes w plain = ground arith

  -- A plain client keeps what the buffer relies on, as long as lwIP takes the bytes and sends.
  pub async_client-Accepts :
      (writes : (t : Trace) (q : Pcb) → is_ok (s.write_result t q) ≡ true)
      (outputs : (t : Trace) (q : Pcb) → is_ok (s.output_result t q) ≡ true) (p : Pcb)
      → Accepts async_client (Plain p)
  async_client-Accepts writes outputs p = record {
    wire = λ w. wired p w.trace;
    write_ready = write-Plain p;
    write_all = λ bytes w plain up can l k. write-wired writes outputs p bytes w plain l k;
  }

module _ (s : Stack) (app : App) {B : Type 0} (c : Cbuf B) (heap : Heap) where
  -- a plain client that is connected, with space, and waits for no acknowledgement, and a first ring
  -- that is not empty
  abbrev pub Pending : Pcb → Buffer B World → Type 0
  Pending p v =
      (v.attached ≡ true)
      × Plain p v.client
      × (v.client.client.pcb_busy ≡ false)
      × ((b : B) × (bs : List B) × (v.tx ≡ b ∷ bs) × (0 < c.available b))

  module _ (queue : IsQueue c) (p : Pcb) (memory : (n : ℕ) → heap.gives n ≡ true)
      (up : (t : Trace) → s.pcb_state t p ≡ 4) (roomy : (t : Trace) → 0 < s.sndbuf t p)
      (refuses : (t : Trace) → is_ok (s.write_result t p) ≡ false) where
    write-refused :
        (bytes : List ℕ) (w : World)
        → Plain p w
        → let (n, w') = write s app (some bytes) (length bytes) 0 w in
          (n ≡ 0) × Plain p w' × (w'.client.pcb_busy ≡ w.client.pcb_busy)
    unfolding write add add_plain
    write-refused bytes w plain = ground (arith, refuses w.trace)

    advance-left :
        (n : ℕ) (b : B) (bs : List B)
        → 0 < c.available (c.remove n b)
        → advance c (async_client s app) heap n b bs ≡ c.remove n b ∷ bs
    unfolding advance
    advance-left n b bs h = ground arith

    remove-zero : (b : B) → c.available (c.remove 0 b) ≡ c.available b
    remove-zero b = ground (
      arith,
      queue.available_length (c.remove 0 b),
      queue.remove_rest 0 b,
      queue.available_length b,
    )

    refused-Pending :
        (v : Buffer B World) (b : B) (bs : List B)
        → Pending p v
        → v.tx ≡ b ∷ bs
        → Pending p (send_round c (async_client s app) heap b bs (ask v))
    unfolding send_round
    refused-Pending v b bs (there, plain, idle, (r, rs, chain, some_bytes)) e =
        let n : ℕ =
          if ltb (space s v.client) (c.available b) then space s v.client else c.available b in
        let (none_sent, still, same) = write-refused (c.peek n b) v.client plain in
        let zero_sent = (write s app (some (c.peek n b)) (length (c.peek n b)) 0 v.client).0 in
        let left : 0 < c.available (c.remove zero_sent b) =
          ground (arith, remove-zero b, none_sent) in
        (
          there,
          still,
          same ∙ idle,
          (c.remove zero_sent b, bs, advance-left zero_sent b bs left, left),
        )

    -- As long as lwIP refuses the bytes of a connected plain client that has space in its send
    -- buffer and waits for no acknowledgement, and memory can be had, the loop of `_sendBuffer` on
    -- a first ring that is not empty does not end: it needs more rounds than any number.
    pub send_loop-refused :
        (f : ℕ) (v : Buffer B World)
        → Pending p v
        → send_loop c (async_client s app) heap f v ≡ unfinished
    unfolding send_loop connected space can_send Transmit.connected
    send_loop-refused zero v h = refl
    send_loop-refused (suc f) v (there, plain, idle, (b, bs, chain, some_bytes)) =
        list-both (λ (r : Run (Buffer B World)). r ≡ unfinished) v.tx (λ e. absurd (ground arith))
          (λ b' bs' e.
            bool-split (λ (r : Run (Buffer B World)). r ≡ unfinished)
              (v.attached
                && connected s v.client
                && (ltb 0 (space s v.client) && (ltb 0 (c.available b') && can_send s v.client)))
              (λ _.
                bool-split (λ (r : Run (Buffer B World)). r ≡ unfinished) (heap.gives v.asked)
                  (λ _.
                    send_loop-refused f (send_round c (async_client s app) heap b' bs' (ask v))
                      (refused-Pending v b' bs' (there, plain, idle, (b, bs, chain, some_bytes)) e))
                  (λ no. absurd (ground (arith, memory v.asked))))
              (λ no. absurd (ground (arith, up v.client.trace, roomy v.client.trace))))
