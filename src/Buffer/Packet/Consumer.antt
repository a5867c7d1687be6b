-- ===== src/Buffer/Packet/Consumer.antt =====
-- A data handler that takes bytes in their order, and `_handleRxBuffer` with it.
use espasync_tcp.Common.{
  ℕ, ◌≤◌, ◌≡◌, refl, sym, ap, ◌∙◌, subst, ◌&&◌, not, Bool, true, some, List, [], ◌++◌, append_assoc,
  arith, if◌then◌else◌, ltb, ◌==◌, is_some, length, take, drop, length-zero, length-drop,
  take-length, take-append-drop, if-split, option-both,
}
use espasync_tcp.Lwip.{Handler}
use espasync_tcp.Buffer.Cbuf.{Cbuf, IsQueue}
use espasync_tcp.Buffer.Outlet.{Outlet}
use espasync_tcp.Buffer.State.{Buffer, Heap, Hooks, Run, returns, ask, rx_mode_free, RxMode}
use espasync_tcp.Buffer.Transmit.{connected}
use espasync_tcp.Buffer.Receive.{handle_rx_buffer, handle_mode, handle_free, call_rx, on_ring}
use espasync_tcp.Buffer.Receive.Delivery.{ring}

-- A data handler takes some of the first bytes that it is given, which `taken` records in its order, and
-- changes nothing of the buffer that receiving depends on.
pub record IsConsumer {B C : Type 0} (o : Outlet C) (hooks : Hooks B C) (h : Handler)
    (taken : C → List ℕ) : Type 0 where
  pub count : (bytes : List ℕ) (s : Buffer B C) → (hooks.on_rx h bytes s).0 ≤ length bytes
  pub takes :
      (bytes : List ℕ) (s : Buffer B C)
      → taken (hooks.on_rx h bytes s).1.client
        ≡ taken s.client ++ take (hooks.on_rx h bytes s).0 bytes
  pub keeps_ring : (bytes : List ℕ) (s : Buffer B C) → (hooks.on_rx h bytes s).1.rx ≡ s.rx
  pub keeps_mode : (bytes : List ℕ) (s : Buffer B C) → (hooks.on_rx h bytes s).1.rx_mode ≡ s.rx_mode
  pub keeps_handler : (bytes : List ℕ) (s : Buffer B C) → (hooks.on_rx h bytes s).1.cb_rx ≡ s.cb_rx
  pub keeps_attached :
      (bytes : List ℕ) (s : Buffer B C) → (hooks.on_rx h bytes s).1.attached ≡ s.attached
  pub keeps_connected :
      (bytes : List ℕ) (s : Buffer B C)
      → o.connected (hooks.on_rx h bytes s).1.client ≡ o.connected s.client

module _ {B C : Type 0} (c : Cbuf B) (o : Outlet C) (heap : Heap) (hooks : Hooks B C)
    (queue : IsQueue c) (h : Handler) {taken : C → List ℕ}
    (consumer : IsConsumer o hooks h taken) where
  abbrev pub waiting : Buffer B C → List ℕ
  waiting = ring c o heap hooks queue

  -- the buffer of a connected client, with a ring, hands what it receives to `h`
  abbrev pub Listening : Buffer B C → Type 0
  Listening s =
      (connected c o heap s ≡ true)
      × (is_some s.rx ≡ true)
      × (s.rx_mode ≡ rx_mode_free)
      × (s.cb_rx ≡ some h)

  -- From `s` with `buf` to come to `s'` with `rest` to come, no byte was lost, and all are in order.
  abbrev pub InOrder : Buffer B C → List ℕ → Buffer B C → List ℕ → Type 0
  InOrder s buf s' rest =
      Listening s'
      × (taken s'.client ++ (waiting s' ++ rest) ≡ taken s.client ++ (waiting s ++ buf))

  call_rx-InOrder :
      (bytes : List ℕ) (s : Buffer B C)
      → Listening s
      → let (n, s') = call_rx c o heap hooks bytes s in
        (n ≤ length bytes)
        × Listening s'
        × (s'.rx ≡ s.rx)
        × (taken s'.client ≡ taken s.client ++ take n bytes)
  unfolding call_rx connected
  call_rx-InOrder bytes s (up, has_ring, free, cb) = ground (
    arith,
    consumer.count bytes s,
    consumer.takes bytes s,
    consumer.keeps_ring bytes s,
    consumer.keeps_mode bytes s,
    consumer.keeps_handler bytes s,
    consumer.keeps_attached bytes s,
    consumer.keeps_connected bytes s,
  )

  -- the packet, behind an empty ring
  packet-InOrder :
      (b : B) (buf : List ℕ) (go : Bool) (s : Buffer B C)
      → Listening s
      → s.rx ≡ some b
      → (go ≡ true → queue.contents b ≡ [])
      → let (n, s') = if go && ltb 0 (length buf) then call_rx c o heap hooks buf s else (0, s) in
        (n ≤ length buf) × InOrder s buf s' (drop n buf)
  packet-InOrder b buf go s live e empty =
      if-split (λ (r : ℕ × Buffer B C). (r.0 ≤ length buf) × InOrder s buf r.1 (drop r.0 buf))
        (go && ltb 0 (length buf))
        (λ yes.
          let (few, live', same, took) = call_rx-InOrder buf s live in
          let n = (call_rx c o heap hooks buf s).0 in
          (
            few,
            (
              live',
              ground (
                arith,
                took,
                same,
                empty,
                append_assoc (taken s.client) (take n buf) (drop n buf),
                take-append-drop n buf,
              ),
            ),
          ))
        (λ no. (omega arith, (live, refl)))

  -- A call handed on a part of the packet.
  abbrev pub Handed : Buffer B C → List ℕ → Run (ℕ × Buffer B C) → Type 0
  Handed s buf r =
      (n : ℕ) × (s' : Buffer B C) × (r ≡ returns (n, s'))
      × (n ≤ length buf)
      × InOrder s buf s' (drop n buf)

  module _ (gives : (n : ℕ) → heap.gives n ≡ true) where
    ring-InOrder :
        (b : B) (buf : List ℕ) (s : Buffer B C)
        → Listening s
        → s.rx ≡ some b
        → let (r, v) = call_rx c o heap hooks (c.peek (c.available b) b) s in
          let v' = on_ring c o heap hooks (c.remove r) v in
          Listening v'
          × (v'.rx ≡ some (c.remove r b))
          × (r ≤ c.available b)
          × (taken v'.client ++ queue.contents (c.remove r b) ≡ taken s.client ++ queue.contents b)
    unfolding connected
    ring-InOrder b buf s live e =
        let bytes = queue.contents b in
        let front = c.peek (c.available b) b in
        let (few, live', same, took) = call_rx-InOrder front s live in
        let r = (call_rx c o heap hooks front s).0 in
        let all : front ≡ bytes =
          queue.peek_front (c.available b) b
          ∙ ap (λ (n : ℕ). take n bytes) (queue.available_length b)
          ∙ take-length bytes in
        (
          ground (arith, live', same, e),
          ground (arith, same, e),
          ground (arith, few, ap length all, queue.available_length b),
          ground (
            arith,
            took,
            all,
            same,
            e,
            queue.remove_rest r b,
            append_assoc (taken s.client) (take r bytes) (drop r bytes),
            take-append-drop r bytes,
          ),
        )

    handle_free-Handed :
        (b : B) (buf : List ℕ) (s : Buffer B C)
        → Listening s
        → s.rx ≡ some b
        → Handed s buf (handle_free c o heap hooks b buf s)
    unfolding handle_free connected
    handle_free-Handed b buf s live e =
        if-split (Handed s buf) (not (is_some s.cb_rx)) (λ no. absurd (ground arith))
          (λ _.
            if-split (Handed s buf) (ltb 0 (c.available b))
              (λ some_bytes.
                if-split (Handed s buf) (heap.gives s.asked)
                  (λ _.
                    let (live', at, few, same) = ring-InOrder b buf (ask s) live e in
                    let r = (call_rx c o heap hooks (c.peek (c.available b) b) (ask s)).0 in
                    let v =
                      on_ring c o heap hooks (c.remove r)
                        (call_rx c o heap hooks (c.peek (c.available b) b) (ask s)).1 in
                    let (k, (live2, same2)) =
                      packet-InOrder (c.remove r b) buf (r == c.available b) v live' at (λ go.
                        length-zero _ (
                          ground (
                            arith,
                            queue.remove_rest r b,
                            queue.available_length b,
                            length-drop r (queue.contents b),
                          ))) in
                    (
                      _,
                      _,
                      refl,
                      k,
                      (
                        live2,
                        ground (
                          arith,
                          same2,
                          same,
                          at,
                          e,
                          append_assoc (taken v.client) (queue.contents (c.remove r b)) buf,
                          append_assoc (taken s.client) (queue.contents b) buf,
                        ),
                      ),
                    ))
                  (λ no. absurd (ground (arith, gives s.asked))))
              (λ none_there.
                let (k, (live2, same2)) =
                  packet-InOrder b buf (0 == c.available b) s live e
                    (λ go. length-zero _ (ground (arith, queue.available_length b))) in
                (_, _, refl, k, (live2, same2))))

    pub handle-Handed :
        (buf : List ℕ) (s : Buffer B C)
        → Listening s
        → Handed s buf (handle_rx_buffer c o heap hooks buf s)
    unfolding handle_rx_buffer handle_mode
    handle-Handed buf s live =
        if-split (Handed s buf) (not (connected c o heap s)) (λ no. absurd (ground arith))
          (λ _.
            option-both (Handed s buf) s.rx (λ gone. absurd (ground arith))
              (λ b e.
                subst (λ (m : RxMode). Handed s buf (handle_mode c o heap hooks m b buf s))
                  (sym live.2) (handle_free-Handed b buf s live e)))
