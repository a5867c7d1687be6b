-- ===== src/Buffer/Transmit/Order.antt =====
-- The order of the bytes on their way through the buffer: what is on the wire, followed by what is
-- in the rings.
use espasync_tcp.Common.{
  ℕ, suc, ◌≤◌, ◌<◌, ◌≡◌, ◌⊎◌, inl, inr, refl, ap, ◌∙◌, ◌&&◌, ◌||◌, not, Bool, true, false, List, [],
  ◌∷◌, ◌++◌, append_assoc, arith, if◌then◌else◌, ltb, ◌==◌, length, take, drop, length-zero,
  length-take, take-append-drop, if-split, bool-split, list-both,
}
use espasync_tcp.Buffer.Cbuf.{Cbuf, IsQueue}
use espasync_tcp.Buffer.Outlet.{Outlet, Accepts}
use espasync_tcp.Buffer.State.{Buffer, Heap, Run, returns, ask}
use espasync_tcp.Buffer.Transmit.{connected, advance, send_round, send_loop, send_buffer}

module _ {B C : Type 0} (c : Cbuf B) (o : Outlet C) (heap : Heap) (queue : IsQueue c)
    {Ready : C → Type 0} (accepts : Accepts o Ready) where
  -- the bytes in a chain of rings
  unfoldable pub queued : List B → List ℕ
  queued [] = []
  queued (b ∷ bs) = queue.contents b ++ queued bs

  -- what was sent, and then what is to be sent
  abbrev pub stream : Buffer B C → List ℕ
  stream s = accepts.wire s.client ++ queued s.tx

  pub queued-advance :
      (sent : ℕ) (b : B) (bs : List B)
      → queued (advance c o heap sent b bs) ≡ drop sent (queue.contents b) ++ queued bs
  unfolding advance queued
  queued-advance sent b [] = ground (
    arith,
    queue.available_length (c.remove sent b),
    queue.remove_rest sent b,
    length-zero (drop sent (queue.contents b)),
  )
  queued-advance sent b (x ∷ xs) = ground (
    arith,
    queue.available_length (c.remove sent b),
    queue.remove_rest sent b,
    length-zero (drop sent (queue.contents b)),
  )

  length-advance : (sent : ℕ) (b : B) (bs : List B) → 0 < length (advance c o heap sent b bs)
  unfolding advance
  length-advance sent b [] = ground arith
  length-advance sent b (x ∷ xs) = ground arith

  -- the buffer still has a ring to write to, and its client is `Ready`
  abbrev pub Live : Buffer B C → Type 0
  Live s = (0 < length s.tx) × Ready s.client

  -- the bytes of a round: the front of the ring, as far as there is space
  pub front-Fits :
      (space : ℕ) (b : B)
      → 0 < space
      → 0 < c.available b
      → let n : ℕ = if ltb space (c.available b) then space else c.available b in
        (0 < length (c.peek n b))
        × (length (c.peek n b) ≤ space)
        × (c.peek n b ≡ take n (queue.contents b))
        × (length (c.peek n b) ≡ n)
  front-Fits space b room some_bytes =
      let n : ℕ = if ltb space (c.available b) then space else c.available b in
      let front-eq = queue.peek_front n b in
      let n-pos : 0 < n = ground arith in
      let n-space : n ≤ space = ground arith in
      let n-bytes : n ≤ length (queue.contents b) = ground (arith, queue.available_length b) in
      let front-length : length (c.peek n b) ≡ n =
        ap length front-eq ∙ length-take n (queue.contents b) ∙ omega arith in
      (omega arith, omega arith, front-eq, front-length)

  pub round-stream :
      (b : B) (bs : List B) (s : Buffer B C)
      → s.tx ≡ b ∷ bs
      → Ready s.client
      → o.connected s.client ≡ true
      → o.can_send s.client ≡ true
      → 0 < o.space s.client
      → 0 < c.available b
      → (stream (send_round c o heap b bs s) ≡ stream s)
        × Live (send_round c o heap b bs s)
        × (o.can_send (send_round c o heap b bs s).client ≡ false)
  unfolding send_round queued
  round-stream b bs s e ready up can space some_bytes =
      let bytes = queue.contents b in
      let n : ℕ =
        if ltb (o.space s.client) (c.available b) then o.space s.client else c.available b in
      let front = c.peek n b in
      let (some_sent, fits, front-eq, front-length) =
        front-Fits (o.space s.client) b space some_bytes in
      let (all, on_wire, busy) = accepts.write_all front s.client ready up can some_sent fits in
      let sent = all ∙ front-length in
      (
        ground (
          arith,
          on_wire,
          sent,
          queued-advance (o.write front s.client).0 b bs,
          append_assoc (accepts.wire s.client) front (drop n bytes ++ queued bs),
          append_assoc front (drop n bytes) (queued bs),
          take-append-drop n bytes,
        ),
        (length-advance _ b bs, accepts.write_ready front s.client ready),
        busy,
      )

  -- the condition of the loop in `_sendBuffer`
  abbrev pub sendable : Buffer B C → Bool
  sendable s = elim s.tx [
    | [] ↦ false
    | b ∷ _ ↦
        connected c o heap s
        && (ltb 0 (o.space s.client) && (ltb 0 (c.available b) && o.can_send s.client))
  ]

  -- The call returned; the stream of bytes and what the buffer needs are as before; and nothing can
  -- be sent any more, or the heap refused.
  abbrev pub Sends : Buffer B C → Run (Buffer B C) → Type 0
  Sends s r =
      (s' : Buffer B C) × (r ≡ returns s')
      × (stream s' ≡ stream s)
      × Live s'
      × ((sendable s' ≡ false) ⊎ (heap.gives s.asked ≡ false))

  pub send_loop-stops :
      (f : ℕ) (s : Buffer B C)
      → 0 < length s.tx
      → sendable s ≡ false
      → send_loop c o heap (suc f) s ≡ returns s
  unfolding send_loop connected
  send_loop-stops f s live h =
      list-both (λ (r : Run (Buffer B C)). r ≡ returns s) s.tx (λ e. absurd (ground arith))
        (λ b bs e.
          bool-split (λ (r : Run (Buffer B C)). r ≡ returns s)
            (connected c o heap s
              && (ltb 0 (o.space s.client) && (ltb 0 (c.available b) && o.can_send s.client)))
            (λ go. absurd (ground arith)) (λ _. refl))

  send_loop-Sends : (f : ℕ) (s : Buffer B C) → Live s → Sends s (send_loop c o heap (suc (suc f)) s)
  unfolding send_loop connected
  send_loop-Sends f s live =
      list-both (Sends s) s.tx (λ e. absurd (ground arith))
        (λ b bs e.
          bool-split (Sends s)
            (connected c o heap s
              && (ltb 0 (o.space s.client) && (ltb 0 (c.available b) && o.can_send s.client)))
            (λ go.
              bool-split (Sends s) (heap.gives s.asked)
                (λ memory. sent b bs go (
                  round-stream b bs (ask s) e live.1 (ground arith) (ground arith) (ground arith)
                    (ground arith)))
                (λ refused. (ask s, refl, refl, live, inr refused)))
            (λ stop. (s, refl, refl, live, inl (ground arith))))
    where
      sent :
          (b : B) (bs : List B)
          → (connected c o heap s
              && (ltb 0 (o.space s.client) && (ltb 0 (c.available b) && o.can_send s.client)))
            ≡ true
          → (stream (send_round c o heap b bs (ask s)) ≡ stream s)
            × Live (send_round c o heap b bs (ask s))
            × (o.can_send (send_round c o heap b bs (ask s)).client ≡ false)
          → Sends s (send_loop c o heap (suc f) (send_round c o heap b bs (ask s)))
      sent b bs go (same, still, busy) =
          let s' = send_round c o heap b bs (ask s) in
          let idle : sendable s' ≡ false = ground arith in
          (s', send_loop-stops f s' still.0 idle, same, still, inl idle)

  -- `_sendBuffer` of a buffer with a ring, on a client that is ready, returns after at most one write
  -- to the client. The bytes on the wire followed by those in the rings are the same as before, and
  -- it stops only where nothing can be sent for now, or the heap has no memory.
  pub send_buffer-Sends :
      (f : ℕ) (s : Buffer B C) → Live s → Sends s (send_buffer c o heap (suc (suc f)) s)
  unfolding send_buffer connected
  send_buffer-Sends f s live =
      list-both (Sends s) s.tx (λ e. absurd (ground arith))
        (λ b bs e.
          if-split (Sends s)
            (c.available b == 0 || (not (connected c o heap s) || not (o.can_send s.client)))
            (λ stop. (s, refl, refl, live, inl (ground arith))) (λ _. send_loop-Sends f s live))
