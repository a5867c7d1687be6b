-- ===== src/Buffer/Transmit/Shrinking.antt =====
-- How `_sendBuffer` shortens the queue of a buffer whose client can send.
use espasync_tcp.Common.{
  ℕ, suc, ◌<◌, ◌≡◌, ◌⊎◌, inl, inr, refl, sym, ap, ◌∙◌, subst, ◌&&◌, ◌||◌, not, Bool, true, false,
  List, [], ◌∷◌, ◌++◌, append-nil, arith, if◌then◌else◌, ltb, ◌==◌, length, drop, length-append,
  length-zero, length-drop, if-split, bool-split, list-both,
}
use espasync_tcp.Buffer.Cbuf.{Cbuf, IsQueue}
use espasync_tcp.Buffer.Outlet.{Outlet, Accepts}
use espasync_tcp.Buffer.State.{Buffer, Heap, Run, returns, ask}
use espasync_tcp.Buffer.Transmit.{
  last, connected, advance, send_round, send_loop, send_buffer, last_empty,
}
use espasync_tcp.Buffer.Transmit.Order.{
  queued, stream, Live, front-Fits, queued-advance, round-stream, send_loop-stops,
}

-- a chain where no ring is empty, or which is a single ring
module _ {B : Type 0} (c : Cbuf B) (queue : IsQueue c) where
  abbrev pub AllFilled : List B → Type 0
  AllFilled [] = Unit
  AllFilled (b ∷ bs) = (0 < length (queue.contents b)) × AllFilled bs

  abbrev pub Tight : List B → Type 0
  Tight bs = (length bs ≡ 1) ⊎ AllFilled bs

  last-filled : (b : B) (bs : List B) → AllFilled (b ∷ bs) → 0 < length (queue.contents (last b bs))
  last-filled b [] h = h.0
  last-filled b (x ∷ xs) h = last-filled x xs h.1

module _ {B C : Type 0} (c : Cbuf B) (o : Outlet C) (heap : Heap) (queue : IsQueue c)
    {Ready : C → Type 0} (accepts : Accepts o Ready) where
  abbrev chain : List B → List ℕ
  chain = queued c o heap queue accepts

  abbrev line : Buffer B C → List ℕ
  line = stream c o heap queue accepts

  -- the buffer has a ring to write to, its client is `Ready`, and its chain has no empty ring that is not
  -- the only one
  abbrev pub Healthy : Buffer B C → Type 0
  Healthy s = Live c o heap queue accepts s × Tight c queue s.tx

  advance-Tight :
      (sent : ℕ) (b : B) (bs : List B)
      → Tight c queue (b ∷ bs)
      → Tight c queue (advance c o heap sent b bs)
  unfolding advance
  advance-Tight sent b [] h =
      if-split (Tight c queue) (c.available (c.remove sent b) == 0) (λ _. inl refl) (λ _. inl refl)
  advance-Tight sent b (x ∷ xs) (inl one) = absurd (omega (arith, one))
  advance-Tight sent b (x ∷ xs) (inr (_, filled)) =
      if-split (Tight c queue) (c.available (c.remove sent b) == 0) (λ _. inr filled)
        (λ some_left. inr (ground (arith, queue.available_length (c.remove sent b)), filled))

  -- nothing is queued if the last ring is empty, and else the first ring has bytes
  last_empty-queued :
      (b : B) (bs : List B)
      → Tight c queue (b ∷ bs)
      → c.is_empty (last b bs) ≡ true
      → chain (b ∷ bs) ≡ []
  unfolding queued
  last_empty-queued b [] h e =
      append-nil (queue.contents b)
      ∙ length-zero (queue.contents b) (ground (arith, queue.empty_length b))
  last_empty-queued b (x ∷ xs) (inl one) e = absurd (omega (arith, one))
  last_empty-queued b (x ∷ xs) (inr (_, filled)) e =
      absurd (ground (arith, last-filled c queue x xs filled, queue.empty_length (last x xs)))

  first_filled :
      (b : B) (bs : List B)
      → Tight c queue (b ∷ bs)
      → c.is_empty (last b bs) ≡ false
      → 0 < c.available b
  first_filled b [] h e = ground (arith, queue.available_length b, queue.empty_length b)
  first_filled b (x ∷ xs) (inl one) e = absurd (omega (arith, one))
  first_filled b (x ∷ xs) (inr (filled, _)) e = omega (arith, queue.available_length b, filled)

  pub empty-chain :
      (bs : List B)
      → Tight c queue bs
      → 0 < length bs
      → elim bs as (λ _. Bool) [ [] ↦ true | b ∷ rest ↦ c.is_empty (last b rest) ] ≡ true
      → chain bs ≡ []
  empty-chain [] h l e = absurd (omega arith)
  empty-chain (b ∷ bs) h l e = last_empty-queued b bs h e

  pub filled-chain :
      (bs : List B)
      → Tight c queue bs
      → elim bs as (λ _. Bool) [ [] ↦ true | b ∷ rest ↦ c.is_empty (last b rest) ] ≡ false
      → 0 < length (chain bs)
  unfolding queued
  filled-chain [] h e = absurd cc
  filled-chain (b ∷ bs) h e = omega (
    arith,
    first_filled b bs h e,
    queue.available_length b,
    length-append (queue.contents b) (chain bs),
  )

  -- with nothing queued, nothing is sent
  pub send_buffer-empty :
      (f : ℕ) (s : Buffer B C)
      → 0 < length s.tx
      → chain s.tx ≡ []
      → send_buffer c o heap f s ≡ returns s
  unfolding send_buffer queued
  send_buffer-empty f s live empty =
      list-both (λ (r : Run (Buffer B C)). r ≡ returns s) s.tx (λ gone. absurd (ground arith))
        (λ b bs e.
          let none_there : length (queue.contents b ++ chain bs) ≡ 0 =
            ap (λ (r : List B). length (chain r)) (sym e) ∙ ap length empty in
          if-split (λ (r : Run (Buffer B C)). r ≡ returns s)
            (c.available b == 0 || (not (connected c o heap s) || not (o.can_send s.client)))
            (λ _. refl)
            (λ go. absurd (
              ground (
                arith,
                none_there,
                queue.available_length b,
                length-append (queue.contents b) (chain bs),
              ))))

  round-shorter :
      (b : B) (bs : List B) (s : Buffer B C)
      → Ready s.client
      → o.connected s.client ≡ true
      → o.can_send s.client ≡ true
      → 0 < o.space s.client
      → 0 < c.available b
      → length (chain (send_round c o heap b bs s).tx) < length (chain (b ∷ bs))
  unfolding send_round queued
  round-shorter b bs s ready up can space some_bytes =
      let n : ℕ =
        if ltb (o.space s.client) (c.available b) then o.space s.client else c.available b in
      let front = c.peek n b in
      let (some_sent, fits, _, _) =
        front-Fits c o heap queue accepts (o.space s.client) b space some_bytes in
      let (all, _, _) = accepts.write_all front s.client ready up can some_sent fits in
      let sent = (o.write front s.client).0 in
      omega (
        arith,
        all,
        some_sent,
        some_bytes,
        queue.available_length b,
        ap length (queued-advance c o heap queue accepts sent b bs),
        length-append (drop sent (queue.contents b)) (chain bs),
        length-append (queue.contents b) (chain bs),
        length-drop sent (queue.contents b),
      )

  module _ (gives : (n : ℕ) → heap.gives n ≡ true)
      (roomy : (x : C) → o.can_send x ≡ true → 0 < o.space x) where
    -- The call returned, and bytes were sent.
    abbrev pub Shrinks : Buffer B C → Run (Buffer B C) → Type 0
    Shrinks s r =
        (s' : Buffer B C) × (r ≡ returns s')
        × (line s' ≡ line s)
        × Healthy s'
        × (length (chain s'.tx) < length (chain s.tx))

    send_loop-Shrinks :
        (f : ℕ) (b : B) (bs : List B) (s : Buffer B C)
        → s.tx ≡ b ∷ bs
        → Healthy s
        → connected c o heap s ≡ true
        → o.can_send s.client ≡ true
        → 0 < c.available b
        → Shrinks s (send_loop c o heap (suc f) (send_round c o heap b bs (ask s)))
    unfolding connected send_round
    send_loop-Shrinks f b bs s e (live, tight) up can some_bytes =
        let space = roomy s.client can in
        let s' = send_round c o heap b bs (ask s) in
        let (same, still, busy) =
          round-stream c o heap queue accepts b bs (ask s) e live.1 (ground arith) can space
            some_bytes in
        let stops =
          send_loop-stops c o heap queue accepts f s' still.0
            (list-both (λ (x : Bool). x ≡ false) s'.tx (λ _. refl) (λ _ _ _. ground arith)) in
        (
          s',
          stops,
          same,
          (still, advance-Tight _ b bs (subst (Tight c queue) e tight)),
          subst (λ (bytes : List B). length (chain s'.tx) < length (chain bytes)) (sym e)
              (round-shorter b bs (ask s) live.1 (ground arith) can space some_bytes),
        )

    pub send_buffer-Shrinks :
        (f : ℕ) (s : Buffer B C)
        → Healthy s
        → connected c o heap s ≡ true
        → o.can_send s.client ≡ true
        → last_empty c o heap s ≡ false
        → Shrinks s (send_buffer c o heap (suc (suc f)) s)
    unfolding send_buffer send_loop
    send_buffer-Shrinks f s healthy up can more =
        list-both (Shrinks s) s.tx (λ gone. absurd (ground arith))
          (λ b bs e.
            let some_bytes = first_filled b bs (subst (Tight c queue) e healthy.1) (ground arith) in
            if-split (Shrinks s)
              (c.available b == 0 || (not (connected c o heap s) || not (o.can_send s.client)))
              (λ stop. absurd (ground arith))
              (λ _.
                list-both (Shrinks s) s.tx (λ gone. absurd (ground arith))
                  (λ b' bs' e'.
                    let bytes' =
                      first_filled b' bs' (subst (Tight c queue) e' healthy.1) (ground arith) in
                    bool-split (Shrinks s)
                      (connected c o heap s
                        && (ltb 0 (o.space s.client)
                            && (ltb 0 (c.available b') && o.can_send s.client)))
                      (λ _.
                        bool-split (Shrinks s) (heap.gives s.asked)
                          (λ _. send_loop-Shrinks f b' bs' s e' healthy up can bytes')
                          (λ no. absurd (ground (arith, gives s.asked))))
                      (λ no. absurd (ground (arith, roomy s.client can))))))
