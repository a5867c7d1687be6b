-- ===== src/Buffer/Packet/InOrder.antt =====
-- What `_rxData` does with a packet for a data handler.
use espasync_tcp.Common.{
  ℕ, zero, suc, ◌+◌, ◌≤◌, ◌<◌, ◌≡◌, ◌⊎◌, inl, inr, refl, sym, ap, ◌∙◌, subst, ◌&&◌, not, true, none,
  some, List, [], ◌++◌, append-nil, arith, if◌then◌else◌, ltb, ◌==◌, length, drop, length-zero,
  length-drop, take-length, Bool-cases, if-split, if-both, bool-split, option-both,
}
use espasync_tcp.Lwip.{Handler}
use espasync_tcp.Buffer.Cbuf.{Cbuf, IsQueue}
use espasync_tcp.Buffer.Outlet.{Outlet}
use espasync_tcp.Buffer.State.{Buffer, Heap, Hooks, Run, returns, ◌>>=◌, crash}
use espasync_tcp.Buffer.Transmit.{connected}
use espasync_tcp.Buffer.Receive.{handle_rx_buffer}
use espasync_tcp.Buffer.Packet.{
  is_none_mode, skip, handle_more, hand_on, keep, keep_rest, drain_ring, hand_ring, clean_up,
  rx_data, rx_ring_size,
}
use espasync_tcp.Buffer.Packet.Consumer.{IsConsumer, waiting, Listening, InOrder, handle-Handed}

module _ {B C : Type 0} (c : Cbuf B) (o : Outlet C) (heap : Heap) (hooks : Hooks B C)
    (queue : IsQueue c) (h : Handler) {taken : C → List ℕ}
    (consumer : IsConsumer o hooks h taken) where
  abbrev left_in : Buffer B C → List ℕ
  left_in = waiting c o heap hooks queue h consumer

  abbrev Hears : Buffer B C → Type 0
  Hears = Listening c o heap hooks queue h consumer

  abbrev Ordered : Buffer B C → List ℕ → Buffer B C → List ℕ → Type 0
  Ordered = InOrder c o heap hooks queue h consumer

  module _ (gives : (n : ℕ) → heap.gives n ≡ true) where
    -- A call returned with bytes that are left.
    abbrev Kept : Buffer B C → List ℕ → Run (List ℕ × Buffer B C) → Type 0
    Kept s buf r =
        (rest : List ℕ) × (s' : Buffer B C) × (r ≡ returns (rest, s')) × Ordered s buf s' rest

    Kept-from :
        (s : Buffer B C) (buf : List ℕ) (s1 : Buffer B C) (left : List ℕ)
        (r : Run (List ℕ × Buffer B C))
        → Ordered s buf s1 left
        → Kept s1 left r
        → Kept s buf r
    Kept-from s buf s1 left r (_, first) (rest, s', ran, (live, second)) =
        (rest, s', ran, (live, second ∙ first))

    skip-fits :
        (n : ℕ) (buf : List ℕ) (s : Buffer B C)
        → n ≤ length buf
        → skip c o heap hooks n buf s ≡ (drop n buf, s)
    skip-fits n buf s few = ground arith

    -- The packet is handed on, and then `next` runs on what is left of it.
    next-Kept :
        (buf : List ℕ) (s : Buffer B C) (next : ℕ → List ℕ → Buffer B C → Run (List ℕ × Buffer B C))
        → Hears s
        → ((n : ℕ) (s1 : Buffer B C)
            → n ≤ length buf
            → Ordered s buf s1 (drop n buf)
            → Kept s1 (drop n buf) (next n (drop n buf) s1))
        → Kept s buf (
            handle_rx_buffer c o heap hooks buf s
            >>= (λ (n, s1). let (rest, s2) = skip c o heap hooks n buf s1 in next n rest s2))
    next-Kept buf s next live k =
        let (n, s1, ran, few, order) =
          handle-Handed c o heap hooks queue h consumer gives buf s live in
        subst
          (λ (r : Run (ℕ × Buffer B C)).
            Kept s buf
              (r >>= (λ (n, s1). let (rest, s2) = skip c o heap hooks n buf s1 in next n rest s2)))
          (sym ran)
          (subst (λ (r : List ℕ × Buffer B C). Kept s buf (next n r.0 r.1))
            (sym (skip-fits n buf s1 few))
            (Kept-from s buf s1 (drop n buf) _ order (k n s1 few order)))

    handle_more-Kept :
        (f handled : ℕ) (buf : List ℕ) (s : Buffer B C)
        → Hears s
        → (length buf < f) ⊎ ((handled ≡ 0) × (0 < f))
        → Kept s buf (handle_more c o heap hooks f handled buf s)
    unfolding handle_more
    handle_more-Kept zero handled buf s live l = absurd (omega (arith, l))
    handle_more-Kept (suc f) handled buf s live l =
        bool-split (Kept s buf)
          (not (is_none_mode s.rx_mode) && (not (handled == 0) && ltb 0 (length buf)))
          (λ go. next-Kept buf s (handle_more c o heap hooks f) live (λ n s1 few order.
            handle_more-Kept f n (drop n buf) s1 order.0 (elim (Bool-cases (n == 0)) [
              | inl nothing ↦ inr (ground arith, ground arith)
              | inr some_bytes ↦ inl (ground (arith, length-drop n buf))
            ])))
          (λ _. (buf, s, refl, (live, refl)))

    hand_on-Kept :
        (buf : List ℕ) (s : Buffer B C) → Hears s → Kept s buf (hand_on c o heap hooks buf s)
    unfolding hand_on
    hand_on-Kept buf s live =
        if-split (Kept s buf) (is_none_mode s.rx_mode) (λ no. (buf, s, refl, (live, refl)))
          (λ _.
            next-Kept buf s
              (λ n rest s2. elim s2.rx [
                | none ↦ returns (rest, crash s2)
                | some b ↦
                    if c.is_empty b
                    then handle_more c o heap hooks (suc (length buf)) n rest s2
                    else returns (rest, s2)
              ])
              live
              (λ n s1 few (live1, order).
                option-both (Kept s1 (drop n buf)) s1.rx (λ gone. absurd (ground arith))
                  (λ b e.
                    if-both (Kept s1 (drop n buf)) (c.is_empty b)
                      (handle_more-Kept (suc (length buf)) n (drop n buf) s1 live1
                        (inl (omega (arith, length-drop n buf))))
                      (drop n buf, s1, refl, (live1, refl)))))

    module _ (grows : (n : ℕ) (b : B) → c.room (c.resize_add n b) ≡ c.room b + n) where
      keep-contents :
          (buf : List ℕ) (b : B)
          → queue.contents (keep c o heap hooks buf b) ≡ queue.contents b ++ buf
      unfolding keep
      keep-contents buf b =
          let larger = c.resize_add (length buf + c.room b) b in
          ground (
            arith,
            grows (length buf + c.room b) b,
            queue.resize_add_keeps (length buf + c.room b) b,
            queue.write_contents buf b,
            queue.write_contents buf larger,
            queue.write_count buf b,
            queue.write_count buf larger,
            take-length buf,
          )

      keep_rest-InOrder :
          (buf : List ℕ) (s : Buffer B C)
          → Hears s
          → Ordered s buf (keep_rest c o heap hooks buf s) []
      unfolding keep_rest connected
      keep_rest-InOrder buf s live =
          if-split (λ (s' : Buffer B C). Ordered s buf s' []) (length buf == 0)
            (λ none_left. (live, ground (arith, length-zero buf)))
            (λ _.
              option-both (λ (s' : Buffer B C). Ordered s buf s' []) s.rx
                (λ gone. absurd (ground arith))
                (λ b e. (
                  (live.0, refl, live.2, live.3),
                  ground (arith, keep-contents buf b, e, append-nil (queue.contents b ++ buf)),
                )))

      clean_up-InOrder : (s : Buffer B C) → Hears s → Ordered s [] (clean_up c o heap hooks s) []
      unfolding clean_up connected
      clean_up-InOrder s live =
          option-both (λ (s' : Buffer B C). Ordered s [] s' []) s.rx (λ gone. absurd (ground arith))
            (λ b e.
              if-split (λ (s' : Buffer B C). Ordered s [] s' [])
                (c.is_empty b && not (c.room b == rx_ring_size))
                (λ _. (
                  (live.0, refl, live.2, live.3),
                  ground (arith, queue.resize_keeps rx_ring_size b, e),
                ))
                (λ _. (live, refl)))

      hand_ring-InOrder :
          (s : Buffer B C)
          → Hears s
          → (s' : Buffer B C) × (hand_ring c o heap hooks s ≡ returns s') × Ordered s [] s' []
      unfolding hand_ring drain_ring
      hand_ring-InOrder s live =
          let goal =
            λ (r : Run (Buffer B C)). (s' : Buffer B C) × (r ≡ returns s') × Ordered s [] s' [] in
          option-both goal s.rx (λ gone. absurd (ground arith))
            (λ b e.
              if-split goal (not (c.is_empty b) && not (is_none_mode s.rx_mode))
                (λ _.
                  let (n, s1, ran, few, order) =
                    handle-Handed c o heap hooks queue h consumer gives [] s live in
                  let nothing : n ≡ 0 = omega (arith, few) in
                  (
                    s1,
                    ap
                          (λ (r : Run (ℕ × Buffer B C)).
                            r >>= (λ (k, v). drain_ring c o heap hooks 1 k v))
                          ran
                        ∙ ground (arith, nothing),
                    subst (λ (k : ℕ). Ordered s [] s1 (drop k [])) nothing order,
                  ))
                (λ _. (s, refl, (live, refl))))

      -- On the buffer of a connected client that hands what it receives to a data handler, where memory
      -- can be had and the ring can grow, and for a handler that takes some of the first bytes that it
      -- is given and leaves the buffer alone: `_rxData` returns, and the bytes that the handler took so
      -- far, followed by those in the ring, are what they were before followed by the packet.
      pub rx_data-InOrder :
          (buf : List ℕ) (s : Buffer B C)
          → Hears s
          → (s' : Buffer B C) × (rx_data c o heap hooks buf s ≡ returns s')
            × Hears s'
            × (taken s'.client ++ left_in s' ≡ taken s.client ++ (left_in s ++ buf))
      unfolding rx_data
      rx_data-InOrder buf s live =
          let goal = λ (r : Run (Buffer B C)).
            (s' : Buffer B C) × (r ≡ returns s')
            × Hears s'
            × (taken s'.client ++ left_in s' ≡ taken s.client ++ (left_in s ++ buf)) in
          if-split goal (not (connected c o heap s)) (λ no. absurd (ground arith))
            (λ _.
              option-both goal s.rx (λ gone. absurd (ground arith))
                (λ b e.
                  let (rest, s1, ran1, (live1, order1)) = hand_on-Kept buf s live in
                  let (live2, order2) = keep_rest-InOrder rest s1 live1 in
                  let (s3, ran3, (live3, order3)) =
                    hand_ring-InOrder (keep_rest c o heap hooks rest s1) live2 in
                  let (live4, order4) = clean_up-InOrder s3 live3 in
                  let s4 = clean_up c o heap hooks s3 in
                  (
                    s4,
                    ap
                          (λ (r : Run (List ℕ × Buffer B C)). r >>= (λ (left, v).
                            hand_ring c o heap hooks (keep_rest c o heap hooks left v)
                            >>= (λ v2. returns (clean_up c o heap hooks v2))))
                          ran1
                        ∙ ap
                            (λ (r : Run (Buffer B C)).
                              r >>= (λ v2. returns (clean_up c o heap hooks v2)))
                            ran3,
                    live4,
                    ap (◌++◌ (taken s4.client)) (sym (append-nil (left_in s4)))
                        ∙ order4
                        ∙ order3
                        ∙ order2
                        ∙ order1,
                  )))
