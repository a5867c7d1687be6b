-- ===== src/Buffer/Transmit/Flushing.antt =====
-- `flush`: how it ends.
use espasync_tcp.Common.{
  ℕ, zero, suc, ◌≤◌, ◌<◌, ◌≡◌, ◌⊎◌, inl, inr, refl, sym, ap, ◌∙◌, subst, ◌&&◌, not, true, false,
  List, [], arith, ◌==◌, length, Bool-cases, if-split, bool-split,
}
use espasync_tcp.Buffer.Cbuf.{Cbuf, IsQueue}
use espasync_tcp.Buffer.Outlet.{Outlet, Accepts}
use espasync_tcp.Buffer.State.{Buffer, Heap, Run, returns, ◌>>=◌}
use espasync_tcp.Buffer.Transmit.{connected, send_buffer, wait, last_empty, flush}
use espasync_tcp.Buffer.Transmit.Order.{queued, stream}
use espasync_tcp.Buffer.Transmit.Shrinking.{
  Healthy, empty-chain, filled-chain, send_buffer-empty, send_buffer-Shrinks,
}

module _ {B C : Type 0} (c : Cbuf B) (o : Outlet C) (heap : Heap) (queue : IsQueue c)
    {Ready : C → Type 0} (accepts : Accepts o Ready) where
  abbrev chain : List B → List ℕ
  chain = queued c o heap queue accepts

  abbrev line : Buffer B C → List ℕ
  line = stream c o heap queue accepts

  abbrev Sound : Buffer B C → Type 0
  Sound = Healthy c o heap queue accepts

  module _ (gives : (n : ℕ) → heap.gives n ≡ true)
      (roomy : (x : C) → o.can_send x ≡ true → 0 < o.space x) where
    -- What the rest of the system does in `delay(0)`: it may send queued bytes, keeps the stream of bytes
    -- and the buffer healthy, and makes a connected client that cannot send come closer to sending or
    -- to being disconnected, which `patience` counts.
    pub record Yields (delay : Buffer B C → Buffer B C) (patience : Buffer B C → ℕ) : Type 0 where
      pub keeps_stream : (s : Buffer B C) → Sound s → line (delay s) ≡ line s
      pub keeps_health : (s : Buffer B C) → Sound s → Sound (delay s)
      pub queues_nothing :
          (s : Buffer B C) → Sound s → length (chain (delay s).tx) ≤ length (chain s.tx)
      pub wakes :
          (s : Buffer B C)
          → Sound s
          → connected c o heap s ≡ true
          → o.can_send s.client ≡ false
          → patience (delay s) < patience s

    module _ (delay : Buffer B C → Buffer B C) (patience : Buffer B C → ℕ)
        (yields : Yields delay patience) where
      -- The loop that waits returned: the client can send, or is not connected.
      abbrev Awake : Buffer B C → Run (Buffer B C) → Type 0
      Awake s r =
          (s' : Buffer B C) × (r ≡ returns s')
          × (line s' ≡ line s)
          × Sound s'
          × (length (chain s'.tx) ≤ length (chain s.tx))
          × ((connected c o heap s' && not (o.can_send s'.client)) ≡ false)

      wait-Awake :
          (f : ℕ) (s : Buffer B C) → Sound s → patience s < f → Awake s (wait c o heap delay f s)
      unfolding wait
      wait-Awake zero s healthy l = absurd (omega arith)
      wait-Awake (suc f) s healthy l =
          bool-split (Awake s) (connected c o heap s && not (o.can_send s.client))
            (λ busy.
              let closer = yields.wakes s healthy (ground arith) (ground arith) in
              let (s', ran, same, healthy', fewer, idle) =
                wait-Awake f (delay s) (yields.keeps_health s healthy) (omega (arith, closer, l)) in
              (
                s',
                ran,
                same ∙ yields.keeps_stream s healthy,
                healthy',
                omega (arith, fewer, yields.queues_nothing s healthy),
                idle,
              ))
            (λ idle. (s, refl, refl, healthy, omega arith, idle))

      -- `flush` returned, and nothing is queued, or the client is not connected.
      abbrev pub Flushed : Buffer B C → Run (Buffer B C) → Type 0
      Flushed s r =
          (s' : Buffer B C) × (r ≡ returns s')
          × (line s' ≡ line s)
          × ((chain s'.tx ≡ []) ⊎ (connected c o heap s' ≡ false))

      Flushed-from :
          (s s1 : Buffer B C) (r : Run (Buffer B C)) → line s1 ≡ line s → Flushed s1 r → Flushed s r
      Flushed-from s s1 r same (s', ran, same', why) = (s', ran, same' ∙ same, why)

      -- the rest of a round, where the later rounds do as they should
      round-Flushed :
          (f g : ℕ) (s s1 : Buffer B C)
          → ((s2 : Buffer B C)
              → Sound s2
              → length (chain s2.tx) < g
              → Flushed s2 (flush c o heap delay (suc (suc f)) g s2))
          → line s1 ≡ line s
          → Sound s1
          → length (chain s1.tx) ≤ g
          → 0 < g
          → (connected c o heap s1 && not (o.can_send s1.client)) ≡ false
          → Flushed s (elim (connected c o heap s1) [
            | false ↦ returns s1
            | true ↦ send_buffer c o heap (suc (suc f)) s1 >>= flush c o heap delay (suc (suc f)) g
          ])
      round-Flushed f g s s1 next same healthy few some_left idle =
          let goal =
            λ (r : Run (Buffer B C)). Flushed s (r >>= flush c o heap delay (suc (suc f)) g) in
          bool-split (Flushed s) (connected c o heap s1)
            (λ up. elim (Bool-cases (last_empty c o heap s1)) [
              | inl empty ↦
                  let none_left =
                    empty-chain c o heap queue accepts s1.tx healthy.1 healthy.0.0 empty in
                  subst goal
                    (sym (
                      send_buffer-empty c o heap queue accepts (suc (suc f)) s1 healthy.0.0
                        none_left))
                    (Flushed-from s s1 _ same
                      (next s1 healthy (omega (arith, ap length none_left, some_left))))
              | inr more ↦
                  let (s2, ran, to, healthy2, fewer) =
                    send_buffer-Shrinks c o heap queue accepts gives roomy f s1 healthy up
                      (ground arith) more in
                  subst goal (sym ran)
                    (Flushed-from s s2 _ (to ∙ same) (next s2 healthy2 (omega (arith, fewer, few))))
            ])
            (λ down. (s1, refl, same, inr down))

      -- `flush` of a healthy buffer, on a client that has space whenever it can send, where memory can be
      -- had, and where delays let the client send again or disconnect it within the fuel for waiting:
      -- it returns after at most one round for each queued byte. Then all queued bytes are on the
      -- wire, in their order, or the client is not connected; none is lost.
      pub flush-Flushed :
          (f g : ℕ) (s : Buffer B C)
          → ((s1 : Buffer B C) → patience s1 < suc (suc f))
          → Sound s
          → length (chain s.tx) < g
          → Flushed s (flush c o heap delay (suc (suc f)) g s)
      unfolding flush
      flush-Flushed f zero s soon healthy l = absurd (omega arith)
      flush-Flushed f (suc g) s soon healthy l =
          bool-split (Flushed s) (last_empty c o heap s)
            (λ empty.
              if-split (λ (x : Buffer B C). Flushed s (returns x)) (length s.tx == 0)
                (λ gone. absurd (ground (arith, healthy.0.0)))
                (λ _. (
                  s,
                  refl,
                  refl,
                  inl (empty-chain c o heap queue accepts s.tx healthy.1 healthy.0.0 empty),
                )))
            (λ more.
              let (s1, ran, same, healthy1, fewer, idle) =
                wait-Awake (suc (suc f)) s healthy (soon s) in
              subst
                (λ (r : Run (Buffer B C)). Flushed s (
                  r >>= (λ s2. elim (connected c o heap s2) [
                    | false ↦ returns s2
                    | true ↦
                        send_buffer c o heap (suc (suc f)) s2
                        >>= flush c o heap delay (suc (suc f)) g
                  ])))
                (sym ran)
                (round-Flushed f g s s1 (λ s2 healthy2 l2. flush-Flushed f g s2 soon healthy2 l2)
                  same healthy1 (omega (arith, fewer, l))
                  (omega (arith, l, filled-chain c o heap queue accepts s.tx healthy.1 more)) idle))
