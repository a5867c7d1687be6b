-- ===== src/Buffer/Transmit/Session.antt =====
-- Any number of calls of `write`, and then `flush`.
use espasync_tcp.Common.{
  ℕ, suc, ◌+◌, ◌≤◌, ◌<◌, ◌≡◌, ◌⊎◌, inl, inr, refl, sym, ap, ◌∙◌, subst, true, false, some, List, [],
  ◌∷◌, ◌++◌, append-nil, append_assoc, arith, length, take, length-append, length-take,
}
use espasync_tcp.Buffer.Cbuf.{Cbuf, IsQueue}
use espasync_tcp.Buffer.Outlet.{Outlet, Accepts}
use espasync_tcp.Buffer.State.{Buffer, Heap, Run, returns, ◌>>=◌}
use espasync_tcp.Buffer.Transmit.{connected, write, flush}
use espasync_tcp.Buffer.Transmit.Order.{queued, stream, Live}
use espasync_tcp.Buffer.Transmit.Append.{write-Appends}
use espasync_tcp.Buffer.Transmit.Solid.{Solid, Solid-Tight, Kept, write-Solid}
use espasync_tcp.Buffer.Transmit.Flushing.{Yields, flush-Flushed}

-- the calls of `write` one after the other; the result has the bytes that they took
unfoldable pub writes :
    {B C : Type 0}
    → Cbuf B
    → Outlet C
    → Heap
    → ℕ
    → List (List ℕ)
    → Buffer B C
    → Run (List ℕ × Buffer B C)
writes c o heap f [] s = returns ([], s)
writes c o heap f (bytes ∷ more) s = write c o heap f (some bytes) s >>= (λ (k, s1).
    writes c o heap f more s1 >>= (λ (taken, s2). returns (take k bytes ++ taken, s2)))

abbrev pub total : List (List ℕ) → ℕ
total [] = 0
total (bytes ∷ more) = length bytes + total more

module _ {B C : Type 0} (c : Cbuf B) (o : Outlet C) (heap : Heap) (queue : IsQueue c)
    {Ready : C → Type 0} (accepts : Accepts o Ready) where
  abbrev chain : List B → List ℕ
  chain = queued c o heap queue accepts

  abbrev line : Buffer B C → List ℕ
  line = stream c o heap queue accepts

  abbrev Held : Buffer B C → Type 0
  Held = Live c o heap queue accepts

  module _ (gives : (n : ℕ) → heap.gives n ≡ true) where
    -- The calls returned; what they took stands at the end of the line, and is no more than was offered.
    abbrev Taken : List (List ℕ) → Buffer B C → Run (List ℕ × Buffer B C) → Type 0
    Taken all s r =
        (taken : List ℕ) × (s1 : Buffer B C) × (r ≡ returns (taken, s1))
        × (line s1 ≡ line s ++ taken)
        × Held s1
        × Solid c queue s1.tx
        × (length taken ≤ total all)

    writes-Taken :
        (f : ℕ) (all : List (List ℕ)) (s : Buffer B C)
        → Held s
        → Solid c queue s.tx
        → Taken all s (writes c o heap (suc (suc f)) all s)
    unfolding writes
    writes-Taken f [] s live solid =
        ([], s, refl, sym (append-nil (line s)), live, solid, omega arith)
    writes-Taken f (bytes ∷ more) s live solid =
        let (k, s1, ran, same, live1, _) =
          write-Appends c o heap queue accepts gives f bytes s live in
        let solid1 =
          subst (Kept (λ (r : ℕ × Buffer B C). Solid c queue r.1.tx)) ran
            (write-Solid c o heap queue (suc (suc f)) bytes s solid) in
        let (taken, s2, ran2, same2, live2, solid2, few) = writes-Taken f more s1 live1 solid1 in
        (
          take k bytes ++ taken,
          s2,
          ap
                (λ (r : Run (ℕ × Buffer B C)). r >>= (λ (k1, s3).
                  writes c o heap (suc (suc f)) more s3
                  >>= (λ (taken1, s4). returns (take k1 bytes ++ taken1, s4))))
                ran
              ∙ ap
                  (λ (r : Run (List ℕ × Buffer B C)).
                    r >>= (λ (taken1, s4). returns (take k bytes ++ taken1, s4)))
                  ran2,
          same2 ∙ ap (λ (x : List ℕ). x ++ taken) same ∙ append_assoc (line s) (take k bytes) taken,
          live2,
          solid2,
          omega (arith, few, length-append (take k bytes) taken, length-take k bytes),
        )

    module _ (roomy : (x : C) → o.can_send x ≡ true → 0 < o.space x)
        (delay : Buffer B C → Buffer B C) (patience : Buffer B C → ℕ)
        (yields : Yields c o heap queue accepts gives roomy delay patience) where
      -- A buffer whose chain has no empty ring, or is a single ring of some size, on a client that is ready and has space
      -- whenever it can send, where memory can be had, and where delays let the client send again or
      -- disconnect it within the fuel: any number of calls of `write`, and then `flush`, return, and
      -- unless the client is disconnected, what is on the wire then is what was on the wire and in the
      -- rings, followed by the bytes that the calls of `write` counted as taken, in their order.
      pub flush-writes :
          (f g : ℕ) (all : List (List ℕ)) (s : Buffer B C)
          → ((v : Buffer B C) → patience v < suc (suc f))
          → Held s
          → Solid c queue s.tx
          → length (line s) + total all < g
          → (taken : List ℕ) × (s1 : Buffer B C) × (s2 : Buffer B C) × (writes c o heap
                (suc (suc f))
                all
                s
              ≡ returns (taken, s1))
            × (flush c o heap delay (suc (suc f)) g s1 ≡ returns s2)
            × ((accepts.wire s2.client ≡ line s ++ taken) ⊎ (connected c o heap s2 ≡ false))
      flush-writes f g all s soon live solid l =
          let (taken, s1, ran, same, live1, solid1, few) = writes-Taken f all s live solid in
          let short : length (chain s1.tx) < g = omega (
            arith,
            l,
            few,
            ap length same,
            length-append (line s) taken,
            length-append (accepts.wire s1.client) (chain s1.tx),
          ) in
          let (s2, ran2, same2, why) =
            flush-Flushed c o heap queue accepts gives roomy delay patience yields f g s1 soon
              (live1, Solid-Tight c queue s1.tx solid1) short in
          (
            taken,
            s1,
            s2,
            ran,
            ran2,
            elim why [
              | inl sent ↦ inl (
                  sym (append-nil (accepts.wire s2.client))
                  ∙ ap (◌++◌ (accepts.wire s2.client)) (sym sent)
                  ∙ same2
                  ∙ same)
              | inr down ↦ inr down
            ],
          )
