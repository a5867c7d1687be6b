-- ===== src/Buffer/Transmit/Append.antt =====
-- Writing to the buffer: where the bytes end up.
use espasync_tcp.Common.{
  ℕ, zero, suc, ◌-◌, ◌<◌, ◌≡◌, ◌⊎◌, inl, inr, refl, sym, ap, ◌∙◌, subst, ◌&&◌, ◌||◌, not, true,
  false, some, List, [], ◌∷◌, ◌++◌, append-nil, append_assoc, arith, ◌==◌, length, take, drop,
  length-append, length-zero, length-drop, take-append-drop, Bool-cases, if-split, list-both,
}
use espasync_tcp.Buffer.Cbuf.{Cbuf, IsQueue}
use espasync_tcp.Buffer.Outlet.{Outlet, Accepts}
use espasync_tcp.Buffer.State.{Buffer, Heap, Run, returns, ◌>>=◌, ask}
use espasync_tcp.Buffer.Transmit.{
  last, connected, send_buffer, put_last, last_full, grow, extend, write_loop, write,
}
use espasync_tcp.Buffer.Transmit.Order.{queued, stream, Live, send_buffer-Sends}
use espasync_tcp.Buffer.Transmit.Chain.{last_room, put_last-stream, put_last-count, grow-stream}

module _ {B C : Type 0} (c : Cbuf B) (o : Outlet C) (heap : Heap) (queue : IsQueue c)
    {Ready : C → Type 0} (accepts : Accepts o Ready) where
  abbrev chain : List B → List ℕ
  chain = queued c o heap queue accepts

  abbrev line : Buffer B C → List ℕ
  line = stream c o heap queue accepts

  abbrev Held : Buffer B C → Type 0
  Held = Live c o heap queue accepts

  abbrev room_left : Buffer B C → ℕ
  room_left = last_room c o heap queue accepts

  -- The loop returned: what it wrote stands at the end of the line, `rest` is left, and something
  -- is left only where the heap was low.
  abbrev pub Written : List ℕ → Buffer B C → Run (List ℕ × Buffer B C) → Type 0
  Written bytes s r =
      (taken : List ℕ) × (rest : List ℕ) × (s' : Buffer B C) × (r ≡ returns (rest, s'))
      × (bytes ≡ taken ++ rest)
      × (line s' ≡ line s ++ taken)
      × Held s'
      × ((rest ≡ []) ⊎ ((n : ℕ) × (heap.low n ≡ true)))

  Written-from :
      (bytes : List ℕ) (s s1 : Buffer B C) (r : Run (List ℕ × Buffer B C))
      → line s1 ≡ line s
      → Written bytes s1 r
      → Written bytes s r
  Written-from bytes s s1 r e (taken, rest, s', ran, split, same, live, why) =
      (taken, rest, s', ran, split, same ∙ ap (λ (x : List ℕ). x ++ taken) e, live, why)

  -- A part of the bytes was written before.
  Written-after :
      (before bytes : List ℕ) (s s1 : Buffer B C) (r : Run (List ℕ × Buffer B C))
      → line s1 ≡ line s ++ before
      → Written bytes s1 r
      → Written (before ++ bytes) s r
  Written-after before bytes s s1 r e (taken, rest, s', ran, split, same, live, why) = (
    before ++ taken,
    rest,
    s',
    ran,
    ap (◌++◌ before) split ∙ sym (append_assoc before taken rest),
    same ∙ ap (λ (x : List ℕ). x ++ taken) e ∙ append_assoc (line s) before taken,
    live,
    why,
  )

  roomy_if_not_full :
      (rest : List ℕ) (s : Buffer B C)
      → Held s
      → (last_full c o heap s && not (length rest == 0)) ≡ false
      → (rest ≡ []) ⊎ (0 < room_left s)
  roomy_if_not_full rest s live h = elim (Bool-cases (length rest == 0)) [
    | inl none_left ↦ inl (length-zero rest (ground arith))
    | inr some_left ↦ inr (
        list-both (λ (n : ℕ). 0 < n) s.tx (λ e. absurd (ground arith))
          (λ b bs e. ground (arith, queue.full_room (last b bs))))
  ]

  -- What the later rounds are known to do.
  abbrev Writes : (List ℕ → Buffer B C → Run (List ℕ × Buffer B C)) → List ℕ → Type 0
  Writes next rest =
      (s : Buffer B C) → Held s → (rest ≡ []) ⊎ (0 < room_left s) → Written rest s (next rest s)

  extend-Written :
      (gives : (n : ℕ) → heap.gives n ≡ true)
      (next : List ℕ → Buffer B C → Run (List ℕ × Buffer B C)) (rest : List ℕ) (s : Buffer B C)
      → Held s
      → Writes next rest
      → Written rest s (extend c o heap next rest s)
  unfolding extend
  extend-Written gives next rest s live writes =
      if-split (Written rest s) (last_full c o heap s && not (length rest == 0))
        (λ full.
          if-split (Written rest s) (heap.low s.asked)
            (λ low.
              ([], rest, ask s, refl, refl, sym (append-nil (line s)), live, inr (s.asked, low)))
            (λ _.
              if-split (Written rest s) (heap.gives (suc s.asked))
                (λ _.
                  let (same, still, room) = grow-stream c o heap queue accepts (ask (ask s)) live in
                  Written-from rest s (grow c o heap (ask (ask s))) _ same
                    (writes (grow c o heap (ask (ask s))) still (inr (omega (arith, room)))))
                (λ no. absurd (ground (arith, gives (suc s.asked))))))
        (λ roomy. writes s live (roomy_if_not_full rest s live roomy))

  write_loop-Written :
      (gives : (n : ℕ) → heap.gives n ≡ true) (f g : ℕ) (bytes : List ℕ) (s : Buffer B C)
      → Held s
      → length bytes < g
      → ((bytes ≡ []) ⊎ (0 < room_left s)) ⊎ (suc (length bytes) < g)
      → Written bytes s (write_loop c o heap (suc (suc f)) g bytes s)
  unfolding write_loop
  write_loop-Written gives f zero bytes s live l room = absurd (omega arith)
  write_loop-Written gives f (suc g) [] s live l room =
      ([], [], s, refl, refl, sym (append-nil (line s)), live, inl refl)
  write_loop-Written gives f (suc g) (x ∷ xs) s live l room =
      let bytes = x ∷ xs in
      let (w, s1) = put_last c o heap bytes s in
      let (put, live1) = put_last-stream c o heap queue accepts bytes s live in
      let count = put_last-count c o heap queue accepts bytes s live.0 in
      let (s2, ran, same, live2, _) = send_buffer-Sends c o heap queue accepts f s1 live1 in
      let next = write_loop c o heap (suc (suc f)) g in
      let shorter : length (drop w bytes) < g = elim room [
        | inl (inl e) ↦ absurd (cc)
        | inl (inr roomy) ↦ omega (arith, length-drop w bytes, count, roomy)
        | inr more ↦ omega (arith, length-drop w bytes, more)
      ] in
      let later = extend-Written gives next (drop w bytes) s2 live2 (λ s3 live3 room3.
        write_loop-Written gives f g (drop w bytes) s3 live3 shorter (inl room3)) in
      subst
        (λ (b : List ℕ).
          Written b s
            (send_buffer c o heap (suc (suc f)) s1 >>= extend c o heap next (drop w bytes)))
        (take-append-drop w bytes)
        (Written-after (take w bytes) (drop w bytes) s s1 _ put (
          Written-from (drop w bytes) s1 s2 _ same (
            subst
              (λ (r : Run (Buffer B C)).
                Written (drop w bytes) s2 (r >>= extend c o heap next (drop w bytes)))
              (sym ran) later)))

  take-prefix : (xs ys : List ℕ) → take (length xs) (xs ++ ys) ≡ xs
  take-prefix [] ys = refl
  take-prefix (x ∷ xs) ys = ap (◌∷◌ x) (take-prefix xs ys)

  -- `write` returned how many of the first bytes it took, and these stand at the end of the line.
  abbrev pub Appends : List ℕ → Buffer B C → Run (ℕ × Buffer B C) → Type 0
  Appends bytes s r =
      (k : ℕ) × (s' : Buffer B C) × (r ≡ returns (k, s'))
      × (line s' ≡ line s ++ take k bytes)
      × Held s'
      × ((k ≡ length bytes) ⊎ (connected c o heap s ≡ false) ⊎ ((n : ℕ) × (heap.low n ≡ true)))

  -- `write` of `AsyncTCPBuffer`, where memory can be had, of a buffer with a ring and a client that is
  -- ready, returns. The number that it returns counts the first bytes that it took, and these stand
  -- at the end of the line, behind all bytes that were written before and that are on the wire or in
  -- the rings. It takes all bytes unless the client is not connected or the heap is low.
  pub write-Appends :
      (gives : (n : ℕ) → heap.gives n ≡ true) (f : ℕ) (bytes : List ℕ) (s : Buffer B C)
      → Held s
      → Appends bytes s (write c o heap (suc (suc f)) (some bytes) s)
  unfolding write
  write-Appends gives f bytes s live =
      if-split (Appends bytes s)
        (length s.tx == 0 || (not (connected c o heap s) || length bytes == 0))
        (λ stop. (
          0,
          s,
          refl,
          sym (append-nil (line s)),
          live,
          elim (Bool-cases (connected c o heap s)) [
            | inl up ↦ inl (ground arith)
            | inr down ↦ inr (inl down)
          ],
        ))
        (λ _.
          let (taken, rest, s', ran, split, same, still, why) =
            write_loop-Written gives f (suc (suc (length bytes))) bytes s live (omega arith)
              (inr (omega arith)) in
          let k = length bytes - length rest in
          let k-taken : k ≡ length taken =
            omega (arith, ap length split, length-append taken rest) in
          (
            k,
            s',
            ap
                (λ (r : Run (List ℕ × Buffer B C)).
                  r >>= (λ (left, s2). returns (length bytes - length left, s2)))
                ran,
            same
                ∙ ap (◌++◌ (line s)) (
                    sym (
                      ap (λ (n : ℕ). take n bytes) k-taken
                      ∙ ap (take (length taken)) split
                      ∙ take-prefix taken rest)),
            still,
            elim why [ inl all ↦ inl (omega (arith, ap length all)) | inr low ↦ inr (inr low) ],
          ))
