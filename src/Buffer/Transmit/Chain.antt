-- ===== src/Buffer/Transmit/Chain.antt =====
-- The chain of rings that wait to be sent: writing to its last ring, and a ring more.
use espasync_tcp.Common.{
  ℕ, suc, ◌<◌, ◌≡◌, refl, ap, List, [], ◌∷◌, ◌++◌, append-nil, append_assoc, arith, min, length,
  take, length-append, length-zero, list-both,
}
use espasync_tcp.Buffer.Cbuf.{Cbuf, IsQueue}
use espasync_tcp.Buffer.Outlet.{Outlet, Accepts}
use espasync_tcp.Buffer.State.{Buffer, Heap}
use espasync_tcp.Buffer.Transmit.{tcp_mss, last, change_last, put_last, grow}
use espasync_tcp.Buffer.Transmit.Order.{queued, stream, Live}

module _ {B C : Type 0} (c : Cbuf B) (o : Outlet C) (heap : Heap) (queue : IsQueue c)
    {Ready : C → Type 0} (accepts : Accepts o Ready) where
  abbrev chain : List B → List ℕ
  chain = queued c o heap queue accepts

  abbrev line : Buffer B C → List ℕ
  line = stream c o heap queue accepts

  abbrev Held : Buffer B C → Type 0
  Held = Live c o heap queue accepts

  length-change_last : (f : B → B) (bs : List B) → length (change_last f bs) ≡ length bs
  length-change_last f [] = refl
  length-change_last f (b ∷ []) = refl
  length-change_last f (b ∷ x ∷ xs) = ap suc (length-change_last f (x ∷ xs))

  queued-change_last :
      (bytes : List ℕ) (b : B) (bs : List B)
      → chain (change_last (λ r. (c.write bytes r).1) (b ∷ bs))
        ≡ chain (b ∷ bs) ++ take (c.write bytes (last b bs)).0 bytes
  unfolding queued
  queued-change_last bytes b [] = ground (
    arith,
    queue.write_contents bytes b,
    append-nil (queue.contents b),
    append-nil (queue.contents (c.write bytes b).1),
  )
  queued-change_last bytes b (x ∷ xs) = ground (
    arith,
    queued-change_last bytes x xs,
    append_assoc (queue.contents b) (chain (x ∷ xs)) (take (c.write bytes (last x xs)).0 bytes),
  )

  -- The last ring takes the first bytes, and they stand behind those that were chain.
  pub put_last-stream :
      (bytes : List ℕ) (s : Buffer B C)
      → Held s
      → let (w, s') = put_last c o heap bytes s in (line s' ≡ line s ++ take w bytes) × Held s'
  unfolding put_last
  put_last-stream bytes s live =
      list-both (λ (r : ℕ × Buffer B C). (line r.1 ≡ line s ++ take r.0 bytes) × Held r.1) s.tx
        (λ e. absurd (ground arith))
        (λ b bs e. (
          ground (
            arith,
            queued-change_last bytes b bs,
            append_assoc (accepts.wire s.client) (chain (b ∷ bs))
                (take (c.write bytes (last b bs)).0 bytes),
          ),
          (ground (arith, length-change_last (λ r. (c.write bytes r).1) (b ∷ bs)), live.1),
        ))

  -- the room of the last ring
  abbrev pub last_room : Buffer B C → ℕ
  last_room s = elim s.tx [ [] ↦ 0 | b ∷ bs ↦ c.room (last b bs) ]

  pub put_last-count :
      (bytes : List ℕ) (s : Buffer B C)
      → 0 < length s.tx
      → (put_last c o heap bytes s).0 ≡ min (last_room s) (length bytes)
  unfolding put_last
  put_last-count bytes s live =
      list-both (λ (r : ℕ × Buffer B C). r.0 ≡ min (last_room s) (length bytes)) s.tx
        (λ e. absurd (ground arith)) (λ b bs e. ground (arith, queue.write_count bytes (last b bs)))

  last-append : (b : B) (bs : List B) (r : B) → last b (bs ++ r ∷ []) ≡ r
  last-append b [] r = refl
  last-append b (x ∷ xs) r = last-append x xs r

  chain-room :
      (bs : List B) (r : B)
      → elim (bs ++ r ∷ []) as (λ _. ℕ) [ [] ↦ 0 | b ∷ rest ↦ c.room (last b rest) ] ≡ c.room r
  chain-room [] r = refl
  chain-room (b ∷ bs) r = ap c.room (last-append b bs r)

  queued-append : (bs : List B) (r : B) → chain (bs ++ r ∷ []) ≡ chain bs ++ queue.contents r
  unfolding queued
  queued-append [] r = append-nil (queue.contents r)
  queued-append (b ∷ bs) r =
      ground
        (arith, queued-append bs r, append_assoc (queue.contents b) (chain bs) (queue.contents r))

  pub grow-stream :
      (s : Buffer B C)
      → Held s
      → (line (grow c o heap s) ≡ line s)
        × Held (grow c o heap s)
        × (0 < last_room (grow c o heap s))
  grow-stream s live = (
    ground (
      arith,
      queued-append s.tx (c.make tcp_mss),
      length-zero (queue.contents (c.make tcp_mss)),
      queue.make_empty tcp_mss,
      append-nil (chain s.tx),
    ),
    (ground (arith, length-append s.tx (c.make tcp_mss ∷ [])), live.1),
    omega (arith, chain-room s.tx (c.make tcp_mss), queue.make_room tcp_mss (omega arith)),
  )
