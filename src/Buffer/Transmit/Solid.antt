-- ===== src/Buffer/Transmit/Solid.antt =====
-- The form of the chain of rings, which sending and writing keep: no ring is empty but a single one.
use espasync_tcp.Common.{
  ℕ, zero, suc, ◌+◌, ◌<◌, ◌≡◌, ◌⊎◌, inl, inr, refl, sym, ap, subst, ◌&&◌, ◌||◌, not, Bool, true,
  false, some, List, [], ◌∷◌, ◌++◌, arith, ltb, ◌==◌, length, take, drop, length-append,
  length-take, if-split, if-both, bool-split, list-both,
}
use espasync_tcp.Buffer.Cbuf.{Cbuf, IsQueue}
use espasync_tcp.Buffer.Outlet.{Outlet}
use espasync_tcp.Buffer.State.{Buffer, Heap, Run, returns, panics, unfinished, ◌>>=◌, ask}
use espasync_tcp.Buffer.Transmit.{
  tcp_mss, last, change_last, connected, advance, send_round, send_loop, send_buffer, put_last,
  last_full, grow, extend, write_loop, write,
}
use espasync_tcp.Buffer.Transmit.Shrinking.{AllFilled, Tight}

-- If the call returned, what it returned has the property.
abbrev pub Kept {ℓ} : {A : Type ℓ} → (A → Type 0) → Run A → Type 0
Kept P (returns a) = P a
Kept P panics = Unit
Kept P unfinished = Unit

Kept-bind {ℓ κ} :
    {A : Type ℓ} {B : Type κ} (P : A → Type 0) (Q : B → Type 0) (m : Run A) (f : A → Run B)
    → Kept P m
    → ((a : A) → P a → Kept Q (f a))
    → Kept Q (m >>= f)
Kept-bind P Q (returns a) f h k = k a h
Kept-bind P Q panics f h k = tt
Kept-bind P Q unfinished f h k = tt

module _ {B : Type 0} (c : Cbuf B) (queue : IsQueue c) where
  -- a ring that is not of size zero
  abbrev Usable : B → Type 0
  Usable b = 0 < c.room b + length (queue.contents b)

  -- no ring is empty, or there is a single one
  abbrev pub Solid : List B → Type 0
  Solid [] = Unit
  Solid (b ∷ []) = Usable b
  Solid (b ∷ x ∷ xs) = AllFilled c queue (b ∷ x ∷ xs)

  -- no ring but the last is empty
  abbrev Loose : List B → Type 0
  Loose [] = Unit
  Loose (b ∷ []) = Usable b
  Loose (b ∷ x ∷ xs) = (0 < length (queue.contents b)) × Loose (x ∷ xs)

  pub Solid-Tight : (bs : List B) → Solid bs → Tight c queue bs
  Solid-Tight [] h = inr tt
  Solid-Tight (b ∷ []) h = inl refl
  Solid-Tight (b ∷ x ∷ xs) h = inr h

  AllFilled-Solid : (bs : List B) → AllFilled c queue bs → Solid bs
  AllFilled-Solid [] h = tt
  AllFilled-Solid (b ∷ []) h = omega (arith, h.0)
  AllFilled-Solid (b ∷ x ∷ xs) h = h

  AllFilled-Loose : (bs : List B) → AllFilled c queue bs → Loose bs
  AllFilled-Loose [] h = tt
  AllFilled-Loose (b ∷ []) h = omega (arith, h.0)
  AllFilled-Loose (b ∷ x ∷ xs) h = (h.0, AllFilled-Loose (x ∷ xs) h.1)

  Solid-Loose : (bs : List B) → Solid bs → Loose bs
  Solid-Loose [] h = tt
  Solid-Loose (b ∷ []) h = h
  Solid-Loose (b ∷ x ∷ xs) h = AllFilled-Loose (b ∷ x ∷ xs) h

  -- writing fills the last ring
  write-filled :
      (bytes : List ℕ) (b : B)
      → 0 < length bytes
      → Usable b
      → 0 < length (queue.contents (c.write bytes b).1)
  write-filled bytes b l h = omega (
    arith,
    ap length (queue.write_contents bytes b),
    length-append (queue.contents b) (take (c.write bytes b).0 bytes),
    length-take (c.write bytes b).0 bytes,
    queue.write_count bytes b,
  )

  change_last-AllFilled :
      (bytes : List ℕ) (bs : List B)
      → 0 < length bytes
      → Loose bs
      → AllFilled c queue (change_last (λ r. (c.write bytes r).1) bs)
  change_last-AllFilled bytes [] l h = tt
  change_last-AllFilled bytes (b ∷ []) l h = (write-filled bytes b l h, tt)
  change_last-AllFilled bytes (b ∷ x ∷ []) l h = (h.0, change_last-AllFilled bytes (x ∷ []) l h.1)
  change_last-AllFilled bytes (b ∷ x ∷ y ∷ ys) l h =
      (h.0, change_last-AllFilled bytes (x ∷ y ∷ ys) l h.1)

  -- a full last ring is not empty, so that a ring can be added
  full-AllFilled :
      (b : B) (bs : List B)
      → Solid (b ∷ bs)
      → c.is_full (last b bs) ≡ true
      → AllFilled c queue (b ∷ bs)
  full-AllFilled b [] h e = (ground (arith, queue.full_room b), tt)
  full-AllFilled b (x ∷ xs) h e = h

  append-Loose : (bs : List B) (r : B) → AllFilled c queue bs → Usable r → Loose (bs ++ r ∷ [])
  append-Loose [] r h u = u
  append-Loose (b ∷ []) r h u = (h.0, u)
  append-Loose (b ∷ x ∷ xs) r h u = (h.0, append-Loose (x ∷ xs) r h.1 u)

module _ {B C : Type 0} (c : Cbuf B) (o : Outlet C) (heap : Heap) (queue : IsQueue c) where
  advance-Solid :
      (sent : ℕ) (b : B) (bs : List B)
      → Solid c queue (b ∷ bs)
      → Solid c queue (advance c o heap sent b bs)
  unfolding advance
  advance-Solid sent b [] h =
      let left : Usable c queue (c.remove sent b) = omega (arith, h, queue.remove_cap sent b) in
      if-both (Solid c queue) (c.available (c.remove sent b) == 0) left left
  advance-Solid sent b (x ∷ xs) h =
      if-split (Solid c queue) (c.available (c.remove sent b) == 0)
        (λ _. AllFilled-Solid c queue (x ∷ xs) h.1)
        (λ some_left. (ground (arith, queue.available_length (c.remove sent b)), h.1))

  abbrev Firm : Buffer B C → Type 0
  Firm s = Solid c queue s.tx

  send_loop-Solid : (f : ℕ) (s : Buffer B C) → Firm s → Kept Firm (send_loop c o heap f s)
  unfolding send_loop send_round
  send_loop-Solid zero s h = tt
  send_loop-Solid (suc f) s h =
      list-both (Kept Firm) s.tx (λ _. h)
        (λ b bs e.
          bool-split (Kept Firm)
            (connected c o heap s
              && (ltb 0 (o.space s.client) && (ltb 0 (c.available b) && o.can_send s.client)))
            (λ _.
              bool-split (Kept Firm) (heap.gives s.asked)
                (λ _.
                  send_loop-Solid f (send_round c o heap b bs (ask s))
                    (advance-Solid _ b bs (subst (Solid c queue) e h)))
                (λ _. h))
            (λ _. h))

  send_buffer-Solid : (f : ℕ) (s : Buffer B C) → Firm s → Kept Firm (send_buffer c o heap f s)
  unfolding send_buffer
  send_buffer-Solid f s h =
      list-both (Kept Firm) s.tx (λ _. h)
        (λ b bs e.
          if-both (Kept Firm)
            (c.available b == 0 || (not (connected c o heap s) || not (o.can_send s.client))) h
            (send_loop-Solid f s h))

  put_last-AllFilled :
      (bytes : List ℕ) (s : Buffer B C)
      → 0 < length bytes
      → Loose c queue s.tx
      → AllFilled c queue (put_last c o heap bytes s).1.tx
  unfolding put_last
  put_last-AllFilled bytes s l h =
      list-both (λ (r : ℕ × Buffer B C). AllFilled c queue r.1.tx) s.tx
        (λ e. subst (AllFilled c queue) (sym e) tt)
        (λ b bs e. change_last-AllFilled c queue bytes (b ∷ bs) l (subst (Loose c queue) e h))

  -- Where a loop of `write` begins a round, a ring may have been added, if bytes are left for it.
  abbrev Ready : List ℕ → Buffer B C → Type 0
  Ready rest s = Firm s ⊎ ((0 < length rest) × Loose c queue s.tx)

  abbrev FirmAfter : List ℕ × Buffer B C → Type 0
  FirmAfter r = Firm r.1

  extend-Solid :
      (next : List ℕ → Buffer B C → Run (List ℕ × Buffer B C)) (rest : List ℕ) (s : Buffer B C)
      → ((s1 : Buffer B C) → Ready rest s1 → Kept FirmAfter (next rest s1))
      → Firm s
      → Kept FirmAfter (extend c o heap next rest s)
  unfolding extend
  extend-Solid next rest s later h =
      if-split (Kept FirmAfter) (last_full c o heap s && not (length rest == 0))
        (λ full. if-both (Kept FirmAfter) (heap.low s.asked) h (
          if-both (Kept FirmAfter) (heap.gives (suc s.asked))
            (later (grow c o heap (ask (ask s))) (
              inr (
                ground arith,
                append-Loose c queue s.tx (c.make tcp_mss) (filled s.tx h (ground arith))
                    (omega (arith, queue.make_room tcp_mss (omega arith))),
              )))
            tt))
        (λ _. later s (inl h))
    where
      filled :
          (bs : List B)
          → Solid c queue bs
          → elim bs as (λ _. Bool) [ [] ↦ false | b ∷ rest ↦ c.is_full (last b rest) ] ≡ true
          → AllFilled c queue bs
      filled [] h e = tt
      filled (b ∷ bs) h e = full-AllFilled c queue b bs h e

  write_loop-Solid :
      (f g : ℕ) (rest : List ℕ) (s : Buffer B C)
      → Ready rest s
      → Kept FirmAfter (write_loop c o heap f g rest s)
  unfolding write_loop
  write_loop-Solid f zero rest s h = tt
  write_loop-Solid f (suc g) [] s (inl h) = h
  write_loop-Solid f (suc g) [] s (inr (l, _)) = absurd (omega arith)
  write_loop-Solid f (suc g) (x ∷ xs) s h =
      let (w, s1) = put_last c o heap (x ∷ xs) s in
      let loose : Loose c queue s.tx = elim h [
        | inl firm ↦ Solid-Loose c queue s.tx firm
        | inr (_, loose) ↦ loose
      ] in
      let filled = put_last-AllFilled (x ∷ xs) s (omega arith) loose in
      Kept-bind Firm FirmAfter (send_buffer c o heap f s1) _
        (send_buffer-Solid f s1 (AllFilled-Solid c queue s1.tx filled))
        (λ s2 firm2.
          extend-Solid (write_loop c o heap f g) (drop w (x ∷ xs)) s2
            (λ s3 ready. write_loop-Solid f g (drop w (x ∷ xs)) s3 ready) firm2)

  -- `write` keeps the form of the chain.
  pub write-Solid :
      (f : ℕ) (bytes : List ℕ) (s : Buffer B C)
      → Firm s
      → Kept (λ (r : ℕ × Buffer B C). Solid c queue r.1.tx) (write c o heap f (some bytes) s)
  unfolding write
  write-Solid f bytes s h =
      let goal = λ (r : ℕ × Buffer B C). Firm r.1 in
      if-both (Kept goal) (length s.tx == 0 || (not (connected c o heap s) || length bytes == 0)) h
        (Kept-bind FirmAfter goal (write_loop c o heap f (suc (suc (length bytes))) bytes s) _
          (write_loop-Solid f (suc (suc (length bytes))) bytes s (inl h)) (λ r firm. firm))
