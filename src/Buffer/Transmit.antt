-- ===== src/Buffer/Transmit.antt =====
-- Sending: `_sendBuffer`, `write` and `flush`.
pub mod Order
pub mod Chain
pub mod Append
pub mod Shrinking
pub mod Solid
pub mod Session
pub mod Flushing
use espasync_tcp.Common.{
  ℕ, zero, suc, ◌-◌, ◌&&◌, ◌||◌, not, Bool, true, false, Option, none, some, List, [], ◌∷◌, ◌++◌,
  if◌then◌else◌, ltb, ◌==◌, length, take, drop,
}
use espasync_tcp.Buffer.Cbuf.{Cbuf}
use espasync_tcp.Buffer.Outlet.{Outlet}
use espasync_tcp.Buffer.State.{Buffer, Heap, Run, returns, panics, unfinished, ◌>>=◌, crash, ask}

-- `TCP_MSS`
abbrev pub tcp_mss : ℕ
tcp_mss = 1460

-- `_TXbufferWrite`, the last ring of the chain
abbrev pub last {ℓ} : {A : Type ℓ} → A → List A → A
last a [] = a
last a (x ∷ xs) = last x xs

-- the chain with its last ring changed
abbrev pub change_last {ℓ} : {A : Type ℓ} → (A → A) → List A → List A
change_last f [] = []
change_last f (a ∷ []) = f a ∷ []
change_last f (a ∷ x ∷ xs) = a ∷ change_last f (x ∷ xs)

module _ {B C : Type 0} (c : Cbuf B) (o : Outlet C) (heap : Heap) where
  unfoldable pub connected : Buffer B C → Bool
  connected s = s.attached && o.connected s.client

  -- the chain after `sent` bytes were removed from its first ring
  unfoldable pub advance : ℕ → B → List B → List B
  advance sent b bs =
      let b' = c.remove sent b in
      if c.available b' == 0 then elim bs [ [] ↦ b' ∷ [] | x ∷ xs ↦ x ∷ xs ] else b' ∷ bs

  -- one round of the loop in `_sendBuffer`, after its memory was had
  unfoldable pub send_round : B → List B → Buffer B C → Buffer B C
  unfolding advance
  send_round b bs s =
      let n : ℕ =
        if ltb (o.space s.client) (c.available b) then o.space s.client else c.available b in
      let (sent, client) = o.write (c.peek n b) s.client in
      record s { client = client; tx = advance sent b bs }

  -- the loop in `_sendBuffer`, with fuel
  unfoldable pub send_loop : ℕ → Buffer B C → Run (Buffer B C)
  unfolding connected send_round
  send_loop zero s = unfinished
  send_loop (suc f) s = elim s.tx [
    | [] ↦ returns (crash s)
    | b ∷ bs ↦
        elim (connected s
          && (ltb 0 (o.space s.client) && (ltb 0 (c.available b) && o.can_send s.client))) [
            | false ↦ returns s
            | true ↦ elim (heap.gives s.asked) [
              | false ↦ returns (ask s)
              | true ↦ send_loop f (send_round b bs (ask s))
            ]
          ]
  ]

  -- `_sendBuffer`
  unfoldable pub send_buffer : ℕ → Buffer B C → Run (Buffer B C)
  unfolding send_loop
  send_buffer f s = elim s.tx [
    | [] ↦ returns (crash s)
    | b ∷ _ ↦
        if c.available b == 0 || (not (connected s) || not (o.can_send s.client))
        then returns s
        else send_loop f s
  ]

  -- the bytes that the last ring takes, and the state with them in it
  unfoldable pub put_last : List ℕ → Buffer B C → ℕ × Buffer B C
  put_last bytes s = elim s.tx [
    | [] ↦ (0, crash s)
    | b ∷ bs ↦ (
      (c.write bytes (last b bs)).0,
      record s { tx = change_last (λ r. (c.write bytes r).1) (b ∷ bs) },
    )
  ]

  -- whether the last ring is full
  abbrev pub last_full : Buffer B C → Bool
  last_full s = elim s.tx [ [] ↦ false | b ∷ bs ↦ c.is_full (last b bs) ]

  -- a ring at the end of the chain
  abbrev pub grow : Buffer B C → Buffer B C
  grow s = record s { tx = s.tx ++ c.make tcp_mss ∷ [] }

  -- what a round of the loop in `write` does after `_sendBuffer`: `rest` is not written yet, and
  -- `next` runs the later rounds
  unfoldable pub extend :
      (List ℕ → Buffer B C → Run (List ℕ × Buffer B C))
      → List ℕ
      → Buffer B C
      → Run (List ℕ × Buffer B C)
  extend next rest s =
      if last_full s && not (length rest == 0)
      then (if heap.low s.asked
          then returns (rest, ask s)
          else (if heap.gives (ask s).asked then next rest (grow (ask (ask s))) else panics))
      else next rest s

  -- the loop in `write`; the result has the bytes that are left
  unfoldable pub write_loop : ℕ → ℕ → List ℕ → Buffer B C → Run (List ℕ × Buffer B C)
  unfolding send_buffer put_last extend
  write_loop f zero rest s = unfinished
  write_loop f (suc g) [] s = returns ([], s)
  write_loop f (suc g) (x ∷ xs) s =
      let (w, s1) = put_last (x ∷ xs) s in
      send_buffer f s1 >>= extend (write_loop f g) (drop w (x ∷ xs))

  -- `write(data, len)`; `none` is NULL. Each round of the loop but the first takes a byte.
  unfoldable pub write : ℕ → Option (List ℕ) → Buffer B C → Run (ℕ × Buffer B C)
  unfolding write_loop
  write f none s = returns (0, s)
  write f (some bytes) s =
      if length s.tx == 0 || (not (connected s) || length bytes == 0)
      then returns (0, s)
      else (write_loop f (suc (suc (length bytes))) bytes s
          >>= (λ (rest, s'). returns (length bytes - length rest, s')))

  -- the loop of `flush` that waits; `delay` is what the rest of the system does in `delay(0)`
  unfoldable pub wait : (Buffer B C → Buffer B C) → ℕ → Buffer B C → Run (Buffer B C)
  wait delay zero s = unfinished
  wait delay (suc f) s = elim (connected s && not (o.can_send s.client)) [
    | false ↦ returns s
    | true ↦ wait delay f (delay s)
  ]

  abbrev pub last_empty : Buffer B C → Bool
  last_empty s = elim s.tx [ [] ↦ true | b ∷ bs ↦ c.is_empty (last b bs) ]

  -- `flush`
  unfoldable pub flush : (Buffer B C → Buffer B C) → ℕ → ℕ → Buffer B C → Run (Buffer B C)
  unfolding wait
  flush delay f zero s = unfinished
  flush delay f (suc g) s = elim (last_empty s) [
    | true ↦ returns (if length s.tx == 0 then crash s else s)
    | false ↦ wait delay f s >>= (λ s1. elim (connected s1) [
      | false ↦ returns s1
      | true ↦ send_buffer f s1 >>= flush delay f g
    ])
  ]
