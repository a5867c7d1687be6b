-- ===== src/Buffer/Packet.antt =====
-- `_rxData`: a packet goes to the handlers as far as they take it, and into the ring.
pub mod Ends
pub mod Consumer
pub mod InOrder
use espasync_tcp.Common.{
  ℕ, zero, suc, ◌+◌, ◌-◌, sub32, ◌&&◌, not, Bool, true, false, none, some, List, [], ◌∷◌,
  if◌then◌else◌, ltb, ◌==◌, length, drop,
}
use espasync_tcp.Buffer.Cbuf.{Cbuf}
use espasync_tcp.Buffer.Outlet.{Outlet}
use espasync_tcp.Buffer.State.{
  RxMode, rx_mode_none, Buffer, Heap, Hooks, Run, returns, unfinished, ◌>>=◌, crash,
}
use espasync_tcp.Buffer.Transmit.{connected}
use espasync_tcp.Buffer.Receive.{handle_rx_buffer, set_rx}

-- the size to which an empty ring is cut back
abbrev pub rx_ring_size : ℕ
rx_ring_size = 100

abbrev pub is_none_mode : RxMode → Bool
is_none_mode rx_mode_none = true
is_none_mode _ = false

module _ {B C : Type 0} (c : Cbuf B) (o : Outlet C) (heap : Heap) (hooks : Hooks B C) where
  -- so many bytes of the memory behind a packet, from a distance on
  unfoldable pub beyond : ℕ → ℕ → List ℕ
  beyond distance zero = []
  beyond distance (suc n) = heap.behind distance ∷ beyond (suc distance) n

  -- `buf += handled; len -= handled`. A handler that claims more than it was given makes `len` wrap
  -- around, and what is left is the memory behind the packet, which is not the buffer's.
  abbrev pub skip : ℕ → List ℕ → Buffer B C → List ℕ × Buffer B C
  skip handled buf s = elim (ltb (length buf) handled) [
    | true ↦ (beyond (handled - length buf) (sub32 (length buf) handled), crash s)
    | false ↦ (drop handled buf, s)
  ]

  -- a test of `_RXbuffer`, which a handler may have deleted
  abbrev pub with_ring {ℓ} : {A : Type ℓ} → A → (B → A) → Buffer B C → A
  with_ring gone f s = elim s.rx [ none ↦ gone | some b ↦ f b ]

  -- the loop that hands on the packet, with fuel; the result has the bytes that are left
  unfoldable pub handle_more : ℕ → ℕ → List ℕ → Buffer B C → Run (List ℕ × Buffer B C)
  handle_more zero handled buf s = unfinished
  handle_more (suc f) handled buf s =
      elim (not (is_none_mode s.rx_mode) && (not (handled == 0) && ltb 0 (length buf))) [
        | false ↦ returns (buf, s)
        | true ↦
            handle_rx_buffer c o heap hooks buf s
            >>= (λ (n, s1). let (rest, s2) = skip n buf s1 in handle_more f n rest s2)
      ]

  -- the packet is handed to the handlers before the ring is used
  unfoldable pub hand_on : List ℕ → Buffer B C → Run (List ℕ × Buffer B C)
  unfolding handle_more
  hand_on buf s =
      if is_none_mode s.rx_mode
      then returns (buf, s)
      else (handle_rx_buffer c o heap hooks buf s >>= (λ (n, s1).
          let (rest, s2) = skip n buf s1 in
          with_ring (returns (rest, crash s2))
            (λ b.
              if c.is_empty b then handle_more (suc (length buf)) n rest s2 else returns (rest, s2))
            s2))

  -- a packet is written into the ring, which is made larger first if it has too little room
  unfoldable pub keep : List ℕ → B → B
  keep buf b =
      let b1 : B =
        if ltb (c.room b) (length buf) then c.resize_add (length buf + c.room b) b else b in
      (c.write buf b1).1

  -- what is left of a packet is kept
  unfoldable pub keep_rest : List ℕ → Buffer B C → Buffer B C
  unfolding keep
  keep_rest buf s =
      if length buf == 0
      then s
      else with_ring (crash s) (λ b. set_rx c o heap hooks (keep buf b) s) s

  -- the loop that hands on the ring's bytes, with fuel
  unfoldable pub drain_ring : ℕ → ℕ → Buffer B C → Run (Buffer B C)
  drain_ring zero handled s = unfinished
  drain_ring (suc f) handled s = elim (not (is_none_mode s.rx_mode) && not (handled == 0)) [
    | false ↦ returns s
    | true ↦ handle_rx_buffer c o heap hooks [] s >>= (λ (n, s1). drain_ring f n s1)
  ]

  -- the handlers are given the ring's bytes
  unfoldable pub hand_ring : Buffer B C → Run (Buffer B C)
  unfolding drain_ring
  hand_ring s =
      with_ring (returns (crash s))
        (λ b.
          if not (c.is_empty b) && not (is_none_mode s.rx_mode)
          then handle_rx_buffer c o heap hooks [] s >>= (λ (n, s1). drain_ring 1 n s1)
          else returns s)
        s

  -- an empty ring is cut back
  unfoldable pub clean_up : Buffer B C → Buffer B C
  clean_up s =
      with_ring (crash s)
        (λ b.
          if c.is_empty b && not (c.room b == rx_ring_size)
          then set_rx c o heap hooks (c.resize rx_ring_size b) s
          else s)
        s

  -- `_rxData(buf, len)`
  unfoldable pub rx_data : List ℕ → Buffer B C → Run (Buffer B C)
  unfolding hand_on keep_rest hand_ring clean_up
  rx_data buf s =
      if not (connected c o heap s)
      then returns s
      else with_ring (returns s)
          (λ _.
            hand_on buf s
            >>= (λ (rest, s1). hand_ring (keep_rest rest s1) >>= (λ s2. returns (clean_up s2))))
          s
