-- ===== src/Buffer/Packet/Ends.antt =====
-- How `_rxData` ends.
use espasync_tcp.Common.{
  ℕ, zero, suc, ◌-◌, ◌≤◌, ◌<◌, ◌≡◌, refl, subst, ◌&&◌, not, List, [], arith, ltb, ◌==◌, length,
  length-drop, if◌then◌else◌, Bool, true, false, bool-split, if-both, option-both, is_some,
  Bool-cases, ◌⊎◌, inl, inr,
}
use espasync_tcp.Lwip.{Handler}
use espasync_tcp.Buffer.Cbuf.{Cbuf}
use espasync_tcp.Buffer.Outlet.{Outlet}
use espasync_tcp.Buffer.State.{
  RxMode, rx_mode_none, rx_mode_free, rx_mode_read_bytes, rx_mode_terminator,
  rx_mode_terminator_string, Buffer, Heap, Hooks, Run, returns, panics, unfinished, ◌>>=◌, ask,
}
use espasync_tcp.Buffer.Transmit.{connected}
use espasync_tcp.Buffer.Receive.{
  handle_rx_buffer, handle_mode, handle_free, handle_read_bytes, handle_string, call_rx, on_ring,
}
use espasync_tcp.Buffer.Packet.{
  is_none_mode, skip, handle_more, hand_on, keep_rest, drain_ring, hand_ring, rx_data,
}

-- The call returned, or `panic()` was called.
abbrev pub Ends {ℓ} : {A : Type ℓ} → Run A → Type 0
Ends (returns a) = Unit
Ends panics = Unit
Ends unfinished = ⊥

>>=-Ends {ℓ κ} :
    {A : Type ℓ} {B : Type κ} (m : Run A) (f : A → Run B)
    → Ends m
    → ((a : A) → m ≡ returns a → Ends (f a))
    → Ends (m >>= f)
>>=-Ends (returns a) f h k = k a refl
>>=-Ends panics f h k = tt
>>=-Ends unfinished f h k = h

-- The handlers of received data claim no more bytes than they are given.
module _ {B C : Type 0} (c : Cbuf B) (o : Outlet C) (heap : Heap) (hooks : Hooks B C)
    (modest : (h : Handler) (bytes : List ℕ) (s : Buffer B C)
      → (hooks.on_rx h bytes s).0 ≤ length bytes) where
  -- No more than so many bytes of a packet are handled.
  abbrev Within : ℕ → Run (ℕ × Buffer B C) → Type 0
  Within n (returns r) = r.0 ≤ n
  Within n panics = Unit {0}
  Within n unfinished = Unit {0}

  handle_mode-Ends :
      (m : RxMode) (b : B) (buf : List ℕ) (s : Buffer B C)
      → Ends (handle_mode c o heap hooks m b buf s)
  unfolding handle_mode handle_free
  handle_mode-Ends rx_mode_free b buf s =
      if-both Ends (not (is_some s.cb_rx)) tt
        (if-both Ends (ltb 0 (c.available b)) (if-both Ends (heap.gives s.asked) tt tt) tt)
  handle_mode-Ends rx_mode_none b buf s = tt
  handle_mode-Ends rx_mode_read_bytes b buf s = tt
  handle_mode-Ends rx_mode_terminator b buf s = tt
  handle_mode-Ends rx_mode_terminator_string b buf s = tt

  handle-Ends : (buf : List ℕ) (s : Buffer B C) → Ends (handle_rx_buffer c o heap hooks buf s)
  unfolding handle_rx_buffer
  handle-Ends buf s =
      if-both Ends (not (connected c o heap s)) tt
        (option-both Ends s.rx (λ _. tt) (λ b _. handle_mode-Ends s.rx_mode b buf s))

  -- the data handler is given the packet, or nothing
  call_rx-Within :
      (buf : List ℕ) (go : Bool) (s : Buffer B C)
      → (if go then call_rx c o heap hooks buf s else (0, s)).0 ≤ length buf
  unfolding call_rx
  call_rx-Within buf true s =
      option-both (λ (r : ℕ × Buffer B C). r.0 ≤ length buf) s.cb_rx (λ _. omega arith)
        (λ h _. modest h buf s)
  call_rx-Within buf false s = omega arith

  handle_string-Within :
      (b : B) (buf : List ℕ) (s : Buffer B C)
      → (handle_string c o heap hooks b buf s).0 ≤ length buf
  unfolding handle_string
  handle_string-Within b buf s = ground arith

  handle_mode-Within :
      (m : RxMode) (b : B) (buf : List ℕ) (s : Buffer B C)
      → Within (length buf) (handle_mode c o heap hooks m b buf s)
  unfolding handle_mode handle_free handle_read_bytes
  handle_mode-Within rx_mode_free b buf s =
      let available = c.available b in
      let (r, v) = call_rx c o heap hooks (c.peek available b) (ask s) in
      if-both (Within (length buf)) (not (is_some s.cb_rx)) (omega arith) (
        if-both (Within (length buf)) (ltb 0 (c.available b))
          (if-both (Within (length buf)) (heap.gives s.asked)
            (call_rx-Within buf (r == available && ltb 0 (length buf))
              (on_ring c o heap hooks (c.remove r) v))
            tt)
          (call_rx-Within buf (0 == available && ltb 0 (length buf)) s))
  handle_mode-Within rx_mode_none b buf s = omega arith
  handle_mode-Within rx_mode_read_bytes b buf s = ground arith
  handle_mode-Within rx_mode_terminator b buf s = omega arith
  handle_mode-Within rx_mode_terminator_string b buf s = handle_string-Within b buf s

  handle-Within :
      (buf : List ℕ) (s : Buffer B C) → Within (length buf) (handle_rx_buffer c o heap hooks buf s)
  unfolding handle_rx_buffer
  handle-Within buf s = if-both (Within (length buf)) (not (connected c o heap s)) (omega arith) (
      option-both (Within (length buf)) s.rx (λ _. omega arith)
        (λ b _. handle_mode-Within s.rx_mode b buf s))

  skip-length :
      (n : ℕ) (buf : List ℕ) (s : Buffer B C)
      → n ≤ length buf
      → length (skip c o heap hooks n buf s).0 ≤ length buf - n
  skip-length n buf s few = ground (arith, length-drop n buf)

  -- Each round but the last takes a byte of the packet.
  handle_more-Ends :
      (f handled : ℕ) (buf : List ℕ) (s : Buffer B C)
      → (length buf < f) ⊎ ((handled ≡ 0) × (0 < f))
      → Ends (handle_more c o heap hooks f handled buf s)
  unfolding handle_more
  handle_more-Ends zero handled buf s l = absurd (omega (arith, l))
  handle_more-Ends (suc f) handled buf s l =
      bool-split Ends (not (is_none_mode s.rx_mode) && (not (handled == 0) && ltb 0 (length buf)))
        (λ go.
          >>=-Ends (handle_rx_buffer c o heap hooks buf s) _ (handle-Ends buf s) (λ (n, s1) ran.
            let (rest, s2) = skip c o heap hooks n buf s1 in
            let few : n ≤ length buf = subst (Within (length buf)) ran (handle-Within buf s) in
            let shorter = skip-length n buf s1 few in
            handle_more-Ends f n rest s2 (elim (Bool-cases (n == 0)) [
              | inl nothing ↦ inr (ground arith, ground arith)
              | inr some_bytes ↦ inl (ground arith)
            ])))
        (λ _. tt)

  drain_ring-Ends :
      (s : Buffer B C)
      → Ends
          (handle_rx_buffer c o heap hooks [] s >>= (λ (n, s1). drain_ring c o heap hooks 1 n s1))
  unfolding drain_ring
  drain_ring-Ends s =
      >>=-Ends (handle_rx_buffer c o heap hooks [] s) _ (handle-Ends [] s) (λ (n, s1) ran.
        let none_handled : n ≤ 0 = subst (Within 0) ran (handle-Within [] s) in
        bool-split Ends (not (is_none_mode s1.rx_mode) && not (n == 0))
          (λ go. absurd (ground arith)) (λ _. tt))

  hand_on-Ends : (buf : List ℕ) (s : Buffer B C) → Ends (hand_on c o heap hooks buf s)
  unfolding hand_on
  hand_on-Ends buf s = if-both Ends (is_none_mode s.rx_mode) tt (
      >>=-Ends (handle_rx_buffer c o heap hooks buf s) _ (handle-Ends buf s) (λ (n, s1) ran.
        let (rest, s2) = skip c o heap hooks n buf s1 in
        let few : n ≤ length buf = subst (Within (length buf)) ran (handle-Within buf s) in
        let shorter = skip-length n buf s1 few in
        option-both Ends s2.rx (λ _. tt)
          (λ b _.
            if-both Ends (c.is_empty b)
              (handle_more-Ends (suc (length buf)) n rest s2 (inl (omega (arith, shorter)))) tt)))

  hand_ring-Ends : (s : Buffer B C) → Ends (hand_ring c o heap hooks s)
  unfolding hand_ring
  hand_ring-Ends s =
      option-both Ends s.rx (λ _. tt)
        (λ b _.
          if-both Ends (not (c.is_empty b) && not (is_none_mode s.rx_mode)) (drain_ring-Ends s) tt)

  -- If the handlers of received data claim no more bytes than they are given, then in every mode
  -- `_rxData` ends, whatever else the handlers do: it returns, or `panic()` was called. Its loops need
  -- no more rounds than the packet has bytes, and one for the ring.
  pub rx_data-Ends : (buf : List ℕ) (s : Buffer B C) → Ends (rx_data c o heap hooks buf s)
  unfolding rx_data
  rx_data-Ends buf s = if-both Ends (not (connected c o heap s)) tt (
      option-both Ends s.rx (λ _. tt)
        (λ _ _. >>=-Ends (hand_on c o heap hooks buf s) _ (hand_on-Ends buf s) (λ (rest, s1) _.
          >>=-Ends (hand_ring c o heap hooks (keep_rest c o heap hooks rest s1)) _
            (hand_ring-Ends (keep_rest c o heap hooks rest s1)) (λ _ _. tt))))
