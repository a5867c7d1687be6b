-- ===== src/Buffer/Receive.antt =====
-- Receiving: requests to read, `_handleRxBuffer` and `_rxData`.
pub mod Scanning
pub mod Delivery
use espasync_tcp.Common.{
  ℕ, zero, suc, ◌+◌, ◌-◌, ◌&&◌, ◌||◌, not, Bool, true, false, Option, none, some, List, [], ◌∷◌,
  ◌++◌, if◌then◌else◌, ltb, ◌==◌, is_some, length, take, drop,
}
use espasync_tcp.Lwip.{Handler}
use espasync_tcp.Buffer.Cbuf.{Cbuf}
use espasync_tcp.Buffer.Outlet.{Outlet}
use espasync_tcp.Buffer.State.{
  RxMode, rx_mode_none, rx_mode_free, rx_mode_read_bytes, rx_mode_terminator,
  rx_mode_terminator_string, Buffer, Heap, Hooks, Run, returns, panics, unfinished, ◌>>=◌, crash,
  ask,
}
use espasync_tcp.Buffer.Transmit.{connected}

module _ {B C : Type 0} where
  -- `noCallback`
  unfoldable pub no_callback : Buffer B C → Buffer B C
  no_callback s = record s { rx_mode = rx_mode_none }

  -- `readStringUntil(terminator, str, done)`; `text` is what `*str` holds
  unfoldable pub read_string_until : ℕ → Option (List ℕ) → Option Handler → Buffer B C → Buffer B C
  read_string_until terminator text done s =
      if s.attached
      then record s {
        cb_done = done;
        read_string = text;
        rx_terminator = terminator;
        rx_size = 0;
        rx_mode = rx_mode_terminator_string;
      }
      else s

  -- `readBytes(buffer, length, done)`; the flag says that `buffer` is not NULL
  unfoldable pub read_bytes_into : Bool → ℕ → Option Handler → Buffer B C → Buffer B C
  read_bytes_into there n done s =
      if s.attached
      then record s {
        cb_done = done;
        read_bytes = if there then some [] else none;
        rx_size = n;
        rx_mode = rx_mode_read_bytes;
      }
      else s

  -- `onData(cb)`
  unfoldable pub on_data : Option Handler → Buffer B C → Buffer B C
  on_data cb s =
      if s.attached then record s { cb_done = none; cb_rx = cb; rx_mode = rx_mode_free } else s

  -- `onDisconnect(cb)`
  unfoldable pub on_disconnect : Option Handler → Buffer B C → Buffer B C
  on_disconnect cb s = record s { cb_disconnect = cb }

-- the bytes before the first terminator or zero, and what comes behind it, if there is one
unfoldable pub scan : ℕ → List ℕ → List ℕ × Option (List ℕ)
scan t [] = ([], none)
scan t (x ∷ xs) =
    let (before, rest) = scan t xs in if x == t || x == 0 then ([], some xs) else (x ∷ before, rest)

module _ {B C : Type 0} (c : Cbuf B) (o : Outlet C) (heap : Heap) (hooks : Hooks B C) where
  abbrev pub set_rx : B → Buffer B C → Buffer B C
  set_rx b s = record s { rx = some b }

  -- `_cbRX(buf, len)`; an empty function is not to be called
  unfoldable pub call_rx : List ℕ → Buffer B C → ℕ × Buffer B C
  call_rx bytes s = elim s.cb_rx [ none ↦ (0, crash s) | some h ↦ hooks.on_rx h bytes s ]

  -- `_cbDone(ok, ret)`
  unfoldable pub call_done : Bool → Option (List ℕ) → Buffer B C → Buffer B C
  call_done ok ret s = elim s.cb_done [ none ↦ crash s | some h ↦ hooks.on_done h ok ret s ]

  -- a call on `_RXbuffer`, which may be NULL by then
  abbrev pub on_ring : (B → B) → Buffer B C → Buffer B C
  on_ring f s = elim s.rx [ none ↦ crash s | some b ↦ set_rx (f b) s ]

  -- the mode `FREE`: the data handler is given the ring's bytes, and then the packet
  unfoldable pub handle_free : B → List ℕ → Buffer B C → Run (ℕ × Buffer B C)
  unfolding call_rx
  handle_free b buf s =
      let available = c.available b in
      let packet = λ (r : ℕ) (v : Buffer B C).
        if r == available && ltb 0 (length buf) then call_rx buf v else (0, v) in
      if not (is_some s.cb_rx)
      then returns (0, s)
      else (if ltb 0 available
          then (if heap.gives s.asked
              then (let (r, v) = call_rx (c.peek available b) (ask s) in
                  returns (packet r (on_ring (c.remove r) v)))
              else panics)
          else returns (packet 0 s))

  -- what is stored through `_rxReadBytesPtr`
  abbrev pub store_bytes : List ℕ → Buffer B C → Buffer B C
  store_bytes bytes s = elim s.read_bytes [
    | none ↦ crash s
    | some got ↦ record s { read_bytes = some (got ++ bytes); rx_size = s.rx_size - length bytes }
  ]

  -- the mode `READ_BYTES`: bytes are stored from the ring, and then from the packet
  unfoldable pub handle_read_bytes : B → List ℕ → Buffer B C → ℕ × Buffer B C
  unfolding call_done
  handle_read_bytes b buf s =
      if not (is_some s.read_bytes) || not (is_some s.cb_done)
      then (0, s)
      else (let (got, b1) = c.read s.rx_size b in
          let ready = not (c.available b == 0) in
          let b2 : B = if ready then b1 else b in
          let s1 : Buffer B C = if ready then store_bytes got (set_rx b1 s) else s in
          let n : ℕ =
            if c.is_empty b2
            then (if ltb s1.rx_size (length buf) then s1.rx_size else length buf)
            else 0 in
          let s2 = store_bytes (take n buf) s1 in
          (
            n,
            if s2.rx_size == 0
                then call_done true none (record s2 { rx_mode = rx_mode_none })
                else s2,
          ))

  -- the characters that the loops of the mode `TERMINATOR_STRING` append
  abbrev pub append_string : List ℕ → Buffer B C → Buffer B C
  append_string bytes s = elim s.read_string [
    | none ↦ crash s
    | some text ↦ record s { read_string = some (text ++ bytes) }
  ]

  -- the loop that empties the ring, with fuel: what it appends, whether it met the terminator, and
  -- the ring
  unfoldable pub scan_ring : ℕ → ℕ → B → List ℕ × Bool × B
  scan_ring zero t b = ([], false, b)
  scan_ring (suc f) t b =
      let (x, b1) = c.pop b in
      let (before, found, rest) = scan_ring f t b1 in
      if c.is_empty b
      then ([], false, b)
      else (if x == t || x == 0 then ([], true, b1) else (x ∷ before, found, rest))

  -- the string is complete
  abbrev pub string_done : Buffer B C → Buffer B C
  string_done s = call_done true s.read_string (record s { rx_mode = rx_mode_none })

  -- the mode `TERMINATOR_STRING`: characters are appended from the ring, and then from the packet
  unfoldable pub handle_string : B → List ℕ → Buffer B C → ℕ × Buffer B C
  unfolding call_done scan_ring scan
  handle_string b buf s =
      if not (is_some s.read_string) || not (is_some s.cb_done)
      then (0, s)
      else (let (got, found, b1) = scan_ring (c.available b) s.rx_terminator b in
          let s1 = append_string got (set_rx b1 s) in
          if found
          then (0, string_done s1)
          else (if c.is_empty b1 && ltb 0 (length buf)
              then (let (before, rest) = scan s.rx_terminator buf in
                  let s2 = append_string before s1 in
                  elim rest [
                    | none ↦ (length buf, s2)
                    | some behind ↦ (length buf - length behind, string_done s2)
                  ])
              else (0, s1)))

  -- `_handleRxBuffer` on a ring, by the mode
  unfoldable pub handle_mode : RxMode → B → List ℕ → Buffer B C → Run (ℕ × Buffer B C)
  unfolding handle_free handle_read_bytes handle_string
  handle_mode rx_mode_none b buf s = returns (0, s)
  handle_mode rx_mode_free b buf s = handle_free b buf s
  handle_mode rx_mode_read_bytes b buf s = returns (handle_read_bytes b buf s)
  handle_mode rx_mode_terminator b buf s = returns (0, s)
  handle_mode rx_mode_terminator_string b buf s = returns (handle_string b buf s)

  -- `_handleRxBuffer(buf, len)`; a NULL buffer is the empty list
  unfoldable pub handle_rx_buffer : List ℕ → Buffer B C → Run (ℕ × Buffer B C)
  unfolding handle_mode
  handle_rx_buffer buf s =
      if not (connected c o heap s)
      then returns (0, s)
      else elim s.rx [ none ↦ returns (0, s) | some b ↦ handle_mode s.rx_mode b buf s ]
