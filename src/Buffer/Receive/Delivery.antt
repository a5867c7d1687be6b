-- ===== src/Buffer/Receive/Delivery.antt =====
-- What a request to read is given: the bytes that wait in the ring, and then those of the packet.
use espasync_tcp.Common.{
  ℕ, ◌-◌, ◌≡◌, refl, sym, ap, ◌∙◌, subst, true, false, Option, none, some, List, [], ◌++◌,
  append-nil, append_assoc, arith, if◌then◌else◌, ◌==◌, min, length, take, drop, length-append,
  length-zero, drop-length, take-append, drop-append, take-min, drop-min, length-take, length-drop,
  option-both, option-split,
}
use espasync_tcp.Lwip.{Handler}
use espasync_tcp.Buffer.Cbuf.{Cbuf, IsQueue}
use espasync_tcp.Buffer.Outlet.{Outlet}
use espasync_tcp.Buffer.State.{Buffer, Heap, Hooks, rx_mode_none}
use espasync_tcp.Buffer.Receive.{scan, scan_ring, handle_read_bytes, handle_string, call_done}
use espasync_tcp.Buffer.Receive.Scanning.{scan-append, scan-none, scan-behind, scan_ring-scan}

module _ {B C : Type 0} (c : Cbuf B) (o : Outlet C) (heap : Heap) (hooks : Hooks B C)
    (queue : IsQueue c) where
  -- the bytes in the ring
  abbrev pub ring : Buffer B C → List ℕ
  ring s = elim s.rx [ none ↦ [] | some b ↦ queue.contents b ]

  -- The string grew by the bytes before the terminator, and what is behind it waits in the ring or is
  -- left of the packet. With a terminator the read is over: `v` is the state that the handler is
  -- called in.
  abbrev pub StringRead : List ℕ → List ℕ → Option (List ℕ) → ℕ × Buffer B C → List ℕ → Type 0
  StringRead text before (some behind) r buf =
      (v : Buffer B C) × (r.1 ≡ call_done c o heap hooks true v.read_string v)
      × (v.rx_mode ≡ rx_mode_none)
      × (v.read_string ≡ some (text ++ before))
      × (ring v ++ drop r.0 buf ≡ behind)
  StringRead text before none r buf =
      (r.1.read_string ≡ some (text ++ before)) × (ring r.1 ++ drop r.0 buf ≡ [])

  -- `_handleRxBuffer` for a string, with a string and a handler set: the ring's bytes and then those
  -- of the packet are appended up to the first terminator or zero, which is dropped. Where there is
  -- one the handler is called with the whole string and the request is over, and the bytes behind it
  -- stay in the ring and the packet, in their order. Where there is none, all bytes are taken.
  pub handle_string-StringRead :
      (b : B) (buf text : List ℕ) (h : Handler) (s : Buffer B C)
      → s.rx ≡ some b
      → s.read_string ≡ some text
      → s.cb_done ≡ some h
      → let (before, rest) = scan s.rx_terminator (queue.contents b ++ buf) in
        StringRead text before rest (handle_string c o heap hooks b buf s) buf
  unfolding handle_string
  handle_string-StringRead b buf text h s e f g =
      let t = s.rx_terminator in
      let bytes = queue.contents b in
      let (before, found, b1) = scan_ring c o heap hooks (length bytes) t b in
      let (got, met, left) = scan_ring-scan c o heap hooks queue t bytes b refl in
      let all = queue.available_length b in
      let goal = λ (r : List ℕ × Option (List ℕ)).
        StringRead text r.0 r.1 (handle_string c o heap hooks b buf s) buf in
      let v = record s {
        rx = some b1;
        read_string = some (text ++ (scan t (bytes ++ buf)).0);
        rx_mode = rx_mode_none;
      } in
      let whole = scan-append t bytes buf in
      subst goal (sym whole) (
        option-both goal (scan t bytes).1
          (λ miss.
            let emptied : queue.contents b1 ≡ [] = ground (arith, left) in
            let taken : before ≡ bytes = got ∙ scan-none t bytes miss in
            let to_packet : (found ≡ false) × (c.is_empty b1 ≡ true) =
              (ground (arith, met), ground (arith, queue.empty_length b1, emptied)) in
            let joined = append_assoc text bytes (scan t buf).0 in
            option-split (λ (r : Option (List ℕ)). goal (bytes ++ (scan t buf).0, r)) (scan t buf).1
              (λ miss'. (
                ground (
                  arith,
                  taken,
                  to_packet,
                  all,
                  joined,
                  scan-none t buf miss',
                  append-nil bytes,
                  length-zero buf,
                ),
                ground (arith, to_packet, all, emptied, drop-length buf, length-zero buf),
              ))
              (λ behind hit. (
                v,
                ground (arith, taken, to_packet, all, joined, whole, scan-behind t buf behind),
                refl,
                ground (arith, whole),
                ground (arith, taken, to_packet, all, emptied, scan-behind t buf behind),
              )))
          (λ rest hit. (
            v,
            ground (arith, got, met, all, whole),
            refl,
            ground (arith, whole),
            ground (arith, left),
          )))

  -- Of the bytes at hand, `want` were asked for: the first of them are stored, and the rest waits in
  -- the ring or is left of the packet. If none is wanted any more the read is over: `v` is the state
  -- that the handler is called in.
  abbrev pub BytesRead : List ℕ → ℕ → List ℕ → ℕ × Buffer B C → List ℕ → Type 0
  BytesRead stored want bytes r buf =
      (v : Buffer B C) × (v.read_bytes ≡ some (stored ++ take want bytes))
      × (v.rx_size ≡ want - length bytes)
      × (ring v ++ drop r.0 buf ≡ drop want bytes)
      × (r.1 ≡ (
          if v.rx_size == 0
          then call_done c o heap hooks true none (record v { rx_mode = rx_mode_none })
          else v))

  -- `_handleRxBuffer` for bytes, with a destination and a handler set: the ring's bytes and then those
  -- of the packet are stored, in their order and no more than asked for; the handler is called just
  -- when all of them are there.
  pub handle_read_bytes-BytesRead :
      (b : B) (buf stored : List ℕ) (h : Handler) (s : Buffer B C)
      → s.rx ≡ some b
      → s.read_bytes ≡ some stored
      → s.cb_done ≡ some h
      → BytesRead stored s.rx_size
          (queue.contents b ++ buf)
          (handle_read_bytes c o heap hooks b buf s)
          buf
  unfolding handle_read_bytes
  handle_read_bytes-BytesRead b buf stored h s e f g =
      let bytes = queue.contents b in
      let want = s.rx_size in
      let n = (handle_read_bytes c o heap hooks b buf s).0 in
      let rest = record s {
        read_bytes = some (stored ++ take want (bytes ++ buf));
        rx_size = want - length (bytes ++ buf);
        rx = some (if c.available b == 0 then b else (c.read want b).1);
      } in
      let all = queue.available_length b in
      let count : n ≡ min (want - length bytes) (length buf) = ground (
        arith,
        all,
        queue.empty_length b,
        queue.empty_length (c.read want b).1,
        ap length (queue.read_front want b),
        ap length (queue.read_rest want b),
        length-take want bytes,
        length-drop want bytes,
      ) in
      let ring_left : ring rest ≡ drop want bytes = ground (
        arith,
        all,
        queue.read_rest want b,
        length-zero bytes,
        length-zero (drop want bytes),
        length-drop want bytes,
      ) in
      (
        rest,
        refl,
        refl,
        ap (λ (xs : List ℕ). xs ++ drop n buf) ring_left
            ∙ ap (λ (k : ℕ). drop want bytes ++ drop k buf) count
            ∙ ap (◌++◌ (drop want bytes)) (drop-min (want - length bytes) buf)
            ∙ sym (drop-append want bytes buf),
        ground (
          arith,
          all,
          count,
          queue.empty_length b,
          queue.empty_length (c.read want b).1,
          queue.read_front want b,
          queue.read_rest want b,
          length-take want bytes,
          length-drop want bytes,
          length-append bytes buf,
          length-take n buf,
          length-zero (take want bytes),
          take-append want bytes buf,
          take-min (want - length bytes) buf,
          append_assoc stored (take want bytes) (take n buf),
        ),
      )
