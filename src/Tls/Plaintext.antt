-- ===== src/Tls/Plaintext.antt =====
-- What the client is handed of the bytes that the engine decrypts.
pub mod Loops
pub mod Reading
use espasync_tcp.Common.{
  ℕ, zero, suc, ◌≤◌, ◌<◌, ◌≡◌, refl, sym, ap, ◌∙◌, subst, Bool, true, false, not, Option, none,
  some, List, [], ◌∷◌, ◌++◌, append_assoc, arith, if◌then◌else◌, ltb, leb, ◌==◌, length, if-split,
  if-both, ◌&&◌, ◌||◌,
}
use espasync_tcp.Lwip.{Pcb, Upcall, data_up, handshake_up, error_up}
use espasync_tcp.Tls.State.{
  Engine, Session, Glue, Effect, called, emit, deref, store, in_buffer_size, out_buffer_size,
}
use espasync_tcp.Tls.Process.{
  Upper, Next, call_up, again, done, round, send_record, finish_handshake, process,
}
use espasync_tcp.Tls.Progress.{Passive, fed_bytes, deref-store}

-- the bytes handed to the data callback of `p`, in order
unfoldable pub handed : Pcb → List Effect → List ℕ
handed p [] = []
handed p (called q (data_up bytes) ∷ es) = if q == p then handed p es ++ bytes else handed p es
handed p (e ∷ es) = handed p es

-- An engine that decrypts: of the bytes that it consumed, `opened` gives the plaintext, which it hands
-- out in order, never as much at once as the receive buffer has bytes. While it is open it has
-- plaintext to hand out just as long as it has not handed out all.
pub record Decrypts {E : Type 0} (b : Engine E) : Type 0 where
  pub opened : List ℕ → List ℕ
  pub consumed : E → List ℕ
  pub given : E → List ℕ
  pub put_consumed :
      (bytes : List ℕ) (e : E)
      → length bytes ≤ b.recvrec_room e
      → consumed (b.recvrec_put bytes e) ≡ consumed e ++ bytes
  pub put_given :
      (bytes : List ℕ) (e : E)
      → length bytes ≤ b.recvrec_room e
      → given (b.recvrec_put bytes e) ≡ given e
  pub take_consumed : (e : E) → consumed (b.recvapp_ack e) ≡ consumed e
  pub take_given : (e : E) → given (b.recvapp_ack e) ≡ given e ++ b.recvapp_buf e
  pub send_consumed : (e : E) → consumed (b.sendrec_ack e) ≡ consumed e
  pub send_given : (e : E) → given (b.sendrec_ack e) ≡ given e
  pub some_waits : (e : E) → b.recvapp e ≡ true → 0 < length (b.recvapp_buf e)
  pub part_waits : (e : E) → length (b.recvapp_buf e) < in_buffer_size
  pub all_given : (e : E) → b.closed e ≡ false → b.recvapp e ≡ false → opened (consumed e) ≡ given e

module _ {E : Type 0} (b : Engine E) (up : Upper E) (sndbuf : List Effect → Pcb → ℕ)
    (passive : Passive up) (dec : Decrypts b) (a : ℕ) (p : Pcb) (c0 t0 : List ℕ) where
  -- The session is that of `p`, and since the engine had consumed `c0` and given `t0`, it consumed what
  -- it was fed, and what it gave was handed to the data callback.
  abbrev pub Tracks : Session E → Glue E → Type 0
  Tracks n g =
      (n.tcp ≡ p)
      × (n.on_data ≡ true)
      × (dec.consumed n.engine ≡ c0 ++ fed_bytes p g.effects)
      × (dec.given n.engine ≡ t0 ++ handed p g.effects)

  abbrev pub Follows : Glue E → Type 0
  Follows g = (n : Session E) × (deref a g.sessions ≡ some n) × Tracks n g

  -- The engine has no plaintext left, unless it is closed.
  abbrev pub Rests : Glue E → Type 0
  Rests g =
      (n : Session E) × (deref a g.sessions ≡ some n)
      × Tracks n g
      × (b.closed n.engine ≡ false → b.recvapp n.engine ≡ false)

  abbrev is_data : Upcall → Bool
  is_data (data_up bytes) = true
  is_data handshake_up = false
  is_data (error_up e) = false

  -- a callback without data
  call_up-quiet :
      (registered : Bool) (q : Pcb) (u : Upcall) (g : Glue E)
      → is_data u ≡ false
      → ((call_up up registered q u g).sessions ≡ g.sessions)
        × (fed_bytes p (call_up up registered q u g).effects ≡ fed_bytes p g.effects)
        × (handed p (call_up up registered q u g).effects ≡ handed p g.effects)
  unfolding fed_bytes handed
  call_up-quiet false q u g h = (refl, refl, refl)
  call_up-quiet true q (data_up bytes) g h = cc
  call_up-quiet true q handshake_up g h =
      let e = passive q handshake_up (emit (called q handshake_up) g) in
      (
        ap (λ (x : Glue E). x.sessions) e,
        ap (λ (x : Glue E). fed_bytes p x.effects) e,
        ap (λ (x : Glue E). handed p x.effects) e,
      )
  call_up-quiet true q (error_up r) g h =
      let e = passive q (error_up r) (emit (called q (error_up r)) g) in
      (
        ap (λ (x : Glue E). x.sessions) e,
        ap (λ (x : Glue E). fed_bytes p x.effects) e,
        ap (λ (x : Glue E). handed p x.effects) e,
      )

  quiet-Rests :
      (registered : Bool) (q : Pcb) (u : Upcall) (g : Glue E)
      → is_data u ≡ false
      → Rests g
      → Rests (call_up up registered q u g)
  quiet-Rests registered q u g h (n, there, (same, listens, eaten, out), rest) =
      let (sessions, fed_same, handed_same) = call_up-quiet registered q u g h in
      (
        n,
        ap (deref a) sessions ∙ there,
        (same, listens, eaten ∙ ap (◌++◌ c0) (sym fed_same), out ∙ ap (◌++◌ t0) (sym handed_same)),
        rest,
      )

  -- the session changed without its engine
  finish_handshake-Rests :
      (n : Session E) (g : Glue E)
      → deref a g.sessions ≡ some n
      → Tracks n g
      → (b.closed n.engine ≡ false → b.recvapp n.engine ≡ false)
      → Rests (finish_handshake b up sndbuf n g)
  unfolding finish_handshake
  finish_handshake-Rests n g h t rest =
      let m = record n { handshake_done = true } in
      if-both Rests
        (not n.handshake_done
          && ((n.is_server && b.recvapp n.engine) || (not n.is_server && b.sendapp n.engine)))
        (quiet-Rests n.on_handshake n.tcp handshake_up (store m g) refl
          (m, deref-store a g n m h refl, t, rest))
        (n, h, t, rest)

  Outcome : Next E → Type 0
  Outcome (again g) = Follows g
  Outcome (done g) = Rests g

  send_record-Outcome :
      (n : Session E) (g : Glue E)
      → deref a g.sessions ≡ some n
      → Tracks n g
      → (b.closed n.engine ≡ false → b.recvapp n.engine ≡ false)
      → Outcome (send_record b up sndbuf n g)
  unfolding send_record fed_bytes handed Outcome
  send_record-Outcome n g h (same, listens, eaten, out) rest =
      let bytes = b.sendrec_buf n.engine in
      let m = record n { engine = b.sendrec_ack n.engine } in
      if-both Outcome
        (ltb 0 (length bytes)
          && (ltb (length bytes) out_buffer_size && leb (length bytes) (sndbuf g.effects n.tcp)))
        (
          m,
          deref-store a g n m h refl,
          (same, listens, dec.send_consumed n.engine ∙ eaten, dec.send_given n.engine ∙ out),
        )
        (finish_handshake-Rests n g h (same, listens, eaten, out) rest)

  -- the data callback
  give-Follows :
      (n : Session E) (g : Glue E)
      → deref a g.sessions ≡ some n
      → Tracks n g
      → Follows (
          call_up up n.on_data n.tcp
            (data_up (b.recvapp_buf n.engine))
            (store (record n { engine = b.recvapp_ack n.engine }) g))
  unfolding fed_bytes handed
  give-Follows n g h (same, listens, eaten, out) =
      let bytes = b.recvapp_buf n.engine in
      let m = record n { engine = b.recvapp_ack n.engine } in
      let g1 = emit (called n.tcp (data_up bytes)) (store m g) in
      let here : (n.tcp == p) ≡ true = ground (arith, same) in
      let called_up : call_up up n.on_data n.tcp (data_up bytes) (store m g) ≡ g1 =
        ap (λ (r : Bool). call_up up r n.tcp (data_up bytes) (store m g)) listens
        ∙ passive n.tcp (data_up bytes) g1 in
      subst Follows (sym called_up) (
        m,
        deref-store a g n m h refl,
        (
          same,
          listens,
          dec.take_consumed n.engine ∙ eaten,
          dec.take_given n.engine
              ∙ ap (λ (x : List ℕ). x ++ bytes) out
              ∙ append_assoc t0 (handed p g.effects) bytes
              ∙ ap
                  (λ (r : Bool).
                    t0 ++ (if r then handed p g.effects ++ bytes else handed p g.effects))
                  (sym here),
        ),
      )

  round-Outcome :
      (n : Session E) (g : Glue E)
      → deref a g.sessions ≡ some n
      → Tracks n g
      → Outcome (round b up sndbuf n g)
  unfolding round Outcome
  round-Outcome n g h t =
      let bytes = b.recvapp_buf n.engine in
      if-split Outcome (b.closed n.engine)
        (λ shut.
          quiet-Rests n.on_error n.tcp (error_up (b.last_error n.engine)) g refl
            (n, h, t, λ open_engine. cc))
        (λ open_engine.
          if-split Outcome
            (b.recvapp n.engine && (ltb 0 (length bytes) && ltb (length bytes) in_buffer_size))
            (λ has. give-Follows n g h t)
            (λ no.
              send_record-Outcome n g h t
                (λ _. ground (arith, no, dec.some_waits n.engine, dec.part_waits n.engine))))

  -- If the call ended, the property holds.
  abbrev pub Ends : (Glue E → Type 0) → Option (Glue E) → Type 0
  Ends P none = Unit
  Ends P (some g) = P g

  pub process-Rests : (f : ℕ) (g : Glue E) → Follows g → Ends Rests (process b up sndbuf f a g)
  unfolding process Outcome
  process-Rests zero g t = tt
  process-Rests (suc f) g (n, h, t) =
      rw (h, process) (go (process-Rests f) (round b up sndbuf n g) (round-Outcome n g h t))
    where
      go :
          ((y : Glue E) → Follows y → Ends Rests (process b up sndbuf f a y))
          → (x : Next E) → Outcome x
          → Ends Rests (elim x [ done y ↦ some y | again y ↦ process b up sndbuf f a y ])
      go later (done y) k = k
      go later (again y) k = later y k
