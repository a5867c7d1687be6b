-- ===== src/Tls/Ciphertext.antt =====
-- What goes on the wire of the bytes that the engine encrypts.
pub mod Sending
use espasync_tcp.Common.{
  ℕ, zero, suc, ◌<◌, ◌≤◌, ◌≡◌, refl, sym, ap, ◌∙◌, Bool, true, false, not, Option, none, some, List,
  [], ◌∷◌, ◌++◌, append_assoc, arith, if◌then◌else◌, ltb, leb, ◌==◌, length, if-split, if-both,
  ◌&&◌, ◌||◌,
}
use espasync_tcp.Lwip.{Pcb, Upcall, data_up, handshake_up, error_up}
use espasync_tcp.Tls.State.{
  Engine, Session, Glue, Effect, wrote, called, emit, deref, store, in_buffer_size, out_buffer_size,
}
use espasync_tcp.Tls.Process.{
  Upper, Next, call_up, again, done, round, send_record, finish_handshake, process,
}
use espasync_tcp.Tls.Progress.{Passive, deref-store}

-- the bytes written to the connection `p`, in order
unfoldable pub written : Pcb → List Effect → List ℕ
written p [] = []
written p (wrote q bytes ∷ es) = if q == p then written p es ++ bytes else written p es
written p (e ∷ es) = written p es

-- An engine that encrypts: it hands out records in order, never as much at once as the send buffer has
-- bytes, and `unsealed` gives the plaintext of a run of records. Once it was flushed it has records to
-- hand out just as long as not all plaintext that it accepted is in those that it handed out.
pub record Encrypts {E : Type 0} (b : Engine E) : Type 0 where
  pub unsealed : List ℕ → List ℕ
  pub accepted : E → List ℕ
  pub emitted : E → List ℕ
  pub flushed : E → Bool
  pub put_accepted :
      (bytes : List ℕ) (e : E)
      → length bytes ≤ b.sendapp_room e
      → accepted (b.sendapp_put bytes e) ≡ accepted e ++ bytes
  pub put_emitted : (bytes : List ℕ) (e : E) → emitted (b.sendapp_put bytes e) ≡ emitted e
  pub flush_accepted : (e : E) → accepted (b.flush e) ≡ accepted e
  pub flush_emitted : (e : E) → emitted (b.flush e) ≡ emitted e
  pub flush_flushed : (e : E) → flushed (b.flush e) ≡ true
  pub send_accepted : (e : E) → accepted (b.sendrec_ack e) ≡ accepted e
  pub send_emitted : (e : E) → emitted (b.sendrec_ack e) ≡ emitted e ++ b.sendrec_buf e
  pub send_flushed : (e : E) → flushed (b.sendrec_ack e) ≡ flushed e
  pub take_accepted : (e : E) → accepted (b.recvapp_ack e) ≡ accepted e
  pub take_emitted : (e : E) → emitted (b.recvapp_ack e) ≡ emitted e
  pub take_flushed : (e : E) → flushed (b.recvapp_ack e) ≡ flushed e
  pub part_sends : (e : E) → length (b.sendrec_buf e) < out_buffer_size
  pub all_sent :
      (e : E) → flushed e ≡ true → length (b.sendrec_buf e) ≡ 0 → unsealed (emitted e) ≡ accepted e

module _ {E : Type 0} (b : Engine E) (up : Upper E) (sndbuf : List Effect → Pcb → ℕ)
    (passive : Passive up) (enc : Encrypts b)
    (roomy : (es : List Effect) (q : Pcb) (e : E) → length (b.sendrec_buf e) ≤ sndbuf es q) (a : ℕ)
    (p : Pcb) (e0 : List ℕ) (taken : List ℕ) where
  -- The session is that of `p`, its engine was flushed and accepted `taken`, and since it had emitted
  -- `e0`, what it emitted was written to the connection.
  abbrev pub Tracks : Session E → Glue E → Type 0
  Tracks n g =
      (n.tcp ≡ p)
      × (enc.flushed n.engine ≡ true)
      × (enc.accepted n.engine ≡ taken)
      × (enc.emitted n.engine ≡ e0 ++ written p g.effects)

  abbrev pub Follows : Glue E → Type 0
  Follows g = (n : Session E) × (deref a g.sessions ≡ some n) × Tracks n g

  -- No record is left, unless the engine is closed.
  abbrev pub Rests : Glue E → Type 0
  Rests g =
      (n : Session E) × (deref a g.sessions ≡ some n)
      × Tracks n g
      × (b.closed n.engine ≡ false → length (b.sendrec_buf n.engine) ≡ 0)

  call_up-quiet :
      (registered : Bool) (q : Pcb) (u : Upcall) (g : Glue E)
      → ((call_up up registered q u g).sessions ≡ g.sessions)
        × (written p (call_up up registered q u g).effects ≡ written p g.effects)
  unfolding written
  call_up-quiet false q u g = (refl, refl)
  call_up-quiet true q u g =
      let e = passive q u (emit (called q u) g) in
      (ap (λ (x : Glue E). x.sessions) e, ap (λ (x : Glue E). written p x.effects) e)

  quiet-Follows :
      (registered : Bool) (q : Pcb) (u : Upcall) (g : Glue E)
      → Follows g
      → Follows (call_up up registered q u g)
  quiet-Follows registered q u g (n, there, (same, ready, took, out)) =
      let (sessions, same_written) = call_up-quiet registered q u g in
      (n, ap (deref a) sessions ∙ there, (same, ready, took, out ∙ ap (◌++◌ e0) (sym same_written)))

  quiet-Rests :
      (registered : Bool) (q : Pcb) (u : Upcall) (g : Glue E)
      → Rests g
      → Rests (call_up up registered q u g)
  quiet-Rests registered q u g (n, there, (same, ready, took, out), rest) =
      let (sessions, same_written) = call_up-quiet registered q u g in
      (
        n,
        ap (deref a) sessions ∙ there,
        (same, ready, took, out ∙ ap (◌++◌ e0) (sym same_written)),
        rest,
      )

  finish_handshake-Rests :
      (n : Session E) (g : Glue E)
      → deref a g.sessions ≡ some n
      → Tracks n g
      → length (b.sendrec_buf n.engine) ≡ 0
      → Rests (finish_handshake b up sndbuf n g)
  unfolding finish_handshake
  finish_handshake-Rests n g h t rest =
      let m = record n { handshake_done = true } in
      if-both Rests
        (not n.handshake_done
          && ((n.is_server && b.recvapp n.engine) || (not n.is_server && b.sendapp n.engine)))
        (quiet-Rests n.on_handshake n.tcp handshake_up (store m g)
          (m, deref-store a g n m h refl, t, λ o. rest))
        (n, h, t, λ o. rest)

  Outcome : Next E → Type 0
  Outcome (again g) = Follows g
  Outcome (done g) = Rests g

  send_record-Outcome :
      (n : Session E) (g : Glue E)
      → deref a g.sessions ≡ some n
      → Tracks n g
      → Outcome (send_record b up sndbuf n g)
  unfolding send_record written Outcome
  send_record-Outcome n g h (same, ready, took, out) =
      let bytes = b.sendrec_buf n.engine in
      let m = record n { engine = b.sendrec_ack n.engine } in
      let here : (n.tcp == p) ≡ true = ground (arith, same) in
      if-split Outcome
        (ltb 0 (length bytes)
          && (ltb (length bytes) out_buffer_size && leb (length bytes) (sndbuf g.effects n.tcp)))
        (λ sends. (
          m,
          deref-store a (emit (wrote n.tcp bytes) g) n m h refl,
          (
            same,
            enc.send_flushed n.engine ∙ ready,
            enc.send_accepted n.engine ∙ took,
            enc.send_emitted n.engine
                ∙ ap (λ (x : List ℕ). x ++ bytes) out
                ∙ append_assoc e0 (written p g.effects) bytes
                ∙ ap
                    (λ (r : Bool).
                      e0 ++ (if r then written p g.effects ++ bytes else written p g.effects))
                    (sym here),
          ),
        ))
        (λ stops.
          finish_handshake-Rests n g h (same, ready, took, out)
            (ground (arith, stops, roomy g.effects n.tcp n.engine, enc.part_sends n.engine)))

  round-Outcome :
      (n : Session E) (g : Glue E)
      → deref a g.sessions ≡ some n
      → Tracks n g
      → Outcome (round b up sndbuf n g)
  unfolding round Outcome
  round-Outcome n g h (same, ready, took, out) =
      let bytes = b.recvapp_buf n.engine in
      let m = record n { engine = b.recvapp_ack n.engine } in
      if-split Outcome (b.closed n.engine)
        (λ shut.
          quiet-Rests n.on_error n.tcp (error_up (b.last_error n.engine)) g
            (n, h, (same, ready, took, out), λ open_engine. cc))
        (λ open_engine.
          if-both Outcome
            (b.recvapp n.engine && (ltb 0 (length bytes) && ltb (length bytes) in_buffer_size))
            (quiet-Follows n.on_data n.tcp (data_up bytes) (store m g) (
              m,
              deref-store a g n m h refl,
              (
                same,
                enc.take_flushed n.engine ∙ ready,
                enc.take_accepted n.engine ∙ took,
                enc.take_emitted n.engine ∙ out,
              ),
            ))
            (send_record-Outcome n g h (same, ready, took, out)))

  -- If the call ended, the property holds.
  abbrev pub Ends : (Glue E → Type 0) → Option (Glue E) → Type 0
  Ends P none = Unit
  Ends P (some g) = P g

  pub process-Rests : (f : ℕ) (g : Glue E) → Follows g → Ends Rests (process b up sndbuf f a g)
  unfolding process Outcome
  process-Rests zero g t = tt
  process-Rests (suc f) g (n, h, t) =
      rw (h, process) (go (process-Rests f) (round b up sndbuf n g) (round-Outcome n g h t))
    where
      go :
          ((y : Glue E) → Follows y → Ends Rests (process b up sndbuf f a y))
          → (x : Next E) → Outcome x
          → Ends Rests (elim x [ done y ↦ some y | again y ↦ process b up sndbuf f a y ])
      go later (done y) k = k
      go later (again y) k = later y k
