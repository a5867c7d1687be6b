-- ===== src/Client/OverGlue/Receiving.antt =====
-- `_recv` of a TLS client on the glue: what its data handler hears.
use espasync_tcp.Common.{
  not, ℕ, ◌<◌, ◌≤◌, ◌≡◌, ◌⊎◌, inl, inr, refl, sym, ap, ◌∙◌, Bool, true, false, Option, none, some,
  List, [], ◌∷◌, ◌++◌, append-nil, append_assoc, arith, if◌then◌else◌, length,
}
use espasync_tcp.Lwip.{Pcb, Pbuf, Handler, Stack, Trace, ok, clock, ssl_read, is_ok}
use espasync_tcp.Client.State.{World, App, log, touch, set_client, close_error}
use espasync_tcp.Client.Upcalls.{deliver}
use espasync_tcp.Client.Receive.{recv, recv_data, recv_tls, chain_bytes}
use espasync_tcp.Client.Teardown.{shut}
use espasync_tcp.Client.OverGlue.{
  Surroundings, Listens, calls, heard, replay, after_call, over_glue, read_of, recording, anew,
  plain-calls,
}
use espasync_tcp.Client.OverGlue.Hearing.{deliver-Heard}
use espasync_tcp.Tls.State.{Engine, Session, Glue, deref, accum_pos}
use espasync_tcp.Tls.Registry.{find_ssl_pcb}
use espasync_tcp.Tls.Progress.{Drains, fed_bytes}
use espasync_tcp.Tls.Plaintext.{Decrypts, handed}
use espasync_tcp.Tls.Plaintext.Reading.{tcp_ssl_read-plaintext}

module _ {E : Type 0} (b : Engine E) (fuel : ℕ) (around : Surroundings) (start : Glue E) (app : App)
    (h : Handler) (listens : Listens b fuel around start app h) where
  abbrev glue_at : Trace → Glue E
  glue_at = replay b fuel around start

  find-tcp :
      (p : Pcb) (ns : List (Session E)) (n : Session E) → find_ssl_pcb p ns ≡ some n → n.tcp ≡ p
  unfolding find_ssl_pcb
  find-tcp p [] n e = absurd cc
  find-tcp p (k ∷ ns) n e = ground (arith, find-tcp p ns n)

  module _ (dec : Decrypts b) (s : Stack) (p : Pcb) (t0 : List ℕ) where
    -- The run from `w` to `w'` on the session `n`, which was to take in `bytes`: by `v` the data handler
    -- has heard what the engine gave out since it had given out `t0`, and that is the plaintext of what
    -- the engine consumed, if the engine is open; else the client closes its connection after `v`.
    abbrev pub Relayed : Session E → List ℕ → World → Type 0
    Relayed n bytes w' =
        (v : World) × (n' : Session E) × (dec.given n'.engine ≡ t0 ++ heard h v.trace)
        × (dec.consumed n'.engine ++ n'.accum ≡ dec.consumed n.engine ++ (bytes ++ n.accum))
        × (((b.closed n'.engine ≡ false)
              × (w' ≡ v)
              × (deref n.address (glue_at v.trace).sessions ≡ some n')
              × (dec.opened (dec.consumed n'.engine) ≡ t0 ++ heard h v.trace))
            ⊎ ((b.closed n'.engine ≡ true)
                × (w' ≡ shut (over_glue b fuel around start s) app (touch v))))

    abbrev stack : Stack
    stack = over_glue b fuel around start s

    -- the world in which `_recv` calls the glue
    abbrev entered : World → World
    entered w =
        close_error ok
          (set_client (record w.client { rx_last_packet = s.millis w.trace }) (log clock w))

    recv-recv_tls :
        (x : Pbuf) (xs : List Pbuf) (w : World)
        → w.client.use_tls ≡ true
        → recv stack app (some p) (x ∷ xs) ok w ≡ recv_tls stack app p (x ∷ xs) (entered w)
    unfolding recv recv_data is_ok over_glue
    recv-recv_tls x xs w tls = rw tls refl

    -- the world after the upcalls
    abbrev delivered : List Pbuf → Glue E → World → World
    delivered pb g w =
        deliver app (calls p g.effects) (log (ssl_read p (chain_bytes pb)) (entered w))

    recv_tls-answer :
        (pb : List Pbuf) (w : World) (answer : Bool) (g : Glue E)
        → read_of b fuel around start (entered w).trace p (chain_bytes pb) (glue_at w.trace)
          ≡ (answer, g)
        → recv_tls stack app p pb (entered w)
          ≡ (if answer then delivered pb g w else shut stack app (touch (delivered pb g w)))
    unfolding recv_tls over_glue replay after_call
    recv_tls-answer pb w answer g e = ap run e ∙ branches answer
      where
        run : Bool × Glue E → World
        run r = elim (if◌then◌else◌ {A = Option ℕ} (r.0) (some 0) none) [
          | none ↦ shut stack app (touch (delivered pb r.1 w))
          | some _ ↦ delivered pb r.1 w
        ]

        branches :
            (a : Bool)
            → run (a, g)
              ≡ (if a then delivered pb g w else shut stack app (touch (delivered pb g w)))
        branches true = refl
        branches false = refl

    -- by what is known of the call of the glue
    answered-Relayed :
        (pb : List Pbuf) (n n' : Session E) (w w' : World) (answer : Bool) (g : Glue E)
        → read_of b fuel around start (entered w).trace p (chain_bytes pb) (glue_at w.trace)
          ≡ (answer, g)
        → deref n.address g.sessions ≡ some n'
        → fed_bytes p g.effects ++ n'.accum ≡ chain_bytes pb ++ n.accum
        → dec.consumed n'.engine ≡ dec.consumed n.engine ++ fed_bytes p g.effects
        → dec.given n'.engine ≡ dec.given n.engine ++ handed p g.effects
        → answer ≡ not (b.closed n'.engine)
        → ((answer ≡ false)
            ⊎ (dec.opened (dec.consumed n.engine ++ fed_bytes p g.effects)
                ≡ dec.given n.engine ++ handed p g.effects))
        → w.client.handlers.recv_cb ≡ some h
        → dec.given n.engine ≡ t0 ++ heard h w.trace
        → w' ≡ (if answer then delivered pb g w else shut stack app (touch (delivered pb g w)))
        → Relayed n (chain_bytes pb) w'
    unfolding replay after_call heard
    answered-Relayed pb n n' w w' answer g read there stream eaten out opens full cb given result =
        let v = delivered pb g w in
        let (now_heard, same_glue, same_cb) =
          deliver-Heard b fuel around start app h listens (calls p g.effects)
            (log (ssl_read p (chain_bytes pb)) (entered w)) cb in
        let told : dec.given n.engine ++ handed p g.effects ≡ t0 ++ heard h v.trace =
          ap (λ (x : List ℕ). x ++ handed p g.effects) given
          ∙ append_assoc t0 (heard h w.trace) (handed p g.effects)
          ∙ ap (◌++◌ t0)
              (ap (◌++◌ (heard h w.trace)) (sym (plain-calls p g.effects)) ∙ sym now_heard) in
        let after : glue_at v.trace ≡ g = same_glue ∙ ap (λ (r : Bool × Glue E). r.1) read in
        (
          v,
          n',
          out ∙ told,
          ap (λ (x : List ℕ). x ++ n'.accum) eaten
              ∙ append_assoc (dec.consumed n.engine) (fed_bytes p g.effects) n'.accum
              ∙ ap (◌++◌ (dec.consumed n.engine)) stream,
          go answer opens full result after told,
        )
      where
        go :
            (a : Bool)
            → a ≡ not (b.closed n'.engine)
            → ((a ≡ false)
                ⊎ (dec.opened (dec.consumed n.engine ++ fed_bytes p g.effects)
                    ≡ dec.given n.engine ++ handed p g.effects))
            → w' ≡ (if a then delivered pb g w else shut stack app (touch (delivered pb g w)))
            → glue_at (delivered pb g w).trace ≡ g
            → dec.given n.engine ++ handed p g.effects ≡ t0 ++ heard h (delivered pb g w).trace
            → ((b.closed n'.engine ≡ false)
                × (w' ≡ delivered pb g w)
                × (deref n.address (glue_at (delivered pb g w).trace).sessions ≡ some n')
                × (dec.opened (dec.consumed n'.engine) ≡ t0 ++ heard h (delivered pb g w).trace))
              ⊎ ((b.closed n'.engine ≡ true) × (w' ≡ shut stack app (touch (delivered pb g w))))
        go false c f e a t = inr (ground (arith, c), e)
        go true c (inl f) e a t = absurd cc
        go true c (inr f) e a t = inl (
          ground (arith, c),
          e,
          ap (λ (x : Glue E). deref n.address x.sessions) a ∙ there,
          ap dec.opened eaten ∙ f ∙ t,
        )

    -- A TLS client on the glue, with an engine that decrypts and whose work the fuel bounds, and with
    -- handlers that leave the client alone and call neither the glue nor the data handler. The data
    -- handler has heard what the engine gave out since `t0`, and the session is found by its pcb and at
    -- its address, with the callback for data. Then `_recv` of a
    -- chain that fits into the room of the accumulator gives the data handler, in order, all that the
    -- engine gave out. If the engine is open then, `_recv` does no more, and what the data handler has
    -- heard is the plaintext of all that the engine consumed; if it is closed, the client closes its
    -- connection. What the engine consumed, followed by the accumulator, is what it had consumed, then
    -- the chain and then the bytes that waited.
    pub recv-Relayed :
        (pb : List Pbuf) (n : Session E) (w : World)
        → Drains b fuel
        → 0 < length pb
        → w.client.use_tls ≡ true
        → w.client.handlers.recv_cb ≡ some h
        → find_ssl_pcb p (glue_at w.trace).sessions ≡ some n
        → deref n.address (glue_at w.trace).sessions ≡ some n
        → n.on_data ≡ true
        → length (chain_bytes pb) ≤ accum_pos n
        → dec.given n.engine ≡ t0 ++ heard h w.trace
        → Relayed n (chain_bytes pb) (recv stack app (some p) pb ok w)
    unfolding read_of fed_bytes handed
    recv-Relayed [] n w d some_pb tls cb found there on fits given = absurd (omega arith)
    recv-Relayed (x ∷ xs) n w d some_pb tls cb found there on fits given =
        let g = anew b fuel around start (glue_at w.trace) in
        let (answer, g', n', ran, there', stream, eaten, out, opens, full) =
          tcp_ssl_read-plaintext b (recording b fuel around start) (around.room (entered w).trace)
            fuel (λ q u y. refl) dec n.address p (dec.consumed n.engine) (dec.given n.engine) d
            (chain_bytes (x ∷ xs)) n g found there fits
            (find-tcp p g.sessions n found, on, sym (append-nil _), sym (append-nil _)) in
        let read =
          ap
            (λ (o : Option (Bool × Glue E)). elim o [
              | none ↦ (false, glue_at w.trace)
              | some r ↦ r
            ])
            ran in
        answered-Relayed (x ∷ xs) n n' w _ answer g' read there' stream eaten out opens full cb
          given (recv-recv_tls x xs w tls ∙ recv_tls-answer (x ∷ xs) w answer g' read)
