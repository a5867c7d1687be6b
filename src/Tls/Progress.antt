-- ===== src/Tls/Progress.antt =====
-- How long `process_ssl_engine` runs, and what it does to the session and to what was fed.
use espasync_tcp.Common.{
  ℕ, zero, suc, ◌<◌, ◌≡◌, refl, sym, ap, ◌∙◌, Bool, true, false, not, some, List, [], ◌∷◌, ◌++◌,
  arith, if◌then◌else◌, ltb, leb, ◌==◌, length, if-split, if-both, subst, ◌&&◌, ◌||◌,
}
use espasync_tcp.Lwip.{Pcb, Upcall, data_up, handshake_up, error_up}
use espasync_tcp.Tls.State.{
  Engine, Session, Glue, Effect, fed, called, emit, deref, update, store, in_buffer_size,
  out_buffer_size,
}
use espasync_tcp.Tls.Process.{
  Upper, Next, call_up, again, done, round, send_record, finish_handshake, process,
}

-- the bytes given to the engine of `p`, in order
unfoldable pub fed_bytes : Pcb → List Effect → List ℕ
fed_bytes p [] = []
fed_bytes p (fed q bytes ∷ es) = if q == p then fed_bytes p es ++ bytes else fed_bytes p es
fed_bytes p (e ∷ es) = fed_bytes p es

and-lt : (n : ℕ) (b : Bool) → (ltb 0 n && b) ≡ true → 0 < n
and-lt n b h = ground arith

and-and-lt : (a : Bool) (n : ℕ) (b : Bool) → (a && (ltb 0 n && b)) ≡ true → 0 < n
and-and-lt a n b h = ground arith

module _ {E : Type 0} where
  -- Callbacks that leave the glue alone.
  abbrev pub Passive : Upper E → Type 0
  Passive up = (p : Pcb) (u : Upcall) (g : Glue E) → up p u g ≡ g

  -- A bounded measure of what the engine still has to hand out: taking a full buffer lowers it.
  pub record Drains (b : Engine E) (fuel : ℕ) : Type 0 where
    pub work : E → ℕ
    pub bounded : (e : E) → work e < fuel
    pub recvapp_less : (e : E) → 0 < length (b.recvapp_buf e) → work (b.recvapp_ack e) < work e
    pub sendrec_less : (e : E) → 0 < length (b.sendrec_buf e) → work (b.sendrec_ack e) < work e

  pub deref-address :
      (a : ℕ) (ns : List (Session E)) (n : Session E) → deref a ns ≡ some n → n.address ≡ a
  unfolding deref
  deref-address a [] n h = cc
  deref-address a (m ∷ ns) n h = ground (arith, deref-address a ns n)

  pub deref-update :
      (a : ℕ) (ns : List (Session E)) (n m : Session E)
      → deref a ns ≡ some n
      → m.address ≡ a
      → deref a (update a m ns) ≡ some m
  unfolding deref update
  deref-update a [] n m h e = cc
  deref-update a (k ∷ ns) n m h e = ground (arith, deref-update a ns n m)

  pub deref-store :
      (a : ℕ) (g : Glue E) (n m : Session E)
      → deref a g.sessions ≡ some n
      → m.address ≡ n.address
      → deref a (store m g).sessions ≡ some m
  deref-store a g n m h e =
      let at_a = e ∙ deref-address a g.sessions n h in
      subst (λ (x : ℕ). deref a (update x m g.sessions) ≡ some m) (sym at_a)
        (deref-update a g.sessions n m h at_a)

  -- The session at `a` is still there, with the same connection and accumulator, and nothing was
  -- fed to its engine in between.
  abbrev pub Kept : ℕ → Session E → Glue E → Glue E → Type 0
  Kept a n g g' =
      (n' : Session E) × (deref a g'.sessions ≡ some n')
      × (n'.accum ≡ n.accum)
      × (n'.tcp ≡ n.tcp)
      × (fed_bytes n.tcp g'.effects ≡ fed_bytes n.tcp g.effects)

  module _ (b : Engine E) (up : Upper E) (sndbuf : List Effect → Pcb → ℕ)
      (passive : Passive up) where
    call_up-effects :
        (registered : Bool) (p q : Pcb) (u : Upcall) (g : Glue E)
        → ((call_up up registered p u g).sessions ≡ g.sessions)
          × (fed_bytes q (call_up up registered p u g).effects ≡ fed_bytes q g.effects)
    unfolding fed_bytes
    call_up-effects true p q u g =
        let e = passive p u (emit (called p u) g) in
        (ap (λ (x : Glue E). x.sessions) e, ap (λ (x : Glue E). fed_bytes q x.effects) e)
    call_up-effects false p q u g = (refl, refl)

    -- what one round does to the session at `a`
    abbrev RoundKept : ℕ → (E → ℕ) → Session E → Glue E → Next E → Type 0
    RoundKept a work n g (done g') = Kept a n g g'
    RoundKept a work n g (again g') =
        (n' : Session E) × (deref a g'.sessions ≡ some n')
        × (n'.accum ≡ n.accum)
        × (n'.tcp ≡ n.tcp)
        × (fed_bytes n.tcp g'.effects ≡ fed_bytes n.tcp g.effects)
        × (work n'.engine < work n.engine)

    finish_handshake-Kept :
        (a : ℕ) (n : Session E) (g : Glue E)
        → deref a g.sessions ≡ some n
        → Kept a n g (finish_handshake b up sndbuf n g)
    unfolding finish_handshake
    finish_handshake-Kept a n g h =
        let m = record n { handshake_done = true } in
        let (same, fed_same) =
          call_up-effects n.on_handshake n.tcp n.tcp handshake_up (store m g) in
        if-both (Kept a n g)
          (not n.handshake_done
            && ((n.is_server && b.recvapp n.engine) || (not n.is_server && b.sendapp n.engine)))
          (m, ap (deref a) same ∙ deref-store a g n m h refl, refl, refl, fed_same)
          (n, h, refl, refl, refl)

    send_record-Kept :
        (a fuel : ℕ) (d : Drains b fuel) (n : Session E) (g : Glue E)
        → deref a g.sessions ≡ some n
        → RoundKept a d.work n g (send_record b up sndbuf n g)
    unfolding send_record fed_bytes
    send_record-Kept a fuel d n g h =
        let out = b.sendrec_buf n.engine in
        let m = record n { engine = b.sendrec_ack n.engine } in
        if-split (RoundKept a d.work n g)
          (ltb 0 (length out)
            && (ltb (length out) out_buffer_size && leb (length out) (sndbuf g.effects n.tcp)))
          (λ t. (
            m,
            deref-store a g n m h refl,
            refl,
            refl,
            refl,
            d.sendrec_less n.engine (and-lt _ _ t),
          ))
          (λ _. finish_handshake-Kept a n g h)

    round-Kept :
        (a fuel : ℕ) (d : Drains b fuel) (n : Session E) (g : Glue E)
        → deref a g.sessions ≡ some n
        → RoundKept a d.work n g (round b up sndbuf n g)
    unfolding round
    round-Kept a fuel d n g h =
        let received = b.recvapp_buf n.engine in
        let m = record n { engine = b.recvapp_ack n.engine } in
        let (same, fed_same) =
          call_up-effects n.on_data n.tcp n.tcp (data_up received) (store m g) in
        let (same', fed_same') =
          call_up-effects n.on_error n.tcp n.tcp (error_up (b.last_error n.engine)) g in
        if-both (RoundKept a d.work n g) (b.closed n.engine)
          (n, ap (deref a) same' ∙ h, refl, refl, fed_same')
          (if-split (RoundKept a d.work n g)
            (b.recvapp n.engine
              && (ltb 0 (length received) && ltb (length received) in_buffer_size))
            (λ t. (
              m,
              ap (deref a) same ∙ deref-store a g n m h refl,
              refl,
              refl,
              fed_same,
              d.recvapp_less n.engine (and-and-lt _ _ _ t),
            ))
            (λ _. send_record-Kept a fuel d n g h))

    process-Kept_below :
        (f a fuel : ℕ) (d : Drains b fuel) (n : Session E) (g : Glue E)
        → d.work n.engine < f
        → deref a g.sessions ≡ some n
        → (g' : Glue E) × (process b up sndbuf f a g ≡ some g') × Kept a n g g'
    unfolding process
    process-Kept_below zero a fuel d n g w h = absurd (omega arith)
    process-Kept_below (suc f) a fuel d n g w h =
        rw (h, process)
          (go (process-Kept_below f a fuel d) (round b up sndbuf n g) (round-Kept a fuel d n g h))
      where
        go :
            ((m : Session E) (y : Glue E)
              → d.work m.engine < f
              → deref a y.sessions ≡ some m
              → (g' : Glue E) × (process b up sndbuf f a y ≡ some g') × Kept a m y g')
            → (x : Next E) → RoundKept a d.work n g x
            → (g' : Glue E) × (elim x [ done y ↦ some y | again y ↦ process b up sndbuf f a y ]
                ≡ some g')
              × Kept a n g g'
        go later (done y) k = (y, refl, k)
        go later (again y) k =
            let r = later k.0 y (omega (arith, k.5)) k.1 in
            let rest = r.2 in
            (
              r.0,
              r.1,
              (
                rest.0,
                rest.1,
                rest.2 ∙ k.2,
                rest.3 ∙ k.3,
                subst (λ (q : Pcb). fed_bytes q r.0.effects ≡ fed_bytes q y.effects) k.3 rest.4
                    ∙ k.4,
              ),
            )

    -- `process_ssl_engine` ends within the fuel that bounds the engine's work, leaves the session in
    -- place with its accumulator, and feeds the engine nothing. The callbacks leave the glue alone.
    pub process-Kept :
        (fuel a : ℕ) (d : Drains b fuel) (n : Session E) (g : Glue E)
        → deref a g.sessions ≡ some n
        → (g' : Glue E) × (process b up sndbuf fuel a g ≡ some g') × Kept a n g g'
    process-Kept fuel a d n g h = process-Kept_below fuel a fuel d n g (d.bounded n.engine) h
