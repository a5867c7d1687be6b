-- ===== src/Tls/Freed.antt =====
-- A session that is freed while `process_ssl_engine` runs on it.
use espasync_tcp.Common.{
  ℕ, suc, ◌<◌, ◌≡◌, refl, ap, ◌∙◌, subst, true, false, none, some, List, [], ◌∷◌, arith, ◌==◌,
  length, is_some, inl, inr, Bool-cases,
}
use espasync_tcp.Lwip.{Pcb, data_up}
use espasync_tcp.Tls.State.{
  Engine, Session, Glue, Effect, called, emit, use_freed, deref, update, store, in_buffer_size,
}
use espasync_tcp.Tls.Registry.{find_ssl_pcb, unlink, tcp_ssl_free}
use espasync_tcp.Tls.Process.{Upper, again, round, process}

module _ {E : Type 0} where
  -- No two sessions are at one address.
  abbrev pub Apart : List (Session E) → Type 0
  Apart [] = Unit {0}
  Apart (n ∷ ns) = (deref n.address ns ≡ none) × Apart ns

  find-deref :
      (p : Pcb) (n : Session E) (ns : List (Session E))
      → find_ssl_pcb p ns ≡ some n
      → is_some (deref n.address ns) ≡ true
  unfolding find_ssl_pcb deref
  find-deref p n [] h = absurd cc
  find-deref p n (k ∷ ns) h = ground (arith, find-deref p n ns)

  deref-found :
      (p : Pcb) (n : Session E) (ns : List (Session E))
      → Apart ns
      → find_ssl_pcb p ns ≡ some n
      → deref n.address ns ≡ some n
  unfolding find_ssl_pcb deref
  deref-found p n [] apart h = absurd cc
  deref-found p n (k ∷ ns) apart h =
      ground (arith, find-deref p n ns, deref-found p n ns apart.1, apart.0)

  -- The session of the pcb, changed and then freed, is nowhere in the list.
  unlink-update :
      (p : Pcb) (n m : Session E) (ns : List (Session E))
      → Apart ns
      → find_ssl_pcb p ns ≡ some n
      → m.tcp ≡ p
      → (r : List (Session E)) × (unlink p (update n.address m ns) ≡ some r)
        × (deref n.address r ≡ none)
  unfolding find_ssl_pcb deref unlink update
  unlink-update p n m [] apart h e = absurd cc
  unlink-update p n m (k ∷ ns) apart h e = elim (Bool-cases (k.tcp == p)) [
    | inl here ↦
        let same : k ≡ n = ground (arith, h) in
        (
          ns,
          ground (arith, ap (λ (x : Session E). x.address) same),
          subst (λ (x : Session E). deref x.address ns ≡ none) same apart.0,
        )
    | inr there ↦
        let found : find_ssl_pcb p ns ≡ some n = ground (arith, h) in
        let other : (k.address == n.address) ≡ false =
          ground (arith, find-deref p n ns found, apart.0) in
        let (r, gone, absent) = unlink-update p n m ns apart.1 found e in
        (k ∷ r, ground (arith, gone, find-deref p n ns found, apart.0), ground (arith, absent))
  ]

  module _ (b : Engine E) (up : Upper E) (sndbuf : List Effect → Pcb → ℕ) where
    process-again :
        (f a : ℕ) (n : Session E) (g g2 : Glue E)
        → deref a g.sessions ≡ some n
        → round b up sndbuf n g ≡ again g2
        → process b up sndbuf (suc f) a g ≡ process b up sndbuf f a g2
    unfolding process
    process-again f a n g g2 h e = rw (process, h, e) refl

    process-gone :
        (f a : ℕ) (g : Glue E)
        → deref a g.sessions ≡ none
        → process b up sndbuf (suc f) a g ≡ some (use_freed g)
    unfolding process
    process-gone f a g h = rw (process, h) refl

    -- Where the data callback frees the session of its pcb, as a client does that closes its connection
    -- in its data handler, `process_ssl_engine` goes on with the freed session: with application
    -- data at hand on an open engine, a session that is found by its pcb, and no two sessions at one
    -- address, it ends in a fault, after the session was freed.
    pub process-uses_freed :
        (f : ℕ) (n : Session E) (g : Glue E)
        → ((p : Pcb) (bytes : List ℕ) (x : Glue E) → up p (data_up bytes) x ≡ (tcp_ssl_free p x).1)
        → find_ssl_pcb n.tcp g.sessions ≡ some n
        → Apart g.sessions
        → n.on_data ≡ true
        → b.closed n.engine ≡ false
        → b.recvapp n.engine ≡ true
        → 0 < length (b.recvapp_buf n.engine)
        → length (b.recvapp_buf n.engine) < in_buffer_size
        → (g' : Glue E) × (process b up sndbuf (suc (suc f)) n.address g ≡ some g')
          × (deref n.address g'.sessions ≡ none)
          × (g'.fault ≡ true)
    unfolding round tcp_ssl_free
    process-uses_freed f n g frees found apart listens open_engine has_data some_data fits =
        let received = b.recvapp_buf n.engine in
        let m = record n { engine = b.recvapp_ack n.engine } in
        let called_up = emit (called n.tcp (data_up received)) (store m g) in
        let (r, freed, absent) = unlink-update n.tcp n m g.sessions apart found refl in
        let g2 : Glue E = record called_up { sessions = r } in
        let step : round b up sndbuf n g ≡ again g2 =
          ground (arith, frees n.tcp received called_up, freed) in
        (
          use_freed g2,
          process-again (suc f) n.address n g g2 (deref-found n.tcp n g.sessions apart found) step
              ∙ process-gone f n.address g2 absent,
          absent,
          refl,
        )
