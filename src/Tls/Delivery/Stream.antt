-- ===== src/Tls/Delivery/Stream.antt =====
-- `tcp_ssl_read` as a whole: the stream that reaches the engine.
use espasync_tcp.Common.{
  ℕ, suc, ◌≤◌, ◌≡◌, refl, sym, ap, ◌∙◌, subst, Bool, false, not, Option, some, List, [], ◌∷◌, ◌++◌,
  append_assoc, arith, length, suffix-eq, option-found,
}
use espasync_tcp.Lwip.{Pcb}
use espasync_tcp.Tls.State.{
  Engine, Session, Glue, Effect, recved, freed_pbuf, emit, deref, store, accum_pos, max_feed_loops,
}
use espasync_tcp.Tls.Registry.{find_ssl_pcb}
use espasync_tcp.Tls.Process.{Upper, process}
use espasync_tcp.Tls.Progress.{Passive, Drains, fed_bytes, process-Kept, deref-store}
use espasync_tcp.Tls.Io.{copy_in, keep_left, drain, tcp_ssl_read, with_session, ◌>>=◌}
use espasync_tcp.Tls.Delivery.{copy_in-fits, feed-FedBy, with_accum}

module _ {E : Type 0} (b : Engine E) (up : Upper E) (sndbuf : List Effect → Pcb → ℕ)
    (fuel : ℕ) where
  -- The call ended, the session is still there, and what was fed in all, followed by what waits in
  -- the accumulator, is `stream`.
  abbrev pub Leads : ℕ → Pcb → List ℕ → Option (Bool × Glue E) → Type 0
  Leads a p stream o =
      (r : Bool × Glue E) × (n' : Session E) × (o ≡ some r)
      × (deref a r.1.sessions ≡ some n')
      × (fed_bytes p r.1.effects ++ n'.accum ≡ stream)

  relabel :
      (a : ℕ) (p q : Pcb) (xs ys : List ℕ) (o : Option (Bool × Glue E))
      → p ≡ q
      → xs ≡ ys
      → Leads a p xs o
      → Leads a q ys o
  relabel a p q xs ys o e f (r, n', ran, there, stream) = (
    r,
    n',
    ran,
    there,
    subst (λ (x : Pcb). fed_bytes x r.1.effects ++ n'.accum ≡ ys) e (stream ∙ f),
  )

  keep_left-fields :
      (pending left c : List ℕ) (n : Session E)
      → pending ≡ c ++ left
      → n.accum ≡ pending
      → ((keep_left b up sndbuf fuel pending left n).accum ≡ left)
        × ((keep_left b up sndbuf fuel pending left n).address ≡ n.address)
        × ((keep_left b up sndbuf fuel pending left n).tcp ≡ n.tcp)
  unfolding keep_left
  keep_left-fields pending left c n e h = ground (arith, suffix-eq c left pending e)

  -- the packet is copied in front of what waits
  Taken : List ℕ → Session E → Glue E → Type 0
  Taken bytes n g =
      (g1 : Glue E) × (copy_in b up sndbuf fuel (suc (length bytes)) n.address bytes g
        ≡ some ([], g1))
      × (deref n.address g1.sessions ≡ some (with_accum b up sndbuf fuel (bytes ++ n.accum) n))
      × (fed_bytes n.tcp g1.effects ≡ fed_bytes n.tcp g.effects)

  taken :
      (bytes : List ℕ) (n : Session E) (g : Glue E)
      → deref n.address g.sessions ≡ some n
      → length bytes ≤ accum_pos n
      → Taken bytes n g
  unfolding Taken copy_in
  taken [] n g h k = (g, refl, h, refl)
  taken (x ∷ xs) n g h k =
      let m = with_accum b up sndbuf fuel (x ∷ (xs ++ n.accum)) n in
      (
        store m g,
        copy_in-fits b up sndbuf fuel n.address (x ∷ xs) n g h (omega arith) k,
        deref-store n.address g n m h refl,
        refl,
      )

  module _ (passive : Passive up) (d : Drains b fuel) where
    -- the part of `drain` after feeding
    drain_rest : ℕ → List ℕ → List ℕ → Glue E → Option (Bool × Glue E)
    drain_rest a pending left = with_session a false (λ n1 g2.
        process b up sndbuf fuel a (store (keep_left b up sndbuf fuel pending left n1) g2)
        >>= with_session a false (λ n2 g3. some (not (b.closed n2.engine), g3)))

    drain_rest-Leads :
        (a : ℕ) (pending left c : List ℕ) (m : Session E) (g : Glue E)
        → deref a g.sessions ≡ some m
        → pending ≡ c ++ left
        → m.accum ≡ pending
        → Leads a m.tcp (fed_bytes m.tcp g.effects ++ left) (drain_rest a pending left g)
    unfolding drain_rest fed_bytes
    drain_rest-Leads a pending left c m g h e same =
        let m' = keep_left b up sndbuf fuel pending left m in
        let fields = keep_left-fields pending left c m e same in
        let there' = deref-store a g m m' h fields.1 in
        let (g', ran, kept) = process-Kept b up sndbuf passive fuel a d m' (store m' g) there' in
        let goal = Leads a m.tcp (fed_bytes m.tcp g.effects ++ left) in
        let same_fed =
          subst (λ (q : Pcb). fed_bytes q g'.effects ≡ fed_bytes q g.effects) fields.2 kept.4 in
        let same_accum = kept.2 ∙ fields.0 in
        option-found goal (deref a g.sessions) _ _ h (
          subst
            (λ (o : Option (Glue E)).
              goal (o >>= with_session a false (λ n2 g3. some (not (b.closed n2.engine), g3))))
            (sym ran)
            (option-found goal (deref a g'.sessions) _ _ kept.1 (
              (not (b.closed kept.0.engine), g'),
              kept.0,
              refl,
              kept.1,
              λ i. same_fed i ++ same_accum i,
            )))

    drain-Leads :
        (a : ℕ) (n : Session E) (g : Glue E)
        → deref a g.sessions ≡ some n
        → Leads a n.tcp (fed_bytes n.tcp g.effects ++ n.accum) (drain b up sndbuf fuel a g)
    unfolding drain drain_rest
    drain-Leads a n g h =
        let (r, ran, info) = feed-FedBy b up sndbuf fuel passive d max_feed_loops a n.accum n g h in
        let (c, m, split, there, same_accum, same_tcp, grew) = info in
        let goal = Leads a n.tcp (fed_bytes n.tcp g.effects ++ n.accum) in
        let rest = drain_rest-Leads a n.accum r.0 c m r.1 there split same_accum in
        option-found goal (deref a g.sessions) _ _ h (
          subst
            (λ (o : Option (List ℕ × Glue E)).
              goal (o >>= (λ (left, g1). drain_rest a n.accum left g1)))
            (sym ran)
            (relabel a m.tcp n.tcp (fed_bytes m.tcp r.1.effects ++ r.0) _ _ same_tcp
              (ap (λ (q : Pcb). fed_bytes q r.1.effects ++ r.0) same_tcp
                ∙ ap (λ (bytes : List ℕ). bytes ++ r.0) grew
                ∙ append_assoc (fed_bytes n.tcp g.effects) c r.0
                ∙ ap (λ (bytes : List ℕ). fed_bytes n.tcp g.effects ++ bytes) (sym split))
              rest))

    -- A packet that fits into the room of the accumulator is taken in whole, and the call ends.
    -- Everything that the engine was fed from the start, followed by what the accumulator holds, is
    -- what it was fed before, followed by this packet and then by the bytes that waited before it.
    -- The callbacks leave the glue alone, and the fuel bounds the work that the engine can hold.
    pub tcp_ssl_read-Leads :
        (p : Pcb) (bytes : List ℕ) (n : Session E) (g : Glue E)
        → find_ssl_pcb p g.sessions ≡ some n
        → deref n.address g.sessions ≡ some n
        → length bytes ≤ accum_pos n
        → Leads n.address n.tcp
            (fed_bytes n.tcp g.effects ++ (bytes ++ n.accum))
            (tcp_ssl_read b up sndbuf fuel p bytes g)
    unfolding tcp_ssl_read fed_bytes Taken
    tcp_ssl_read-Leads p bytes n g f h k =
        let (g1, ran, there, same_fed) = taken bytes n g h k in
        let g2 = emit freed_pbuf (emit (recved p bytes) g1) in
        let m = with_accum b up sndbuf fuel (bytes ++ n.accum) n in
        let goal = Leads n.address n.tcp (fed_bytes n.tcp g.effects ++ (bytes ++ n.accum)) in
        option-found goal (find_ssl_pcb p g.sessions) _ _ f (
          subst
            (λ (o : Option (List ℕ × Glue E)). goal (
              o >>= (λ (left, g1). elim left [
                | [] ↦ drain b up sndbuf fuel n.address (emit freed_pbuf (emit (recved p bytes) g1))
                | x ∷ xs ↦ some (false, emit freed_pbuf g1)
              ])))
            (sym ran)
            (relabel n.address n.tcp n.tcp _ _ _ refl
              (ap (λ (fed_before : List ℕ). fed_before ++ (bytes ++ n.accum)) same_fed)
              (drain-Leads n.address m g2 there)))
