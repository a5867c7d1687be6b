-- ===== src/Tls/Plaintext/Reading.antt =====
-- `tcp_ssl_read`: the plaintext of the packets that it is given.
use espasync_tcp.Common.{
  ◌⊎◌, inl, inr, Bool-cases, refl, Option, ℕ, suc, ◌≤◌, ◌≡◌, sym, ap, ◌∙◌, subst, Bool, true, false,
  not, some, List, [], ◌∷◌, ◌++◌, arith, length, option-found,
}
use espasync_tcp.Lwip.{Pcb}
use espasync_tcp.Tls.State.{
  Engine, Session, Glue, Effect, recved, freed_pbuf, emit, deref, store, accum_pos, max_feed_loops,
}
use espasync_tcp.Tls.Registry.{find_ssl_pcb}
use espasync_tcp.Tls.Process.{Upper}
use espasync_tcp.Tls.Progress.{Passive, Drains, fed_bytes, deref-address, deref-store}
use espasync_tcp.Tls.Io.{◌>>=◌, copy_in, feed, keep_left, drain, tcp_ssl_read, with_session}
use espasync_tcp.Tls.Delivery.{copy_in-fits}
use espasync_tcp.Tls.Delivery.Stream.{tcp_ssl_read-Leads}
use espasync_tcp.Tls.Plaintext.Loops.{Leaves, after_process, then_Leaves, copy_in-Along, feed-Along}
use espasync_tcp.Tls.Plaintext.{Decrypts, handed, Tracks, Follows, Rests}

module _ {E : Type 0} (b : Engine E) (up : Upper E) (sndbuf : List Effect → Pcb → ℕ) (fuel : ℕ)
    (passive : Passive up) (dec : Decrypts b) (a : ℕ) (p : Pcb) (c0 t0 : List ℕ) where
  abbrev Along : Glue E → Type 0
  Along = Follows b up sndbuf passive dec a p c0 t0

  abbrev Resting : Glue E → Type 0
  Resting = Rests b up sndbuf passive dec a p c0 t0

  abbrev OnWay : List ℕ → Glue E → Type 0
  OnWay left g = Along g

  -- The call follows the session. It returned 0 if the engine is open, and then what was handed is the
  -- plaintext of what was fed.
  abbrev pub Handed : Bool → Glue E → Type 0
  Handed ok g =
      (n : Session E) × (deref a g.sessions ≡ some n)
      × Tracks b up sndbuf passive dec a p c0 t0 n g
      × (ok ≡ not (b.closed n.engine))
      × (ok ≡ true → dec.opened (c0 ++ fed_bytes p g.effects) ≡ t0 ++ handed p g.effects)

  closing-Handed :
      (g : Glue E)
      → Resting g
      → Leaves b up sndbuf fuel passive dec a p c0 t0 Handed
          (with_session a false (λ n g1. some (not (b.closed n.engine), g1)) g)
  closing-Handed g (n, h, (same, listens, eaten, out), rest) =
      option-found (Leaves b up sndbuf fuel passive dec a p c0 t0 Handed) (deref a g.sessions) _ _ h
        (
          n,
          h,
          (same, listens, eaten, out),
          refl,
          λ ok.
              let open_engine : b.closed n.engine ≡ false = ground (arith, ok) in
              ap dec.opened (sym eaten)
              ∙ dec.all_given n.engine open_engine (rest open_engine)
              ∙ out,
        )

  keep_left-same :
      (pending left : List ℕ) (n : Session E)
      → ((keep_left b up sndbuf fuel pending left n).address ≡ n.address)
        × ((keep_left b up sndbuf fuel pending left n).tcp ≡ n.tcp)
        × ((keep_left b up sndbuf fuel pending left n).on_data ≡ n.on_data)
        × ((keep_left b up sndbuf fuel pending left n).engine ≡ n.engine)
  unfolding keep_left
  keep_left-same pending left n = (ground arith, ground arith, ground arith, ground arith)

  drain-Handed :
      (g : Glue E)
      → Along g
      → Leaves b up sndbuf fuel passive dec a p c0 t0 Handed (drain b up sndbuf fuel a g)
  unfolding drain
  drain-Handed g (n, h, t) =
      option-found (Leaves b up sndbuf fuel passive dec a p c0 t0 Handed) (deref a g.sessions) _ _ h
        (then_Leaves b up sndbuf fuel passive dec a p c0 t0 OnWay Handed
          (feed b up sndbuf fuel max_feed_loops a n.accum g) _
          (feed-Along b up sndbuf fuel passive dec a p c0 t0 max_feed_loops n.accum g (n, h, t))
          (λ left g1 (n1, h1, (same, listens, eaten, out)).
            let m = keep_left b up sndbuf fuel n.accum left n1 in
            let (at_a, same_tcp, same_data, same_engine) = keep_left-same n.accum left n1 in
            option-found (Leaves b up sndbuf fuel passive dec a p c0 t0 Handed)
              (deref a g1.sessions) _ _ h1
              (after_process b up sndbuf fuel passive dec a p c0 t0 Handed _ (store m g1)
                (
                  m,
                  deref-store a g1 n1 m h1 at_a,
                  (
                    same_tcp ∙ same,
                    same_data ∙ listens,
                    ap dec.consumed same_engine ∙ eaten,
                    ap dec.given same_engine ∙ out,
                  ),
                )
                closing-Handed)))

  all_copied :
      (bytes : List ℕ) (n : Session E) (g : Glue E)
      → deref n.address g.sessions ≡ some n
      → length bytes ≤ accum_pos n
      → (g1 : Glue E) × (copy_in b up sndbuf fuel (suc (length bytes)) n.address bytes g
          ≡ some ([], g1))
  unfolding copy_in
  all_copied [] n g h fits = (g, refl)
  all_copied (x ∷ xs) n g h fits =
      (_, copy_in-fits b up sndbuf fuel n.address (x ∷ xs) n g h (omega arith) fits)

  -- `tcp_ssl_read` of a packet that fits, on the session at its address
  tcp_ssl_read-Handed :
      (bytes : List ℕ) (n : Session E) (g : Glue E)
      → n.address ≡ a
      → find_ssl_pcb p g.sessions ≡ some n
      → deref n.address g.sessions ≡ some n
      → length bytes ≤ accum_pos n
      → Tracks b up sndbuf passive dec a p c0 t0 n g
      → Leaves b up sndbuf fuel passive dec a p c0 t0 Handed
          (tcp_ssl_read b up sndbuf fuel p bytes g)
  unfolding tcp_ssl_read fed_bytes handed
  tcp_ssl_read-Handed bytes n g at_a found h fits t =
      let (g1, ran) = all_copied bytes n g h fits in
      let here = subst (λ (x : ℕ). deref x g.sessions ≡ some n) at_a h in
      let along : Along g1 =
        subst (Leaves b up sndbuf fuel passive dec a p c0 t0 OnWay)
          (subst
            (λ (x : ℕ). copy_in b up sndbuf fuel (suc (length bytes)) x bytes g ≡ some ([], g1))
            at_a ran)
          (copy_in-Along b up sndbuf fuel passive dec a p c0 t0 (suc (length bytes)) bytes g
            (n, here, t)) in
      let goal = Leaves b up sndbuf fuel passive dec a p c0 t0 Handed in
      option-found goal (find_ssl_pcb p g.sessions) _ _ found (
        subst
          (λ (o : Option (List ℕ × Glue E)). goal (
            o >>= (λ (left, g2). elim left [
              | [] ↦ drain b up sndbuf fuel n.address (emit freed_pbuf (emit (recved p bytes) g2))
              | x ∷ xs ↦ some (false, emit freed_pbuf g2)
            ])))
          (sym ran)
          (subst
            (λ (x : ℕ).
              goal (drain b up sndbuf fuel x (emit freed_pbuf (emit (recved p bytes) g1))))
            (sym at_a) (drain-Handed (emit freed_pbuf (emit (recved p bytes) g1)) along)))

  module _ (d : Drains b fuel) where
    -- The engine decrypts, the fuel bounds what it can hold, and the callbacks leave the glue alone.
    -- On a session of `p` with a data callback, where since `c0` and `t0` the engine consumed what it was
    -- fed and what it gave out was handed to that callback, `tcp_ssl_read` of a packet that fits into the room of the
    -- accumulator ends. What the engine was fed, followed by the accumulator, is what it was fed before,
    -- then this packet and then the bytes that waited; the engine consumed what it was fed, and what it
    -- gave out was handed to the data callback, in order. The call returns 0 just when the engine is
    -- open, and then what was handed is the plaintext of what was fed.
    pub tcp_ssl_read-plaintext :
        (bytes : List ℕ) (n : Session E) (g : Glue E)
        → find_ssl_pcb p g.sessions ≡ some n
        → deref a g.sessions ≡ some n
        → length bytes ≤ accum_pos n
        → Tracks b up sndbuf passive dec a p c0 t0 n g
        → (ok : Bool) × (g' : Glue E) × (n' : Session E) × (tcp_ssl_read b up sndbuf fuel p bytes g
            ≡ some (ok, g'))
          × (deref a g'.sessions ≡ some n')
          × (fed_bytes p g'.effects ++ n'.accum ≡ fed_bytes p g.effects ++ (bytes ++ n.accum))
          × (dec.consumed n'.engine ≡ c0 ++ fed_bytes p g'.effects)
          × (dec.given n'.engine ≡ t0 ++ handed p g'.effects)
          × (ok ≡ not (b.closed n'.engine))
          × ((ok ≡ false) ⊎ (dec.opened (c0 ++ fed_bytes p g'.effects) ≡ t0 ++ handed p g'.effects))
    tcp_ssl_read-plaintext bytes n g found h fits t =
        let at_a = deref-address a g.sessions n h in
        let there = subst (λ (x : ℕ). deref x g.sessions ≡ some n) (sym at_a) h in
        let ((ok, g'), n', ran, h', stream) =
          tcp_ssl_read-Leads b up sndbuf fuel passive d p bytes n g found there fits in
        let (m, there_m, (same, listens, eaten, out), opens, full) =
          subst (Leaves b up sndbuf fuel passive dec a p c0 t0 Handed) ran
            (tcp_ssl_read-Handed bytes n g at_a found there fits t) in
        let found_n' : deref a g'.sessions ≡ some n' =
          subst (λ (x : ℕ). deref x g'.sessions ≡ some n') at_a h' in
        let m_n' : m ≡ n' = cc in
        (
          ok,
          g',
          n',
          ran,
          found_n',
          subst
              (λ (q : Pcb).
                fed_bytes q g'.effects ++ n'.accum ≡ fed_bytes q g.effects ++ (bytes ++ n.accum))
              (t.0) stream,
          ap (λ (x : Session E). dec.consumed x.engine) (sym m_n') ∙ eaten,
          ap (λ (x : Session E). dec.given x.engine) (sym m_n') ∙ out,
          opens ∙ ap (λ (x : Session E). not (b.closed x.engine)) m_n',
          elim (Bool-cases ok) [ inl yes_ok ↦ inr (full yes_ok) | inr not_ok ↦ inl not_ok ],
        )
