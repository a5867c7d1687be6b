-- ===== src/Tls/Delivery/Overflow.antt =====
-- `tcp_ssl_read` on a packet that does not fit into the accumulator.
use espasync_tcp.Common.{
  ℕ, suc, ◌-◌, ◌<◌, ◌≡◌, refl, sym, ap, ◌∙◌, subst, Bool, true, false, Option, some, List, [], ◌∷◌,
  ◌++◌, arith, if◌then◌else◌, ltb, ◌==◌, length, length-append, length-take, length-drop, take,
  drop, option-found, Bool-cases, inl, inr,
}
use espasync_tcp.Lwip.{Pcb}
use espasync_tcp.Tls.State.{
  Engine, Session, Glue, Effect, freed_pbuf, recved, emit, deref, store, accum_pos, in_buffer_size,
}
use espasync_tcp.Tls.Registry.{find_ssl_pcb}
use espasync_tcp.Tls.Process.{Upper, process}
use espasync_tcp.Tls.Progress.{Passive, Drains, fed_bytes, process-Kept, deref-store}
use espasync_tcp.Tls.Io.{copy_in, copy_on, copy_retry, copy_once, drain, tcp_ssl_read, ◌>>=◌}

eq-zero : (k : ℕ) → k ≡ 0 → (k == 0) ≡ true
eq-zero k e = ground arith

module _ {E : Type 0} (b : Engine E) (up : Upper E) (sndbuf : List Effect → Pcb → ℕ) (fuel : ℕ)
    (passive : Passive up) (d : Drains b fuel) where
  -- The loop ended with bytes left, and nothing was fed.
  abbrev Stuck : ℕ → Session E → Glue E → Option (List ℕ × Glue E) → Type 0
  Stuck a n g o =
      (r : List ℕ × Glue E) × (o ≡ some r)
      × (0 < length r.0)
      × (fed_bytes n.tcp r.1.effects ≡ fed_bytes n.tcp g.effects)

  retry-Stuck :
      (a : ℕ) (next : List ℕ → Glue E → Option (List ℕ × Glue E)) (left : List ℕ) (n m : Session E)
      (g g' : Glue E)
      → 0 < length left
      → deref a g'.sessions ≡ some m
      → accum_pos m ≡ 0
      → fed_bytes n.tcp g'.effects ≡ fed_bytes n.tcp g.effects
      → Stuck a n g (copy_retry b up sndbuf fuel next a left g')
  unfolding copy_retry
  retry-Stuck a next left n m g g' l there z same_fed =
      option-found (Stuck a n g) (deref a g'.sessions) _ _ there (
        subst
          (λ (t : Bool).
            Stuck a n g
              (elim t [ true ↦ some (left, g') | false ↦ copy_on b up sndbuf fuel next left m g' ]))
          (sym (eq-zero _ z)) ((left, g'), refl, l, same_fed))

  copy_in-full :
      (f a : ℕ) (left : List ℕ) (n : Session E) (g : Glue E)
      → deref a g.sessions ≡ some n
      → 0 < length left
      → accum_pos n ≡ 0
      → Stuck a n g (copy_in b up sndbuf fuel (suc f) a left g)
  unfolding copy_in
  copy_in-full f a [] n g h l z = absurd (omega arith)
  copy_in-full f a (x ∷ xs) n g h l z =
      let (g', ran, kept) = process-Kept b up sndbuf passive fuel a d n g h in
      let next = copy_in b up sndbuf fuel f a in
      option-found (Stuck a n g) (deref a g.sessions) _ _ h (
        subst
          (λ (t : Bool). Stuck a n g (elim t [
            | true ↦ process b up sndbuf fuel a g >>= copy_retry b up sndbuf fuel next a (x ∷ xs)
            | false ↦ copy_on b up sndbuf fuel next (x ∷ xs) n g
          ]))
          (sym (eq-zero _ z))
          (subst
            (λ (o : Option (Glue E)).
              Stuck a n g (o >>= copy_retry b up sndbuf fuel next a (x ∷ xs)))
            (sym ran)
            (retry-Stuck a next (x ∷ xs) n kept.0 g g' l kept.1
              (ap (λ (bytes : List ℕ). in_buffer_size - length bytes) kept.2 ∙ z) kept.4)))

  pos_of_ne : (n : Session E) → (accum_pos n == 0) ≡ false → 0 < accum_pos n
  pos_of_ne n h = ground arith

  copy_in-overflow :
      (a : ℕ) (bytes : List ℕ) (n : Session E) (g : Glue E)
      → deref a g.sessions ≡ some n
      → accum_pos n < length bytes
      → Stuck a n g (copy_in b up sndbuf fuel (suc (length bytes)) a bytes g)
  unfolding copy_in copy_on copy_once
  copy_in-overflow a [] n g h l = absurd (omega arith)
  copy_in-overflow a (x ∷ xs) n g h l = elim (Bool-cases (accum_pos n == 0)) [
    | inl full ↦ copy_in-full (length (x ∷ xs)) a (x ∷ xs) n g h (omega arith) (ground arith)
    | inr roomy ↦
        let next = copy_in b up sndbuf fuel (length (x ∷ xs)) a in
        let k : ℕ = if ltb (length (x ∷ xs)) (accum_pos n) then length (x ∷ xs) else accum_pos n in
        let k-eq : k ≡ accum_pos n = ground arith in
        let m = record n { accum = take k (x ∷ xs) ++ n.accum } in
        option-found (Stuck a n g) (deref a g.sessions) _ _ h (
          subst
            (λ (t : Bool). Stuck a n g (elim t [
              | true ↦ process b up sndbuf fuel a g >>= copy_retry b up sndbuf fuel next a (x ∷ xs)
              | false ↦ copy_on b up sndbuf fuel next (x ∷ xs) n g
            ]))
            (sym roomy)
            (copy_in-full (length xs) a (drop k (x ∷ xs)) m (store m g) (deref-store a g n m h refl)
              (omega (arith, length-drop k (x ∷ xs), k-eq))
              (omega (
                arith,
                length-append (take k (x ∷ xs)) n.accum,
                length-take k (x ∷ xs),
                k-eq,
                pos_of_ne n roomy,
              ))))
  ]

  -- what `tcp_ssl_read` does after the copy
  after : ℕ → Pcb → List ℕ → List ℕ × Glue E → Option (Bool × Glue E)
  after a p bytes (left, g1) = elim left [
    | [] ↦ drain b up sndbuf fuel a (emit freed_pbuf (emit (recved p bytes) g1))
    | x ∷ xs ↦ some (false, emit freed_pbuf g1)
  ]

  given_up :
      (a : ℕ) (p q : Pcb) (bytes left before : List ℕ) (g : Glue E)
      → 0 < length left
      → fed_bytes q g.effects ≡ before
      → (g' : Glue E) × (after a p bytes (left, g) ≡ some (false, g'))
        × (fed_bytes q g'.effects ≡ before)
  unfolding after fed_bytes
  given_up a p q bytes [] before g l e = absurd (omega arith)
  given_up a p q bytes (x ∷ xs) before g l e = (emit freed_pbuf g, refl, e)

  -- A packet with more bytes than there is room in the accumulator is given up: `tcp_ssl_read`
  -- returns -1, for which the client closes the connection, and feeds nothing to the engine, even
  -- where the engine could take all of it. The callbacks leave the glue alone, and the fuel bounds the
  -- engine's work.
  pub tcp_ssl_read-overflow :
      (p : Pcb) (bytes : List ℕ) (n : Session E) (g : Glue E)
      → find_ssl_pcb p g.sessions ≡ some n
      → deref n.address g.sessions ≡ some n
      → accum_pos n < length bytes
      → (g' : Glue E) × (tcp_ssl_read b up sndbuf fuel p bytes g ≡ some (false, g'))
        × (fed_bytes n.tcp g'.effects ≡ fed_bytes n.tcp g.effects)
  unfolding tcp_ssl_read fed_bytes after
  tcp_ssl_read-overflow p bytes n g f h l =
      let (r, ran, more, same_fed) = copy_in-overflow n.address bytes n g h l in
      let goal = λ (o : Option (Bool × Glue E)).
        (g' : Glue E) × (o ≡ some (false, g'))
        × (fed_bytes n.tcp g'.effects ≡ fed_bytes n.tcp g.effects) in
      option-found goal (find_ssl_pcb p g.sessions) _ _ f (
        subst (λ (o : Option (List ℕ × Glue E)). goal (o >>= after n.address p bytes)) (sym ran)
          (given_up n.address p n.tcp bytes r.0 (fed_bytes n.tcp g.effects) r.1 more same_fed))
