-- ===== src/Tls/Registry/Freeing.antt =====
-- What `tcp_ssl_free` does to the list of sessions.
use espasync_tcp.Common.{
  ◌≡◌, ◌≢◌, refl, Bool, true, false, Option, none, some, List, [], ◌∷◌, arith, ◌==◌, is_some,
  if-split, subst, ◌∙◌,
}
use espasync_tcp.Lwip.{Pcb}
use espasync_tcp.Tls.State.{Session, Glue}
use espasync_tcp.Tls.Registry.{find_ssl_pcb, unlink, tcp_ssl_free, tcp_ssl_has}

module _ {E : Type 0} where
  -- No two sessions belong to one pcb.
  abbrev pub Distinct : List (Session E) → Type 0
  Distinct [] = Unit {0}
  Distinct (n ∷ ns) = (find_ssl_pcb n.tcp ns ≡ none) × Distinct ns

  -- what `unlink` leaves of `ns`
  abbrev pub Unlinked : Pcb → List (Session E) → Option (List (Session E)) → Type 0
  Unlinked p ns none = find_ssl_pcb p ns ≡ none
  Unlinked p ns (some r) =
      (is_some (find_ssl_pcb p ns) ≡ true)
      × (find_ssl_pcb p r ≡ none)
      × ((q : Pcb) → q ≢ p → find_ssl_pcb q r ≡ find_ssl_pcb q ns)
      × Distinct r

  Unlinked-here :
      (p : Pcb) (n : Session E) (ns : List (Session E))
      → Distinct (n ∷ ns)
      → (n.tcp == p) ≡ true
      → Unlinked p (n ∷ ns) (some ns)
  unfolding find_ssl_pcb
  Unlinked-here p n ns h hit =
      let same : n.tcp ≡ p = ground arith in
      (
        ground arith,
        subst (λ (q : Pcb). find_ssl_pcb q ns ≡ none) same h.0,
        λ q ne. ground arith,
        h.1,
      )

  Unlinked-later :
      (p : Pcb) (n : Session E) (ns : List (Session E))
      → Distinct (n ∷ ns)
      → (o : Option (List (Session E))) → Unlinked p ns o
      → (n.tcp == p) ≡ false
      → Unlinked p (n ∷ ns) (elim o [ none ↦ none | some r ↦ some (n ∷ r) ])
  unfolding find_ssl_pcb
  Unlinked-later p n ns h none u miss = ground arith
  Unlinked-later p n ns h (some r) (found, gone, others, distinct) miss =
      let ne : n.tcp ≢ p = ground arith in
      (
        ground arith,
        ground arith,
        λ q q_ne. ground (arith, others q q_ne),
        (others n.tcp ne ∙ h.0, distinct),
      )

  unlink-Unlinked : (p : Pcb) (ns : List (Session E)) → Distinct ns → Unlinked p ns (unlink p ns)
  unfolding unlink find_ssl_pcb
  unlink-Unlinked p [] h = refl
  unlink-Unlinked p (n ∷ ns) h =
      if-split (Unlinked p (n ∷ ns)) (n.tcp == p) (Unlinked-here p n ns h)
        (Unlinked-later p n ns h (unlink p ns) (unlink-Unlinked p ns h.1))

  -- In a list without two sessions of one pcb, `tcp_ssl_free` succeeds just when the pcb has a
  -- session; then it has none any more, every other pcb finds the session that it found before, and
  -- the list still has no two sessions of one pcb. Where it fails nothing changes.
  pub tcp_ssl_free-frees :
      (p : Pcb) (g : Glue E)
      → Distinct g.sessions
      → let (freed, g') = tcp_ssl_free p g in
        (freed ≡ tcp_ssl_has p g)
        × (tcp_ssl_has p g' ≡ false)
        × ((q : Pcb) → q ≢ p → find_ssl_pcb q g'.sessions ≡ find_ssl_pcb q g.sessions)
        × Distinct g'.sessions
        × (freed ≡ false → g' ≡ g)
  unfolding tcp_ssl_free tcp_ssl_has
  tcp_ssl_free-frees p g h = go (unlink p g.sessions) (unlink-Unlinked p g.sessions h)
    where
      go :
          (o : Option (List (Session E)))
          → Unlinked p g.sessions o
          → let r : Bool × Glue E = elim o [
            | none ↦ (false, g)
            | some r ↦ (true, record g { sessions = r })
          ] in
            (r.0 ≡ is_some (find_ssl_pcb p g.sessions))
            × (is_some (find_ssl_pcb p r.1.sessions) ≡ false)
            × ((q : Pcb) → q ≢ p → find_ssl_pcb q r.1.sessions ≡ find_ssl_pcb q g.sessions)
            × Distinct r.1.sessions
            × (r.0 ≡ false → r.1 ≡ g)
      go none u = (ground arith, ground arith, λ q ne. refl, h, λ _. refl)
      go (some r) (found, gone, others, distinct) =
          (ground arith, ground arith, others, distinct, λ e. cc)
