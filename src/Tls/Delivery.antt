-- ===== src/Tls/Delivery.antt =====
-- The loops of `tcp_ssl_read`: what they copy and feed, and in which order.
pub mod Stream
pub mod Overflow
use espasync_tcp.Common.{
  ℕ, zero, suc, ◌+◌, ◌-◌, ◌≤◌, ◌<◌, ◌≡◌, ◌≢◌, refl, sym, ap, ◌∙◌, subst, Bool, true, false, not,
  Option, none, some, List, [], ◌∷◌, ◌++◌, append_assoc, append-nil, arith, if◌then◌else◌, ltb, leb,
  ◌==◌, length, take, drop, length-append, length-take, length-drop, take-length, drop-length,
  take-append-drop, suffix-eq, bool-both, option-found,
}
use espasync_tcp.Lwip.{Pcb}
use espasync_tcp.Tls.State.{
  Engine, Session, Glue, Effect, fed, recved, freed_pbuf, emit, deref, store, accum_pos,
  in_buffer_size, max_feed_loops,
}
use espasync_tcp.Tls.Registry.{find_ssl_pcb}
use espasync_tcp.Tls.Process.{Upper, process}
use espasync_tcp.Tls.Progress.{
  Passive, Drains, Kept, fed_bytes, process-Kept, deref-address, deref-store,
}
use espasync_tcp.Tls.Io.{
  copy_in, copy_on, copy_once, feed, feed_on, feed_retry, feed_once, keep_left, drain, tcp_ssl_read,
  with_session, ◌>>=◌,
}

pub ==-refl : (n : ℕ) → (n == n) ≡ true
==-refl n = ground arith

module _ {E : Type 0} (b : Engine E) (up : Upper E) (sndbuf : List Effect → Pcb → ℕ)
    (fuel : ℕ) where
  abbrev pub with_accum : List ℕ → Session E → Session E
  with_accum bytes n = record n { accum = bytes }

  pub copy_once-fits :
      (bytes : List ℕ) (n : Session E) (g : Glue E)
      → length bytes ≤ accum_pos n
      → copy_once b up sndbuf fuel bytes n g ≡ ([], store (with_accum (bytes ++ n.accum) n) g)
  unfolding copy_once
  copy_once-fits bytes n g h = ground (arith, take-length bytes, drop-length bytes)

  pub copy_in-fits :
      (a : ℕ) (bytes : List ℕ) (n : Session E) (g : Glue E)
      → deref a g.sessions ≡ some n
      → 0 < length bytes
      → length bytes ≤ accum_pos n
      → copy_in b up sndbuf fuel (suc (length bytes)) a bytes g
        ≡ some ([], store (with_accum (bytes ++ n.accum) n) g)
  unfolding copy_in
  copy_in-fits a [] n g h l k = absurd (omega arith)
  copy_in-fits a (x ∷ xs) n g h l k = ground (arith, copy_once-fits (x ∷ xs) n g k)

  -- Part `c` of the pending bytes was fed, in order; `left` is the rest.
  abbrev pub Fed : ℕ → Session E → List ℕ → Glue E → List ℕ × Glue E → Type 0
  Fed a n pending g r =
      (c : List ℕ) × (n' : Session E) × (pending ≡ c ++ r.0)
      × (deref a r.1.sessions ≡ some n')
      × (n'.accum ≡ n.accum)
      × (n'.tcp ≡ n.tcp)
      × (fed_bytes n.tcp r.1.effects ≡ fed_bytes n.tcp g.effects ++ c)

  feed_once-Fed :
      (a : ℕ) (pending : List ℕ) (n : Session E) (g : Glue E)
      → deref a g.sessions ≡ some n
      → Fed a n pending g (feed_once b up sndbuf fuel pending n g)
  unfolding feed_once fed_bytes
  feed_once-Fed a pending n g h =
      let room = b.recvrec_room n.engine in
      let k : ℕ = if ltb (length pending) room then length pending else room in
      let m = record n { engine = b.recvrec_put (take k pending) n.engine } in
      (
        take k pending,
        m,
        sym (take-append-drop k pending),
        deref-store a g n m h refl,
        refl,
        refl,
        rw (==-refl n.tcp),
      )

  -- the loop ran, and the result is `Fed`
  abbrev pub FedBy : ℕ → Session E → List ℕ → Glue E → Option (List ℕ × Glue E) → Type 0
  FedBy a n pending g o = (r : List ℕ × Glue E) × (o ≡ some r) × Fed a n pending g r

  -- what the later rounds of the loop are known to do
  abbrev Feeds : ℕ → (List ℕ → Glue E → Option (List ℕ × Glue E)) → Type 0
  Feeds a next =
      (pending : List ℕ) (n : Session E) (g : Glue E)
      → deref a g.sessions ≡ some n
      → FedBy a n pending g (next pending g)

  nothing_fed :
      (a : ℕ) (pending : List ℕ) (n : Session E) (g : Glue E)
      → deref a g.sessions ≡ some n
      → FedBy a n pending g (some (pending, g))
  nothing_fed a pending n g h =
      ((pending, g), refl, ([], n, refl, h, refl, refl, sym (append-nil _)))

  feed_on-FedBy :
      (a : ℕ) (next : List ℕ → Glue E → Option (List ℕ × Glue E)) (pending : List ℕ) (n : Session E)
      (g : Glue E)
      → Feeds a next
      → deref a g.sessions ≡ some n
      → FedBy a n pending g (feed_on b up sndbuf fuel next pending n g)
  unfolding feed_on
  feed_on-FedBy a next pending n g later h =
      let first = feed_once b up sndbuf fuel pending n g in
      let (c, m, split, there, same_accum, same_tcp, grew) = feed_once-Fed a pending n g h in
      let (r, ran, (c', m', split', there', same_accum', same_tcp', grew')) =
        later first.0 m first.1 there in
      (
        r,
        ran,
        (
          c ++ c',
          m',
          split ∙ ap (◌++◌ c) split' ∙ sym (append_assoc c c' r.0),
          there',
          same_accum' ∙ same_accum,
          same_tcp' ∙ same_tcp,
          subst (λ (q : Pcb). fed_bytes q r.1.effects ≡ fed_bytes q first.1.effects ++ c') same_tcp
                grew'
              ∙ ap (λ (bytes : List ℕ). bytes ++ c') grew
              ∙ append_assoc (fed_bytes n.tcp g.effects) c c',
        ),
      )

  feed_retry-FedBy :
      (a : ℕ) (next : List ℕ → Glue E → Option (List ℕ × Glue E)) (pending : List ℕ) (n : Session E)
      (g : Glue E)
      → Feeds a next
      → deref a g.sessions ≡ some n
      → FedBy a n pending g (feed_retry b up sndbuf fuel next a pending g)
  unfolding feed_retry
  feed_retry-FedBy a next pending n g later h =
      option-found (FedBy a n pending g) (deref a g.sessions) _ _ h (
        bool-both (FedBy a n pending g) (b.recvrec_room n.engine == 0) (nothing_fed a pending n g h)
          (feed_on-FedBy a next pending n g later h))

  rebase :
      (a : ℕ) (pending : List ℕ) (n : Session E) (g g' : Glue E) (o : Option (List ℕ × Glue E))
      (kept : Kept a n g g')
      → FedBy a kept.0 pending g' o
      → FedBy a n pending g o
  rebase a pending n g g' o (m, there, same_accum, same_tcp, same_fed)
        (r, ran, (c, m', split, there', same_accum', same_tcp', grew)) =
      (
        r,
        ran,
        (
          c,
          m',
          split,
          there',
          same_accum' ∙ same_accum,
          same_tcp' ∙ same_tcp,
          subst (λ (q : Pcb). fed_bytes q r.1.effects ≡ fed_bytes q g'.effects ++ c) same_tcp grew
              ∙ ap (λ (bytes : List ℕ). bytes ++ c) same_fed,
        ),
      )

  module _ (passive : Passive up) (d : Drains b fuel) where
    pub feed-FedBy :
        (k a : ℕ) (pending : List ℕ) (n : Session E) (g : Glue E)
        → deref a g.sessions ≡ some n
        → FedBy a n pending g (feed b up sndbuf fuel k a pending g)
    unfolding feed
    feed-FedBy zero a pending n g h = nothing_fed a pending n g h
    feed-FedBy (suc k) a [] n g h = nothing_fed a [] n g h
    feed-FedBy (suc k) a (x ∷ xs) n g h =
        option-found (FedBy a n (x ∷ xs) g) (deref a g.sessions) _ _ h (
          bool-both (FedBy a n (x ∷ xs) g) (b.recvrec_room n.engine == 0)
            (after_process (feed-FedBy k a) (process-Kept b up sndbuf passive fuel a d n g h))
            (feed_on-FedBy a (feed b up sndbuf fuel k a) (x ∷ xs) n g (feed-FedBy k a) h))
      where
        after_process :
            Feeds a (feed b up sndbuf fuel k a)
            → ((g' : Glue E) × (process b up sndbuf fuel a g ≡ some g') × Kept a n g g')
            → FedBy a n (x ∷ xs) g (
                process b up sndbuf fuel a g
                >>= feed_retry b up sndbuf fuel (feed b up sndbuf fuel k a) a (x ∷ xs))
        after_process later (g', ran, kept) =
            subst
              (λ (o : Option (Glue E)).
                FedBy a n (x ∷ xs) g
                  (o >>= feed_retry b up sndbuf fuel (feed b up sndbuf fuel k a) a (x ∷ xs)))
              (sym ran)
              (rebase a (x ∷ xs) n g g' _ kept
                (feed_retry-FedBy a (feed b up sndbuf fuel k a) (x ∷ xs) kept.0 g' later kept.1))
