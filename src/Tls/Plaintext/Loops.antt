-- ===== src/Tls/Plaintext/Loops.antt =====
-- The loops of `tcp_ssl_read`, and the plaintext of what they feed.
use espasync_tcp.Common.{
  ℕ, zero, suc, ◌≤◌, ◌≡◌, refl, sym, ap, ◌∙◌, Bool, true, Option, none, some, List, [], ◌∷◌, ◌++◌,
  append_assoc, arith, if◌then◌else◌, ltb, ◌==◌, length, take, length-take, bool-both, option-found,
}
use espasync_tcp.Lwip.{Pcb}
use espasync_tcp.Tls.State.{Engine, Session, Glue, Effect, deref, accum_pos}
use espasync_tcp.Tls.Process.{Upper, process}
use espasync_tcp.Tls.Progress.{Passive, fed_bytes, deref-store}
use espasync_tcp.Tls.Io.{
  copy_in, copy_on, copy_once, copy_retry, feed, feed_on, feed_retry, feed_once, ◌>>=◌,
}
use espasync_tcp.Tls.Plaintext.{Decrypts, handed, Tracks, Follows, Rests, Ends, process-Rests}

module _ {E : Type 0} (b : Engine E) (up : Upper E) (sndbuf : List Effect → Pcb → ℕ) (fuel : ℕ)
    (passive : Passive up) (dec : Decrypts b) (a : ℕ) (p : Pcb) (c0 t0 : List ℕ) where
  abbrev Along : Glue E → Type 0
  Along = Follows b up sndbuf passive dec a p c0 t0

  abbrev Resting : Glue E → Type 0
  Resting = Rests b up sndbuf passive dec a p c0 t0

  -- If the call ended, the property holds of the result and the glue.
  abbrev pub Leaves {ℓ} : {A : Type ℓ} → (A → Glue E → Type 0) → Option (A × Glue E) → Type 0
  Leaves P none = Unit
  Leaves P (some (x, g)) = P x g

  pub after_process {ℓ} :
      {A : Type ℓ} (P : A → Glue E → Type 0) (k : Glue E → Option (A × Glue E)) (g : Glue E)
      → Along g
      → ((g' : Glue E) → Resting g' → Leaves P (k g'))
      → Leaves P (process b up sndbuf fuel a g >>= k)
  after_process P k g t later =
      go (process b up sndbuf fuel a g) (process-Rests b up sndbuf passive dec a p c0 t0 fuel g t)
    where
      go :
          (o : Option (Glue E))
          → Ends b up sndbuf passive dec a p c0 t0 Resting o
          → Leaves P (o >>= k)
      go none h = tt
      go (some g') h = later g' h

  pub then_Leaves {ℓ κ} :
      {A : Type ℓ} {B : Type κ} (P : A → Glue E → Type 0) (Q : B → Glue E → Type 0)
      (o : Option (A × Glue E)) (k : A × Glue E → Option (B × Glue E))
      → Leaves P o
      → ((x : A) (g : Glue E) → P x g → Leaves Q (k (x, g)))
      → Leaves Q (o >>= k)
  then_Leaves P Q none k h later = tt
  then_Leaves P Q (some (x, g)) k h later = later x g h

  abbrev OnWay : List ℕ → Glue E → Type 0
  OnWay left g = Along g

  abbrev Next : (List ℕ → Glue E → Option (List ℕ × Glue E)) → Type 0
  Next k = (left : List ℕ) (g : Glue E) → Along g → Leaves OnWay (k left g)

  copy_on-Along :
      (next : List ℕ → Glue E → Option (List ℕ × Glue E)) (left : List ℕ) (n : Session E)
      (g : Glue E)
      → Next next
      → deref a g.sessions ≡ some n
      → Tracks b up sndbuf passive dec a p c0 t0 n g
      → Leaves OnWay (copy_on b up sndbuf fuel next left n g)
  unfolding copy_on copy_once
  copy_on-Along next left n g later h t =
      let first = copy_once b up sndbuf fuel left n g in
      later first.0 first.1 (_, deref-store a g n _ h refl, t)

  pub copy_in-Along :
      (f : ℕ) (left : List ℕ) (g : Glue E)
      → Along g
      → Leaves OnWay (copy_in b up sndbuf fuel f a left g)
  unfolding copy_in copy_retry
  copy_in-Along zero left g t = tt
  copy_in-Along (suc f) [] g t = t
  copy_in-Along (suc f) (x ∷ xs) g (n, h, t) =
      option-found (Leaves OnWay) (deref a g.sessions) _ _ h (
        bool-both (Leaves OnWay) (accum_pos n == 0)
          (after_process OnWay _ g (n, h, t)
            (λ g' (n', h', t', rest). option-found (Leaves OnWay) (deref a g'.sessions) _ _ h' (
              bool-both (Leaves OnWay) (accum_pos n' == 0) (n', h', t')
                (copy_on-Along _ (x ∷ xs) n' g' (copy_in-Along f) h' t'))))
          (copy_on-Along _ (x ∷ xs) n g (copy_in-Along f) h t))

  feed_on-Along :
      (next : List ℕ → Glue E → Option (List ℕ × Glue E)) (left : List ℕ) (n : Session E)
      (g : Glue E)
      → Next next
      → deref a g.sessions ≡ some n
      → Tracks b up sndbuf passive dec a p c0 t0 n g
      → Leaves OnWay (feed_on b up sndbuf fuel next left n g)
  unfolding feed_on feed_once fed_bytes handed
  feed_on-Along next left n g later h (same, listens, eaten, out) =
      let first = feed_once b up sndbuf fuel left n g in
      let room = b.recvrec_room n.engine in
      let k : ℕ = if ltb (length left) room then length left else room in
      let here : (n.tcp == p) ≡ true = ground (arith, same) in
      let fits : length (take k left) ≤ room = ground (arith, length-take k left) in
      later first.0 first.1 (
        _,
        deref-store a g n _ h refl,
        (
          same,
          listens,
          dec.put_consumed (take k left) n.engine fits
              ∙ ap (λ (x : List ℕ). x ++ take k left) eaten
              ∙ append_assoc c0 (fed_bytes p g.effects) (take k left)
              ∙ ap
                  (λ (r : Bool).
                    c0
                    ++ (if r then fed_bytes p g.effects ++ take k left else fed_bytes p g.effects))
                  (sym here),
          dec.put_given (take k left) n.engine fits ∙ out,
        ),
      )

  pub feed-Along :
      (k : ℕ) (left : List ℕ) (g : Glue E)
      → Along g
      → Leaves OnWay (feed b up sndbuf fuel k a left g)
  unfolding feed feed_retry
  feed-Along zero left g t = t
  feed-Along (suc k) [] g t = t
  feed-Along (suc k) (x ∷ xs) g (n, h, t) = option-found (Leaves OnWay) (deref a g.sessions) _ _ h (
      bool-both (Leaves OnWay) (b.recvrec_room n.engine == 0)
        (after_process OnWay _ g (n, h, t)
          (λ g' (n', h', t', rest). option-found (Leaves OnWay) (deref a g'.sessions) _ _ h' (
            bool-both (Leaves OnWay) (b.recvrec_room n'.engine == 0) (n', h', t')
              (feed_on-Along _ (x ∷ xs) n' g' (feed-Along k) h' t'))))
        (feed_on-Along _ (x ∷ xs) n g (feed-Along k) h t))
