-- ===== src/Client/Links.antt =====
-- The list links `prev` and `next` of clients, and `operator+=`, which appends to the list.
use espasync_tcp.Common.{
  ℕ, zero, suc, ◌<◌, ◌≤◌, ◌≡◌, ◌≢◌, refl, ap, ◌∙◌, Bool, true, false, ◌||◌, Option, none, some,
  List, [], ◌∷◌, ◌++◌, arith, if◌then◌else◌, ◌==◌, length,
}

-- `prev` and `next` of a client; `none` is NULL
pub record Links : Type 0 where
  pub prev : Option ℕ
  pub next : Option ℕ

-- the links of the client at each address
abbrev pub Store : Type 0
Store = ℕ → Links

unfoldable pub put : ℕ → Links → Store → Store
put a n h x = if x == a then n else h x

-- `c->next = &other; c->next->prev = c`
unfoldable pub link_after : ℕ → ℕ → Store → Store
unfolding put
link_after c other h =
    let h1 = put c (record (h c) { next = some other }) h in
    put other (record (h1 other) { prev = some c }) h1

-- the loop that goes to the last client, with fuel, and the links that are set behind it
unfoldable pub walk : ℕ → ℕ → ℕ → Store → Option Store
unfolding link_after
walk zero c other h = none
walk (suc f) c other h = elim (h c).next [
  | none ↦ some (link_after c other h)
  | some n ↦ walk f n other h
]

-- `*this += other`, on the addresses of the two clients
unfoldable pub append_client : ℕ → ℕ → ℕ → Store → Option Store
unfolding walk
append_client f this other h = elim (h this).next [
  | none ↦ some (link_after this other h)
  | some n ↦ walk f n other h
]

abbrev pub has : ℕ → List ℕ → Bool
has x [] = false
has x (a ∷ rest) = (x == a) || has x rest

-- no address twice
abbrev pub AllDistinct : List ℕ → Type 0
AllDistinct [] = Unit
AllDistinct (a ∷ rest) = (has a rest ≡ false) × AllDistinct rest

has-append : (x : ℕ) (xs ys : List ℕ) → has x (xs ++ ys) ≡ (has x xs || has x ys)
has-append x [] ys = refl
has-append x (a ∷ xs) ys = ground (arith, has-append x xs ys)

-- From `a` the links lead to `bs`, in this order, forward and back, and end there.
abbrev pub Linked : Store → ℕ → List ℕ → Type 0
Linked h a [] = (h a).next ≡ none
Linked h a (b ∷ bs) = ((h a).next ≡ some b) × ((h b).prev ≡ some a) × Linked h b bs

-- a list survives a change elsewhere, and a change of how its first client is linked back
frame :
    (g h : Store) (a : ℕ) (bs : List ℕ)
    → (g a).next ≡ (h a).next
    → ((x : ℕ) → has x bs ≡ true → g x ≡ h x)
    → Linked h a bs
    → Linked g a bs
frame g h a [] same others l = same ∙ l
frame g h a (b ∷ bs) same others (forward, back, rest) =
    let at_b : g b ≡ h b = others b (ground arith) in
    (
      same ∙ forward,
      ap (λ (n : Links). n.prev) at_b ∙ back,
      frame g h b bs (ap (λ (n : Links). n.next) at_b) (λ x i. others x (ground arith)) rest,
    )

module _ (other : ℕ) (others : List ℕ) (h : Store) where
  -- The list of `bs` behind `a` was extended by that of `other`, and nothing else changed.
  abbrev pub Extended : ℕ → List ℕ → Option Store → Type 0
  Extended a bs r =
      (g : Store) × (r ≡ some g)
      × Linked g a (bs ++ other ∷ others)
      × ((x : ℕ) → has x (a ∷ bs) ≡ false → x ≢ other → g x ≡ h x)
      × ((x : ℕ) → x ≢ other → (g x).prev ≡ (h x).prev)

  link_after-Extended :
      (a : ℕ)
      → Linked h other others
      → has a (other ∷ others) ≡ false
      → has other others ≡ false
      → Extended a [] (some (link_after a other h))
  unfolding link_after put
  link_after-Extended a l apart single = (
    link_after a other h,
    refl,
    (
      ground arith,
      ground arith,
      frame (link_after a other h) h other others (ground arith) (λ x i. ground (arith, i)) l,
    ),
    λ x out ne. ground arith,
    λ x ne. ground arith,
  )

  walk-Extended :
      (f a : ℕ) (bs : List ℕ)
      → Linked h a bs
      → Linked h other others
      → AllDistinct ((a ∷ bs) ++ other ∷ others)
      → length bs < f
      → Extended a bs (walk f a other h)
  unfolding walk
  walk-Extended zero a bs l lo apart few = absurd (omega arith)
  walk-Extended (suc f) a [] l lo (a_out, (single, _)) few =
      rw (walk, l) (link_after-Extended a lo a_out single)
  walk-Extended (suc f) a (b ∷ bs) (forward, back, rest) lo (a_out, apart) few =
      let (g, ran, linked, same, prevs) = walk-Extended f b bs rest lo apart (omega arith) in
      let parts = has-append a (b ∷ bs) (other ∷ others) in
      let a_ne : a ≢ other = ground (arith, a_out, parts) in
      let a_same : g a ≡ h a = same a (ground (arith, a_out, parts)) a_ne in
      let both = has-append b bs (other ∷ others) in
      let b_ne : b ≢ other = ground (arith, apart.0, both) in
      rw (walk, forward)
        (
          g,
          ran,
          (ap (λ (n : Links). n.next) a_same ∙ forward, prevs b b_ne ∙ back, linked),
          (λ x out ne. same x (ground (arith, out)) ne),
          prevs,
        )

  -- `a += other` of the head `a` of a list and the head `other` of a list, where no client is in both
  -- or twice in one: the loop ends within a round for each client behind `a`, and then the list of `a`
  -- is the one before followed by `other` and its list, linked forward and back; the links of other
  -- clients are as before.
  pub append_client-Extended :
      (f a : ℕ) (bs : List ℕ)
      → Linked h a bs
      → Linked h other others
      → AllDistinct ((a ∷ bs) ++ other ∷ others)
      → length bs ≤ f
      → Extended a bs (append_client f a other h)
  unfolding append_client
  append_client-Extended f a bs l lo apart few = walk-Extended (suc f) a bs l lo apart (omega arith)
