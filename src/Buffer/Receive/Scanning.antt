-- ===== src/Buffer/Receive/Scanning.antt =====
-- Looking for the terminator: in a list of bytes, and in the ring.
use espasync_tcp.Common.{
  ℕ, suc, ◌-◌, ◌<◌, ◌≡◌, refl, ap, Option, none, some, List, [], ◌∷◌, ◌++◌, arith, is_some, length,
  drop,
}
use espasync_tcp.Buffer.Cbuf.{Cbuf, IsQueue}
use espasync_tcp.Buffer.Outlet.{Outlet}
use espasync_tcp.Buffer.State.{Heap, Hooks}
use espasync_tcp.Buffer.Receive.{scan, scan_ring}

pub scan-append :
    (t : ℕ) (xs ys : List ℕ)
    → scan t (xs ++ ys) ≡ (elim (scan t xs).1 as (λ _. List ℕ × Option (List ℕ)) [
      | none ↦ (xs ++ (scan t ys).0, (scan t ys).1)
      | some rest ↦ ((scan t xs).0, some (rest ++ ys))
    ])
unfolding scan
scan-append t [] ys = refl
scan-append t (x ∷ xs) ys = ground (arith, scan-append t xs ys)

-- without a terminator, all bytes stand before it
pub scan-none : (t : ℕ) (xs : List ℕ) → (scan t xs).1 ≡ none → (scan t xs).0 ≡ xs
unfolding scan
scan-none t [] h = refl
scan-none t (x ∷ xs) h = ground (arith, scan-none t xs)

drop_later :
    (x : ℕ) (xs : List ℕ) (k : ℕ)
    → k < length xs
    → drop (length (x ∷ xs) - k) (x ∷ xs) ≡ drop (length xs - k) xs
drop_later x xs k h =
    let e : suc (length xs) - k ≡ suc (length xs - k) = omega arith in
    ap (λ (n : ℕ). drop n (x ∷ xs)) e

drop_first : (x : ℕ) (xs : List ℕ) → drop (length (x ∷ xs) - length xs) (x ∷ xs) ≡ xs
drop_first x xs =
    let e : suc (length xs) - length xs ≡ 1 = omega arith in ap (λ (n : ℕ). drop n (x ∷ xs)) e

-- what stands behind the terminator is the end of the bytes
pub scan-behind :
    (t : ℕ) (xs behind : List ℕ)
    → (scan t xs).1 ≡ some behind
    → (drop (length xs - length behind) xs ≡ behind) × (length behind < length xs)
unfolding scan
scan-behind t [] behind h = cc
scan-behind t (x ∷ xs) behind h =
    ground (arith, scan-behind t xs behind, drop_later x xs (length behind), drop_first x xs)

module _ {B C : Type 0} (c : Cbuf B) (o : Outlet C) (heap : Heap) (hooks : Hooks B C)
    (queue : IsQueue c) where
  abbrev pub or_empty : Option (List ℕ) → List ℕ
  or_empty none = []
  or_empty (some xs) = xs

  -- The loop that empties the ring finds what `scan` finds in its bytes.
  pub scan_ring-scan :
      (t : ℕ) (xs : List ℕ) (b : B)
      → queue.contents b ≡ xs
      → let (before, found, b') = scan_ring c o heap hooks (length xs) t b in
        (before ≡ (scan t xs).0)
        × (found ≡ is_some (scan t xs).1)
        × (queue.contents b' ≡ or_empty (scan t xs).1)
  unfolding scan_ring scan
  scan_ring-scan t [] b h = (refl, refl, h)
  scan_ring-scan t (x ∷ xs) b h =
      let (before, found, rest) = scan_ring-scan t xs (c.pop b).1 (queue.pop_rest b x xs h) in
      ground (
        arith,
        before,
        found,
        rest,
        queue.pop_front b x xs h,
        queue.pop_rest b x xs h,
        queue.empty_length b,
        ap length h,
      )
