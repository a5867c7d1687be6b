-- ===== src/Tls/Io.antt =====
-- `tcp_ssl_write`, `tcp_ssl_read` and `tcp_ssl_new_client`.
use espasync_tcp.Common.{
  ℕ, zero, suc, ◌++◌, Bool, true, false, not, Option, none, some, List, [], ◌∷◌, if◌then◌else◌, ltb,
  ◌==◌, length, take, drop,
}
use espasync_tcp.Lwip.{Pcb}
use espasync_tcp.Tls.State.{
  Engine, Session, Glue, Effect, fed, recved, freed_pbuf, emit, use_freed, deref, store, accum_pos,
  max_feed_loops,
}
use espasync_tcp.Tls.Registry.{find_ssl_pcb, new_session, link}
use espasync_tcp.Tls.Process.{Upper, process}

infixl 5 ◌>>=◌
abbrev pub ◌>>=◌ {ℓ κ} : {A : Type ℓ} {B : Type κ} → Option A → (A → Option B) → Option B
none >>= f = none
some a >>= f = f a

-- Where a pointer is used, but its session was freed, the call is a fault and ends.
abbrev pub with_session {ℓ} :
    {E : Type 0} {A : Type ℓ}
    → ℕ
    → A
    → (Session E → Glue E → Option (A × Glue E))
    → Glue E
    → Option (A × Glue E)
with_session a stopped k g = elim (deref a g.sessions) [
  | none ↦ some (stopped, use_freed g)
  | some n ↦ k n g
]

module _ {E : Type 0} (b : Engine E) (up : Upper E) (sndbuf : List Effect → Pcb → ℕ)
    (fuel : ℕ) where
  -- `tcp_ssl_write`: `none` in the result is -1
  unfoldable pub tcp_ssl_write : Pcb → List ℕ → Glue E → Option (Option ℕ × Glue E)
  tcp_ssl_write p bytes g = elim (find_ssl_pcb p g.sessions) [
    | none ↦ some (none, g)
    | some n ↦
        if not (b.sendapp n.engine)
        then some (some 0, g)
        else (let room = b.sendapp_room n.engine in
            if room == 0
            then process b up sndbuf fuel n.address g >>= (λ g'. some (some 0, g'))
            else (let clen : ℕ = if ltb room (length bytes) then room else length bytes in
                let filled = b.flush (b.sendapp_put (take clen bytes) n.engine) in
                process b up sndbuf fuel n.address (store (record n { engine = filled }) g)
                >>= (λ g'. some (some clen, g'))))
  ]

  -- one copy into the accumulator, in front of what it holds: what is left to copy
  unfoldable pub copy_once : List ℕ → Session E → Glue E → List ℕ × Glue E
  copy_once left n g =
      let space = accum_pos n in
      let to_copy : ℕ = if ltb (length left) space then length left else space in
      (drop to_copy left, store (record n { accum = take to_copy left ++ n.accum }) g)

  -- a copy, and then the rest of the loop
  unfoldable pub copy_on :
      (List ℕ → Glue E → Option (List ℕ × Glue E))
      → List ℕ
      → Session E
      → Glue E
      → Option (List ℕ × Glue E)
  unfolding copy_once
  copy_on next left n g = let (left', g') = copy_once left n g in next left' g'

  -- the round goes on after the engine was processed, if there is room by then
  unfoldable pub copy_retry :
      (List ℕ → Glue E → Option (List ℕ × Glue E)) → ℕ → List ℕ → Glue E → Option (List ℕ × Glue E)
  unfolding copy_on
  copy_retry next a left =
      with_session a left
        (λ n g. elim (accum_pos n == 0) [ true ↦ some (left, g) | false ↦ copy_on next left n g ])

  -- the loop that copies the packet, with the rounds left; the result is what is not copied
  unfoldable pub copy_in : ℕ → ℕ → List ℕ → Glue E → Option (List ℕ × Glue E)
  unfolding copy_on copy_retry
  copy_in zero a left g = none
  copy_in (suc f) a [] g = some ([], g)
  copy_in (suc f) a (x ∷ xs) g =
      with_session a (x ∷ xs)
        (λ n g1. elim (accum_pos n == 0) [
          | true ↦ process b up sndbuf fuel a g1 >>= copy_retry (copy_in f a) a (x ∷ xs)
          | false ↦ copy_on (copy_in f a) (x ∷ xs) n g1
        ])
        g

  -- one `memcpy` into the engine's buffer and its `ack`: what is left to feed
  unfoldable pub feed_once : List ℕ → Session E → Glue E → List ℕ × Glue E
  feed_once pending n g =
      let available = b.recvrec_room n.engine in
      let to_feed : ℕ = if ltb (length pending) available then length pending else available in
      (
        drop to_feed pending,
        emit (fed n.tcp (take to_feed pending))
            (store (record n { engine = b.recvrec_put (take to_feed pending) n.engine }) g),
      )

  unfoldable pub feed_on :
      (List ℕ → Glue E → Option (List ℕ × Glue E))
      → List ℕ
      → Session E
      → Glue E
      → Option (List ℕ × Glue E)
  unfolding feed_once
  feed_on next pending n g = let (rest, g') = feed_once pending n g in next rest g'

  unfoldable pub feed_retry :
      (List ℕ → Glue E → Option (List ℕ × Glue E)) → ℕ → List ℕ → Glue E → Option (List ℕ × Glue E)
  unfolding feed_on
  feed_retry next a pending = with_session a pending (λ n g. elim (b.recvrec_room n.engine == 0) [
    | true ↦ some (pending, g)
    | false ↦ feed_on next pending n g
  ])

  -- the loop that feeds the accumulated bytes, with the rounds left: what is not consumed
  unfoldable pub feed : ℕ → ℕ → List ℕ → Glue E → Option (List ℕ × Glue E)
  unfolding feed_on feed_retry
  feed zero a pending g = some (pending, g)
  feed (suc k) a [] g = some ([], g)
  feed (suc k) a (x ∷ xs) g =
      with_session a (x ∷ xs)
        (λ n g1. elim (b.recvrec_room n.engine == 0) [
          | true ↦ process b up sndbuf fuel a g1 >>= feed_retry (feed k a) a (x ∷ xs)
          | false ↦ feed_on (feed k a) (x ∷ xs) n g1
        ])
        g

  -- what `tcp_ssl_read` does with the accumulator after feeding: `left` bytes were not consumed
  unfoldable pub keep_left : List ℕ → List ℕ → Session E → Session E
  keep_left pending left n = if length left == length pending then n else record n { accum = left }

  -- the part of `tcp_ssl_read` after the packet was taken in; the result is whether it returns 0
  unfoldable pub drain : ℕ → Glue E → Option (Bool × Glue E)
  unfolding keep_left
  drain a = with_session a false (λ n g. feed max_feed_loops a n.accum g >>= (λ (left, g1).
      with_session a false
        (λ n1 g2.
          process b up sndbuf fuel a (store (keep_left n.accum left n1) g2)
          >>= with_session a false (λ n2 g3. some (not (b.closed n2.engine), g3)))
        g1))

  -- `tcp_ssl_read(pcb, pb)`; `bytes` are those of the chain `pb`
  unfoldable pub tcp_ssl_read : Pcb → List ℕ → Glue E → Option (Bool × Glue E)
  unfolding drain
  tcp_ssl_read p bytes g = elim (find_ssl_pcb p g.sessions) [
    | none ↦ some (false, emit freed_pbuf g)
    | some n ↦ copy_in (suc (length bytes)) n.address bytes g >>= (λ (left, g1). elim left [
      | [] ↦ drain n.address (emit freed_pbuf (emit (recved p bytes) g1))
      | x ∷ xs ↦ some (false, emit freed_pbuf g1)
    ])
  ]

  -- `tcp_ssl_new_client`: whether it returned 0. `memory` is the address of the new session and
  -- whether its buffers could be had.
  unfoldable pub tcp_ssl_new_client :
      Option (ℕ × Bool) → Option Pcb → Option (List ℕ) → Glue E → Option (Bool × Glue E)
  tcp_ssl_new_client memory none host g = some (false, g)
  tcp_ssl_new_client none (some p) host g = some (false, g)
  tcp_ssl_new_client (some (a, buffers)) (some p) host g =
      if buffers
      then elim (b.new_client host) [
        | none ↦ some (false, g)
        | some e ↦
            process b up sndbuf fuel a (link (new_session a p false e) g)
            >>= (λ g'. some (true, g'))
      ]
      else some (false, g)
