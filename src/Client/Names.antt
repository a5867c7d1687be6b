-- ===== src/Client/Names.antt =====
-- `stateToString`, and the predicates on the state by the names that it gives.
use Prim.Native.String.{String}
use text.Mathlib.Text.{◌==◌ as ◌is◌}
use espasync_tcp.Common.{
  ℕ, ◌≤◌, ◌≡◌, refl, Bool, false, ◌&&◌, ◌||◌, List, [], ◌∷◌, arith, ltb, if◌then◌else◌, zero, suc,
  ◌==◌,
}
use espasync_tcp.Lwip.{Stack}
use espasync_tcp.Client.State.{World}
use espasync_tcp.Client.Status.{
  state, connecting, connected, disconnecting, disconnected, freeable, established, closed_state,
  time_wait,
}

unfoldable pub state_name : ℕ → String
state_name n =
    if n == 0
    then "Closed"
    else if n == 1
    then "Listen"
    else if n == 2
    then "SYN Sent"
    else if n == 3
    then "SYN Received"
    else if n == 4
    then "Established"
    else if n == 5
    then "FIN Wait 1"
    else if n == 6
    then "FIN Wait 2"
    else if n == 7
    then "Close Wait"
    else if n == 8
    then "Closing"
    else if n == 9
    then "Last ACK"
    else if n == 10
    then "Time Wait"
    else "UNKNOWN"

-- `stateToString`
unfoldable pub state_to_string : Stack → World → String
unfolding state_name
state_to_string s w = state_name (state s w)

abbrev pub one_of : List String → String → Bool
one_of [] text = false
one_of (name ∷ names) text = (text is name) || one_of names text

-- a statement about the states up to `TIME_WAIT` holds if it holds of each of them
up_to_time_wait :
    (P : ℕ → Type 0)
    → P 0
    → P 1
    → P 2
    → P 3
    → P 4
    → P 5
    → P 6
    → P 7
    → P 8
    → P 9
    → P 10
    → (n : ℕ) → n ≤ 10
    → P n
up_to_time_wait P p0 p1 p2 p3 p4 p5 p6 p7 p8 p9 p10 zero l = p0
up_to_time_wait P p0 p1 p2 p3 p4 p5 p6 p7 p8 p9 p10 (suc zero) l = p1
up_to_time_wait P p0 p1 p2 p3 p4 p5 p6 p7 p8 p9 p10 (suc (suc zero)) l = p2
up_to_time_wait P p0 p1 p2 p3 p4 p5 p6 p7 p8 p9 p10 (suc (suc (suc zero))) l = p3
up_to_time_wait P p0 p1 p2 p3 p4 p5 p6 p7 p8 p9 p10 (suc (suc (suc (suc zero)))) l = p4
up_to_time_wait P p0 p1 p2 p3 p4 p5 p6 p7 p8 p9 p10 (suc (suc (suc (suc (suc zero))))) l = p5
up_to_time_wait P p0 p1 p2 p3 p4 p5 p6 p7 p8 p9 p10 (suc (suc (suc (suc (suc (suc zero)))))) l = p6
up_to_time_wait P p0 p1 p2 p3 p4 p5 p6 p7 p8 p9 p10 (suc (suc (suc (suc (suc (suc (suc zero)))))))
      l =
    p7
up_to_time_wait P p0 p1 p2 p3 p4 p5 p6 p7 p8 p9 p10
      (suc (suc (suc (suc (suc (suc (suc (suc zero)))))))) l =
    p8
up_to_time_wait P p0 p1 p2 p3 p4 p5 p6 p7 p8 p9 p10
      (suc (suc (suc (suc (suc (suc (suc (suc (suc zero))))))))) l =
    p9
up_to_time_wait P p0 p1 p2 p3 p4 p5 p6 p7 p8 p9 p10
      (suc (suc (suc (suc (suc (suc (suc (suc (suc (suc zero)))))))))) l =
    p10
up_to_time_wait P p0 p1 p2 p3 p4 p5 p6 p7 p8 p9 p10
      (suc (suc (suc (suc (suc (suc (suc (suc (suc (suc (suc n))))))))))) l =
    absurd (omega arith)

-- The name tells which of the predicates on the state hold.
abbrev Tells : ℕ → Type 0
Tells n =
    ((ltb closed_state n && ltb n established)
      ≡ one_of ("Listen" ∷ "SYN Sent" ∷ "SYN Received" ∷ []) (state_name n))
    × ((n == established) ≡ one_of ("Established" ∷ []) (state_name n))
    × ((ltb established n && ltb n time_wait)
        ≡ one_of ("FIN Wait 1" ∷ "FIN Wait 2" ∷ "Close Wait" ∷ "Closing" ∷ "Last ACK" ∷ [])
            (state_name n))
    × ((n == closed_state || n == time_wait) ≡ one_of ("Closed" ∷ "Time Wait" ∷ []) (state_name n))

state_name-Tells : (n : ℕ) → n ≤ time_wait → Tells n
unfolding state_name
state_name-Tells n l =
    up_to_time_wait Tells (refl, refl, refl, refl) (refl, refl, refl, refl) (refl, refl, refl, refl)
      (refl, refl, refl, refl) (refl, refl, refl, refl) (refl, refl, refl, refl)
      (refl, refl, refl, refl) (refl, refl, refl, refl) (refl, refl, refl, refl)
      (refl, refl, refl, refl) (refl, refl, refl, refl) n l

module _ (s : Stack) where
  -- While lwIP reports a state up to `TIME_WAIT`, the name that `stateToString` gives a plain client
  -- tells which of the predicates hold: it is connecting, connected, disconnecting or disconnected just
  -- under the names that are listed for it; and it is freeable just when it is disconnecting or
  -- disconnected.
  pub state_to_string-status :
      (w : World)
      → state s w ≤ time_wait
      → w.client.use_tls ≡ false
      → (connecting s w
          ≡ one_of ("Listen" ∷ "SYN Sent" ∷ "SYN Received" ∷ []) (state_to_string s w))
        × (connected s w ≡ one_of ("Established" ∷ []) (state_to_string s w))
        × (disconnecting s w
            ≡ one_of
                ("FIN Wait 1" ∷ "FIN Wait 2" ∷ "Close Wait" ∷ "Closing" ∷ "Last ACK" ∷ [])
                (state_to_string s w))
        × (disconnected s w ≡ one_of ("Closed" ∷ "Time Wait" ∷ []) (state_to_string s w))
        × (freeable s w ≡ (disconnecting s w || disconnected s w))
  unfolding state_to_string state connecting connected disconnecting disconnected freeable
  state_to_string-status w l t =
      let (first, second, third, fourth) = state_name-Tells (state s w) l in
      (
        ground (arith, first),
        ground (arith, second, t),
        ground (arith, third),
        ground (arith, fourth),
        ground (arith, t),
      )
