-- ===== src/Client/Status.antt =====
-- The predicates on the state of the connection, and the room for data to send.
use espasync_tcp.Common.{
  ℕ, ◌-◌, ◌≡◌, Bool, true, false, ◌&&◌, ◌||◌, not, none, some, arith, ltb, leb, ◌==◌, ◌+◌, ◌≤◌,
  if◌then◌else◌,
}
use espasync_tcp.Lwip.{Stack}
use espasync_tcp.Client.State.{World}

abbrev pub closed_state : ℕ
closed_state = 0

abbrev pub established : ℕ
established = 4

abbrev pub time_wait : ℕ
time_wait = 10

abbrev pub bit : Bool → ℕ
bit true = 1
bit false = 0

module _ (s : Stack) where
  unfoldable pub state : World → ℕ
  state w = elim w.client.pcb [ none ↦ 0 | some p ↦ s.pcb_state w.trace p ]

  unfoldable pub connecting : World → Bool
  connecting w = elim w.client.pcb [
    | none ↦ false
    | some p ↦ ltb closed_state (s.pcb_state w.trace p) && ltb (s.pcb_state w.trace p) established
  ]

  unfoldable pub connected : World → Bool
  connected w = elim w.client.pcb [
    | none ↦ false
    | some p ↦
        s.pcb_state w.trace p == established && (not w.client.use_tls || w.client.handshake_done)
  ]

  unfoldable pub disconnecting : World → Bool
  disconnecting w = elim w.client.pcb [
    | none ↦ false
    | some p ↦ ltb established (s.pcb_state w.trace p) && ltb (s.pcb_state w.trace p) time_wait
  ]

  unfoldable pub disconnected : World → Bool
  disconnected w = elim w.client.pcb [
    | none ↦ true
    | some p ↦ s.pcb_state w.trace p == closed_state || s.pcb_state w.trace p == time_wait
  ]

  unfoldable pub freeable : World → Bool
  freeable w = elim w.client.pcb [
    | none ↦ true
    | some p ↦ s.pcb_state w.trace p == closed_state || ltb established (s.pcb_state w.trace p)
  ]

  unfoldable pub space : World → ℕ
  unfolding connected
  space w = elim w.client.pcb [
    | none ↦ 0
    | some p ↦
        if connected w
        then (if w.client.use_tls
            then (if leb 128 (s.sndbuf w.trace p) then s.sndbuf w.trace p - 128 else 0)
            else s.sndbuf w.trace p)
        else 0
  ]

  unfoldable pub can_send : World → Bool
  unfolding space
  can_send w = not w.client.pcb_busy && ltb 0 (space w)

  -- While lwIP reports a state up to `TIME_WAIT`, exactly one of these holds: connecting,
  -- established, disconnecting, disconnected. A plain client is connected just when established,
  -- and it is freeable just when it is disconnecting or disconnected.
  pub status_partition :
      (w : World)
      → state w ≤ time_wait
      → w.client.use_tls ≡ false
      → (bit (connecting w) + bit (connected w) + bit (disconnecting w) + bit (disconnected w) ≡ 1)
        × (freeable w ≡ (disconnecting w || disconnected w))
  unfolding state connecting connected disconnecting disconnected freeable
  status_partition w h t = ground arith
