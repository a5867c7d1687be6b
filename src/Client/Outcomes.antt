-- ===== src/Client/Outcomes.antt =====
-- What `write` and the connection requests leave behind on each of their branches.
use espasync_tcp.Common.{
  ℕ, ◌≡◌, true, false, some, List, ◌∷◌, arith, if◌then◌else◌, ltb, ◌==◌, take, add32,
}
use espasync_tcp.Lwip.{
  Pcb, Stack, is_ok, clock, tcp_write, tcp_output, tcp_new, tcp_setprio, tcp_connect, bind_slot,
  arg_slot, err_slot,
}
use espasync_tcp.Client.State.{World, App}
use espasync_tcp.Client.Status.{connected, space}
use espasync_tcp.Client.Transmit.{add, add_plain, send, write}
use espasync_tcp.Client.Connect.{connect_ip}

abbrev pub min_size : ℕ → ℕ → ℕ
min_size a b = if ltb a b then a else b

-- Of a plain client with a pcb: nothing was accepted and nothing left the library; or lwIP refused
-- the bytes; or it took them but could not send; or it took them and started to send.
pub data Outcome : Type 0 where
  no_room refused queued sent : Outcome

-- the outcome by lwIP's answers
pub outcome : Stack → Pcb → List ℕ → ℕ → ℕ → World → Outcome
outcome s p bytes size flags w =
    let n = min_size (space s w) size in
    let t = tcp_write p (take n bytes) flags ∷ w.trace in
    if n == 0
    then no_room
    else (if is_ok (s.write_result w.trace p)
        then (if is_ok (s.output_result t p) then sent else queued)
        else refused)

-- what `write` returns, the calls that it makes, the bytes it counts as unacknowledged, and whether
-- the client waits for an acknowledgement
abbrev pub Leaves : Outcome → Pcb → List ℕ → ℕ → ℕ → World → ℕ × World → Type 0
Leaves no_room p bytes n flags w r = (r.0 ≡ 0) × (r.1.trace ≡ w.trace) × (r.1.client ≡ w.client)
Leaves refused p bytes n flags w r =
    (r.0 ≡ 0) × (r.1.trace ≡ tcp_write p (take n bytes) flags ∷ w.trace) × (r.1.client ≡ w.client)
Leaves queued p bytes n flags w r =
    (r.0 ≡ 0)
    × (r.1.trace ≡ tcp_output p ∷ tcp_write p (take n bytes) flags ∷ w.trace)
    × (r.1.client.tx_unacked_len ≡ add32 w.client.tx_unacked_len n)
    × (r.1.client.pcb_busy ≡ w.client.pcb_busy)
Leaves sent p bytes n flags w r =
    (r.0 ≡ n)
    × (r.1.trace ≡ clock ∷ tcp_output p ∷ tcp_write p (take n bytes) flags ∷ w.trace)
    × (r.1.client.tx_unacked_len ≡ add32 w.client.tx_unacked_len n)
    × (r.1.client.pcb_busy ≡ true)

-- On a plain client with a pcb, `write` takes the smaller of the size and the room, and behaves as
-- one of four outcomes says: it returns that number just when lwIP took the bytes and started to
-- send, and then the client is busy. When lwIP took the bytes but `tcp_output` failed it returns 0
-- as well, although the bytes are queued and counted as unacknowledged.
pub write-Leaves :
    (s : Stack) (app : App) (p : Pcb) (bytes : List ℕ) (size flags : ℕ) (w : World)
    → w.client.pcb ≡ some p
    → w.client.use_tls ≡ false
    → Leaves
        (outcome s p bytes size flags w)
        p
        bytes
        (min_size (space s w) size)
        flags
        w
        (write s app (some bytes) size flags w)
unfolding outcome write add add_plain send
write-Leaves s app p bytes size flags w e f = ground arith

-- A connected client that never finished a TLS handshake refuses to connect once more without TLS.
-- Asked to connect with TLS it does not: as soon as a pcb can be had, a second connection is
-- started, and the first pcb is kept and not closed.
pub connect_ip-starts_second :
    (s : Stack) (app : App) (p q : Pcb) (port : ℕ) (w : World)
    → w.client.pcb ≡ some p
    → connected s w ≡ true
    → w.client.handshake_done ≡ false
    → s.new_pcb w.trace ≡ some q
    → ((connect_ip s app port false w).1.trace ≡ w.trace)
      × ((connect_ip s app port true w).1.trace
          ≡ tcp_connect q port
            ∷ bind_slot err_slot q true
            ∷ bind_slot arg_slot q true
            ∷ tcp_setprio q
            ∷ tcp_new
            ∷ w.trace)
      × ((connect_ip s app port true w).1.client.pcb ≡ some p)
unfolding connect_ip connected
connect_ip-starts_second s app p q port w e c h n = ground arith
