-- ===== src/Checks/OnTransfer.antt =====
-- Examples for the data that a client sends and acknowledges.
use espasync_tcp.Common.{
  ◌+◌, ◌%◌, ◌^◌, ◌≡◌, ◌≤◌, refl, true, false, some, [], ◌∷◌, ◌++◌, arith, length,
}
use espasync_tcp.Lwip.{ok, bind_slot, err_slot, arg_slot, tcp_connect, tcp_setprio, tcp_new}
use espasync_tcp.Tracker.{new_tracker}
use espasync_tcp.Client.State.{World}
use espasync_tcp.Client.Status.{space, connected}
use espasync_tcp.Client.Transmit.{write}
use espasync_tcp.Client.Connect.{connect_ip}
use espasync_tcp.Client.Receive.{ack, recv_chain, chain_bytes}
use espasync_tcp.Client.Outcomes.{Leaves, outcome, min_size, write-Leaves, connect_ip-starts_second}
use espasync_tcp.Client.Acknowledged.{sum, sent_all, reported, invocations, sent_all-reported}
use espasync_tcp.Client.Accounted.{
  recved, accounted, accounted-ack, Fair, acked, accounted-recv_chain,
}
use espasync_tcp.Checks.Samples.{stack, inert, plain, packet}

write-Leaves_example :
    Leaves
      (outcome (stack ok) 5 (1 ∷ 2 ∷ 3 ∷ []) 3 0 plain)
      5
      (1 ∷ 2 ∷ 3 ∷ [])
      (min_size (space (stack ok) plain) 3)
      0
      plain
      (write (stack ok) inert (some (1 ∷ 2 ∷ 3 ∷ [])) 3 0 plain)
write-Leaves_example = write-Leaves (stack ok) inert 5 (1 ∷ 2 ∷ 3 ∷ []) 3 0 plain refl refl

connect_ip-starts_second_example :
    ((connect_ip (stack ok) inert 80 false plain).1.trace ≡ [])
    × ((connect_ip (stack ok) inert 80 true plain).1.trace
        ≡ tcp_connect 9 80
          ∷ bind_slot err_slot 9 true
          ∷ bind_slot arg_slot 9 true
          ∷ tcp_setprio 9
          ∷ tcp_new
          ∷ [])
    × ((connect_ip (stack ok) inert 80 true plain).1.client.pcb ≡ some 5)
unfolding connected
connect_ip-starts_second_example =
    connect_ip-starts_second (stack ok) inert 5 9 80 plain refl refl refl refl

sent_all-reported_example :
    (v : World) × (sent_all (stack ok) inert ((20 ∷ 30 ∷ []) ++ 60 ∷ []) plain
      ≡ reported (stack ok) inert 2 (0 + (sum (20 ∷ 30 ∷ []) + 60)) v)
    × (v.client.pcb_busy ≡ false)
    × (v.client.tx_unacked_len ≡ 0)
    × (invocations v.trace ≡ invocations [])
unfolding sum
sent_all-reported_example =
    sent_all-reported (stack ok) inert (20 ∷ 30 ∷ []) 60 2 plain refl (omega arith) (omega arith)
      (omega arith) refl

accounted-ack_example :
    let (n, v) = ack 20 plain in
    (n ≤ 20) × (n ≤ 30) × (recved v.trace ≡ n + recved []) × (v.client.rx_ack_len + n ≡ 30)
accounted-ack_example = accounted-ack 20 plain 5 refl

inert-Fair : Fair inert
inert-Fair = record {
  keeps_account = λ h e w. refl;
  keeps_client = λ h e w. refl;
  keeps_packets = λ h e w. refl;
  grows = λ h e w. omega arith;
}

accounted-recv_chain_example :
    (accounted (recv_chain (stack ok) inert 5 (packet ∷ packet ∷ []) plain)
      ≡ (accounted plain + length (chain_bytes (packet ∷ packet ∷ []))) % 2 ^ 32)
    × (recved (recv_chain (stack ok) inert 5 (packet ∷ packet ∷ []) plain).trace
        ≡ recved plain.trace + acked (stack ok) inert inert-Fair 5 (packet ∷ packet ∷ []) plain)
unfolding new_tracker
accounted-recv_chain_example =
    accounted-recv_chain (stack ok) inert inert-Fair 5 (packet ∷ packet ∷ []) plain refl refl
