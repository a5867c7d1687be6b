-- ===== src/Checks/OnClient.antt =====
-- Examples for the callbacks and the lifetime of a client.
use espasync_tcp.Common.{◌%◌, ◌^◌, ◌≡◌, ◌||◌, refl, true, false, some, [], ◌∷◌, arith}
use espasync_tcp.Lwip.{ok, mem, is_ok, is_abrt}
use espasync_tcp.Tracker.{new_tracker, set_close_error, get_callback_close_error}
use espasync_tcp.Client.State.{World, App}
use espasync_tcp.Client.Entry.{s_poll, s_recv, s_sent}
use espasync_tcp.Client.AbortContract.{aborts, err_cleared}
use espasync_tcp.Client.AbortContract.Callbacks.{
  AbrtIffAborted, s_poll-AbrtIffAborted, s_recv-AbrtIffAborted, s_sent-AbrtIffAborted,
}
use espasync_tcp.Client.Poll.{poll_timeouts}
use espasync_tcp.Client.Timing.{due, perform, poll_timeouts-perform}
use espasync_tcp.Client.Status.{state, connecting, connected, disconnecting, disconnected, freeable}
use espasync_tcp.Client.Names.{one_of, state_name, state_to_string, state_to_string-status}
use espasync_tcp.Client.Teardown.{shut, destroy}
use espasync_tcp.Client.Receive.{recv, recv_data, recv_one}
use espasync_tcp.Client.Deletion.{recv_one-uses_deleted}
use espasync_tcp.Checks.Samples.{
  stack, stack-Quiet, inert, inert-Keeps, closing, closing-Keeps, plain, packet,
}

-- The receive timeout has passed, and `tcp_close` fails.
abbrev late : World
late = record plain { client = record plain.client { rx_last_packet = 1000; pcb_busy = false } }

s_poll-AbrtIffAborted_example : AbrtIffAborted (aborts []) (s_poll (stack mem) inert late)
unfolding new_tracker
s_poll-AbrtIffAborted_example =
    s_poll-AbrtIffAborted (stack mem) inert (stack-Quiet mem) inert-Keeps late refl

-- The data handler closes the client, and `tcp_close` fails.
s_recv-AbrtIffAborted_example :
    AbrtIffAborted (aborts []) (s_recv (stack mem) (closing mem) (some 5) (packet ∷ []) ok plain)
unfolding new_tracker is_abrt
s_recv-AbrtIffAborted_example =
    s_recv-AbrtIffAborted (stack mem) (closing mem) (stack-Quiet mem) (closing-Keeps mem) 5
      (packet ∷ []) plain refl refl

s_sent-AbrtIffAborted_example :
    AbrtIffAborted (aborts []) (s_sent (stack mem) (closing mem) 100 plain)
unfolding new_tracker is_abrt
s_sent-AbrtIffAborted_example =
    s_sent-AbrtIffAborted (stack mem) (closing mem) (stack-Quiet mem) (closing-Keeps mem) 100 plain
      refl refl

-- The abort really happens in the example, and is reported.
s_recv_aborts : is_abrt (s_recv (stack mem) (closing mem) (some 5) (packet ∷ []) ok plain).0 ≡ true
unfolding s_recv recv recv_data shut set_close_error get_callback_close_error err_cleared
    new_tracker is_ok recv_one
s_recv_aborts = refl

-- The clock has wrapped between the last send and the poll: 4000 ms have passed.
abbrev wrapped : World
wrapped = record plain {
  client = record plain.client { pcb_sent_at = 4294965296; rx_last_packet = 4294966296 };
}

poll_timeouts-perform_example :
    poll_timeouts (stack ok) inert (4294969296 % 2 ^ 32) wrapped
    ≡ perform (stack ok) inert (due wrapped 4000 3000) wrapped
poll_timeouts-perform_example =
    poll_timeouts-perform (stack ok) inert wrapped 4294965296 4294966296 4294969296 refl refl
      (omega arith) (omega arith) (omega arith) (omega arith) (omega arith)

state_to_string-status_example :
    (connecting (stack ok) plain
      ≡ one_of ("Listen" ∷ "SYN Sent" ∷ "SYN Received" ∷ []) (state_to_string (stack ok) plain))
    × (connected (stack ok) plain ≡ one_of ("Established" ∷ []) (state_to_string (stack ok) plain))
    × (disconnecting (stack ok) plain
        ≡ one_of
            ("FIN Wait 1" ∷ "FIN Wait 2" ∷ "Close Wait" ∷ "Closing" ∷ "Last ACK" ∷ [])
            (state_to_string (stack ok) plain))
    × (disconnected (stack ok) plain
        ≡ one_of ("Closed" ∷ "Time Wait" ∷ []) (state_to_string (stack ok) plain))
    × (freeable (stack ok) plain
        ≡ (disconnecting (stack ok) plain || disconnected (stack ok) plain))
unfolding state
state_to_string-status_example = state_to_string-status (stack ok) plain (omega arith) refl

-- The client of the example is connected.
plain_established : state_to_string (stack ok) plain ≡ "Established"
unfolding state_to_string state state_name
plain_established = refl

abbrev deleting : App
deleting h e w = destroy (stack ok) inert w

recv_one-uses_deleted_example : (recv_one (stack ok) deleting 5 packet plain).fault ≡ true
unfolding is_ok new_tracker
recv_one-uses_deleted_example =
    recv_one-uses_deleted (stack ok) inert 5 (λ t. refl) deleting packet 1 plain refl refl refl refl
      refl refl (λ e v. refl)
