-- ===== src/Checks/OnConnect.antt =====
-- Examples for connecting and for aborting in a callback.
use espasync_tcp.Common.{suc, ◌≡◌, not, refl, true, none, some, [], ◌∷◌}
use espasync_tcp.Lwip.{ok, mem, is_abrt, on_data, invoke, pbuf_free}
use espasync_tcp.Tracker.{new_tracker}
use espasync_tcp.Client.State.{World}
use espasync_tcp.Client.Entry.{answer, s_connected}
use espasync_tcp.Client.Teardown.{abort}
use espasync_tcp.Client.AbortContract.{aborts, err_cleared}
use espasync_tcp.Client.AbortContract.Callbacks.{AbrtIffAborted}
use espasync_tcp.Client.AbortContract.Connecting.{s_connected-AbrtIffAborted, abort-answer}
use espasync_tcp.Client.State.{log}
use espasync_tcp.Client.Status.{space}
use espasync_tcp.Client.Receive.{recv, settle}
use espasync_tcp.Client.Transmit.{write}
use espasync_tcp.Client.Outcomes.{Leaves, outcome, min_size}
use espasync_tcp.Client.Secured.{accepted, accepted-plain}
use espasync_tcp.Checks.Samples.{stack, stack-Quiet, inert, inert-Keeps, plain, packet}

-- A TLS client without trust anchors: the validator is refused, and `tcp_close` fails.
abbrev secured : World
secured = record plain { client = record plain.client { use_tls = true } }

s_connected-AbrtIffAborted_example :
    AbrtIffAborted (aborts []) (s_connected (stack mem) inert (some 5) ok secured)
unfolding new_tracker is_abrt
s_connected-AbrtIffAborted_example =
    s_connected-AbrtIffAborted (stack mem) inert (stack-Quiet mem) inert-Keeps 5 secured refl refl

abort-answer_example :
    let r = answer (abort (stack ok) inert plain) in
    (aborts r.1.trace ≡ suc (aborts []))
    × (r.1.client.pcb ≡ none)
    × (is_abrt r.0 ≡ not ((stack ok).abort_notifies [] 5))
unfolding new_tracker
abort-answer_example = abort-answer (stack ok) inert 5 plain refl refl refl refl

-- The error function is registered, so that ERR_OK is returned.
error_function_called : (stack ok).abort_notifies [] 5 ≡ true
unfolding err_cleared
error_function_called = refl

accepted-plain_example :
    let w = accepted (stack ok) inert 5 1 [] in
    Leaves
      (outcome (stack ok) 5 (1 ∷ 2 ∷ 3 ∷ []) 3 0 w)
      5
      (1 ∷ 2 ∷ 3 ∷ [])
      (min_size (space (stack ok) w) 3)
      0
      w
      (write (stack ok) inert (some (1 ∷ 2 ∷ 3 ∷ [])) 3 0 w)
    × ((v : World) × (recv (stack ok) inert (some 5) (packet ∷ []) ok w
          ≡ log (pbuf_free 1) (
              settle
                (stack ok)
                inert
                5
                packet
                (inert 1 (on_data (7 ∷ 8 ∷ [])) (log (invoke 1 (on_data (7 ∷ 8 ∷ []))) v)))))
accepted-plain_example = accepted-plain (stack ok) inert 5 1 [] (1 ∷ 2 ∷ 3 ∷ []) 3 0 packet refl
