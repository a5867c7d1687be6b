-- ===== src/Checks/OnOverGlue.antt =====
-- An example for a TLS client on the glue.
use espasync_tcp.Common.{refl, true, none, some, [], ◌∷◌, arith}
use espasync_tcp.Lwip.{ok}
use espasync_tcp.Client.State.{World}
use espasync_tcp.Client.Receive.{recv, chain_bytes}
use espasync_tcp.Client.OverGlue.{Surroundings, Listens, over_glue, replay, heard}
use espasync_tcp.Client.OverGlue.Receiving.{Relayed, recv-Relayed}
use espasync_tcp.Tls.State.{deref}
use espasync_tcp.Tls.Registry.{find_ssl_pcb}
use espasync_tcp.Checks.Samples.{stack, inert, plain, packet}
use espasync_tcp.Checks.Relay.{relaying, relaying-Decrypts, relaying-Drains, session, sessions}

abbrev around : Surroundings
around = record { room = λ t es p. 1000; memory = λ t. none; host = λ t. none; key = λ t. none }

inert-Listens : Listens relaying 2 around sessions inert 1
inert-Listens = record {
  keeps_client = λ k e w. refl;
  keeps_heard = λ k e w. refl;
  keeps_glue = λ k e w. refl;
}

-- The data handler has not heard the byte that the engine holds.
abbrev secured : World
secured = record plain { client = record plain.client { use_tls = true; handshake_done = true } }

recv-Relayed_example :
    Relayed relaying 2 around sessions inert 1 inert-Listens relaying-Decrypts
      (stack ok)
      5
      []
      session
      (chain_bytes (packet ∷ []))
      (recv
        (over_glue relaying 2 around sessions (stack ok))
        inert
        (some 5)
        (packet ∷ [])
        ok
        secured)
unfolding replay deref find_ssl_pcb heard chain_bytes
recv-Relayed_example =
    recv-Relayed relaying 2 around sessions inert 1 inert-Listens relaying-Decrypts (stack ok) 5 []
      (packet ∷ []) session secured relaying-Drains (omega arith) refl refl refl refl refl
      (omega arith) refl
