-- ===== src/Checks/OnPlaintext.antt =====
-- An example for what the client is handed.
use espasync_tcp.Common.{◌⊎◌, false, ◌≡◌, refl, Bool, true, some, [], ◌∷◌, ◌++◌, arith}
use espasync_tcp.Tls.State.{Session, Glue, deref}
use espasync_tcp.Tls.Registry.{find_ssl_pcb}
use espasync_tcp.Tls.Process.{Upper}
use espasync_tcp.Tls.Progress.{fed_bytes}
use espasync_tcp.Tls.Io.{tcp_ssl_read}
use espasync_tcp.Tls.Plaintext.{handed}
use espasync_tcp.Checks.Relay.{
  Relay, held, relaying, relaying-Decrypts, relaying-Drains, session, sessions,
}
use espasync_tcp.Tls.Plaintext.Reading.{tcp_ssl_read-plaintext}

abbrev unheard : Upper Relay
unheard p u g = g

tcp_ssl_read-plaintext_example :
    (ok : Bool) × (g' : Glue Relay) × (n' : Session Relay) × (tcp_ssl_read relaying unheard
        (λ es q. 1000)
        2
        5
        (3 ∷ 4 ∷ [])
        sessions
      ≡ some (ok, g'))
    × (deref 64 g'.sessions ≡ some n')
    × (fed_bytes 5 g'.effects ++ n'.accum
        ≡ fed_bytes 5 sessions.effects ++ ((3 ∷ 4 ∷ []) ++ (1 ∷ 2 ∷ [])))
    × (n'.engine.given_out ++ held n'.engine.waiting ≡ (9 ∷ []) ++ fed_bytes 5 g'.effects)
    × (n'.engine.given_out ≡ [] ++ handed 5 g'.effects)
    × (ok ≡ true)
    × ((ok ≡ false) ⊎ ((9 ∷ []) ++ fed_bytes 5 g'.effects ≡ [] ++ handed 5 g'.effects))
unfolding deref find_ssl_pcb fed_bytes handed
tcp_ssl_read-plaintext_example =
    tcp_ssl_read-plaintext relaying unheard (λ es q. 1000) 2 (λ p u g. refl) relaying-Decrypts 64 5
      (9 ∷ []) [] relaying-Drains (3 ∷ 4 ∷ []) session sessions refl refl (omega arith)
      (refl, refl, refl, refl)
