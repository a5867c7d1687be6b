-- ===== src/Tls/Registry/Making.antt =====
-- What `tcp_ssl_new_server` does to the list of sessions.
use espasync_tcp.Common.{ℕ, ◌≡◌, refl, true, false, some, arith}
use espasync_tcp.Lwip.{Pcb}
use espasync_tcp.Client.State.{KeyType}
use espasync_tcp.Tls.State.{Engine, Glue}
use espasync_tcp.Tls.Registry.{find_ssl_pcb, unlink, tcp_ssl_free, tcp_ssl_has, tcp_ssl_new_server}
use espasync_tcp.Tls.Registry.Freeing.{Distinct}

module _ {E : Type 0} (b : Engine E) where
  -- With memory, a context with a key and a pcb that has no session, `tcp_ssl_new_server` succeeds.
  -- Then the pcb has a session, the list still has no two sessions of one pcb, and `tcp_ssl_free`
  -- gives the list back as it was.
  pub tcp_ssl_free-tcp_ssl_new_server :
      (a : ℕ) (p : Pcb) (key : KeyType) (g : Glue E)
      → tcp_ssl_has p g ≡ false
      → Distinct g.sessions
      → let (made, g') = tcp_ssl_new_server b (some (a, true)) (some p) (some (some key)) g in
        (made ≡ true)
        × (tcp_ssl_has p g' ≡ true)
        × Distinct g'.sessions
        × (tcp_ssl_free p g' ≡ (true, g))
  unfolding tcp_ssl_new_server tcp_ssl_has tcp_ssl_free find_ssl_pcb unlink
  tcp_ssl_free-tcp_ssl_new_server a p key g h d =
      (refl, ground arith, (ground arith, d), ground arith)
