-- ===== src/Tls/Registry.antt =====
-- The linked list of sessions: making, finding and freeing them.
pub mod Freeing
pub mod Making
use espasync_tcp.Common.{
  ℕ, ◌-◌, ◌≡◌, ◌≢◌, refl, Bool, true, false, Option, none, some, List, [], ◌∷◌, ◌||◌, arith,
  if◌then◌else◌, ◌==◌, is_some,
}
use espasync_tcp.Lwip.{Pcb}
use espasync_tcp.Client.State.{KeyType}
use espasync_tcp.Tls.State.{Engine, Session, Glue}

module _ {E : Type 0} where
  -- `find_ssl_pcb`
  unfoldable pub find_ssl_pcb : Pcb → List (Session E) → Option (Session E)
  find_ssl_pcb p [] = none
  find_ssl_pcb p (n ∷ ns) = if n.tcp == p then some n else find_ssl_pcb p ns

  -- the loop of `tcp_ssl_free`; `none` if there is no such session
  unfoldable pub unlink : Pcb → List (Session E) → Option (List (Session E))
  unlink p [] = none
  unlink p (n ∷ ns) =
      if n.tcp == p then some ns else elim (unlink p ns) [ none ↦ none | some r ↦ some (n ∷ r) ]

  -- `tcp_ssl_free`: whether it returned 0
  unfoldable pub tcp_ssl_free : Pcb → Glue E → Bool × Glue E
  tcp_ssl_free p g = elim (unlink p g.sessions) [
    | none ↦ (false, g)
    | some r ↦ (true, record g { sessions = r })
  ]

  -- `tcp_ssl_has`
  unfoldable pub tcp_ssl_has : Pcb → Glue E → Bool
  tcp_ssl_has p g = is_some (find_ssl_pcb p g.sessions)

  -- `tcp_ssl_get_ssl`: `dummy_ssl` of the session, by the session's address
  unfoldable tcp_ssl_get_ssl : Pcb → Glue E → Option ℕ
  tcp_ssl_get_ssl p g = elim (find_ssl_pcb p g.sessions) [ none ↦ none | some n ↦ some n.address ]

  abbrev pub change : (Session E → Session E) → Pcb → List (Session E) → List (Session E)
  change f p [] = []
  change f p (n ∷ ns) = if n.tcp == p then f n ∷ ns else n ∷ change f p ns

  -- `tcp_ssl_arg`, `tcp_ssl_data`, `tcp_ssl_handshake` and `tcp_ssl_err` with a function
  unfoldable pub tcp_ssl_arg : Pcb → Glue E → Glue E
  tcp_ssl_arg p g = record g { sessions = change (λ n. record n { has_arg = true }) p g.sessions }

  unfoldable pub tcp_ssl_data : Pcb → Glue E → Glue E
  tcp_ssl_data p g = record g { sessions = change (λ n. record n { on_data = true }) p g.sessions }

  unfoldable pub tcp_ssl_handshake : Pcb → Glue E → Glue E
  tcp_ssl_handshake p g = record g {
    sessions = change (λ n. record n { on_handshake = true }) p g.sessions;
  }

  unfoldable pub tcp_ssl_err : Pcb → Glue E → Glue E
  tcp_ssl_err p g = record g { sessions = change (λ n. record n { on_error = true }) p g.sessions }

  -- the members as `tcp_ssl_new_client` and `tcp_ssl_new_server` set them
  abbrev pub new_session : ℕ → Pcb → Bool → E → Session E
  new_session a p is_server e = record {
    address = a;
    tcp = p;
    engine = e;
    is_server = is_server;
    handshake_done = false;
    has_arg = false;
    on_data = false;
    on_handshake = false;
    on_error = false;
    accum = [];
  }

  abbrev pub link : Session E → Glue E → Glue E
  link n g = record g { sessions = n ∷ g.sessions }

  -- `tcp_ssl_new_server`: whether it returned 0. `memory` is the address of the new session and
  -- whether its buffers could be had; `key` is the type of the context's private key.
  unfoldable pub tcp_ssl_new_server :
      Engine E → Option (ℕ × Bool) → Option Pcb → Option (Option KeyType) → Glue E → Bool × Glue E
  tcp_ssl_new_server b memory none ctx g = (false, g)
  tcp_ssl_new_server b memory (some p) none g = (false, g)
  tcp_ssl_new_server b none (some p) (some key) g = (false, g)
  tcp_ssl_new_server b (some (a, buffers)) (some p) (some key) g =
      if buffers
      then elim key [
        | none ↦ (false, g)
        | some _ ↦ (true, link (new_session a p true b.new_server) g)
      ]
      else (false, g)
