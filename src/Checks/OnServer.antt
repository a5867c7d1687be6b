-- ===== src/Checks/OnServer.antt =====
-- Examples for the server.
use espasync_tcp.Common.{◌≡◌, refl, true, false, none, some, []}
use espasync_tcp.Lwip.{ok, mem, use_, is_ok, Stack}
use espasync_tcp.Server.{Server, new_server, begin, begin_secure, end, status, accept}
use espasync_tcp.Server.Lifecycle.{
  Started, begin-Started, end-releases, released, begin_secure-stuck,
}
use espasync_tcp.Server.Accepting.{Settled, accept-Settled}
use espasync_tcp.Checks.Samples.{stack, inert}

abbrev stopped : Server
stopped = new_server 80 []

-- It listens on pcb 3, with a connect handler.
abbrev listening : Server
listening = record stopped { pcb = some 3; connect_cb = some 6 }

-- The port is taken.
abbrev taken : Stack
taken = record (stack ok) { bind_result = λ _ _. use_ }

begin-Started_example : Started (stack ok) stopped (begin (stack ok) stopped)
begin-Started_example = begin-Started (stack ok) stopped refl

accept-Settled_example :
    Settled (stack mem) inert 5 listening (accept (stack mem) inert (some 5) ok listening)
accept-Settled_example = accept-Settled (stack mem) inert 5 listening

end-releases_example :
    ((end (stack mem) listening).pcb ≡ none)
    × ((end (stack mem) listening).ssl_ctx ≡ false)
    × (status (stack mem) (end (stack mem) listening) ≡ 0)
    × (end (stack mem) (end (stack mem) listening) ≡ end (stack mem) listening)
    × ((end (stack mem) listening).trace ≡ released (stack mem) listening)
end-releases_example = end-releases (stack mem) listening

begin_secure-stuck_example :
    (begin_secure (stack ok) true (begin_secure taken true stopped)
      ≡ begin_secure taken true stopped)
    × ((begin_secure (stack ok) true (end taken (begin_secure taken true stopped))).pcb
        ≡ (begin (stack ok) (record (begin_secure taken true stopped) { ssl_ctx = true })).pcb)
unfolding begin_secure is_ok
begin_secure-stuck_example = begin_secure-stuck taken (stack ok) stopped true refl refl
