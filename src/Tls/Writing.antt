-- ===== src/Tls/Writing.antt =====
-- What `tcp_ssl_write` takes from the application.
use espasync_tcp.Common.{
  ℕ, ◌≡◌, refl, Option, some, List, arith, if◌then◌else◌, ltb, ◌==◌, not, length, take,
  option-found, if-split, ap, ◌∙◌, subst,
}
use espasync_tcp.Lwip.{Pcb}
use espasync_tcp.Tls.State.{Engine, Session, Glue, Effect, deref, store}
use espasync_tcp.Tls.Registry.{find_ssl_pcb}
use espasync_tcp.Tls.Process.{Upper, process}
use espasync_tcp.Tls.Progress.{Passive, Drains, Kept, fed_bytes, process-Kept, deref-store}
use espasync_tcp.Tls.Io.{tcp_ssl_write, ◌>>=◌}

module _ {E : Type 0} (b : Engine E) (up : Upper E) (sndbuf : List Effect → Pcb → ℕ)
    (fuel : ℕ) where
  -- what the engine can take of the offered bytes
  abbrev pub acceptable : Session E → List ℕ → ℕ
  acceptable n bytes =
      if b.sendapp n.engine
      then (if ltb (b.sendapp_room n.engine) (length bytes)
          then b.sendapp_room n.engine
          else length bytes)
      else 0

  -- the call ended and returned that count, and the session is `Kept`
  abbrev pub Accepts : Session E → List ℕ → Glue E → Option (Option ℕ × Glue E) → Type 0
  Accepts n bytes g o =
      (g' : Glue E) × (o ≡ some (some (acceptable n bytes), g')) × Kept n.address n g g'

  module _ (passive : Passive up) (drains : Drains b fuel) where
    processed :
        (n m : Session E) (g g0 : Glue E) (k : ℕ) (bytes : List ℕ)
        → deref n.address g0.sessions ≡ some m
        → m.tcp ≡ n.tcp
        → m.accum ≡ n.accum
        → g0.effects ≡ g.effects
        → k ≡ acceptable n bytes
        → Accepts n bytes g (process b up sndbuf fuel n.address g0 >>= (λ g'. some (some k, g')))
    processed n m g g0 k bytes h same_tcp same_accum same_effects count =
        let (g', ran, (n', there, accum, tcp, fed_same)) =
          process-Kept b up sndbuf passive fuel n.address drains m g0 h in
        (
          g',
          ap (λ (o : Option (Glue E)). o >>= (λ g'. some (some k, g'))) ran
              ∙ ap (λ (c : ℕ). some (some c, g')) count,
          (
            n',
            there,
            accum ∙ same_accum,
            tcp ∙ same_tcp,
            subst (λ (q : Pcb). fed_bytes q g'.effects ≡ fed_bytes q g0.effects) same_tcp fed_same
                ∙ ap (fed_bytes n.tcp) same_effects,
          ),
        )

    -- On a pcb with a session `tcp_ssl_write` ends and returns how many bytes it took: as many as are
    -- offered and as the engine has room for, and none where the engine takes no data. The session
    -- and its accumulated bytes stay, and nothing is fed to the engine as received. The callbacks
    -- leave the glue alone, and the fuel bounds the engine's work.
    pub tcp_ssl_write-Accepts :
        (p : Pcb) (bytes : List ℕ) (n : Session E) (g : Glue E)
        → find_ssl_pcb p g.sessions ≡ some n
        → deref n.address g.sessions ≡ some n
        → Accepts n bytes g (tcp_ssl_write b up sndbuf fuel p bytes g)
    unfolding tcp_ssl_write
    tcp_ssl_write-Accepts p bytes n g f h =
        let room = b.sendapp_room n.engine in
        let clen : ℕ = if ltb room (length bytes) then room else length bytes in
        let m = record n { engine = b.flush (b.sendapp_put (take clen bytes) n.engine) } in
        let goal = Accepts n bytes g in
        option-found goal (find_ssl_pcb p g.sessions) _ _ f (
          if-split goal (not (b.sendapp n.engine))
            (λ t. (g, ground arith, (n, h, refl, refl, refl)))
            (λ ready.
              if-split goal (room == 0)
                (λ t. processed n n g g 0 bytes h refl refl refl (ground arith))
                (λ roomy.
                  processed n m g (store m g) clen bytes (deref-store n.address g n m h refl) refl
                    refl refl (ground arith))))
