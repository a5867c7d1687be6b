-- ===== src/Tls/Ciphertext/Sending.antt =====
-- `tcp_ssl_write`: the records of the bytes that it takes.
use espasync_tcp.Common.{
  ◌⊎◌, inl, inr, Bool-cases, ℕ, ◌≤◌, ◌≡◌, refl, sym, ap, ◌∙◌, subst, true, false, not, Option, some,
  List, ◌++◌, append-nil, arith, if◌then◌else◌, ltb, ◌==◌, length, take, length-take, option-found,
  if-split,
}
use espasync_tcp.Lwip.{Pcb}
use espasync_tcp.Tls.State.{Engine, Session, Glue, Effect, deref, store}
use espasync_tcp.Tls.Registry.{find_ssl_pcb}
use espasync_tcp.Tls.Process.{Upper, process}
use espasync_tcp.Tls.Progress.{Passive, Drains, process-Kept, deref-store}
use espasync_tcp.Tls.Io.{tcp_ssl_write, ◌>>=◌}
use espasync_tcp.Tls.Writing.{acceptable}
use espasync_tcp.Tls.Ciphertext.{Encrypts, written, Ends, Rests, process-Rests}

module _ {E : Type 0} (b : Engine E) (up : Upper E) (sndbuf : List Effect → Pcb → ℕ) (fuel : ℕ)
    (passive : Passive up) (enc : Encrypts b)
    (roomy : (es : List Effect) (q : Pcb) (e : E) → length (b.sendrec_buf e) ≤ sndbuf es q)
    (drains : Drains b fuel) (p : Pcb) (e0 : List ℕ) where
  abbrev count : Session E → List ℕ → ℕ
  count = acceptable b up sndbuf fuel

  -- The call ended and returned how many bytes it took; the engine accepted these, what it emitted was
  -- written to the connection, and where the engine took data and is open, that is all that it accepted.
  abbrev pub Sent : Session E → List ℕ → Option (Option ℕ × Glue E) → Type 0
  Sent n bytes o =
      (g' : Glue E) × (n' : Session E) × (o ≡ some (some (count n bytes), g'))
      × (deref n.address g'.sessions ≡ some n')
      × (enc.flushed n'.engine ≡ true)
      × (enc.accepted n'.engine ≡ enc.accepted n.engine ++ take (count n bytes) bytes)
      × (enc.emitted n'.engine ≡ e0 ++ written p g'.effects)
      × ((b.sendapp n.engine ≡ false)
          ⊎ (b.closed n'.engine ≡ true)
          ⊎ (enc.unsealed (e0 ++ written p g'.effects) ≡ enc.accepted n'.engine))

  processed :
      (n m : Session E) (g0 : Glue E) (k : ℕ) (bytes : List ℕ)
      → deref n.address g0.sessions ≡ some m
      → m.tcp ≡ p
      → enc.flushed m.engine ≡ true
      → enc.accepted m.engine ≡ enc.accepted n.engine ++ take k bytes
      → enc.emitted m.engine ≡ e0 ++ written p g0.effects
      → k ≡ count n bytes
      → Sent n bytes (process b up sndbuf fuel n.address g0 >>= (λ g'. some (some k, g')))
  processed n m g0 k bytes h same ready took out counted =
      let a = n.address in
      let taken = enc.accepted n.engine ++ take k bytes in
      let (g', ran, kept) = process-Kept b up sndbuf passive fuel a drains m g0 h in
      let (n', there, (same', ready', took', out'), rest) =
        subst
          (Ends b up sndbuf passive enc roomy a p e0 taken
            (Rests b up sndbuf passive enc roomy a p e0 taken))
          ran
          (process-Rests b up sndbuf passive enc roomy a p e0 taken fuel g0
            (m, h, (same, ready, took, out))) in
      (
        g',
        n',
        ap (λ (o : Option (Glue E)). o >>= (λ g1. some (some k, g1))) ran
            ∙ ap (λ (c : ℕ). some (some c, g')) counted,
        there,
        ready',
        took' ∙ ap (λ (c : ℕ). enc.accepted n.engine ++ take c bytes) counted,
        out',
        elim (Bool-cases (b.closed n'.engine)) [
          | inl shut ↦ inr (inl shut)
          | inr open_engine ↦
              inr (
                inr (ap enc.unsealed (sym out') ∙ enc.all_sent n'.engine ready' (rest open_engine)))
        ],
      )

  -- The engine encrypts, the fuel bounds its work, lwIP has room for each record, and the callbacks leave
  -- the glue alone. On a session of `p` whose engine was flushed, and where all that it emitted since
  -- `e0` was written to the connection, `tcp_ssl_write` ends and returns how many
  -- bytes it took: as many as are offered and as the engine has room for, and none where the engine
  -- takes no data. The engine accepted just these, in their order; what it emitted so far was written to
  -- the connection; and where the engine takes data and is still open, what was written is, unsealed,
  -- all that it has accepted.
  pub tcp_ssl_write-Sent :
      (bytes : List ℕ) (n : Session E) (g : Glue E)
      → find_ssl_pcb p g.sessions ≡ some n
      → deref n.address g.sessions ≡ some n
      → n.tcp ≡ p
      → enc.flushed n.engine ≡ true
      → enc.emitted n.engine ≡ e0 ++ written p g.effects
      → Sent n bytes (tcp_ssl_write b up sndbuf fuel p bytes g)
  unfolding tcp_ssl_write
  tcp_ssl_write-Sent bytes n g found h same ready out =
      let room = b.sendapp_room n.engine in
      let clen : ℕ = if ltb room (length bytes) then room else length bytes in
      let put = b.sendapp_put (take clen bytes) n.engine in
      let m = record n { engine = b.flush put } in
      let fits : length (take clen bytes) ≤ room = ground (arith, length-take clen bytes) in
      let goal = Sent n bytes in
      let none_taken : enc.accepted n.engine ≡ enc.accepted n.engine ++ take 0 bytes =
        sym (append-nil _) in
      option-found goal (find_ssl_pcb p g.sessions) _ _ found (
        if-split goal (not (b.sendapp n.engine))
          (λ refuses.
            let counted : 0 ≡ count n bytes = ground (arith, refuses) in
            (
              g,
              n,
              ap (λ (c : ℕ). some (some c, g)) counted,
              h,
              ready,
              none_taken ∙ ap (λ (c : ℕ). enc.accepted n.engine ++ take c bytes) counted,
              out,
              inl (ground (arith, refuses)),
            ))
          (λ takes.
            if-split goal (room == 0)
              (λ full.
                processed n n g 0 bytes h same ready none_taken out (ground (arith, full, takes)))
              (λ has_room.
                processed n m (store m g) clen bytes (deref-store n.address g n m h refl) same
                  (enc.flush_flushed put)
                  (enc.flush_accepted put ∙ enc.put_accepted (take clen bytes) n.engine fits)
                  (enc.flush_emitted put ∙ enc.put_emitted (take clen bytes) n.engine ∙ out)
                  (ground (arith, takes)))))
