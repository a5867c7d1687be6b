-- ===== src/Tls/Process.antt =====
-- `process_ssl_engine`: moving data between the engine, the application and lwIP.
use espasync_tcp.Common.{
  ℕ, zero, suc, ◌&&◌, ◌||◌, Bool, true, not, Option, none, some, List, if◌then◌else◌, ltb, leb,
  length,
}
use espasync_tcp.Lwip.{Pcb, Upcall, data_up, handshake_up, error_up}
use espasync_tcp.Tls.State.{
  Engine, Session, Glue, Effect, wrote, output, called, emit, use_freed, deref, store,
  in_buffer_size, out_buffer_size,
}

-- What the client does in its TLS callbacks: any change of the glue, freeing the session included.
abbrev pub Upper : Type 0 → Type 0
Upper E = Pcb → Upcall → Glue E → Glue E

-- One round of the loop: it goes on, or `process_ssl_engine` is finished.
pub data Next (E : Type 0) : Type 0 where
  again : Glue E → Next E
  done : Glue E → Next E

module _ {E : Type 0} where
  abbrev pub call_up : Upper E → Bool → Pcb → Upcall → Glue E → Glue E
  call_up up registered p u g = if registered then up p u (emit (called p u) g) else g

  module _ (b : Engine E) (up : Upper E) (sndbuf : List Effect → Pcb → ℕ) where
    unfoldable pub finish_handshake : Session E → Glue E → Glue E
    finish_handshake n g =
        if not n.handshake_done
          && ((n.is_server && b.recvapp n.engine) || (not n.is_server && b.sendapp n.engine))
        then call_up up n.on_handshake n.tcp handshake_up
            (store (record n { handshake_done = true }) g)
        else g

    -- the part of a round that sends a record
    unfoldable pub send_record : Session E → Glue E → Next E
    unfolding finish_handshake
    send_record n g =
        let out = b.sendrec_buf n.engine in
        if ltb 0 (length out)
          && (ltb (length out) out_buffer_size && leb (length out) (sndbuf g.effects n.tcp))
        then again (
            emit (output n.tcp)
              (store (record n { engine = b.sendrec_ack n.engine }) (emit (wrote n.tcp out) g)))
        else done (finish_handshake n g)

    unfoldable pub round : Session E → Glue E → Next E
    unfolding send_record
    round n g =
        let received = b.recvapp_buf n.engine in
        if b.closed n.engine
        then done (call_up up n.on_error n.tcp (error_up (b.last_error n.engine)) g)
        else (if b.recvapp n.engine
              && (ltb 0 (length received) && ltb (length received) in_buffer_size)
            then again (
                call_up up n.on_data n.tcp (data_up received)
                  (store (record n { engine = b.recvapp_ack n.engine }) g))
            else send_record n g)

    -- `process_ssl_engine(ssl_pcb)` with fuel; `none` means that the fuel ran out
    unfoldable pub process : ℕ → ℕ → Glue E → Option (Glue E)
    process zero a g = none
    process (suc f) a g = elim (deref a g.sessions) [
      | none ↦ some (use_freed g)
      | some n ↦ elim (round n g) [ done g' ↦ some g' | again g' ↦ process f a g' ]
    ]
