-- ===== src/Checks/OnCiphertext.antt =====
-- An example for what is written, with an engine for the null cipher that holds one byte.
use espasync_tcp.Common.{
  refl, sym, ap, ◌∙◌, true, false, none, [], ◌∷◌, append-nil, append_assoc, arith, ◌++◌, length,
  length-zero,
}
use espasync_tcp.Tls.State.{Engine, Session, Glue, deref}
use espasync_tcp.Tls.Registry.{find_ssl_pcb}
use espasync_tcp.Tls.Progress.{Drains}
use espasync_tcp.Tls.Io.{tcp_ssl_write}
use espasync_tcp.Tls.Ciphertext.{Encrypts, written}
use espasync_tcp.Tls.Ciphertext.Sending.{Sent, tcp_ssl_write-Sent}
use espasync_tcp.Checks.Relay.{
  Relay, held, held-fill, held-short, held-work, held-few, relaying, session,
}

-- what is given out are the records
abbrev sealing : Engine Relay
sealing = record relaying {
  recvapp = λ _. false;
  recvapp_buf = λ _. [];
  recvapp_ack = λ e. e;
  sendrec_buf = λ e. held e.waiting;
  sendrec_ack = relaying.recvapp_ack;
  sendapp_room = relaying.recvrec_room;
  sendapp_put = relaying.recvrec_put;
}

abbrev sealing-Encrypts : Encrypts sealing
sealing-Encrypts = record {
  unsealed = λ bytes. bytes;
  accepted = λ e. e.given_out ++ held e.waiting;
  emitted = λ e. e.given_out;
  flushed = λ e. true;
  put_accepted = λ bytes e h.
      ap (◌++◌ e.given_out) (held-fill bytes e.waiting h)
      ∙ sym (append_assoc e.given_out (held e.waiting) bytes);
  put_emitted = λ bytes e. refl;
  flush_accepted = λ e. refl;
  flush_emitted = λ e. refl;
  flush_flushed = λ e. refl;
  send_accepted = λ e. append-nil _;
  send_emitted = λ e. refl;
  send_flushed = λ e. refl;
  take_accepted = λ e. refl;
  take_emitted = λ e. refl;
  take_flushed = λ e. refl;
  part_sends = λ e. held-short e.waiting;
  all_sent = λ e r h.
      sym (append-nil e.given_out) ∙ ap (◌++◌ e.given_out) (sym (length-zero (held e.waiting) h));
}

sealing-Drains : Drains sealing 2
sealing-Drains = record {
  work = λ e. length (held e.waiting);
  bounded = λ e. held-few e.waiting;
  recvapp_less = λ e h. absurd (omega arith);
  sendrec_less = λ e h. held-work e.waiting h;
}

abbrev idle : Session Relay
idle = record session { engine = record { given_out = []; waiting = none } }

abbrev one_idle : Glue Relay
one_idle = record { sessions = idle ∷ []; effects = []; fault = false }

-- One of the two bytes is taken.
tcp_ssl_write-Sent_example :
    Sent sealing
      (λ p u g. g)
      (λ es q. 2000)
      2
      (λ p u g. refl)
      sealing-Encrypts
      (λ es q e. omega (arith, held-short e.waiting))
      sealing-Drains
      5
      []
      idle
      (7 ∷ 8 ∷ [])
      (tcp_ssl_write sealing (λ p u g. g) (λ es q. 2000) 2 5 (7 ∷ 8 ∷ []) one_idle)
unfolding deref find_ssl_pcb written
tcp_ssl_write-Sent_example =
    tcp_ssl_write-Sent sealing (λ p u g. g) (λ es q. 2000) 2 (λ p u g. refl) sealing-Encrypts
      (λ es q e. omega (arith, held-short e.waiting)) sealing-Drains 5 [] (7 ∷ 8 ∷ []) idle one_idle
      refl refl refl refl refl
