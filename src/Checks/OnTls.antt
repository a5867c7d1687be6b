-- ===== src/Checks/OnTls.antt =====
-- Examples for the TLS glue, with an engine that echoes.
use espasync_tcp.Common.{
  ℕ, Bool, if◌then◌else◌, zero, suc, ap, ◌≡◌, ◌≢◌, refl, true, false, none, some, List, [], ◌∷◌,
  arith, length,
}
use espasync_tcp.Lwip.{Pcb}
use espasync_tcp.Client.State.{ec}
use espasync_tcp.Tls.State.{Engine, Session, Glue, Effect, deref}
use espasync_tcp.Tls.Registry.{find_ssl_pcb, tcp_ssl_free, tcp_ssl_has, tcp_ssl_new_server}
use espasync_tcp.Tls.Registry.Freeing.{Distinct, tcp_ssl_free-frees}
use espasync_tcp.Tls.Registry.Making.{tcp_ssl_free-tcp_ssl_new_server}
use espasync_tcp.Tls.Process.{Upper, process}
use espasync_tcp.Tls.Progress.{Passive, Drains, Kept, fed_bytes, process-Kept}
use espasync_tcp.Tls.Freed.{process-uses_freed}
use espasync_tcp.Tls.Io.{tcp_ssl_read}
use espasync_tcp.Tls.Delivery.Overflow.{tcp_ssl_read-overflow}

-- An engine that answers what it is fed with a record of one byte, and takes at most four bytes
-- until that record is sent.
abbrev echoing : Engine Bool
echoing = record {
  closed = λ _. false;
  recvapp = λ _. false;
  sendapp = λ _. true;
  last_error = λ _. 0;
  recvapp_buf = λ _. [];
  recvapp_ack = λ e. e;
  sendrec_buf = λ e. if e then 22 ∷ [] else [];
  sendrec_ack = λ _. false;
  sendapp_room = λ _. 100;
  sendapp_put = λ _ e. e;
  recvrec_room = λ e. if e then 0 else 4;
  recvrec_put = λ _ _. true;
  flush = λ e. e;
  new_client = λ _. some true;
  new_server = false;
}

abbrev silent : Upper Bool
silent p u g = g

abbrev wide : List Effect → Pcb → ℕ
wide _ _ = 1000

silent-Passive : Passive silent
silent-Passive p u g = refl

echoing-Drains : Drains echoing 2
echoing-Drains = record {
  work = λ e. if e then 1 else 0;
  bounded = λ e. ground arith;
  recvapp_less = λ e h. absurd (omega arith);
  sendrec_less = λ e h. ground arith;
}

-- the session of pcb 5, with a record to send and two bytes that wait
abbrev waiting : Session Bool
waiting = record {
  address = 64;
  tcp = 5;
  engine = true;
  is_server = true;
  handshake_done = true;
  has_arg = true;
  on_data = true;
  on_handshake = true;
  on_error = true;
  accum = 1 ∷ 2 ∷ [];
}

abbrev glue : Glue Bool
glue = record { sessions = waiting ∷ []; effects = []; fault = false }

process-Kept_example :
    (g' : Glue Bool) × (process echoing silent wide 2 64 glue ≡ some g') × Kept 64 waiting glue g'
unfolding deref
process-Kept_example =
    process-Kept echoing silent wide silent-Passive 2 64 echoing-Drains waiting glue refl

abbrev zeros : ℕ → List ℕ
zeros zero = []
zeros (suc n) = 0 ∷ zeros n

length-zeros : (n : ℕ) → length (zeros n) ≡ n
length-zeros zero = refl
length-zeros (suc n) = ap suc (length-zeros n)

tcp_ssl_read-overflow_example :
    (g' : Glue Bool) × (tcp_ssl_read echoing silent wide 2 5 (zeros 1460) glue ≡ some (false, g'))
    × (fed_bytes 5 g'.effects ≡ fed_bytes 5 [])
unfolding deref find_ssl_pcb
tcp_ssl_read-overflow_example =
    tcp_ssl_read-overflow echoing silent wide 2 silent-Passive echoing-Drains 5 (zeros 1460) waiting
      glue refl refl (omega (arith, length-zeros 1460))

tcp_ssl_free-frees_example :
    let (freed, g') = tcp_ssl_free 5 glue in
    (freed ≡ tcp_ssl_has 5 glue)
    × (tcp_ssl_has 5 g' ≡ false)
    × ((q : Pcb) → q ≢ 5 → find_ssl_pcb q g'.sessions ≡ find_ssl_pcb q glue.sessions)
    × Distinct g'.sessions
    × (freed ≡ false → g' ≡ glue)
unfolding find_ssl_pcb
tcp_ssl_free-frees_example = tcp_ssl_free-frees 5 glue (refl, tt)

tcp_ssl_free-tcp_ssl_new_server_example :
    let (made, g') = tcp_ssl_new_server echoing (some (80, true)) (some 6) (some (some ec)) glue in
    (made ≡ true)
    × (tcp_ssl_has 6 g' ≡ true)
    × Distinct g'.sessions
    × (tcp_ssl_free 6 g' ≡ (true, glue))
unfolding find_ssl_pcb tcp_ssl_has tcp_ssl_new_server
tcp_ssl_free-tcp_ssl_new_server_example =
    tcp_ssl_free-tcp_ssl_new_server echoing 80 6 ec glue refl (refl, tt)

-- An engine with two bytes for the application, on a connection whose data handler frees the session.
abbrev receiving : Engine Bool
receiving = record echoing {
  recvapp = λ e. e;
  recvapp_buf = λ _. 7 ∷ 8 ∷ [];
  recvapp_ack = λ _. false;
}

abbrev freeing : Upper Bool
freeing p u g = (tcp_ssl_free p g).1

process-uses_freed_example :
    (g' : Glue Bool) × (process receiving freeing wide 2 64 glue ≡ some g')
    × (deref 64 g'.sessions ≡ none)
    × (g'.fault ≡ true)
unfolding find_ssl_pcb deref
process-uses_freed_example =
    process-uses_freed receiving freeing wide 0 waiting glue (λ p bytes x. refl) refl (refl, tt)
      refl refl refl (omega arith) (omega arith)
