-- ===== src/Checks/Relay.antt =====
-- An engine for the null cipher that holds one byte, and a session on it.
use espasync_tcp.Common.{
  ℕ, ◌≤◌, ◌<◌, ◌≡◌, refl, sym, ap, ◌∙◌, true, false, Option, none, some, List, [], ◌∷◌, ◌++◌,
  append_assoc, append-nil, arith, if◌then◌else◌, length, is_some,
}
use espasync_tcp.Tls.State.{Engine, Session, Glue}
use espasync_tcp.Tls.Progress.{Drains}
use espasync_tcp.Tls.Plaintext.{Decrypts}

pub record Relay : Type 0 where
  pub given_out : List ℕ
  pub waiting : Option ℕ

abbrev pub held : Option ℕ → List ℕ
held none = []
held (some x) = x ∷ []

abbrev pub fill : List ℕ → Option ℕ → Option ℕ
fill (x ∷ xs) none = some x
fill bytes o = o

abbrev pub relaying : Engine Relay
relaying = record {
  closed = λ _. false;
  recvapp = λ e. is_some e.waiting;
  sendapp = λ _. true;
  last_error = λ _. 0;
  recvapp_buf = λ e. held e.waiting;
  recvapp_ack = λ e. record { given_out = e.given_out ++ held e.waiting; waiting = none };
  sendrec_buf = λ _. [];
  sendrec_ack = λ e. e;
  sendapp_room = λ _. 100;
  sendapp_put = λ _ e. e;
  recvrec_room = λ e. if is_some e.waiting then 0 else 1;
  recvrec_put = λ bytes e. record e { waiting = fill bytes e.waiting };
  flush = λ e. e;
  new_client = λ _. none;
  new_server = record { given_out = []; waiting = none };
}

pub held-fill :
    (bytes : List ℕ) (o : Option ℕ)
    → length bytes ≤ (if is_some o then 0 else 1)
    → held (fill bytes o) ≡ held o ++ bytes
held-fill [] none h = refl
held-fill [] (some z) h = refl
held-fill (x ∷ []) none h = refl
held-fill (x ∷ y ∷ ys) none h = absurd (omega arith)
held-fill (x ∷ xs) (some z) h = absurd (omega arith)

pub held-length : (o : Option ℕ) → is_some o ≡ true → 0 < length (held o)
held-length none h = absurd cc
held-length (some x) h = omega arith

pub held-short : (o : Option ℕ) → length (held o) < 1024
held-short none = omega arith
held-short (some x) = omega arith

pub held-none : (o : Option ℕ) → is_some o ≡ false → held o ≡ []
held-none none h = refl
held-none (some x) h = absurd cc

abbrev pub relaying-Decrypts : Decrypts relaying
relaying-Decrypts = record {
  opened = λ bytes. bytes;
  consumed = λ e. e.given_out ++ held e.waiting;
  given = λ e. e.given_out;
  put_consumed = λ bytes e h.
      ap (◌++◌ e.given_out) (held-fill bytes e.waiting h)
      ∙ sym (append_assoc e.given_out (held e.waiting) bytes);
  put_given = λ bytes e h. refl;
  take_consumed = λ e. append-nil _;
  take_given = λ e. refl;
  send_consumed = λ e. refl;
  send_given = λ e. refl;
  some_waits = λ e h. held-length e.waiting h;
  part_waits = λ e. held-short e.waiting;
  all_given = λ e o h. ap (◌++◌ e.given_out) (held-none e.waiting h) ∙ append-nil _;
}

pub held-few : (o : Option ℕ) → length (held o) < 2
held-few none = omega arith
held-few (some x) = omega arith

pub held-work : (o : Option ℕ) → 0 < length (held o) → length (held none) < length (held o)
held-work o h = h

pub relaying-Drains : Drains relaying 2
relaying-Drains = record {
  work = λ e. length (held e.waiting);
  bounded = λ e. held-few e.waiting;
  recvapp_less = λ e h. held-work e.waiting h;
  sendrec_less = λ e h. absurd (omega arith);
}

-- the session of pcb 5; the engine holds a byte, and two bytes wait
abbrev pub session : Session Relay
session = record {
  address = 64;
  tcp = 5;
  engine = record { given_out = []; waiting = some 9 };
  is_server = false;
  handshake_done = true;
  has_arg = true;
  on_data = true;
  on_handshake = true;
  on_error = true;
  accum = 1 ∷ 2 ∷ [];
}

abbrev pub sessions : Glue Relay
sessions = record { sessions = session ∷ []; effects = []; fault = false }
