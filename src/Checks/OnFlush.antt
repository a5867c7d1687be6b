-- ===== src/Checks/OnFlush.antt =====
-- An example for `flush`, on a client that is busy until the next delay.
use espasync_tcp.Common.{
  ℕ, ◌≡◌, ◌<◌, refl, Bool, true, false, not, none, List, [], ◌∷◌, ◌++◌, arith, length,
  if◌then◌else◌, ◌⊎◌,
}
use espasync_tcp.Buffer.Outlet.{Outlet, Accepts}
use espasync_tcp.Buffer.State.{Buffer, rx_mode_free, returns}
use espasync_tcp.Buffer.Transmit.{flush, connected}
use espasync_tcp.Buffer.Transmit.Order.{queued}
use espasync_tcp.Buffer.Transmit.Flushing.{Yields}
use espasync_tcp.Buffer.Transmit.Session.{writes, flush-writes}
use espasync_tcp.Checks.Rings.{Ring, ring_ops, ring_ops-IsQueue, heap}

record Line : Type 0 where
  sent : List ℕ
  busy : Bool

abbrev outlet : Outlet Line
outlet = record {
  connected = λ _. true;
  can_send = λ x. not x.busy;
  space = λ _. 2;
  write = λ bytes x. (length bytes, record { sent = x.sent ++ bytes; busy = true });
  close = λ x. x;
  destroy = λ x. x;
  attach = λ k x. x;
}

abbrev outlet-Accepts : Accepts outlet (λ x. x ≡ x)
outlet-Accepts = record {
  wire = λ x. x.sent;
  write_ready = λ bytes x h. refl;
  write_all = λ bytes x h up can l k. (refl, refl, refl);
}

-- The acknowledgement arrives.
abbrev delay : Buffer Ring Line → Buffer Ring Line
delay s = record s { client = record s.client { busy = false } }

abbrev patience : Buffer Ring Line → ℕ
patience s = if s.client.busy then 1 else 0

roomy : (x : Line) → outlet.can_send x ≡ true → 0 < outlet.space x
roomy x h = omega arith

yields :
    Yields ring_ops outlet heap ring_ops-IsQueue outlet-Accepts (λ n. refl) roomy delay patience
yields = record {
  keeps_stream = λ s h. refl;
  keeps_health = λ s h. ((h.0.0, refl), h.1);
  queues_nothing = λ s h. omega arith;
  wakes = λ s h up no. ground arith;
}

-- five bytes in two rings
abbrev buffer : Buffer Ring Line
buffer = record {
  attached = true;
  client = record { sent = []; busy = true };
  tx = record { items = 1 ∷ 2 ∷ 3 ∷ []; free = 0 } ∷ record { items = 4 ∷ 5 ∷ []; free = 9 } ∷ [];
  rx = none;
  rx_mode = rx_mode_free;
  rx_size = 0;
  rx_terminator = 0;
  read_bytes = none;
  read_string = none;
  cb_rx = none;
  cb_done = none;
  cb_disconnect = none;
  asked = 0;
  deleted = false;
  fault = false;
}

-- Two calls of `write` behind what is queued; the client is busy all along.
abbrev more : List (List ℕ)
more = (6 ∷ 7 ∷ []) ∷ (8 ∷ []) ∷ []

flush-writes_example :
    (taken : List ℕ) × (s1 : Buffer Ring Line) × (s2 : Buffer Ring Line) × (writes ring_ops outlet
        heap 2 more buffer
      ≡ returns (taken, s1))
    × (flush ring_ops outlet heap delay 2 9 s1 ≡ returns s2)
    × ((s2.client.sent ≡ (1 ∷ 2 ∷ 3 ∷ 4 ∷ 5 ∷ []) ++ taken)
        ⊎ (connected ring_ops outlet heap s2 ≡ false))
unfolding queued
flush-writes_example =
    flush-writes ring_ops outlet heap ring_ops-IsQueue outlet-Accepts (λ n. refl) roomy delay
      patience yields 0 9 more buffer (λ s. ground arith) (omega arith, refl)
      (omega arith, (omega arith, tt)) (omega arith)
