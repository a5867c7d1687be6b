-- ===== src/Buffer/Overloads.antt =====
-- The overloads of `write` and `readBytes`, and the methods of `AsyncTCPBuffer` that only ask the
-- client.
use espasync_tcp.Common.{ℕ, Bool, Option, some, List, [], ◌∷◌, if◌then◌else◌, take}
use espasync_tcp.Lwip.{Handler}
use espasync_tcp.Client.Access.{strlen}
use espasync_tcp.Buffer.Cbuf.{Cbuf}
use espasync_tcp.Buffer.Outlet.{Outlet}
use espasync_tcp.Buffer.State.{Buffer, Heap, Hooks, Run}
use espasync_tcp.Buffer.Transmit.{write}
use espasync_tcp.Buffer.Receive.{read_bytes_into}
use espasync_tcp.Buffer.Lifecycle.{stop}

module _ {B C : Type 0} (c : Cbuf B) (o : Outlet C) (heap : Heap) where
  -- `write(String&)`, of the bytes that the string has
  unfoldable write_string : ℕ → List ℕ → Buffer B C → Run (ℕ × Buffer B C)
  write_string f text s = write c o heap f (some text) s

  -- `write(uint8_t)`
  unfoldable write_byte : ℕ → ℕ → Buffer B C → Run (ℕ × Buffer B C)
  write_byte f x s = write c o heap f (some (x ∷ [])) s

  -- `write(const char*)`, up to the terminating zero
  unfoldable write_chars : ℕ → List ℕ → Buffer B C → Run (ℕ × Buffer B C)
  write_chars f text s = write c o heap f (some (take (strlen text) text)) s

  -- `remoteIP` and `remotePort`, of a client with this address and port
  unfoldable peer_ip : (C → ℕ) → Buffer B C → ℕ
  peer_ip ip s = if s.attached then ip s.client else 0

  unfoldable peer_port : (C → ℕ) → Buffer B C → ℕ
  peer_port port s = if s.attached then port s.client else 0

  -- `readBytes(uint8_t*, length, done)`
  unfoldable read_octets : Bool → ℕ → Option Handler → Buffer B C → Buffer B C
  read_octets there n done s = read_bytes_into there n done s

  -- `close`
  unfoldable close : Hooks B C → Buffer B C → Buffer B C
  close hooks s = stop c o heap hooks s
