-- ===== src/Buffer/Outlet.antt =====
-- The client as the buffer sees it, and what the buffer may rely on.
use espasync_tcp.Common.{ℕ, ◌≤◌, ◌<◌, ◌≡◌, Bool, true, false, List, ◌++◌, length}
use espasync_tcp.Lwip.{Handler}

-- The callbacks of a buffer that `_attachCallbacks` hands to the client.
pub record Callbacks : Type 0 where
  pub poll_cb : Handler
  pub ack_cb : Handler
  pub disconnect_cb : Handler
  pub data_cb : Handler
  pub timeout_cb : Handler

-- The calls of `AsyncClient` that the buffer makes; `close` is `close()` and `stop()`, which are
-- `close(false)`, `write` passes the default flags, and `destroy` is `delete`.
-- `attach` is `onPoll`, `onAck`, `onDisconnect`, `onData` and `onTimeout`, one after the other.
pub record Outlet (C : Type 0) : Type 0 where
  pub connected : C → Bool
  pub can_send : C → Bool
  pub space : C → ℕ
  pub write : List ℕ → C → ℕ × C
  pub close : C → C
  pub destroy : C → C
  pub attach : Callbacks → C → C

-- Where `Ready` holds, which a write keeps: a write of bytes for which there is space, of a client
-- that can send, takes all of them, puts them on the wire behind those before, and leaves a client
-- that cannot send for now.
pub record Accepts {C : Type 0} (o : Outlet C) (Ready : C → Type 0) : Type 0 where
  pub wire : C → List ℕ
  pub write_ready : (bytes : List ℕ) (c : C) → Ready c → Ready (o.write bytes c).1
  pub write_all :
      (bytes : List ℕ) (c : C)
      → Ready c
      → o.connected c ≡ true
      → o.can_send c ≡ true
      → 0 < length bytes
      → length bytes ≤ o.space c
      → ((o.write bytes c).0 ≡ length bytes)
        × (wire (o.write bytes c).1 ≡ wire c ++ bytes)
        × (o.can_send (o.write bytes c).1 ≡ false)
