-- ===== src/Client/Entry.antt =====
-- The static functions that lwIP calls. Each holds the shared error tracker while the method runs,
-- and all but `_s_error` return its `getCallbackCloseError()`.
use espasync_tcp.Common.{ℕ, Option, List}
use espasync_tcp.Lwip.{Pcb, Pbuf, Err, Stack}
use espasync_tcp.Tracker.{get_callback_close_error}
use espasync_tcp.Client.State.{World, App}
use espasync_tcp.Client.Poll.{poll}
use espasync_tcp.Client.Transmit.{sent}
use espasync_tcp.Client.Receive.{recv}
use espasync_tcp.Client.Connect.{on_connected}

abbrev pub answer : World → Err × World
answer w = let (e, t) = get_callback_close_error w.tracker in (e, record w { tracker = t })

module _ (s : Stack) (app : App) where
  unfoldable pub s_poll : World → Err × World
  s_poll w = answer (poll s app w)

  unfoldable pub s_sent : ℕ → World → Err × World
  s_sent len w = answer (sent s app len w)

  unfoldable pub s_recv : Option Pcb → List Pbuf → Err → World → Err × World
  s_recv p pb e w = answer (recv s app p pb e w)

  unfoldable pub s_connected : Option Pcb → Err → World → Err × World
  s_connected p e w = answer (on_connected s app p e w)
