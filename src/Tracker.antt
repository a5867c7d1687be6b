-- ===== src/Tracker.antt =====
-- src/ESPAsyncTCPErrorTracker.cpp: the error that the lwIP callbacks of a client return.
pub mod Report
pub mod Names
use espasync_tcp.Common.{ℕ, Bool, true, false, ◌&&◌, if◌then◌else◌}
use espasync_tcp.Lwip.{Err, ok, is_abrt}

-- `enum error_events`; `EE_MAX` is a count and no event.
pub data ErrorEvent : Type 0 where
  ee_ok ee_aborted ee_error_cb ee_connected_cb ee_recv_cb ee_accept_cb : ErrorEvent

-- `ACErrorTracker`. `_client` is kept only to be compared with NULL.
pub record Tracker : Type 0 where
  pub has_client : Bool
  pub close_error : Err
  pub errored : ErrorEvent

unfoldable pub is_ee_ok : ErrorEvent → Bool
is_ee_ok ee_ok = true
is_ee_ok _ = false

unfoldable pub new_tracker : Tracker
new_tracker = record { has_client = true; close_error = ok; errored = ee_ok }

unfoldable pub clear_client : Tracker → Tracker
clear_client t = record t { has_client = false }

unfoldable pub set_close_error : Err → Tracker → Tracker
unfolding is_ee_ok
set_close_error e t = if is_ee_ok t.errored then record t { close_error = e } else t

unfoldable pub set_errored : ErrorEvent → Tracker → Tracker
unfolding is_ee_ok
set_errored ee t = if is_ee_ok t.errored then record t { errored = ee } else t

unfoldable pub get_callback_close_error : Tracker → Err × Tracker
unfolding is_ee_ok set_errored is_abrt
get_callback_close_error t =
    if is_ee_ok t.errored
    then (t.close_error, if is_abrt t.close_error then set_errored ee_aborted t else t)
    else (ok, t)
