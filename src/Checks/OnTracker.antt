-- ===== src/Checks/OnTracker.antt =====
-- Examples for the error tracker.
use espasync_tcp.Common.{◌≤◌, [], ◌∷◌}
use espasync_tcp.Lwip.{abrt}
use espasync_tcp.Tracker.{new_tracker, ee_error_cb}
use espasync_tcp.Tracker.Report.{
  reports, abrt_count, abrts_left, abrt_count-reports, sets_close_error, sets_errored,
  gets_callback_close_error,
}

abrt_count-reports_example :
    abrt_count (
      reports
        (sets_close_error abrt
          ∷ gets_callback_close_error
          ∷ sets_errored ee_error_cb
          ∷ gets_callback_close_error
          ∷ [])
        new_tracker)
    ≤ abrts_left new_tracker
abrt_count-reports_example =
    abrt_count-reports
      (sets_close_error abrt
        ∷ gets_callback_close_error
        ∷ sets_errored ee_error_cb
        ∷ gets_callback_close_error
        ∷ [])
      new_tracker
