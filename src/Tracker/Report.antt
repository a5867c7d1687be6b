-- ===== src/Tracker/Report.antt =====
-- What a run of calls on one tracker can report to lwIP.
use espasync_tcp.Common.{
  ℕ, ◌+◌, ◌≤◌, ◌≡◌, refl, true, false, List, [], ◌∷◌, inl, inr, arith, if◌then◌else◌, Bool-cases,
}
use espasync_tcp.Lwip.{Err, ok, is_abrt}
use espasync_tcp.Tracker.{
  Tracker, ErrorEvent, is_ee_ok, clear_client, set_close_error, set_errored,
  get_callback_close_error,
}

-- The calls that a client makes on its tracker.
pub data Op : Type 0 where
  clears_client : Op
  sets_close_error : Err → Op
  sets_errored : ErrorEvent → Op
  gets_callback_close_error : Op

-- The values that the `get_callback_close_error` calls of a run return, in order.
pub reports : List Op → Tracker → List Err
unfolding clear_client set_close_error set_errored get_callback_close_error
reports [] t = []
reports (clears_client ∷ ops) t = reports ops (clear_client t)
reports (sets_close_error e ∷ ops) t = reports ops (set_close_error e t)
reports (sets_errored ee ∷ ops) t = reports ops (set_errored ee t)
reports (gets_callback_close_error ∷ ops) t =
    let (e, t') = get_callback_close_error t in e ∷ reports ops t'

pub abrt_count : List Err → ℕ
unfolding is_abrt
abrt_count [] = 0
abrt_count (e ∷ es) = (if is_abrt e then 1 else 0) + abrt_count es

-- Every listed code is `ERR_OK`.
abbrev AllOk : List Err → Type 0
AllOk [] = Unit {0}
AllOk (e ∷ es) = (e ≡ ok) × AllOk es

set_close_error-errored :
    (e : Err) (t : Tracker) → is_ee_ok t.errored ≡ false → set_close_error e t ≡ t
unfolding set_close_error
set_close_error-errored e t h = rw h

set_errored-errored :
    (ee : ErrorEvent) (t : Tracker) → is_ee_ok t.errored ≡ false → set_errored ee t ≡ t
unfolding set_errored
set_errored-errored ee t h = rw h

get-errored : (t : Tracker) → is_ee_ok t.errored ≡ false → get_callback_close_error t ≡ (ok, t)
unfolding get_callback_close_error
get-errored t h = rw h

-- Once a tracker holds an error event, every later call of `getCallbackCloseError` returns
-- `ERR_OK`, whatever is set in between.
reports-AllOk : (ops : List Op) (t : Tracker) → is_ee_ok t.errored ≡ false → AllOk (reports ops t)
unfolding reports clear_client
reports-AllOk [] t h = tt
reports-AllOk (clears_client ∷ ops) t h = reports-AllOk ops _ h
reports-AllOk (sets_close_error e ∷ ops) t h =
    rw (set_close_error-errored e t h) (reports-AllOk ops t h)
reports-AllOk (sets_errored ee ∷ ops) t h = rw (set_errored-errored ee t h) (reports-AllOk ops t h)
reports-AllOk (gets_callback_close_error ∷ ops) t h =
    rw (get-errored t h) (refl, reports-AllOk ops t h)

AllOk-abrt_count : (es : List Err) → AllOk es → abrt_count es ≡ 0
unfolding abrt_count
AllOk-abrt_count [] h = refl
AllOk-abrt_count (e ∷ es) h = rw (h.0) (omega (arith, AllOk-abrt_count es h.1))

-- A report leaves the tracker errored if it is `ERR_ABRT`.
get-abrt :
    (t : Tracker)
    → is_abrt (get_callback_close_error t).0 ≡ true
    → is_ee_ok (get_callback_close_error t).1.errored ≡ false
unfolding get_callback_close_error
get-abrt t h = ground arith

-- In any run of calls, `ERR_ABRT` is reported at most once.
single_abrt : (ops : List Op) (t : Tracker) → abrt_count (reports ops t) ≤ 1
unfolding reports abrt_count
single_abrt [] t = omega arith
single_abrt (clears_client ∷ ops) t = single_abrt ops _
single_abrt (sets_close_error e ∷ ops) t = single_abrt ops _
single_abrt (sets_errored ee ∷ ops) t = single_abrt ops _
single_abrt (gets_callback_close_error ∷ ops) t =
    let (e, t') = get_callback_close_error t in
    elim (Bool-cases (is_abrt e)) [
      | inl hit ↦ rw hit (omega (arith, AllOk-abrt_count _ (reports-AllOk ops t' (get-abrt t hit))))
      | inr miss ↦ rw miss (omega (arith, single_abrt ops t'))
    ]

-- The reports of `ERR_ABRT` that a tracker has left: one, and none once it holds an error event.
abbrev pub abrts_left : Tracker → ℕ
abrts_left t = if is_ee_ok t.errored then 1 else 0

-- In any run of calls on any tracker, `getCallbackCloseError` returns `ERR_ABRT` at most once, and
-- not at all if the tracker holds an error event when the run starts.
pub abrt_count-reports : (ops : List Op) (t : Tracker) → abrt_count (reports ops t) ≤ abrts_left t
abrt_count-reports ops t = elim (Bool-cases (is_ee_ok t.errored)) [
  | inl fresh ↦ rw fresh (single_abrt ops t)
  | inr errored ↦ rw errored (omega (arith, AllOk-abrt_count _ (reports-AllOk ops t errored)))
]
