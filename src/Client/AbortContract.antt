-- ===== src/Client/AbortContract.antt =====
-- The tracker against the aborts, in `_close`: lwIP requires that a callback returns ERR_ABRT just
-- when it called `tcp_abort` on its pcb.
pub mod Callbacks
pub mod Connecting
use espasync_tcp.Common.{
  ℕ, suc, ◌≡◌, ◌⊎◌, inl, inr, refl, Bool, true, false, Option, none, some, [], ◌∷◌, arith,
  Option-cases, if◌then◌else◌, not, ◌==◌, ◌∙◌,
}
use espasync_tcp.Lwip.{
  Pcb, Handler, Err, Event, Trace, Stack, abrt, ok, is_ok, is_abrt, tcp_abort, tcp_close,
  on_disconnect, bind_slot, err_slot,
}
use espasync_tcp.Tracker.{ee_ok, set_close_error}
use espasync_tcp.Client.State.{World, App, close_error, call_handler, clear_tcp_callbacks}
use espasync_tcp.Client.Teardown.{forget_pcb, release_tls, close_or_abort, shut}

-- how often `tcp_abort` was called
pub aborts : Trace → ℕ
aborts [] = 0
aborts (tcp_abort p ∷ t) = suc (aborts t)
aborts (c ∷ t) = aborts t

-- Since the `n` aborts at the start of the callback, either there was none, and the tracker does
-- not say ERR_ABRT, or there was one, the tracker says so, and the pcb is gone.
abbrev pub Calm : ℕ → World → Type 0
Calm n w =
    (w.tracker.errored ≡ ee_ok) × (aborts w.trace ≡ n) × (is_abrt w.tracker.close_error ≡ false)

abbrev pub Aborted : ℕ → World → Type 0
Aborted n w =
    (w.tracker.errored ≡ ee_ok)
    × (aborts w.trace ≡ suc n)
    × (is_abrt w.tracker.close_error ≡ true)
    × (w.client.pcb ≡ none)

abbrev pub Honest : ℕ → World → Type 0
Honest n w = Calm n w ⊎ Aborted n w

-- the latest `tcp_err` on the pcb registered NULL
unfoldable pub err_cleared : Trace → Pcb → Bool
err_cleared [] p = false
err_cleared (bind_slot err_slot q b ∷ t) p = if q == p then not b else err_cleared t p
err_cleared (c ∷ t) p = err_cleared t p

-- lwIP calls no error function that was taken back.
abbrev pub Quiet : Stack → Type 0
Quiet s = (t : Trace) (p : Pcb) → err_cleared t p ≡ true → s.abort_notifies t p ≡ false

abbrev pub Keeps : App → Type 0
Keeps app = (h : Handler) (e : Event) (n : ℕ) (w : World) → Honest n w → Honest n (app h e w)

ok-not-abrt : (e : Err) → is_ok e ≡ true → is_abrt e ≡ false
unfolding is_ok is_abrt
ok-not-abrt ok h = refl
ok-not-abrt _ h = cc

pub ok-is_abrt : is_abrt ok ≡ false
unfolding is_abrt
ok-is_abrt = refl

abrt-is_abrt : is_abrt abrt ≡ true
unfolding is_abrt
abrt-is_abrt = refl

cleared-clear :
    (p : Pcb) (w : World) → err_cleared (tcp_close p ∷ (clear_tcp_callbacks p w).trace) p ≡ true
unfolding err_cleared clear_tcp_callbacks
cleared-clear p w = ground arith

pub close_error-Calm :
    (n : ℕ) (e : Err) (w : World) → is_abrt e ≡ false → Calm n w → Calm n (close_error e w)
unfolding set_close_error
close_error-Calm n e w h c = ground arith

clear-Calm : (n : ℕ) (p : Pcb) (w : World) → Calm n w → Calm n (clear_tcp_callbacks p w)
unfolding clear_tcp_callbacks aborts
clear-Calm n p w c = c

release_tls-Calm :
    (s : Stack) (app : App) (n : ℕ) (p : Pcb) (w : World)
    → Calm n w
    → Calm n (release_tls s app p w)
unfolding release_tls aborts
release_tls-Calm s app n p w c = ground arith

pcb-clear-release_tls :
    (s : Stack) (app : App) (p : Pcb) (w : World)
    → (clear_tcp_callbacks p (release_tls s app p w)).client.pcb ≡ w.client.pcb
unfolding release_tls clear_tcp_callbacks
pcb-clear-release_tls s app p w = ground arith

module _ (s : Stack) (app : App) (quiet : Quiet s) where
  close_or_abort-Honest :
      (n : ℕ) (p : Pcb) (w : World)
      → w.client.pcb ≡ some p
      → err_cleared (tcp_close p ∷ w.trace) p ≡ true
      → Calm n w
      → Honest n (forget_pcb (close_or_abort s app p w))
  unfolding close_or_abort aborts set_close_error
  close_or_abort-Honest n p w e q c = ground (
    arith,
    ok-not-abrt (s.close_result w.trace p),
    abrt-is_abrt,
    quiet (tcp_close p ∷ w.trace) p q,
  )

module _ (s : Stack) (app : App) (quiet : Quiet s) (keeps : Keeps app) where
  pub call_handler-Honest :
      (o : Option Handler) (e : Event) (n : ℕ) (w : World)
      → Honest n w
      → Honest n (call_handler app o e w)
  unfolding aborts
  call_handler-Honest none e n w h = h
  call_handler-Honest (some k) e n w h = keeps k e n _ h

  -- `_close` keeps the record of aborts and the tracker in step.
  pub shut-Honest : (n : ℕ) (w : World) → Honest n w → Honest n (shut s app w)
  unfolding shut
  shut-Honest n w h = elim (Option-cases w.client.pcb) [
    | inl e ↦ rw (e, shut) h
    | inr (p, e) ↦ rw (e, shut) (call_handler-Honest _ on_disconnect n _ (closed p e))
  ]
    where
      calm : (p : Pcb) → w.client.pcb ≡ some p → Calm n w
      calm p e = ground arith

      closed :
          (p : Pcb)
          → w.client.pcb ≡ some p
          → Honest n
              (forget_pcb (close_or_abort s app p (clear_tcp_callbacks p (release_tls s app p w))))
      closed p e =
          close_or_abort-Honest s app quiet n p (clear_tcp_callbacks p (release_tls s app p w))
            (pcb-clear-release_tls s app p w ∙ e) (cleared-clear p (release_tls s app p w))
            (clear-Calm n p (release_tls s app p w) (release_tls-Calm s app n p w (calm p e)))
