-- ===== src/Client/OverGlue/Hearing.antt =====
-- What the data handler of a client hears of the upcalls of one call of the glue.
use espasync_tcp.Common.{
  ℕ, ◌+◌, ◌%◌, ◌^◌, ◌≡◌, refl, sym, ap, ◌∙◌, subst, Bool, true, Option, none, some, List, [], ◌∷◌,
  ◌++◌, append-nil, append_assoc, arith, if◌then◌else◌, ◌==◌,
}
use espasync_tcp.Lwip.{
  Handler, Trace, Event, Upcall, data_up, handshake_up, error_up, on_connect, on_error, on_data,
  Err, ssl,
}
use espasync_tcp.Client.State.{World, App, touch, call_handler}
use espasync_tcp.Client.Upcalls.{upcall, deliver, s_data, s_handshake, s_ssl_error}
use espasync_tcp.Client.OverGlue.{
  Surroundings, Listens, plain, heard, replay, after_call, plain-append,
}
use espasync_tcp.Tls.State.{Engine, Glue}

module _ {E : Type 0} (b : Engine E) (fuel : ℕ) (around : Surroundings) (start : Glue E) (app : App)
    (h : Handler) (listens : Listens b fuel around start app h) where
  abbrev pub glue_at : Trace → Glue E
  glue_at = replay b fuel around start

  -- From `w` to `v` the data handler heard these bytes, and nothing happened to the glue.
  abbrev pub Heard : World → List ℕ → World → Type 0
  Heard w bytes v =
      (heard h v.trace ≡ heard h w.trace ++ bytes)
      × (glue_at v.trace ≡ glue_at w.trace)
      × (v.client.handlers.recv_cb ≡ w.client.handlers.recv_cb)

  -- the handler `k` was called for an event without data
  app-Heard :
      (k : Handler) (e : Event) (w v : World)
      → heard h v.trace ≡ heard h w.trace
      → glue_at v.trace ≡ glue_at w.trace
      → v.client ≡ w.client
      → Heard w [] (app k e v)
  app-Heard k e w v same_heard same_glue same_client = (
    listens.keeps_heard k e v ∙ same_heard ∙ sym (append-nil _),
    listens.keeps_glue k e v ∙ same_glue,
    ap (λ x. x.handlers.recv_cb) (listens.keeps_client k e v ∙ same_client),
  )

  connect-Heard : (o : Option Handler) (w : World) → Heard w [] (call_handler app o on_connect w)
  unfolding heard replay after_call
  connect-Heard none w = (sym (append-nil _), refl, refl)
  connect-Heard (some k) w = app-Heard k on_connect w _ refl refl refl

  error-Heard :
      (o : Option Handler) (r : Err) (w : World) → Heard w [] (call_handler app o (on_error r) w)
  unfolding heard replay after_call
  error-Heard none r w = (sym (append-nil _), refl, refl)
  error-Heard (some k) r w = app-Heard k (on_error r) w _ refl refl refl

  data-Heard :
      (bytes : List ℕ) (w : World) → Heard w bytes (call_handler app (some h) (on_data bytes) w)
  unfolding heard replay after_call
  data-Heard bytes w =
      let here : (h == h) ≡ true = ground arith in
      (
        listens.keeps_heard h (on_data bytes) _
            ∙ ap (λ (r : Bool). if r then heard h w.trace ++ bytes else heard h w.trace) here,
        listens.keeps_glue h (on_data bytes) _,
        ap (λ x. x.handlers.recv_cb) (listens.keeps_client h (on_data bytes) _),
      )

  upcall-Heard :
      (u : Upcall) (w : World)
      → w.client.handlers.recv_cb ≡ some h
      → Heard w (plain (u ∷ [])) (upcall app u w)
  unfolding upcall s_data s_handshake s_ssl_error plain
  upcall-Heard (data_up bytes) w e =
      subst
        (λ (x : List ℕ). Heard w x (call_handler app w.client.handlers.recv_cb (on_data bytes) w))
        (sym (append-nil bytes))
        (subst (λ (o : Option Handler). Heard w bytes (call_handler app o (on_data bytes) w))
          (sym e) (data-Heard bytes w))
  upcall-Heard handshake_up w e = connect-Heard w.client.handlers.connect_cb _
  upcall-Heard (error_up r) w e = error-Heard w.client.handlers.error_cb (ssl ((r + 64) % 2 ^ 8)) w

  pub deliver-Heard :
      (us : List Upcall) (w : World)
      → w.client.handlers.recv_cb ≡ some h
      → Heard w (plain us) (deliver app us w)
  unfolding deliver plain
  deliver-Heard [] w e = (sym (append-nil _), refl, refl)
  deliver-Heard (u ∷ us) w e =
      let v = upcall app u (touch w) in
      let (first, same_glue, same_cb) = upcall-Heard u (touch w) e in
      let (later, same_glue', same_cb') = deliver-Heard us v (same_cb ∙ e) in
      (
        later
            ∙ ap (λ (x : List ℕ). x ++ plain us) first
            ∙ append_assoc (heard h w.trace) (plain (u ∷ [])) (plain us)
            ∙ ap (◌++◌ (heard h w.trace)) (sym (plain-append (u ∷ []) us)),
        same_glue' ∙ same_glue,
        same_cb' ∙ same_cb,
      )
