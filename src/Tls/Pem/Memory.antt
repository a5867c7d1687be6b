-- ===== src/Tls/Pem/Memory.antt =====
-- The memory of `parse_certificates`.
use espasync_tcp.Common.{
  ℕ, zero, suc, ◌+◌, ◌<◌, ◌≡◌, ◌⊎◌, inl, inr, refl, ap, ◌∙◌, Bool, true, false, Option, none, some,
  List, [], ◌∷◌, arith, ltb, length, drop, length-append, length-drop, bool-split, option-both,
  option-found, if-both, ◌&&◌,
}
use espasync_tcp.Tls.Pem.{
  PemEvent, no_event, begin_obj, end_obj, pem_error, PemDecoder, CertParseCtx, free_buf, free_certs,
  append_to_cert_vector, append_pieces, end_object, parse_start, parse_loop, parse_certificates,
}

-- the block of an object that is not complete
abbrev pub pending : CertParseCtx → ℕ
pending x = elim x.buf [ none ↦ 0 | some _ ↦ 1 ]

-- Beside `base` other blocks, those in use are the certificates' and that of the pending object; and
-- there is none of these after an error.
abbrev pub Accounts : ℕ → CertParseCtx → Type 0
Accounts base x =
    (x.blocks ≡ base + (length x.certs + pending x)) × ((x.error ≡ false) ⊎ (x.buf ≡ none))

append-Accounts :
    (gives : ℕ → Bool) (base : ℕ) (bytes : List ℕ) (x : CertParseCtx)
    → Accounts base x
    → Accounts base (append_to_cert_vector gives bytes x)
unfolding append_to_cert_vector
append-Accounts gives base bytes x h = ground arith

append_pieces-Accounts :
    (gives : ℕ → Bool) (base : ℕ) (pieces : List (List ℕ)) (x : CertParseCtx)
    → Accounts base x
    → Accounts base (append_pieces gives pieces x)
unfolding append_pieces
append_pieces-Accounts gives base [] x h = h
append_pieces-Accounts gives base (p ∷ ps) x h =
    append_pieces-Accounts gives base ps (append_to_cert_vector gives p x)
      (append-Accounts gives base p x h)

free_buf-Accounts :
    (base : ℕ) (x : CertParseCtx)
    → Accounts base x
    → Accounts base (free_buf x) × (pending (free_buf x) ≡ 0)
free_buf-Accounts base x h = ground arith

end_object-Accounts :
    (base : ℕ) (is_certificate : Bool) (x : CertParseCtx)
    → Accounts base x
    → Accounts base (end_object is_certificate x)
unfolding end_object
end_object-Accounts base is_certificate x h =
    option-both (Accounts base) x.buf (λ e. h)
      (λ got e.
        if-both (Accounts base) (ltb 0 (length got) && is_certificate)
          (ground (arith, length-append x.certs (got ∷ [])), inr refl)
          (free_buf-Accounts base x h).0)

-- What the loop relies on: a decoder whose event was read consumes at least a byte.
pub record Reads {P : Type 0} (pem : PemDecoder P) (Open : P → Type 0) : Type 0 where
  pub init_open : Open pem.init
  pub event_open : (d : P) → Open (pem.event d).1
  pub consumes : (text : List ℕ) (d : P) → Open d → 0 < length text → 0 < (pem.push text d).0

module _ {P : Type 0} (pem : PemDecoder P) (gives : ℕ → Bool) {Open : P → Type 0}
    (reads : Reads pem Open) where
  -- The loop ended, and either came to the end of the text, or memory ran out and it freed all that it
  -- had.
  abbrev pub Parsed : ℕ → Option (Bool × CertParseCtx) → Type 0
  Parsed base r =
      (finished : Bool) × (x : CertParseCtx) × (r ≡ some (finished, x))
      × Accounts base x
      × ((finished ≡ true) ⊎ ((x.error ≡ true) × (x.certs ≡ []) × (x.buf ≡ none)))

  -- what the loop does with an event, where the later rounds do as they should
  event-Parsed :
      (base f : ℕ) (rest : List ℕ) (d : P) (x : CertParseCtx)
      → Accounts base x
      → ((x' : CertParseCtx) → Accounts base x' → Parsed base (parse_loop pem gives f rest d x'))
      → (e : PemEvent)
      → Parsed base (elim e [
        | begin_obj ↦ parse_loop pem gives f rest d (free_buf x)
        | end_obj ↦ parse_loop pem gives f rest d (end_object (pem.is_certificate d) x)
        | pem_error ↦ parse_loop pem gives f rest d x
        | no_event ↦ parse_loop pem gives f rest d x
      ])
  event-Parsed base f rest d x h later begin_obj = later (free_buf x) (free_buf-Accounts base x h).0
  event-Parsed base f rest d x h later end_obj =
      later (end_object (pem.is_certificate d) x)
        (end_object-Accounts base (pem.is_certificate d) x h)
  event-Parsed base f rest d x h later pem_error = later x h
  event-Parsed base f rest d x h later no_event = later x h

  parse_loop-Parsed :
      (base f : ℕ) (text : List ℕ) (d : P) (x : CertParseCtx)
      → Open d
      → length text < f
      → Accounts base x
      → Parsed base (parse_loop pem gives f text d x)
  unfolding parse_loop
  parse_loop-Parsed base zero text d x o l h = absurd (omega arith)
  parse_loop-Parsed base (suc f) [] d x o l h = (true, x, refl, h, inl refl)
  parse_loop-Parsed base (suc f) (y ∷ ys) d x o l h =
      let text = y ∷ ys in
      let (consumed, pieces, d1) = pem.push text d in
      let x1 = append_pieces gives pieces x in
      let h1 = append_pieces-Accounts gives base pieces x h in
      let d2 = (pem.event d1).1 in
      let o2 = reads.event_open d1 in
      let rest = drop consumed text in
      let shorter : length rest < f =
        omega (arith, length-drop consumed text, reads.consumes text d o) in
      bool-split (Parsed base) x1.error
        (λ failed.
          (false, free_certs x1, refl, ground (arith, h1), inr (failed, refl, ground (arith, h1))))
        (λ fine.
          event-Parsed base f rest d2 x1 h1
            (λ x' h'. parse_loop-Parsed base f rest d2 x' o2 shorter h') (pem.event d1).0)

  -- With a decoder that consumes bytes, `parse_certificates` of any text ends, and its result is
  -- the number of certificates that it leaves in the vector. Of the memory that it asked for, just
  -- the blocks of these certificates stay in use, and one more where the text ends inside of an
  -- object. It comes to the end of the text, or it stops early because memory ran out; then nothing
  -- stays in use and the result is 0.
  pub parse_certificates-blocks :
      (text : List ℕ) (blocks asked : ℕ)
      → (n : ℕ) × (x : CertParseCtx) × (parse_certificates pem gives text blocks asked
          ≡ some (n, x))
        × (n ≡ length x.certs)
        × (x.blocks ≡ blocks + (n + pending x))
        × ((parse_loop pem gives (suc (length text)) text pem.init (parse_start blocks asked)
              ≡ some (true, x))
            ⊎ ((x.error ≡ true) × (n ≡ 0) × (x.blocks ≡ blocks)))
  unfolding parse_certificates
  parse_certificates-blocks text blocks asked =
      let start = parse_start blocks asked in
      let (finished, x, ran, accounts, why) =
        parse_loop-Parsed blocks (suc (length text)) text pem.init start reads.init_open
          (omega arith) (omega arith, inl refl) in
      (
        length x.certs,
        x,
        option-found (λ (o : Option (ℕ × CertParseCtx)). o ≡ some (length x.certs, x))
            (parse_loop pem gives (suc (length text)) text pem.init start) _ _ ran refl,
        refl,
        accounts.0,
        elim why [
          | inl ended ↦ inl (ran ∙ ap (λ (b : Bool). some (b, x)) ended)
          | inr (failed, no_certs, no_buf) ↦ inr (failed, ground arith, ground (arith, accounts.0))
        ],
      )
