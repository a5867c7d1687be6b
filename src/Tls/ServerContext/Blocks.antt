-- ===== src/Tls/ServerContext/Blocks.antt =====
-- The memory that a server context takes.
use espasync_tcp.Common.{
  ℕ, suc, ◌+◌, ◌-◌, ◌≤◌, ◌<◌, ◌≡◌, refl, ap, not, Bool, true, Option, none, some, List, arith,
  if◌then◌else◌, ◌==◌, is_some, length, if-split, subst, ◌&&◌,
}
use espasync_tcp.Client.State.{KeyType}
use espasync_tcp.Tls.Pem.{PemDecoder, CertParseCtx, parse_certificates}
use espasync_tcp.Tls.Pem.Memory.{Reads, pending, parse_certificates-blocks}
use espasync_tcp.Tls.ServerContext.{
  Text, Memory, ServerCtx, delete_ctx, free_copy, copy_text, add_key, build_ctx,
  tcp_ssl_new_server_ctx,
}

module _ {P : Type 0} (pem : PemDecoder P) (gives : ℕ → Bool) (key_type : List ℕ → Option KeyType)
    {Open : P → Type 0} (reads : Reads pem Open) where
  -- With a context, its blocks are in use, and beside them `base` others; it has a certificate and a
  -- key of a known type. With none, `base` blocks are in use.
  abbrev pub Owns : ℕ → Option ServerCtx → Memory → Type 0
  Owns base none m = m.blocks ≡ base
  Owns base (some ctx) m =
      (m.blocks ≡ base + (suc (suc (length ctx.chain_vector))))
      × (0 < length ctx.chain_vector)
      × ((key : List ℕ) × (ctx.pk ≡ some key) × (is_some (key_type key) ≡ true))

  -- The call returned, and beside the context `n` blocks stay in use that were not before, one at most.
  abbrev pub Made : ℕ → ℕ → Option (Option ServerCtx × Memory) → Type 0
  Made base n r =
      (ctx : Option ServerCtx) × (m : Memory) × (r ≡ some (ctx, m))
      × (n ≤ 1)
      × Owns (base + n) ctx m

  -- the block of an object that the parsed text does not end
  abbrev pub unended : Option (ℕ × CertParseCtx) → ℕ
  unended none = 0
  unended (some (n, x)) = pending x

  -- the block that is lost while the context is made of texts in RAM: there is one only if the text
  -- is parsed, and it ends inside of an object
  abbrev pub lost_in_ram : List ℕ → Memory → ℕ
  lost_in_ram cert m =
      if gives m.asked
      then unended (parse_certificates pem gives cert (suc m.blocks) (suc m.asked))
      else 0

  -- the same for all texts; nothing is lost where a text is missing or cannot be copied
  abbrev pub lost : Option Text → Option Text → Memory → ℕ
  lost none key m = 0
  lost (some cert) none m = 0
  lost (some cert) (some key) m =
      let (copied, m1) = copy_text pem gives key_type cert m in
      let (both, m2) = copy_text pem gives key_type key m1 in
      if copied && both then lost_in_ram cert.chars m2 else 0

  add_key-Owns :
      (base n : ℕ) (key : List ℕ) (x : CertParseCtx)
      → n ≡ length x.certs
      → x.blocks ≡ suc base + (n + pending x)
      → let (ctx, m) = add_key pem gives key_type n key x in Owns (base + pending x) ctx m
  unfolding add_key delete_ctx
  add_key-Owns base n key x e h =
      let goal = λ (r : Option ServerCtx × Memory). Owns (base + pending x) r.0 r.1 in
      if-split goal (n == 0) (λ _. omega (arith, e, h))
        (λ some_certs.
          if-split goal (not (gives x.asked)) (λ _. omega (arith, e, h))
            (λ _.
              if-split goal (not (is_some (key_type key))) (λ _. omega (arith, e, h))
                (λ known. (
                  omega (arith, e, h),
                  ground (arith, e, some_certs),
                  (key, refl, ground (arith, known)),
                ))))

  build_ctx-Made :
      (cert key : List ℕ) (m : Memory)
      → Made m.blocks (lost_in_ram cert m) (build_ctx pem gives key_type cert key m)
  unfolding build_ctx
  build_ctx-Made cert key m =
      if-split (Made m.blocks (lost_in_ram cert m)) (not (gives m.asked))
        (λ no.
          (none, record m { asked = suc m.asked }, refl, ground (arith, no), ground (arith, no)))
        (λ yes.
          let (n, x, ran, e, h, _) =
            parse_certificates-blocks pem gives reads cert (suc m.blocks) (suc m.asked) in
          let (ctx, m') = add_key pem gives key_type n key x in
          let ended : unended (parse_certificates pem gives cert (suc m.blocks) (suc m.asked))
              ≡ pending x =
            ap unended ran in
          let same : pending x ≡ lost_in_ram cert m = ground (arith, ended, yes) in
          (
            ctx,
            m',
            ap
                (λ (o : Option (ℕ × CertParseCtx)).
                  elim o as (λ _. Option (Option ServerCtx × Memory)) [
                    | none ↦ none
                    | some (k, y) ↦ some (add_key pem gives key_type k key y)
                  ])
                ran,
            subst (λ (l : ℕ). l ≤ 1) same (ground arith),
            subst (λ (l : ℕ). Owns (m.blocks + l) ctx m') same (add_key-Owns m.blocks n key x e h),
          ))

  free-Owns :
      (base : ℕ) (ctx : Option ServerCtx) (m : Memory)
      → Owns (suc base) ctx m
      → Owns base ctx (record m { blocks = m.blocks - 1 })
  free-Owns base none m h = omega (arith, h)
  free-Owns base (some ctx) m (h, certs, key) = (omega (arith, h), certs, key)

  -- the block of a text's copy
  abbrev copies : Text → ℕ
  copies t = if t.in_flash then 1 else 0

  copy_text-blocks :
      (t : Text) (m : Memory)
      → let (copied, m') = copy_text pem gives key_type t m in
        m'.blocks ≡ m.blocks + (if copied then copies t else 0)
  unfolding copy_text
  copy_text-blocks t m = ground arith

  free_copy-Owns :
      (t : Text) (base : ℕ) (ctx : Option ServerCtx) (m : Memory)
      → Owns (base + copies t) ctx m
      → Owns base ctx (free_copy t m)
  unfolding free_copy
  free_copy-Owns t base ctx m h =
      if-split (λ (m' : Memory). Owns base ctx m') t.in_flash
        (λ copied. free-Owns base ctx m (subst (λ (n : ℕ). Owns n ctx m) (ground arith) h))
        (λ not_copied. subst (λ (n : ℕ). Owns n ctx m) (ground arith) h)

  -- With a PEM decoder that consumes bytes: beside the context that it returns, which has at least
  -- one certificate and a key whose type is known, `tcp_ssl_new_server_ctx` keeps no block of the
  -- heap, whatever the texts are and wherever memory runs out, but for one block if the certificates
  -- were parsed and their text ends inside of an object: the copies of the texts, and a context that
  -- is not returned, are freed. The call ends in all cases.
  pub tcp_ssl_new_server_ctx-Made :
      (cert key : Option Text) (m : Memory)
      → Made m.blocks (lost cert key m) (tcp_ssl_new_server_ctx pem gives key_type cert key m)
  unfolding tcp_ssl_new_server_ctx
  tcp_ssl_new_server_ctx-Made none key m = (none, m, refl, omega arith, omega arith)
  tcp_ssl_new_server_ctx-Made (some cert) none m = (none, m, refl, omega arith, omega arith)
  tcp_ssl_new_server_ctx-Made (some cert) (some key) m =
      let (copied, m1) = copy_text pem gives key_type cert m in
      let (both, m2) = copy_text pem gives key_type key m1 in
      let first = copy_text-blocks cert m in
      let second = copy_text-blocks key m1 in
      let at = lost (some cert) (some key) m in
      if-split (Made m.blocks at) (not copied)
        (λ failed.
          let nothing : 0 ≡ at = ground (arith, failed) in
          subst (λ (l : ℕ). Made m.blocks l (some (none, m1))) nothing
            (none, m1, refl, omega arith, ground (arith, first)))
        (λ fine.
          if-split (Made m.blocks at) (not both)
            (λ failed.
              let nothing : 0 ≡ at = ground (arith, failed) in
              subst (λ (l : ℕ). Made m.blocks l (some (none, free_copy cert m2))) nothing
                (
                  none,
                  free_copy cert m2,
                  refl,
                  omega arith,
                  free_copy-Owns cert (m.blocks + 0) none m2 (ground (arith, first, second)),
                ))
            (λ fine'.
              let (ctx, m3, ran, few, owns) = build_ctx-Made cert.chars key.chars m2 in
              let same : lost_in_ram cert.chars m2 ≡ at = ground (arith, fine, fine') in
              (
                ctx,
                free_copy cert (free_copy key m3),
                ap
                    (λ (o : Option (Option ServerCtx × Memory)).
                      elim o as (λ _. Option (Option ServerCtx × Memory)) [
                        | none ↦ none
                        | some (k, y) ↦ some (k, free_copy cert (free_copy key y))
                      ])
                    ran,
                subst (λ (l : ℕ). l ≤ 1) same few,
                free_copy-Owns cert (m.blocks + at) ctx (free_copy key m3) (
                    free_copy-Owns key (m.blocks + at + copies cert) ctx m3 (
                      subst (λ (n : ℕ). Owns n ctx m3) (ground (arith, first, second, same)) owns)),
              )))
