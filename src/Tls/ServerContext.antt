-- ===== src/Tls/ServerContext.antt =====
-- `tcp_ssl_new_server_ctx` of src/tcp_bearssl.cpp. The PEM decoder, the keys and the heap are
-- parameters.
pub mod Blocks
use espasync_tcp.Common.{
  ℕ, suc, ◌+◌, ◌-◌, not, Bool, true, false, Option, none, some, List, [], if◌then◌else◌, ◌==◌,
  is_some, length,
}
use espasync_tcp.Client.State.{KeyType}
use espasync_tcp.Tls.Pem.{PemDecoder, CertParseCtx, parse_certificates}

-- A text, and whether it stands in flash: at `0x40200000` or above.
pub record Text : Type 0 where
  pub in_flash : Bool
  pub chars : List ℕ

-- The heap: how many blocks are in use, and how often memory was asked for.
pub record Memory : Type 0 where
  pub blocks : ℕ
  pub asked : ℕ

-- `BearSSL_SSL_CTX`; the private key is the text that it was made from
pub record ServerCtx : Type 0 where
  pub chain_vector : List (List ℕ)
  pub pk : Option (List ℕ)

-- `delete ctx`: its destructor frees the certificates and the key
unfoldable pub delete_ctx : ServerCtx → Memory → Memory
delete_ctx ctx m = record m {
  blocks = m.blocks - (suc (length ctx.chain_vector) + (if is_some ctx.pk then 1 else 0));
}

-- what `unique_ptr` does with the copy of a text, if there is one
unfoldable pub free_copy : Text → Memory → Memory
free_copy t m = if t.in_flash then record m { blocks = m.blocks - 1 } else m

-- `gives` says whether memory can be had, and `key_type` what `getRSA()` and `getEC()` make of a key
module _ {P : Type 0} (pem : PemDecoder P) (gives : ℕ → Bool)
    (key_type : List ℕ → Option KeyType) where
  -- the copy of a text from flash; the result is false if there is no memory
  unfoldable pub copy_text : Text → Memory → Bool × Memory
  copy_text t m =
      if t.in_flash
      then (if gives m.asked
          then (true, record { blocks = suc m.blocks; asked = suc m.asked })
          else (false, record m { asked = suc m.asked }))
      else (true, m)

  -- `n` certificates were parsed into `x.certs`, and the key is added
  unfoldable pub add_key : ℕ → List ℕ → CertParseCtx → Option ServerCtx × Memory
  unfolding delete_ctx
  add_key n key x =
      let ctx : ServerCtx = record { chain_vector = x.certs; pk = none } in
      let m : Memory = record { blocks = x.blocks; asked = x.asked } in
      let m1 : Memory = record m { asked = suc x.asked } in
      let m2 : Memory = record m1 { blocks = suc x.blocks } in
      if n == 0
      then (none, delete_ctx ctx m)
      else (if not (gives x.asked)
          then (none, delete_ctx ctx m1)
          else (if not (is_some (key_type key))
              then (none, delete_ctx (record ctx { pk = some key }) m2)
              else (some (record ctx { pk = some key }), m2)))

  -- the context is made of texts in RAM
  unfoldable pub build_ctx : List ℕ → List ℕ → Memory → Option (Option ServerCtx × Memory)
  unfolding add_key
  build_ctx cert key m =
      if not (gives m.asked)
      then some (none, record m { asked = suc m.asked })
      else elim (parse_certificates pem gives cert (suc m.blocks) (suc m.asked)) [
        | none ↦ none
        | some (n, x) ↦ some (add_key n key x)
      ]

  -- `tcp_ssl_new_server_ctx(cert_pem, private_key_pem, password)`; `none` is NULL
  unfoldable pub tcp_ssl_new_server_ctx :
      Option Text → Option Text → Memory → Option (Option ServerCtx × Memory)
  unfolding free_copy copy_text build_ctx
  tcp_ssl_new_server_ctx none key m = some (none, m)
  tcp_ssl_new_server_ctx (some cert) none m = some (none, m)
  tcp_ssl_new_server_ctx (some cert) (some key) m =
      let (copied, m1) = copy_text cert m in
      let (both, m2) = copy_text key m1 in
      if not copied
      then some (none, m1)
      else (if not both
          then some (none, free_copy cert m2)
          else elim (build_ctx cert.chars key.chars m2) [
            | none ↦ none
            | some (ctx, m3) ↦ some (ctx, free_copy cert (free_copy key m3))
          ])
