-- ===== src/Tls/Pem.antt =====
-- `parse_certificates` of src/tcp_bearssl.cpp. BearSSL's PEM decoder and the heap are parameters.
pub mod Memory
use espasync_tcp.Common.{
  ℕ, zero, suc, ◌+◌, ◌-◌, ◌&&◌, not, Bool, true, false, Option, none, some, List, [], ◌∷◌, ◌++◌,
  if◌then◌else◌, ltb, ◌==◌, length, drop,
}
use espasync_tcp.Client.State.{KeyType}

-- `br_pem_decoder_event`
pub data PemEvent : Type 0 where
  no_event begin_obj end_obj pem_error : PemEvent

-- The decoder: its initial state; pushing bytes, which tells how many were consumed and calls the
-- destination with data; reading the event, which clears it; and whether the object is called
-- CERTIFICATE.
pub record PemDecoder (P : Type 0) : Type 0 where
  pub init : P
  pub push : List ℕ → P → ℕ × List (List ℕ) × P
  pub event : P → PemEvent × P
  pub is_certificate : P → Bool

-- `CertParseCtx`, and the state of the heap: how many blocks are in use, and how often memory was
-- asked for. `buf` is none for NULL.
pub record CertParseCtx : Type 0 where
  pub certs : List (List ℕ)
  pub buf : Option (List ℕ)
  pub error : Bool
  pub blocks : ℕ
  pub asked : ℕ

-- `free(buf)`, and `buf` is NULL
abbrev pub free_buf : CertParseCtx → CertParseCtx
free_buf x = elim x.buf [ none ↦ x | some _ ↦ record x { buf = none; blocks = x.blocks - 1 } ]

-- all certificates are freed
abbrev pub free_certs : CertParseCtx → CertParseCtx
free_certs x = record x { certs = []; blocks = x.blocks - length x.certs }

-- `append_to_cert_vector`; `gives` says whether `realloc` gives memory
unfoldable pub append_to_cert_vector : (ℕ → Bool) → List ℕ → CertParseCtx → CertParseCtx
append_to_cert_vector gives bytes x =
    if x.error
    then x
    else (let x1 = record x { asked = suc x.asked } in
        if gives x.asked
        then elim x.buf [
          | none ↦ record x1 { buf = some bytes; blocks = suc x.blocks }
          | some got ↦ record x1 { buf = some (got ++ bytes) }
        ]
        else free_buf (record x1 { error = true }))

-- the calls of one push, in order
unfoldable pub append_pieces : (ℕ → Bool) → List (List ℕ) → CertParseCtx → CertParseCtx
append_pieces gives [] x = x
append_pieces gives (piece ∷ pieces) x =
    append_pieces gives pieces (append_to_cert_vector gives piece x)

-- the object ends: it is kept if it is a certificate and not empty
unfoldable pub end_object : Bool → CertParseCtx → CertParseCtx
end_object is_certificate x = elim x.buf [
  | none ↦ x
  | some got ↦
      if ltb 0 (length got) && is_certificate
      then record x { certs = x.certs ++ got ∷ []; buf = none }
      else free_buf x
]

-- the members before the loop
abbrev pub parse_start : ℕ → ℕ → CertParseCtx
parse_start blocks asked = record {
  certs = [];
  buf = none;
  error = false;
  blocks = blocks;
  asked = asked;
}

module _ {P : Type 0} (pem : PemDecoder P) (gives : ℕ → Bool) where
  -- the loop of `parse_certificates`, with fuel, on the text that is left; the result is whether it
  -- came to the end of the text. The test `event < 0` never holds, since BearSSL's BR_PEM_ERROR is 3,
  -- and so the loop goes on after malformed base64.
  unfoldable pub parse_loop : ℕ → List ℕ → P → CertParseCtx → Option (Bool × CertParseCtx)
  parse_loop zero text d x = none
  parse_loop (suc f) [] d x = some (true, x)
  parse_loop (suc f) (y ∷ ys) d x =
      let (consumed, pieces, d1) = pem.push (y ∷ ys) d in
      let x1 = append_pieces gives pieces x in
      let (event, d2) = pem.event d1 in
      let rest = drop consumed (y ∷ ys) in
      elim x1.error [
        | true ↦ some (false, free_certs x1)
        | false ↦ elim event [
          | begin_obj ↦ parse_loop f rest d2 (free_buf x1)
          | end_obj ↦ parse_loop f rest d2 (end_object (pem.is_certificate d2) x1)
          | pem_error ↦ parse_loop f rest d2 x1
          | no_event ↦ parse_loop f rest d2 x1
        ]
      ]

  -- `parse_certificates(pem, certs)`, of a text that is not NULL; the result is `certs.size()`
  unfoldable pub parse_certificates : List ℕ → ℕ → ℕ → Option (ℕ × CertParseCtx)
  unfolding parse_loop
  parse_certificates text blocks asked =
      elim (parse_loop (suc (length text)) text pem.init (parse_start blocks asked)) [
        | none ↦ none
        | some (_, x) ↦ some (length x.certs, x)
      ]
