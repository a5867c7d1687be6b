-- ===== src/Tls/X509.antt =====
-- The X.509 validator of src/tcp_bearssl.cpp that checks a fingerprint or that a certificate is
-- self-signed, and no chain of trust. BearSSL's decoder and hash functions are parameters.
pub mod Verdict
use espasync_tcp.Common.{
  ℕ, zero, suc, ◌&&◌, ◌||◌, not, Bool, true, false, Option, none, some, List, [], ◌∷◌, ◌++◌,
  if◌then◌else◌, ◌==◌, is_some,
}

-- What the decoder hands to the two callbacks for distinguished names.
pub data Name : Type 0 where
  subject issuer : List ℕ → Name

-- `br_x509_decoder`: memory that is all zero, its initial state, pushing bytes, which calls the
-- callbacks in order, and the public key that it holds.
pub record Decoder (D K : Type 0) : Type 0 where
  pub zeroed : D
  pub init : D
  pub push : List ℕ → D → List Name × D
  pub pkey : D → K

-- The hash of the bytes that a context was updated with.
pub record Hashes : Type 0 where
  pub sha1 : List ℕ → List ℕ
  pub sha256 : List ℕ → List ℕ

-- `x509_insecure_context`; a hash context is the bytes that it was updated with, none where it is not
-- initialised yet.
pub record InsecureContext (D : Type 0) : Type 0 where
  pub decoder : D
  pub done_cert : Bool
  pub sha1_cert : List ℕ
  pub sha256_subject : List ℕ
  pub sha256_issuer : List ℕ
  pub match_fingerprint : Option (List ℕ)
  pub allow_self_signed : Bool

-- whether `memcmp` finds a difference in the first `n` bytes
unfoldable pub memcmp : ℕ → List ℕ → List ℕ → Bool
memcmp zero xs ys = false
memcmp (suc n) [] [] = false
memcmp (suc n) [] (y ∷ ys) = true
memcmp (suc n) (x ∷ xs) [] = true
memcmp (suc n) (x ∷ xs) (y ∷ ys) = not (x == y) || memcmp n xs ys

-- `BR_ERR_X509_NOT_TRUSTED`
abbrev pub not_trusted : ℕ
not_trusted = 62

module _ {D K : Type 0} (dec : Decoder D K) (hash : Hashes) where
  -- `br_x509_insecure_init(ctx, use_fingerprint, fingerprint, allow_self_signed)`
  unfoldable pub br_x509_insecure_init : Bool → Option (List ℕ) → Bool → InsecureContext D
  br_x509_insecure_init use_fingerprint fingerprint self_signed = record {
    decoder = dec.zeroed;
    done_cert = false;
    sha1_cert = [];
    sha256_subject = [];
    sha256_issuer = [];
    match_fingerprint = if use_fingerprint then fingerprint else none;
    allow_self_signed = self_signed;
  }

  unfoldable pub insecure_start_chain : InsecureContext D → InsecureContext D
  insecure_start_chain xc = record xc {
    decoder = dec.init;
    done_cert = false;
    sha1_cert = [];
    sha256_subject = [];
    sha256_issuer = [];
  }

  -- `insecure_subject_dn_append` and `insecure_issuer_dn_append`, for the names in order
  unfoldable pub dn_append : List Name → InsecureContext D → InsecureContext D
  dn_append [] xc = xc
  dn_append (subject bytes ∷ names) xc =
      dn_append names (record xc { sha256_subject = xc.sha256_subject ++ bytes })
  dn_append (issuer bytes ∷ names) xc =
      dn_append names (record xc { sha256_issuer = xc.sha256_issuer ++ bytes })

  unfoldable pub insecure_append : List ℕ → InsecureContext D → InsecureContext D
  unfolding dn_append
  insecure_append buf xc =
      if not xc.done_cert
      then (let (names, d) = dec.push buf xc.decoder in
          dn_append names (record xc { sha1_cert = xc.sha1_cert ++ buf; decoder = d }))
      else xc

  unfoldable pub insecure_end_cert : InsecureContext D → InsecureContext D
  insecure_end_cert xc = record xc { done_cert = true }

  -- the result is 0 if the chain is accepted
  unfoldable pub insecure_end_chain : InsecureContext D → ℕ
  unfolding memcmp
  insecure_end_chain xc =
      if not xc.done_cert
      then 1
      else (if elim xc.match_fingerprint [
        | none ↦ false
        | some fingerprint ↦ memcmp 20 (hash.sha1 xc.sha1_cert) fingerprint
      ]
          then not_trusted
          else (if xc.allow_self_signed
                && memcmp 32 (hash.sha256 xc.sha256_subject) (hash.sha256 xc.sha256_issuer)
              then not_trusted
              else 0))

  unfoldable pub insecure_get_pkey : InsecureContext D → K
  insecure_get_pkey xc = dec.pkey xc.decoder

  -- the calls that BearSSL makes for one certificate, in pieces, after `insecure_start_cert`, which
  -- does nothing
  unfoldable pub append_all : List (List ℕ) → InsecureContext D → InsecureContext D
  append_all [] xc = xc
  append_all (piece ∷ pieces) xc = append_all pieces (insecure_append piece xc)

  -- and for the certificates of a chain
  unfoldable pub take_chain : List (List (List ℕ)) → InsecureContext D → InsecureContext D
  take_chain [] xc = xc
  take_chain (cert ∷ certs) xc = take_chain certs (insecure_end_cert (append_all cert xc))

  -- a whole run of the validator
  unfoldable pub validate : Bool → Option (List ℕ) → Bool → List (List (List ℕ)) → InsecureContext D
  validate use_fingerprint fingerprint self_signed chain =
      take_chain chain
        (insecure_start_chain (br_x509_insecure_init use_fingerprint fingerprint self_signed))
