-- ===== src/Tls/X509/Verdict.antt =====
-- Which chains the validator accepts.
use espasync_tcp.Common.{
  ℕ, ◌≡◌, refl, sym, ap, ◌∙◌, ◌&&◌, Bool, true, false, Option, none, some, List, [], ◌∷◌, ◌++◌,
  append-nil, append_assoc, arith, if◌then◌else◌,
}
use espasync_tcp.Tls.X509.{
  Name, subject, issuer, Decoder, Hashes, InsecureContext, memcmp, not_trusted,
  br_x509_insecure_init, insecure_start_chain, dn_append, insecure_append, insecure_end_cert,
  insecure_end_chain, insecure_get_pkey, append_all, take_chain, validate,
}

abbrev pub concat : List (List ℕ) → List ℕ
concat [] = []
concat (xs ∷ xss) = xs ++ concat xss

abbrev pub subjects : List Name → List ℕ
subjects [] = []
subjects (subject bytes ∷ names) = bytes ++ subjects names
subjects (issuer bytes ∷ names) = subjects names

abbrev pub issuers : List Name → List ℕ
issuers [] = []
issuers (subject bytes ∷ names) = issuers names
issuers (issuer bytes ∷ names) = bytes ++ issuers names

-- The decoder reads a stream: it does not matter in which pieces the bytes are pushed.
pub record IsStream {D K : Type 0} (dec : Decoder D K) : Type 0 where
  pub push_nothing : (d : D) → dec.push [] d ≡ ([], d)
  pub push_parts :
      (xs ys : List ℕ) (d : D)
      → dec.push (xs ++ ys) d ≡ (
        (dec.push xs d).0 ++ (dec.push ys (dec.push xs d).1).0,
        (dec.push ys (dec.push xs d).1).1,
      )

module _ {D K : Type 0} (dec : Decoder D K) (hash : Hashes) (stream : IsStream dec) where
  dn_append_lem :
      (names : List Name) (xc : InsecureContext D)
      → dn_append dec hash names xc ≡ record xc {
        sha256_subject = xc.sha256_subject ++ subjects names;
        sha256_issuer = xc.sha256_issuer ++ issuers names;
      }
  unfolding dn_append
  dn_append_lem [] xc = ground (arith, append-nil xc.sha256_subject, append-nil xc.sha256_issuer)
  dn_append_lem (subject bytes ∷ names) xc = ground (
    arith,
    dn_append_lem names (record xc { sha256_subject = xc.sha256_subject ++ bytes }),
    append_assoc xc.sha256_subject bytes (subjects names),
  )
  dn_append_lem (issuer bytes ∷ names) xc = ground (
    arith,
    dn_append_lem names (record xc { sha256_issuer = xc.sha256_issuer ++ bytes }),
    append_assoc xc.sha256_issuer bytes (issuers names),
  )

  subjects-append : (xs ys : List Name) → subjects (xs ++ ys) ≡ subjects xs ++ subjects ys
  subjects-append [] ys = refl
  subjects-append (subject b ∷ xs) ys =
      ap (◌++◌ b) (subjects-append xs ys) ∙ sym (append_assoc b (subjects xs) (subjects ys))
  subjects-append (issuer b ∷ xs) ys = subjects-append xs ys

  issuers-append : (xs ys : List Name) → issuers (xs ++ ys) ≡ issuers xs ++ issuers ys
  issuers-append [] ys = refl
  issuers-append (subject b ∷ xs) ys = issuers-append xs ys
  issuers-append (issuer b ∷ xs) ys =
      ap (◌++◌ b) (issuers-append xs ys) ∙ sym (append_assoc b (issuers xs) (issuers ys))

  -- the context after `bytes` of an unfinished certificate
  abbrev pub fed : List ℕ → InsecureContext D → InsecureContext D
  fed bytes xc =
      let (names, d) = dec.push bytes xc.decoder in
      record xc {
        decoder = d;
        sha1_cert = xc.sha1_cert ++ bytes;
        sha256_subject = xc.sha256_subject ++ subjects names;
        sha256_issuer = xc.sha256_issuer ++ issuers names;
      }

  insecure_append-fed :
      (bytes : List ℕ) (xc : InsecureContext D)
      → xc.done_cert ≡ false
      → insecure_append dec hash bytes xc ≡ fed bytes xc
  unfolding insecure_append
  insecure_append-fed bytes xc h =
      let (names, d) = dec.push bytes xc.decoder in
      ground
        (arith, dn_append_lem names (record xc { sha1_cert = xc.sha1_cert ++ bytes; decoder = d }))

  fed-fed : (xs ys : List ℕ) (xc : InsecureContext D) → fed ys (fed xs xc) ≡ fed (xs ++ ys) xc
  fed-fed xs ys xc =
      let (names, d) = dec.push xs xc.decoder in
      let (names', d') = dec.push ys d in
      ground (
        arith,
        stream.push_parts xs ys xc.decoder,
        append_assoc xc.sha1_cert xs ys,
        append_assoc xc.sha256_subject (subjects names) (subjects names'),
        append_assoc xc.sha256_issuer (issuers names) (issuers names'),
        subjects-append names names',
        issuers-append names names',
      )

  append_all-fed :
      (pieces : List (List ℕ)) (xc : InsecureContext D)
      → xc.done_cert ≡ false
      → append_all dec hash pieces xc ≡ fed (concat pieces) xc
  unfolding append_all
  append_all-fed [] xc h = ground (
    arith,
    stream.push_nothing xc.decoder,
    append-nil xc.sha1_cert,
    append-nil xc.sha256_subject,
    append-nil xc.sha256_issuer,
  )
  append_all-fed (piece ∷ pieces) xc h =
      ap (append_all dec hash pieces) (insecure_append-fed piece xc h)
      ∙ append_all-fed pieces (fed piece xc) h
      ∙ fed-fed piece (concat pieces) xc

  -- Once the first certificate is over, the others change nothing.
  append_all-done :
      (pieces : List (List ℕ)) (xc : InsecureContext D)
      → xc.done_cert ≡ true
      → append_all dec hash pieces xc ≡ xc
  unfolding append_all insecure_append
  append_all-done [] xc h = refl
  append_all-done (piece ∷ pieces) xc h = ground (arith, append_all-done pieces xc)

  take_chain-done :
      (certs : List (List (List ℕ))) (xc : InsecureContext D)
      → xc.done_cert ≡ true
      → take_chain dec hash certs xc ≡ xc
  unfolding take_chain insecure_end_cert
  take_chain-done [] xc h = refl
  take_chain-done (cert ∷ certs) xc h =
      ground (arith, append_all-done cert xc, take_chain-done certs xc)

  -- The verdict on the bytes of the first certificate: its hash is not the expected fingerprint, or
  -- its subject is not its issuer, or it is accepted. Without a certificate the chain is refused.
  abbrev pub verdict : Bool → Option (List ℕ) → Bool → List (List (List ℕ)) → ℕ
  verdict use_fingerprint fingerprint self_signed [] = 1
  verdict use_fingerprint fingerprint self_signed (first ∷ others) =
      let names = (dec.push (concat first) dec.init).0 in
      if elim (if use_fingerprint then fingerprint else none) [
        | none ↦ false
        | some expected ↦ memcmp 20 (hash.sha1 (concat first)) expected
      ]
      then not_trusted
      else (if self_signed && memcmp 32 (hash.sha256 (subjects names)) (hash.sha256 (issuers names))
          then not_trusted
          else 0)

  -- the key of the first certificate
  abbrev pub first_key : List (List (List ℕ)) → K
  first_key [] = dec.pkey dec.init
  first_key (first ∷ others) = dec.pkey (dec.push (concat first) dec.init).1

  -- For a decoder that reads a stream, the validator's answer is the verdict on the first
  -- certificate, and the key that it gives out is that certificate's: neither depends on the pieces
  -- in which the bytes come, nor on the other certificates.
  pub validate-verdict :
      (use_fingerprint : Bool) (fingerprint : Option (List ℕ)) (self_signed : Bool)
      (chain : List (List (List ℕ)))
      → let xc = validate dec hash use_fingerprint fingerprint self_signed chain in
        (insecure_end_chain dec hash xc ≡ verdict use_fingerprint fingerprint self_signed chain)
        × (insecure_get_pkey dec hash xc ≡ first_key chain)
  unfolding validate insecure_end_chain insecure_get_pkey br_x509_insecure_init insecure_start_chain
      take_chain insecure_end_cert
  validate-verdict use_fingerprint fingerprint self_signed [] = (refl, refl)
  validate-verdict use_fingerprint fingerprint self_signed (first ∷ others) =
      let start =
        insecure_start_chain dec hash
          (br_x509_insecure_init dec hash use_fingerprint fingerprint self_signed) in
      let after = insecure_end_cert dec hash (append_all dec hash first start) in
      let same =
        take_chain-done others after refl
        ∙ ap (insecure_end_cert dec hash) (append_all-fed first start refl) in
      (ap (insecure_end_chain dec hash) same, ap (insecure_get_pkey dec hash) same)
