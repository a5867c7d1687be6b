-- ===== src/Checks/OnCertificates.antt =====
-- Examples for the certificates: a decoder that names every byte, and short texts.
use espasync_tcp.Common.{
  ℕ, ◌+◌, ◌<◌, ◌≡◌, ◌⊎◌, refl, ap, true, some, none, false, List, [], ◌∷◌, ◌++◌, arith, append-nil,
  append_assoc, length, if◌then◌else◌, ◌==◌, ◌||◌,
}
use espasync_tcp.Tls.X509.{
  Name, subject, issuer, Decoder, Hashes, insecure_end_chain, insecure_get_pkey, validate,
}
use espasync_tcp.Tls.X509.Verdict.{IsStream, verdict, first_key, validate-verdict}
use espasync_tcp.Tls.Pem.{
  no_event, begin_obj, end_obj, pem_error, PemDecoder, CertParseCtx, parse_start, parse_loop,
  parse_certificates, append_pieces, append_to_cert_vector, end_object,
}
use espasync_tcp.Client.State.{rsa}
use espasync_tcp.Tls.ServerContext.{Text, tcp_ssl_new_server_ctx}
use espasync_tcp.Tls.ServerContext.Blocks.{Made, lost, tcp_ssl_new_server_ctx-Made}
use espasync_tcp.Tls.Pem.Memory.{pending, Reads, parse_certificates-blocks}

abbrev names : List ℕ → List Name
names [] = []
names (x ∷ xs) = subject (x ∷ []) ∷ issuer (x ∷ []) ∷ names xs

names-append : (xs ys : List ℕ) → names (xs ++ ys) ≡ names xs ++ names ys
names-append [] ys = refl
names-append (x ∷ xs) ys =
    ap (λ (r : List Name). subject (x ∷ []) ∷ issuer (x ∷ []) ∷ r) (names-append xs ys)

abbrev decoder : Decoder (List ℕ) (List ℕ)
decoder = record { zeroed = []; init = []; push = λ xs d. (names xs, d ++ xs); pkey = λ d. d }

decoder-IsStream : IsStream decoder
decoder-IsStream = record {
  push_nothing = λ d. ap (λ (r : List ℕ). ([], r)) (append-nil d);
  push_parts = λ xs ys d. ground (arith, names-append xs ys, append_assoc d xs ys);
}

abbrev hashes : Hashes
hashes = record { sha1 = λ xs. xs; sha256 = λ xs. xs }

abbrev chain : List (List (List ℕ))
chain = ((1 ∷ 2 ∷ []) ∷ (3 ∷ []) ∷ []) ∷ ((9 ∷ []) ∷ []) ∷ []

validate-verdict_example :
    let xc = validate decoder hashes true (some (1 ∷ 2 ∷ 3 ∷ [])) true chain in
    (insecure_end_chain decoder hashes xc
      ≡ verdict decoder hashes decoder-IsStream true (some (1 ∷ 2 ∷ 3 ∷ [])) true chain)
    × (insecure_get_pkey decoder hashes xc ≡ first_key decoder hashes decoder-IsStream chain)
validate-verdict_example =
    validate-verdict decoder hashes decoder-IsStream true (some (1 ∷ 2 ∷ 3 ∷ [])) true chain

-- A byte 0 begins an object, a byte 1 ends it, and a byte 3 is malformed; other bytes are data.
abbrev pem : PemDecoder ℕ
pem = record {
  init = 2;
  push = λ text d. elim text [
    | [] ↦ (0, [], d)
    | x ∷ _ ↦ (1, if x == 0 then [] else (if x == 1 || x == 3 then [] else (x ∷ []) ∷ []), x)
  ];
  event = λ d. (
    if d == 0
        then begin_obj
        else (if d == 1 then end_obj else (if d == 3 then pem_error else no_event)),
    2,
  );
  is_certificate = λ d. true;
}

pem-Reads : Reads pem (λ d. d ≡ d)
pem-Reads = record {
  init_open = refl;
  event_open = λ d. refl;
  consumes = λ text d o l. consumes text d l;
}
  where
    consumes : (text : List ℕ) (d : ℕ) → 0 < length text → 0 < (pem.push text d).0
    consumes [] d l = absurd (omega arith)
    consumes (x ∷ xs) d l = omega arith

parse_certificates-blocks_example :
    (n : ℕ) × (x : CertParseCtx) × (parse_certificates pem
        (λ _. true)
        (0 ∷ 7 ∷ 3 ∷ 8 ∷ 1 ∷ 0 ∷ 9 ∷ [])
        3
        0
      ≡ some (n, x))
    × (n ≡ length x.certs)
    × (x.blocks ≡ 3 + (n + pending x))
    × ((parse_loop pem (λ _. true) 8 (0 ∷ 7 ∷ 3 ∷ 8 ∷ 1 ∷ 0 ∷ 9 ∷ []) 2 (parse_start 3 0)
          ≡ some (true, x))
        ⊎ ((x.error ≡ true) × (n ≡ 0) × (x.blocks ≡ 3)))
parse_certificates-blocks_example =
    parse_certificates-blocks pem (λ _. true) pem-Reads (0 ∷ 7 ∷ 3 ∷ 8 ∷ 1 ∷ 0 ∷ 9 ∷ []) 3 0

-- Malformed base64 inside of an object: the object is kept nevertheless, without what was malformed.
parse_malformed :
    parse_certificates pem (λ _. true) (0 ∷ 7 ∷ 3 ∷ 8 ∷ 1 ∷ []) 0 0
    ≡ some
        (1, record { certs = (7 ∷ 8 ∷ []) ∷ []; buf = none; error = false; blocks = 1; asked = 2 })
unfolding parse_certificates parse_loop append_pieces append_to_cert_vector end_object
parse_malformed = refl

-- Both texts stand in flash; the key is an RSA key.
abbrev in_flash : List ℕ → Text
in_flash chars = record { in_flash = true; chars = chars }

tcp_ssl_new_server_ctx-Made_example :
    Made pem
      (λ _. true)
      (λ _. some rsa)
      pem-Reads
      3
      (lost pem
        (λ _. true)
        (λ _. some rsa)
        pem-Reads
        (some (in_flash (0 ∷ 7 ∷ 8 ∷ 1 ∷ 0 ∷ [])))
        (some (in_flash (6 ∷ [])))
        (record { blocks = 3; asked = 0 }))
      (tcp_ssl_new_server_ctx pem
        (λ _. true)
        (λ _. some rsa)
        (some (in_flash (0 ∷ 7 ∷ 8 ∷ 1 ∷ 0 ∷ [])))
        (some (in_flash (6 ∷ [])))
        (record { blocks = 3; asked = 0 }))
tcp_ssl_new_server_ctx-Made_example =
    tcp_ssl_new_server_ctx-Made pem (λ _. true) (λ _. some rsa) pem-Reads
      (some (in_flash (0 ∷ 7 ∷ 8 ∷ 1 ∷ 0 ∷ []))) (some (in_flash (6 ∷ [])))
      (record { blocks = 3; asked = 0 })
