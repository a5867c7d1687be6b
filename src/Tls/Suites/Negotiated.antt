-- ===== src/Tls/Suites/Negotiated.antt =====
-- The order of the cipher suites, and the parts of BearSSL that each of them needs.
use mathlib.Core.List.{Memᴰ}
use espasync_tcp.Common.{
  ℕ, ◌+◌, ◌*◌, ◌≤◌, ◌≡◌, refl, sym, ap, ◌∙◌, subst, inl, inr, Bool-cases, Bool, true, false, ◌&&◌,
  ◌||◌, Option, none, some, List, [], ◌∷◌, ◌++◌, if◌then◌else◌, arith, length, leb, ◌==◌,
}
use espasync_tcp.Tls.Suites.{
  KeyExchange, ecdhe_ecdsa, ecdhe_rsa, ecdh_ecdsa, ecdh_rsa, rsa_only, Cipher, chacha20_poly1305,
  aes_128_gcm, aes_256_gcm, aes_128_ccm, aes_256_ccm, aes_128_ccm_8, aes_256_ccm_8, aes_128_cbc,
  aes_256_cbc, triple_des_cbc, Hash, md5, sha1, sha224, sha256, sha384, sha512, Suite, suite, Part,
  default_rsapub, default_rsavrfy, default_ecdsa, default_aes_cbc, default_aes_gcm, default_aes_ccm,
  default_des_cbc, default_chapol, hash_of, prf_of, suites_of, suites_p, base_init,
}

-- Forward secrecy first, and ECDH before RSA.
unfoldable key_exchange_rank : KeyExchange → ℕ
key_exchange_rank ecdhe_ecdsa = 0
key_exchange_rank ecdhe_rsa = 0
key_exchange_rank ecdh_ecdsa = 1
key_exchange_rank ecdh_rsa = 1
key_exchange_rank rsa_only = 2

-- ChaCha20, then GCM, CCM, CCM with a short tag, and CBC
unfoldable cipher_rank : Cipher → ℕ
cipher_rank chacha20_poly1305 = 0
cipher_rank aes_128_gcm = 1
cipher_rank aes_256_gcm = 1
cipher_rank aes_128_ccm = 2
cipher_rank aes_256_ccm = 2
cipher_rank aes_128_ccm_8 = 3
cipher_rank aes_256_ccm_8 = 3
cipher_rank aes_128_cbc = 4
cipher_rank aes_256_cbc = 4
cipher_rank triple_des_cbc = 4

unfoldable is_triple_des : Cipher → Bool
is_triple_des triple_des_cbc = true
is_triple_des _ = false

-- SHA-2 before SHA-1 and MD5
unfoldable hash_rank : Hash → ℕ
hash_rank md5 = 1
hash_rank sha1 = 1
hash_rank sha224 = 0
hash_rank sha256 = 0
hash_rank sha384 = 0
hash_rank sha512 = 0

-- AES-128 before AES-256
unfoldable key_rank : Cipher → ℕ
key_rank aes_256_gcm = 1
key_rank aes_256_ccm = 1
key_rank aes_256_ccm_8 = 1
key_rank aes_256_cbc = 1
key_rank _ = 0

-- A suite is better if its rank is lower: 3DES counts more than the key exchange, the key exchange
-- more than the cipher's mode, the mode more than the hash, and the hash more than the length of the
-- key. The source's comment gives these rules but for the hash.
unfoldable pub rank : Suite → ℕ
unfolding key_exchange_rank cipher_rank is_triple_des hash_rank key_rank
rank (suite k c h) =
    (if is_triple_des c then 1000 else 0)
    + (100 * key_exchange_rank k + (10 * cipher_rank c + (2 * hash_rank h + key_rank c)))

-- the suites that are set
unfoldable pub offered : List Part → List Suite
offered [] = []
offered (suites_of suites ∷ parts) = suites
offered (part ∷ parts) = offered parts

-- the first suite that a peer accepts
unfoldable pub first_accepted : (Suite → Bool) → List Suite → Option Suite
first_accepted accepts [] = none
first_accepted accepts (x ∷ xs) = if accepts x then some x else first_accepted accepts xs

unfoldable hash_code : Hash → ℕ
hash_code md5 = 1
hash_code sha1 = 2
hash_code sha224 = 3
hash_code sha256 = 4
hash_code sha384 = 5
hash_code sha512 = 6

-- the parts that a suite may need, each by a number
unfoldable part_code : Part → ℕ
unfolding hash_code
part_code default_rsapub = 1
part_code default_rsavrfy = 2
part_code default_ecdsa = 3
part_code default_aes_cbc = 4
part_code default_aes_gcm = 5
part_code default_aes_ccm = 6
part_code default_des_cbc = 7
part_code default_chapol = 8
part_code (hash_of h) = 10 + hash_code h
part_code (prf_of h) = 20 + hash_code h
part_code _ = 0

unfoldable has_part : Part → List Part → Bool
unfolding part_code
has_part p [] = false
has_part p (q ∷ qs) = (part_code p == part_code q) || has_part p qs

unfoldable has_parts : List Part → List Part → Bool
unfolding has_part
has_parts [] qs = true
has_parts (p ∷ ps) qs = has_part p qs && has_parts ps qs

-- BearSSL's elliptic curves come with `br_ssl_engine_set_default_ecdsa`.
unfoldable key_exchange_needs : KeyExchange → List Part
key_exchange_needs ecdhe_ecdsa = default_ecdsa ∷ []
key_exchange_needs ecdhe_rsa = default_ecdsa ∷ default_rsavrfy ∷ []
key_exchange_needs ecdh_ecdsa = default_ecdsa ∷ []
key_exchange_needs ecdh_rsa = default_ecdsa ∷ []
key_exchange_needs rsa_only = default_rsapub ∷ []

unfoldable cipher_needs : Cipher → Part
cipher_needs chacha20_poly1305 = default_chapol
cipher_needs aes_128_gcm = default_aes_gcm
cipher_needs aes_256_gcm = default_aes_gcm
cipher_needs aes_128_ccm = default_aes_ccm
cipher_needs aes_256_ccm = default_aes_ccm
cipher_needs aes_128_ccm_8 = default_aes_ccm
cipher_needs aes_256_ccm_8 = default_aes_ccm
cipher_needs aes_128_cbc = default_aes_cbc
cipher_needs aes_256_cbc = default_aes_cbc
cipher_needs triple_des_cbc = default_des_cbc

-- the hash of the suite, and that of the PRF in TLS 1.2, which is SHA-256 at least
unfoldable hash_needs : Hash → List Part
hash_needs sha384 = hash_of sha384 ∷ prf_of sha384 ∷ []
hash_needs h = hash_of h ∷ hash_of sha256 ∷ prf_of sha256 ∷ []

-- the parts that the suite needs are installed
unfoldable pub can_run : List Part → Suite → Bool
unfolding has_parts key_exchange_needs cipher_needs hash_needs
can_run parts (suite k c h) =
    has_parts (cipher_needs c ∷ (key_exchange_needs k ++ hash_needs h)) parts

unfoldable none_better : ℕ → List Suite → Bool
unfolding rank
none_better r [] = true
none_better r (x ∷ xs) = leb r (rank x) && none_better r xs

unfoldable sorted : List Suite → Bool
unfolding none_better
sorted [] = true
sorted (x ∷ xs) = none_better (rank x) xs && sorted xs

unfoldable all_run : List Part → List Suite → Bool
unfolding can_run
all_run parts [] = true
all_run parts (x ∷ xs) = can_run parts x && all_run parts xs

none_better-Memᴰ :
    (r : ℕ) (xs : List Suite) (y : Suite) → none_better r xs ≡ true → Memᴰ y xs → r ≤ rank y
unfolding none_better
none_better-Memᴰ r [] y h m = elim m [ ]
none_better-Memᴰ r (x ∷ xs) y h (Memᴰ.head e) =
    subst (λ (z : Suite). r ≤ rank z) (sym e) (ground (arith, h))
none_better-Memᴰ r (x ∷ xs) y h (Memᴰ.tail m) = none_better-Memᴰ r xs y (ground (arith, h)) m

sorted-first :
    (accepts : Suite → Bool) (xs : List Suite) (x y : Suite)
    → sorted xs ≡ true
    → first_accepted accepts xs ≡ some x
    → Memᴰ y xs
    → accepts y ≡ true
    → rank x ≤ rank y
unfolding sorted first_accepted
sorted-first accepts [] x y s f m a = elim m [ ]
sorted-first accepts (z ∷ zs) x y s f (Memᴰ.head e) a =
    let accepted : accepts z ≡ true = ap accepts (sym e) ∙ a in
    let same : x ≡ y = ground (arith, accepted, f, e) in
    subst (λ (u : Suite). rank x ≤ rank u) same (omega arith)
sorted-first accepts (z ∷ zs) x y s f (Memᴰ.tail m) a = elim (Bool-cases (accepts z)) [
  | inl does ↦
      let same : z ≡ x = ground (arith, does, f) in
      subst (λ (u : Suite). rank u ≤ rank y) same
        (none_better-Memᴰ (rank z) zs y (ground (arith, s)) m)
  | inr not_it ↦ sorted-first accepts zs x y (ground (arith, s)) (ground (arith, not_it, f)) m a
]

all_run-first :
    (accepts : Suite → Bool) (parts : List Part) (xs : List Suite) (x : Suite)
    → all_run parts xs ≡ true
    → first_accepted accepts xs ≡ some x
    → can_run parts x ≡ true
unfolding all_run first_accepted
all_run-first accepts parts [] x s f = absurd cc
all_run-first accepts parts (z ∷ zs) x s f = elim (Bool-cases (accepts z)) [
  | inl does ↦
      let same : z ≡ x = ground (arith, does, f) in
      subst (λ (u : Suite). can_run parts u ≡ true) same (ground (arith, s))
  | inr not_it ↦ all_run-first accepts parts zs x (ground (arith, s)) (ground (arith, not_it, f))
]

-- the set-up of a client
abbrev pub set_up : Bool → List Part
set_up basic = base_init basic (suites_p basic) (length (suites_p basic))

offered-set_up : (basic : Bool) → offered (set_up basic) ≡ suites_p basic
unfolding offered base_init suites_p
offered-set_up true = refl
offered-set_up false = refl

sorted-suites_p : (basic : Bool) → sorted (suites_p basic) ≡ true
unfolding sorted suites_p rank
sorted-suites_p true = refl
sorted-suites_p false = refl

all_run-suites_p : (basic : Bool) → all_run (set_up basic) (suites_p basic) ≡ true
unfolding all_run base_init suites_p can_run
all_run-suites_p true = refl
all_run-suites_p false = refl

-- Of the suites that a client sets up, with or without `BEARSSL_SSL_BASIC`, the first one that a peer
-- accepts can be run with the parts that are installed, and it is the best of those that the peer
-- accepts: not 3DES if another one will do, then with forward secrecy before ECDH before RSA, then
-- ChaCha20 before GCM before CCM before CCM with a short tag before CBC, then SHA-2 before SHA-1, and
-- then AES-128 before AES-256.
pub base_init-Negotiated :
    (basic : Bool) (accepts : Suite → Bool) (x : Suite)
    → first_accepted accepts (offered (set_up basic)) ≡ some x
    → (can_run (set_up basic) x ≡ true)
      × ((y : Suite) → Memᴰ y (offered (set_up basic)) → accepts y ≡ true → rank x ≤ rank y)
base_init-Negotiated basic accepts x f =
    let same = offered-set_up basic in
    let f' : first_accepted accepts (suites_p basic) ≡ some x =
      ap (first_accepted accepts) (sym same) ∙ f in
    (
      all_run-first accepts (set_up basic) (suites_p basic) x (all_run-suites_p basic) f',
      λ y m a.
          sorted-first accepts (suites_p basic) x y (sorted-suites_p basic) f'
            (subst (Memᴰ y) same m) a,
    )
