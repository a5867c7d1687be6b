-- ===== src/Tls/Suites.antt =====
-- `suites_P` and `br_ssl_client_base_init`: which cipher suites a TLS client offers, in which order, and
-- which parts of BearSSL it installs for them.
pub mod Negotiated
use espasync_tcp.Common.{
  ℕ, ◌+◌, ◌*◌, Bool, true, false, List, [], ◌∷◌, ◌++◌, if◌then◌else◌, take, length,
}

pub data KeyExchange : Type 0 where
  ecdhe_ecdsa ecdhe_rsa ecdh_ecdsa ecdh_rsa rsa_only : KeyExchange

pub data Cipher : Type 0 where
  chacha20_poly1305 aes_128_gcm aes_256_gcm aes_128_ccm aes_256_ccm aes_128_ccm_8 : Cipher
  aes_256_ccm_8 aes_128_cbc aes_256_cbc triple_des_cbc : Cipher

pub data Hash : Type 0 where
  md5 sha1 sha224 sha256 sha384 sha512 : Hash

-- A suite by the parts of its name; one that names no hash has SHA-256.
pub data Suite : Type 0 where
  suite : KeyExchange → Cipher → Hash → Suite

-- the suites that `BEARSSL_SSL_BASIC` leaves out, in front of the others
abbrev pub strong_suites : List Suite
strong_suites =
    suite ecdhe_ecdsa chacha20_poly1305 sha256
    ∷ suite ecdhe_rsa chacha20_poly1305 sha256
    ∷ suite ecdhe_ecdsa aes_128_gcm sha256
    ∷ suite ecdhe_rsa aes_128_gcm sha256
    ∷ suite ecdhe_ecdsa aes_256_gcm sha384
    ∷ suite ecdhe_rsa aes_256_gcm sha384
    ∷ suite ecdhe_ecdsa aes_128_ccm sha256
    ∷ suite ecdhe_ecdsa aes_256_ccm sha256
    ∷ suite ecdhe_ecdsa aes_128_ccm_8 sha256
    ∷ suite ecdhe_ecdsa aes_256_ccm_8 sha256
    ∷ suite ecdhe_ecdsa aes_128_cbc sha256
    ∷ suite ecdhe_rsa aes_128_cbc sha256
    ∷ suite ecdhe_ecdsa aes_256_cbc sha384
    ∷ suite ecdhe_rsa aes_256_cbc sha384
    ∷ suite ecdhe_ecdsa aes_128_cbc sha1
    ∷ suite ecdhe_rsa aes_128_cbc sha1
    ∷ suite ecdhe_ecdsa aes_256_cbc sha1
    ∷ suite ecdhe_rsa aes_256_cbc sha1
    ∷ suite ecdh_ecdsa aes_128_gcm sha256
    ∷ suite ecdh_rsa aes_128_gcm sha256
    ∷ suite ecdh_ecdsa aes_256_gcm sha384
    ∷ suite ecdh_rsa aes_256_gcm sha384
    ∷ suite ecdh_ecdsa aes_128_cbc sha256
    ∷ suite ecdh_rsa aes_128_cbc sha256
    ∷ suite ecdh_ecdsa aes_256_cbc sha384
    ∷ suite ecdh_rsa aes_256_cbc sha384
    ∷ suite ecdh_ecdsa aes_128_cbc sha1
    ∷ suite ecdh_rsa aes_128_cbc sha1
    ∷ suite ecdh_ecdsa aes_256_cbc sha1
    ∷ suite ecdh_rsa aes_256_cbc sha1
    ∷ suite rsa_only aes_128_gcm sha256
    ∷ suite rsa_only aes_256_gcm sha384
    ∷ suite rsa_only aes_128_ccm sha256
    ∷ suite rsa_only aes_256_ccm sha256
    ∷ suite rsa_only aes_128_ccm_8 sha256
    ∷ suite rsa_only aes_256_ccm_8 sha256
    ∷ []

abbrev pub rsa_cbc_suites : List Suite
rsa_cbc_suites =
    suite rsa_only aes_128_cbc sha256
    ∷ suite rsa_only aes_256_cbc sha256
    ∷ suite rsa_only aes_128_cbc sha1
    ∷ suite rsa_only aes_256_cbc sha1
    ∷ []

abbrev pub triple_des_suites : List Suite
triple_des_suites =
    suite ecdhe_ecdsa triple_des_cbc sha1
    ∷ suite ecdhe_rsa triple_des_cbc sha1
    ∷ suite ecdh_ecdsa triple_des_cbc sha1
    ∷ suite ecdh_rsa triple_des_cbc sha1
    ∷ suite rsa_only triple_des_cbc sha1
    ∷ []

-- `suites_P`; the flag says that `BEARSSL_SSL_BASIC` is defined
unfoldable pub suites_p : Bool → List Suite
suites_p true = rsa_cbc_suites
suites_p false = strong_suites ++ (rsa_cbc_suites ++ triple_des_suites)

-- The calls of BearSSL that set up a client's context.
pub data Part : Type 0 where
  zeroed no_renegotiation default_rsapub default_rsavrfy default_ecdsa prf10 : Part
  default_aes_cbc default_aes_gcm default_aes_ccm default_des_cbc default_chapol : Part
  hash_of prf_of : Hash → Part
  versions : ℕ → ℕ → Part
  suites_of : List Suite → Part

-- `BR_TLS10` and `BR_TLS12`
abbrev pub tls_1_0 : ℕ
tls_1_0 = 769

abbrev pub tls_1_2 : ℕ
tls_1_2 = 771

-- `br_ssl_client_install_hashes`
unfoldable pub install_hashes : List Part
install_hashes =
    hash_of md5
    ∷ hash_of sha1
    ∷ hash_of sha224
    ∷ hash_of sha256
    ∷ hash_of sha384
    ∷ hash_of sha512
    ∷ []

-- `br_ssl_client_base_init(cc, cipher_list, cipher_cnt)`: the calls that it makes, in their order
unfoldable pub base_init : Bool → List Suite → ℕ → List Part
unfolding install_hashes
base_init basic cipher_list cipher_cnt =
    (zeroed
      ∷ no_renegotiation
      ∷ versions tls_1_0 tls_1_2
      ∷ suites_of (take cipher_cnt cipher_list)
      ∷ default_rsapub
      ∷ default_rsavrfy
      ∷ [])
    ++ ((if basic then [] else default_ecdsa ∷ [])
        ++ (install_hashes
            ++ ((prf10 ∷ prf_of sha256 ∷ prf_of sha384 ∷ default_aes_cbc ∷ [])
                ++ (if basic
                    then []
                    else default_aes_gcm ∷ default_aes_ccm ∷ default_des_cbc ∷ default_chapol
                      ∷ []))))
