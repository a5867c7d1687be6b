-- ===== src/Checks/OnSuites.antt =====
-- An example for the cipher suites: a peer that has RSA key exchange only, and any cipher.
use mathlib.Core.List.{Memᴰ}
use espasync_tcp.Common.{◌≤◌, ◌≡◌, refl, Bool, true, false}
use espasync_tcp.Tls.Suites.{rsa_only, aes_128_gcm, sha256, Suite, suite, suites_p, base_init}
use espasync_tcp.Tls.Suites.Negotiated.{
  rank, offered, first_accepted, can_run, set_up, base_init-Negotiated,
}

abbrev old_peer : Suite → Bool
old_peer (suite rsa_only c h) = true
old_peer _ = false

base_init-Negotiated_example :
    (can_run (set_up false) (suite rsa_only aes_128_gcm sha256) ≡ true)
    × ((y : Suite)
        → Memᴰ y (offered (set_up false))
        → old_peer y ≡ true
        → rank (suite rsa_only aes_128_gcm sha256) ≤ rank y)
unfolding first_accepted offered base_init suites_p
base_init-Negotiated_example =
    base_init-Negotiated false old_peer (suite rsa_only aes_128_gcm sha256) refl
