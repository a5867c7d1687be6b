-- ===== src/Client/Config.antt =====
-- The setters of `AsyncClient`.
use espasync_tcp.Common.{ℕ, Bool, true, false, Option, none, some, List, if◌then◌else◌, take}
use espasync_tcp.Lwip.{tcp_nagle_disable, tcp_nagle_enable}
use espasync_tcp.Client.State.{KeyType, World, log, set_client}

-- `enum AcSSLAuthMode`
abbrev pub ssl_auth_secure : ℕ
ssl_auth_secure = 0

abbrev pub ssl_auth_insecure : ℕ
ssl_auth_insecure = 1

abbrev pub ssl_auth_fingerprint : ℕ
ssl_auth_fingerprint = 2

abbrev pub ssl_auth_self_signed : ℕ
ssl_auth_self_signed = 4

abbrev pub ssl_auth_known_key : ℕ
ssl_auth_known_key = 8

-- `_clearAuthenticationSettings`
unfoldable pub clear_authentication_settings : World → World
clear_authentication_settings w =
    set_client (record w.client { ssl_auth_mode = ssl_auth_secure; knownkey = none }) w

unfoldable pub set_insecure : Bool → World → World
set_insecure insecure w =
    set_client
      (record w.client { ssl_auth_mode = if insecure then ssl_auth_insecure else ssl_auth_secure })
      w

-- `setKnownKey`; a NULL key is `none`
unfoldable pub set_known_key : Option KeyType → World → World
unfolding clear_authentication_settings
set_known_key key w =
    let w1 = clear_authentication_settings w in
    set_client (record w1.client { knownkey = key; ssl_auth_mode = ssl_auth_known_key }) w1

unfoldable pub allow_self_signed_certs : World → World
unfolding clear_authentication_settings
allow_self_signed_certs w =
    let w1 = clear_authentication_settings w in
    set_client (record w1.client { ssl_auth_mode = ssl_auth_self_signed }) w1

-- `setFingerprint(fingerprint, size)`. With a NULL argument the new array is left unset, which is
-- the empty list here.
unfoldable pub set_fingerprint : Option (List ℕ) → ℕ → World → Bool × World
unfolding clear_authentication_settings
set_fingerprint source size w =
    let w1 = clear_authentication_settings w in
    let keep = λ (bytes : List ℕ).
      set_client
        (record w1.client { ssl_auth_mode = ssl_auth_fingerprint; fingerprint = some bytes }) w1 in
    elim source [ none ↦ (false, keep List.[]) | some bytes ↦ (true, keep (take size bytes)) ]

unfoldable pub set_rx_timeout : ℕ → World → World
set_rx_timeout timeout w = set_client (record w.client { rx_since_timeout = timeout }) w

unfoldable pub set_ack_timeout : ℕ → World → World
set_ack_timeout timeout w = set_client (record w.client { ack_timeout = timeout }) w

unfoldable pub set_no_delay : Bool → World → World
set_no_delay nodelay w = elim w.client.pcb [
  | none ↦ w
  | some p ↦ log (if nodelay then tcp_nagle_disable p else tcp_nagle_enable p) w
]
