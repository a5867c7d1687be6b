-- ===== src/Client/Access.antt =====
-- The getters of `AsyncClient`, the setters of its handlers, the comparison of clients, and the methods
-- that only pass on their arguments.
use espasync_tcp.Common.{
  ℕ, suc, ◌%◌, ◌≡◌, Bool, true, false, ◌&&◌, not, Option, none, some, List, [], ◌∷◌, arith, ◌==◌,
  if◌then◌else◌, is_some,
}
use espasync_tcp.Lwip.{Pcb, Handler, Err, Stack}
use espasync_tcp.Client.State.{World, App, Handlers, set_client}
use espasync_tcp.Client.Transmit.{write}
use espasync_tcp.Client.Connect.{dns_found}

-- The members of a `tcp_pcb` that lwIP sets.
pub record PcbFields : Type 0 where
  pub remote_address : Pcb → ℕ
  pub local_address : Pcb → ℕ
  pub remote_port_of : Pcb → ℕ
  pub local_port_of : Pcb → ℕ
  pub mss_of : Pcb → ℕ
  pub nagle_disabled : Pcb → Bool

module _ (f : PcbFields) where
  abbrev of_pcb : (Pcb → ℕ) → World → ℕ
  of_pcb g w = elim w.client.pcb [ none ↦ 0 | some p ↦ g p ]

  unfoldable remote_ip : World → ℕ
  remote_ip w = of_pcb f.remote_address w

  unfoldable local_ip : World → ℕ
  local_ip w = of_pcb f.local_address w

  unfoldable remote_port : World → ℕ
  remote_port w = of_pcb f.remote_port_of w

  unfoldable local_port : World → ℕ
  local_port w = of_pcb f.local_port_of w

  unfoldable get_mss : World → ℕ
  get_mss w = of_pcb f.mss_of w

  unfoldable get_no_delay : World → Bool
  get_no_delay w = elim w.client.pcb [ none ↦ false | some p ↦ f.nagle_disabled p ]

  -- `operator==`
  unfoldable is_same : World → World → Bool
  is_same v w = elim v.client.pcb [
    | none ↦ false
    | some p ↦ elim w.client.pcb [
      | none ↦ false
      | some q ↦
          (f.remote_address p == f.remote_address q) && (f.remote_port_of p == f.remote_port_of q)
    ]
  ]

  -- `operator!=`
  unfoldable is_different : World → World → Bool
  unfolding is_same
  is_different v w = not (is_same v w)

  is_same_refl : (w : World) → is_same w w ≡ is_some w.client.pcb
  unfolding is_same
  is_same_refl w = ground arith

  is_same_sym : (v w : World) → is_same v w ≡ is_same w v
  unfolding is_same
  is_same_sym v w = ground arith

  is_same_trans : (u v w : World) → is_same u v ≡ true → is_same v w ≡ true → is_same u w ≡ true
  unfolding is_same
  is_same_trans u v w h k = ground (arith, h, k)

unfoldable get_rx_timeout : World → ℕ
get_rx_timeout w = w.client.rx_since_timeout

unfoldable get_ack_timeout : World → ℕ
get_ack_timeout w = w.client.ack_timeout

-- `isRecvPush`; lwIP's `PBUF_FLAG_PUSH` is the lowest bit
unfoldable is_recv_push : World → Bool
is_recv_push w = w.client.recv_pbuf_flags % 2 == 1

unfoldable get_close_error : World → Err
get_close_error w = w.tracker.close_error

abbrev set_handlers : (Handlers → Handlers) → World → World
set_handlers g w = set_client (record w.client { handlers = g w.client.handlers }) w

unfoldable on_connect : Option Handler → World → World
on_connect cb w = set_handlers (λ h. record h { connect_cb = cb }) w

unfoldable pub on_disconnect : Option Handler → World → World
on_disconnect cb w = set_handlers (λ h. record h { discard_cb = cb }) w

unfoldable pub on_ack : Option Handler → World → World
on_ack cb w = set_handlers (λ h. record h { sent_cb = cb }) w

unfoldable on_error : Option Handler → World → World
on_error cb w = set_handlers (λ h. record h { error_cb = cb }) w

unfoldable pub on_data : Option Handler → World → World
on_data cb w = set_handlers (λ h. record h { recv_cb = cb }) w

unfoldable on_packet : Option Handler → World → World
on_packet cb w = set_handlers (λ h. record h { pb_cb = cb }) w

unfoldable pub on_timeout : Option Handler → World → World
on_timeout cb w = set_handlers (λ h. record h { timeout_cb = cb }) w

unfoldable pub on_poll : Option Handler → World → World
on_poll cb w = set_handlers (λ h. record h { poll_cb = cb }) w

-- `load_ca_certs_from_pem`: the number of certificates in the list that was made of the file, `none`
-- if the file could not be opened; within, `none` if there was no memory for the list
unfoldable load_ca_certs_from_pem : Option (Option ℕ) → World → World
load_ca_certs_from_pem none w = w
load_ca_certs_from_pem (some certs) w = set_client (record w.client { ca_certs = certs }) w

abbrev pub strlen : List ℕ → ℕ
strlen [] = 0
strlen (x ∷ xs) = if x == 0 then 0 else suc (strlen xs)

module _ (s : Stack) (app : App) where
  -- `write(data)` of a text
  unfoldable write_text : Option (List ℕ) → World → ℕ × World
  write_text none w = (0, w)
  write_text (some text) w = write s app (some text) (strlen text) 0 w

  -- `_s_dns_found`
  unfoldable s_dns_found : Bool → World → World
  s_dns_found found w = dns_found s app found w
