-- ===== src/Udp.antt =====
-- The transport of esp32-firmware/main/transport/ykp_udp.c: its socket, and what is sent and received.
-- What the sockets answer are arguments. A socket that is not there is -1.
use iot_yk.Base.{
  ℕ, ◌≡◌, refl, Bool, true, false, not, ◌&&◌, Option, none, some, List, [], ◌∷◌, ◌++◌, ltb, ◌==◌,
  if◌then◌else◌, length, take,
}
use Prim.Native.String.{String}

-- `s_sock` is open or -1.
pub record Udp : Type 0 where
  pub sock : Bool
  pub port : ℕ
  pub rx_cb : Bool
  pub rx_running : Bool

pub data UdpCall : Type 0 where
  allow_broadcast close_sock create_rx_task : UdpCall
  send_to : String → ℕ → List ℕ → UdpCall
  received : List ℕ → UdpCall

unfoldable pub ykp_udp_init : ℕ → Bool → Bool → Udp → (Udp × List UdpCall) × Bool
ykp_udp_init port made bound u =
    if not made
    then ((record u { port = port; sock = false }, []), false)
    else if not bound
    then ((record u { port = port; sock = false }, allow_broadcast ∷ close_sock ∷ []), false)
    else ((record u { port = port; sock = true }, allow_broadcast ∷ []), true)

-- The answer of `sendto` is the number of bytes, or an error.
abbrev sent_all : Option ℕ → ℕ → Bool
sent_all none len = false
sent_all (some sent) len = sent == len

unfoldable pub ykp_udp_send : Option ℕ → String → ℕ → List ℕ → Udp → List UdpCall × Bool
ykp_udp_send sent dest_ip dest_port bytes u =
    if not u.sock
    then ([], false)
    else (send_to dest_ip dest_port bytes ∷ [], sent_all sent (length bytes))

unfoldable pub ykp_udp_broadcast : Option ℕ → ℕ → List ℕ → Udp → List UdpCall × Bool
unfolding ykp_udp_send
ykp_udp_broadcast sent dest_port bytes u = ykp_udp_send sent "255.255.255.255" dest_port bytes u

unfoldable pub ykp_udp_register_rx_cb : Bool → Udp → Udp
ykp_udp_register_rx_cb cb u = record u { rx_cb = cb }

-- A round of `udp_rx_task`, with the datagram that `recvfrom` cuts to 1400 bytes, or none.
unfoldable pub udp_rx_round : Option (List ℕ) → Udp → List UdpCall
udp_rx_round none u = []
udp_rx_round (some datagram) u =
    let bytes = take 1400 datagram in
    if ltb 0 (length bytes) && u.rx_cb then received bytes ∷ [] else []

unfoldable pub udp_rx_task : List (Option (List ℕ)) → Udp → List UdpCall
unfolding udp_rx_round
udp_rx_task [] u = []
udp_rx_task (datagram ∷ datagrams) u =
    let rest = udp_rx_task datagrams u in
    if u.rx_running then udp_rx_round datagram u ++ rest else []

unfoldable pub ykp_udp_start_rx_task : Udp → Udp × List UdpCall
ykp_udp_start_rx_task u = (record u { rx_running = true }, create_rx_task ∷ [])

unfoldable pub ykp_udp_stop : Udp → Udp × List UdpCall
ykp_udp_stop u =
    (record u { rx_running = false; sock = false }, if u.sock then close_sock ∷ [] else [])

-- After a stop nothing is sent, received or closed.
pub ykp_udp_stop-quiet :
    (u : Udp) (sent : Option ℕ) (dest_ip : String) (dest_port : ℕ) (bytes : List ℕ)
    (datagrams : List (Option (List ℕ)))
    → (ykp_udp_send sent dest_ip dest_port bytes (ykp_udp_stop u).0 ≡ ([], false))
      × (udp_rx_task datagrams (ykp_udp_stop u).0 ≡ [])
      × ((ykp_udp_stop (ykp_udp_stop u).0).1 ≡ [])
unfolding ykp_udp_stop ykp_udp_send udp_rx_task
ykp_udp_stop-quiet u sent dest_ip dest_port bytes [] = (refl, refl, refl)
ykp_udp_stop-quiet u sent dest_ip dest_port bytes (datagram ∷ datagrams) = (refl, refl, refl)
