-- ===== src/Punch/Endpoints.antt =====
-- control/punch.go: what a client reports of its peers, and the endpoints offered to the other side.
pub mod Distinct
use sdl_control.Base.{
  ℕ, ◌%◌, ◌^◌, List, [], ◌∷◌, ◌++◌, Option, none, some, Bool, true, false, ◌&&◌, ◌||◌, not, Eq,
  ◌==◌, nat_eq, if◌then◌else◌, length, is_empty,
}
use sdl_control.Protocol.Ip.{Ip, to4, ip_equal, ip_to_uint32, uint32_to_ip, bytes_eq}
use sdl_control.Network.Client.{ClientInfo, ClientStatusInfo, ChannelMode, mode_relay, UdpEndpoint}

any_equal : List Ip → Ip → Bool
any_equal [] peer = false
any_equal (ip ∷ ips) peer = ip_equal ip peer || any_equal ips peer

reports : Option ClientStatusInfo → ℕ → Bool
unfolding any_equal
reports none peer_ip = false
reports (some status) peer_ip = any_equal status.p2p_list (uint32_to_ip peer_ip)

unfoldable pub client_reports_direct_peer : ClientInfo → ℕ → Bool
unfolding reports
client_reports_direct_peer client peer_ip = reports client.client_status peer_ip

unfoldable pub clients_have_any_p2p_path : ClientInfo → ℕ → ClientInfo → ℕ → Bool
clients_have_any_p2p_path src src_ip target target_ip =
    client_reports_direct_peer src target_ip || client_reports_direct_peer target src_ip

unfoldable pub clients_have_mutual_p2p_path : ClientInfo → ℕ → ClientInfo → ℕ → Bool
clients_have_mutual_p2p_path src src_ip target target_ip =
    client_reports_direct_peer src target_ip && client_reports_direct_peer target src_ip

is_relay : ChannelMode → Bool
is_relay mode_relay = true
is_relay _ = false

unfoldable pub clients_prefer_relay : ClientInfo → ClientInfo → Bool
unfolding is_relay
clients_prefer_relay src target =
    is_relay src.preferred_channel_mode || is_relay target.preferred_channel_mode

unfoldable pub should_suppress_punch_start_for_status_update :
    ClientInfo → ℕ → ClientInfo → ℕ → Bool
unfolding clients_prefer_relay clients_have_any_p2p_path
should_suppress_punch_start_for_status_update src src_ip target target_ip =
    clients_prefer_relay src target || clients_have_any_p2p_path src src_ip target target_ip

unfoldable pub should_suppress_punch_start_for_other_trigger :
    ClientInfo → ℕ → ClientInfo → ℕ → Bool
unfolding clients_prefer_relay clients_have_mutual_p2p_path
should_suppress_punch_start_for_other_trigger src src_ip target target_ip =
    clients_prefer_relay src target || clients_have_mutual_p2p_path src src_ip target target_ip

-- The generated pb.PunchEndpoint, with the fields that the source sets; `tcp` is false.
pub record PunchEndpoint : Type 0 where
  pub ip : ℕ
  pub ipv6 : List ℕ
  pub port : ℕ

-- The endpoint of an address that appendEndpoint takes
unfoldable pub endpoint_of : Ip → ℕ → Option PunchEndpoint
endpoint_of ip port =
    if port == 0
    then none
    else if not (is_empty (to4 ip))
    then some (record { ip = ip_to_uint32 (to4 ip); ipv6 = []; port = port })
    else if length ip == 16
    then some (record { ip = 0; ipv6 = ip; port = port })
    else none

-- Two addresses with their ports have the same text where they make the same endpoint.
unfoldable pub same_endpoint : PunchEndpoint → PunchEndpoint → Bool
same_endpoint a b = a.ip == b.ip && bytes_eq a.ipv6 b.ipv6 && a.port == b.port

unfoldable pub is_seen : List PunchEndpoint → PunchEndpoint → Bool
unfolding same_endpoint
is_seen [] e = false
is_seen (x ∷ xs) e = same_endpoint x e || is_seen xs e

-- The calls of appendEndpoint, and what they append; the port is cut to sixteen bits.
unfoldable pub append_endpoints : List PunchEndpoint → List UdpEndpoint → List PunchEndpoint
unfolding endpoint_of is_seen
append_endpoints seen [] = []
append_endpoints seen (u ∷ us) = elim (endpoint_of u.ip (u.port % 2 ^ 16)) [
  | none ↦ append_endpoints seen us
  | some e ↦
      let fresh = append_endpoints (e ∷ seen) us in
      let skipped = append_endpoints seen us in if is_seen seen e then skipped else e ∷ fresh
]

unfoldable pub build_punch_endpoints : ClientInfo → List PunchEndpoint
unfolding append_endpoints
build_punch_endpoints client = elim client.client_status [
  | none ↦ []
  | some status ↦ append_endpoints [] (status.public_udp_endpoints ++ status.local_udp_endpoints)
]
