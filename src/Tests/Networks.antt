-- ===== src/Tests/Networks.antt =====
-- A network 10.26.0.0/24 with one client, "dev_a" at 10.26.0.2; its remote end leaves; "dev_b" comes.
use sdl_control.Base.{
  ℕ, ◌+◌, ◌^◌, ap, ◌≤◌, ◌≡◌, ◌≢◌, ◌⊎◌, inr, refl, String, [], ◌∷◌, none, some, true, false, is_some,
  not, if◌then◌else◌, ◌%◌, nat_eq, string_eq, arith,
}
use mathlib.Core.Option
use text.Mathlib.TextEquality.{eq_iff}
use sdl_control.Base.Text.{trim_space}
use sdl_control.Base.Map
use sdl_control.Base.Map.{Map, IsUnique}
use sdl_control.ExpireMap.{
  ExpireMap, new_expire_map, is_past, set, get_read, get_resume, try_set_if_absent, sweep,
}
use sdl_control.ExpireMap
use sdl_control.ExpireMap.Laws.{live, get_lem, try_set_if_absent_lem}
use sdl_control.ExpireMap.Race.{get_race}
use sdl_control.Protocol.Ip.{ip_equal, uint32_to_ip, ip_to_uint32}
use sdl_control.Protocol.Packet.{Packet}
use sdl_control.Protocol.Codes.{v3, proto_control}
use sdl_control.Protocol.Control.{control_ping, parse_ping_payload}
use sdl_control.Network.Client.{ClientInfo, zero_client}
use sdl_control.Network.Info.{
  NetworkInfo, new_network_info, upsert_client, find_client_ip_by_device_id,
}
use sdl_control.Network.Index.{IsIndexed, new_network_info-IsIndexed, upsert_client-IsIndexed}
use sdl_control.Network.Alloc.{Sessions, remote, allocated, key_eq, generate_ip, usable_range}
use sdl_control.Network.Alloc.Scan.{is_free}
use sdl_control.Network.Alloc.Choice.{
  OwnedBy, chosen, generate_ip_lem, generate_ip-chosen, generate_ip_range,
}
use sdl_control.Network.Control.{
  Networks, leave_network, bump_epoch, touched, touch_client_by_ip_in_network,
  find_client_by_virtual_ip_in_network,
}
use sdl_control.Network.Control.Keeps.{first_network}
use sdl_control.Network.Control.Departures.{IsNamed, any_leaving, departures_lem}
use sdl_control.Network.Control.Leave.{departed, is_leaving, session_of, lease_until}
use sdl_control.Network.Control.Ping.{
  handle_control_packet_in_network, reply, build_disconnect_packet, ping_disconnected,
}

abbrev dev_a : ClientInfo
dev_a = record zero_client {
  device_id = "dev_a";
  control_online = true;
  address = some "1.2.3.4:5";
}

abbrev ip_a : ℕ
ip_a = 169476098

abbrev ip_b : ℕ
ip_b = 169476099

abbrev empty_net : NetworkInfo
empty_net = new_network_info "ms.net" (255 ∷ 255 ∷ 255 ∷ 0 ∷ []) (10 ∷ 26 ∷ 0 ∷ 1 ∷ []) []

abbrev net : NetworkInfo
net = upsert_client empty_net ip_a dev_a

abbrev leases : Sessions
leases = new_expire_map 3600

empty_net-IsIndexed : IsIndexed empty_net
empty_net-IsIndexed =
    new_network_info-IsIndexed "ms.net" (255 ∷ 255 ∷ 255 ∷ 0 ∷ []) (10 ∷ 26 ∷ 0 ∷ 1 ∷ []) []

gives_b : (generate_ip net leases 10 0 "dev_b" false).result ≡ allocated ip_b 0
unfolding generate_ip upsert_client new_network_info new_expire_map find_client_ip_by_device_id
    Map.get Map.put usable_range ip_to_uint32 sdl_control.Protocol.Ip.mask_to_uint32 ExpireMap.get
gives_b = refl

generate_ip_lem_example :
    OwnedBy "dev_b" (Map.get (generate_ip net leases 10 0 "dev_b" false).network.clients ip_b)
    × ((ip_b ≡ ip_a)
        ⊎ (Map.get (generate_ip net leases 10 0 "dev_b" false).network.clients ip_a
            ≡ Map.get net.clients ip_a))
generate_ip_lem_example =
    generate_ip_lem net leases 10 0 "dev_b" false ip_b 0 ip_a
      (upsert_client-IsIndexed empty_net ip_a dev_a empty_net-IsIndexed) gives_b

generate_ip-chosen_example :
    (generate_ip net leases 10 0 "dev_b" false).result
    ≡ chosen net leases 10 (find_client_ip_by_device_id net "dev_b")
generate_ip-chosen_example = generate_ip-chosen net leases 10 "dev_b" false

generate_ip_range_example :
    ((ip_b ≡ find_client_ip_by_device_id net "dev_b") × (ip_b ≢ 0))
    ⊎ (((usable_range net.gateway net.netmask).first ≤ ip_b)
        × (ip_b ≤ (usable_range net.gateway net.netmask).last)
        × (((ip_b ≡ 0) × (ip_equal net.gateway (uint32_to_ip ip_b) ≡ false))
            ⊎ (is_free net leases 10 ip_b ≡ true)))
generate_ip_range_example = generate_ip_range net leases 10 0 "dev_b" false ip_b 0 gives_b

net_IsUnique : IsUnique net.clients
unfolding upsert_client Map.put new_network_info Map.get
net_IsUnique = (refl, tt)

a_leaves : is_leaving "1.2.3.4:5" (Map.get net.clients ip_a) ≡ true
unfolding Map.get upsert_client Map.put new_network_info sdl_control.Network.Control.leaves
a_leaves = refl

net_IsNamed : IsNamed net.clients net.client_ips_by_device_id
unfolding upsert_client Map.put new_network_info Map.get
net_IsNamed ip c e some_id =
    ground (arith, ap (Option.map (λ (x : ClientInfo). x.device_id)) e, eq_iff "dev_a" c.device_id)

departures_lem_example :
    (Map.get (bump_epoch (leave_network net leases "1.2.3.4:5" 7 10)).clients ip_a
      ≡ departed "1.2.3.4:5" 7 (Map.get net.clients ip_a))
    × (live (leave_network net leases "1.2.3.4:5" 7 10).sessions 20 (session_of net.group ip_a) ≡ (
        if is_leaving "1.2.3.4:5" (Map.get net.clients ip_a)
        then lease_until leases.ttl 10 20 (remote "1.2.3.4:5")
        else live leases 20 (session_of net.group ip_a)))
    × (Map.get
          (bump_epoch (leave_network net leases "1.2.3.4:5" 7 10)).client_ips_by_device_id
          "dev_a"
        ≡ Map.get net.client_ips_by_device_id "dev_a")
    × (bump_epoch (leave_network net leases "1.2.3.4:5" 7 10) ≡ record net {
      epoch = if any_leaving "1.2.3.4:5" net.clients then (net.epoch + 1) % 2 ^ 64 else net.epoch;
      clients = (bump_epoch (leave_network net leases "1.2.3.4:5" 7 10)).clients;
      client_ips_by_device_id =
          (bump_epoch (leave_network net leases "1.2.3.4:5" 7 10)).client_ips_by_device_id;
    })
departures_lem_example =
    departures_lem "1.2.3.4:5" 7 10 net leases ip_a 20 "dev_a" net_IsUnique net_IsNamed

in_lease : (leases.ttl ≡ 0) ⊎ (20 ≤ 10 + leases.ttl)
unfolding new_expire_map
in_lease = inr (omega arith)

abbrev ping : Packet
ping = record {
  ver = v3;
  proto = proto_control;
  app_proto = control_ping;
  source_ttl = 15;
  ttl = 15;
  src_ip = 10 ∷ 26 ∷ 0 ∷ 2 ∷ [];
  dst_ip = 10 ∷ 26 ∷ 0 ∷ 1 ∷ [];
  payload = 0 ∷ 9 ∷ 0 ∷ 0 ∷ [];
  route_network_key = "";
}

abbrev at_epoch : ℕ → NetworkInfo
at_epoch n = record net { epoch = n }

abbrev one_net : ℕ → Networks
one_net n = ("k", at_epoch n) ∷ []

is_ping : parse_ping_payload ping.payload ≡ some (9, 0)
unfolding parse_ping_payload
is_ping = refl

finds : (n : ℕ) → first_network (one_net n) "k" (ip_to_uint32 ping.src_ip) ≡ some (at_epoch n)
unfolding sdl_control.Network.Control.skips trim_space Map.get upsert_client Map.put
    new_network_info ip_to_uint32
finds n = refl

epoch_set : (at_epoch 3).epoch % 65536 ≢ 0
epoch_set = omega arith

epoch_wrapped : (at_epoch 65536).epoch % 65536 ≡ 0
epoch_wrapped = omega arith

ping_disconnected_example :
    (handle_control_packet_in_network (one_net 65536) ping none "k" 50).1
    ≡ reply (build_disconnect_packet ping)
ping_disconnected_example =
    ping_disconnected (one_net 65536) ping none "k" 50 9 0 (at_epoch 65536) refl is_ping
      (finds 65536) epoch_wrapped

trimmed : trim_space "k" ≡ "k"
unfolding trim_space
trimmed = refl

-- An expiring map with a lifetime of 5, set at 10.
abbrev cells : ExpireMap ℕ String
cells = set (new_expire_map 5) 10 1 "x"

get_lem_example :
    ((ExpireMap.get cells 20 1).1 ≡ live cells 20 1)
    × (live (ExpireMap.get cells 20 1).0 30 1 ≡ live cells 30 1)
get_lem_example = get_lem cells 20 30 1 1 (omega arith)

try_set_if_absent_lem_example :
    ((try_set_if_absent cells 12 1 "y").1 ≡ not (is_some (live cells 12 1)))
    × (live (try_set_if_absent cells 12 1 "y").0 14 1
        ≡ (if is_some (live cells 12 1) then live cells 14 1 else live (set cells 12 1 "y") 14 1))
try_set_if_absent_lem_example = try_set_if_absent_lem cells 12 14 1 "y" 1 (omega arith)

cells_IsUnique : IsUnique cells.expiration
unfolding set new_expire_map Map.put Map.get
cells_IsUnique = (refl, tt)

holds_x : Map.get cells.entries 1 ≡ some "x"
unfolding Map.get set Map.put new_expire_map
holds_x = refl

x_past : is_past (Map.get cells.expiration 1) 20 ≡ true
unfolding is_past Map.get set new_expire_map Map.put
x_past = refl

get_race_example :
    (live (set cells 20 1 "fresh") 20 1 ≡ some "fresh")
    × (live (get_resume (set cells 20 1 "fresh") 20 1 (get_read cells 1)).0 21 1 ≡ none)
get_race_example = get_race cells 20 21 1 "x" "fresh" holds_x x_past
