-- ===== src/Network/Info.antt =====
-- control/ip.go: one virtual network, its clients by address and the index from devices to addresses.
use sdl_control.Base.{
  ℕ, List, [], String, Option, none, some, ◌&&◌, not, ◌==◌, nat_eq, string_eq, if◌then◌else◌,
}
use sdl_control.Base.Map.{Map, get, put, delete}
use sdl_control.Protocol.Ip.{Ip}
use sdl_control.Network.Client.{ClientInfo}

pub record NetworkInfo : Type 0 where
  pub group : String
  pub netmask : List ℕ
  pub gateway : Ip
  pub epoch : ℕ
  pub clients : Map ℕ ClientInfo
  pub client_ips_by_device_id : Map String ℕ
  pub reserved_ips : Map ℕ String

unfoldable pub new_network_info : String → List ℕ → Ip → Map ℕ String → NetworkInfo
new_network_info group netmask gateway reserved_ips = record {
  group = group;
  netmask = netmask;
  gateway = gateway;
  epoch = 0;
  clients = [];
  client_ips_by_device_id = [];
  reserved_ips = reserved_ips;
}

-- if mappedIP, ok := index[deviceID]; ok && mappedIP == ip { delete(index, deviceID) }
unfoldable pub unmap : Map String ℕ → String → ℕ → Map String ℕ
unmap index device_id ip = elim (get index device_id) [
  | none ↦ index
  | some mapped ↦ if mapped == ip then delete index device_id else index
]

-- The index once the client at `ip` makes way for `device_id`.
unfoldable pub unmap_existing : Map String ℕ → Option ClientInfo → String → ℕ → Map String ℕ
unfolding unmap
unmap_existing index none device_id ip = index
unmap_existing index (some existing) device_id ip =
    if not (existing.device_id == "") && not (existing.device_id == device_id)
    then unmap index existing.device_id ip
    else index

unfoldable pub upsert_client : NetworkInfo → ℕ → ClientInfo → NetworkInfo
unfolding unmap_existing
upsert_client n ip client =
    let index = unmap_existing n.client_ips_by_device_id (get n.clients ip) client.device_id ip in
    record n {
      clients = put n.clients ip client;
      client_ips_by_device_id =
          if not (client.device_id == "") then put index client.device_id ip else index;
    }

unfoldable pub delete_found : NetworkInfo → ℕ → Option ClientInfo → NetworkInfo
unfolding unmap
delete_found n ip none = n
delete_found n ip (some client) = record n {
  clients = delete n.clients ip;
  client_ips_by_device_id =
      if not (client.device_id == "")
      then unmap n.client_ips_by_device_id client.device_id ip
      else n.client_ips_by_device_id;
}

unfoldable pub delete_client : NetworkInfo → ℕ → NetworkInfo
unfolding delete_found
delete_client n ip = delete_found n ip (get n.clients ip)

-- 0 stands for no address, as a read of a missing key gives.
unfoldable pub or_zero : Option ℕ → ℕ
or_zero none = 0
or_zero (some ip) = ip

unfoldable pub find_client_ip_by_device_id : NetworkInfo → String → ℕ
unfolding or_zero
find_client_ip_by_device_id n device_id =
    if device_id == "" then 0 else or_zero (get n.client_ips_by_device_id device_id)
