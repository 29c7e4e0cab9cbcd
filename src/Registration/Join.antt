-- ===== src/Registration/Join.antt =====
-- control/registration.go HandleRegistrationPacketWithVirtualIPAndCapabilities from the lock of the
-- networks on: the address of a device and its client. `unix` is the time in seconds, `now` in
-- nanoseconds.
pub mod Keeps
pub mod Effect
pub mod Found
use sdl_control.Base.{
  ℕ, ◌+◌, ◌%◌, ◌^◌, List, String, Option, none, some, Bool, true, false, ◌&&◌, not, ◌==◌, nat_eq,
  string_eq, if◌then◌else◌,
}
use sdl_control.Base.Map
use sdl_control.Base.Map.{Map}
use sdl_control.ExpireMap
use sdl_control.Protocol.Ip.{Ip}
use sdl_control.Network.Client.{ClientInfo, zero_client, mode_auto}
use sdl_control.Network.Identity.{NetworkIdentity}
use sdl_control.Network.Info.{NetworkInfo, new_network_info, upsert_client, delete_client}
use sdl_control.Network.Alloc.{
  Sessions, IpSessionKey, key_eq, AllocError, Allocated, allocated, failed, generate_ip,
}
use sdl_control.Network.Control.{Networks, NetworkControl, touch_cipher_session}

-- What the checks before the lock have found out: the request, the name, the user, the identity of
-- the network and its configuration.
pub record Entrant : Type 0 where
  pub device_id : String
  pub display_name : String
  pub user_id : String
  pub identity : NetworkIdentity
  pub netmask : List ℕ
  pub gateway : Ip
  pub reserved_ips : Map ℕ String
  pub virtual_ip : ℕ
  pub allow_ip_change : Bool
  pub version : String
  pub capabilities : List String
  pub remote_addr : String
  pub device_pub_key : List ℕ
  pub online_kx_pub : List ℕ

-- The client, written over the one that stands at its address: the status of that one stays.
unfoldable pub joined : Entrant → ℕ → ℕ → ClientInfo → ClientInfo
joined e unix ip before = record before {
  device_id = e.device_id;
  name = e.display_name;
  user_id = e.user_id;
  network_key = e.identity.key;
  auth_group = e.identity.auth_group;
  network_scope = e.identity.scope;
  version = e.version;
  capabilities = e.capabilities;
  control_online = true;
  control_last_seen = unix;
  data_plane_reachable = false;
  data_plane_last_seen = 0;
  preferred_channel_mode = mode_auto;
  virtual_ip = ip;
  address = some e.remote_addr;
  device_pub_key = e.device_pub_key;
  online_kx_pub = e.online_kx_pub;
  last_join = unix;
}

-- netInfo.Clients[virtualIP]
unfoldable pub or_zero_client : Option ClientInfo → ClientInfo
or_zero_client none = zero_client
or_zero_client (some c) = c

-- The address, or the error, beside the network and the sessions.
pub record Joining : Type 0 where
  pub joined_at : Option ℕ
  pub network : NetworkInfo
  pub sessions : Sessions

-- if oldIP != 0 && oldIP != virtualIP { ... }
unfoldable pub leave_old : Entrant → NetworkInfo → Sessions → ℕ → ℕ → NetworkInfo × Sessions
leave_old e n s ip old =
    if not (old == 0) && not (old == ip)
    then (delete_client n old, ExpireMap.delete s (record { id = e.identity.key; ip = old }))
    else (n, s)

unfoldable pub enter : Entrant → ℕ → ℕ → NetworkInfo → Sessions → Joining
unfolding joined or_zero_client
enter e unix ip n s =
    let n' = upsert_client n ip (joined e unix ip (or_zero_client (Map.get n.clients ip))) in
    record {
      joined_at = some ip;
      network = record n' { epoch = (n'.epoch + 1) % 2 ^ 64 };
      sessions = ExpireMap.delete s (record { id = e.identity.key; ip = ip });
    }

-- The former client is deleted before the new one is stored; an error leaves what the search for an
-- address has changed.
unfoldable pub settle : Entrant → ℕ → Allocated → NetworkInfo → Sessions → Joining
unfolding leave_old enter
settle e unix (failed error old) n s = record { joined_at = none; network = n; sessions = s }
settle e unix (allocated ip old) n s =
    let (n', s') = leave_old e n s ip old in enter e unix ip n' s'

unfoldable pub join_network : Entrant → ℕ → ℕ → NetworkInfo → Sessions → Joining
unfolding settle
join_network e unix now n s =
    let a = generate_ip n s now e.virtual_ip e.device_id e.allow_ip_change in
    settle e unix a.result a.network a.sessions

-- if !netInfoExist { ... }
unfoldable pub network_or_new : Entrant → Option NetworkInfo → NetworkInfo
network_or_new e none = new_network_info e.identity.key e.netmask e.gateway e.reserved_ips
network_or_new e (some n) = n

-- c.nc.TouchCipherSession(remoteAddr), which an error does not reach
touch_joined : Entrant → ℕ → NetworkControl → Option ℕ → NetworkControl
touch_joined e now nc none = nc
touch_joined e now nc (some ip) = touch_cipher_session nc now (some e.remote_addr)

-- A network that was made for the request stays, also if the request fails then.
unfoldable pub register_client : NetworkControl → Entrant → ℕ → ℕ → Option ℕ × NetworkControl
unfolding network_or_new join_network touch_joined
register_client nc e unix now =
    let n = network_or_new e (Map.get nc.virtual_network e.identity.key) in
    let j = join_network e unix now n nc.ip_sessions in
    let nc' : NetworkControl = record nc {
      virtual_network = Map.put nc.virtual_network e.identity.key j.network;
      ip_sessions = j.sessions;
    } in
    (j.joined_at, touch_joined e now nc' j.joined_at)
