-- ===== src/Network/Control.antt =====
-- control/network.go: the operations on the virtual networks by key. `NetworkControl.VirtualNetwork`
-- is written through its `data` map alone, which sets no deadline, so its entries do not expire.
pub mod Keeps
pub mod Leave
pub mod Departures
pub mod Ping
use sdl_control.Base.{
  ℕ, ◌+◌, ◌%◌, ◌^◌, List, [], ◌∷◌, String, Option, none, some, Bool, true, false, ◌&&◌, ◌||◌, not,
  ◌==◌, Eq, nat_eq, string_eq, if◌then◌else◌,
}
use sdl_control.Base.Text.{trim_space}
use sdl_control.Base.Map
use sdl_control.Base.Map.{Map}
use sdl_control.ExpireMap
use sdl_control.ExpireMap.{ExpireMap}
use sdl_control.Protocol.Ip.{Ip, ip_to_uint32}
use sdl_control.Network.Client.{ClientInfo, ChannelMode, mode_auto}
use sdl_control.Network.Identity.{client_auth_group}
use sdl_control.Network.Info.{NetworkInfo, upsert_client, find_client_ip_by_device_id}
use sdl_control.Network.Alloc.{Sessions, IpSessionKey, key_eq, NetAddr, remote}

abbrev pub Networks : Type 0
Networks = Map String NetworkInfo

-- The fields of the source's NetworkControl but for those of the hole punching.
pub record NetworkControl : Type 0 where
  pub virtual_network : Networks
  pub ip_sessions : Sessions
  pub cipher_sessions : ExpireMap String (Unit {0})

-- if strings.TrimSpace(networkKey) != "" && key != networkKey { continue }
unfoldable pub skips : String → String → Bool
skips network_key key = not (trim_space network_key == "") && not (key == network_key)

-- The test of forEachVirtualNetworkRead, which trims the key for the comparison too.
unfoldable pub skips_read : String → String → Bool
skips_read network_key key =
    not (trim_space network_key == "") && not (key == trim_space network_key)

unfoldable pub touched : ℕ → ClientInfo → ClientInfo
touched now client = record client { control_online = true; control_last_seen = now }

-- The client at the address in the first network that has one, and 0 where none has. The epoch is
-- cut to sixteen bits.
touch_found : String → NetworkInfo → ℕ → ℕ → ClientInfo → Networks → Networks × ℕ
unfolding touched
touch_found key network ip now client rest =
    let network' = upsert_client network ip (touched now client) in
    ((key, network') ∷ rest, network'.epoch % 65536)

unfoldable pub touch_client_by_ip_in_network : Networks → String → ℕ → ℕ → Networks × ℕ
unfolding touch_found
touch_client_by_ip_in_network [] network_key ip now = ([], 0)
touch_client_by_ip_in_network ((key, network) ∷ rest) network_key ip now =
    let (rest', epoch) = touch_client_by_ip_in_network rest network_key ip now in
    if skips network_key key
    then ((key, network) ∷ rest', epoch)
    else elim (Map.get network.clients ip) [
      | none ↦ ((key, network) ∷ rest', epoch)
      | some client ↦ touch_found key network ip now client rest
    ]

unfoldable pub touch_cipher_session : NetworkControl → ℕ → Option String → NetworkControl
touch_cipher_session nc now none = nc
touch_cipher_session nc now (some addr) = record nc {
  cipher_sessions = ExpireMap.set nc.cipher_sessions now addr tt;
}

-- client.Address != nil && client.Address.String() == addr
unfoldable pub at_address : String → Option String → Bool
at_address addr none = false
at_address addr (some a) = a == addr

unfoldable pub gone : ℕ → ClientInfo → ClientInfo
gone now client = record client {
  control_online = false;
  control_last_seen = now;
  data_plane_reachable = false;
  data_plane_last_seen = 0;
  client_status = none;
  preferred_channel_mode = mode_auto;
}

unfoldable pub leaves : String → ClientInfo → Bool
unfolding at_address
leaves addr client = at_address addr client.address && client.control_online

pub record Departure : Type 0 where
  pub network : NetworkInfo
  pub sessions : Sessions
  pub changed : Bool

-- The body of the loop over the clients of one network; `unix` is the time in seconds, `now` in
-- nanoseconds.
unfoldable pub depart : String → ℕ → ℕ → Departure → ℕ → ClientInfo → Departure
unfolding leaves gone
depart addr unix now d ip client =
    if leaves addr client
    then record {
      network = upsert_client d.network ip (gone unix client);
      sessions =
          ExpireMap.set d.sessions now (record { id = d.network.group; ip = ip }) (remote addr);
      changed = true;
    }
    else d

unfoldable pub leave_clients : Map ℕ ClientInfo → String → ℕ → ℕ → Departure → Departure
unfolding depart
leave_clients [] addr unix now d = d
leave_clients ((ip, client) ∷ rest) addr unix now d =
    leave_clients rest addr unix now (depart addr unix now d ip client)

unfoldable pub bump_epoch : Departure → NetworkInfo
bump_epoch d =
    if d.changed then record (d.network) { epoch = (d.network.epoch + 1) % 2 ^ 64 } else d.network

unfoldable pub leave_network : NetworkInfo → Sessions → String → ℕ → ℕ → Departure
unfolding leave_clients
leave_network network s addr unix now =
    leave_clients network.clients addr unix now
      (record { network = network; sessions = s; changed = false })

unfoldable pub leave_networks : Networks → Sessions → String → ℕ → ℕ → Networks × Sessions
unfolding leave_network bump_epoch
leave_networks [] s addr unix now = ([], s)
leave_networks ((key, network) ∷ rest) s addr unix now =
    let d = leave_network network s addr unix now in
    let (rest', s') = leave_networks rest d.sessions addr unix now in
    ((key, bump_epoch d) ∷ rest', s')

unfoldable pub leave_by_remote_addr : NetworkControl → ℕ → ℕ → Option String → NetworkControl
unfolding leave_networks
leave_by_remote_addr nc unix now none = nc
leave_by_remote_addr nc unix now (some addr) =
    let (networks, sessions) = leave_networks nc.virtual_network nc.ip_sessions addr unix now in
    record {
      virtual_network = networks;
      ip_sessions = sessions;
      cipher_sessions = ExpireMap.delete nc.cipher_sessions addr;
    }

unfoldable pub find_client_by_virtual_ip_in_network : Networks → String → ℕ → Option ClientInfo
find_client_by_virtual_ip_in_network [] network_key ip = none
find_client_by_virtual_ip_in_network ((key, network) ∷ rest) network_key ip =
    let later = find_client_by_virtual_ip_in_network rest network_key ip in
    if skips_read network_key key
    then later
    else elim (Map.get network.clients ip) [ none ↦ later | some client ↦ some client ]

-- `none` is false: no client was found.
unfoldable pub update_client_by_virtual_ip_in_network :
    Networks → String → ℕ → (ClientInfo → ClientInfo) → Networks × Bool
update_client_by_virtual_ip_in_network [] network_key ip update = ([], false)
update_client_by_virtual_ip_in_network ((key, network) ∷ rest) network_key ip update =
    let (rest', done) = update_client_by_virtual_ip_in_network rest network_key ip update in
    if skips network_key key
    then ((key, network) ∷ rest', done)
    else elim (Map.get network.clients ip) [
      | none ↦ ((key, network) ∷ rest', done)
      | some client ↦ ((key, upsert_client network ip (update client)) ∷ rest, true)
    ]

owns : Option ClientInfo → String → Bool
owns none device_id = false
owns (some client) device_id = client.device_id == device_id

unfoldable pub client_owns_virtual_ip_in_network : Networks → String → ℕ → String → Bool
unfolding owns
client_owns_virtual_ip_in_network networks network_key ip device_id =
    owns (find_client_by_virtual_ip_in_network networks network_key ip) device_id
