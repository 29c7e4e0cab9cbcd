-- ===== src/Registration/Runtime.antt =====
-- control/registration.go: what a change of the authenticated devices does to the clients that are
-- registered. The loops over the clients of a network differ in their test and their step alone.
pub mod Effects
pub mod OneNetwork
pub mod Removal
use sdl_control.Base.{
  ℕ, ◌+◌, ◌%◌, ◌^◌, List, [], ◌∷◌, map, String, Option, none, some, Bool, true, false, ◌&&◌, ◌||◌,
  not, ◌==◌, nat_eq, string_eq, is_some, is_empty, if◌then◌else◌,
}
use sdl_control.Base.Text.{trim_space}
use sdl_control.Base.Map.{Map}
use sdl_control.ExpireMap
use sdl_control.Network.Client.{ClientInfo, mode_auto}
use sdl_control.Network.Identity.{client_auth_group}
use sdl_control.Network.Info.{NetworkInfo, upsert_client, delete_client}
use sdl_control.Network.Alloc.{Sessions, IpSessionKey, key_eq, NetAddr, remote, nil_addr}
use sdl_control.Network.Control.{Networks, NetworkControl, Departure, bump_epoch, gone}
use sdl_control.Users.State.{UmAuthDevice, authed_device_key}

abbrev pub Step : Type 0
Step = ℕ → ClientInfo → Departure → Departure

abbrev pub Test : Type 0
Test = ClientInfo → Bool

-- for virtualIP, clientInfo := range netInfo.Clients { if !test { continue }; step }
unfoldable pub each_client : Test → Step → Map ℕ ClientInfo → Departure → Departure
each_client test step [] d = d
each_client test step ((ip, client) ∷ rest) d =
    each_client test step rest (if test client then step ip client d else d)

-- The loop, and the epoch if it changed anything
unfoldable pub each_of_network : Test → Step → NetworkInfo → Sessions → Departure
unfolding each_client
each_of_network test step n s =
    let d =
      each_client test step n.clients (record { network = n; sessions = s; changed = false }) in
    record d { network = bump_epoch d }

-- for networkKey, netInfo := range c.nc.VirtualNetwork.data { ... }
unfoldable pub each_network :
    (String → NetworkInfo → Sessions → Departure) → Networks → Sessions → Networks × Sessions
each_network body [] s = ([], s)
each_network body ((key, n) ∷ rest) s =
    let d = body key n s in
    let (rest', s') = each_network body rest d.sessions in ((key, d.network) ∷ rest', s')

unfoldable pub over_networks :
    (String → NetworkInfo → Sessions → Departure) → NetworkControl → NetworkControl
unfolding each_network
over_networks body nc =
    let (networks, sessions) = each_network body nc.virtual_network nc.ip_sessions in
    record nc { virtual_network = networks; ip_sessions = sessions }

-- clientInfo.Address, as the value of a session
unfoldable pub net_addr : Option String → NetAddr
net_addr none = nil_addr
net_addr (some a) = remote a

-- A client of the device and the group whose state is not yet that of a device that has left
unfoldable pub is_stale : String → String → String → Test
is_stale network_group auth_group device_id client =
    client.device_id == device_id
    && client_auth_group client network_group == auth_group
    && (client.control_online || is_some client.client_status || client.data_plane_reachable)

unfoldable pub clear_stale_client : ℕ → ℕ → Step
unfolding net_addr
clear_stale_client unix now ip client d = record {
  network = upsert_client d.network ip (gone unix client);
  sessions =
      ExpireMap.set d.sessions now (record { id = d.network.group; ip = ip })
        (net_addr client.address);
  changed = true;
}

unfoldable pub clear_stale_client_state_by_device_id :
    NetworkControl → String → String → ℕ → ℕ → NetworkControl
unfolding over_networks each_of_network is_stale clear_stale_client
clear_stale_client_state_by_device_id nc auth_group device_id unix now =
    over_networks
      (λ key n s.
        each_of_network (is_stale n.group auth_group device_id) (clear_stale_client unix now) n s)
      nc

-- remove[authedDeviceKey(record.GroupName, record.DeviceID)]
unfoldable pub names : List UmAuthDevice → String → Bool
names [] key = false
names (r ∷ rs) key = authed_device_key r.group_name r.device_id == key || names rs key

unfoldable pub is_removed : String → List UmAuthDevice → Test
unfolding names
is_removed network_group records client =
    names records (authed_device_key (client_auth_group client network_group) client.device_id)

unfoldable pub remove_client : String → Step
remove_client key ip client d = record {
  network = delete_client d.network ip;
  sessions = ExpireMap.delete d.sessions (record { id = key; ip = ip });
  changed = true;
}

unfoldable pub remove_authed_device_runtime_state :
    NetworkControl → List UmAuthDevice → NetworkControl
unfolding over_networks each_of_network is_removed remove_client
remove_authed_device_runtime_state nc records =
    if is_empty records
    then nc
    else over_networks
        (λ key n s. each_of_network (is_removed n.group records) (remove_client key) n s) nc

-- A client of the record that does not have the name yet
unfoldable pub is_renamed : String → UmAuthDevice → String → Test
is_renamed network_group r name client =
    client_auth_group client network_group == r.group_name
    && client.device_id == r.device_id
    && not (client.name == name)

unfoldable pub rename_client : String → Step
rename_client name ip client d = record {
  network = upsert_client d.network ip (record client { name = name });
  sessions = d.sessions;
  changed = true;
}

unfoldable pub update_authed_device_runtime_name : NetworkControl → UmAuthDevice → NetworkControl
unfolding over_networks each_of_network is_renamed rename_client
update_authed_device_runtime_name nc r =
    let name = trim_space r.display_name in
    if name == ""
    then nc
    else over_networks
        (λ key n s. each_of_network (is_renamed n.group r name) (rename_client name) n s) nc
