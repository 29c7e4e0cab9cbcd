-- ===== src/Tests/Joining.antt =====
-- A configuration with the domain ms.net; the device "d" of user "u" registers in the group home.
use sdl_control.Base.{
  ℕ, ◌≡◌, ◌≢◌, ◌⊎◌, ◌≤◌, refl, List, String, [], ◌∷◌, Option, none, some, Bool, true, false,
  is_some, arith, nat_eq, string_eq, if◌then◌else◌, All,
}
use Prim.Native.String.{len}
use mathlib.Core.Option
use sdl_control.Base.Text.{trim_space, ◌<>◌}
use sdl_control.Base.Map
use sdl_control.Base.Map.{Map, IsUnique}
use sdl_control.ExpireMap.{new_expire_map}
use sdl_control.Protocol.Ip.{Ip}
use sdl_control.Network.Client.{ClientInfo, zero_client}
use sdl_control.Network.Identity.{NetworkIdentity, new_network_identity}
use sdl_control.Network.Info.{
  NetworkInfo, new_network_info, upsert_client, find_client_ip_by_device_id,
}
use sdl_control.Network.Index.{new_network_info-IsIndexed, upsert_client-IsIndexed, IsIndexed}
use sdl_control.ExpireMap.Laws.{live}
use sdl_control.Network.Alloc.{Sessions, key_eq}
use sdl_control.Network.Control.{NetworkControl}
use sdl_control.Users.State.{UserManager, UmAuthDevice, new_user_manager}
use sdl_control.Users.Tickets.{check_authed_device}
use sdl_control.Registration.Config.{
  Config, DomainConfig, RegistrationRequest, validate_registration_request,
  resolve_group_network_config, resolved, match_domain_and_group,
}
use sdl_control.Registration.Config.Match.{Fits, match_lem}
use sdl_control.Registration.Join.{Entrant, join_network, register_client}
use sdl_control.Registration.Join.Keeps.{AllConsistent, register_client-AllConsistent}
use sdl_control.Registration.Join.Effect.{Reused, clients_after, join_network_lem}
use sdl_control.Registration.Join.Found.{FoundAt}
use sdl_control.Registration.Runtime.{remove_authed_device_runtime_state}
use sdl_control.Registration.Runtime.OneNetwork.{client_in, named_in, frame_of, frame_after}
use sdl_control.Registration.Runtime.Removal.{removal_lem}
use sdl_control.Registration.Handle.{
  Library, RegState, Clock, RegReply, registered, Arrival, handle_registration,
}
use sdl_control.Registration.Handle.Admission.{registration_lem}

abbrev mask_bytes : List ℕ
mask_bytes = 255 ∷ 255 ∷ 255 ∷ 0 ∷ []

abbrev gate : Ip
gate = 10 ∷ 26 ∷ 0 ∷ 1 ∷ []

abbrev library : Library
library = record {
  save = λ m. true;
  fold = λ c. c;
  key_hex = λ k. "k1";
  parse_ip = λ s. mask_bytes;
  lower = λ s. s;
  remote_port = λ s. some 4000;
}

abbrev domains : Map String DomainConfig
domains =
    (
      "ms.net",
      record {
        groups =
            ("home", record { gateway = gate; netmask = "255.255.255.0"; dns_service_ip = "" })
            ∷ [];
      },
    )
    ∷ ("net", record { groups = [] })
    ∷ []

abbrev config : Config
config = record {
  gateway = [];
  domain = "";
  netmask = "";
  dns_service_ip = "";
  groups = [];
  domains = domains;
}

abbrev key32 : List ℕ
key32 =
    0 ∷ 1 ∷ 2 ∷ 3 ∷ 4 ∷ 5 ∷ 6 ∷ 7 ∷ 0 ∷ 1 ∷ 2 ∷ 3 ∷ 4 ∷ 5 ∷ 6 ∷ 7 ∷ 0 ∷ 1 ∷ 2 ∷ 3 ∷ 4 ∷ 5 ∷ 6 ∷ 7
    ∷ 0 ∷ 1 ∷ 2 ∷ 3 ∷ 4 ∷ 5 ∷ 6 ∷ 7 ∷ []

abbrev arrival : Arrival
arrival = record {
  request = record {
    token = "home.ms.net";
    device_id = "d";
    name = "laptop";
    device_pub_key = 1 ∷ [];
    online_kx_pub = key32;
    virtual_ip = 0;
    allow_ip_change = false;
    version = "1";
  };
  remote_addr = "1.2.3.4:4000";
  capabilities = [];
}

abbrev clock : Clock
clock = record { checked = 10; unix = 1; now = 1_000_000_000 }

abbrev known : UmAuthDevice
known = record {
  user_id = "u";
  group_name = "home.ms.net";
  device_id = "d";
  display_name = "";
  pub_key_hex = "k1";
  authed_at = 0;
  auth_expire_at = 100;
}

abbrev idle : NetworkControl
idle = record {
  virtual_network = [];
  ip_sessions = new_expire_map 3600;
  cipher_sessions = new_expire_map 3600;
}

abbrev begin : RegState
begin = record {
  users = record new_user_manager { authed_devices = ("home.ms.net|d", known) ∷ [] };
  network = idle;
}

idle-AllConsistent : AllConsistent idle
unfolding Map.get
idle-AllConsistent key n h = absurd (cc)

abbrev state_after : Option (RegReply × RegState) → RegState
state_after none = begin
state_after (some (reply, st)) = st

abbrev home : NetworkIdentity
home = record { key = "home.ms.net"; auth_group = "home.ms.net"; scope = "group:home.ms.net" }

abbrev ending : RegState
ending = state_after (handle_registration library config arrival clock begin)

admits :
    handle_registration library config arrival clock begin
    ≡ some (registered 169476098 home, ending)
unfolding handle_registration validate_registration_request resolve_group_network_config
    sdl_control.Base.Text.has_suffix trim_space sdl_control.Base.Text.trim_suffix Map.get
    sdl_control.Protocol.Ip.to4 check_authed_device sdl_control.Users.State.authed_device_key
    sdl_control.Users.Names.assign_authed_device_display_name sdl_control.Users.State.save_locked
    register_client sdl_control.Network.Alloc.generate_ip find_client_ip_by_device_id
    new_network_info sdl_control.Network.Alloc.usable_range sdl_control.Protocol.Ip.ip_to_uint32
    sdl_control.Protocol.Ip.mask_to_uint32 sdl_control.Registration.Config.reserved_service_ips
    sdl_control.ExpireMap.get new_expire_map new_network_identity
admits = refl

registration_lem_example :
    (validate_registration_request arrival.request ≡ none)
    × (check_authed_device begin.users "home.ms.net" "d" (1 ∷ []) "k1" 10 ≡ none)
    × (gateway : Ip) × (netmask : List ℕ) × (resolve_group_network_config library.parse_ip config
          "home.ms.net"
        ≡ resolved gateway netmask)
    × (AllConsistent ending.network
        × FoundAt ending.network "home.ms.net" "d" 169476098
        × (user : String) × (home ≡ new_network_identity "home.ms.net" user))
registration_lem_example =
    registration_lem library config arrival clock 169476098 home begin ending idle-AllConsistent
      admits

abbrev entering : Entrant
entering = record {
  device_id = "d";
  display_name = "laptop";
  user_id = "u";
  identity = home;
  netmask = mask_bytes;
  gateway = gate;
  reserved_ips = [];
  virtual_ip = 169476100;
  allow_ip_change = true;
  version = "1";
  capabilities = [];
  remote_addr = "1.2.3.4:4000";
  device_pub_key = 1 ∷ [];
  online_kx_pub = key32;
}

abbrev dev_d : ClientInfo
dev_d = record zero_client { device_id = "d"; auth_group = "home.ms.net"; control_online = true }

abbrev bare : NetworkInfo
bare = new_network_info "home.ms.net" mask_bytes gate []

abbrev one_client : NetworkInfo
one_client = upsert_client bare 169476098 dev_d

one_client-IsIndexed : IsIndexed one_client
one_client-IsIndexed =
    upsert_client-IsIndexed bare 169476098 dev_d
      (new_network_info-IsIndexed "home.ms.net" mask_bytes gate [])

moves : (join_network entering 5 9 one_client (new_expire_map 3600)).joined_at ≡ some 169476100
unfolding join_network sdl_control.Network.Alloc.generate_ip
    sdl_control.Network.Alloc.validate_requested_ip sdl_control.Protocol.Ip.ip_equal upsert_client
    new_network_info sdl_control.Protocol.Ip.uint32_to_ip sdl_control.Protocol.Ip.ip_to_uint32
    sdl_control.Protocol.Ip.mask_to_uint32 Map.get Map.put
moves = refl

join_network_lem_example :
    (before : ClientInfo) × Reused entering 5 9 one_client
      (new_expire_map 3600)
      one_client-IsIndexed
      169476100
      before
    × (find_client_ip_by_device_id
          (join_network entering 5 9 one_client (new_expire_map 3600)).network
          "d"
        ≡ 169476100)
    × ((j : ℕ)
        → Map.get (join_network entering 5 9 one_client (new_expire_map 3600)).network.clients j
          ≡ clients_after entering 5 9 one_client
              (new_expire_map 3600)
              one_client-IsIndexed
              169476100
              before
              j)
join_network_lem_example =
    join_network_lem entering 5 9 one_client (new_expire_map 3600) one_client-IsIndexed 169476100
      (λ e. cc) moves

register_client-AllConsistent_example : AllConsistent (register_client idle entering 5 9).1
register_client-AllConsistent_example =
    register_client-AllConsistent idle entering 5 9 idle-AllConsistent

abbrev two_networks : NetworkControl
two_networks = record idle { virtual_network = ("other", bare) ∷ ("home.ms.net", one_client) ∷ [] }

two_networks-IsUnique : IsUnique two_networks.virtual_network
unfolding Map.get
two_networks-IsUnique = (refl, (refl, tt))

clients-IsUnique : All (λ e. IsUnique e.1.clients) two_networks.virtual_network
unfolding upsert_client Map.put new_network_info Map.get
clients-IsUnique = (tt, ((refl, tt), tt))

-- The client of the second network is named.
names_client : named_in (known ∷ []) (some one_client) 169476098 ≡ true
unfolding upsert_client Map.put new_network_info Map.get sdl_control.Users.State.authed_device_key
    sdl_control.Network.Identity.client_auth_group
    sdl_control.Network.Identity.network_identity_from_client trim_space
names_client = refl

removal_lem_example :
    (client_in
        (Map.get
          (remove_authed_device_runtime_state two_networks (known ∷ [])).virtual_network
          "home.ms.net")
        169476098
      ≡ (if named_in (known ∷ []) (Map.get two_networks.virtual_network "home.ms.net") 169476098
          then none
          else client_in (Map.get two_networks.virtual_network "home.ms.net") 169476098))
    × (live
          (remove_authed_device_runtime_state two_networks (known ∷ [])).ip_sessions
          5
          (record { id = "home.ms.net"; ip = 169476098 })
        ≡ (if named_in (known ∷ []) (Map.get two_networks.virtual_network "home.ms.net") 169476098
            then none
            else live two_networks.ip_sessions 5 (record { id = "home.ms.net"; ip = 169476098 })))
    × (Option.map frame_of (
          Map.get
            (remove_authed_device_runtime_state two_networks (known ∷ [])).virtual_network
            "home.ms.net")
        ≡ Option.map
            (frame_after (known ∷ []))
            (Map.get two_networks.virtual_network "home.ms.net"))
removal_lem_example =
    removal_lem two_networks (known ∷ []) "home.ms.net" 169476098 5 two_networks-IsUnique
      clients-IsUnique

abbrev home_name : String
home_name = "home"

matches : match_domain_and_group "home.ms.net" domains ≡ some ("ms.net", "home")
unfolding match_domain_and_group sdl_control.Base.Text.has_suffix trim_space
    sdl_control.Base.Text.trim_suffix
matches = refl

match_lem_example :
    (before : String) × ("home.ms.net" ≡ before <> ("." <> "ms.net"))
    × (home_name ≡ trim_space before)
    × (home_name ≢ "")
    × (is_some (Map.get domains "ms.net") ≡ true)
    × ((d : String) → Fits "home.ms.net" domains d → len d ≤ len "ms.net")
match_lem_example = match_lem "home.ms.net" domains "ms.net" "home" matches
