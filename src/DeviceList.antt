-- ===== src/DeviceList.antt =====
-- The devices that a client is told of: control/controller.go buildDeviceInfoList, control/network.go
-- DeviceListByIPInNetwork, control/exit_node.go enrichDeviceInfoListExitNodesFromClients and the
-- targets of a push in control/registration.go. The grants of a push are those of a parameter, and the
-- message is not encoded.
pub mod Isolation
pub mod Targets
use sdl_control.Base.{
  ℕ, ◌%◌, ◌^◌, List, [], ◌∷◌, map, String, Option, none, some, Bool, true, false, ◌&&◌, ◌||◌, not,
  ◌==◌, nat_eq, string_eq, if◌then◌else◌,
}
use sdl_control.Base.Map.{Map, get}
use sdl_control.Network.Client.{ClientInfo, ChannelMode}
use sdl_control.Network.Identity.{client_network_key, client_network_scope}
use sdl_control.Network.Info.{NetworkInfo}
use sdl_control.Network.Control.{Networks, skips_read}
use sdl_control.ExitNodes.{
  Approvals, is_approved, client_exit_node_advertised, client_exit_node_usable,
}

-- pb.DeviceInfo
pub record DeviceInfo : Type 0 where
  pub name : String
  pub virtual_ip : ℕ
  pub device_id : String
  pub device_pub_key : List ℕ
  pub online_kx_pub : List ℕ
  pub preferred_channel_mode : ChannelMode
  pub device_status : ℕ
  pub exit_node_advertised : Bool
  pub exit_node_approved : Bool
  pub exit_node_usable : Bool

unfoldable pub device_info : ℕ → ClientInfo → DeviceInfo
device_info ip info = record {
  name = info.name;
  virtual_ip = ip;
  device_id = info.device_id;
  device_pub_key = info.device_pub_key;
  online_kx_pub = info.online_kx_pub;
  preferred_channel_mode = info.preferred_channel_mode;
  device_status = if info.control_online then 0 else 1;
  exit_node_advertised = client_exit_node_advertised info;
  exit_node_approved = false;
  exit_node_usable = false;
}

-- ip == selfIP, or clientNetworkScope(info, "") != selfScope
unfoldable pub is_hidden : ℕ → String → ℕ → ClientInfo → Bool
is_hidden self_ip self_scope ip info =
    ip == self_ip || not (client_network_scope info "" == self_scope)

unfoldable pub infos : Map ℕ ClientInfo → ℕ → String → List DeviceInfo
unfolding is_hidden device_info
infos [] self_ip self_scope = []
infos ((ip, info) ∷ rest) self_ip self_scope =
    let later = infos rest self_ip self_scope in
    if is_hidden self_ip self_scope ip info then later else device_info ip info ∷ later

infos_of : Map ℕ ClientInfo → ℕ → Option ClientInfo → List DeviceInfo
unfolding infos
infos_of clients self_ip none = []
infos_of clients self_ip (some self) = infos clients self_ip (client_network_scope self "")

unfoldable pub build_device_info_list : Map ℕ ClientInfo → ℕ → List DeviceInfo
unfolding infos_of
build_device_info_list clients self_ip = infos_of clients self_ip (get clients self_ip)

pub record DeviceList : Type 0 where
  pub epoch : ℕ
  pub device_info_list : List DeviceInfo

unfoldable pub device_list_by_ip_in_network : Networks → String → ℕ → Option DeviceList
unfolding build_device_info_list
device_list_by_ip_in_network [] network_key self_ip = none
device_list_by_ip_in_network ((key, n) ∷ rest) network_key self_ip =
    let later = device_list_by_ip_in_network rest network_key self_ip in
    if skips_read network_key key then later else elim (get n.clients self_ip) [
      | none ↦ later
      | some self ↦ some (record {
        epoch = n.epoch % 2 ^ 32;
        device_info_list = build_device_info_list n.clients self_ip;
      })
    ]

enriched_by : Approvals → DeviceInfo → Option ClientInfo → DeviceInfo
enriched_by approved item none = item
enriched_by approved item (some client) =
    let ok = is_approved approved client.user_id client.device_id in
    record item {
      exit_node_advertised = client_exit_node_advertised client;
      exit_node_approved = ok;
      exit_node_usable = ok && client_exit_node_usable client;
    }

unfoldable pub enrich_item : Approvals → Map ℕ ClientInfo → DeviceInfo → DeviceInfo
unfolding enriched_by
enrich_item approved clients item = enriched_by approved item (get clients item.virtual_ip)

-- enrichDeviceInfoListExitNodesFromClients, which changes the items in place
unfoldable pub enrich : Approvals → Map ℕ ClientInfo → List DeviceInfo → List DeviceInfo
unfolding enrich_item
enrich approved clients items = map (enrich_item approved clients) items

pub record PushPacket (G : Type 0) : Type 0 where
  pub route_network_key : String
  pub target_ip : ℕ
  pub epoch : ℕ
  pub devices : List DeviceInfo
  pub grants : G

module _ {G : Type 0} (grants_for : String → ℕ → String → G) (approved : Approvals) where
  -- The packet for one target
  unfoldable pub push_to : NetworkInfo → ℕ → ClientInfo → PushPacket G
  unfolding build_device_info_list enrich
  push_to n ip target =
      let key = client_network_key target n.group in
      record {
        route_network_key = key;
        target_ip = ip;
        epoch = n.epoch % 2 ^ 32;
        devices = enrich approved n.clients (build_device_info_list n.clients ip);
        grants = grants_for key ip target.device_id;
      }

  -- targetIP == changedIP || !targetClient.ControlOnline, or another scope
  unfoldable pub is_passed_over : NetworkInfo → ℕ → String → ℕ → ClientInfo → Bool
  is_passed_over n changed_ip scope ip target =
      ip == changed_ip
      || not target.control_online
      || not (client_network_scope target n.group == scope)

  unfoldable pub pushes : NetworkInfo → ℕ → String → Map ℕ ClientInfo → List (PushPacket G)
  unfolding is_passed_over push_to
  pushes n changed_ip scope [] = []
  pushes n changed_ip scope ((ip, target) ∷ rest) =
      let later = pushes n changed_ip scope rest in
      if is_passed_over n changed_ip scope ip target then later else push_to n ip target ∷ later

  unfoldable pub pushes_from : NetworkInfo → ℕ → ClientInfo → List (PushPacket G)
  unfolding pushes
  pushes_from n changed_ip changed =
      if changed.control_online
      then pushes n changed_ip (client_network_scope changed n.group) n.clients
      else []

  -- BuildPushDeviceListPacketsForPeerChangeInNetwork
  unfoldable pub build_push_for_peer_change : Networks → String → ℕ → List (PushPacket G)
  unfolding pushes_from
  build_push_for_peer_change [] network_key changed_ip = []
  build_push_for_peer_change ((key, n) ∷ rest) network_key changed_ip =
      let later = build_push_for_peer_change rest network_key changed_ip in
      if skips_read network_key key then later else elim (get n.clients changed_ip) [
        | none ↦ later
        | some changed ↦ pushes_from n changed_ip changed
      ]
