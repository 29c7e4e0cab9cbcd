-- ===== src/Network/Client.antt =====
-- The records of control/ip.go. A `net.Addr` is its text, nil is `none`; a Unix time is a count of
-- seconds, and an address is the number of its four bytes.
use sdl_control.Base.{ℕ, List, String, Option, Bool, none, [], false}
use sdl_control.Protocol.Ip.{Ip}

-- pb.ChannelMode, with the numbers that proto3 keeps although it does not know them
pub data ChannelMode : Type 0 where
  mode_auto mode_direct mode_relay : ChannelMode
  mode_other : ℕ → ChannelMode

pub record UdpEndpoint : Type 0 where
  pub ip : Ip
  pub port : ℕ

pub record ClientStatusInfo : Type 0 where
  pub p2p_list : List Ip
  pub public_udp_endpoints : List UdpEndpoint
  pub local_udp_endpoints : List UdpEndpoint
  pub up_stream : ℕ
  pub down_stream : ℕ
  pub is_cone : Bool
  pub punch_trigger_reason : String
  pub recovery_punch_target : ℕ
  pub update_time : ℕ
  pub exit_node_advertised : Bool
  pub exit_node_local_ready : Bool

pub record ClientInfo : Type 0 where
  pub device_id : String
  pub name : String
  pub user_id : String
  pub network_key : String
  pub auth_group : String
  pub network_scope : String
  pub control_online : Bool
  pub control_last_seen : ℕ
  pub data_plane_reachable : Bool
  pub data_plane_last_seen : ℕ
  pub version : String
  pub capabilities : List String
  pub virtual_ip : ℕ
  pub address : Option String
  pub device_pub_key : List ℕ
  pub online_kx_pub : List ℕ
  pub last_join : ℕ
  pub client_status : Option ClientStatusInfo
  pub preferred_channel_mode : ChannelMode

-- The zero value that a read of a missing key gives.
abbrev pub zero_client : ClientInfo
zero_client = record {
  device_id = "";
  name = "";
  user_id = "";
  network_key = "";
  auth_group = "";
  network_scope = "";
  control_online = false;
  control_last_seen = 0;
  data_plane_reachable = false;
  data_plane_last_seen = 0;
  version = "";
  capabilities = [];
  virtual_ip = 0;
  address = none;
  device_pub_key = [];
  online_kx_pub = [];
  last_join = 0;
  client_status = none;
  preferred_channel_mode = mode_auto;
}
