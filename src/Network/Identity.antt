-- ===== src/Network/Identity.antt =====
-- control/ip.go and control/network.go: which network, group and scope a client belongs to.
use text.Mathlib.Text.{starts_with}
use sdl_control.Base.{String, Bool, ◌==◌, string_eq, if◌then◌else◌}
use sdl_control.Base.Text.{trim_space, ◌<>◌}
use sdl_control.Network.Client.{ClientInfo}

pub record NetworkIdentity : Type 0 where
  pub key : String
  pub auth_group : String
  pub scope : String

unfoldable pub is_personal_sdl_user : String → Bool
is_personal_sdl_user user_id = starts_with (trim_space user_id) "sdl-"

unfoldable pub new_network_identity : String → String → NetworkIdentity
unfolding is_personal_sdl_user
new_network_identity auth_group user_id =
    let group = trim_space auth_group in
    let user = trim_space user_id in
    let personal = "personal:" <> user in
    if is_personal_sdl_user user
    then record { key = personal <> ("@" <> group); auth_group = group; scope = personal }
    else record { key = group; auth_group = group; scope = "group:" <> group }

-- s, or the fallback if s is empty
or_else : String → String → String
or_else s fallback = if s == "" then fallback else s

unfoldable pub network_identity_from_client : ClientInfo → String → NetworkIdentity
unfolding or_else
network_identity_from_client client fallback_network_key =
    let auth_group = or_else (trim_space client.auth_group) (trim_space fallback_network_key) in
    record {
      key = or_else (trim_space client.network_key) (trim_space fallback_network_key);
      auth_group = auth_group;
      scope =
          or_else (trim_space client.network_scope)
            (new_network_identity auth_group client.user_id).scope;
    }

unfoldable pub client_auth_group : ClientInfo → String → String
client_auth_group client fallback = (network_identity_from_client client fallback).auth_group

unfoldable pub client_network_key : ClientInfo → String → String
client_network_key client fallback = (network_identity_from_client client fallback).key

unfoldable pub client_network_scope : ClientInfo → String → String
client_network_scope client fallback = (network_identity_from_client client fallback).scope
