-- ===== src/Tests/Listing.antt =====
-- Two clients of the group home, one of user "u" alone; the exit nodes of "u".
use sdl_control.Base.{ℕ, ◌≡◌, refl, String, [], ◌∷◌, none, some, true, false, string_eq, nat_eq}
use sdl_control.Base.Text.{trim_space}
use sdl_control.Base.Map
use sdl_control.Base.Map.{Map, IsUnique}
use sdl_control.Network.Client.{ClientInfo, zero_client}
use sdl_control.Network.Info.{NetworkInfo, new_network_info}
use sdl_control.Users.Devices.{Devices}
use sdl_control.ExitNodes.{Approvals, is_approved, revoke_exit_node}
use sdl_control.ExitNodes.Approval.{revoke_exit_node_lem}
use sdl_control.DeviceList.{enrich, build_device_info_list, push_to, pushes_from}
use sdl_control.DeviceList.Isolation.{told, device_list_lem}
use sdl_control.DeviceList.Targets.{push_for, pushes_from_lem}

abbrev one : ClientInfo
one = record zero_client {
  device_id = "d1";
  user_id = "u";
  auth_group = "home";
  network_scope = "group:home";
  control_online = true;
}

abbrev two : ClientInfo
two = record one { device_id = "d2" }

abbrev alone : ClientInfo
alone = record one { device_id = "d3"; network_scope = "personal:u" }

abbrev present : Map ℕ ClientInfo
present = (1, one) ∷ (2, two) ∷ (3, alone) ∷ []

abbrev marks : Approvals
marks = ("u", ("d2", true) ∷ []) ∷ []

device_list_lem_example : told (enrich marks present (build_device_info_list present 1)) 3 ≡ none
unfolding Map.get sdl_control.Network.Identity.client_network_scope
    sdl_control.Network.Identity.network_identity_from_client trim_space
device_list_lem_example = device_list_lem marks present one 1 3 (refl, (refl, (refl, tt))) refl

abbrev no_grants : String → ℕ → String → Unit {0}
no_grants key ip device = tt

abbrev house : NetworkInfo
house = record (new_network_info "home" [] [] []) { clients = present }

pushes_from_lem_example :
    push_for no_grants marks (pushes_from no_grants marks house 1 one) 2
    ≡ some (push_to no_grants marks house 2 two)
unfolding Map.get sdl_control.Network.Identity.client_network_scope
    sdl_control.Network.Identity.network_identity_from_client trim_space
pushes_from_lem_example = pushes_from_lem no_grants marks house 1 one 2 (refl, (refl, (refl, tt)))

abbrev certified : Devices
certified =
    (
      "home|d1",
      record {
        user_id = "u";
        group_name = "home";
        device_id = "d1";
        display_name = "";
        pub_key_hex = "k";
        authed_at = 0;
        auth_expire_at = 9;
      },
    )
    ∷ []

revoke_exit_node_lem_example :
    (is_approved marks (trim_space "u") (trim_space "d2") ≡ true)
    × (is_approved (revoke_exit_node (some true) marks "u" "d2").1 "u" "d2" ≡ false)
unfolding revoke_exit_node trim_space Map.get
revoke_exit_node_lem_example = revoke_exit_node_lem (some true) marks "u" "d2" "u" "d2" refl
