-- ===== src/ExitNodes.antt =====
-- control/exit_node.go: which devices may serve as exit nodes. `Store` is the database: none without
-- one, else whether it takes the change.
pub mod Approval
use sdl_control.Base.{
  ℕ, List, [], ◌∷◌, String, Option, none, some, Bool, true, false, ◌&&◌, ◌||◌, not, ◌==◌, string_eq,
  nat_eq, if◌then◌else◌, is_empty,
}
use sdl_control.Base.Text.{trim_space}
use sdl_control.Base.Map.{Map, get, put, delete}
use sdl_control.Network.Client.{ClientInfo, ClientStatusInfo}
use sdl_control.Users.State.{UserManager, UmAuthDevice}
use sdl_control.Users.Devices.{Devices}

-- c.exitNodeApproved
abbrev pub Approvals : Type 0
Approvals = Map String (Map String Bool)

pub data ExitError : Type 0 where
  user_id_required device_id_required not_authed_device no_database store_failed : ExitError
  not_approved both_given none_given user_required no_match ambiguous : ExitError

-- A read of a missing key gives the nil map, or false.
unfoldable pub devices_of : Option (Map String Bool) → Map String Bool
devices_of none = []
devices_of (some ds) = ds

unfoldable pub flag : Option Bool → Bool
flag none = false
flag (some b) = b

-- approved[userID][deviceID]
unfoldable pub is_approved : Approvals → String → String → Bool
unfolding devices_of flag
is_approved approved user_id device_id = flag (get (devices_of (get approved user_id)) device_id)

-- isAuthedDeviceForUser
unfoldable pub is_authed_device_for_user : Devices → String → String → Bool
is_authed_device_for_user [] user_id device_id = false
is_authed_device_for_user ((key, r) ∷ rest) user_id device_id =
    (r.user_id == user_id && r.device_id == device_id)
    || is_authed_device_for_user rest user_id device_id

-- The result, `none` for no error, and the approvals
unfoldable pub approve_exit_node :
    Devices → Option Bool → Approvals → String → String → Option ExitError × Approvals
unfolding is_authed_device_for_user devices_of
approve_exit_node devices store approved user device =
    let user_id = trim_space user in
    let device_id = trim_space device in
    if user_id == ""
    then (some user_id_required, approved)
    else if device_id == ""
    then (some device_id_required, approved)
    else if not (is_authed_device_for_user devices user_id device_id)
    then (some not_authed_device, approved)
    else elim store [
      | none ↦ (some no_database, approved)
      | some false ↦ (some store_failed, approved)
      | some true ↦
          (none, put approved user_id (put (devices_of (get approved user_id)) device_id true))
    ]

-- if len(devices) == 0 { delete(c.exitNodeApproved, userID) }
unfoldable pub drop_empty : Approvals → String → Map String Bool → Approvals
drop_empty approved user_id devices =
    if is_empty devices then delete approved user_id else put approved user_id devices

unfoldable pub revoke_exit_node :
    Option Bool → Approvals → String → String → Option ExitError × Approvals
unfolding is_approved drop_empty devices_of
revoke_exit_node store approved user device =
    let user_id = trim_space user in
    let device_id = trim_space device in
    if user_id == ""
    then (some user_id_required, approved)
    else if device_id == ""
    then (some device_id_required, approved)
    else elim store [
      | none ↦ (some no_database, approved)
      | some taken ↦
          if not (is_approved approved user_id device_id)
          then (some not_approved, approved)
          else if taken
          then (
            none,
            drop_empty approved user_id (delete (devices_of (get approved user_id)) device_id),
          )
          else (some store_failed, approved)
    ]

-- A device that the target means
unfoldable pub is_target : String → String → String → UmAuthDevice → Bool
is_target user_id device_id display_name r =
    (user_id == "" || r.user_id == user_id)
    && ((not (device_id == "") && r.device_id == device_id)
        || (not (display_name == "") && r.display_name == display_name))

targets : Devices → String → String → String → List UmAuthDevice
unfolding is_target
targets [] user_id device_id display_name = []
targets ((key, r) ∷ rest) user_id device_id display_name =
    let later = targets rest user_id device_id display_name in
    if is_target user_id device_id display_name r then r ∷ later else later

pub data Target : Type 0 where
  target : String → String → Target
  no_target : ExitError → Target

only_target : List UmAuthDevice → Target
only_target [] = no_target no_match
only_target (r ∷ []) = target r.user_id r.device_id
only_target (r ∷ q ∷ rest) = no_target ambiguous

-- resolveExitNodeApprovalTarget
unfoldable pub resolve_exit_node_approval_target : Devices → String → String → String → Target
unfolding targets only_target
resolve_exit_node_approval_target devices user device name =
    let user_id = trim_space user in
    let device_id = trim_space device in
    let display_name = trim_space name in
    if not (device_id == "") && not (display_name == "")
    then no_target both_given
    else if device_id == "" && display_name == ""
    then no_target none_given
    else if not (display_name == "") && user_id == ""
    then no_target user_required
    else only_target (targets devices user_id device_id display_name)

approve_found : Devices → Option Bool → Approvals → Target → Option ExitError × Approvals
unfolding approve_exit_node
approve_found devices store approved (no_target e) = (some e, approved)
approve_found devices store approved (target user_id device_id) =
    approve_exit_node devices store approved user_id device_id

-- ApproveExitNodeTarget
unfoldable pub approve_exit_node_target :
    Devices → Option Bool → Approvals → String → String → String → Option ExitError × Approvals
unfolding approve_found resolve_exit_node_approval_target
approve_exit_node_target devices store approved user device name =
    approve_found devices store approved
      (resolve_exit_node_approval_target devices user device name)

-- The two marks that a client reports
advertised_in : Option ClientStatusInfo → Bool
advertised_in none = false
advertised_in (some s) = s.exit_node_advertised

ready_in : Option ClientStatusInfo → Bool
ready_in none = false
ready_in (some s) = s.exit_node_local_ready

unfoldable pub client_exit_node_advertised : ClientInfo → Bool
unfolding advertised_in
client_exit_node_advertised c = advertised_in c.client_status

unfoldable pub client_exit_node_local_ready : ClientInfo → Bool
unfolding ready_in
client_exit_node_local_ready c = ready_in c.client_status

unfoldable pub client_exit_node_usable : ClientInfo → Bool
unfolding client_exit_node_advertised client_exit_node_local_ready
client_exit_node_usable c =
    c.control_online && client_exit_node_advertised c && client_exit_node_local_ready c
