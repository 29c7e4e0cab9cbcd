-- ===== src/Registration/Handle.antt =====
-- control/registration.go HandleRegistrationPacketWithVirtualIPAndCapabilities as a whole. The message
-- is decoded; the answer is the address and the identity, without the lists that other parts build.
-- Parameters: the store, the table of strings.EqualFold, the hash of a key, net.ParseIP,
-- strings.ToLower, and the port that net.SplitHostPort and strconv.Atoi read from an address.
pub mod Admission
use sdl_control.Base.{
  ℕ, List, String, Option, none, some, Bool, true, false, ◌==◌, string_eq, ltb, if◌then◌else◌,
  is_empty,
}
use sdl_control.Base.Text.{trim_space}
use sdl_control.Base.Map.{Map, get}
use sdl_control.Protocol.Ip.{Ip}
use sdl_control.Network.Identity.{NetworkIdentity, new_network_identity}
use sdl_control.Network.Alloc.{AllocError}
use sdl_control.Network.Control.{NetworkControl}
use sdl_control.Users.State.{
  UserManager, UmAuthDevice, UmError, Result, Outcome, ok, err, authed_device_key,
}
use sdl_control.Users.Tickets.{check_authed_device}
use sdl_control.Users.Names.{assign_authed_device_display_name}
use sdl_control.Registration.Config.{
  Config, ConfigError, RegistrationRequest, Resolved, resolved, unresolved,
  validate_registration_request, resolve_group_network_config, reserved_service_ips,
}
use sdl_control.Registration.Join.{Entrant, register_client}
use sdl_control.Registration.Runtime.{clear_stale_client_state_by_device_id}

pub record Library : Type 0 where
  pub save : UserManager → Bool
  pub fold : ℕ → ℕ
  pub key_hex : List ℕ → String
  pub parse_ip : String → Ip
  pub lower : String → String
  pub remote_port : String → Option ℕ

-- The parts of the controller that a registration changes
pub record RegState : Type 0 where
  pub users : UserManager
  pub network : NetworkControl

-- The time of the checks on the device, and that of the join in seconds and in nanoseconds
pub record Clock : Type 0 where
  pub checked : ℕ
  pub unix : ℕ
  pub now : ℕ

pub data RegReply : Type 0 where
  registered : ℕ → NetworkIdentity → RegReply
  bad_request : ConfigError → RegReply
  not_authed : UmError → RegReply
  record_missing bad_remote no_address : RegReply
  name_failed : UmError → RegReply

-- What a request and its connection say
pub record Arrival : Type 0 where
  pub request : RegistrationRequest
  pub remote_addr : String
  pub capabilities : List String

module _ (lib : Library) (cfg : Config) (a : Arrival) (clock : Clock) where
  -- if persisted := strings.TrimSpace(authRecord.DisplayName); persisted != "" { ... }
  shown_name : UmAuthDevice → String
  shown_name r =
      if trim_space r.display_name == ""
      then trim_space a.request.name
      else trim_space r.display_name

  unfoldable pub entrant : UmAuthDevice → Ip → List ℕ → Entrant
  unfolding shown_name
  entrant r gateway netmask = record {
    device_id = a.request.device_id;
    display_name = shown_name r;
    user_id = r.user_id;
    identity = new_network_identity a.request.token r.user_id;
    netmask = netmask;
    gateway = gateway;
    reserved_ips = reserved_service_ips lib.parse_ip lib.lower cfg a.request.token;
    virtual_ip = a.request.virtual_ip;
    allow_ip_change = a.request.allow_ip_change;
    version = a.request.version;
    capabilities = a.capabilities;
    remote_addr = a.remote_addr;
    device_pub_key = a.request.device_pub_key;
    online_kx_pub = a.request.online_kx_pub;
  }

  reply_of : NetworkIdentity → Option ℕ → RegReply
  reply_of identity none = no_address
  reply_of identity (some ip) = registered ip identity

  join_checked : RegState → Entrant → Option ℕ → RegReply × RegState
  unfolding reply_of
  join_checked st e none = (bad_remote, st)
  join_checked st e (some port) =
      let (joined_at, network) = register_client st.network e clock.unix clock.now in
      if ltb 65535 port
      then (bad_remote, st)
      else (reply_of e.identity joined_at, record st { network = network })

  join_as : RegState → UmAuthDevice → Ip → List ℕ → RegReply × RegState
  unfolding join_checked entrant
  join_as st r gateway netmask =
      join_checked st (entrant r gateway netmask) (lib.remote_port a.remote_addr)

  -- By what AssignAuthedDeviceDisplayName has returned; the search for a name always ends.
  join_named : RegState → Ip → List ℕ → Option (Outcome UmAuthDevice) → Option (RegReply × RegState)
  unfolding join_as
  join_named st gateway netmask none = none
  join_named st gateway netmask (some o) =
      let st' : RegState = record st { users = o.state } in
      some (elim o.result [ err e ↦ (name_failed e, st') | ok r ↦ join_as st' r gateway netmask ])

  join_recorded : RegState → Ip → List ℕ → Option UmAuthDevice → Option (RegReply × RegState)
  unfolding join_named join_as
  join_recorded st gateway netmask none = some (record_missing, st)
  join_recorded st gateway netmask (some r) =
      if trim_space r.display_name == ""
      then join_named st gateway netmask (
          assign_authed_device_display_name lib.fold lib.save st.users a.request.token
            a.request.device_id (trim_space a.request.name))
      else some (join_as st r gateway netmask)

  -- By what CheckAuthedDevice has returned: a device that fails the check loses its state.
  join_authed : RegState → Ip → List ℕ → Option UmError → Option (RegReply × RegState)
  unfolding join_recorded
  join_authed st gateway netmask (some e) = some (
    not_authed e,
    record st {
      network =
          clear_stale_client_state_by_device_id st.network a.request.token a.request.device_id
            clock.unix clock.now;
    },
  )
  join_authed st gateway netmask none =
      join_recorded st gateway netmask
        (get st.users.authed_devices (authed_device_key a.request.token a.request.device_id))

  join_resolved : RegState → Resolved → Option (RegReply × RegState)
  unfolding join_authed
  join_resolved st (unresolved e) = some (bad_request e, st)
  join_resolved st (resolved gateway netmask) = join_authed st gateway netmask (
      check_authed_device st.users a.request.token a.request.device_id a.request.device_pub_key
        (lib.key_hex a.request.device_pub_key) clock.checked)

  join_valid : RegState → Option ConfigError → Option (RegReply × RegState)
  unfolding join_resolved
  join_valid st (some e) = some (bad_request e, st)
  join_valid st none =
      join_resolved st (resolve_group_network_config lib.parse_ip cfg a.request.token)

  unfoldable pub handle_registration : RegState → Option (RegReply × RegState)
  unfolding join_valid
  handle_registration st = join_valid st (validate_registration_request a.request)
