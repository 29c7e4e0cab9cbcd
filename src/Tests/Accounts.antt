-- ===== src/Tests/Accounts.antt =====
-- A user "u" of ms.net with a device ticket, an enrolment and an authenticated device.
use sdl_control.Base.{
  ℕ, ◌+◌, ◌≤◌, ◌≡◌, ◌≢◌, ◌⊎◌, refl, String, List, [], ◌∷◌, Option, none, some, Bool, true, false,
  is_empty, ◌==◌, ltb, if◌then◌else◌, nat_eq, string_eq, arith,
}
use text.Mathlib.TextEquality.{eq_iff}
use sdl_control.Base.Text.{trim_space, has_suffix, ◌<>◌}
use sdl_control.Base.Map
use sdl_control.Base.Map.{Map, IsUnique}
use sdl_control.Users.State.{
  UserManager, UmDevice, UmAuthDevice, ok, new_user_manager, default_device_auth_ttl,
}
use sdl_control.Users.Groups.{normalize_group_for_user}
use sdl_control.Users.Tickets.{auth_device, auth_finish, validate_device_auth, check_authed_device}
use sdl_control.Users.Tickets.Use.{ticket_once}
use sdl_control.Users.Tickets.Race.{ticket_race}
use sdl_control.Users.Wildcard.{wildcard_match, glob, wildcard_match-glob}
use sdl_control.Users.Enroll.{bind_device_by_enrollment}
use sdl_control.Users.Enroll.Once.{key_owner, enrollment_once}
use sdl_control.Users.Devices.{deletes, delete_authed_device, group_filter}
use sdl_control.Users.Devices.Effects.{passes, delete_authed_device_lem}

abbrev accounts : UserManager
accounts = record new_user_manager {
  users = ("u", record { user_id = "u"; name = "u"; domain = "ms.net"; created_at = 0 }) ∷ [];
  device_tickets =
      (
        "t",
        record {
          ticket = "t";
          user_id = "u";
          group_name = "home.ms.net";
          expire_at = 100;
          used = false;
          created_at = 0;
        },
      )
      ∷ [];
  enrollments =
      ("c", record { code = "c"; user_id = "u"; expire_at = 100; used = false; created_at = 0 })
      ∷ [];
  device_by_pub_key =
      (
        "k0",
        record {
          user_id = "v";
          device_id = "w";
          display_name = "";
          pub_key_alg = "ed25519";
          pub_key_hex = "k0";
          created_at = 0;
          last_bound_at = 0;
        },
      )
      ∷ [];
}

abbrev accepts : UserManager → Bool
accepts m = true

abbrev authed : UmAuthDevice
authed = record {
  user_id = "u";
  group_name = "home.ms.net";
  device_id = "d";
  display_name = "";
  pub_key_hex = "k1";
  authed_at = 6;
  auth_expire_at = 6 + default_device_auth_ttl;
}

authenticates :
    (auth_device accepts accounts "u" "home" "d" "t" (1 ∷ []) "k1" 5 6).result ≡ ok authed
unfolding auth_device Map.get normalize_group_for_user sdl_control.Base.Text.contains_dot trim_space
authenticates = refl

ticket_once_example :
    (auth_device accepts
      (auth_device accepts accounts "u" "home" "d" "t" (1 ∷ []) "k1" 5 6).state
      "u"
      "home"
      "e"
      "t"
      (2 ∷ [])
      "k2"
      7
      8).result
    ≢ ok authed
ticket_once_example =
    ticket_once accepts accounts "u" "home" "d" "t" "k1" (1 ∷ []) 5 6 authenticates accepts "u"
      "home" "e" "k2" (2 ∷ []) 7 8 authed

abbrev d_id : String
d_id = "d"

abbrev e_id : String
e_id = "e"

apart : d_id ≢ e_id
apart e = ground (arith, eq_iff d_id e_id)

passes_d : validate_device_auth accounts "u" "home" "d" "t" 5 ≡ ok "home.ms.net"
unfolding validate_device_auth Map.get normalize_group_for_user sdl_control.Base.Text.contains_dot
    trim_space
passes_d = refl

passes_e : validate_device_auth accounts "u" "home" "e" "t" 5 ≡ ok "home.ms.net"
unfolding validate_device_auth Map.get normalize_group_for_user sdl_control.Base.Text.contains_dot
    trim_space
passes_e = refl

ticket_race_example :
    let one =
      auth_finish accepts accounts "u" "d" "t" "k1" 6
        (validate_device_auth accounts "u" "home" "d" "t" 5) in
    let two =
      auth_finish accepts one.state "u" "e" "t" "k2" 6
        (validate_device_auth accounts "u" "home" "e" "t" 5) in
    (check_authed_device two.state "home.ms.net" "d" (1 ∷ []) "k1" 6 ≡ none)
    × (check_authed_device two.state "home.ms.net" "e" (1 ∷ []) "k2" 6 ≡ none)
ticket_race_example =
    ticket_race accounts "u" "home" "d" "e" "t" "k1" "k2" "home.ms.net" 5 6 (1 ∷ []) apart passes_d
      passes_e refl

abbrev bound : UmDevice
bound = record {
  user_id = "u";
  device_id = "d";
  display_name = "";
  pub_key_alg = "ed25519";
  pub_key_hex = "k1";
  created_at = 6;
  last_bound_at = 6;
}

binds :
    (bind_device_by_enrollment accepts accounts "c" "d" (1 ∷ []) "ed25519" "k1" 6).result ≡ ok bound
unfolding bind_device_by_enrollment Map.get
binds = refl

owned : key_owner accounts "k0" ≢ none
unfolding Map.get
owned e = ground arith

enrollment_once_example :
    (bind_device_by_enrollment accepts
      (bind_device_by_enrollment accepts accounts "c" "d" (1 ∷ []) "ed25519" "k1" 6).state
      "c"
      "e"
      (2 ∷ [])
      "ed25519"
      "k2"
      7).result
    ≢ ok bound
enrollment_once_example =
    enrollment_once accepts accounts "c" "d" "ed25519" "k1" 6 (1 ∷ []) bound binds accepts "e"
      "ed25519" "k2" (2 ∷ []) 7 bound

wildcard_match-glob_example :
    wildcard_match (97 ∷ 42 ∷ []) (97 ∷ 98 ∷ []) ≡ glob (97 ∷ 42 ∷ []) (97 ∷ 98 ∷ [])
wildcard_match-glob_example = wildcard_match-glob (97 ∷ 42 ∷ []) (97 ∷ 98 ∷ [])

normalizes : normalize_group_for_user "home" "ms.net" ≡ ok "home.ms.net"
unfolding normalize_group_for_user sdl_control.Base.Text.contains_dot trim_space
normalizes = refl

abbrev home : String
home = "home.ms.net"

abbrev with_device : UserManager
with_device = record accounts { authed_devices = ("home.ms.net|d", authed) ∷ [] }

deletes_d : (delete_authed_device accepts with_device "u" "" "d").result ≡ ok (authed ∷ [])
unfolding delete_authed_device trim_space Map.get
deletes_d = refl

with_device_IsUnique : IsUnique with_device.authed_devices
unfolding Map.get
with_device_IsUnique = (refl, tt)

delete_authed_device_lem_example :
    (full : String) × (group_filter with_device (trim_space "u") (trim_space "") ≡ ok full)
    × ((k : String)
        → Map.get (delete_authed_device accepts with_device "u" "" "d").state.authed_devices k ≡ (
            if passes
              (deletes (trim_space "u") full (trim_space "d"))
              (Map.get with_device.authed_devices k)
            then none
            else Map.get with_device.authed_devices k))
delete_authed_device_lem_example =
    delete_authed_device_lem accepts with_device "u" "" "d" (authed ∷ []) with_device_IsUnique
      deletes_d
