-- ===== src/Users/Names.antt =====
-- control/user.go: the display names of the authenticated devices. `fold` is the table of
-- strings.EqualFold.
pub mod Unique
pub mod Keeps
pub mod Free
use Prim.Native.String.{len}
use sdl_control.Base.{
  ℕ, suc, ◌+◌, List, [], ◌∷◌, String, Bool, true, false, ◌&&◌, ◌||◌, not, Option, none, some, ◌==◌,
  nat_eq, string_eq, ltb, if◌then◌else◌, length,
}
use sdl_control.Base.Text.{trim_space}
use sdl_control.Base.Text.Trim.{numbered}
use sdl_control.Base.Text.Fold.{equal_fold}
use sdl_control.Base.Map.{Map, get, put}
use sdl_control.Base.Search.{first_free}
use sdl_control.Network.Identity.{new_network_identity}
use sdl_control.Users.State.{
  UserManager, UmAuthDevice, UmError, Result, ok, err, ◌>>=◌, ◌>>◌, reject, or_fail, Outcome, fail,
  save_locked, authed_device_key, not_found, display_name_empty, display_name_too_long,
  display_name_taken,
}
use sdl_control.Users.Devices.{Devices, device_checks}

-- NewNetworkIdentity(record.GroupName, record.UserID).Key()
unfoldable pub network_of : UmAuthDevice → String
network_of r = (new_network_identity r.group_name r.user_id).key

unfoldable pub named : UmAuthDevice → String → UmAuthDevice
named r name = record r { display_name = name }

-- The checks on a name: it is trimmed, and may have 128 bytes.
unfoldable pub normalize_name : String → Result String
normalize_name display_name = do
  reject (trim_space display_name == "") display_name_empty
  reject (ltb 128 (len (trim_space display_name))) display_name_too_long
  ok (trim_space display_name)

module _ (fold : ℕ → ℕ) where
  -- Another device in the network has the name.
  unfoldable pub clashes : UmAuthDevice → String → UmAuthDevice → Bool
  unfolding network_of
  clashes r name existing =
      not (existing.group_name == r.group_name && existing.device_id == r.device_id)
      && network_of existing == network_of r
      && equal_fold fold (trim_space existing.display_name) name

  unfoldable pub any_clashes : Devices → UmAuthDevice → String → Bool
  unfolding clashes
  any_clashes [] r name = false
  any_clashes ((key, existing) ∷ rest) r name = clashes r name existing || any_clashes rest r name

  -- displayNameExistsInNetworkLocked
  unfoldable pub display_name_exists : Devices → UmAuthDevice → String → Bool
  unfolding any_clashes
  display_name_exists devices r display_name =
      let name = trim_space display_name in if name == "" then false else any_clashes devices r name

  -- if desired == "" { desired = record.DeviceID }
  unfoldable pub desired_name : UmAuthDevice → String → String
  desired_name r desired =
      if trim_space desired == "" then trim_space r.device_id else trim_space desired

  free_number : Devices → UmAuthDevice → String → Option ℕ → Option String
  free_number devices r desired none = none
  free_number devices r desired (some i) = some (numbered desired i)

  -- uniqueDisplayNameLocked; the loop has one step more than there are devices, and `none` is that it
  -- has not ended by then.
  unfoldable pub unique_display_name : Devices → UmAuthDevice → String → Option String
  unfolding display_name_exists desired_name free_number
  unique_display_name devices r desired =
      let name = desired_name r desired in
      if name == "" || not (display_name_exists devices r name)
      then some name
      else free_number devices r name (
          first_free (λ i. display_name_exists devices r (numbered name i)) (suc (length devices))
            1)

  assign_named :
      (UserManager → Bool)
      → UserManager
      → String
      → UmAuthDevice
      → Option String
      → Option (Outcome UmAuthDevice)
  unfolding named
  assign_named save m key r none = none
  assign_named save m key r (some name) = some (
      save_locked save (record m { authed_devices = put m.authed_devices key (named r name) })
        (named r name))

  assign_found :
      (UserManager → Bool)
      → UserManager
      → String
      → String
      → Option UmAuthDevice
      → Option (Outcome UmAuthDevice)
  unfolding assign_named unique_display_name
  assign_found save m key name none = some (fail m not_found)
  assign_found save m key name (some r) =
      if not (trim_space r.display_name == "")
      then some (record { result = ok r; state = m })
      else assign_named save m key r (unique_display_name m.authed_devices r name)

  assign_checked :
      (UserManager → Bool)
      → UserManager
      → String
      → String
      → Result String
      → Option (Outcome UmAuthDevice)
  unfolding assign_found
  assign_checked save m group device (err e) = some (fail m e)
  assign_checked save m group device (ok name) =
      let key = authed_device_key group device in
      assign_found save m key name (get m.authed_devices key)

  -- AssignAuthedDeviceDisplayName
  unfoldable pub assign_authed_device_display_name :
      (UserManager → Bool) → UserManager → String → String → String → Option (Outcome UmAuthDevice)
  unfolding assign_checked normalize_name
  assign_authed_device_display_name save m group device display_name =
      assign_checked save m group device (normalize_name display_name)

  -- The loop of SetAuthedDeviceDisplayName, which passes over every record of the device's id
  unfoldable pub taken_by_other : Devices → UmAuthDevice → String → String → Bool
  unfolding network_of
  taken_by_other [] r device name = false
  taken_by_other ((key, existing) ∷ rest) r device name =
      (not (existing.device_id == device)
        && network_of existing == network_of r
        && equal_fold fold (trim_space existing.display_name) name)
      || taken_by_other rest r device name

  set_checks : UserManager → String → String → String → Result UmAuthDevice
  unfolding normalize_name taken_by_other named
  set_checks m group device display_name = do
    name ← normalize_name display_name
    r ← or_fail (get m.authed_devices (authed_device_key group device)) not_found
    reject (taken_by_other m.authed_devices r device name) display_name_taken
    ok (named r name)

  write_record :
      (UserManager → Bool) → UserManager → Result (String × UmAuthDevice) → Outcome UmAuthDevice
  write_record save m (err e) = fail m e
  write_record save m (ok (key, r)) =
      save_locked save (record m { authed_devices = put m.authed_devices key r }) r

  -- SetAuthedDeviceDisplayName
  unfoldable pub set_authed_device_display_name :
      (UserManager → Bool) → UserManager → String → String → String → Outcome UmAuthDevice
  unfolding set_checks write_record
  set_authed_device_display_name save m group device display_name =
      write_record save m
        (set_checks m group device display_name >>= λ r. ok (authed_device_key group device, r))

  -- The record that the first of the keys found names
  first_record : Devices → List String → Result (String × UmAuthDevice)
  first_record devices [] = err not_found
  first_record devices (key ∷ keys) = or_fail (get devices key) not_found >>= λ r. ok (key, r)

  rename_checks : UserManager → String → String → String → String → Result (String × UmAuthDevice)
  unfolding first_record normalize_name display_name_exists named
  rename_checks m user group device display_name = do
    name ← normalize_name display_name
    keys ← device_checks m (trim_space user) (trim_space group) (trim_space device)
    found ← first_record m.authed_devices keys
    reject (display_name_exists m.authed_devices found.1 name) display_name_taken
    ok (found.0, named found.1 name)

  -- RenameAuthedDevice
  unfoldable pub rename_authed_device :
      (UserManager → Bool) → UserManager → String → String → String → String → Outcome UmAuthDevice
  unfolding rename_checks write_record
  rename_authed_device save m user group device display_name =
      write_record save m (rename_checks m user group device display_name)
