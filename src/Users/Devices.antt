-- ===== src/Users/Devices.antt =====
-- control/user.go: the administration of authenticated devices.
pub mod Effects
use sdl_control.Base.{
  ℕ, ◌+◌, ◌≡◌, refl, List, [], ◌∷◌, String, Bool, true, false, ◌&&◌, ◌||◌, not, Option, none, some,
  ◌==◌, nat_eq, string_eq, ltb, leb, if◌then◌else◌, length, is_empty,
}
use sdl_control.Base.Text.{trim_space}
use sdl_control.Base.Map.{Map, get, put, delete}
use sdl_control.Users.State.{
  UserManager, UmUser, UmAuthDevice, UmError, Result, ok, err, ◌>>=◌, ◌>>◌, reject, or_fail,
  Outcome, fail, save_locked, user_id_empty, device_id_empty, device_id_required, invalid_ttl,
  user_not_found, not_found, many_groups,
}
use sdl_control.Users.Groups.{normalize_group_for_user}

abbrev pub Devices : Type 0
Devices = Map String UmAuthDevice

-- The keys of the records that pass the test, in the order of the map
unfoldable pub matching : (UmAuthDevice → Bool) → Devices → List String
matching test [] = []
matching test ((k, r) ∷ rest) =
    let later = matching test rest in if test r then k ∷ later else later

-- if groupName != "" { normalise it }
unfoldable pub group_filter : UserManager → String → String → Result String
group_filter m user_id group_name = do
  user ← or_fail (get m.users user_id) user_not_found
  if group_name == "" then ok "" else normalize_group_for_user group_name user.domain

abbrev several : List String → Bool
several keys = leb 2 (length keys)

-- An empty filter lets every record through.
unfoldable pub extends : String → String → String → UmAuthDevice → Bool
extends user_id group device_id r =
    r.user_id == user_id
    && (group == "" || r.group_name == group)
    && (device_id == "" || r.device_id == device_id)

unfoldable pub extended : ℕ → ℕ → UmAuthDevice → UmAuthDevice
extended now ttl r = record r {
  auth_expire_at =
      (if r.auth_expire_at == 0 || ltb r.auth_expire_at now then now else r.auth_expire_at) + ttl;
}

-- The loop over the keys found: the new map, and the records as they were written
extend_keys : List String → ℕ → ℕ → Devices → Devices × List UmAuthDevice
unfolding extended
extend_keys [] now ttl devices = (devices, [])
extend_keys (k ∷ ks) now ttl devices = elim (get devices k) [
  | none ↦ extend_keys ks now ttl devices
  | some r ↦
      let r' = extended now ttl r in
      let (devices', updated) = extend_keys ks now ttl (put devices k r') in
      (devices', r' ∷ updated)
]

-- The keys to extend
extend_checks : UserManager → String → String → String → ℕ → Bool → Result (List String)
unfolding matching group_filter extends
extend_checks m user_id group_name device_id ttl all = do
  reject (user_id == "") user_id_empty
  reject (ttl == 0) invalid_ttl
  reject (not all && device_id == "") device_id_required
  group ← group_filter m user_id group_name
  let keys = matching (extends user_id group device_id) m.authed_devices
  reject (is_empty keys) not_found
  reject (not all && not (device_id == "") && group == "" && several keys) many_groups
  ok keys

extend_finish :
    (UserManager → Bool) → UserManager → ℕ → ℕ → Result (List String) → Outcome (List UmAuthDevice)
extend_finish save m now ttl (err e) = fail m e
extend_finish save m now ttl (ok keys) =
    let (devices, updated) = extend_keys keys now ttl m.authed_devices in
    save_locked save (record m { authed_devices = devices }) updated

-- ExtendAuthedDeviceExpiry; a duration that is not positive is 0.
unfoldable pub extend_authed_device_expiry :
    (UserManager → Bool)
    → UserManager
    → String
    → String
    → String
    → ℕ
    → Bool
    → ℕ
    → Outcome (List UmAuthDevice)
unfolding extend_checks extend_keys extend_finish fail save_locked
extend_authed_device_expiry save m user_id group_name device_id ttl all now =
    extend_finish save m now ttl
      (extend_checks m (trim_space user_id) (trim_space group_name) (trim_space device_id) ttl all)

unfoldable pub deletes : String → String → String → UmAuthDevice → Bool
deletes user_id group device_id r =
    r.user_id == user_id && r.device_id == device_id && (group == "" || r.group_name == group)

delete_keys : List String → Devices → Devices × List UmAuthDevice
delete_keys [] devices = (devices, [])
delete_keys (k ∷ ks) devices = elim (get devices k) [
  | none ↦ delete_keys ks devices
  | some r ↦ let (devices', deleted) = delete_keys ks (delete devices k) in (devices', r ∷ deleted)
]

-- The keys of the records that an operation on one device means: DeleteAuthedDevice and
-- RenameAuthedDevice find them alike.
unfoldable pub device_checks : UserManager → String → String → String → Result (List String)
unfolding matching group_filter deletes
device_checks m user_id group_name device_id = do
  reject (user_id == "") user_id_empty
  reject (device_id == "") device_id_empty
  group ← group_filter m user_id group_name
  let keys = matching (deletes user_id group device_id) m.authed_devices
  reject (is_empty keys) not_found
  reject (group == "" && several keys) many_groups
  ok keys

delete_finish :
    (UserManager → Bool) → UserManager → Result (List String) → Outcome (List UmAuthDevice)
delete_finish save m (err e) = fail m e
delete_finish save m (ok keys) =
    let (devices, deleted) = delete_keys keys m.authed_devices in
    save_locked save (record m { authed_devices = devices }) deleted

unfoldable pub delete_authed_device :
    (UserManager → Bool) → UserManager → String → String → String → Outcome (List UmAuthDevice)
unfolding device_checks delete_keys delete_finish fail save_locked
delete_authed_device save m user_id group_name device_id =
    delete_finish save m
      (device_checks m (trim_space user_id) (trim_space group_name) (trim_space device_id))
