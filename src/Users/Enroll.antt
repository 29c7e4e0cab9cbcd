-- ===== src/Users/Enroll.antt =====
-- control/user.go: users with a given id, enrolment codes, and the binding of a device by a code.
pub mod Once
use sdl_control.Base.{
  ℕ, ◌+◌, ◌≡◌, refl, List, [], ◌∷◌, String, Bool, true, false, ◌&&◌, ◌||◌, not, Option, none, some,
  ◌==◌, nat_eq, string_eq, ltb, if◌then◌else◌, is_empty, is_some, arith, Option-cases, Bool-cases,
  inl, inr, ap,
}
use text.Mathlib.TextEquality.{eq_iff}
use sdl_control.Base.Text.{trim_space}
use sdl_control.Base.Map.{Map, get, put, get-put}
use sdl_control.Users.State.{
  UserManager, UmUser, UmPolicy, UmEnrollment, UmDevice, UmError, Result, ok, err, ◌>>=◌, ◌>>◌,
  reject, or_fail, Outcome, fail, save_locked, generate_basic_policy_locked, user_id_empty,
  already_exists, invalid_ttl, user_not_found, code_empty, device_id_empty, key_empty,
  key_alg_empty, enrollment_not_found, enrollment_used, enrollment_expired, bound_to_other,
}
use sdl_control.Users.Groups.{normalize_group_for_user}

or_default : String → String → String
or_default text default = if trim_space text == "" then default else trim_space text

policy_of : String → String → ℕ → UmPolicy
policy_of user_id group now = record (generate_basic_policy_locked user_id now) {
  group_name = group;
  updated_at = now;
}

-- The user id is taken: repair a lost policy, or refuse another domain.
create_existing :
    (UserManager → Bool) → UserManager → String → String → String → ℕ → UmUser → Outcome UmUser
create_existing save m user_id domain group now existing =
    if not (existing.domain == domain)
    then fail m already_exists
    else if is_some (get m.policies user_id)
    then record { result = ok existing; state = m }
    else save_locked save
        (record m { policies = put m.policies user_id (policy_of user_id group now) }) existing

create_finish :
    (UserManager → Bool)
    → UserManager
    → String
    → String
    → ℕ
    → Option UmUser
    → Result String
    → Outcome UmUser
create_finish save m user_id domain now found (err e) = fail m e
create_finish save m user_id domain now (some existing) (ok group) =
    create_existing save m user_id domain group now existing
create_finish save m user_id domain now none (ok group) =
    let user : UmUser = record {
      user_id = user_id;
      name = user_id;
      domain = domain;
      created_at = now;
    } in
    save_locked save
      (record m {
        users = put m.users user_id user;
        policies = put m.policies user_id (policy_of user_id group now);
      })
      user

create_checks : String → String → String → Result String
create_checks user_id domain group = do
  reject (user_id == "") user_id_empty
  normalize_group_for_user (or_default group "default") domain

-- CreateUserWithID
unfoldable pub create_user_with_id :
    (UserManager → Bool) → UserManager → String → String → String → ℕ → Outcome UmUser
unfolding create_checks create_finish create_existing policy_of or_default
create_user_with_id save m user_id domain group now =
    let id = trim_space user_id in
    let user_domain = or_default domain "ms.net" in
    create_finish save m id user_domain now (get m.users id) (create_checks id user_domain group)

-- CreateEnrollment: `code` is the text that Sprintf makes of the time and the next number. A duration
-- that is not positive is 0.
unfoldable pub create_enrollment :
    (UserManager → Bool) → UserManager → String → ℕ → ℕ → String → Outcome UmEnrollment
create_enrollment save m user_id ttl now code =
    if ttl == 0
    then fail m invalid_ttl
    else if not (is_some (get m.users user_id))
    then fail m user_not_found
    else let enrollment : UmEnrollment = record {
      code = code;
      user_id = user_id;
      expire_at = now + ttl;
      used = false;
      created_at = now;
    } in
      save_locked save
        (record m {
          enrollment_seq = m.enrollment_seq + 1;
          enrollments = put m.enrollments code enrollment;
        })
        enrollment

-- The key is held by a device of another user.
unfoldable pub held_by_other_user : Option UmDevice → String → Bool
held_by_other_user none user_id = false
held_by_other_user (some d) user_id = not (d.user_id == user_id)

-- The checks of BindDeviceByEnrollment: the enrolment that the code names
unfoldable pub bind_checks :
    UserManager → String → String → List ℕ → String → String → ℕ → Result UmEnrollment
unfolding held_by_other_user
bind_checks m code device_id pub_key pub_key_alg key_hex now = do
  reject (code == "") code_empty
  reject (device_id == "") device_id_empty
  reject (is_empty pub_key) key_empty
  reject (pub_key_alg == "") key_alg_empty
  e ← or_fail (get m.enrollments code) enrollment_not_found
  reject e.used enrollment_used
  reject (ltb e.expire_at now) enrollment_expired
  reject (not (is_some (get m.users e.user_id))) user_not_found
  reject (held_by_other_user (get m.device_by_pub_key key_hex) e.user_id) bound_to_other
  ok e

unfoldable pub bind_finish :
    (UserManager → Bool)
    → UserManager
    → String
    → String
    → String
    → String
    → ℕ
    → Result UmEnrollment
    → Outcome UmDevice
bind_finish save m code device_id pub_key_alg key_hex now (err e) = fail m e
bind_finish save m code device_id pub_key_alg key_hex now (ok e) =
    let device : UmDevice = record {
      user_id = e.user_id;
      device_id = device_id;
      display_name = "";
      pub_key_alg = pub_key_alg;
      pub_key_hex = key_hex;
      created_at = now;
      last_bound_at = now;
    } in
    save_locked save
      (record m {
        device_by_pub_key = put m.device_by_pub_key key_hex device;
        enrollments = put m.enrollments code (record e { used = true });
      })
      device

-- BindDeviceByEnrollment; `key_hex` is toPubKeyHex of the key, a hash by the library.
unfoldable pub bind_device_by_enrollment :
    (UserManager → Bool)
    → UserManager
    → String
    → String
    → List ℕ
    → String
    → String
    → ℕ
    → Outcome UmDevice
unfolding bind_checks bind_finish fail save_locked
bind_device_by_enrollment save m code device_id pub_key pub_key_alg key_hex now =
    bind_finish save m code device_id pub_key_alg key_hex now
      (bind_checks m code device_id pub_key pub_key_alg key_hex now)
