-- ===== src/Users/Tickets.antt =====
-- control/user.go: device tickets, and the authentication of a device by a ticket.
pub mod Use
pub mod Race
use sdl_control.Base.{
  ℕ, ◌+◌, List, [], String, Bool, true, false, ◌&&◌, ◌||◌, not, Option, none, some, ◌==◌, nat_eq,
  string_eq, ltb, if◌then◌else◌, is_empty,
}
use sdl_control.Base.Text.{trim_space, ◌<>◌}
use sdl_control.Base.Map.{Map, get, put}
use sdl_control.Users.State.{
  UserManager, UmUser, UmDeviceTicket, UmAuthDevice, UmError, Result, ok, err, ◌>>=◌, ◌>>◌, reject,
  or_fail, Outcome, fail, save_locked, authed_device_key, default_device_auth_ttl, user_id_empty,
  group_name_empty, invalid_ttl, user_not_found, key_empty, fields_required, ticket_not_found,
  ticket_used, ticket_expired, ticket_mismatch, no_random, not_auth, auth_expired, key_mismatch,
}
use sdl_control.Users.Groups.{normalize_group_for_user}

-- The checks of IssueDeviceTicket: the normalised group of the ticket
issue_checks : UserManager → String → String → ℕ → Result String
issue_checks m user_id group_name ttl = do
  reject (user_id == "") user_id_empty
  reject (trim_space group_name == "") group_name_empty
  reject (ttl == 0) invalid_ttl
  user ← or_fail (get m.users user_id) user_not_found
  normalize_group_for_user (trim_space group_name) user.domain

issue_finish :
    (UserManager → Bool)
    → UserManager
    → String
    → ℕ
    → ℕ
    → Option String
    → Result String
    → Outcome UmDeviceTicket
issue_finish save m user_id ttl now ticket_id (err e) = fail m e
issue_finish save m user_id ttl now none (ok group) = fail m no_random
issue_finish save m user_id ttl now (some ticket_id) (ok group) =
    let ticket : UmDeviceTicket = record {
      ticket = ticket_id;
      user_id = user_id;
      group_name = group;
      expire_at = now + ttl;
      used = false;
      created_at = now;
    } in
    save_locked save (record m { device_tickets = put m.device_tickets ticket_id ticket }) ticket

-- `random_id` is what newSecureTicketID returns, `none` where the random source fails. A duration that
-- is not positive is 0.
unfoldable pub issue_device_ticket :
    (UserManager → Bool)
    → UserManager
    → String
    → String
    → ℕ
    → ℕ
    → Option String
    → Outcome UmDeviceTicket
unfolding issue_checks issue_finish fail save_locked
issue_device_ticket save m user_id group_name ttl now random_id =
    issue_finish save m user_id ttl now random_id (issue_checks m user_id group_name ttl)

-- The normalised group
unfoldable pub validate_device_auth :
    UserManager → String → String → String → String → ℕ → Result String
validate_device_auth m user_id group_name device_id ticket now = do
  reject (user_id == "" || group_name == "" || device_id == "" || ticket == "") fields_required
  t ← or_fail (get m.device_tickets ticket) ticket_not_found
  reject t.used ticket_used
  reject (ltb t.expire_at now) ticket_expired
  user ← or_fail (get m.users user_id) user_not_found
  group ← normalize_group_for_user group_name user.domain
  reject (not (t.user_id == user_id) || not (t.group_name == group)) ticket_mismatch
  ok group

display_name_of : Option UmAuthDevice → String
display_name_of none = ""
display_name_of (some existing) = trim_space existing.display_name

zero_ticket : UmDeviceTicket
zero_ticket = record {
  ticket = "";
  user_id = "";
  group_name = "";
  expire_at = 0;
  used = false;
  created_at = 0;
}

unfoldable pub or_zero_ticket : Option UmDeviceTicket → UmDeviceTicket
unfolding zero_ticket
or_zero_ticket none = zero_ticket
or_zero_ticket (some t) = t

-- The record that AuthDevice writes
unfoldable pub auth_record : UserManager → String → String → String → String → ℕ → UmAuthDevice
unfolding display_name_of
auth_record m user_id group device_id key_hex now = record {
  user_id = user_id;
  group_name = group;
  device_id = device_id;
  display_name = display_name_of (get m.authed_devices (authed_device_key group device_id));
  pub_key_hex = key_hex;
  authed_at = now;
  auth_expire_at = now + default_device_auth_ttl;
}

-- The second half of AuthDevice, under a lock of its own: it does not look at the ticket again.
unfoldable pub auth_commit :
    (UserManager → Bool)
    → UserManager
    → String
    → String
    → String
    → String
    → String
    → ℕ
    → Outcome UmAuthDevice
unfolding auth_record or_zero_ticket save_locked
auth_commit save m user_id group device_id ticket key_hex now =
    let device = auth_record m user_id group device_id key_hex now in
    let t = or_zero_ticket (get m.device_tickets ticket) in
    save_locked save
      (record m {
        authed_devices = put m.authed_devices (authed_device_key group device_id) device;
        device_tickets = put m.device_tickets ticket (record t { used = true });
      })
      device

-- The second half, by the outcome of the check
unfoldable pub auth_finish :
    (UserManager → Bool)
    → UserManager
    → String
    → String
    → String
    → String
    → ℕ
    → Result String
    → Outcome UmAuthDevice
auth_finish save m user_id device_id ticket key_hex now (err e) = fail m e
auth_finish save m user_id device_id ticket key_hex now (ok group) =
    auth_commit save m user_id group device_id ticket key_hex now

-- AuthDevice where nothing comes between its halves. `key_hex` is toPubKeyHex of the key for ed25519,
-- a hash by the library; `checked` and `now` are the two times that the clock is read.
unfoldable pub auth_device :
    (UserManager → Bool)
    → UserManager
    → String
    → String
    → String
    → String
    → List ℕ
    → String
    → ℕ
    → ℕ
    → Outcome UmAuthDevice
unfolding validate_device_auth auth_finish auth_commit fail
auth_device save m user_id group_name device_id ticket [] key_hex checked now = fail m key_empty
auth_device save m user_id group_name device_id ticket pub_key key_hex checked now =
    auth_finish save m user_id device_id ticket key_hex now
      (validate_device_auth m user_id group_name device_id ticket checked)

-- `none` is no error.
check_found : Option UmAuthDevice → List ℕ → String → ℕ → Option UmError
check_found none pub_key key_hex now = some not_auth
check_found (some device) pub_key key_hex now =
    if not (device.auth_expire_at == 0) && ltb device.auth_expire_at now
    then some auth_expired
    else if is_empty pub_key
    then some key_mismatch
    else if not (device.pub_key_hex == key_hex)
    then some key_mismatch
    else none

unfoldable pub check_authed_device :
    UserManager → String → String → List ℕ → String → ℕ → Option UmError
unfolding check_found
check_authed_device m group_name device_id pub_key key_hex now =
    check_found (get m.authed_devices (authed_device_key group_name device_id)) pub_key key_hex now
