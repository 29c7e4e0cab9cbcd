-- ===== src/Users/Tickets/Use.antt =====
-- What an authentication by a ticket proves, and that a ticket serves once.
use sdl_control.Base.{
  ℕ, ◌+◌, ◌≤◌, ◌≡◌, ◌≢◌, refl, List, [], ◌∷◌, String, Bool, true, false, none, some, ◌==◌, nat_eq,
  string_eq, ltb, if◌then◌else◌, is_empty, arith, beq_refl, ◌∙◌, inl, inr, Option-cases,
}
use text.Mathlib.TextEquality.{eq_iff}
use sdl_control.Base.Map.{get, put, get-put}
use sdl_control.Users.State.{
  UserManager, UmDeviceTicket, UmAuthDevice, Result, ok, err, fail, authed_device_key,
  default_device_auth_ttl, auth_expired, key_mismatch,
}
use sdl_control.Users.Tickets.{
  validate_device_auth, auth_record, auth_commit, auth_finish, auth_device, check_authed_device,
  or_zero_ticket,
}

-- A ticket that admits a user to a group at a time: it exists, was not used, has not run out, and
-- names the user and the group.
pub record Admits (m : UserManager) (user group ticket : String) (now : ℕ) : Type 0 where
  pub held : UmDeviceTicket
  pub stored : get m.device_tickets ticket ≡ some held
  pub fresh : held.used ≡ false
  pub in_time : now ≤ held.expire_at
  pub of_user : held.user_id ≡ user
  pub of_group : held.group_name ≡ group

pub validate-Admits :
    (m : UserManager) (user group device ticket : String) (now : ℕ) (full : String)
    → validate_device_auth m user group device ticket now ≡ ok full
    → Admits m user full ticket now
unfolding validate_device_auth
validate-Admits m user group device ticket now full h =
    elim (Option-cases (get m.device_tickets ticket)) [
      | inl e ↦ absurd (ground arith)
      | inr (t, e) ↦ elim (Option-cases (get m.users user)) [
        | inl f ↦ absurd (ground arith)
        | inr (u, f) ↦ record {
          held = t;
          stored = e;
          fresh = ground (arith);
          in_time = ground (arith);
          of_user = ground (arith, eq_iff t.user_id user);
          of_group = ground (arith, eq_iff t.group_name full);
        }
      ]
    ]

-- A used ticket is refused, whatever else the request says.
used_refused :
    (m : UserManager) (user group device ticket : String) (now : ℕ) (t : UmDeviceTicket)
    (full : String)
    → get m.device_tickets ticket ≡ some t
    → t.used ≡ true
    → validate_device_auth m user group device ticket now ≢ ok full
unfolding validate_device_auth
used_refused m user group device ticket now t full e u h = ground arith

-- The state that a successful authentication leaves.
abbrev pub committed : UserManager → String → String → String → String → String → ℕ → UserManager
committed m user group device ticket key_hex now = record m {
  authed_devices =
      put m.authed_devices (authed_device_key group device)
        (auth_record m user group device key_hex now);
  device_tickets =
      put m.device_tickets ticket
        (record (or_zero_ticket (get m.device_tickets ticket)) { used = true });
}

module _ (save : UserManager → Bool) (m : UserManager) (user device ticket key_hex : String)
    (now : ℕ) {r : UmAuthDevice} where
  pub commit_inversion :
      (group : String)
      → (auth_commit save m user group device ticket key_hex now).result ≡ ok r
      → (r ≡ auth_record m user group device key_hex now)
        × ((auth_commit save m user group device ticket key_hex now).state
            ≡ committed m user group device ticket key_hex now)
  unfolding auth_commit
  commit_inversion group h = ground arith

  finish_inversion :
      (v : Result String)
      → (auth_finish save m user device ticket key_hex now v).result ≡ ok r
      → (g : String) × (v ≡ ok g)
        × (r ≡ auth_record m user g device key_hex now)
        × ((auth_finish save m user device ticket key_hex now v).state
            ≡ committed m user g device ticket key_hex now)
  unfolding auth_finish fail
  finish_inversion (ok g) h = let c = commit_inversion g h in (g, refl, c.0, c.1)
  finish_inversion (err e) h = absurd (ground arith)

  pub device_inversion :
      (group : String) (pub_key : List ℕ) (checked : ℕ)
      → (auth_device save m user group device ticket pub_key key_hex checked now).result ≡ ok r
      → (g : String) × (validate_device_auth m user group device ticket checked ≡ ok g)
        × (r ≡ auth_record m user g device key_hex now)
        × ((auth_device save m user group device ticket pub_key key_hex checked now).state
            ≡ committed m user g device ticket key_hex now)
        × (is_empty pub_key ≡ false)
  unfolding auth_device
  device_inversion group [] checked h = absurd (ground arith)
  device_inversion group (b ∷ bs) checked h =
      let (g, v, er, es) =
        finish_inversion (validate_device_auth m user group device ticket checked) h in
      (g, v, er, es, refl)

module _ (m : UserManager) (user group device ticket key_hex : String) (now : ℕ) where
  pub committed-device :
      get
        (committed m user group device ticket key_hex now).authed_devices
        (authed_device_key group device)
      ≡ some (auth_record m user group device key_hex now)
  committed-device =
      get-put m.authed_devices (authed_device_key group device)
        (auth_record m user group device key_hex now) (authed_device_key group device)
      ∙ rw (beq_refl (authed_device_key group device))

  committed_ticket :
      get (committed m user group device ticket key_hex now).device_tickets ticket
      ≡ some (record (or_zero_ticket (get m.device_tickets ticket)) { used = true })
  committed_ticket =
      get-put m.device_tickets ticket
        (record (or_zero_ticket (get m.device_tickets ticket)) { used = true }) ticket
      ∙ rw (beq_refl ticket)

  pub check_committed :
      (pub_key : List ℕ) (other : String) (t : ℕ)
      → is_empty pub_key ≡ false
      → check_authed_device
          (committed m user group device ticket key_hex now)
          group
          device
          pub_key
          other
          t
        ≡ (if ltb (now + default_device_auth_ttl) t
            then some auth_expired
            else if key_hex == other
            then none
            else some key_mismatch)
  unfolding check_authed_device auth_record
  check_committed pub_key other t ne = rw committed-device (ground arith)

module _ (save : UserManager → Bool) (m : UserManager) (user group device ticket key_hex : String)
    (pub_key : List ℕ) (checked now : ℕ) {r : UmAuthDevice}
    (done : (auth_device save m user group device ticket pub_key key_hex checked now).result
      ≡ ok r) where
  abbrev after_auth : UserManager
  after_auth = (auth_device save m user group device ticket pub_key key_hex checked now).state

  -- A successful authentication had a ticket that exists, was not used, had not run out at the
  -- check, and names the user and the group of the record; the record names the user, the device
  -- and the hash of the key.
  pub auth_device-Admits :
      Admits m user r.group_name ticket checked
      × (r.user_id ≡ user)
      × (r.device_id ≡ device)
      × (r.pub_key_hex ≡ key_hex)
  unfolding auth_record
  auth_device-Admits =
      let (g, v, er, es, ne) =
        device_inversion save m user device ticket key_hex now group pub_key checked done in
      rw er (validate-Admits m user group device ticket checked g v, refl, refl, refl)

  -- After a successful authentication, a check of the device for a key that is not empty says
  -- expired once more than thirty days have gone by since the commit; until then it succeeds
  -- exactly for keys with the hash that was given, and says mismatch for others.
  pub check-auth :
      (key : List ℕ) (hex : String) (t : ℕ)
      → is_empty key ≡ false
      → check_authed_device after_auth r.group_name device key hex t ≡ (
          if ltb (now + default_device_auth_ttl) t
          then some auth_expired
          else if key_hex == hex
          then none
          else some key_mismatch)
  unfolding auth_record
  check-auth key hex t ne =
      let (g, v, er, es, some_key) =
        device_inversion save m user device ticket key_hex now group pub_key checked done in
      rw (er, es) (check_committed m user g device ticket key_hex now key hex t ne)

  -- A ticket serves one authentication: in the state that a successful one left, no request with
  -- that ticket succeeds.
  pub ticket_once :
      (save' : UserManager → Bool) (user' group' device' key_hex' : String) (pub_key' : List ℕ)
      (checked' now' : ℕ) (r' : UmAuthDevice)
      → (auth_device save' after_auth user' group' device' ticket pub_key' key_hex' checked'
          now').result
        ≢ ok r'
  ticket_once save' user' group' device' key_hex' pub_key' checked' now' r' h =
      let (g, v, er, es, some_key) =
        device_inversion save m user device ticket key_hex now group pub_key checked done in
      let again =
        device_inversion save' after_auth user' device' ticket key_hex' now' group' pub_key'
          checked' h in
      let held = record (or_zero_ticket (get m.device_tickets ticket)) { used = true } in
      let stored : get after_auth.device_tickets ticket ≡ some held =
        rw es (committed_ticket m user g device ticket key_hex now) in
      used_refused after_auth user' group' device' ticket checked' held again.0 stored refl again.1
