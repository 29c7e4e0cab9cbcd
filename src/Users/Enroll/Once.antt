-- ===== src/Users/Enroll/Once.antt =====
-- What the binding of a device proves and keeps.
use sdl_control.Base.{
  ℕ, ◌≤◌, ◌≡◌, ◌≢◌, refl, List, String, Bool, true, false, Option, none, some, nat_eq, string_eq,
  is_some, arith, Option-cases, Bool-cases, inl, inr, ap, beq_refl,
}
use text.Mathlib.TextEquality.{eq_iff}
use sdl_control.Base.Map.{Map, get, put, get-put}
use sdl_control.Users.State.{
  UserManager, UmEnrollment, UmDevice, Result, ok, err, fail, save_locked,
}
use sdl_control.Users.Enroll.{
  bind_checks, bind_finish, bind_device_by_enrollment, held_by_other_user,
}

-- A code that admits a key at a time.
pub record IsOpen (m : UserManager) (code key_hex : String) (now : ℕ) (e : UmEnrollment)
    : Type 0 where
  pub stored : get m.enrollments code ≡ some e
  pub fresh : e.used ≡ false
  pub in_time : now ≤ e.expire_at
  pub known : is_some (get m.users e.user_id) ≡ true
  pub unheld : held_by_other_user (get m.device_by_pub_key key_hex) e.user_id ≡ false

pub checks-IsOpen :
    (m : UserManager) (code device_id : String) (pub_key : List ℕ) (alg key_hex : String) (now : ℕ)
    (e : UmEnrollment)
    → bind_checks m code device_id pub_key alg key_hex now ≡ ok e
    → IsOpen m code key_hex now e
unfolding bind_checks
checks-IsOpen m code device_id pub_key alg key_hex now e h =
    elim (Option-cases (get m.enrollments code)) [
      | inl n ↦ absurd (ground arith)
      | inr s ↦ record {
        stored = ground arith;
        fresh = ground arith;
        in_time = ground arith;
        known = ground arith;
        unheld = ground arith;
      }
    ]

used_refused :
    (m : UserManager) (code device_id : String) (pub_key : List ℕ) (alg key_hex : String) (now : ℕ)
    (e : UmEnrollment) (e' : UmEnrollment)
    → get m.enrollments code ≡ some e'
    → e'.used ≡ true
    → bind_checks m code device_id pub_key alg key_hex now ≢ ok e
unfolding bind_checks
used_refused m code device_id pub_key alg key_hex now e e' s u h = ground arith

abbrev owner_of : Option UmDevice → Option String
owner_of none = none
owner_of (some d) = some d.user_id

-- The user that holds a device key.
abbrev pub key_owner : UserManager → String → Option String
key_owner m key = owner_of (get m.device_by_pub_key key)

same_owner :
    (found : Option UmDevice) (user : String)
    → held_by_other_user found user ≡ false
    → owner_of found ≢ none
    → owner_of found ≡ some user
unfolding held_by_other_user
same_owner none user unheld held = absurd (held refl)
same_owner (some d) user unheld held = ground (arith, eq_iff d.user_id user)

-- A write that passes the check leaves the owners of the keys as they were.
put_owner :
    (devices : Map String UmDevice) (key_hex key : String) (d : UmDevice)
    → held_by_other_user (get devices key_hex) d.user_id ≡ false
    → owner_of (get devices key) ≢ none
    → owner_of (get (put devices key_hex d) key) ≡ owner_of (get devices key)
put_owner devices key_hex key d unheld held = ground (
  arith,
  get-put devices key_hex d key,
  eq_iff key_hex key,
  same_owner (get devices key_hex) d.user_id unheld,
  same key,
)
  where
    same : (x : String) → key_hex ≡ x → get devices key_hex ≡ get devices x
    same x e = ap (get devices) e

module _ (save : UserManager → Bool) (m : UserManager) (code device_id alg key_hex : String)
    (now : ℕ) where
  abbrev device : UmEnrollment → UmDevice
  device e = record {
    user_id = e.user_id;
    device_id = device_id;
    display_name = "";
    pub_key_alg = alg;
    pub_key_hex = key_hex;
    created_at = now;
    last_bound_at = now;
  }

  abbrev bound : UmEnrollment → UserManager
  bound e = record m {
    device_by_pub_key = put m.device_by_pub_key key_hex (device e);
    enrollments = put m.enrollments code (record e { used = true });
  }

  finish_inversion :
      (v : Result UmEnrollment) (d : UmDevice)
      → (bind_finish save m code device_id alg key_hex now v).result ≡ ok d
      → (e : UmEnrollment) × (v ≡ ok e)
        × (d.user_id ≡ e.user_id)
        × (d.device_id ≡ device_id)
        × (get (bind_finish save m code device_id alg key_hex now v).state.device_by_pub_key key_hex
            ≡ some d)
        × (get (bind_finish save m code device_id alg key_hex now v).state.enrollments code
            ≡ some (record e { used = true }))
  unfolding bind_finish save_locked fail
  finish_inversion (err x) d h = absurd (ground arith)
  finish_inversion (ok e) d h = (
    e,
    refl,
    ground arith,
    ground arith,
    ground (arith, get-put m.device_by_pub_key key_hex d key_hex, beq_refl key_hex),
    ground (arith, get-put m.enrollments code (record e { used = true }) code, beq_refl code),
  )

  finish_owner :
      (v : Result UmEnrollment) (key : String)
      → ((e : UmEnrollment)
          → v ≡ ok e
          → held_by_other_user (get m.device_by_pub_key key_hex) e.user_id ≡ false)
      → key_owner m key ≢ none
      → key_owner (bind_finish save m code device_id alg key_hex now v).state key ≡ key_owner m key
  unfolding bind_finish save_locked fail held_by_other_user
  finish_owner (err x) key ok_key held = refl
  finish_owner (ok e) key ok_key held = elim (Bool-cases (save (bound e))) [
    | inl s ↦ rw s (put_owner m.device_by_pub_key key_hex key (device e) (ok_key e refl) held)
    | inr s ↦ rw s (put_owner m.device_by_pub_key key_hex key (device e) (ok_key e refl) held)
  ]

  -- Whatever a binding does, a device key that had an owner keeps that owner.
  pub bind-key_owner :
      (pub_key : List ℕ) (key : String)
      → key_owner m key ≢ none
      → key_owner
          (bind_device_by_enrollment save m code device_id pub_key alg key_hex now).state
          key
        ≡ key_owner m key
  unfolding bind_device_by_enrollment
  bind-key_owner pub_key key held =
      finish_owner (bind_checks m code device_id pub_key alg key_hex now) key
        (λ e h. (checks-IsOpen m code device_id pub_key alg key_hex now e h).unheld) held

  -- A binding only succeeds by a code whose enrolment exists, was not used, has not run out, names
  -- a known user, and names no other user than the one that holds the key; the device is then
  -- stored under its key for that user.
  pub bind-IsOpen :
      (pub_key : List ℕ) (d : UmDevice)
      → (bind_device_by_enrollment save m code device_id pub_key alg key_hex now).result ≡ ok d
      → (e : UmEnrollment) × IsOpen m code key_hex now e
        × (d.user_id ≡ e.user_id)
        × (d.device_id ≡ device_id)
        × (get
              (bind_device_by_enrollment save m code device_id pub_key alg key_hex
                now).state.device_by_pub_key
              key_hex
            ≡ some d)
  unfolding bind_device_by_enrollment
  bind-IsOpen pub_key d h =
      let (e, v, u, i, g, t) =
        finish_inversion (bind_checks m code device_id pub_key alg key_hex now) d h in
      (e, checks-IsOpen m code device_id pub_key alg key_hex now e v, u, i, g)

  spent :
      (pub_key : List ℕ) (d : UmDevice)
      → (bind_device_by_enrollment save m code device_id pub_key alg key_hex now).result ≡ ok d
      → (e : UmEnrollment) × (get
            (bind_device_by_enrollment save m code device_id pub_key alg key_hex
              now).state.enrollments
            code
          ≡ some (record e { used = true }))
  unfolding bind_device_by_enrollment
  spent pub_key d h =
      let (e, v, u, i, g, t) =
        finish_inversion (bind_checks m code device_id pub_key alg key_hex now) d h in
      (e, t)

spent_refused :
    (save : UserManager → Bool) (m : UserManager) (code device_id alg key_hex : String) (now : ℕ)
    (pub_key : List ℕ) (d : UmDevice) (e : UmEnrollment)
    → get m.enrollments code ≡ some (record e { used = true })
    → (bind_device_by_enrollment save m code device_id pub_key alg key_hex now).result ≢ ok d
unfolding bind_device_by_enrollment
spent_refused save m code device_id alg key_hex now pub_key d e s h =
    let (e', v, u, i, g, t) =
      finish_inversion save m code device_id alg key_hex now
        (bind_checks m code device_id pub_key alg key_hex now) d h in
    used_refused m code device_id pub_key alg key_hex now e' (record e { used = true }) s refl v

module _ (save : UserManager → Bool) (m : UserManager) (code device_id alg key_hex : String)
    (now : ℕ) (pub_key : List ℕ) (d : UmDevice)
    (done : (bind_device_by_enrollment save m code device_id pub_key alg key_hex now).result
      ≡ ok d) where
  abbrev after_bind : UserManager
  after_bind = (bind_device_by_enrollment save m code device_id pub_key alg key_hex now).state

  -- A code serves one binding: after it no binding by that code succeeds in the state that it left.
  pub enrollment_once :
      (save' : UserManager → Bool) (device' alg' key_hex' : String) (pub_key' : List ℕ) (now' : ℕ)
      (d' : UmDevice)
      → (bind_device_by_enrollment save' after_bind code device' pub_key' alg' key_hex' now').result
        ≢ ok d'
  enrollment_once save' device' alg' key_hex' pub_key' now' d' =
      let (e, s) = spent save m code device_id alg key_hex now pub_key d done in
      spent_refused save' after_bind code device' alg' key_hex' now' pub_key' d' e s
