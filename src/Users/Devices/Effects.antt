-- ===== src/Users/Devices/Effects.antt =====
-- Which records a deletion removes.
use sdl_control.Base.{
  ◌≡◌, refl, ◌∙◌, List, [], ◌∷◌, String, Bool, false, ◌&&◌, Option, none, some, ◌==◌, nat_eq,
  string_eq, leb, if◌then◌else◌, length, is_empty, arith, Option-cases, Bool-cases, inl, inr, ap,
}
use text.Mathlib.TextEquality.{eq_iff}
use sdl_control.Base.Text.{trim_space}
use sdl_control.Base.Map.{get, delete, get-delete, IsUnique}
use sdl_control.Users.State.{
  UserManager, UmAuthDevice, Result, ok, err, fail, Result-cases, save_locked-state,
}
use sdl_control.Users.Devices.{
  Devices, matching, deletes, delete_keys, device_checks, delete_finish, delete_authed_device,
  group_filter,
}

abbrev pub passes : (UmAuthDevice → Bool) → Option UmAuthDevice → Bool
passes test none = false
passes test (some r) = test r

step_none :
    (k : String) (ks : List String) (devices : Devices)
    → get devices k ≡ none
    → (delete_keys (k ∷ ks) devices).0 ≡ (delete_keys ks devices).0
unfolding delete_keys
step_none k ks devices h = rw (delete_keys, h) refl

step_some :
    (k : String) (ks : List String) (devices : Devices) (r : UmAuthDevice)
    → get devices k ≡ some r
    → (delete_keys (k ∷ ks) devices).0 ≡ (delete_keys ks (delete devices k)).0
unfolding delete_keys
step_some k ks devices r h = rw (delete_keys, h) refl

delete_keys_lem :
    (test : UmAuthDevice → Bool) (entries devices : Devices) (k : String)
    → IsUnique entries
    → get (delete_keys (matching test entries) devices).0 k
      ≡ (if passes test (get entries k) then none else get devices k)
unfolding matching get
delete_keys_lem test [] devices k u = unfold delete_keys in refl
delete_keys_lem test ((j, r) ∷ rest) devices k u = elim (Bool-cases (test r)) [
  | inl e ↦ rw e (elim (Option-cases (get devices j)) [
    | inl h ↦
        ap (λ d. get d k) (step_none j (matching test rest) devices h)
        ∙ ground
            (arith, e, h, delete_keys_lem test rest devices k u.1, u.0, eq_iff j k, same k, same' k)
    | inr h ↦
        ap (λ d. get d k) (step_some j (matching test rest) devices h.0 h.1)
        ∙ ground (
          arith,
          e,
          delete_keys_lem test rest (delete devices j) k u.1,
          u.0,
          get-delete devices j k,
          eq_iff j k,
          same k,
          same' k,
        )
  ])
  | inr e ↦
      rw e (
        ground
          (arith, e, delete_keys_lem test rest devices k u.1, u.0, eq_iff j k, same k, same' k))
]
  where
    same : (x : String) → j ≡ x → get rest j ≡ get rest x
    same x e = ap (get rest) e

    same' : (x : String) → j ≡ x → get devices j ≡ get devices x
    same' x e = ap (get devices) e

device_checks_ok :
    (m : UserManager) (user group device : String) (keys : List String)
    → device_checks m user group device ≡ ok keys
    → (full : String) × (group_filter m user group ≡ ok full)
      × (keys ≡ matching (deletes user full device) m.authed_devices)
      × ((is_empty keys ≡ false) × ((full == "" && leb 2 (length keys)) ≡ false))
unfolding device_checks
device_checks_ok m user group device keys h = elim (Result-cases (group_filter m user group)) [
  | inl (full, g) ↦ (full, g, ground arith, (ground arith, ground arith))
  | inr (e, g) ↦ absurd (ground arith)
]

module _ (save : UserManager → Bool) (m : UserManager) (user group device : String) where
  delete_finish_lem :
      (v : Result (List String)) (deleted : List UmAuthDevice)
      → (delete_finish save m v).result ≡ ok deleted
      → (keys : List String) × (v ≡ ok keys)
        × ((delete_finish save m v).state
            ≡ record m { authed_devices = (delete_keys keys m.authed_devices).0 })
  unfolding delete_finish fail
  delete_finish_lem (err e) deleted h = absurd (ground arith)
  delete_finish_lem (ok keys) deleted h = (keys, refl, save_locked-state save _ _)

  -- A deletion that succeeded, from a map without double keys, removed exactly the records of the
  -- user, of the device and, if a group was given, of that group in its normal form, and left the
  -- others as they were.
  pub delete_authed_device_lem :
      (deleted : List UmAuthDevice)
      → IsUnique m.authed_devices
      → (delete_authed_device save m user group device).result ≡ ok deleted
      → (full : String) × (group_filter m (trim_space user) (trim_space group) ≡ ok full)
        × ((k : String)
            → get (delete_authed_device save m user group device).state.authed_devices k ≡ (
                if passes
                  (deletes (trim_space user) full (trim_space device))
                  (get m.authed_devices k)
                then none
                else get m.authed_devices k))
  unfolding delete_authed_device
  delete_authed_device_lem deleted unique h =
      let (keys, v, s) =
        delete_finish_lem (device_checks m (trim_space user) (trim_space group) (trim_space device))
          deleted h in
      let (full, g, is, some_key) =
        device_checks_ok m (trim_space user) (trim_space group) (trim_space device) keys v in
      (
        full,
        g,
        λ k.
            ap (λ st. get st.authed_devices k) s
            ∙ (ap (λ ks. get (delete_keys ks m.authed_devices).0 k) is
                ∙ delete_keys_lem (deletes (trim_space user) full (trim_space device))
                    m.authed_devices m.authed_devices k unique),
      )
