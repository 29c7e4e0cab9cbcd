-- ===== src/Users/Names/Keeps.antt =====
-- The operations on display names keep them apart.
use sdl_control.Base.{
  ℕ, ◌≡◌, refl, List, [], ◌∷◌, String, Bool, false, not, Option, none, some, ◌==◌, string_eq, arith,
  Bool-cases, Option-cases, inl, inr, ap, ◌∙◌, sym,
}
use sdl_control.Base.Text.{trim_space}
use sdl_control.Base.Text.Fold.{KeepsDigits}
use sdl_control.Base.Map.{get, put}
use sdl_control.Users.State.{
  UserManager, UmAuthDevice, Result, Result-cases, ok, err, Outcome, fail, save_locked-state,
  authed_device_key,
}
use sdl_control.Users.Devices.{Devices, device_checks}
use sdl_control.Users.Names.{
  named, normalize_name, display_name_exists, rename_checks, write_record, first_record,
  rename_authed_device, assign_named, assign_found, assign_checked,
  assign_authed_device_display_name,
}
use sdl_control.Users.Names.Free.{unique_display_name_lem}
use sdl_control.Users.Names.Unique.{IsKeyed, NamesApart, put-NamesApart, put-IsKeyed}

-- Every record stands under its own key, and no two names of a network clash.
abbrev pub AreTidy : (ℕ → ℕ) → Devices → Type 0
AreTidy fold devices = IsKeyed devices × NamesApart fold devices

module _ (fold : ℕ → ℕ) where
  put-AreTidy :
      (devices : Devices) (key : String) (r : UmAuthDevice) (name : String)
      → AreTidy fold devices
      → get devices key ≡ some r
      → display_name_exists fold devices r name ≡ false
      → AreTidy fold (put devices key (named r name))
  put-AreTidy devices key r name tidy at free = (
    put-IsKeyed fold devices key r name tidy.0 at,
    put-NamesApart fold devices key r name tidy.0 tidy.1 at free,
  )

  write-AreTidy :
      (save : UserManager → Bool) (m : UserManager) (v : Result (String × UmAuthDevice))
      → AreTidy fold m.authed_devices
      → ((key : String) (r : UmAuthDevice)
          → v ≡ ok (key, r)
          → AreTidy fold (put m.authed_devices key r))
      → AreTidy fold (write_record fold save m v).state.authed_devices
  unfolding write_record fail
  write-AreTidy save m (err e) tidy new = tidy
  write-AreTidy save m (ok (key, r)) tidy new =
      rw (save_locked-state save (record m { authed_devices = put m.authed_devices key r }) r)
        (new key r refl)

  first_record_lem :
      (devices : Devices) (keys : List String) (key : String) (r : UmAuthDevice)
      → first_record fold devices keys ≡ ok (key, r)
      → get devices key ≡ some r
  unfolding first_record
  first_record_lem devices [] key r h = absurd (cc)
  first_record_lem devices (k ∷ keys) key r h = elim (Option-cases (get devices k)) [
    | inl e ↦ absurd (ground arith)
    | inr (q, e) ↦
        let same : (k ≡ key) × (q ≡ r) = ground (arith, h, e) in
        ap (get devices) (sym same.0) ∙ (e ∙ ap some same.1)
  ]

  rename_inversion :
      (m : UserManager) (user group device display_name key : String) (r : UmAuthDevice)
      → rename_checks fold m user group device display_name ≡ ok (key, r)
      → (name : String) × (old : UmAuthDevice) × (get m.authed_devices key ≡ some old)
        × (r ≡ named old name)
        × (display_name_exists fold m.authed_devices old name ≡ false)
  unfolding rename_checks
  rename_inversion m user group device display_name key r h =
      elim (Result-cases (normalize_name display_name)) [
        | inr (e, x) ↦ absurd (ground arith)
        | inl (name, x) ↦
            elim (Result-cases
              (device_checks m (trim_space user) (trim_space group) (trim_space device))) [
                | inr (e, y) ↦ absurd (ground arith)
                | inl (keys, y) ↦ elim (Result-cases (first_record fold m.authed_devices keys)) [
                  | inr (e, z) ↦ absurd (ground arith)
                  | inl ((k, old), z) ↦
                      elim (Bool-cases (display_name_exists fold m.authed_devices old name)) [
                        | inl t ↦ absurd (ground arith)
                        | inr t ↦
                            let same : (k ≡ key) × (named old name ≡ r) =
                              ground (arith, h, x, y, z, t) in
                            (
                              name,
                              old,
                              ap (get m.authed_devices) (sym same.0)
                                  ∙ first_record_lem m.authed_devices keys k old z,
                              sym same.1,
                              t,
                            )
                      ]
                ]
              ]
      ]

  -- Where every record stands under its own key and no two names of a network clash, this is so
  -- after RenameAuthedDevice, whether it succeeds or fails.
  pub rename-AreTidy :
      (save : UserManager → Bool) (m : UserManager) (user group device display_name : String)
      → AreTidy fold m.authed_devices
      → AreTidy fold
          (rename_authed_device fold save m user group device display_name).state.authed_devices
  unfolding rename_authed_device
  rename-AreTidy save m user group device display_name tidy =
      write-AreTidy save m (rename_checks fold m user group device display_name) tidy (λ key r h.
        let (name, old, at, same, free) =
          rename_inversion m user group device display_name key r h in
        rw same (put-AreTidy m.authed_devices key old name tidy at free))

  -- The same of the devices that an assignment leaves, in an outcome that there is
  abbrev Keeps : Option (Outcome UmAuthDevice) → Type 0
  Keeps o = (out : Outcome UmAuthDevice) × (o ≡ some out) × AreTidy fold out.state.authed_devices

  module _ (keeps : KeepsDigits fold) (save : UserManager → Bool) (m : UserManager)
      (tidy : AreTidy fold m.authed_devices) where
    found-Keeps :
        (key name : String) (found : Option UmAuthDevice)
        → get m.authed_devices key ≡ found
        → Keeps (assign_found fold save m key name found)
    unfolding assign_found assign_named fail
    found-Keeps key name none h = (_, refl, tidy)
    found-Keeps key name (some r) h = elim (Bool-cases (not (trim_space r.display_name == ""))) [
      | inl e ↦ rw e (_, refl, tidy)
      | inr e ↦
          let (fresh, ends, free) = unique_display_name_lem fold keeps m.authed_devices r name in
          rw (e, ends)
            (
              _,
              refl,
              rw (save_locked-state save _ (named r fresh))
                  (put-AreTidy m.authed_devices key r fresh tidy h free),
            )
    ]

    checked-Keeps :
        (group device : String) (v : Result String)
        → Keeps (assign_checked fold save m group device v)
    unfolding assign_checked fail
    checked-Keeps group device (err e) = (_, refl, tidy)
    checked-Keeps group device (ok name) =
        let key = authed_device_key group device in
        found-Keeps key name (get m.authed_devices key) refl

    -- AssignAuthedDeviceDisplayName always ends; where every record stands under its own key and no
    -- two names of a network clash, this is so after it, whether it succeeds or fails.
    pub assign-AreTidy :
        (group device display_name : String)
        → (out : Outcome UmAuthDevice) × (assign_authed_device_display_name fold save m group device
              display_name
            ≡ some out)
          × AreTidy fold out.state.authed_devices
    unfolding assign_authed_device_display_name
    assign-AreTidy group device display_name =
        checked-Keeps group device (normalize_name display_name)
