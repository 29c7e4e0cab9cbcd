-- ===== src/Users/Names/Unique.antt =====
-- No two devices of a network have the same display name.
use sdl_control.Base.{
  ℕ, ◌≡◌, ◌≢◌, [], ◌∷◌, String, false, some, ◌==◌, string_eq, arith, Bool-cases, inl, inr, ap, ◌∙◌,
  sym, ◌⊎◌,
}
use text.Mathlib.TextEquality.{eq_iff}
use sdl_control.Base.Text.{trim_space}
use sdl_control.Base.Text.Fold.{equal_fold, equal_fold_sym, equal_fold_empty}
use sdl_control.Base.Map.{get, put, get-put}
use sdl_control.Users.State.{UmAuthDevice, authed_device_key}
use sdl_control.Users.Devices.{Devices}
use sdl_control.Users.Names.{network_of, named, clashes, any_clashes, display_name_exists}

-- A record stands under the key of its group and its device.
abbrev pub IsKeyed : Devices → Type 0
IsKeyed devices =
    (key : String) (r : UmAuthDevice)
    → get devices key ≡ some r
    → key ≡ authed_device_key r.group_name r.device_id

module _ (fold : ℕ → ℕ) where
  -- Two devices of one network do not have one name, unless it is blank.
  abbrev pub AreApart : UmAuthDevice → UmAuthDevice → Type 0
  AreApart r q =
      network_of r ≡ network_of q
      → trim_space r.display_name ≢ ""
      → equal_fold fold (trim_space r.display_name) (trim_space q.display_name) ≡ false

  abbrev pub NamesApart : Devices → Type 0
  NamesApart devices =
      (i j : String) (r q : UmAuthDevice)
      → get devices i ≡ some r
      → get devices j ≡ some q
      → i ≢ j
      → AreApart r q

  any_clashes_none :
      (devices : Devices) (r : UmAuthDevice) (name : String) (key : String) (q : UmAuthDevice)
      → any_clashes fold devices r name ≡ false
      → get devices key ≡ some q
      → clashes fold r name q ≡ false
  unfolding any_clashes get
  any_clashes_none [] r name key q h e = absurd (cc)
  any_clashes_none ((k, x) ∷ rest) r name key q h e = elim (Bool-cases (k == key)) [
    | inl z ↦
        let same : some x ≡ some q = ground (arith, e, z) in
        let this : x ≡ q = cc in ap (clashes fold r name) (sym this) ∙ ground (arith, h)
    | inr z ↦ any_clashes_none rest r name key q (ground (arith, h)) (ground (arith, e, z))
  ]

  -- A record that gets a free name is apart from every other.
  free_apart :
      (devices : Devices) (r : UmAuthDevice) (name : String) (i j : String) (q : UmAuthDevice)
      → IsKeyed devices
      → get devices i ≡ some r
      → get devices j ≡ some q
      → i ≢ j
      → display_name_exists fold devices r name ≡ false
      → trim_space name ≢ ""
      → network_of r ≡ network_of q
      → equal_fold fold (trim_space q.display_name) (trim_space name) ≡ false
  unfolding display_name_exists clashes
  free_apart devices r name i j q keyed ri qj ne free named_so same = ground (
    arith,
    any_clashes_none devices r (trim_space name) j q,
    eq_iff (trim_space name) "",
    eq_iff (network_of q) (network_of r),
    eq_iff q.group_name r.group_name,
    eq_iff q.device_id r.device_id,
    same_key,
    free,
    named_so,
    same,
    qj,
  )
    where
      same_key : q.group_name ≡ r.group_name → q.device_id ≡ r.device_id → ⊥
      same_key g d = let at_r = keyed i r ri in let at_q = keyed j q qj in ne (cc)

  -- What is found under a key after a record was written
  put_cases :
      (devices : Devices) (key : String) (r : UmAuthDevice) (i : String) (q : UmAuthDevice)
      → get (put devices key r) i ≡ some q
      → ((key ≡ i) × (r ≡ q)) ⊎ ((key ≢ i) × (get devices i ≡ some q))
  put_cases devices key r i q h = elim (Bool-cases (key == i)) [
    | inl e ↦
        let both : some r ≡ some q = ground (arith, h, e, get-put devices key r i) in
        inl ((eq_iff key i).0 e, cc)
    | inr e ↦
        inr (λ z. ground (arith, eq_iff key i, e), ground (arith, h, e, get-put devices key r i))
  ]

  module _ (devices : Devices) (key : String) (r : UmAuthDevice) (name : String)
      (keyed : IsKeyed devices) (at : get devices key ≡ some r)
      (free : display_name_exists fold devices r name ≡ false) where
    other_apart :
        (j : String) (q : UmAuthDevice)
        → get devices j ≡ some q
        → key ≢ j
        → AreApart q (named r name)
    unfolding named network_of
    other_apart j q qj ne same solid = elim (Bool-cases (trim_space name == "")) [
      | inl e ↦
          ap (equal_fold fold (trim_space q.display_name)) ((eq_iff (trim_space name) "").0 e)
          ∙ equal_fold_empty fold (trim_space q.display_name) solid
      | inr e ↦
          free_apart devices r name key j q keyed at qj ne free
            (λ z. ground (arith, e, eq_iff (trim_space name) "")) (sym same)
    ]

    new_apart :
        (j : String) (q : UmAuthDevice)
        → get devices j ≡ some q
        → key ≢ j
        → AreApart (named r name) q
    unfolding named network_of
    new_apart j q qj ne same solid =
        equal_fold_sym fold (trim_space name) (trim_space q.display_name)
        ∙ free_apart devices r name key j q keyed at qj ne free solid same

  -- A record may take a name that no other device of its network has.
  pub put-NamesApart :
      (devices : Devices) (key : String) (r : UmAuthDevice) (name : String)
      → IsKeyed devices
      → NamesApart devices
      → get devices key ≡ some r
      → display_name_exists fold devices r name ≡ false
      → NamesApart (put devices key (named r name))
  put-NamesApart devices key r name keyed apart at free i j p q pi qj ne same solid =
      elim (put_cases devices key (named r name) i p pi) [
        | inl (ki, rp) ↦ elim (put_cases devices key (named r name) j q qj) [
          | inl (kj, rq) ↦ absurd (ne (sym ki ∙ kj))
          | inr (kj, qj') ↦
              let new : AreApart p q =
                rw (← rp) (new_apart devices key r name keyed at free j q qj' kj) in
              new same solid
        ]
        | inr (ki, pi') ↦ elim (put_cases devices key (named r name) j q qj) [
          | inl (kj, rq) ↦
              let other : AreApart p q =
                rw (← rq) (other_apart devices key r name keyed at free i p pi' ki) in
              other same solid
          | inr (kj, qj') ↦ apart i j p q pi' qj' ne same solid
        ]
      ]

  pub put-IsKeyed :
      (devices : Devices) (key : String) (r : UmAuthDevice) (name : String)
      → IsKeyed devices
      → get devices key ≡ some r
      → IsKeyed (put devices key (named r name))
  unfolding named
  put-IsKeyed devices key r name keyed at i q h =
      elim (put_cases devices key (named r name) i q h) [
        | inl (k, e) ↦
            let old = keyed key r at in
            let g = ap (λ x. x.group_name) e in let d = ap (λ x. x.device_id) e in cc
        | inr (k, e) ↦ keyed i q e
      ]
