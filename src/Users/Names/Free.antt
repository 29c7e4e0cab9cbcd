-- ===== src/Users/Names/Free.antt =====
-- The search for a free name ends, with a name that is free.
use sdl_control.Base.{
  ℕ, suc, ◌≡◌, ◌≢◌, refl, [], ◌∷◌, String, Bool, true, false, ◌||◌, not, some, ◌==◌, string_eq,
  length, arith, Bool-cases, inl, inr, ap, ◌∙◌,
}
use text.Mathlib.TextEquality.{eq_iff}
use sdl_control.Base.Text.{trim_space, ◌<>◌}
use sdl_control.Base.Text.Trim.{numbered, numbered_nonempty, trim-numbered, trim-Head, Head}
use sdl_control.Base.Text.Fold.{
  equal_fold, equal_fold_sym, equal_fold_trans, equal_fold_tail, decimal_fold_inj, KeepsDigits,
}
use sdl_control.Base.Decimal.{decimal}
use sdl_control.Base.Search.{first_free, first_free_lem, first_free_same, any_hits, enough_fuel}
use sdl_control.Users.State.{UmAuthDevice}
use sdl_control.Users.Devices.{Devices}
use sdl_control.Users.Names.{
  clashes, any_clashes, display_name_exists, desired_name, free_number, unique_display_name,
}

module _ (fold : ℕ → ℕ) (keeps : KeepsDigits fold) (devices : Devices) (r : UmAuthDevice) where
  abbrev hits : String → String × UmAuthDevice → ℕ → Bool
  hits name e i = clashes fold r (numbered name i) e.1

  hits_once :
      (name : String) (e : String × UmAuthDevice) (i j : ℕ)
      → hits name e i ≡ true
      → hits name e j ≡ true
      → i ≡ j
  unfolding clashes
  hits_once name e i j hi hj =
      let mine = trim_space e.1.display_name in
      let first : equal_fold fold (numbered name i) mine ≡ true =
        equal_fold_sym fold (numbered name i) mine ∙ ground (arith, hi) in
      let both =
        equal_fold_trans fold (numbered name i) mine (numbered name j) first (ground (arith, hj)) in
      decimal_fold_inj fold keeps i j (
        equal_fold_tail fold "-" (decimal i) (decimal j)
          (equal_fold_tail fold name ("-" <> decimal i) ("-" <> decimal j) both))

  any-hits :
      (name : String) (ds : Devices) (i : ℕ)
      → any_clashes fold ds r (numbered name i) ≡ any_hits (hits name) ds i
  unfolding any_clashes any_hits
  any-hits name [] i = refl
  any-hits name ((key, e) ∷ rest) i =
      ap (λ b. clashes fold r (numbered name i) e || b) (any-hits name rest i)

  exists-hits :
      (name : String) (i : ℕ)
      → Head name
      → name ≢ ""
      → display_name_exists fold devices r (numbered name i) ≡ any_hits (hits name) devices i
  unfolding display_name_exists
  exists-hits name i h ne = rw (trim-numbered name i h ne) (
      ground
        (arith, numbered_nonempty name i ne, eq_iff (numbered name i) "", any-hits name devices i))

  empty_free : display_name_exists fold devices r "" ≡ false
  unfolding display_name_exists trim_space
  empty_free = refl

  desired-Head : (desired : String) → Head (desired_name fold r desired)
  unfolding desired_name
  desired-Head desired = elim (Bool-cases (trim_space desired == "")) [
    | inl e ↦ rw e (trim-Head r.device_id)
    | inr e ↦ rw e (trim-Head desired)
  ]

  search :
      (name : String)
      → Head name
      → name ≢ ""
      → (i : ℕ) × (first_free
            (λ i. display_name_exists fold devices r (numbered name i))
            (suc (length devices))
            1
          ≡ some i)
        × (display_name_exists fold devices r (numbered name i) ≡ false)
  search name h ne =
      let taken : ℕ → Bool = λ i. display_name_exists fold devices r (numbered name i) in
      let fuel = suc (length devices) in
      let (i, found) = enough_fuel (hits name) (hits_once name) devices fuel 1 (omega arith) in
      let same =
        first_free_same taken (any_hits (hits name) devices) fuel 1
          (λ j l u. exists-hits name j h ne) in
      (i, same ∙ found, (first_free_lem taken fuel 1 i (same ∙ found)).0)

  -- The search for a display name ends within one step more than there are devices, and no other
  -- device of the network has the name that it gives, where two names that differ in the case of
  -- their letters are one name.
  pub unique_display_name_lem :
      (desired : String)
      → (name : String) × (unique_display_name fold devices r desired ≡ some name)
        × (display_name_exists fold devices r name ≡ false)
  unfolding unique_display_name free_number
  unique_display_name_lem desired =
      let name = desired_name fold r desired in
      elim (Bool-cases (name == "" || not (display_name_exists fold devices r name))) [
        | inl e ↦ (name, rw e refl, free_now name e)
        | inr e ↦
            let (i, found, free) =
              search name (desired-Head desired) (λ z. ground (arith, eq_iff name "", e)) in
            (numbered name i, rw (e, found) refl, free)
      ]
    where
      free_now :
          (name : String)
          → (name == "" || not (display_name_exists fold devices r name)) ≡ true
          → display_name_exists fold devices r name ≡ false
      free_now name e = elim (Bool-cases (name == "")) [
        | inl z ↦ ap (display_name_exists fold devices r) ((eq_iff name "").0 z) ∙ empty_free
        | inr z ↦ ground (arith, e, z)
      ]
