-- ===== src/Tests/Naming.antt =====
-- Two devices of user "u" in the group home; a third user is made.
use sdl_control.Base.{
  ℕ, ◌≡◌, ◌<◌, ◌⊎◌, refl, String, [], ◌∷◌, none, some, Bool, true, false, is_some, arith, leb, ◌+◌,
  ◌∙◌, sym, Bool-cases, string_eq, inl, inr, ◌==◌, if◌then◌else◌,
}
use text.Mathlib.TextEquality.{eq_iff}
use sdl_control.Base.Text.{trim_space}
use sdl_control.Base.Map
use sdl_control.Base.Text.Fold.{equal_fold, KeepsDigits}
use sdl_control.Users.State.{
  UserManager, UmUser, UmAuthDevice, Outcome, new_user_manager, authed_device_key,
}
use sdl_control.Users.Devices.{Devices}
use sdl_control.Users.Create.{create_user, create_user_lem, user_id_of, Stored}
use sdl_control.Users.Names.{
  display_name_exists, unique_display_name, assign_authed_device_display_name,
}
use sdl_control.Users.Names.Free.{unique_display_name_lem}
use sdl_control.Users.Names.Unique.{IsKeyed, NamesApart}
use sdl_control.Users.Names.Keeps.{AreTidy, assign-AreTidy}

abbrev one_user : UserManager
one_user = record new_user_manager {
  users = ("u-1", record { user_id = "u-1"; name = "u"; domain = "ms.net"; created_at = 0 }) ∷ [];
}

abbrev stores : UserManager → Bool
stores m = true

create_user_lem_example :
    (k : ℕ) × (o : Outcome UmUser) × (create_user stores one_user "ann" none 5 ≡ some o)
    × (Map.get one_user.users (user_id_of k) ≡ none)
    × ((j : ℕ) → 0 < j → j < k → is_some (Map.get one_user.users (user_id_of j)) ≡ true)
    × Stored stores one_user "ann" none 5 k o
create_user_lem_example = create_user_lem stores one_user "ann" none 5 (omega arith) (λ e. cc)

abbrev laptop : UmAuthDevice
laptop = record {
  user_id = "u";
  group_name = "home.ms.net";
  device_id = "d";
  display_name = "laptop";
  pub_key_hex = "k1";
  authed_at = 0;
  auth_expire_at = 100;
}

abbrev unnamed : UmAuthDevice
unnamed = record laptop { device_id = "e"; display_name = "" }

abbrev pair : Devices
pair = ("home.ms.net|d", laptop) ∷ ("home.ms.net|e", unnamed) ∷ []

-- Upper and lower case are the same, for the letters of ASCII.
abbrev ascii_fold : ℕ → ℕ
ascii_fold c = if leb 65 c then (if leb c 90 then c + 32 else c) else c

ascii-KeepsDigits : KeepsDigits ascii_fold
ascii-KeepsDigits d l = ground arith

unique_display_name_lem_example :
    (name : String) × (unique_display_name ascii_fold pair unnamed "LapTop" ≡ some name)
    × (display_name_exists ascii_fold pair unnamed name ≡ false)
unique_display_name_lem_example =
    unique_display_name_lem ascii_fold ascii-KeepsDigits pair unnamed "LapTop"

pair_entries :
    (key : String) (r : UmAuthDevice)
    → Map.get pair key ≡ some r
    → ((key ≡ "home.ms.net|d") × (r ≡ laptop)) ⊎ ((key ≡ "home.ms.net|e") × (r ≡ unnamed))
unfolding Map.get
pair_entries key r h = elim (Bool-cases ("home.ms.net|d" == key)) [
  | inl e ↦
      let same : some laptop ≡ some r = ground (arith, h, e) in
      inl (sym ((eq_iff "home.ms.net|d" key).0 e), cc)
  | inr e ↦ elim (Bool-cases ("home.ms.net|e" == key)) [
    | inl f ↦
        let same : some unnamed ≡ some r = ground (arith, h, e, f) in
        inr (sym ((eq_iff "home.ms.net|e" key).0 f), cc)
    | inr f ↦ absurd (ground (arith, h, e, f))
  ]
]

pair-IsKeyed : IsKeyed pair
unfolding authed_device_key
pair-IsKeyed key r h = elim (pair_entries key r h) [ inl (k, e) ↦ rw e k | inr (k, e) ↦ rw e k ]

pair-NamesApart : NamesApart ascii_fold pair
unfolding equal_fold trim_space
pair-NamesApart i j r q ri qj ne same solid = elim (pair_entries i r ri) [
  | inl (k, e) ↦ elim (pair_entries j q qj) [
    | inl (l, f) ↦ absurd (ne (k ∙ sym l))
    | inr (l, f) ↦ rw (e, f) refl
  ]
  | inr (k, e) ↦ elim (pair_entries j q qj) [
    | inl (l, f) ↦ rw (e, f) refl
    | inr (l, f) ↦ absurd (ne (k ∙ sym l))
  ]
]

pair-AreTidy : AreTidy ascii_fold pair
pair-AreTidy = (pair-IsKeyed, pair-NamesApart)

abbrev two_devices : UserManager
two_devices = record one_user { authed_devices = pair }

assign-AreTidy_example :
    (out : Outcome UmAuthDevice) × (assign_authed_device_display_name ascii_fold stores two_devices
        "home.ms.net" "e" "LapTop"
      ≡ some out)
    × AreTidy ascii_fold out.state.authed_devices
assign-AreTidy_example =
    assign-AreTidy ascii_fold ascii-KeepsDigits stores two_devices pair-AreTidy "home.ms.net" "e"
      "LapTop"
