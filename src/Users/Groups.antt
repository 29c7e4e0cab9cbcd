-- ===== src/Users/Groups.antt =====
-- control/user.go normalizeGroupForUser.
use sdl_control.Base.{String, true, ◌≡◌, ◌≢◌, ◌⊎◌, ◌==◌, string_eq, if◌then◌else◌, arith}
use text.Mathlib.TextEquality.{eq_iff}
use sdl_control.Base.Text.{
  trim_space, ◌<>◌, contains_dot, has_suffix, contains_dot-append, has_suffix-append,
  append-nil_left,
}
use sdl_control.Users.State.{Result, ok, err, outside_domain}

abbrev or_default : String → String
or_default domain = if trim_space domain == "" then "ms.net" else domain

unfoldable pub normalize_group_for_user : String → String → Result String
normalize_group_for_user group_name user_domain =
    let domain = or_default user_domain in
    if contains_dot group_name
    then if group_name == domain
      then ok group_name
      else if has_suffix group_name ("." <> domain)
      then ok group_name
      else err outside_domain
    else ok (group_name <> ("." <> domain))

-- A group that was normalised for a domain, where a blank domain stands for ms.net, is the domain
-- or ends in a dot and the domain, and normalising it again changes nothing.
pub normalize_lem :
    (group domain : String) {full : String}
    → normalize_group_for_user group domain ≡ ok full
    → ((full ≡ or_default domain) ⊎ (has_suffix full ("." <> or_default domain) ≡ true))
      × (normalize_group_for_user full domain ≡ ok full)
unfolding normalize_group_for_user
normalize_lem group domain {full} h =
    let d = or_default domain in
    ground (
      arith,
      eq_iff group d,
      eq_iff full d,
      contains_dot-append group d,
      has_suffix-append group ("." <> d),
    )

append-nonempty : (s t : String) → s ≢ "" → s <> t ≢ ""
append-nonempty s t ne h = ne (append-nil_left s t h)

-- A group that is not empty is normalised to one that is not empty.
pub normalize_nonempty :
    (group domain : String) {full : String}
    → normalize_group_for_user group domain ≡ ok full
    → group ≢ ""
    → full ≢ ""
unfolding normalize_group_for_user
normalize_nonempty group domain {full} h ne =
    ground (arith, append-nonempty group ("." <> or_default domain))
