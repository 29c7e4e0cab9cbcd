-- ===== src/Users/Tickets/Race.antt =====
-- AuthDevice gives up its lock between the check of the ticket and the commit, which does not check
-- again.
use text.Mathlib.TextLemmas.{append_cancel_left}
use text.Mathlib.TextEquality.{eq_iff}
use sdl_control.Base.{
  ℕ, ◌≡◌, ◌≢◌, List, String, true, false, none, ◌==◌, string_eq, is_empty, arith, sym, ◌∙◌, ap,
  Bool-cases, inl, inr, beq_refl,
}
use sdl_control.Base.Map.{get, get-put}
use sdl_control.Users.State.{UserManager, ok, authed_device_key, save_locked}
use sdl_control.Users.Tickets.{
  validate_device_auth, auth_record, auth_commit, auth_finish, check_authed_device, check_found,
}
use sdl_control.Users.Tickets.Use.{committed, check_committed}

-- Two devices of one group have two keys.
key_injective : (group a b : String) → authed_device_key group a ≡ authed_device_key group b → a ≡ b
unfolding authed_device_key
key_injective group a b e = append_cancel_left "|" a b (append_cancel_left group _ _ e)

key_apart :
    (group a b : String) → a ≢ b → (authed_device_key group a == authed_device_key group b) ≡ false
key_apart group a b ne =
    elim (Bool-cases (authed_device_key group a == authed_device_key group b)) [
      | inl e ↦ absurd (ne (key_injective group a b ((eq_iff _ _).0 e)))
      | inr e ↦ e
    ]

module _ (m : UserManager) (user group : String) (first second : String)
    (ticket first_hex second_hex : String) (full : String) (checked now : ℕ) (key : List ℕ) where
  -- When two requests of one user for two devices in one group, with one ticket and a key that is
  -- not empty, both pass the check before either commits, and the store takes both, then both
  -- devices are authenticated: the ticket has served twice.
  pub ticket_race :
      first ≢ second
      → validate_device_auth m user group first ticket checked ≡ ok full
      → validate_device_auth m user group second ticket checked ≡ ok full
      → is_empty key ≡ false
      → let one =
          auth_finish
            (λ _. true)
            m
            user
            first
            ticket
            first_hex
            now
            (validate_device_auth m user group first ticket checked) in
        let two =
          auth_finish
            (λ _. true)
            one.state
            user
            second
            ticket
            second_hex
            now
            (validate_device_auth m user group second ticket checked) in
        (check_authed_device two.state full first key first_hex now ≡ none)
        × (check_authed_device two.state full second key second_hex now ≡ none)
  unfolding auth_commit auth_finish save_locked check_authed_device
  ticket_race apart v1 v2 ne =
      let m1 = committed m user full first ticket first_hex now in
      let k1 = authed_device_key full first in
      let k2 = authed_device_key full second in
      let kept : get (committed m1 user full second ticket second_hex now).authed_devices k1
          ≡ get m1.authed_devices k1 =
        get-put m1.authed_devices k2 (auth_record m1 user full second second_hex now) k1
        ∙ rw (key_apart full second first (λ e. apart (sym e))) in
      rw (v1, v2)
        (
          ap (λ d. check_found d key first_hex now) kept
              ∙ (check_committed m user full first ticket first_hex now key first_hex now ne
                  ∙ rw (beq_refl first_hex) (ground arith)),
          check_committed m1 user full second ticket second_hex now key second_hex now ne
              ∙ rw (beq_refl second_hex) (ground arith),
        )
