-- ===== src/Registration/Handle/Admission.antt =====
-- Who is let in, and what a registration keeps.
use sdl_control.Base.{
  ℕ, ◌≡◌, ◌≢◌, refl, List, String, Option, none, some, ◌==◌, string_eq, ltb, arith, Bool-cases,
  Option-cases, inl, inr, ap, ◌∙◌, sym,
}
use text.Mathlib.TextEquality.{eq_iff}
use sdl_control.Base.Text.{trim_space}
use sdl_control.Base.Map.{get}
use sdl_control.Protocol.Ip.{Ip}
use sdl_control.Network.Identity.{NetworkIdentity, new_network_identity}
use sdl_control.Users.State.{UmAuthDevice, Result-cases, Outcome, authed_device_key}
use sdl_control.Users.Tickets.{check_authed_device}
use sdl_control.Users.Names.{assign_authed_device_display_name}
use sdl_control.Registration.Config.{
  Config, Resolved, resolved, unresolved, bad_length, validate_registration_request,
  resolve_group_network_config,
}
use sdl_control.Registration.Join.{register_client}
use sdl_control.Registration.Join.Keeps.{AllConsistent, register_client-AllConsistent}
use sdl_control.Registration.Join.Found.{FoundAt, register_client-FoundAt}
use sdl_control.Registration.Handle.{
  Library, RegState, Clock, registered, Arrival, entrant, reply_of, join_checked, join_as,
  join_named, join_recorded, join_authed, join_resolved, join_valid, handle_registration,
}

module _ (lib : Library) (cfg : Config) (a : Arrival) (clock : Clock) where
  -- What a registration that succeeds leaves: the device at its address, in the network of its group
  -- and a user, and every index in agreement with the clients.
  abbrev Joined : RegState → ℕ → NetworkIdentity → Type 0
  Joined st ip identity =
      AllConsistent st.network
      × FoundAt st.network identity.key a.request.device_id ip
      × (user : String) × (identity ≡ new_network_identity a.request.token user)

  module _ (ip : ℕ) (identity : NetworkIdentity) (ne : a.request.device_id ≢ "") where
    checked-Joined :
        (st st' : RegState) (r : UmAuthDevice) (gateway : Ip) (netmask : List ℕ) (port : Option ℕ)
        → AllConsistent st.network
        → join_checked lib cfg a clock st (entrant lib cfg a clock r gateway netmask) port
          ≡ (registered ip identity, st')
        → Joined st' ip identity
    unfolding join_checked reply_of entrant
    checked-Joined st st' r gateway netmask none v h = absurd (let e = ap (λ x. x.0) h in cc)
    checked-Joined st st' r gateway netmask (some port) v h = elim (Bool-cases (ltb 65535 port)) [
      | inl far ↦ absurd (ground (arith, ap (λ x. x.0) h))
      | inr near ↦
          let e = entrant lib cfg a clock r gateway netmask in
          let done = register_client st.network e clock.unix clock.now in
          elim (Option-cases done.0) [
            | inl z ↦ absurd (ground (arith, ap (λ x. x.0) h))
            | inr (at, z) ↦
                let same_ip : at ≡ ip = ground (arith, ap (λ x. x.0) h, near, z) in
                let same_id : e.identity ≡ identity = ground (arith, ap (λ x. x.0) h, near, z) in
                let left : done.1 ≡ st'.network = ground (arith, ap (λ x. x.1.network) h, near) in
                let found =
                  register_client-FoundAt st.network e clock.unix clock.now ip v ne
                    (z ∙ ap some same_ip) in
                (
                  rw (← left) (register_client-AllConsistent st.network e clock.unix clock.now v),
                  rw (← left, ← same_id) found,
                  r.user_id,
                  sym same_id,
                )
          ]
    ]

    named-Joined :
        (st st' : RegState) (gateway : Ip) (netmask : List ℕ) (o : Option (Outcome UmAuthDevice))
        → AllConsistent st.network
        → join_named lib cfg a clock st gateway netmask o ≡ some (registered ip identity, st')
        → Joined st' ip identity
    unfolding join_named join_as
    named-Joined st st' gateway netmask none v h = absurd (cc)
    named-Joined st st' gateway netmask (some o) v h =
        let left : RegState = record st { users = o.state } in
        elim (Result-cases o.result) [
          | inl (r, e) ↦
              checked-Joined left st' r gateway netmask (lib.remote_port a.remote_addr) v
                (ground (arith, h, e))
          | inr (x, e) ↦ absurd (ground (arith, h, e))
        ]

    recorded-Joined :
        (st st' : RegState) (gateway : Ip) (netmask : List ℕ) (found : Option UmAuthDevice)
        → AllConsistent st.network
        → join_recorded lib cfg a clock st gateway netmask found
          ≡ some (registered ip identity, st')
        → Joined st' ip identity
    unfolding join_recorded join_as
    recorded-Joined st st' gateway netmask none v h = absurd (ground (arith, h))
    recorded-Joined st st' gateway netmask (some r) v h =
        elim (Bool-cases (trim_space r.display_name == "")) [
          | inl e ↦
              named-Joined st st' gateway netmask
                (assign_authed_device_display_name lib.fold lib.save st.users a.request.token
                  a.request.device_id (trim_space a.request.name))
                v (ground (arith, h, e))
          | inr e ↦
              checked-Joined st st' r gateway netmask (lib.remote_port a.remote_addr) v
                (ground (arith, h, e))
        ]

    resolved-Joined :
        (st st' : RegState) (res : Resolved)
        → AllConsistent st.network
        → join_resolved lib cfg a clock st res ≡ some (registered ip identity, st')
        → (check_authed_device st.users a.request.token a.request.device_id a.request.device_pub_key
              (lib.key_hex a.request.device_pub_key)
              clock.checked
            ≡ none)
          × (gateway : Ip) × (netmask : List ℕ) × (res ≡ resolved gateway netmask)
          × Joined st' ip identity
    unfolding join_resolved join_authed
    resolved-Joined st st' (unresolved e) v h = absurd (ground (arith, h))
    resolved-Joined st st' (resolved gateway netmask) v h =
        let check =
          check_authed_device st.users a.request.token a.request.device_id a.request.device_pub_key
            (lib.key_hex a.request.device_pub_key) clock.checked in
        elim (Option-cases check) [
          | inl passed ↦ (
            passed,
            gateway,
            netmask,
            refl,
            recorded-Joined st st' gateway netmask
                (get st.users.authed_devices
                  (authed_device_key a.request.token a.request.device_id))
                v (ground (arith, h, passed)),
          )
          | inr (x, failed) ↦ absurd (ground (arith, h, failed))
        ]

  valid_device : validate_registration_request a.request ≡ none → a.request.device_id ≢ ""
  unfolding validate_registration_request bad_length
  valid_device h = ground (arith, h, eq_iff a.request.device_id "")

  -- A registration that succeeds was asked for by a valid request for a group that the
  -- configuration knows, from a device that is authenticated in this group, with this key and not
  -- run out; where every index agrees with its clients, it leaves the device at its address, in
  -- the network of the group and of a user, and every index in agreement with the clients.
  pub registration_lem :
      (ip : ℕ) (identity : NetworkIdentity) (st st' : RegState)
      → AllConsistent st.network
      → handle_registration lib cfg a clock st ≡ some (registered ip identity, st')
      → (validate_registration_request a.request ≡ none)
        × (check_authed_device st.users a.request.token a.request.device_id a.request.device_pub_key
              (lib.key_hex a.request.device_pub_key)
              clock.checked
            ≡ none)
        × (gateway : Ip) × (netmask : List ℕ) × (resolve_group_network_config lib.parse_ip cfg
              a.request.token
            ≡ resolved gateway netmask)
        × Joined st' ip identity
  unfolding handle_registration join_valid
  registration_lem ip identity st st' v h =
      elim (Option-cases (validate_registration_request a.request)) [
        | inl valid ↦
            let (passed, gateway, netmask, known, left) =
              resolved-Joined ip identity (valid_device valid) st st'
                (resolve_group_network_config lib.parse_ip cfg a.request.token) v
                (ground (arith, h, valid)) in
            (valid, passed, gateway, netmask, known, left)
        | inr (x, invalid) ↦ absurd (ground (arith, h, invalid))
      ]
