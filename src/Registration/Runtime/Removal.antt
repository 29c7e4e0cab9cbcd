-- ===== src/Registration/Runtime/Removal.antt =====
-- control/registration.go removeAuthedDeviceRuntimeState: what is left of the networks and the sessions.
use sdl_control.Base.{
  ℕ, ◌+◌, ◌%◌, ◌^◌, ◌≡◌, refl, sym, ap, ◌∙◌, List, [], ◌∷◌, String, Option, none, some, true, false,
  ◌==◌, nat_eq, string_eq, if◌then◌else◌, All, Bool-cases, inl, inr,
}
use text.Mathlib.TextEquality.{eq_iff}
use mathlib.Core.Option
use sdl_control.Base.Map.{Map, get, IsUnique}
use sdl_control.ExpireMap.Laws.{live}
use sdl_control.Network.Client.{ClientInfo}
use sdl_control.Network.Info.{NetworkInfo}
use sdl_control.Network.Alloc.{Sessions, key_eq}
use sdl_control.Network.Control.{Networks, NetworkControl}
use sdl_control.Users.State.{UmAuthDevice}
use sdl_control.Registration.Runtime.{
  each_network, over_networks, remove_authed_device_runtime_state,
}
use sdl_control.Registration.Runtime.OneNetwork.{
  named_at, any_named, client_in, named_in, frame_of, frame_after, body, body_lem,
}

module _ (records : List UmAuthDevice) where
  -- All networks
  networks_lem :
      (networks : Networks) (s : Sessions) (k : String) (j t : ℕ)
      → IsUnique networks
      → All (λ e. IsUnique e.1.clients) networks
      → (client_in (get (each_network (body records) networks s).0 k) j
          ≡ (if named_in records (get networks k) j then none else client_in (get networks k) j))
        × (live (each_network (body records) networks s).1 t (record { id = k; ip = j }) ≡ (
            if named_in records (get networks k) j
            then none
            else live s t (record { id = k; ip = j })))
        × (Option.map frame_of (get (each_network (body records) networks s).0 k)
            ≡ Option.map (frame_after records) (get networks k))
  unfolding each_network get
  networks_lem [] s k j t u us = (refl, refl, refl)
  networks_lem ((key, n) ∷ rest) s k j t u us =
      let here = body_lem records key n s k j t us.0 in
      let later = networks_lem rest (body records key n s).sessions k j t u.1 us.1 in
      elim (Bool-cases (key == k)) [
        | inl e ↦ rw e (here.0, later.1 ∙ rw (gone k e) (here.1 ∙ rw e refl), ap some here.2)
        | inr e ↦ rw e (
          later.0,
          later.1
              ∙ ap (λ o. if named_in records (get rest k) j then none else o) (here.1 ∙ rw e refl),
          later.2,
        )
      ]
    where
      gone : (x : String) → key == x ≡ true → get rest x ≡ none
      gone x e = sym (ap (get rest) ((eq_iff key x).0 e)) ∙ u.0

-- With no record there is nothing to remove.
none_named :
    (o : Option NetworkInfo) (j : ℕ)
    → (named_in [] o j ≡ false) × (Option.map frame_of o ≡ Option.map (frame_after []) o)
none_named none j = (refl, refl)
none_named (some n) j = (at (get n.clients j), ap some (same n.clients))
  where
    at : (c : Option ClientInfo) → named_at [] n.group c ≡ false
    at none = refl
    at (some c) = refl

    any : (entries : Map ℕ ClientInfo) → any_named [] n.group entries ≡ false
    any [] = refl
    any ((ip, c) ∷ rest) = rw (any rest) refl

    same :
        (entries : Map ℕ ClientInfo)
        → frame_of n ≡ record (frame_of n) {
          epoch = if any_named [] n.group entries then (n.epoch + 1) % 2 ^ 64 else n.epoch;
        }
    same entries = rw (any entries) refl

-- The removal of authenticated devices, over networks none of which, and no address in which, stands
-- twice: in every network, exactly the clients whose group and device one of the records names are
-- gone, and so are the sessions of their addresses, under the key of the network; every other client
-- and every other session of such a key is as it was. The epoch of a network moves on by one, modulo
-- 2 ^ 64, exactly if it lost a client; nothing else of a network changes but its index.
pub removal_lem :
    (nc : NetworkControl) (records : List UmAuthDevice) (k : String) (j t : ℕ)
    → IsUnique nc.virtual_network
    → All (λ e. IsUnique e.1.clients) nc.virtual_network
    → (client_in (get (remove_authed_device_runtime_state nc records).virtual_network k) j ≡ (
        if named_in records (get nc.virtual_network k) j
        then none
        else client_in (get nc.virtual_network k) j))
      × (live
            (remove_authed_device_runtime_state nc records).ip_sessions
            t
            (record { id = k; ip = j })
          ≡ (if named_in records (get nc.virtual_network k) j
              then none
              else live nc.ip_sessions t (record { id = k; ip = j })))
      × (Option.map frame_of (get (remove_authed_device_runtime_state nc records).virtual_network k)
          ≡ Option.map (frame_after records) (get nc.virtual_network k))
unfolding remove_authed_device_runtime_state over_networks
removal_lem nc [] k j t u us =
    let none_is = none_named (get nc.virtual_network k) j in
    (rw none_is.0 refl, rw none_is.0 refl, none_is.1)
removal_lem nc (r ∷ rs) k j t u us =
    networks_lem (r ∷ rs) nc.virtual_network nc.ip_sessions k j t u us
