-- ===== src/DeviceList/Targets.antt =====
-- Who gets a push when a client changes.
use sdl_control.Base.{
  ℕ, ◌≡◌, refl, List, [], ◌∷◌, String, Option, none, some, ◌&&◌, not, ◌==◌, nat_eq, string_eq,
  if◌then◌else◌, arith, ap, nat_beq_iff,
}
use sdl_control.Base.Map.{Map, get, IsUnique}
use sdl_control.Network.Client.{ClientInfo}
use sdl_control.Network.Identity.{client_network_scope}
use sdl_control.Network.Info.{NetworkInfo}
use sdl_control.ExitNodes.{Approvals}
use sdl_control.DeviceList.{PushPacket, push_to, is_passed_over, pushes, pushes_from}

module _ {G : Type 0} (grants_for : String → ℕ → String → G) (approved : Approvals) where
  -- The push for an address
  abbrev pub push_for : List (PushPacket G) → ℕ → Option (PushPacket G)
  push_for [] ip = none
  push_for (p ∷ ps) ip = if p.target_ip == ip then some p else push_for ps ip

  abbrev pub due : NetworkInfo → ℕ → String → ℕ → Option ClientInfo → Option (PushPacket G)
  due n changed_ip scope ip none = none
  due n changed_ip scope ip (some c) =
      if is_passed_over grants_for approved n changed_ip scope ip c
      then none
      else some (push_to grants_for approved n ip c)

  module _ (n : NetworkInfo) (changed_ip : ℕ) where
    pushes_lem :
        (scope : String) (clients : Map ℕ ClientInfo) (ip : ℕ)
        → IsUnique clients
        → push_for (pushes grants_for approved n changed_ip scope clients) ip
          ≡ due n changed_ip scope ip (get clients ip)
    unfolding pushes get push_to
    pushes_lem scope [] ip u = refl
    pushes_lem scope ((k, c) ∷ rest) ip u = ground (
      arith,
      pushes_lem scope rest ip u.1,
      u.0,
      nat_beq_iff k ip,
      ap (get rest),
      same_passed,
      same_push,
    )
      where
        same_passed :
            k ≡ ip
            → is_passed_over grants_for approved n changed_ip scope k c
              ≡ is_passed_over grants_for approved n changed_ip scope ip c
        same_passed e = ap (λ x. is_passed_over grants_for approved n changed_ip scope x c) e

        same_push : k ≡ ip → push_to grants_for approved n k c ≡ push_to grants_for approved n ip c
        same_push e = ap (λ x. push_to grants_for approved n x c) e

    -- The push that a client should get
    abbrev pub expected : ClientInfo → ℕ → Option ClientInfo → Option (PushPacket G)
    expected changed ip none = none
    expected changed ip (some c) =
        if changed.control_online
          && not (ip == changed_ip)
          && c.control_online
          && client_network_scope c n.group == client_network_scope changed n.group
        then some (push_to grants_for approved n ip c)
        else none

    -- When a client that is online changes, exactly the other clients of its network that are online
    -- and share its scope get a push, with their own list; when it is offline, none does.
    pub pushes_from_lem :
        (changed : ClientInfo) (ip : ℕ)
        → IsUnique n.clients
        → push_for (pushes_from grants_for approved n changed_ip changed) ip
          ≡ expected changed ip (get n.clients ip)
    unfolding pushes_from is_passed_over
    pushes_from_lem changed ip u =
        ground (arith, pushes_lem (client_network_scope changed n.group) n.clients ip u)
