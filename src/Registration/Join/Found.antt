-- ===== src/Registration/Join/Found.antt =====
-- A registered device is found in its network.
use sdl_control.Base.{ℕ, ◌≡◌, ◌≢◌, refl, String, Option, some, string_eq, nat_eq, ap, ◌∙◌, beq_refl}
use sdl_control.Base.Map
use sdl_control.Base.Map.{get-put}
use sdl_control.Network.Client.{ClientInfo}
use sdl_control.Network.Info.{NetworkInfo, find_client_ip_by_device_id}
use sdl_control.Network.Index.{device_at, device_of}
use sdl_control.Network.Control.{NetworkControl}
use sdl_control.Registration.Join.{Entrant, joined, join_network, network_or_new, register_client}
use sdl_control.Registration.Join.Keeps.{
  AllConsistent, network_or_new-IsConsistent, register_networks,
}
use sdl_control.Registration.Join.Effect.{join_network_lem}

-- The network of the key has the device at the address, and finds it there.
abbrev pub FoundAt : NetworkControl → String → String → ℕ → Type 0
FoundAt nc key device_id ip =
    (n : NetworkInfo) × (Map.get nc.virtual_network key ≡ some n)
    × (device_at n ip ≡ some device_id)
    × (find_client_ip_by_device_id n device_id ≡ ip)

-- A registration that succeeds leaves the device at the address that it gives, in the network of its
-- identity.
pub register_client-FoundAt :
    (nc : NetworkControl) (e : Entrant) (unix now ip : ℕ)
    → AllConsistent nc
    → e.device_id ≢ ""
    → (register_client nc e unix now).0 ≡ some ip
    → FoundAt (register_client nc e unix now).1 e.identity.key e.device_id ip
unfolding register_client joined
register_client-FoundAt nc e unix now ip v ne h =
    let found = Map.get nc.virtual_network e.identity.key in
    let before = network_or_new e found in
    let kept = network_or_new-IsConsistent e found (v e.identity.key) in
    let j = join_network e unix now before nc.ip_sessions in
    let (old, reused, index, clients) =
      join_network_lem e unix now before nc.ip_sessions kept.indexed ip ne h in
    let here : Map.get j.network.clients ip ≡ some (joined e unix ip old) =
      clients ip ∙ rw (beq_refl ip) refl in
    (
      j.network,
      ap (λ m. Map.get m e.identity.key) (register_networks nc e unix now)
          ∙ (get-put nc.virtual_network e.identity.key j.network e.identity.key
              ∙ rw (beq_refl e.identity.key) refl),
      device_of_some here,
      index,
    )
  where
    device_of_some :
        {o : Option ClientInfo} {c : ClientInfo} → o ≡ some c → device_of o ≡ some c.device_id
    device_of_some p = rw p refl
