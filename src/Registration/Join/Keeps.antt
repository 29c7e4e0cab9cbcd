-- ===== src/Registration/Join/Keeps.antt =====
-- A registration keeps the index true and leaves a device one address.
use sdl_control.Base.{
  ℕ, ◌≡◌, ◌≢◌, refl, String, Option, none, some, ◌==◌, nat_eq, string_eq, arith, Bool-cases, inl,
  inr, nat_beq_iff, ap, sym, ◌∙◌,
}
use sdl_control.Base.Map
use sdl_control.Base.Map.{get-put, get-delete}
use sdl_control.Network.Client.{ClientInfo}
use sdl_control.Network.Info.{NetworkInfo, find_client_ip_by_device_id}
use sdl_control.Network.Index.{new_network_info-IsIndexed, upsert_client-IsIndexed}
use sdl_control.Network.OneAddress.{
  IsConsistent, find-client, get-delete_client, new_network_info-IsComplete,
  upsert_client-IsComplete, delete_client-IsConsistent,
}
use sdl_control.Network.Alloc.{Sessions, Allocation, Allocated, allocated, failed, generate_ip}
use sdl_control.Network.Alloc.Deletes.{
  Sub, delete_client-Sub, generate_ip-Sub, generate_ip-IsConsistent, generate_ip_former,
}
use sdl_control.Network.Control.{NetworkControl, touch_cipher_session}
use sdl_control.Registration.Join.{
  Entrant, joined, or_zero_client, leave_old, enter, settle, join_network, network_or_new,
  touch_joined, register_client,
}

-- No client of the device but at this address (or at 0).
abbrev pub AtMostAt : String → ℕ → NetworkInfo → Type 0
AtMostAt d ip n =
    (j : ℕ) (c : ClientInfo)
    → Map.get n.clients j ≡ some c
    → c.device_id ≡ d
    → j ≢ 0
    → d ≢ ""
    → j ≡ ip

module _ (e : Entrant) (unix : ℕ) where
  leave_old-IsConsistent :
      (n : NetworkInfo) (s : Sessions) (ip old : ℕ)
      → IsConsistent n
      → IsConsistent (leave_old e n s ip old).0
  unfolding leave_old
  leave_old-IsConsistent n s ip old v = ground (arith, delete_client-IsConsistent n old v)

  leave_old-Sub : (n : NetworkInfo) (s : Sessions) (ip old : ℕ) → Sub n (leave_old e n s ip old).0
  unfolding leave_old
  leave_old-Sub n s ip old j c h = ground (arith, delete_client-Sub n n old (λ i d x. x) j c)

  -- Once the former address is left, the device has no client but at the new one.
  leave_old-AtMostAt :
      (n : NetworkInfo) (s : Sessions) (ip old : ℕ)
      → AtMostAt e.device_id old n
      → AtMostAt e.device_id ip (leave_old e n s ip old).0
  unfolding leave_old
  leave_old-AtMostAt n s ip old at j c h same j0 ne = ground (
    arith,
    at j c,
    delete_client-Sub n n old (λ i d x. x) j c,
    get-delete_client n old j,
    nat_beq_iff old j,
    nat_beq_iff old 0,
    nat_beq_iff old ip,
  )

  enter-IsConsistent :
      (n : NetworkInfo) (s : Sessions) (ip : ℕ)
      → IsConsistent n
      → AtMostAt e.device_id ip n
      → IsConsistent (enter e unix ip n s).network
  unfolding enter joined
  enter-IsConsistent n s ip v at =
      let client = joined e unix ip (or_zero_client (Map.get n.clients ip)) in
      let indexed = upsert_client-IsIndexed n ip client v.indexed in
      record {
        indexed = record { maps = indexed.maps; named = indexed.named };
        complete = upsert_client-IsComplete n ip v.complete client at;
      }

module _ (e : Entrant) (unix now : ℕ) (n : NetworkInfo) (s : Sessions) (v : IsConsistent n) where
  abbrev allocation : Allocation
  allocation = generate_ip n s now e.virtual_ip e.device_id e.allow_ip_change

  -- All clients of the device stand where the index says.
  generate_ip-AtMostAt :
      (ip old : ℕ)
      → allocation.result ≡ allocated ip old
      → AtMostAt e.device_id old allocation.network
  generate_ip-AtMostAt ip old h j c at same j0 ne =
      let before = generate_ip-Sub n s now e.virtual_ip e.device_id e.allow_ip_change j c at in
      let found = find-client n j c v.complete before (λ z. ne (sym same ∙ z)) j0 in
      let former = generate_ip_former n s now e.virtual_ip e.device_id e.allow_ip_change ip old h in
      let named = ap (find_client_ip_by_device_id n) same in cc

  settle-IsConsistent :
      (r : Allocated)
      → allocation.result ≡ r
      → IsConsistent (settle e unix r allocation.network allocation.sessions).network
  unfolding settle
  settle-IsConsistent (failed error old) h =
      generate_ip-IsConsistent n s now e.virtual_ip e.device_id e.allow_ip_change v
  settle-IsConsistent (allocated ip old) h =
      let m = allocation.network in
      let left = leave_old e m allocation.sessions ip old in
      enter-IsConsistent e unix left.0 left.1 ip
        (leave_old-IsConsistent e unix m allocation.sessions ip old
          (generate_ip-IsConsistent n s now e.virtual_ip e.device_id e.allow_ip_change v))
        (leave_old-AtMostAt e unix m allocation.sessions ip old (generate_ip-AtMostAt ip old h))

  -- If the index of a network agrees with its clients, so that no device has two addresses, it still
  -- does after a registration, whether this succeeds or finds no address.
  pub join_network-IsConsistent : IsConsistent (join_network e unix now n s).network
  unfolding join_network
  join_network-IsConsistent = settle-IsConsistent allocation.result refl

-- The networks whose index agrees with their clients
abbrev pub AllConsistent : NetworkControl → Type 0
AllConsistent nc =
    (key : String) (n : NetworkInfo) → Map.get nc.virtual_network key ≡ some n → IsConsistent n

pub network_or_new-IsConsistent :
    (e : Entrant) (found : Option NetworkInfo)
    → ((n : NetworkInfo) → found ≡ some n → IsConsistent n)
    → IsConsistent (network_or_new e found)
unfolding network_or_new
network_or_new-IsConsistent e none v = record {
  indexed = new_network_info-IsIndexed e.identity.key e.netmask e.gateway e.reserved_ips;
  complete = new_network_info-IsComplete e.identity.key e.netmask e.gateway e.reserved_ips;
}
network_or_new-IsConsistent e (some n) v = v n refl

touch_networks :
    (e : Entrant) (now : ℕ) (nc : NetworkControl) (at : Option ℕ)
    → (touch_joined e now nc at).virtual_network ≡ nc.virtual_network
unfolding touch_joined touch_cipher_session
touch_networks e now nc none = refl
touch_networks e now nc (some ip) = refl

pub register_networks :
    (nc : NetworkControl) (e : Entrant) (unix now : ℕ)
    → (register_client nc e unix now).1.virtual_network
      ≡ Map.put nc.virtual_network e.identity.key
          (join_network e unix now
            (network_or_new e (Map.get nc.virtual_network e.identity.key))
            nc.ip_sessions).network
unfolding register_client
register_networks nc e unix now =
    touch_networks e now _
      (join_network e unix now (network_or_new e (Map.get nc.virtual_network e.identity.key))
        nc.ip_sessions).joined_at

-- If in every network the index agrees with the clients, then so it is after the registration of any
-- device, in a network that stands or in a new one, whether this succeeds or fails.
pub register_client-AllConsistent :
    (nc : NetworkControl) (e : Entrant) (unix now : ℕ)
    → AllConsistent nc
    → AllConsistent (register_client nc e unix now).1
register_client-AllConsistent nc e unix now v key n h =
    let found = Map.get nc.virtual_network e.identity.key in
    let before = network_or_new e found in
    let j = join_network e unix now before nc.ip_sessions in
    let kept =
      join_network-IsConsistent e unix now before nc.ip_sessions
        (network_or_new-IsConsistent e found (v e.identity.key)) in
    let at =
      sym h
      ∙ (ap (λ m. Map.get m key) (register_networks nc e unix now)
          ∙ get-put nc.virtual_network e.identity.key j.network key) in
    elim (Bool-cases (e.identity.key == key)) [
      | inl same ↦ let is : n ≡ j.network = cc in rw is kept
      | inr other ↦ v key n (ground (arith, at))
    ]
