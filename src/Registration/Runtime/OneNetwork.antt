-- ===== src/Registration/Runtime/OneNetwork.antt =====
-- control/registration.go removeAuthedDeviceRuntimeState: what it does in one network.
use sdl_control.Base.{
  ℕ, ◌+◌, ◌%◌, ◌^◌, ◌≡◌, refl, ap, ◌∙◌, List, [], ◌∷◌, String, Option, none, some, Bool, true,
  false, ◌&&◌, ◌||◌, ◌==◌, nat_eq, string_eq, if◌then◌else◌, arith, Bool-cases, inl, inr,
  nat_beq_iff,
}
use sdl_control.Base.Map.{Map, get, IsUnique}
use sdl_control.ExpireMap.Laws.{live, live-delete}
use sdl_control.Network.Client.{ClientInfo}
use sdl_control.Network.Identity.{client_auth_group}
use sdl_control.Network.Info.{NetworkInfo, delete_client, delete_found}
use sdl_control.Network.Alloc.{Sessions, key_eq}
use sdl_control.Network.Control.{Departure, bump_epoch}
use sdl_control.Users.State.{UmAuthDevice, authed_device_key}
use sdl_control.Registration.Runtime.{
  Test, each_client, each_of_network, names, is_removed, remove_client,
}
use sdl_control.Registration.Runtime.Effects.{becomes, remove_runtime_lem}

-- A record names the client, by the key of its group and device.
abbrev pub is_named : List UmAuthDevice → String → ClientInfo → Bool
is_named [] group c = false
is_named (r ∷ rs) group c =
    (authed_device_key r.group_name r.device_id
      == authed_device_key (client_auth_group c group) c.device_id)
    || is_named rs group c

abbrev pub named_at : List UmAuthDevice → String → Option ClientInfo → Bool
named_at records group none = false
named_at records group (some c) = is_named records group c

abbrev pub any_named : List UmAuthDevice → String → Map ℕ ClientInfo → Bool
any_named records group [] = false
any_named records group ((ip, c) ∷ rest) = is_named records group c || any_named records group rest

-- The client at an address of a network, where there is one, and whether a record names it
abbrev pub client_in : Option NetworkInfo → ℕ → Option ClientInfo
client_in none j = none
client_in (some n) j = get n.clients j

abbrev pub named_in : List UmAuthDevice → Option NetworkInfo → ℕ → Bool
named_in records none j = false
named_in records (some n) j = named_at records n.group (get n.clients j)

-- A network but for its clients and its index
abbrev pub frame_of : NetworkInfo → NetworkInfo
frame_of n = record n { clients = []; client_ips_by_device_id = [] }

-- The same once clients were removed
abbrev pub frame_after : List UmAuthDevice → NetworkInfo → NetworkInfo
frame_after records n = record (frame_of n) {
  epoch = if any_named records n.group n.clients then (n.epoch + 1) % 2 ^ 64 else n.epoch;
}

is_removed_lem :
    (group : String) (records : List UmAuthDevice) (c : ClientInfo)
    → is_removed group records c ≡ is_named records group c
unfolding is_removed names
is_removed_lem group [] c = refl
is_removed_lem group (r ∷ rs) c = rw (is_removed_lem group rs c) refl

delete_client_bare : (n : NetworkInfo) (ip : ℕ) → frame_of (delete_client n ip) ≡ frame_of n
unfolding delete_client delete_found
delete_client_bare n ip = by_client (get n.clients ip)
  where
    by_client : (o : Option ClientInfo) → frame_of (delete_found n ip o) ≡ frame_of n
    by_client none = refl
    by_client (some c) = refl

module _ (test : Test) where
  any_test : Map ℕ ClientInfo → Bool
  any_test [] = false
  any_test ((ip, c) ∷ rest) = test c || any_test rest

  is_test : Option ClientInfo → Bool
  is_test none = false
  is_test (some c) = test c

module _ (test : Test) (key : String) where
  loop_bare :
      (entries : Map ℕ ClientInfo) (d : Departure)
      → (frame_of (each_client test (remove_client key) entries d).network ≡ frame_of d.network)
        × ((each_client test (remove_client key) entries d).changed
            ≡ (d.changed || any_test test entries))
  unfolding each_client remove_client any_test
  loop_bare [] d = (refl, ground arith)
  loop_bare ((ip, c) ∷ rest) d = elim (Bool-cases (test c)) [
    | inl e ↦
        let later = loop_bare rest (remove_client key ip c d) in
        rw (each_client, e) (later.0 ∙ delete_client_bare d.network ip, ground (arith, later.1))
    | inr e ↦ rw (each_client, e) (loop_bare rest d)
  ]

  loop_sessions :
      (entries : Map ℕ ClientInfo) (d : Departure) (k : String) (j t : ℕ)
      → IsUnique entries
      → live (each_client test (remove_client key) entries d).sessions t (record { id = k; ip = j })
        ≡ (if key == k && is_test test (get entries j)
            then none
            else live d.sessions t (record { id = k; ip = j }))
  unfolding each_client remove_client is_test get
  loop_sessions [] d k j t u = ground arith
  loop_sessions ((ip, c) ∷ rest) d k j t u = ground (
    arith,
    loop_sessions rest (remove_client key ip c d) k j t u.1,
    loop_sessions rest d k j t u.1,
    live-delete d.sessions t (record { id = key; ip = ip }) (record { id = k; ip = j }),
    nat_beq_iff ip j,
    u.0,
    same j,
  )
    where
      same : (x : ℕ) → ip ≡ x → get rest ip ≡ get rest x
      same x p = ap (get rest) p

module _ (records : List UmAuthDevice) where
  test_named :
      (group : String) (o : Option ClientInfo)
      → is_test (is_removed group records) o ≡ named_at records group o
  unfolding is_test
  test_named group none = refl
  test_named group (some c) = is_removed_lem group records c

  any_test_named :
      (group : String) (entries : Map ℕ ClientInfo)
      → any_test (is_removed group records) entries ≡ any_named records group entries
  unfolding any_test
  any_test_named group [] = refl
  any_test_named group ((ip, c) ∷ rest) =
      rw (is_removed_lem group records c, any_test_named group rest) refl

  removed_lem :
      (group : String) (o : Option ClientInfo)
      → becomes (is_removed group records) (λ c. none) o
        ≡ (if named_at records group o then none else o)
  removed_lem group none = refl
  removed_lem group (some c) = rw (is_removed_lem group records c) refl

  bump_bare :
      (d : Departure) (removed : Bool)
      → d.changed ≡ removed
      → frame_of (bump_epoch d) ≡ record (frame_of d.network) {
        epoch = if removed then (d.network.epoch + 1) % 2 ^ 64 else d.network.epoch;
      }
  unfolding bump_epoch
  bump_bare d true e = rw e refl
  bump_bare d false e = rw e refl

  abbrev pub body : String → NetworkInfo → Sessions → Departure
  body key n s = each_of_network (is_removed n.group records) (remove_client key) n s

  -- One network
  pub body_lem :
      (key : String) (n : NetworkInfo) (s : Sessions) (k : String) (j t : ℕ)
      → IsUnique n.clients
      → (get (body key n s).network.clients j
          ≡ (if named_at records n.group (get n.clients j) then none else get n.clients j))
        × (live (body key n s).sessions t (record { id = k; ip = j }) ≡ (
            if key == k && named_at records n.group (get n.clients j)
            then none
            else live s t (record { id = k; ip = j })))
        × (frame_of (body key n s).network ≡ frame_after records n)
  unfolding each_of_network
  body_lem key n s k j t u =
      let test = is_removed n.group records in
      let start : Departure = record { network = n; sessions = s; changed = false } in
      let d = each_client test (remove_client key) n.clients start in
      let removed = any_named records n.group n.clients in
      let looped = loop_bare test key n.clients start in
      let moved : NetworkInfo → NetworkInfo =
        λ m. record m { epoch = if removed then (m.epoch + 1) % 2 ^ 64 else m.epoch } in
      (
        (remove_runtime_lem records key n s j u).0 ∙ removed_lem n.group (get n.clients j),
        loop_sessions test key n.clients start k j t u
            ∙ rw (test_named n.group (get n.clients j)) refl,
        bump_bare d removed (looped.1 ∙ any_test_named n.group n.clients) ∙ ap moved looped.0,
      )
