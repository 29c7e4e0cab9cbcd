-- ===== src/Network/Control/Departures.antt =====
-- LeaveByRemoteAddr in one network: what it leaves in the network and in the sessions, as a whole.
use sdl_control.Base.{
  ℕ, ◌+◌, ◌%◌, ◌^◌, ◌≡◌, ◌≢◌, refl, sym, ap, ◌∙◌, [], ◌∷◌, String, some, Bool, true, false, ◌||◌,
  ◌==◌, nat_eq, string_eq, if◌then◌else◌, arith, beq_refl, Bool-cases, inl, inr, nat_beq_iff,
}
use text.Mathlib.TextEquality.{eq_iff}
use sdl_control.Base.Map
use sdl_control.Base.Map.{Map, IsUnique, get-put}
use sdl_control.ExpireMap.Laws.{live}
use sdl_control.Network.Client.{ClientInfo}
use sdl_control.Network.Info.{NetworkInfo, upsert_client, unmap_existing}
use sdl_control.Network.Alloc.{Sessions, remote, key_eq}
use sdl_control.Network.Control.{
  leaves, gone, depart, Departure, leave_clients, leave_network, bump_epoch,
}
use sdl_control.Network.Control.Leave.{
  is_leaving, departed, lease_until, session_of, leaves_lem, depart_clients, leave_network_lem,
}

-- The index names every client that has a device id.
abbrev pub IsNamed : Map ℕ ClientInfo → Map String ℕ → Type 0
IsNamed clients index =
    (ip : ℕ) (c : ClientInfo)
    → Map.get clients ip ≡ some c
    → c.device_id ≢ ""
    → Map.get index c.device_id ≡ some ip

abbrev pub any_leaving : String → Map ℕ ClientInfo → Bool
any_leaving addr [] = false
any_leaving addr ((ip, c) ∷ rest) = is_leaving addr (some c) || any_leaving addr rest

-- A network with other clients and another index
abbrev framed : NetworkInfo → Map ℕ ClientInfo → Map String ℕ → NetworkInfo
framed n clients index = record n { clients = clients; client_ips_by_device_id = index }

index_put :
    (index : Map String ℕ) (device_id : String) (ip : ℕ) (x : String)
    → Map.get index device_id ≡ some ip
    → Map.get (Map.put index device_id ip) x ≡ Map.get index x
index_put index device_id ip x e =
    ground (arith, get-put index device_id ip x, e, eq_iff device_id x, same x)
  where
    same : (y : String) → device_id ≡ y → Map.get index device_id ≡ Map.get index y
    same y p = ap (Map.get index) p

-- A client that is stored again under its device id and its address leaves the index as it was.
upsert_index :
    (n : NetworkInfo) (ip : ℕ) (c new : ClientInfo) (x : String)
    → new.device_id ≡ c.device_id
    → Map.get n.clients ip ≡ some c
    → (c.device_id ≢ "" → Map.get n.client_ips_by_device_id c.device_id ≡ some ip)
    → Map.get (upsert_client n ip new).client_ips_by_device_id x
      ≡ Map.get n.client_ips_by_device_id x
unfolding upsert_client unmap_existing
upsert_index n ip c new x same held named = ground (
  arith,
  held,
  same,
  beq_refl c.device_id,
  eq_iff c.device_id "",
  index_put n.client_ips_by_device_id c.device_id ip x,
  named,
)

-- The epoch is all that bump_epoch changes.
bump_epoch_lem :
    (n : NetworkInfo) (d : Departure) (left : Bool)
    → d.network ≡ framed n d.network.clients d.network.client_ips_by_device_id
    → d.changed ≡ left
    → ((bump_epoch d).clients ≡ d.network.clients)
      × ((bump_epoch d).client_ips_by_device_id ≡ d.network.client_ips_by_device_id)
      × (bump_epoch d ≡ record n {
        epoch = if left then (n.epoch + 1) % 2 ^ 64 else n.epoch;
        clients = (bump_epoch d).clients;
        client_ips_by_device_id = (bump_epoch d).client_ips_by_device_id;
      })
unfolding bump_epoch
bump_epoch_lem n d true same changed = rw changed (
  refl,
  refl,
  ap {B = NetworkInfo} (λ (m : NetworkInfo). record m { epoch = (m.epoch + 1) % 2 ^ 64 }) same,
)
bump_epoch_lem n d false same changed = rw changed (refl, refl, same)

module _ (addr : String) (unix now : ℕ) where
  depart_frame :
      (d : Departure) (ip : ℕ) (c : ClientInfo) (clients : Map ℕ ClientInfo) (index : Map String ℕ)
      → (framed (depart addr unix now d ip c).network clients index
          ≡ framed d.network clients index)
        × ((depart addr unix now d ip c).changed ≡ (d.changed || is_leaving addr (some c)))
  unfolding depart upsert_client
  depart_frame d ip c clients index = elim (Bool-cases (leaves addr c)) [
    | inl e ↦ rw (sym (leaves_lem addr c), e) (refl, ground arith)
    | inr e ↦ rw (sym (leaves_lem addr c), e) (refl, ground arith)
  ]

  depart_index :
      (d : Departure) (ip : ℕ) (c : ClientInfo) (x : String)
      → Map.get d.network.clients ip ≡ some c
      → (c.device_id ≢ "" → Map.get d.network.client_ips_by_device_id c.device_id ≡ some ip)
      → Map.get (depart addr unix now d ip c).network.client_ips_by_device_id x
        ≡ Map.get d.network.client_ips_by_device_id x
  unfolding depart gone
  depart_index d ip c x held named = elim (Bool-cases (leaves addr c)) [
    | inl e ↦ rw e (upsert_index d.network ip c (gone unix c) x refl held named)
    | inr e ↦ rw e refl
  ]

  -- The loop changes nothing but the clients and the index, and notes whether it changed anything.
  clients_frame :
      (entries : Map ℕ ClientInfo) (d : Departure) (clients : Map ℕ ClientInfo)
      (index : Map String ℕ)
      → (framed (leave_clients entries addr unix now d).network clients index
          ≡ framed d.network clients index)
        × ((leave_clients entries addr unix now d).changed
            ≡ (d.changed || any_leaving addr entries))
  unfolding leave_clients
  clients_frame [] d clients index = (refl, ground arith)
  clients_frame ((ip, c) ∷ rest) d clients index =
      let later = clients_frame rest (depart addr unix now d ip c) clients index in
      let here = depart_frame d ip c clients index in
      (later.0 ∙ here.0, ground (arith, later.1, here.1))

  clients_index :
      (entries : Map ℕ ClientInfo) (d : Departure) (x : String)
      → IsUnique entries
      → ((j : ℕ) (c : ClientInfo)
          → Map.get entries j ≡ some c
          → Map.get d.network.clients j ≡ some c)
      → IsNamed entries d.network.client_ips_by_device_id
      → Map.get (leave_clients entries addr unix now d).network.client_ips_by_device_id x
        ≡ Map.get d.network.client_ips_by_device_id x
  unfolding leave_clients Map.get
  clients_index [] d x u held named = refl
  clients_index ((ip, c) ∷ rest) d x u held named =
      clients_index rest (depart addr unix now d ip c) x u.1 still_held still_named ∙ at x
    where
      first : Map.get ((ip, c) ∷ rest) ip ≡ some c
      first = ground (arith, beq_refl ip)

      at :
          (y : String)
          → Map.get (depart addr unix now d ip c).network.client_ips_by_device_id y
            ≡ Map.get d.network.client_ips_by_device_id y
      at y = depart_index d ip c y (held ip c first) (named ip c first)

      other : (j : ℕ) (b : ClientInfo) → Map.get rest j ≡ some b → ip == j ≡ false
      other j b e = elim (Bool-cases (ip == j)) [
        | inl p ↦ absurd (ground (arith, u.0, e, ap (Map.get rest) ((nat_beq_iff ip j).0 p)))
        | inr p ↦ p
      ]

      here :
          (j : ℕ) (b : ClientInfo) → Map.get rest j ≡ some b → Map.get ((ip, c) ∷ rest) j ≡ some b
      here j b e = rw (Map.get, other j b e) e

      still_held :
          (j : ℕ) (b : ClientInfo)
          → Map.get rest j ≡ some b
          → Map.get (depart addr unix now d ip c).network.clients j ≡ some b
      still_held j b e =
          depart_clients addr unix now d ip c j ∙ ground (arith, other j b e, held j b (here j b e))

      still_named : IsNamed rest (depart addr unix now d ip c).network.client_ips_by_device_id
      still_named j b e some_id = at b.device_id ∙ named j b (here j b e) some_id

  -- When a remote end leaves a network in which no address stands twice and the index names every client
  -- with a device id, then every client that was online at that remote end is offline, seen last at this
  -- time, with its data plane, its status and its channel mode reset, and a session holds its address as
  -- long as the sessions live. Every other client, the network's other sessions, the index and all else
  -- of the network are as they were, but for the epoch that is stored: it moves on by one, modulo 2 ^ 64,
  -- exactly if a client left.
  pub departures_lem :
      (n : NetworkInfo) (s : Sessions) (j t : ℕ) (device_id : String)
      → IsUnique n.clients
      → IsNamed n.clients n.client_ips_by_device_id
      → let d = leave_network n s addr unix now in
        (Map.get (bump_epoch d).clients j ≡ departed addr unix (Map.get n.clients j))
        × (live d.sessions t (session_of n.group j) ≡ (
            if is_leaving addr (Map.get n.clients j)
            then lease_until s.ttl now t (remote addr)
            else live s t (session_of n.group j)))
        × (Map.get (bump_epoch d).client_ips_by_device_id device_id
            ≡ Map.get n.client_ips_by_device_id device_id)
        × (bump_epoch d ≡ record n {
          epoch = if any_leaving addr n.clients then (n.epoch + 1) % 2 ^ 64 else n.epoch;
          clients = (bump_epoch d).clients;
          client_ips_by_device_id = (bump_epoch d).client_ips_by_device_id;
        })
  unfolding leave_network
  departures_lem n s j t device_id u named =
      let start : Departure = record { network = n; sessions = s; changed = false } in
      let frame = clients_frame n.clients start in
      let d = leave_network n s addr unix now in
      let bumped =
        bump_epoch_lem n d (any_leaving addr n.clients)
          (frame d.network.clients d.network.client_ips_by_device_id).0
          (frame n.clients n.client_ips_by_device_id).1 in
      let left = leave_network_lem addr unix now n s j t u in
      (
        ap (λ m. Map.get m j) bumped.0 ∙ left.0,
        left.1,
        ap (λ m. Map.get m device_id) bumped.1
            ∙ clients_index n.clients start device_id u (λ i c e. e) named,
        bumped.2,
      )
