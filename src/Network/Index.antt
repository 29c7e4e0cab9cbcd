-- ===== src/Network/Index.antt =====
-- The index from devices to addresses agrees with the clients.
use sdl_control.Base.{
  ℕ, ◌≡◌, ◌≢◌, refl, List, String, Option, none, some, nat_eq, string_eq, arith, nat_beq_iff,
  Option-cases, inl, inr, beq_refl, ap,
}
use text.Mathlib.TextEquality.{eq_iff}
use sdl_control.Base.Map.{Map, get, get-put, get-delete}
use sdl_control.Protocol.Ip.{Ip}
use sdl_control.Network.Client.{ClientInfo}
use sdl_control.Network.Info.{
  NetworkInfo, new_network_info, upsert_client, delete_client, delete_found, unmap_existing, unmap,
  find_client_ip_by_device_id, or_zero,
}

abbrev pub device_of : Option ClientInfo → Option String
device_of none = none
device_of (some c) = some c.device_id

-- The device whose client stands at an address.
abbrev pub device_at : NetworkInfo → ℕ → Option String
device_at n ip = device_of (get n.clients ip)

-- What the index says of a device is so, and it says nothing of the empty device id.
pub record IsIndexed (n : NetworkInfo) : Type 0 where
  pub maps :
      (d : String) (ip : ℕ) → get n.client_ips_by_device_id d ≡ some ip → device_at n ip ≡ some d
  pub named : get n.client_ips_by_device_id "" ≡ none

-- What unmap leaves of the index.
unmap_keeps :
    (index : Map String ℕ) (d : String) (ip : ℕ) (j : String) (k : ℕ)
    → get (unmap index d ip) j ≡ some k
    → (get index j ≡ some k) × (¬ ((d ≡ j) × (k ≡ ip)))
unfolding unmap
unmap_keeps index d ip j k h =
    ground (arith, get-delete index d j, eq_iff d j, nat_beq_iff k ip, get-at d)
  where
    get-at : (x : String) → d ≡ x → get index d ≡ get index x
    get-at x e = ap (get index) e

-- Only the client that stays may still be indexed at `ip`.
existing_keeps :
    (index : Map String ℕ) (found : Option ClientInfo) (dev : String) (ip : ℕ) (d : String) (k : ℕ)
    → (k ≡ ip → device_of found ≡ some d)
    → d ≢ ""
    → get (unmap_existing index found dev ip) d ≡ some k
    → (get index d ≡ some k) × (k ≡ ip → d ≡ dev)
unfolding unmap_existing
existing_keeps index none dev ip d k at ne h = ground (arith)
existing_keeps index (some c) dev ip d k at ne h =
    ground
      (arith, unmap_keeps index c.device_id ip d k, eq_iff c.device_id "", eq_iff c.device_id dev)

module _ (n : NetworkInfo) (ip : ℕ) (client : ClientInfo) (v : IsIndexed n) where
  indexed_ne-nil : (d : String) (k : ℕ) → get n.client_ips_by_device_id d ≡ some k → d ≢ ""
  indexed_ne-nil d k h e = cc (v.named, ap (get n.client_ips_by_device_id) e)

  unmap_existing_sub :
      (found : Option ClientInfo) (dev d : String) (k : ℕ)
      → get (unmap_existing n.client_ips_by_device_id found dev ip) d ≡ some k
      → get n.client_ips_by_device_id d ≡ some k
  unfolding unmap_existing
  unmap_existing_sub none dev d k h = h
  unmap_existing_sub (some c) dev d k h =
      ground (arith, unmap_keeps n.client_ips_by_device_id c.device_id ip d k)

  upsert_maps :
      (d : String) (k : ℕ)
      → get (upsert_client n ip client).client_ips_by_device_id d ≡ some k
      → device_at (upsert_client n ip client) k ≡ some d
  unfolding upsert_client
  upsert_maps d k h =
      let found = get n.clients ip in
      let index = n.client_ips_by_device_id in
      let rest = unmap_existing index found client.device_id ip in
      ground (
        arith,
        get-put rest client.device_id ip d,
        get-put n.clients ip client k,
        unmap_existing_sub found client.device_id d k,
        existing_keeps index found client.device_id ip d k,
        v.maps d k,
        indexed_ne-nil d k,
        eq_iff client.device_id d,
        eq_iff client.device_id "",
        nat_beq_iff ip k,
        clients_at k,
      )
    where
      clients_at : (x : ℕ) → x ≡ ip → get n.clients x ≡ get n.clients ip
      clients_at x e = ap (get n.clients) e

  upsert_named : get (upsert_client n ip client).client_ips_by_device_id "" ≡ none
  unfolding upsert_client
  upsert_named =
      let index = n.client_ips_by_device_id in
      let rest = unmap_existing index (get n.clients ip) client.device_id ip in
      elim (Option-cases (get rest "")) [
        | inl e ↦ ground (arith, get-put rest client.device_id ip "", eq_iff client.device_id "")
        | inr (k, e) ↦ absurd (
            indexed_ne-nil "" k (unmap_existing_sub (get n.clients ip) client.device_id "" k e)
              refl)
      ]

  -- If what the index says of the devices is true, it is still true after a client was stored at
  -- any address.
  pub upsert_client-IsIndexed : IsIndexed (upsert_client n ip client)
  upsert_client-IsIndexed = record { maps = upsert_maps; named = upsert_named }

  delete_found_maps :
      (found : Option ClientInfo) (d : String) (k : ℕ)
      → get n.clients ip ≡ found
      → get (delete_found n ip found).client_ips_by_device_id d ≡ some k
      → device_at (delete_found n ip found) k ≡ some d
  unfolding delete_found
  delete_found_maps none d k e h = v.maps d k h
  delete_found_maps (some c) d k e h = ground (
    arith,
    unmap_keeps n.client_ips_by_device_id c.device_id ip d k,
    get-delete n.clients ip k,
    v.maps d k,
    indexed_ne-nil d k,
    eq_iff c.device_id "",
    nat_beq_iff ip k,
    clients_at k,
  )
    where
      clients_at : (x : ℕ) → x ≡ ip → get n.clients x ≡ get n.clients ip
      clients_at x p = ap (get n.clients) p

  delete_found_named :
      (found : Option ClientInfo) → get (delete_found n ip found).client_ips_by_device_id "" ≡ none
  unfolding delete_found unmap
  delete_found_named none = v.named
  delete_found_named (some c) =
      ground (arith, v.named, get-delete n.client_ips_by_device_id c.device_id "")

  -- If what the index says of the devices is true, it is still true after the client at any address
  -- was deleted.
  pub delete_client-IsIndexed : IsIndexed (delete_client n ip)
  unfolding delete_client
  delete_client-IsIndexed = record {
    maps = λ d k h. delete_found_maps (get n.clients ip) d k refl h;
    named = delete_found_named (get n.clients ip);
  }

-- A network starts with a true index.
pub new_network_info-IsIndexed :
    (group : String) (netmask : List ℕ) (gateway : Ip) (reserved : Map ℕ String)
    → IsIndexed (new_network_info group netmask gateway reserved)
unfolding new_network_info get
new_network_info-IsIndexed group netmask gateway reserved = record {
  maps = λ d k h. cc;
  named = refl;
}

module _ (n : NetworkInfo) (ip : ℕ) (client : ClientInfo) where
  -- A stored client is found by its address and, if it has a device id, by that id too.
  pub find-upsert :
      (get (upsert_client n ip client).clients ip ≡ some client)
      × (client.device_id ≢ ""
          → find_client_ip_by_device_id (upsert_client n ip client) client.device_id ≡ ip)
  unfolding upsert_client find_client_ip_by_device_id
  find-upsert =
      let rest = unmap_existing n.client_ips_by_device_id (get n.clients ip) client.device_id ip in
      ground (
        arith,
        get-put n.clients ip client ip,
        get-put rest client.device_id ip client.device_id,
        beq_refl client.device_id,
        nat_beq_iff ip ip,
        eq_iff client.device_id "",
      )

-- The address that the index gives for a device is the address of a client of that device.
pub find_client_ip_by_device_id_lem :
    (n : NetworkInfo) (d : String) (ip : ℕ)
    → IsIndexed n
    → find_client_ip_by_device_id n d ≡ ip
    → ip ≢ 0
    → device_at n ip ≡ some d
unfolding find_client_ip_by_device_id or_zero
find_client_ip_by_device_id_lem n d ip v h ne = ground (arith, v.maps d ip)
