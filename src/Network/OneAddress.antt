-- ===== src/Network/OneAddress.antt =====
-- control/ip.go, with the index: no device has two addresses.
use sdl_control.Base.{
  ℕ, ◌==◌, if◌then◌else◌, ◌≡◌, ◌≢◌, refl, List, String, Option, none, some, nat_eq, string_eq,
  arith, nat_beq_iff, ap, ◌∙◌,
}
use text.Mathlib.TextEquality.{eq_iff}
use sdl_control.Base.Map.{Map, get, get-put, get-delete}
use sdl_control.Protocol.Ip.{Ip}
use sdl_control.Network.Client.{ClientInfo, zero_client}
use sdl_control.Network.Info.{
  NetworkInfo, new_network_info, upsert_client, delete_client, delete_found, unmap_existing, unmap,
  find_client_ip_by_device_id, or_zero,
}
use sdl_control.Network.Index.{IsIndexed, delete_client-IsIndexed}

-- The index names every client that has a device id and an address other than 0.
abbrev pub IsComplete : NetworkInfo → Type 0
IsComplete n =
    (ip : ℕ) (c : ClientInfo)
    → get n.clients ip ≡ some c
    → c.device_id ≢ ""
    → ip ≢ 0
    → get n.client_ips_by_device_id c.device_id ≡ some ip

-- The index and the clients tell the same.
pub record IsConsistent (n : NetworkInfo) : Type 0 where
  pub indexed : IsIndexed n
  pub complete : IsComplete n

-- Over a network whose index agrees with its clients, two clients of one device have one address.
pub one_address :
    (n : NetworkInfo) (i j : ℕ) (c d : ClientInfo)
    → IsConsistent n
    → get n.clients i ≡ some c
    → get n.clients j ≡ some d
    → c.device_id ≡ d.device_id
    → c.device_id ≢ ""
    → i ≢ 0
    → j ≢ 0
    → i ≡ j
one_address n i j c d v ci dj same ne i0 j0 =
    let here = v.complete i c ci ne i0 in
    let there = v.complete j d dj (λ z. ne (same ∙ z)) j0 in
    let index = ap (get n.client_ips_by_device_id) same in cc

-- The device of a client is found at its address.
pub find-client :
    (n : NetworkInfo) (ip : ℕ) (c : ClientInfo)
    → IsComplete n
    → get n.clients ip ≡ some c
    → c.device_id ≢ ""
    → ip ≢ 0
    → find_client_ip_by_device_id n c.device_id ≡ ip
unfolding find_client_ip_by_device_id or_zero
find-client n ip c v h ne i0 = ground (arith, v ip c h ne i0, eq_iff c.device_id "")

-- A deletion removes the client at the address, and no other.
pub get-delete_client :
    (n : NetworkInfo) (ip j : ℕ)
    → get (delete_client n ip).clients j ≡ (if ip == j then none else get n.clients j)
unfolding delete_client delete_found
get-delete_client n ip j = ground (arith, get-delete n.clients ip j, nat_beq_iff ip j, same j)
  where
    same : (x : ℕ) → ip ≡ x → get n.clients ip ≡ get n.clients x
    same x e = ap (get n.clients) e

pub new_network_info-IsComplete :
    (group : String) (netmask : List ℕ) (gateway : Ip) (reserved : Map ℕ String)
    → IsComplete (new_network_info group netmask gateway reserved)
unfolding new_network_info get
new_network_info-IsComplete group netmask gateway reserved ip c h = absurd (cc)

-- What unmap leaves alone.
unmap_leaves :
    (index : Map String ℕ) (d : String) (ip : ℕ) (j : String) (k : ℕ)
    → get index j ≡ some k
    → k ≢ ip
    → get (unmap index d ip) j ≡ some k
unfolding unmap
unmap_leaves index d ip j k h ne =
    ground (arith, get-delete index d j, eq_iff d j, nat_beq_iff k ip, get-at d)
  where
    get-at : (x : String) → d ≡ x → get index d ≡ get index x
    get-at x e = ap (get index) e

existing_leaves :
    (index : Map String ℕ) (found : Option ClientInfo) (dev : String) (ip : ℕ) (j : String) (k : ℕ)
    → get index j ≡ some k
    → k ≢ ip
    → get (unmap_existing index found dev ip) j ≡ some k
unfolding unmap_existing
existing_leaves index none dev ip j k h ne = h
existing_leaves index (some e) dev ip j k h ne =
    ground (arith, unmap_leaves index e.device_id ip j k)

module _ (n : NetworkInfo) (ip : ℕ) (v : IsComplete n) where
  delete_found-IsComplete :
      (found : Option ClientInfo) → get n.clients ip ≡ found → IsComplete (delete_found n ip found)
  unfolding delete_found
  delete_found-IsComplete none e j c h ne j0 = v j c h ne j0
  delete_found-IsComplete (some e) at j c h ne j0 = ground (
    arith,
    get-delete n.clients ip j,
    nat_beq_iff ip j,
    v j c,
    unmap_leaves n.client_ips_by_device_id e.device_id ip c.device_id j,
  )

  pub delete_client-IsComplete : IsComplete (delete_client n ip)
  unfolding delete_client
  delete_client-IsComplete = delete_found-IsComplete (get n.clients ip) refl

  -- A client may be stored where its device has no client elsewhere.
  pub upsert_client-IsComplete :
      (client : ClientInfo)
      → ((j : ℕ) (c : ClientInfo)
          → get n.clients j ≡ some c
          → c.device_id ≡ client.device_id
          → j ≢ 0
          → client.device_id ≢ ""
          → j ≡ ip)
      → IsComplete (upsert_client n ip client)
  unfolding upsert_client
  upsert_client-IsComplete client alone j c h ne j0 =
      let rest = unmap_existing n.client_ips_by_device_id (get n.clients ip) client.device_id ip in
      ground (
        arith,
        get-put n.clients ip client j,
        get-put rest client.device_id ip c.device_id,
        nat_beq_iff ip j,
        eq_iff client.device_id c.device_id,
        eq_iff client.device_id "",
        v j c,
        alone j c,
        existing_leaves n.client_ips_by_device_id (get n.clients ip) client.device_id ip c.device_id
            j,
        at_device,
      )
    where
      at_device : some client ≡ some c → client.device_id ≡ c.device_id
      at_device e = cc

-- A deletion keeps the index in agreement with the clients.
pub delete_client-IsConsistent :
    (n : NetworkInfo) (ip : ℕ) → IsConsistent n → IsConsistent (delete_client n ip)
delete_client-IsConsistent n ip v = record {
  indexed = delete_client-IsIndexed n ip zero_client v.indexed;
  complete = delete_client-IsComplete n ip v.complete;
}
