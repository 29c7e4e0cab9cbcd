-- ===== src/Network/Alloc/Deletes.antt =====
-- What an allocation does to a network: it deletes clients, and nothing else.
use sdl_control.Base.{
  ℕ, zero, suc, ◌+◌, ◌≡◌, String, Option, none, some, Bool, not, ◌==◌, ◌||◌, nat_eq, string_eq, ltb,
  is_some, arith, Bool-cases, inl, inr,
}
use sdl_control.Base.Map
use sdl_control.ExpireMap
use sdl_control.Protocol.Ip.{ip_to_uint32}
use sdl_control.Network.Client.{ClientInfo}
use sdl_control.Network.Info.{NetworkInfo, delete_client, delete_found, find_client_ip_by_device_id}
use sdl_control.Network.OneAddress.{IsConsistent, delete_client-IsConsistent}
use sdl_control.Network.Alloc.{
  Sessions, key_eq, usable_range, validate_requested_ip, allocated, AllocError, session_key,
  try_candidate, visit_occupied, visit, scan, unchanged, from_scan, allocate_any,
  allocate_requested, held_by_other, generate_ip,
}

module _ (P : NetworkInfo → Type 0)
    (del : (n : NetworkInfo) (ip : ℕ) → P n → P (delete_client n ip)) where
  candidate_keeps :
      (n : NetworkInfo) (s : Sessions) (now ip : ℕ) → P n → P (try_candidate n s now ip).network
  unfolding try_candidate
  candidate_keeps n s now ip p =
      elim (Bool-cases (is_some (ExpireMap.get s now (session_key n ip)).1)) [
        | inl e ↦ rw e p
        | inr e ↦ rw e p
      ]

  occupied_keeps :
      (n : NetworkInfo) (s : Sessions) (now ip : ℕ) (found : Option ClientInfo)
      → P n
      → P (visit_occupied n s now ip found).network
  unfolding visit_occupied
  occupied_keeps n s now ip none p = candidate_keeps n s now ip p
  occupied_keeps n s now ip (some c) p = elim (Bool-cases c.control_online) [
    | inl e ↦ rw e p
    | inr e ↦ rw e (elim (Bool-cases (is_some (ExpireMap.get s now (session_key n ip)).1)) [
      | inl r ↦ rw r p
      | inr r ↦ rw r (
          candidate_keeps (delete_client n ip) (ExpireMap.get s now (session_key n ip)).0 now ip
            (del n ip p))
    ])
  ]

  visit_keeps : (n : NetworkInfo) (s : Sessions) (now ip : ℕ) → P n → P (visit n s now ip).network
  unfolding visit
  visit_keeps n s now ip p =
      elim (Bool-cases (ip == ip_to_uint32 n.gateway || is_some (Map.get n.reserved_ips ip))) [
        | inl e ↦ rw e p
        | inr e ↦ rw e (occupied_keeps n s now ip (Map.get n.clients ip) p)
      ]

  scan_keeps :
      (left ip : ℕ) (n : NetworkInfo) (s : Sessions) (now : ℕ) → P n → P (scan left ip n s now).1
  unfolding scan
  scan_keeps zero ip n s now p = p
  scan_keeps (suc left) ip n s now p =
      let r = visit n s now ip in
      elim (Bool-cases r.taken) [
        | inl e ↦ rw e (visit_keeps n s now ip p)
        | inr e ↦
            rw e (scan_keeps left (ip + 1) r.network r.sessions now (visit_keeps n s now ip p))
      ]

  from_scan_keeps : (r : Option ℕ × NetworkInfo × Sessions) → P r.1 → P (from_scan r).network
  unfolding from_scan
  from_scan_keeps (none, n, s) p = p
  from_scan_keeps (some ip, n, s) p = p

  allocate_any_keeps :
      (n : NetworkInfo) (s : Sessions) (now old_ip : ℕ)
      → P n
      → P (allocate_any n s now old_ip).network
  unfolding allocate_any unchanged
  allocate_any_keeps n s now old_ip p =
      let range = usable_range n.gateway n.netmask in
      elim (Bool-cases (not (old_ip == 0))) [
        | inl e ↦ rw e p
        | inr e ↦ rw e (elim (Bool-cases (ltb range.last range.first)) [
          | inl r ↦ rw r p
          | inr r ↦ rw r (from_scan_keeps _ (scan_keeps _ range.first n s now p))
        ])
      ]

  requested_keeps :
      (n : NetworkInfo) (s : Sessions) (now requested : ℕ) (d : String) (allow : Bool) (old_ip : ℕ)
      (refused : Option AllocError)
      → P n
      → P (allocate_requested n s now requested d allow old_ip refused).network
  unfolding allocate_requested unchanged
  requested_keeps n s now requested d allow old_ip (some e) p = p
  requested_keeps n s now requested d allow old_ip none p =
      elim (Bool-cases (held_by_other (Map.get n.clients requested) d)) [
        | inl held ↦ rw held (elim (Bool-cases allow) [
          | inl e ↦ rw e (allocate_any_keeps n s now old_ip p)
          | inr e ↦ rw e p
        ])
        | inr mine ↦ rw mine p
      ]

  -- What every deletion of a client keeps, an allocation keeps.
  pub generate_ip_keeps :
      (n : NetworkInfo) (s : Sessions) (now requested : ℕ) (d : String) (allow : Bool)
      → P n
      → P (generate_ip n s now requested d allow).network
  unfolding generate_ip
  generate_ip_keeps n s now requested d allow p =
      let old_ip = find_client_ip_by_device_id n d in
      elim (Bool-cases (requested == 0)) [
        | inl e ↦ rw e (allocate_any_keeps n s now old_ip p)
        | inr e ↦ rw e (
            requested_keeps n s now requested d allow old_ip
              (validate_requested_ip requested n.gateway n.netmask) p)
      ]

-- Clients are taken away from a network, none is added or changed.
abbrev pub Sub : NetworkInfo → NetworkInfo → Type 0
Sub n m = (j : ℕ) (c : ClientInfo) → Map.get m.clients j ≡ some c → Map.get n.clients j ≡ some c

delete_found-Sub :
    (n m : NetworkInfo) (ip : ℕ) (found : Option ClientInfo)
    → Sub n m
    → Sub n (delete_found m ip found)
unfolding delete_found
delete_found-Sub n m ip none p j c h = p j c h
delete_found-Sub n m ip (some e) p j c h = ground (arith, p j c, Map.get-delete m.clients ip j)

pub delete_client-Sub : (n m : NetworkInfo) (ip : ℕ) → Sub n m → Sub n (delete_client m ip)
unfolding delete_client
delete_client-Sub n m ip p = delete_found-Sub n m ip (Map.get m.clients ip) p

pub generate_ip-Sub :
    (n : NetworkInfo) (s : Sessions) (now requested : ℕ) (d : String) (allow : Bool)
    → Sub n (generate_ip n s now requested d allow).network
generate_ip-Sub n s now requested d allow =
    generate_ip_keeps (Sub n) (delete_client-Sub n) n s now requested d allow (λ j c h. h)

pub generate_ip-IsConsistent :
    (n : NetworkInfo) (s : Sessions) (now requested : ℕ) (d : String) (allow : Bool)
    → IsConsistent n
    → IsConsistent (generate_ip n s now requested d allow).network
generate_ip-IsConsistent = generate_ip_keeps IsConsistent delete_client-IsConsistent

module _ (n : NetworkInfo) (s : Sessions) (now : ℕ) where
  allocate_any_former :
      (old_ip ip old : ℕ) → (allocate_any n s now old_ip).result ≡ allocated ip old → old ≡ old_ip
  unfolding allocate_any unchanged from_scan
  allocate_any_former old_ip ip old h = ground arith

  -- The former address that an allocation reports is the one that the index names.
  pub generate_ip_former :
      (requested : ℕ) (d : String) (allow : Bool) (ip old : ℕ)
      → (generate_ip n s now requested d allow).result ≡ allocated ip old
      → old ≡ find_client_ip_by_device_id n d
  unfolding generate_ip allocate_requested unchanged
  generate_ip_former requested d allow ip old h =
      ground (arith, allocate_any_former (find_client_ip_by_device_id n d) ip old)
