-- ===== src/Network/Alloc/Choice.antt =====
-- Which address a device gets, and what becomes of the other clients.
use sdl_control.Base.{
  ℕ, ◌+◌, ◌-◌, ◌≤◌, ◌≡◌, ◌≢◌, ◌⊎◌, refl, String, Option, none, some, Bool, true, false, not, ◌==◌,
  nat_eq, string_eq, if◌then◌else◌, arith, Bool-cases, inl, inr, ◌∙◌, sym, nat_beq_iff, ap, ltb,
  beq_refl,
}
use text.Mathlib.TextEquality.{eq_iff}
use sdl_control.Base.Map
use sdl_control.Protocol.Ip.{ip_equal, uint32_to_ip}
use sdl_control.Network.Client.{ClientInfo}
use sdl_control.Network.Info.{NetworkInfo, find_client_ip_by_device_id}
use sdl_control.Network.Index.{IsIndexed, find_client_ip_by_device_id_lem}
use sdl_control.Network.Alloc.{
  Sessions, Range, usable_range, validate_requested_ip, Allocated, allocated, failed, AllocError,
  no_available, already_in_use, Allocation, unchanged, from_scan, allocate_any, allocate_requested,
  held_by_other, generate_ip,
}
use sdl_control.Network.Alloc.Scan.{
  is_free, find_first, scan-find_first, scan_frame, find_first_sound,
}

-- No client of another device
abbrev pub OwnedBy : String → Option ClientInfo → Type 0
OwnedBy d none = Unit
OwnedBy d (some c) = c.device_id ≡ d

module _ (n : NetworkInfo) (s : Sessions) (now : ℕ) where
  abbrev range : Range
  range = usable_range n.gateway n.netmask

  -- The specification of an allocation that is free to choose: the former address, or else the first
  -- free one of the usable range.
  abbrev pub chosen : ℕ → Allocated
  chosen old_ip =
      if not (old_ip == 0)
      then allocated old_ip old_ip
      else if ltb range.last range.first
      then failed no_available 0
      else elim (find_first (is_free n s now) (range.last + 1 - range.first) range.first) [
        | none ↦ failed no_available 0
        | some ip ↦ allocated ip 0
      ]

  allocate_any-chosen : (old_ip : ℕ) → (allocate_any n s now old_ip).result ≡ chosen old_ip
  unfolding allocate_any unchanged from_scan
  allocate_any-chosen old_ip =
      ground (arith, scan-find_first (range.last + 1 - range.first) range.first n s now)

  -- With no address asked for, a device keeps its address, and a new device gets the first address of
  -- the usable range that is free; the allocation fails exactly when there is none.
  pub generate_ip-chosen :
      (d : String) (allow : Bool)
      → (generate_ip n s now 0 d allow).result ≡ chosen (find_client_ip_by_device_id n d)
  unfolding generate_ip
  generate_ip-chosen d allow = allocate_any-chosen (find_client_ip_by_device_id n d)

  allocate_any_frame :
      (old_ip ip k j : ℕ)
      → (allocate_any n s now old_ip).result ≡ allocated ip k
      → ((ip ≡ old_ip)
          × (old_ip ≢ 0)
          × (Map.get (allocate_any n s now old_ip).network.clients j ≡ Map.get n.clients j))
        ⊎ (Map.get (allocate_any n s now old_ip).network.clients j
            ≡ (if ip == j then none else Map.get n.clients j))
  unfolding allocate_any unchanged from_scan
  allocate_any_frame old_ip ip k j h =
      ground (arith, scan_frame (range.last + 1 - range.first) range.first n s now ip j)

  -- What a successful allocation leaves: no client of another device at the new address, and the
  -- clients at the other addresses as they were.
  abbrev pub Gives : String → Allocation → Type 0
  Gives d a =
      (ip old : ℕ)
      → a.result ≡ allocated ip old
      → OwnedBy d (Map.get a.network.clients ip)
        × ((j : ℕ) → ip ≢ j → Map.get a.network.clients j ≡ Map.get n.clients j)

  -- A client that the index names is the device's own.
  former-OwnedBy :
      (d : String) (ip : ℕ)
      → IsIndexed n
      → find_client_ip_by_device_id n d ≡ ip
      → ip ≢ 0
      → OwnedBy d (Map.get n.clients ip)
  former-OwnedBy d ip v e ne = ground (arith, find_client_ip_by_device_id_lem n d ip v e ne)

  none-OwnedBy : (d : String) (c : Option ClientInfo) → c ≡ none → OwnedBy d c
  none-OwnedBy d none e = tt
  none-OwnedBy d (some c) e = cc

  allocate_any-Gives :
      (d : String) → IsIndexed n → Gives d (allocate_any n s now (find_client_ip_by_device_id n d))
  allocate_any-Gives d v ip old h =
      let former = find_client_ip_by_device_id n d in
      (
        elim (allocate_any_frame former ip old ip h) [
          | inl (e, ne, same) ↦ rw same (former-OwnedBy d ip v (sym e) (λ z. ne (sym e ∙ z)))
          | inr e ↦ none-OwnedBy d _ (e ∙ rw (beq_refl ip))
        ],
        λ j other. ground (arith, allocate_any_frame former ip old j h, nat_beq_iff ip j),
      )

  not_held-OwnedBy : (d : String) (c : Option ClientInfo) → held_by_other c d ≡ false → OwnedBy d c
  unfolding held_by_other
  not_held-OwnedBy d none h = tt
  not_held-OwnedBy d (some c) h = ground (arith, eq_iff c.device_id d)

  unchanged-Gives :
      (d : String) (ip' old' : ℕ)
      → OwnedBy d (Map.get n.clients ip')
      → Gives d (unchanged n s (allocated ip' old'))
  unfolding unchanged
  unchanged-Gives d ip' old' own ip old h =
      let same : ip' ≡ ip = ground arith in (rw (← same) own, λ j other. refl)

  failed-Gives : (d : String) (e : AllocError) (old' : ℕ) → Gives d (unchanged n s (failed e old'))
  unfolding unchanged
  failed-Gives d e old' ip old h = cc

  requested-Gives :
      (requested : ℕ) (d : String) (allow : Bool) (refused : Option AllocError)
      → IsIndexed n
      → Gives d
          (allocate_requested n s now requested d allow (find_client_ip_by_device_id n d) refused)
  unfolding allocate_requested
  requested-Gives requested d allow (some e) v = failed-Gives d e (find_client_ip_by_device_id n d)
  requested-Gives requested d allow none v =
      elim (Bool-cases (held_by_other (Map.get n.clients requested) d)) [
        | inl held ↦ elim (Bool-cases allow) [
          | inl yielding ↦ rw (held, yielding) (allocate_any-Gives d v)
          | inr firm ↦
              rw (held, firm) (failed-Gives d already_in_use (find_client_ip_by_device_id n d))
        ]
        | inr mine ↦ rw mine (
            unchanged-Gives d requested (find_client_ip_by_device_id n d)
              (not_held-OwnedBy d (Map.get n.clients requested) mine))
      ]

  generate_ip-Gives :
      (requested : ℕ) (d : String) (allow : Bool)
      → IsIndexed n
      → Gives d (generate_ip n s now requested d allow)
  unfolding generate_ip
  generate_ip-Gives requested d allow v = elim (Bool-cases (requested == 0)) [
    | inl e ↦ rw e (allocate_any-Gives d v)
    | inr e ↦
        rw e (
          requested-Gives requested d allow (validate_requested_ip requested n.gateway n.netmask) v)
  ]

  -- Over a network whose index tells the truth, an address that is given out has no client of another
  -- device left at it, and the clients at the other addresses stay as they were.
  pub generate_ip_lem :
      (requested : ℕ) (d : String) (allow : Bool) (ip old j : ℕ)
      → IsIndexed n
      → (generate_ip n s now requested d allow).result ≡ allocated ip old
      → OwnedBy d (Map.get (generate_ip n s now requested d allow).network.clients ip)
        × ((ip ≡ j)
            ⊎ (Map.get (generate_ip n s now requested d allow).network.clients j
                ≡ Map.get n.clients j))
  generate_ip_lem requested d allow ip old j v h =
      let given = generate_ip-Gives requested d allow v ip old h in
      (
        given.0,
        elim (Bool-cases (ip == j)) [
          | inl e ↦ inl ((nat_beq_iff ip j).0 e)
          | inr e ↦ inr (given.1 j (λ z. ground (arith, nat_beq_iff ip j)))
        ],
      )

  validate_sound :
      (ip : ℕ)
      → validate_requested_ip ip n.gateway n.netmask ≡ none
      → (ip_equal n.gateway (uint32_to_ip ip) ≡ false) × (range.first ≤ ip) × (ip ≤ range.last)
  unfolding validate_requested_ip
  validate_sound ip h = ground arith

  allocate_any_range :
      (old_ip ip k : ℕ)
      → (allocate_any n s now old_ip).result ≡ allocated ip k
      → ((ip ≡ old_ip) × (old_ip ≢ 0))
        ⊎ ((range.first ≤ ip) × (ip ≤ range.last) × (is_free n s now ip ≡ true))
  unfolding allocate_any unchanged from_scan
  allocate_any_range old_ip ip k h = ground (
    arith,
    scan-find_first (range.last + 1 - range.first) range.first n s now,
    find_first_sound (is_free n s now) (range.last + 1 - range.first) range.first ip,
  )

  -- An address that is given out is the device's former one, or the one that it asked for, which is
  -- usable and not the gateway's, or else a free one; either of these lies in the usable range.
  pub generate_ip_range :
      (requested : ℕ) (d : String) (allow : Bool) (ip old : ℕ)
      → (generate_ip n s now requested d allow).result ≡ allocated ip old
      → ((ip ≡ find_client_ip_by_device_id n d) × (ip ≢ 0))
        ⊎ ((range.first ≤ ip)
            × (ip ≤ range.last)
            × (((ip ≡ requested) × (ip_equal n.gateway (uint32_to_ip ip) ≡ false))
                ⊎ (is_free n s now ip ≡ true)))
  unfolding generate_ip allocate_requested unchanged
  generate_ip_range requested d allow ip old h = ground (
    arith,
    allocate_any_range (find_client_ip_by_device_id n d) ip old,
    validate_sound requested,
    validate_sound ip,
    same ip requested,
  )
    where
      same :
          (a b : ℕ)
          → a ≡ b
          → ip_equal n.gateway (uint32_to_ip a) ≡ ip_equal n.gateway (uint32_to_ip b)
      same a b e = ap (λ x. ip_equal n.gateway (uint32_to_ip x)) e
