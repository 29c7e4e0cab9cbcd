-- ===== src/Registration/Join/Effect.antt =====
-- What a registration leaves in its network.
use sdl_control.Base.{
  ℕ, ◌≡◌, ◌≢◌, ◌⊎◌, refl, Option, none, some, ◌&&◌, not, ◌==◌, nat_eq, string_eq, if◌then◌else◌,
  arith, Option-cases, inl, inr, nat_beq_iff, ap, sym, ◌∙◌,
}
use sdl_control.Base.Map
use sdl_control.Base.Map.{get-put}
use sdl_control.Network.Client.{ClientInfo, zero_client}
use sdl_control.Network.Info.{NetworkInfo, upsert_client, find_client_ip_by_device_id}
use sdl_control.Network.Index.{IsIndexed, find-upsert}
use sdl_control.Network.Alloc.{Sessions, Allocation, Allocated, allocated, failed, generate_ip}
use sdl_control.Network.Alloc.Choice.{OwnedBy, generate_ip_lem}
use sdl_control.Network.OneAddress.{get-delete_client}
use sdl_control.Network.Alloc.Deletes.{generate_ip-Sub, generate_ip_former}
use sdl_control.Registration.Join.{
  Entrant, Joining, joined, or_zero_client, leave_old, enter, settle, join_network,
}

module _ (e : Entrant) (unix now : ℕ) (n : NetworkInfo) (s : Sessions) (v : IsIndexed n) where
  abbrev allocation : Allocation
  allocation = generate_ip n s now e.virtual_ip e.device_id e.allow_ip_change

  -- What the client at the address is made from: nothing, or the device's own client.
  abbrev pub Reused : ℕ → ClientInfo → Type 0
  Reused ip before =
      (before ≡ zero_client)
      ⊎ ((Map.get n.clients ip ≡ some before) × (before.device_id ≡ e.device_id))

  reused :
      (ip : ℕ) (found : Option ClientInfo)
      → OwnedBy e.device_id found
      → (found ≡ none) ⊎ (found ≡ Map.get n.clients ip)
      → Reused ip (or_zero_client found)
  unfolding or_zero_client
  reused ip none o h = inl refl
  reused ip (some c) o h = ground arith

  -- The clients after a registration at `ip`
  abbrev pub clients_after : ℕ → ClientInfo → ℕ → Option ClientInfo
  clients_after ip before j =
      let former = find_client_ip_by_device_id n e.device_id in
      if ip == j
      then some (joined e unix ip before)
      else if not (former == 0) && former == j
      then none
      else Map.get n.clients j

  leave_old_clients :
      (m : NetworkInfo) (t : Sessions) (ip old j : ℕ)
      → Map.get (leave_old e m t ip old).0.clients j
        ≡ (if not (old == 0) && not (old == ip) && old == j then none else Map.get m.clients j)
  unfolding leave_old
  leave_old_clients m t ip old j = ground (arith, get-delete_client m old j)

  enter_clients :
      (m : NetworkInfo) (t : Sessions) (ip j : ℕ)
      → Map.get (enter e unix ip m t).network.clients j ≡ (
          if ip == j
          then some (joined e unix ip (or_zero_client (Map.get m.clients ip)))
          else Map.get m.clients j)
  unfolding enter upsert_client
  enter_clients m t ip j =
      get-put m.clients ip (joined e unix ip (or_zero_client (Map.get m.clients ip))) j

  enter_index :
      (m : NetworkInfo) (t : Sessions) (ip : ℕ)
      → e.device_id ≢ ""
      → find_client_ip_by_device_id (enter e unix ip m t).network e.device_id ≡ ip
  unfolding enter find_client_ip_by_device_id joined
  enter_index m t ip ne =
      (find-upsert m ip (joined e unix ip (or_zero_client (Map.get m.clients ip)))).1 ne

  -- The network that an address leads to
  abbrev at_address : ℕ → ℕ → Joining
  at_address ip old = settle e unix (allocated ip old) allocation.network allocation.sessions

  allocated_clients :
      (ip old j : ℕ)
      → allocation.result ≡ allocated ip old
      → Map.get (at_address ip old).network.clients j
        ≡ clients_after ip (or_zero_client (Map.get allocation.network.clients ip)) j
  unfolding settle
  allocated_clients ip old j h =
      let m = allocation.network in
      let left = leave_old e m allocation.sessions ip old in
      let here = leave_old_clients m allocation.sessions ip old ip in
      let same : Map.get left.0.clients ip ≡ Map.get m.clients ip =
        ground (arith, nat_beq_iff old ip) in
      let former = generate_ip_former n s now e.virtual_ip e.device_id e.allow_ip_change ip old h in
      let frame = generate_ip_lem n s now e.virtual_ip e.device_id e.allow_ip_change ip old j v h in
      enter_clients left.0 left.1 ip j
      ∙ (ap
            (λ f.
              if ip == j
              then some (joined e unix ip (or_zero_client f))
              else Map.get left.0.clients j)
            same
          ∙ rw (leave_old_clients m allocation.sessions ip old j, former) ground
              (
                arith,
                frame.1,
                nat_beq_iff ip j,
                nat_beq_iff (find_client_ip_by_device_id n e.device_id) ip,
                nat_beq_iff (find_client_ip_by_device_id n e.device_id) j,
              ))

  allocated-Reused :
      (ip old : ℕ)
      → allocation.result ≡ allocated ip old
      → Reused ip (or_zero_client (Map.get allocation.network.clients ip))
  allocated-Reused ip old h =
      let m = allocation.network in
      let owned =
        generate_ip_lem n s now e.virtual_ip e.device_id e.allow_ip_change ip old ip v h in
      reused ip (Map.get m.clients ip) owned.0 (elim (Option-cases (Map.get m.clients ip)) [
        | inl z ↦ inl z
        | inr (c, z) ↦
            inr
              (z ∙ sym (generate_ip-Sub n s now e.virtual_ip e.device_id e.allow_ip_change ip c z))
      ])

  settle_allocated :
      (r : Allocated) (ip : ℕ)
      → (settle e unix r allocation.network allocation.sessions).joined_at ≡ some ip
      → (old : ℕ) × (r ≡ allocated ip old)
  unfolding settle
  settle_allocated (failed error old) ip at = absurd (cc)
  settle_allocated (allocated i old) ip at = (old, cc)

  allocated_index :
      (ip old : ℕ)
      → e.device_id ≢ ""
      → find_client_ip_by_device_id (at_address ip old).network e.device_id ≡ ip
  unfolding settle
  allocated_index ip old ne =
      let left = leave_old e allocation.network allocation.sessions ip old in
      enter_index left.0 left.1 ip ne

  -- A registration that succeeds stores the client of the device at the address that it gives, made
  -- anew or from the device's own former client there, so that the index finds the device at it;
  -- it removes the client at the device's former address, and leaves the clients at all other
  -- addresses as they were.
  pub join_network_lem :
      (ip : ℕ)
      → e.device_id ≢ ""
      → (join_network e unix now n s).joined_at ≡ some ip
      → (before : ClientInfo) × Reused ip before
        × (find_client_ip_by_device_id (join_network e unix now n s).network e.device_id ≡ ip)
        × ((j : ℕ)
            → Map.get (join_network e unix now n s).network.clients j ≡ clients_after ip before j)
  unfolding join_network
  join_network_lem ip ne at =
      let (old, h) = settle_allocated allocation.result ip at in
      (
        or_zero_client (Map.get allocation.network.clients ip),
        allocated-Reused ip old h,
        rw h (allocated_index ip old ne),
        λ j. rw h (allocated_clients ip old j h),
      )
