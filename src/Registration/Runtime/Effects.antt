-- ===== src/Registration/Runtime/Effects.antt =====
-- Each change reaches exactly the clients that it means.
use sdl_control.Base.{
  ℕ, ◌≡◌, refl, List, [], ◌∷◌, String, Option, none, some, Bool, true, false, ◌||◌, ◌==◌, nat_eq,
  string_eq, if◌then◌else◌, arith, Bool-cases, inl, inr, nat_beq_iff, ap, ◌∙◌,
}
use sdl_control.Base.Map.{Map, get, get-put, IsUnique}
use sdl_control.Network.Client.{ClientInfo}
use sdl_control.Network.Info.{NetworkInfo, upsert_client}
use sdl_control.Network.OneAddress.{get-delete_client}
use sdl_control.Network.Alloc.{Sessions, key_eq}
use sdl_control.Network.Control.{Departure, bump_epoch, gone}
use sdl_control.Users.State.{UmAuthDevice}
use sdl_control.Registration.Runtime.{
  Step, Test, each_client, each_of_network, is_stale, clear_stale_client, is_removed, remove_client,
  is_renamed, rename_client,
}

-- What becomes of a client
abbrev pub becomes : Test → (ClientInfo → Option ClientInfo) → Option ClientInfo → Option ClientInfo
becomes test effect none = none
becomes test effect (some c) = if test c then effect c else some c

-- The same, where the client read is not the one that is there
abbrev turns :
    Test
    → (ClientInfo → Option ClientInfo)
    → Option ClientInfo
    → Option ClientInfo
    → Option ClientInfo
turns test effect none there = there
turns test effect (some c) there = if test c then effect c else there

abbrev pub any_client : Test → Map ℕ ClientInfo → Bool
any_client test [] = false
any_client test ((ip, c) ∷ rest) = test c || any_client test rest

module _ (test : Test) (step : Step) (effect : ClientInfo → Option ClientInfo)
    (acts : (ip : ℕ) (c : ClientInfo) (d : Departure) (j : ℕ)
      → get (step ip c d).network.clients j
        ≡ (if ip == j then effect c else get d.network.clients j))
    (marks : (ip : ℕ) (c : ClientInfo) (d : Departure) → (step ip c d).changed ≡ true) where
  each_client_lem :
      (entries : Map ℕ ClientInfo) (d : Departure) (j : ℕ)
      → IsUnique entries
      → get (each_client test step entries d).network.clients j
        ≡ turns test effect (get entries j) (get d.network.clients j)
  unfolding each_client get
  each_client_lem [] d j u = refl
  each_client_lem ((ip, c) ∷ rest) d j u = elim (Bool-cases (test c)) [
    | inl t ↦
        rw (each_client, t)
          (each_client_lem rest (step ip c d) j u.1
            ∙ ground (arith, acts ip c d j, nat_beq_iff ip j, u.0, same j, t))
    | inr t ↦
        rw (each_client, t)
          (each_client_lem rest d j u.1 ∙ ground (arith, nat_beq_iff ip j, u.0, same j, t))
  ]
    where
      same : (x : ℕ) → ip ≡ x → get rest ip ≡ get rest x
      same x e = ap (get rest) e

  each_client_changed :
      (entries : Map ℕ ClientInfo) (d : Departure)
      → (each_client test step entries d).changed ≡ (d.changed || any_client test entries)
  unfolding each_client
  each_client_changed [] d = ground arith
  each_client_changed ((ip, c) ∷ rest) d =
      ground
        (arith, each_client_changed rest (step ip c d), each_client_changed rest d, marks ip c d)

  turns-becomes : (o : Option ClientInfo) → turns test effect o o ≡ becomes test effect o
  turns-becomes none = refl
  turns-becomes (some c) = refl

  bump_clients : (d : Departure) → (bump_epoch d).clients ≡ d.network.clients
  unfolding bump_epoch
  bump_clients d = elim (Bool-cases d.changed) [ inl e ↦ rw e refl | inr e ↦ rw e refl ]

  -- What a loop over the clients of a network makes of each of them
  each_of_network_lem :
      (n : NetworkInfo) (s : Sessions) (j : ℕ)
      → IsUnique n.clients
      → (get (each_of_network test step n s).network.clients j
          ≡ becomes test effect (get n.clients j))
        × ((each_of_network test step n s).changed ≡ any_client test n.clients)
  unfolding each_of_network
  each_of_network_lem n s j u =
      let start : Departure = record { network = n; sessions = s; changed = false } in
      let d = each_client test step n.clients start in
      (
        ap (λ m. get m j) (bump_clients d)
            ∙ (each_client_lem n.clients start j u ∙ turns-becomes (get n.clients j)),
        each_client_changed n.clients start,
      )

-- A check of a device that fails sets exactly the clients of the device and the group that do not look
-- gone yet to gone, and leaves every other client as it was; the network counts as changed exactly
-- when there is one.
pub clear_stale_lem :
    (auth_group device_id : String) (unix now : ℕ) (n : NetworkInfo) (s : Sessions) (j : ℕ)
    → IsUnique n.clients
    → (get
          (each_of_network
            (is_stale n.group auth_group device_id)
            (clear_stale_client unix now)
            n
            s).network.clients
          j
        ≡ becomes
            (is_stale n.group auth_group device_id)
            (λ c. some (gone unix c))
            (get n.clients j))
      × ((each_of_network
            (is_stale n.group auth_group device_id)
            (clear_stale_client unix now)
            n
            s).changed
          ≡ any_client (is_stale n.group auth_group device_id) n.clients)
unfolding clear_stale_client upsert_client
clear_stale_lem auth_group device_id unix now n s j u =
    each_of_network_lem (is_stale n.group auth_group device_id) (clear_stale_client unix now)
      (λ c. some (gone unix c)) (λ ip c d i. get-put d.network.clients ip (gone unix c) i)
      (λ ip c d. refl) n s j u

-- The removal of authenticated devices deletes exactly the clients whose group and device one of the
-- records names, and leaves every other client as it was.
pub remove_runtime_lem :
    (records : List UmAuthDevice) (key : String) (n : NetworkInfo) (s : Sessions) (j : ℕ)
    → IsUnique n.clients
    → (get (each_of_network (is_removed n.group records) (remove_client key) n s).network.clients j
        ≡ becomes (is_removed n.group records) (λ c. none) (get n.clients j))
      × ((each_of_network (is_removed n.group records) (remove_client key) n s).changed
          ≡ any_client (is_removed n.group records) n.clients)
unfolding remove_client
remove_runtime_lem records key n s j u =
    each_of_network_lem (is_removed n.group records) (remove_client key) (λ c. none)
      (λ ip c d i. get-delete_client d.network ip i) (λ ip c d. refl) n s j u

-- A rename reaches exactly the clients of the record.
pub rename_runtime_lem :
    (r : UmAuthDevice) (name : String) (n : NetworkInfo) (s : Sessions) (j : ℕ)
    → IsUnique n.clients
    → (get (each_of_network (is_renamed n.group r name) (rename_client name) n s).network.clients j
        ≡ becomes
            (is_renamed n.group r name)
            (λ c. some (record c { name = name }))
            (get n.clients j))
      × ((each_of_network (is_renamed n.group r name) (rename_client name) n s).changed
          ≡ any_client (is_renamed n.group r name) n.clients)
unfolding rename_client upsert_client
rename_runtime_lem r name n s j u =
    each_of_network_lem (is_renamed n.group r name) (rename_client name)
      (λ c. some (record c { name = name }))
      (λ ip c d i. get-put d.network.clients ip (record c { name = name }) i) (λ ip c d. refl) n s j
      u
