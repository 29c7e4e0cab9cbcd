-- ===== src/Network/Control/Leave.antt =====
-- A remote end that leaves: its clients go offline, and their addresses stay reserved for a while.
use sdl_control.Base.{
  ℕ, ◌+◌, ◌≡◌, refl, ◌∙◌, ◌⊎◌, ◌≤◌, [], ◌∷◌, String, Option, none, some, Bool, true, false, ◌&&◌,
  ◌==◌, nat_eq, string_eq, if◌then◌else◌, ltb, arith, ap, nat_beq_iff,
}
use text.Mathlib.TextEquality.{eq_iff}
use sdl_control.Base.Map
use sdl_control.Base.Map.{Map, IsUnique, get-put}
use sdl_control.ExpireMap
use sdl_control.ExpireMap.{ExpireMap}
use sdl_control.ExpireMap.Laws.{live, live-set}
use sdl_control.Network.Client.{ClientInfo, mode_auto}
use sdl_control.Network.Info.{NetworkInfo, upsert_client}
use sdl_control.Network.Alloc.{Sessions, IpSessionKey, key_eq, NetAddr, remote}
use sdl_control.Network.Alloc.Scan.{is_free}
use sdl_control.Network.Control.{
  at_address, leaves, gone, depart, Departure, leave_clients, leave_network,
}

-- A client that is online at the remote end
abbrev pub is_seated : String → Option String → Bool
is_seated addr none = false
is_seated addr (some a) = a == addr

abbrev pub is_leaving : String → Option ClientInfo → Bool
is_leaving addr none = false
is_leaving addr (some c) = is_seated addr c.address && c.control_online

-- What the client at an address becomes.
abbrev pub departed : String → ℕ → Option ClientInfo → Option ClientInfo
departed addr unix none = none
departed addr unix (some c) =
    if is_seated addr c.address && c.control_online
    then some (record c {
      control_online = false;
      control_last_seen = unix;
      data_plane_reachable = false;
      data_plane_last_seen = 0;
      client_status = none;
      preferred_channel_mode = mode_auto;
    })
    else some c

at_address_lem : (addr : String) (a : Option String) → at_address addr a ≡ is_seated addr a
unfolding at_address
at_address_lem addr none = refl
at_address_lem addr (some a) = refl

pub leaves_lem : (addr : String) (c : ClientInfo) → leaves addr c ≡ is_leaving addr (some c)
unfolding leaves
leaves_lem addr c = rw (at_address_lem addr c.address) refl

departed_lem :
    (addr : String) (unix : ℕ) (c : ClientInfo)
    → (if leaves addr c then some (gone unix c) else some c) ≡ departed addr unix (some c)
unfolding gone
departed_lem addr unix c = rw (leaves_lem addr c) refl

-- What a session that was renewed at `now` shows at the time `t`.
abbrev pub lease_until : ℕ → ℕ → ℕ → NetAddr → Option NetAddr
lease_until ttl now t a = if ltb 0 ttl then (if ltb (now + ttl) t then none else some a) else some a

abbrev pub session_of : String → ℕ → IpSessionKey
session_of group ip = record { id = group; ip = ip }

module _ (addr : String) (unix now : ℕ) where
  depart_fixed :
      (d : Departure) (ip : ℕ) (c : ClientInfo)
      → ((depart addr unix now d ip c).network.group ≡ d.network.group)
        × ((depart addr unix now d ip c).sessions.ttl ≡ d.sessions.ttl)
  unfolding depart upsert_client ExpireMap.set
  depart_fixed d ip c = ground arith

  pub depart_clients :
      (d : Departure) (ip : ℕ) (c : ClientInfo) (j : ℕ)
      → Map.get (depart addr unix now d ip c).network.clients j
        ≡ (if leaves addr c && ip == j then some (gone unix c) else Map.get d.network.clients j)
  unfolding depart upsert_client
  depart_clients d ip c j = ground (arith, get-put d.network.clients ip (gone unix c) j)

  depart_sessions :
      (d : Departure) (ip : ℕ) (c : ClientInfo) (j t : ℕ) (group : String)
      → d.network.group ≡ group
      → live (depart addr unix now d ip c).sessions t (session_of group j) ≡ (
          if leaves addr c && ip == j
          then lease_until d.sessions.ttl now t (remote addr)
          else live d.sessions t (session_of group j))
  unfolding depart
  depart_sessions d ip c j t group e = ground (
    arith,
    live-set d.sessions now t (session_of d.network.group ip) (remote addr) (session_of group j),
    eq_iff d.network.group group,
  )

  clients_lem :
      (entries : Map ℕ ClientInfo) (d : Departure) (j : ℕ)
      → IsUnique entries
      → Map.get (leave_clients entries addr unix now d).network.clients j ≡ (
          if is_leaving addr (Map.get entries j)
          then departed addr unix (Map.get entries j)
          else Map.get d.network.clients j)
  unfolding leave_clients Map.get
  clients_lem [] d j u = refl
  clients_lem ((ip, c) ∷ rest) d j u = ground (
    arith,
    clients_lem rest (depart addr unix now d ip c) j u.1,
    leaves_lem addr c,
    departed_lem addr unix c,
    depart_clients d ip c j,
    nat_beq_iff ip j,
    same j,
  )
    where
      same : (x : ℕ) → ip ≡ x → Map.get rest ip ≡ Map.get rest x
      same x e = ap (Map.get rest) e

  sessions_lem :
      (entries : Map ℕ ClientInfo) (d : Departure) (j t : ℕ) (group : String) (ttl : ℕ)
      → IsUnique entries
      → d.network.group ≡ group
      → d.sessions.ttl ≡ ttl
      → live (leave_clients entries addr unix now d).sessions t (session_of group j) ≡ (
          if is_leaving addr (Map.get entries j)
          then lease_until ttl now t (remote addr)
          else live d.sessions t (session_of group j))
  unfolding leave_clients Map.get
  sessions_lem [] d j t group ttl u e f = refl
  sessions_lem ((ip, c) ∷ rest) d j t group ttl u e f =
      let d' = depart addr unix now d ip c in
      let fixed = depart_fixed d ip c in
      ground (
        arith,
        leaves_lem addr c,
        sessions_lem rest d' j t group ttl u.1 (fixed.0 ∙ e) (fixed.1 ∙ f),
        depart_sessions d ip c j t group e,
        nat_beq_iff ip j,
        same j,
        ttl_same,
      )
    where
      same : (x : ℕ) → ip ≡ x → Map.get rest ip ≡ Map.get rest x
      same x p = ap (Map.get rest) p

      ttl_same :
          lease_until d.sessions.ttl now t (remote addr) ≡ lease_until ttl now t (remote addr)
      ttl_same = ap (λ x. lease_until x now t (remote addr)) f

  -- When a remote end leaves a network without double addresses, every client that was online at
  -- that remote end is offline with its runtime status cleared, and a session holds its address as
  -- long as the sessions live; the other clients, and the network's other sessions, are as they
  -- were.
  pub leave_network_lem :
      (n : NetworkInfo) (s : Sessions) (j t : ℕ)
      → IsUnique n.clients
      → (Map.get (leave_network n s addr unix now).network.clients j
          ≡ departed addr unix (Map.get n.clients j))
        × (live (leave_network n s addr unix now).sessions t (session_of n.group j) ≡ (
            if is_leaving addr (Map.get n.clients j)
            then lease_until s.ttl now t (remote addr)
            else live s t (session_of n.group j)))
  unfolding leave_network
  leave_network_lem n s j t u =
      let start : Departure = record { network = n; sessions = s; changed = false } in
      (
        clients_lem n.clients start j u ∙ stays (Map.get n.clients j) refl,
        sessions_lem n.clients start j t n.group s.ttl u refl refl,
      )
    where
      stays :
          (c : Option ClientInfo)
          → Map.get n.clients j ≡ c
          → (if is_leaving addr c then departed addr unix c else Map.get n.clients j)
            ≡ departed addr unix c
      stays none e = e
      stays (some c) e = ground (arith, e)

  group-leave :
      (n : NetworkInfo) (s : Sessions) → (leave_network n s addr unix now).network.group ≡ n.group
  unfolding leave_network
  group-leave n s = group_kept n.clients (record { network = n; sessions = s; changed = false })
    where
      group_kept :
          (entries : Map ℕ ClientInfo) (d : Departure)
          → (leave_clients entries addr unix now d).network.group ≡ d.network.group
      group_kept [] d = unfold leave_clients in refl
      group_kept ((ip, c) ∷ rest) d =
          unfold leave_clients in
          (group_kept rest (depart addr unix now d ip c) ∙ (depart_fixed d ip c).0)

  -- In a network without double addresses, the address of a client that left is not free for an
  -- allocation until its session ends, or for ever if sessions do not end.
  pub leave_reserves :
      (n : NetworkInfo) (s : Sessions) (j t : ℕ)
      → IsUnique n.clients
      → is_leaving addr (Map.get n.clients j) ≡ true
      → (s.ttl ≡ 0) ⊎ (t ≤ now + s.ttl)
      → let d = leave_network n s addr unix now in is_free d.network d.sessions t j ≡ false
  leave_reserves n s j t u h alive =
      ground (arith, group-leave n s, (leave_network_lem n s j t u).1)
