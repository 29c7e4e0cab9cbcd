-- ===== src/Network/Alloc.antt =====
-- control/network.go generateIP, control/controller.go validateRequestedIP: the choice of a virtual
-- address. A `uint32` is a number below 2 ^ 32 with its wrap-around written out.
pub mod Scan
pub mod Choice
pub mod Deletes
use Prim.Native.Nat.{bit_and, bit_or}
use sdl_control.Base.{
  ℕ, zero, suc, ◌+◌, ◌-◌, ◌%◌, ◌^◌, ◌≡◌, ◌↔◌, List, [], ◌∷◌, String, Option, none, some, Bool, true,
  false, ◌&&◌, ◌||◌, not, ◌==◌, Eq, nat_eq, string_eq, ltb, leb, is_some, if◌then◌else◌, arith,
}
use text.Mathlib.TextEquality.{eq_iff}
use sdl_control.Base.Map
use sdl_control.Base.Map.{Map}
use sdl_control.ExpireMap
use sdl_control.ExpireMap.{ExpireMap}
use sdl_control.Protocol.Ip.{Ip, ip_equal, ip_to_uint32, uint32_to_ip, mask_to_uint32}
use sdl_control.Network.Client.{ClientInfo}
use sdl_control.Network.Info.{NetworkInfo, delete_client, find_client_ip_by_device_id}

-- A key of IPSessions. For the text of an address stands its number.
pub record IpSessionKey : Type 0 where
  pub id : String
  pub ip : ℕ

abbrev pub key_beq : IpSessionKey → IpSessionKey → Bool
key_beq a b = a.id == b.id && a.ip == b.ip

pub key_beq_iff : (a b : IpSessionKey) → (key_beq a b ≡ true) ↔ (a ≡ b)
key_beq_iff a b = ground (arith, eq_iff a.id b.id)

instance abbrev pub key_eq : Eq IpSessionKey
key_eq = record { beq = key_beq; beq_iff = key_beq_iff }

-- A `net.Addr` that holds a lease: the address itself, or the remote end that left.
pub data NetAddr : Type 0 where
  ip_addr : ℕ → NetAddr
  remote : String → NetAddr
  nil_addr : NetAddr

abbrev pub Sessions : Type 0
Sessions = ExpireMap IpSessionKey NetAddr

pub data AllocError : Type 0 where
  is_gateway_ip out_of_range already_in_use no_available : AllocError

-- The first and the last usable address.
pub record Range : Type 0 where
  pub first : ℕ
  pub last : ℕ

unfoldable pub usable_range : Ip → List ℕ → Range
usable_range gateway netmask =
    let mask = mask_to_uint32 netmask in
    let network_ip = bit_and (ip_to_uint32 gateway) mask in
    let broadcast = bit_or network_ip (2 ^ 32 - 1 - mask) in
    record { first = (network_ip + 1) % 2 ^ 32; last = (broadcast + 2 ^ 32 - 1) % 2 ^ 32 }

-- `none` is no error.
unfoldable pub validate_requested_ip : ℕ → Ip → List ℕ → Option AllocError
unfolding usable_range
validate_requested_ip virtual_ip gateway netmask =
    if ip_equal gateway (uint32_to_ip virtual_ip)
    then some is_gateway_ip
    else if ltb virtual_ip (usable_range gateway netmask).first
        || ltb (usable_range gateway netmask).last virtual_ip
    then some out_of_range
    else none

-- One address of the scan, taken or passed over, with the state that it leaves.
pub record Scanned : Type 0 where
  pub taken : Bool
  pub network : NetworkInfo
  pub sessions : Sessions

abbrev session_key : NetworkInfo → ℕ → IpSessionKey
session_key n ip = record { id = n.group; ip = ip }

-- candidate := ...: taken unless a session still holds it
try_candidate : NetworkInfo → Sessions → ℕ → ℕ → Scanned
try_candidate n s now ip =
    let key = session_key n ip in
    let (s', held) = ExpireMap.get s now key in
    if is_some held
    then record { taken = false; network = n; sessions = s' }
    else record { taken = true; network = n; sessions = ExpireMap.set s' now key (ip_addr ip) }

-- An offline client gives way unless a session still reserves its address.
visit_occupied : NetworkInfo → Sessions → ℕ → ℕ → Option ClientInfo → Scanned
unfolding try_candidate
visit_occupied n s now ip none = try_candidate n s now ip
visit_occupied n s now ip (some client) =
    let (s', reserved) = ExpireMap.get s now (session_key n ip) in
    if client.control_online
    then record { taken = false; network = n; sessions = s }
    else if is_some reserved
    then record { taken = false; network = n; sessions = s' }
    else try_candidate (delete_client n ip) s' now ip

-- The body of the loop
visit : NetworkInfo → Sessions → ℕ → ℕ → Scanned
unfolding visit_occupied
visit n s now ip =
    if ip == ip_to_uint32 n.gateway || is_some (Map.get n.reserved_ips ip)
    then record { taken = false; network = n; sessions = s }
    else visit_occupied n s now ip (Map.get n.clients ip)

-- for ip := first; ip <= last; ip++, with the count of addresses left. `none` is that none was free.
pub scan : ℕ → ℕ → NetworkInfo → Sessions → ℕ → Option ℕ × NetworkInfo × Sessions
unfolding visit
scan zero ip n s now = (none, n, s)
scan (suc left) ip n s now =
    let r = visit n s now ip in
    let rest = scan left (ip + 1) r.network r.sessions now in
    if r.taken then (some ip, r.network, r.sessions) else rest

-- The new address and the device's former one, 0 for none; an error carries the former one too.
pub data Allocated : Type 0 where
  allocated : ℕ → ℕ → Allocated
  failed : AllocError → ℕ → Allocated

pub record Allocation : Type 0 where
  pub result : Allocated
  pub network : NetworkInfo
  pub sessions : Sessions

unchanged : NetworkInfo → Sessions → Allocated → Allocation
unchanged n s r = record { result = r; network = n; sessions = s }

from_scan : Option ℕ × NetworkInfo × Sessions → Allocation
from_scan (none, n, s) = record { result = failed no_available 0; network = n; sessions = s }
from_scan (some ip, n, s) = record { result = allocated ip 0; network = n; sessions = s }

-- No address was asked for, or the one asked for was given up.
allocate_any : NetworkInfo → Sessions → ℕ → ℕ → Allocation
unfolding unchanged from_scan scan
allocate_any n s now old_ip =
    let range = usable_range n.gateway n.netmask in
    if not (old_ip == 0)
    then unchanged n s (allocated old_ip old_ip)
    else if ltb range.last range.first
    then unchanged n s (failed no_available 0)
    else from_scan (scan (range.last + 1 - range.first) range.first n s now)

-- current, ok := network.Clients[requestedIP]; ok && current.DeviceId != deviceID
held_by_other : Option ClientInfo → String → Bool
held_by_other none device_id = false
held_by_other (some current) device_id = not (current.device_id == device_id)

allocate_requested :
    NetworkInfo → Sessions → ℕ → ℕ → String → Bool → ℕ → Option AllocError → Allocation
unfolding unchanged held_by_other allocate_any
allocate_requested n s now requested device_id allow_change old_ip (some e) =
    unchanged n s (failed e old_ip)
allocate_requested n s now requested device_id allow_change old_ip none =
    if held_by_other (Map.get n.clients requested) device_id
    then if allow_change
      then allocate_any n s now old_ip
      else unchanged n s (failed already_in_use old_ip)
    else unchanged n s (allocated requested old_ip)

unfoldable pub generate_ip : NetworkInfo → Sessions → ℕ → ℕ → String → Bool → Allocation
unfolding allocate_any allocate_requested
generate_ip n s now requested device_id allow_change =
    let old_ip = find_client_ip_by_device_id n device_id in
    if requested == 0
    then allocate_any n s now old_ip
    else allocate_requested n s now requested device_id allow_change old_ip
        (validate_requested_ip requested n.gateway n.netmask)
