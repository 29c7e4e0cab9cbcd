-- ===== src/Gateway/Grants.antt =====
-- control/gateway.go: the revision of the grant policy, and the cache of the grants that were given out.
-- A channel is `none` where the source holds a nil pointer; its kind is the number of the enumeration.
-- A map is walked in its own order, which Go leaves open.
pub mod Effects
pub mod Pruning
pub mod Ticket
pub mod Issue
pub mod Again
use sdl_control.Base.{
  ℕ, zero, suc, ◌+◌, ◌/◌, ◌%◌, ◌*◌, ◌^◌, List, [], ◌∷◌, String, Option, none, some, Bool, true,
  false, ◌&&◌, ◌||◌, not, ◌==◌, string_eq, nat_eq, ltb, leb, if◌then◌else◌, map, is_some,
}
use Prim.Native.String.{[], ◌∷◌}
use Prim.Native.Char.{code}
use sdl_control.Base.Decimal.{decimal}
use sdl_control.Base.Text.{trim_space, ◌<>◌}
use sdl_control.Base.Map.{Map, get, delete}
use sdl_control.Gateway.Approval.{
  GatewayNodeInfo, CachedGatewayGrant, Gateways, gateway_node_approved,
}

-- The generated message pb.GatewayChannel
pub record GatewayChannel : Type 0 where
  pub kind : ℕ
  pub addr : String
  pub server_name : String
  pub udp_public_key : List ℕ
  pub udp_key_id : String

abbrev pub Node : Type 0
Node = GatewayNodeInfo (Option GatewayChannel)

-- strings.Join
unfoldable pub join : List String → String → String
join [] sep = ""
join (s ∷ []) sep = s
join (s ∷ t ∷ rest) sep = s <> sep <> join (t ∷ rest) sep

unfoldable hex_digit : ℕ → String
hex_digit n =
    if n == 10
    then "a"
    else if n == 11
    then "b"
    else if n == 12
    then "c"
    else if n == 13
    then "d"
    else if n == 14
    then "e"
    else if n == 15
    then "f"
    else decimal n

-- The verb %x for a slice of bytes
unfoldable pub hex : List ℕ → String
unfolding hex_digit
hex [] = ""
hex (b ∷ bytes) = hex_digit (b / 16) <> hex_digit (b % 16) <> hex bytes

unfoldable pub channel_parts : List (Option GatewayChannel) → List String
unfolding hex
channel_parts [] = []
channel_parts (none ∷ rest) = channel_parts rest
channel_parts (some c ∷ rest) =
    (decimal c.kind
      <> "|"
      <> c.addr
      <> "|"
      <> c.server_name
      <> "|"
      <> c.udp_key_id
      <> "|"
      <> hex c.udp_public_key)
    ∷ channel_parts rest

unfoldable pub gateway_grant_node_fingerprint : Node → String
unfolding channel_parts join
gateway_grant_node_fingerprint node =
    join
      (node.gateway_id ∷ node.endpoint ∷ join node.capabilities "," ∷ channel_parts node.channels)
      ";"

unfoldable pub gateway_grant_fingerprint : List Node → String
unfolding gateway_grant_node_fingerprint join
gateway_grant_fingerprint nodes = join (map gateway_grant_node_fingerprint nodes) ","

-- The controller's gatewayGrantFingerprint and gatewayGrantPolicyRev
pub record GrantPolicy : Type 0 where
  pub fingerprint : String
  pub rev : ℕ

pub record Synced : Type 0 where
  pub policy : GrantPolicy
  pub policy_rev : ℕ
  pub is_changed : Bool

-- if rev == 0 { rev = 1 }
unfoldable pub at_least_one : ℕ → ℕ
at_least_one rev = if rev == 0 then 1 else rev

unfoldable pub sync_gateway_grant_policy : GrantPolicy → List Node → Synced
unfolding gateway_grant_fingerprint at_least_one
sync_gateway_grant_policy p nodes =
    let fingerprint = gateway_grant_fingerprint nodes in
    let same = at_least_one p.rev in
    let next = at_least_one ((p.rev + 1) % 2 ^ 64) in
    if fingerprint == p.fingerprint
    then record {
      policy = record { fingerprint = p.fingerprint; rev = same };
      policy_rev = same;
      is_changed = false;
    }
    else record {
      policy = record { fingerprint = fingerprint; rev = next };
      policy_rev = next;
      is_changed = true;
    }

unfoldable pub gateway_grant_cache_prefix : String → ℕ → String → String
gateway_grant_cache_prefix network_key virtual_ip device_id =
    trim_space network_key <> "|" <> decimal virtual_ip <> "|" <> device_id <> "|"

unfoldable pub gateway_grant_cache_key : String → ℕ → String → String → String
unfolding gateway_grant_cache_prefix
gateway_grant_cache_key network_key virtual_ip device_id gateway_id =
    gateway_grant_cache_prefix network_key virtual_ip device_id <> gateway_id

-- strings.HasPrefix
unfoldable pub has_prefix : String → String → Bool
has_prefix s [] = true
has_prefix [] (d ∷ prefix) = false
has_prefix (c ∷ s) (d ∷ prefix) = (code c == code d) && has_prefix s prefix

-- now.Add(30*time.Second).UnixMilli(), of nanoseconds since the epoch
unfoldable pub expire_threshold : ℕ → ℕ
expire_threshold now = (now + 30 * 1_000_000_000) / 1_000_000

-- _, ok := alive[gatewayID]
unfoldable pub is_alive : List Node → String → Bool
is_alive [] gateway_id = false
is_alive (node ∷ nodes) gateway_id = (node.gateway_id == gateway_id) || is_alive nodes gateway_id

module _ {Grant : Type 0} where
  -- pruneGatewayGrantCacheLocked keeps a cached grant, by the node of its gateway and the threshold.
  unfoldable pub is_current :
      Gateways (Option GatewayChannel) Grant → ℕ → CachedGatewayGrant Grant → Option Node → Bool
  unfolding gateway_grant_node_fingerprint
  is_current g threshold cached none = false
  is_current g threshold cached (some node) =
      gateway_node_approved g node
      && is_some cached.grant
      && ltb threshold cached.expire_unix_ms
      && (cached.node_fingerprint == gateway_grant_node_fingerprint node)

  -- retainedGatewayAccessGrantsLocked does not pass over a cached grant.
  unfoldable pub may_be_retained :
      Gateways (Option GatewayChannel) Grant → ℕ → CachedGatewayGrant Grant → Option Node → Bool
  unfolding gateway_grant_node_fingerprint
  may_be_retained g threshold cached none = false
  may_be_retained g threshold cached (some node) =
      gateway_node_approved g node
      && is_some cached.grant
      && ltb threshold cached.expire_unix_ms
      && (cached.node_fingerprint == gateway_grant_node_fingerprint node)

  unfoldable pub kept_grants :
      Gateways (Option GatewayChannel) Grant
      → ℕ
      → Map String (CachedGatewayGrant Grant)
      → Map String (CachedGatewayGrant Grant)
  unfolding is_current
  kept_grants g threshold [] = []
  kept_grants g threshold ((key, cached) ∷ rest) =
      let later = kept_grants g threshold rest in
      if is_current g threshold cached (get g.nodes cached.gateway_id)
      then (key, cached) ∷ later
      else later

  unfoldable pub prune_gateway_grant_cache :
      Gateways (Option GatewayChannel) Grant → ℕ → Gateways (Option GatewayChannel) Grant
  unfolding kept_grants expire_threshold
  prune_gateway_grant_cache g now = record g {
    grant_cache = kept_grants g (expire_threshold now) g.grant_cache;
  }

  -- The accessor GetSessionId of the generated message
  module _ (session_id : Grant → ℕ) where
    unfoldable pub has_session : Option Grant → ℕ → Bool
    has_session none id = false
    has_session (some grant) id = session_id grant == id

    unfoldable pub session_known : Map String (CachedGatewayGrant Grant) → String → ℕ → Bool
    unfolding has_prefix has_session
    session_known [] prefix id = false
    session_known ((key, cached) ∷ rest) prefix id =
        (has_prefix key prefix && has_session cached.grant id) || session_known rest prefix id

    unfoldable pub gateway_grant_session_known :
        Gateways (Option GatewayChannel) Grant → String → ℕ → String → ℕ → Bool
    unfolding session_known gateway_grant_cache_prefix
    gateway_grant_session_known g network_key virtual_ip device_id id =
        session_known g.grant_cache (gateway_grant_cache_prefix network_key virtual_ip device_id) id

  -- grant.PolicyRev = policyRev, on a clone of the generated message
  module _ (with_policy_rev : Grant → ℕ → Grant) where
    unfoldable pub append_grant : Option Grant → ℕ → List Grant → List Grant
    append_grant none rev grants = grants
    append_grant (some grant) rev grants = with_policy_rev grant rev ∷ grants

    unfoldable pub retained_from :
        Gateways (Option GatewayChannel) Grant
        → ℕ
        → String
        → List Node
        → ℕ
        → Map String (CachedGatewayGrant Grant)
        → List Grant
    unfolding has_prefix is_alive may_be_retained append_grant
    retained_from g threshold prefix alive rev [] = []
    retained_from g threshold prefix alive rev ((key, cached) ∷ rest) =
        let later = retained_from g threshold prefix alive rev rest in
        if not (has_prefix key prefix)
        then later
        else if is_alive alive cached.gateway_id
        then later
        else if may_be_retained g threshold cached (get g.nodes cached.gateway_id)
        then append_grant cached.grant rev later
        else later

    unfoldable pub retained_gateway_access_grants :
        Gateways (Option GatewayChannel) Grant
        → String
        → ℕ
        → String
        → List Node
        → ℕ
        → ℕ
        → List Grant
    unfolding retained_from expire_threshold gateway_grant_cache_prefix
    retained_gateway_access_grants g network_key virtual_ip device_id alive rev now =
        retained_from g (expire_threshold now)
          (gateway_grant_cache_prefix network_key virtual_ip device_id) alive rev g.grant_cache
