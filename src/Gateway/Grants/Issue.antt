-- ===== src/Gateway/Grants/Issue.antt =====
-- control/gateway.go: gatewayAccessGrantForNodeLocked, the grant for one node, from the cache or new.
use sdl_control.Base.{
  ℕ, ◌+◌, ◌%◌, ◌^◌, String, Option, none, some, Bool, true, false, ◌&&◌, ◌||◌, not, ◌==◌, string_eq,
  nat_eq, ltb, if◌then◌else◌,
}
use sdl_control.Base.Map.{Map, get, put, delete}
use sdl_control.Gateway.Approval.{CachedGatewayGrant}
use sdl_control.Gateway.Grants.{
  Node, gateway_grant_cache_key, gateway_grant_node_fingerprint, expire_threshold,
}
use sdl_control.Gateway.Grants.Ticket.{
  GatewayAccessGrant, Libraries, Drawn, build_gateway_access_grant_for_node,
}

pub record GatewayGrantBuildOptions : Type 0 where
  pub last_session_id : ℕ
  pub last_session_id_valid : Bool
  pub force_reissue : Bool
  pub refresh : Bool
  pub retain_existing : Bool

-- What one run of the grants fixes for all its nodes: the client, the times, the revision
pub record Terms : Type 0 where
  pub network_key : String
  pub virtual_ip : ℕ
  pub device_id : String
  pub expire_unix_ms : ℕ
  pub refresh_after_unix_ms : ℕ
  pub lease_secs : ℕ
  pub grace_secs : ℕ
  pub policy_rev : ℕ
  pub now : ℕ

abbrev pub Cache : Type 0
Cache = Map String (CachedGatewayGrant GatewayAccessGrant)

pub record Issued : Type 0 where
  pub cache : Cache
  pub grant : Option GatewayAccessGrant
  pub is_changed : Bool

unfoldable pub may_reuse : GatewayGrantBuildOptions → Bool
may_reuse opts =
    if opts.refresh
    then not opts.force_reissue && (opts.last_session_id == 0 || opts.last_session_id_valid)
    else true

-- The cached grant, where it may be given again
unfoldable pub reused :
    Option (CachedGatewayGrant GatewayAccessGrant) → String → ℕ → Option GatewayAccessGrant
reused none fingerprint threshold = none
reused (some cached) fingerprint threshold =
    if cached.node_fingerprint == fingerprint && ltb threshold cached.expire_unix_ms
    then cached.grant
    else none

unfoldable pub has_last_session : Option GatewayAccessGrant → ℕ → Bool
has_last_session none id = false
has_last_session (some grant) id = grant.session_id == id

unfoldable pub cached_grant :
    Option (CachedGatewayGrant GatewayAccessGrant) → Option GatewayAccessGrant
cached_grant none = none
cached_grant (some cached) = cached.grant

unfoldable pub new_session_id :
    GatewayGrantBuildOptions → Option (CachedGatewayGrant GatewayAccessGrant) → ℕ → ℕ → ℕ
unfolding has_last_session cached_grant
new_session_id opts cached now salt =
    if opts.refresh
      && not opts.force_reissue
      && not (opts.last_session_id == 0)
      && has_last_session (cached_grant cached) opts.last_session_id
    then opts.last_session_id
    else (now + salt) % 2 ^ 64

unfoldable pub store_grant : Cache → String → Node → Option GatewayAccessGrant → Issued
unfolding gateway_grant_node_fingerprint
store_grant cache key node none = record {
  cache = delete cache key;
  grant = none;
  is_changed = false;
}
store_grant cache key node (some grant) = record {
  cache = put cache key (record {
    gateway_id = node.gateway_id;
    node_fingerprint = gateway_grant_node_fingerprint node;
    expire_unix_ms = grant.ticket_expire_unix_ms;
    grant = some grant;
  });
  grant = some grant;
  is_changed = true;
}

-- if grant may be reused { return it with the new revision }
unfoldable pub or_new : Cache → Option GatewayAccessGrant → ℕ → Issued → Issued
or_new cache none rev issued = issued
or_new cache (some grant) rev issued = record {
  cache = cache;
  grant = some (record grant { policy_rev = rev });
  is_changed = false;
}

module _ {Url : Type 0} (lib : Libraries Url) (secret : String) where
  unfoldable pub gateway_access_grant_for_node :
      Cache → Terms → Node → (session_salt : ℕ) → GatewayGrantBuildOptions → Drawn → Issued
  unfolding may_reuse reused new_session_id store_grant or_new expire_threshold
      gateway_grant_cache_key gateway_grant_node_fingerprint
  gateway_access_grant_for_node cache t node session_salt opts drawn =
      let key = gateway_grant_cache_key t.network_key t.virtual_ip t.device_id node.gateway_id in
      let cached = get cache key in
      let fingerprint = gateway_grant_node_fingerprint node in
      or_new cache
        (if may_reuse opts then reused cached fingerprint (expire_threshold t.now) else none)
        t.policy_rev
        (store_grant cache key node (
          build_gateway_access_grant_for_node lib drawn secret t.virtual_ip t.device_id node
            (new_session_id opts cached t.now session_salt) t.expire_unix_ms t.refresh_after_unix_ms
            t.lease_secs t.grace_secs t.policy_rev))
