-- ===== src/Gateway/Grants/Again.antt =====
-- control/gateway.go: gatewayAccessGrantForNodeLocked for a client that asks again.
use sdl_control.Base.{
  ℕ, ◌≡◌, ◌<◌, refl, sym, ap, ◌∙◌, String, Option, none, some, true, false, string_eq, nat_eq,
  if◌then◌else◌, beq_refl, arith,
}
use mathlib.Core.Option
use sdl_control.Base.Map.{get, get-put}
use sdl_control.Gateway.Approval.{CachedGatewayGrant}
use sdl_control.Gateway.Grants.{
  Node, gateway_grant_cache_key, gateway_grant_node_fingerprint, expire_threshold,
}
use sdl_control.Gateway.Grants.Ticket.{
  GatewayAccessGrant, Libraries, Drawn, build_gateway_access_grant_for_node,
}
use sdl_control.Gateway.Grants.Issue.{
  GatewayGrantBuildOptions, Terms, Cache, Issued, may_reuse, reused, new_session_id, store_grant,
  or_new, gateway_access_grant_for_node,
}

or_new-changed :
    (cache : Cache) (found : Option GatewayAccessGrant) (rev : ℕ) (issued : Issued)
    → (or_new cache found rev issued).is_changed ≡ true
    → or_new cache found rev issued ≡ issued
unfolding or_new
or_new-changed cache none rev issued changed = refl
or_new-changed cache (some grant) rev issued changed = ground (arith, changed)

-- The entry that a new grant leaves
abbrev entry_of : Node → GatewayAccessGrant → CachedGatewayGrant GatewayAccessGrant
entry_of node grant = record {
  gateway_id = node.gateway_id;
  node_fingerprint = gateway_grant_node_fingerprint node;
  expire_unix_ms = grant.ticket_expire_unix_ms;
  grant = some grant;
}

store_grant-get :
    (cache : Cache) (key : String) (node : Node) (built : Option GatewayAccessGrant)
    (grant : GatewayAccessGrant)
    → (store_grant cache key node built).grant ≡ some grant
    → get (store_grant cache key node built).cache key ≡ some (entry_of node grant)
unfolding store_grant
store_grant-get cache key node none grant e = ground (arith, e)
store_grant-get cache key node (some new) grant e =
    get-put cache key (entry_of node new) key
    ∙ rw (beq_refl key) (ap (Option.map (entry_of node)) e)

reused_lem :
    (node : Node) (grant : GatewayAccessGrant) (threshold : ℕ)
    → threshold < grant.ticket_expire_unix_ms
    → reused (some (entry_of node grant)) (gateway_grant_node_fingerprint node) threshold
      ≡ some grant
unfolding reused
reused_lem node grant threshold lt =
    ground (arith, lt, beq_refl (gateway_grant_node_fingerprint node))

module _ {Url : Type 0} (lib : Libraries Url) (secret : String) where
  from_cache :
      (held : Cache) (later : Terms) (node : Node) (salt : ℕ) (opts : GatewayGrantBuildOptions)
      (drawn : Drawn) (grant : GatewayAccessGrant)
      → get held (
          gateway_grant_cache_key later.network_key later.virtual_ip later.device_id
            node.gateway_id)
        ≡ some (entry_of node grant)
      → may_reuse opts ≡ true
      → expire_threshold later.now < grant.ticket_expire_unix_ms
      → gateway_access_grant_for_node lib secret held later node salt opts drawn ≡ record {
        cache = held;
        grant = some (record grant { policy_rev = later.policy_rev });
        is_changed = false;
      }
  unfolding gateway_access_grant_for_node or_new
  from_cache held later node salt opts drawn grant found reuse lt =
      rw found (rw reuse (rw (reused_lem node grant (expire_threshold later.now) lt) refl))

  entry_kept :
      (cache : Cache) (t : Terms) (node : Node) (salt : ℕ) (opts : GatewayGrantBuildOptions)
      (drawn : Drawn) (grant : GatewayAccessGrant)
      → (gateway_access_grant_for_node lib secret cache t node salt opts drawn).is_changed ≡ true
      → (gateway_access_grant_for_node lib secret cache t node salt opts drawn).grant ≡ some grant
      → get
          (gateway_access_grant_for_node lib secret cache t node salt opts drawn).cache
          (gateway_grant_cache_key t.network_key t.virtual_ip t.device_id node.gateway_id)
        ≡ some (entry_of node grant)
  unfolding gateway_access_grant_for_node
  entry_kept cache t node salt opts drawn grant changed given =
      let key = gateway_grant_cache_key t.network_key t.virtual_ip t.device_id node.gateway_id in
      let built =
        build_gateway_access_grant_for_node lib drawn secret t.virtual_ip t.device_id node
          (new_session_id opts (get cache key) t.now salt) t.expire_unix_ms t.refresh_after_unix_ms
          t.lease_secs t.grace_secs t.policy_rev in
      let found =
        if may_reuse opts
        then reused (get cache key) (gateway_grant_node_fingerprint node) (expire_threshold t.now)
        else none in
      let same =
        or_new-changed cache found t.policy_rev (store_grant cache key node built) changed in
      ap (λ i. get i.cache key) same
      ∙ store_grant-get cache key node built grant (sym (ap (λ i. i.grant) same) ∙ given)

module _ {Url : Type 0} (lib : Libraries Url) (secret : String) (cache : Cache) (t : Terms)
    (node : Node) (salt : ℕ) (opts : GatewayGrantBuildOptions) (drawn : Drawn) where
  -- A grant that was newly made for a node is given again to the same client, with nothing changed but
  -- the revision of the policy, at every time at which it does not expire within thirty seconds. The
  -- later call may name other times, options and random bytes, as long as its options allow the cache.
  pub grant_again :
      (grant : GatewayAccessGrant) (later : Terms) (salt' : ℕ) (opts' : GatewayGrantBuildOptions)
      (drawn' : Drawn)
      → (gateway_access_grant_for_node lib secret cache t node salt opts drawn).is_changed ≡ true
      → (gateway_access_grant_for_node lib secret cache t node salt opts drawn).grant ≡ some grant
      → later.network_key ≡ t.network_key
      → later.virtual_ip ≡ t.virtual_ip
      → later.device_id ≡ t.device_id
      → may_reuse opts' ≡ true
      → expire_threshold later.now < grant.ticket_expire_unix_ms
      → gateway_access_grant_for_node lib secret
          (gateway_access_grant_for_node lib secret cache t node salt opts drawn).cache
          later
          node
          salt'
          opts'
          drawn'
        ≡ record {
          cache = (gateway_access_grant_for_node lib secret cache t node salt opts drawn).cache;
          grant = some (record grant { policy_rev = later.policy_rev });
          is_changed = false;
        }
  grant_again grant later salt' opts' drawn' changed given same_key same_ip same_device reuse lt =
      from_cache lib secret
        (gateway_access_grant_for_node lib secret cache t node salt opts drawn).cache later node
        salt' opts' drawn' grant
        (rw same_key (
          rw same_ip (
            rw same_device
              (entry_kept lib secret cache t node salt opts drawn grant changed given))))
        reuse lt
