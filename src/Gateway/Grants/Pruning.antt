-- ===== src/Gateway/Grants/Pruning.antt =====
-- control/gateway.go: which cached grants stay, and which of them a client retains.
use sdl_control.Base.{
  ℕ, ◌+◌, ◌/◌, ◌*◌, ◌≡◌, refl, ap, ◌∙◌, List, [], ◌∷◌, String, Option, none, some, Bool, false, not,
  ◌&&◌, ◌||◌, ◌==◌, string_eq, ltb, is_some, if◌then◌else◌, arith,
}
use text.Mathlib.TextEquality.{eq_iff}
use sdl_control.Base.Text.{trim_space}
use sdl_control.Base.Map.{Map, get, IsUnique}
use sdl_control.Gateway.Approval.{CachedGatewayGrant, Gateways, gateway_node_approved, agrees}
use sdl_control.Gateway.Grants.{
  GatewayChannel, Node, gateway_grant_node_fingerprint, gateway_grant_cache_prefix, has_prefix,
  is_alive, expire_threshold, is_current, may_be_retained, kept_grants, prune_gateway_grant_cache,
  append_grant, retained_from, retained_gateway_access_grants,
}

-- An approval names the endpoint or none; without an approval the default gateway alone may be used.
abbrev pub allows : Option String → Bool → String → Bool
allows none default endpoint = default
allows (some approved) default endpoint =
    trim_space approved == "" || trim_space approved == trim_space endpoint

module _ {Grant : Type 0} (g : Gateways (Option GatewayChannel) Grant) (now : ℕ) where
  -- A cached grant that may be given to a client still: the node of its gateway is stored, has an
  -- endpoint and is approved, and has the fingerprint that was granted; the grant is there, and expires
  -- later than thirty seconds from now.
  abbrev pub serves : CachedGatewayGrant Grant → Option Node → Bool
  serves cached none = false
  serves cached (some node) =
      (not (trim_space node.endpoint == "")
        && allows (get g.allow node.gateway_id) (node.gateway_id == trim_space g.default_gateway_id)
            node.endpoint)
      && is_some cached.grant
      && ltb ((now + 30 * 1_000_000_000) / 1_000_000) cached.expire_unix_ms
      && (cached.node_fingerprint == gateway_grant_node_fingerprint node)

  abbrev pub is_usable : CachedGatewayGrant Grant → Bool
  is_usable cached = serves cached (get g.nodes cached.gateway_id)

  -- What becomes of the entry of a key
  abbrev pub if_usable : Option (CachedGatewayGrant Grant) → Option (CachedGatewayGrant Grant)
  if_usable none = none
  if_usable (some cached) = if is_usable cached then some cached else none

  -- The usable grants under a prefix whose gateway is not alive, with a revision of the policy
  abbrev pub offers :
      (Grant → ℕ → Grant)
      → String
      → List Node
      → ℕ
      → Map String (CachedGatewayGrant Grant)
      → List Grant
  offers with_policy_rev prefix alive rev [] = []
  offers with_policy_rev prefix alive rev ((key, cached) ∷ rest) =
      let later = offers with_policy_rev prefix alive rev rest in
      if has_prefix key prefix && not (is_alive alive cached.gateway_id) && is_usable cached
      then append_grant with_policy_rev cached.grant rev later
      else later

  allows_lem :
      (o : Option String) (default : Bool) (endpoint : String)
      → agrees o default endpoint ≡ allows o default endpoint
  unfolding agrees
  allows_lem none default endpoint = refl
  allows_lem (some approved) default endpoint = refl

  module _ (cache : Map String (CachedGatewayGrant Grant)) where
    abbrev with_cache : Gateways (Option GatewayChannel) Grant
    with_cache = record g { grant_cache = cache }

    is_current_lem :
        (cached : CachedGatewayGrant Grant) (node : Option Node)
        → is_current with_cache (expire_threshold now) cached node ≡ serves cached node
    unfolding is_current gateway_node_approved expire_threshold
    is_current_lem cached none = refl
    is_current_lem cached (some node) =
        rw
          (allows_lem (get g.allow node.gateway_id)
            (node.gateway_id == trim_space g.default_gateway_id) node.endpoint)
          refl

    retained_lem :
        (cached : CachedGatewayGrant Grant) (node : Option Node)
        → may_be_retained with_cache (expire_threshold now) cached node ≡ serves cached node
    unfolding may_be_retained gateway_node_approved expire_threshold
    retained_lem cached none = refl
    retained_lem cached (some node) =
        rw
          (allows_lem (get g.allow node.gateway_id)
            (node.gateway_id == trim_space g.default_gateway_id) node.endpoint)
          refl

    kept_get :
        (entries : Map String (CachedGatewayGrant Grant)) (key : String)
        → IsUnique entries
        → get (kept_grants with_cache (expire_threshold now) entries) key
          ≡ if_usable (get entries key)
    unfolding kept_grants get
    kept_get [] key u = refl
    kept_get ((k, cached) ∷ rest) key u = ground (
      arith,
      kept_get rest key u.1,
      is_current_lem cached (get g.nodes cached.gateway_id),
      u.0,
      eq_iff k key,
      same key,
    )
      where
        same : (x : String) → k ≡ x → get rest k ≡ get rest x
        same x p = ap (get rest) p

    module _ (with_policy_rev : Grant → ℕ → Grant) (prefix : String) (alive : List Node)
        (rev : ℕ) where
      retained_offers :
          (entries : Map String (CachedGatewayGrant Grant))
          → retained_from with_policy_rev with_cache (expire_threshold now) prefix alive rev entries
            ≡ offers with_policy_rev prefix alive rev entries
      unfolding retained_from
      retained_offers [] = refl
      retained_offers ((k, cached) ∷ rest) =
          ground (arith, retained_offers rest, retained_lem cached (get g.nodes cached.gateway_id))

      offers_kept :
          (entries : Map String (CachedGatewayGrant Grant))
          → offers with_policy_rev prefix alive rev
              (kept_grants with_cache (expire_threshold now) entries)
            ≡ offers with_policy_rev prefix alive rev entries
      unfolding kept_grants
      offers_kept [] = refl
      offers_kept ((k, cached) ∷ rest) =
          ground (arith, offers_kept rest, is_current_lem cached (get g.nodes cached.gateway_id))

  kept_again :
      (c d entries : Map String (CachedGatewayGrant Grant))
      → kept_grants
          (with_cache c)
          (expire_threshold now)
          (kept_grants (with_cache d) (expire_threshold now) entries)
        ≡ kept_grants (with_cache d) (expire_threshold now) entries
  unfolding kept_grants
  kept_again c d [] = refl
  kept_again c d ((k, cached) ∷ rest) = ground (
    arith,
    is_current_lem c cached (get g.nodes cached.gateway_id),
    is_current_lem d cached (get g.nodes cached.gateway_id),
    kept_again c d rest,
  )

  -- The pruning of a cache in which no key stands twice keeps exactly the entries whose node is stored,
  -- has an endpoint, is approved and has the fingerprint of the entry, and whose grant is there and
  -- expires later than thirty seconds from now. A client retains exactly the grants of such entries that
  -- stand under its prefix and whose gateway is not alive, each with the revision that is given, and it
  -- retains the same ones after the pruning. A second pruning at that time removes nothing.
  pub pruning_lem :
      (with_policy_rev : Grant → ℕ → Grant) (network_key : String) (virtual_ip : ℕ)
      (device_id : String) (alive : List Node) (rev : ℕ) (key : String)
      → IsUnique g.grant_cache
      → (get (prune_gateway_grant_cache g now).grant_cache key ≡ if_usable (get g.grant_cache key))
        × (retained_gateway_access_grants with_policy_rev g network_key virtual_ip device_id alive
              rev now
            ≡ offers with_policy_rev
                (gateway_grant_cache_prefix network_key virtual_ip device_id)
                alive
                rev
                g.grant_cache)
        × (retained_gateway_access_grants with_policy_rev
              (prune_gateway_grant_cache g now)
              network_key
              virtual_ip
              device_id
              alive
              rev
              now
            ≡ offers with_policy_rev
                (gateway_grant_cache_prefix network_key virtual_ip device_id)
                alive
                rev
                g.grant_cache)
        × (prune_gateway_grant_cache (prune_gateway_grant_cache g now) now
            ≡ prune_gateway_grant_cache g now)
  unfolding prune_gateway_grant_cache retained_gateway_access_grants
  pruning_lem with_policy_rev network_key virtual_ip device_id alive rev key u =
      let prefix = gateway_grant_cache_prefix network_key virtual_ip device_id in
      let kept = kept_grants g (expire_threshold now) g.grant_cache in
      (
        kept_get g.grant_cache g.grant_cache key u,
        retained_offers g.grant_cache with_policy_rev prefix alive rev g.grant_cache,
        retained_offers kept with_policy_rev prefix alive rev kept
            ∙ offers_kept g.grant_cache with_policy_rev prefix alive rev g.grant_cache,
        ap (λ c. record g { grant_cache = c }) (kept_again kept g.grant_cache g.grant_cache),
      )
