-- ===== src/Gateway/Approval/Decide.antt =====
-- What an approval and a delisting decide.
use sdl_control.Base.{
  ℕ, ◌+◌, ◌≡◌, ◌≢◌, ◌≤◌, refl, List, [], ◌∷◌, String, none, some, true, false, ◌==◌, string_eq,
  arith, All, beq_refl, Bool-cases, inl, inr,
}
use text.Mathlib.TextEquality.{eq_iff}
use sdl_control.Base.Text.{trim_space}
use sdl_control.Base.Map.{Map, get, put, delete, get-put, get-delete}
use sdl_control.Gateway.Approval.{
  GatewayNodeInfo, CachedGatewayGrant, Gateways, gateway_node_lease, has_endpoint, approve_seen,
  agrees, back_to_seen, approve_gateway_node_by_id, delete_gateway_grant_cache_for_gateway,
  delist_gateway_node_by_id, gateway_node_approved, approved_alive_gateway_nodes,
}

delete_gateway_grant_cache_lem :
    {Grant : Type 0} (cache : Map String (CachedGatewayGrant Grant)) (gateway_id : String)
    → All
        (λ e. e.1.gateway_id ≢ gateway_id)
        (delete_gateway_grant_cache_for_gateway cache gateway_id)
unfolding delete_gateway_grant_cache_for_gateway
delete_gateway_grant_cache_lem [] gateway_id = tt
delete_gateway_grant_cache_lem ((key, cached) ∷ rest) gateway_id =
    elim (Bool-cases (cached.gateway_id == gateway_id)) [
      | inl e ↦ rw e (delete_gateway_grant_cache_lem rest gateway_id)
      | inr e ↦ rw e (
        ground (arith, e, eq_iff cached.gateway_id gateway_id),
        delete_gateway_grant_cache_lem rest gateway_id,
      )
    ]

module _ {Channel Grant : Type 0} where
  -- What may be granted was approved, and reported within the lease.
  pub approved_alive_lem :
      (g : Gateways Channel Grant) (nodes : Map String (GatewayNodeInfo Channel)) (now : ℕ)
      → All
          (λ n. (gateway_node_approved g n ≡ true) × (now ≤ n.updated_at + gateway_node_lease))
          (approved_alive_gateway_nodes g nodes now)
  unfolding approved_alive_gateway_nodes
  approved_alive_lem g [] now = tt
  approved_alive_lem g ((key, node) ∷ rest) now = ground (arith, approved_alive_lem g rest now)

  -- The approval of a gateway that reported and waits
  approve_pending :
      (g : Gateways Channel Grant) (raw_id : String) (node : GatewayNodeInfo Channel)
      → trim_space raw_id ≢ ""
      → trim_space raw_id ≢ trim_space g.default_gateway_id
      → get g.allow (trim_space raw_id) ≡ none
      → get g.seen (trim_space raw_id) ≡ some node
      → trim_space node.endpoint ≢ ""
      → approve_gateway_node_by_id g raw_id ≡ record {
        state = record g {
          allow = put g.allow (trim_space raw_id) node.endpoint;
          nodes = put g.nodes (trim_space raw_id) node;
        };
        error = none;
      }
  unfolding approve_gateway_node_by_id has_endpoint approve_seen
  approve_pending g raw_id node some_id other no_allow is_seen endpoint = ground (
    arith,
    eq_iff (trim_space raw_id) "",
    eq_iff (trim_space raw_id) (trim_space g.default_gateway_id),
    eq_iff (trim_space node.endpoint) "",
  )

  module _ (g : Gateways Channel Grant) (raw_id : String)
      (done : (delist_gateway_node_by_id g raw_id).error ≡ none) where
    abbrev delisted : Gateways Channel Grant
    delisted = (delist_gateway_node_by_id g raw_id).state

    delist_ok :
        (trim_space raw_id ≢ "")
        × (trim_space raw_id ≢ trim_space g.default_gateway_id)
        × (delisted ≡ record g {
          seen = back_to_seen g.seen (trim_space raw_id) (get g.nodes (trim_space raw_id));
          allow = delete g.allow (trim_space raw_id);
          nodes = delete g.nodes (trim_space raw_id);
          grant_cache = delete_gateway_grant_cache_for_gateway g.grant_cache (trim_space raw_id);
        })
    unfolding delist_gateway_node_by_id
    delist_ok = ground (
      arith,
      eq_iff (trim_space raw_id) "",
      eq_iff (trim_space raw_id) (trim_space g.default_gateway_id),
    )

    unapproved :
        (node : GatewayNodeInfo Channel)
        → node.gateway_id ≡ trim_space raw_id
        → gateway_node_approved delisted node ≡ false
    unfolding gateway_node_approved agrees
    unapproved node e =
        rw
          (
            delist_ok.2,
            e,
            get-delete g.allow (trim_space raw_id) (trim_space raw_id),
            beq_refl (trim_space raw_id),
          )
          (ground
            (arith, delist_ok.1, eq_iff (trim_space raw_id) (trim_space g.default_gateway_id)))

    -- After a delisting that succeeded, no node of that gateway is among those that may be granted,
    -- at any time, and no grant of that gateway is left in the cache.
    pub delist_gateway_lem :
        (now : ℕ)
        → All
            (λ n. n.gateway_id ≢ trim_space raw_id)
            (approved_alive_gateway_nodes delisted delisted.nodes now)
          × All (λ e. e.1.gateway_id ≢ trim_space raw_id) delisted.grant_cache
    delist_gateway_lem now = (
      granted (approved_alive_gateway_nodes delisted delisted.nodes now)
          (approved_alive_lem delisted delisted.nodes now),
      rw delist_ok.2 (delete_gateway_grant_cache_lem g.grant_cache (trim_space raw_id)),
    )
      where
        granted :
            (nodes : List (GatewayNodeInfo Channel))
            → All
                (λ n.
                  (gateway_node_approved delisted n ≡ true)
                  × (now ≤ n.updated_at + gateway_node_lease))
                nodes
            → All (λ n. n.gateway_id ≢ trim_space raw_id) nodes
        granted [] a = tt
        granted (n ∷ ns) a = (λ e. ground (arith, unapproved n e, a.0.0), granted ns a.1)

    seen_again :
        (node : GatewayNodeInfo Channel)
        → get g.nodes (trim_space raw_id) ≡ some node
        → get delisted.seen (trim_space raw_id) ≡ some node
    unfolding back_to_seen
    seen_again node active =
        rw
          (
            delist_ok.2,
            active,
            get-put g.seen (trim_space raw_id) node (trim_space raw_id),
            beq_refl (trim_space raw_id),
          )
          refl

    -- A gateway that was active under an endpoint that is not blank, and that was delisted, is
    -- brought back by an approval by its id: the same node is active and its endpoint approved.
    pub approve-delist :
        (node : GatewayNodeInfo Channel)
        → get g.nodes (trim_space raw_id) ≡ some node
        → trim_space node.endpoint ≢ ""
        → ((approve_gateway_node_by_id delisted raw_id).error ≡ none)
          × (get (approve_gateway_node_by_id delisted raw_id).state.nodes (trim_space raw_id)
              ≡ some node)
          × (get (approve_gateway_node_by_id delisted raw_id).state.allow (trim_space raw_id)
              ≡ some node.endpoint)
    approve-delist node active endpoint =
        let id = trim_space raw_id in
        let pending =
          approve_pending delisted raw_id node delist_ok.0 (rw delist_ok.2 delist_ok.1)
            (rw (delist_ok.2, get-delete g.allow id id, beq_refl id) refl) (seen_again node active)
            endpoint in
        rw pending (
          refl,
          rw (get-put delisted.nodes id node id, beq_refl id) refl,
          rw (get-put delisted.allow id node.endpoint id, beq_refl id) refl,
        )
