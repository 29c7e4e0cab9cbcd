-- ===== src/Gateway/Approval.antt =====
-- control/gateway.go and control/controller.go: which gateways are approved. The lists of nodes, of
-- reports and of approvals and the cache of grants are guarded by one mutex: an operation is one step.
pub mod Decide
use sdl_control.Base.{
  ℕ, ◌+◌, ◌*◌, List, [], ◌∷◌, String, Option, none, some, Bool, true, false, ◌&&◌, ◌||◌, not, ◌==◌,
  string_eq, ltb, if◌then◌else◌, is_some,
}
use sdl_control.Base.Text.{trim_space}
use sdl_control.Base.Map.{Map, get, put, delete}

-- `Channel` is the generated message pb.GatewayChannel and `Grant` the generated
-- pb.GatewayAccessGrant: the operations below only move them.
pub record GatewayNodeInfo (Channel : Type 0) : Type 0 where
  pub gateway_id : String
  pub endpoint : String
  pub capabilities : List String
  pub channels : List Channel
  pub updated_at : ℕ

pub record CachedGatewayGrant (Grant : Type 0) : Type 0 where
  pub gateway_id : String
  pub node_fingerprint : String
  pub expire_unix_ms : ℕ
  pub grant : Option Grant

-- The controller's fields on gateways, and `default_gateway_id` of its configuration.
pub record Gateways (Channel Grant : Type 0) : Type 0 where
  pub default_gateway_id : String
  pub nodes : Map String (GatewayNodeInfo Channel)
  pub seen : Map String (GatewayNodeInfo Channel)
  pub allow : Map String String
  pub grant_cache : Map String (CachedGatewayGrant Grant)

pub data GatewayError : Type 0 where
  gateway_id_required no_pending_report cannot_delist gateway_not_found : GatewayError

abbrev pub gateway_node_lease : ℕ
gateway_node_lease = 90 * 1_000_000_000

pub record Outcome (Channel Grant : Type 0) : Type 0 where
  pub state : Gateways Channel Grant
  pub error : Option GatewayError

-- endpoint, ok := c.gatewayAllow[gatewayID]; ok && strings.TrimSpace(endpoint) != ""
unfoldable pub has_endpoint : Option String → Bool
has_endpoint none = false
has_endpoint (some endpoint) = not (trim_space endpoint == "")

-- allowedEndpoint, ok := c.gatewayAllow[gatewayID], and the comparison
unfoldable pub matches_endpoint : Option String → String → Bool
matches_endpoint none endpoint = false
matches_endpoint (some allowed) endpoint = trim_space allowed == trim_space endpoint

-- The approval as it stands against the endpoint of the node
unfoldable pub agrees : Option String → Bool → String → Bool
agrees none default endpoint = default
agrees (some approved) default endpoint =
    trim_space approved == "" || trim_space approved == trim_space endpoint

-- if active { c.gatewaySeen[gatewayID] = node }
unfoldable pub back_to_seen :
    {Channel : Type 0}
    → Map String (GatewayNodeInfo Channel)
    → String
    → Option (GatewayNodeInfo Channel)
    → Map String (GatewayNodeInfo Channel)
back_to_seen seen gateway_id none = seen
back_to_seen seen gateway_id (some node) = put seen gateway_id node

unfoldable pub delete_gateway_grant_cache_for_gateway :
    {Grant : Type 0}
    → Map String (CachedGatewayGrant Grant)
    → String
    → Map String (CachedGatewayGrant Grant)
delete_gateway_grant_cache_for_gateway [] gateway_id = []
delete_gateway_grant_cache_for_gateway ((key, cached) ∷ rest) gateway_id =
    let later = delete_gateway_grant_cache_for_gateway rest gateway_id in
    if cached.gateway_id == gateway_id then later else (key, cached) ∷ later

module _ {Channel Grant : Type 0} where
  unfoldable pub is_default : Gateways Channel Grant → String → Bool
  is_default g gateway_id = trim_space gateway_id == trim_space g.default_gateway_id

  unfoldable pub approve_gateway_node :
      Gateways Channel Grant → String → String → Gateways Channel Grant
  approve_gateway_node g gateway_id endpoint = record g { allow = put g.allow gateway_id endpoint }

  unfoldable pub approve_seen :
      Gateways Channel Grant → String → Option (GatewayNodeInfo Channel) → Outcome Channel Grant
  approve_seen g gateway_id none = record { state = g; error = some no_pending_report }
  approve_seen g gateway_id (some node) =
      if trim_space node.endpoint == ""
      then record { state = g; error = some no_pending_report }
      else record {
        state = record g {
          allow = put g.allow gateway_id node.endpoint;
          nodes = put g.nodes gateway_id node;
        };
        error = none;
      }

  unfoldable pub approve_gateway_node_by_id :
      Gateways Channel Grant → String → Outcome Channel Grant
  unfolding approve_seen has_endpoint
  approve_gateway_node_by_id g raw_id =
      let gateway_id = trim_space raw_id in
      if gateway_id == ""
      then record { state = g; error = some gateway_id_required }
      else if gateway_id == trim_space g.default_gateway_id
      then record { state = g; error = none }
      else if has_endpoint (get g.allow gateway_id)
      then record { state = g; error = none }
      else approve_seen g gateway_id (get g.seen gateway_id)

  unfoldable pub delist_gateway_node_by_id : Gateways Channel Grant → String → Outcome Channel Grant
  unfolding back_to_seen
  delist_gateway_node_by_id g raw_id =
      let gateway_id = trim_space raw_id in
      let node = get g.nodes gateway_id in
      if gateway_id == ""
      then record { state = g; error = some gateway_id_required }
      else if gateway_id == trim_space g.default_gateway_id
      then record { state = g; error = some cannot_delist }
      else if not (is_some (get g.allow gateway_id))
          && not (is_some node)
          && not (is_some (get g.seen gateway_id))
      then record { state = g; error = some gateway_not_found }
      else record {
        state = record g {
          seen = back_to_seen g.seen gateway_id node;
          allow = delete g.allow gateway_id;
          nodes = delete g.nodes gateway_id;
          grant_cache = delete_gateway_grant_cache_for_gateway g.grant_cache gateway_id;
        };
        error = none;
      }

  unfoldable pub is_gateway_allowed : Gateways Channel Grant → String → String → Bool
  unfolding matches_endpoint is_default
  is_gateway_allowed g gateway_id endpoint =
      is_default g gateway_id || matches_endpoint (get g.allow gateway_id) endpoint

  unfoldable pub record_gateway_seen :
      Gateways Channel Grant → GatewayNodeInfo Channel → Gateways Channel Grant
  record_gateway_seen g info = record g { seen = put g.seen info.gateway_id info }

  unfoldable pub gateway_node_approved : Gateways Channel Grant → GatewayNodeInfo Channel → Bool
  unfolding agrees
  gateway_node_approved g node =
      not (trim_space node.endpoint == "")
      && agrees (get g.allow node.gateway_id) (node.gateway_id == trim_space g.default_gateway_id)
          node.endpoint

  -- The nodes that may be granted, in the order of the map; the source then sorts them.
  unfoldable pub approved_alive_gateway_nodes :
      Gateways Channel Grant
      → Map String (GatewayNodeInfo Channel)
      → ℕ
      → List (GatewayNodeInfo Channel)
  unfolding gateway_node_approved
  approved_alive_gateway_nodes g [] now = []
  approved_alive_gateway_nodes g ((key, node) ∷ rest) now =
      let later = approved_alive_gateway_nodes g rest now in
      if ltb (node.updated_at + gateway_node_lease) now
      then later
      else if gateway_node_approved g node
      then node ∷ later
      else later
