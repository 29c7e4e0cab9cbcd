-- ===== src/Tests/Gateways.antt =====
-- A gateway "g" that reports, is approved, and is delisted.
use sdl_control.Base.{
  ℕ, ◌+◌, ◌*◌, ◌≤◌, ◌≡◌, ◌≢◌, refl, String, [], ◌∷◌, none, some, All, nat_eq, Option, true, false,
  ◌<◌, ◌^◌, ◌-◌, ◌⊎◌, ◌==◌, if◌then◌else◌, string_eq, arith,
}
use text.Mathlib.TextEquality.{eq_iff}
use sdl_control.Base.Text.{trim_space}
use sdl_control.Base.Map
use sdl_control.Base.Map.{Map, IsUnique}
use sdl_control.Gateway.Replay.{
  Nonces, validate_gateway_replay_window, cache_of, report_freshness_window_ms, millisecond,
}
use sdl_control.Gateway.Replay.Window.{Report, check_all, replay_refused}
use sdl_control.Gateway.Replay.Deadline.{replay_at_deadline}
use sdl_control.Gateway.Approval.{
  GatewayNodeInfo, Gateways, delist_gateway_node_by_id, approved_alive_gateway_nodes,
}
use sdl_control.Gateway.Approval.Decide.{delist_gateway_lem}
use sdl_control.Gateway.Grants.{
  GatewayChannel, Node, GrantPolicy, gateway_grant_fingerprint, sync_gateway_grant_policy,
  gateway_grant_cache_prefix, prune_gateway_grant_cache, retained_gateway_access_grants,
}
use sdl_control.Gateway.Grants.Effects.{sync_lem}
use sdl_control.Gateway.Grants.Pruning.{if_usable, offers, pruning_lem}

abbrev none_yet : Nonces
none_yet = []

accepted : (validate_gateway_replay_window none_yet "g" 1000 "ab" 1_000_000_000).error ≡ none
unfolding validate_gateway_replay_window Map.get
accepted = refl

abbrev other : Report
other = record { gateway_id = "g"; report_ms = 1000; nonce = "cd"; now = 1_500_000_000 }

ordered : All (λ r. r.now ≤ 2_000_000_000) (other ∷ [])
ordered = (omega arith, tt)

off_deadline : 2_000_000_000 ≢ (1000 + report_freshness_window_ms) * millisecond
off_deadline = omega arith

replay_refused_example :
    (validate_gateway_replay_window
      (check_all
        (validate_gateway_replay_window none_yet "g" 1000 "ab" 1_000_000_000).nonces
        (other ∷ []))
      "g"
      1000
      "ab"
      2_000_000_000).error
    ≢ none
replay_refused_example =
    replay_refused none_yet "g" 1000 "ab" 1_000_000_000 accepted (other ∷ []) 2_000_000_000 ordered
      off_deadline

none_IsUnique : IsUnique (cache_of (Map.get none_yet "g"))
unfolding cache_of Map.get
none_IsUnique = tt

replay_at_deadline_example :
    (validate_gateway_replay_window
      (validate_gateway_replay_window none_yet "g" 1000 "ab" 1_000_000_000).nonces
      "g"
      1000
      "ab"
      ((1000 + report_freshness_window_ms) * millisecond)).error
    ≡ none
replay_at_deadline_example =
    replay_at_deadline none_yet "g" 1000 "ab" 1_000_000_000 none_IsUnique accepted

abbrev node : GatewayNodeInfo ℕ
node = record {
  gateway_id = "g";
  endpoint = "1.2.3.4:443";
  capabilities = [];
  channels = 1 ∷ [];
  updated_at = 5;
}

abbrev gateways : Gateways ℕ String
gateways = record {
  default_gateway_id = "default";
  nodes = ("g", node) ∷ [];
  seen = [];
  allow = ("g", "1.2.3.4:443") ∷ [];
  grant_cache =
      (
        "k",
        record { gateway_id = "g"; node_fingerprint = "f"; expire_unix_ms = 9; grant = some "x" },
      )
      ∷ [];
}

delists : (delist_gateway_node_by_id gateways " g ").error ≡ none
unfolding delist_gateway_node_by_id trim_space Map.get
delists = refl

delist_gateway_lem_example :
    All
      (λ n. n.gateway_id ≢ trim_space " g ")
      (approved_alive_gateway_nodes
        (delist_gateway_node_by_id gateways " g ").state
        (delist_gateway_node_by_id gateways " g ").state.nodes
        6)
    × All
        (λ e. e.1.gateway_id ≢ trim_space " g ")
        (delist_gateway_node_by_id gateways " g ").state.grant_cache
delist_gateway_lem_example = delist_gateway_lem gateways " g " delists 6

is_active : Map.get gateways.nodes (trim_space " g ") ≡ some node
unfolding Map.get trim_space
is_active = refl

has_address : trim_space node.endpoint ≢ ""
unfolding trim_space
has_address e = ground (arith, eq_iff (trim_space node.endpoint) "")

abbrev channel : GatewayChannel
channel = record {
  kind = 2;
  addr = "1.2.3.4:443";
  server_name = "";
  udp_public_key = 171 ∷ 5 ∷ [];
  udp_key_id = "k";
}

abbrev udp_node : Node
udp_node = record {
  gateway_id = "g";
  endpoint = "1.2.3.4:443";
  capabilities = "a" ∷ "b" ∷ [];
  channels = some channel ∷ none ∷ [];
  updated_at = 5;
}

node_fingerprint :
    gateway_grant_fingerprint (udp_node ∷ []) ≡ "g;1.2.3.4:443;a,b;2|1.2.3.4:443||k|ab05"
unfolding gateway_grant_fingerprint sdl_control.Base.Decimal.decimal
node_fingerprint = refl

-- The last revision of 64 bits
abbrev last_policy : GrantPolicy
last_policy = record { fingerprint = "before"; rev = 2 ^ 64 - 1 }

wraps_to_one : (sync_gateway_grant_policy last_policy (udp_node ∷ [])).policy_rev ≡ 1
unfolding sync_gateway_grant_policy sdl_control.Base.Decimal.decimal
wraps_to_one = refl

sync_lem_example :
    ((sync_gateway_grant_policy last_policy (udp_node ∷ [])).policy.fingerprint
      ≡ gateway_grant_fingerprint (udp_node ∷ []))
    × (1 ≤ (sync_gateway_grant_policy last_policy (udp_node ∷ [])).policy_rev)
    × ((sync_gateway_grant_policy last_policy (udp_node ∷ [])).policy_rev < 2 ^ 64)
    × (((gateway_grant_fingerprint (udp_node ∷ []) ≡ last_policy.fingerprint)
          × ((sync_gateway_grant_policy last_policy (udp_node ∷ [])).policy_rev
              ≡ (if last_policy.rev == 0 then 1 else last_policy.rev)))
        ⊎ ((gateway_grant_fingerprint (udp_node ∷ []) ≢ last_policy.fingerprint)
            × ((sync_gateway_grant_policy last_policy (udp_node ∷ [])).policy_rev
                ≢ last_policy.rev)))
    × (sync_gateway_grant_policy
          (sync_gateway_grant_policy last_policy (udp_node ∷ [])).policy
          (udp_node ∷ [])
        ≡ record {
          policy = (sync_gateway_grant_policy last_policy (udp_node ∷ [])).policy;
          policy_rev = (sync_gateway_grant_policy last_policy (udp_node ∷ [])).policy_rev;
          is_changed = false;
        })
sync_lem_example = sync_lem last_policy (udp_node ∷ []) (omega arith)

abbrev granting : Gateways (Option GatewayChannel) String
granting = record {
  default_gateway_id = "g";
  nodes = ("g", udp_node) ∷ [];
  seen = [];
  allow = [];
  grant_cache =
      (
        "n|7|d|g",
        record {
          gateway_id = "g";
          node_fingerprint = "g;1.2.3.4:443;a,b;2|1.2.3.4:443||k|ab05";
          expire_unix_ms = 40_000;
          grant = some "x";
        },
      )
      ∷ (
        "n|7|d|h",
        record {
          gateway_id = "h";
          node_fingerprint = "h";
          expire_unix_ms = 40_000;
          grant = some "y";
        },
      )
      ∷ [];
}

abbrev with_rev : String → ℕ → String
with_rev grant rev = grant

retains_g : retained_gateway_access_grants with_rev granting "n" 7 "d" [] 3 9_000_000_000 ≡ "x" ∷ []
unfolding retained_gateway_access_grants Map.get trim_space sdl_control.Base.Decimal.decimal
    sdl_control.Gateway.Approval.gateway_node_approved
retains_g = refl

granting_IsUnique : IsUnique granting.grant_cache
unfolding Map.get
granting_IsUnique = (refl, (refl, tt))

pruning_lem_example :
    (Map.get (prune_gateway_grant_cache granting 9_000_000_000).grant_cache "n|7|d|g"
      ≡ if_usable granting 9_000_000_000 (Map.get granting.grant_cache "n|7|d|g"))
    × (retained_gateway_access_grants with_rev granting "n" 7 "d" [] 3 9_000_000_000
        ≡ offers granting 9_000_000_000 with_rev
            (gateway_grant_cache_prefix "n" 7 "d")
            []
            3
            granting.grant_cache)
    × (retained_gateway_access_grants with_rev
          (prune_gateway_grant_cache granting 9_000_000_000)
          "n"
          7
          "d"
          []
          3
          9_000_000_000
        ≡ offers granting 9_000_000_000 with_rev
            (gateway_grant_cache_prefix "n" 7 "d")
            []
            3
            granting.grant_cache)
    × (prune_gateway_grant_cache (prune_gateway_grant_cache granting 9_000_000_000) 9_000_000_000
        ≡ prune_gateway_grant_cache granting 9_000_000_000)
pruning_lem_example =
    pruning_lem granting 9_000_000_000 with_rev "n" 7 "d" [] 3 "n|7|d|g" granting_IsUnique
