-- ===== src/Tests/Granting.antt =====
-- A client is granted gateway "g" and asks for it again.
use sdl_control.Base.{◌≡◌, refl, [], ◌∷◌, String, none, some, true, false, string_eq, arith}
use sdl_control.Base.Text.{trim_space}
use sdl_control.Base.Map
use sdl_control.Gateway.Grants.{GatewayChannel, Node}
use sdl_control.Gateway.Grants.Ticket.{
  GatewayAccessGrant, Libraries, Drawn, normalize_gateway_channel_addr, channel_https,
  build_gateway_access_grant_for_node,
}
use sdl_control.Gateway.Grants.Issue.{
  GatewayGrantBuildOptions, Terms, Cache, gateway_access_grant_for_node,
}
use sdl_control.Gateway.Grants.Again.{grant_again}

-- An encoding by the revision of the claims, and a reader of one URL
abbrev libraries : Libraries String
libraries = record {
  marshal_claims = λ claims. some (claims.policy_revision ∷ []);
  marshal_ticket = λ ticket. some ticket.claims;
  hmac_sha256 = λ key text. text;
  parse_url = λ s. some s;
  host = λ url. "gw.net";
  escaped_path = λ url. "/";
  at_gateway = λ url. "https://gw.net/gateway";
}

https_address :
    normalize_gateway_channel_addr libraries channel_https " https://gw.net/?q "
    ≡ "https://gw.net/gateway"
unfolding normalize_gateway_channel_addr trim_space
https_address = refl

no_https_address : normalize_gateway_channel_addr libraries channel_https "gw.net" ≡ ""
unfolding normalize_gateway_channel_addr trim_space
no_https_address = refl

abbrev quic : GatewayChannel
quic = record {
  kind = 2;
  addr = "quic://gw.net:443";
  server_name = " gw.net ";
  udp_public_key = 1 ∷ [];
  udp_key_id = "k";
}

abbrev node : Node
node = record {
  gateway_id = "g";
  endpoint = "gw.net:443";
  capabilities = [];
  channels = none ∷ some quic ∷ [];
  updated_at = 5;
}

abbrev no_grants : Cache
no_grants = []

abbrev terms : Terms
terms = record {
  network_key = "n";
  virtual_ip = 7;
  device_id = "d";
  expire_unix_ms = 90_000;
  refresh_after_unix_ms = 80_000;
  lease_secs = 300;
  grace_secs = 45;
  policy_rev = 3;
  now = 9_000_000_000;
}

abbrev later : Terms
later = record terms { policy_rev = 4; now = 19_000_000_000 }

abbrev plain : GatewayGrantBuildOptions
plain = record {
  last_session_id = 0;
  last_session_id_valid = false;
  force_reissue = false;
  refresh = false;
  retain_existing = false;
}

abbrev refreshing : GatewayGrantBuildOptions
refreshing = record plain { refresh = true }

abbrev drawn : Drawn
drawn = record { bytes = some (171 ∷ []); now_ms = 9000 }

abbrev no_bytes : Drawn
no_bytes = record { bytes = none; now_ms = 19_000 }

abbrev granted : GatewayAccessGrant
granted = record {
  ticket = 3 ∷ [];
  ticket_expire_unix_ms = 90_000;
  session_id = 9_000_000_001;
  policy_rev = 3;
  gateway_capabilities = [];
  lease_secs = 300;
  grace_secs = 45;
  gateway_channel = some (record {
    kind = 2;
    addr = "quic://gw.net:443";
    server_name = "gw.net";
    udp_public_key = [];
    udp_key_id = "";
  });
  gateway_id = "g";
  soft_refresh_after_unix_ms = 80_000;
  hard_expire_unix_ms = 90_000;
}

is_new :
    (gateway_access_grant_for_node libraries "s" no_grants terms node 1 plain drawn).is_changed
    ≡ true
unfolding gateway_access_grant_for_node Map.get trim_space build_gateway_access_grant_for_node
is_new = refl

is_granted :
    (gateway_access_grant_for_node libraries "s" no_grants terms node 1 plain drawn).grant
    ≡ some granted
unfolding gateway_access_grant_for_node Map.get trim_space build_gateway_access_grant_for_node
is_granted = refl

-- Without a secret there is no grant.
no_secret :
    (gateway_access_grant_for_node libraries " " no_grants terms node 1 plain drawn).grant ≡ none
unfolding gateway_access_grant_for_node Map.get trim_space build_gateway_access_grant_for_node
no_secret = refl

grant_again_example :
    gateway_access_grant_for_node libraries "s"
      (gateway_access_grant_for_node libraries "s" no_grants terms node 1 plain drawn).cache
      later
      node
      2
      refreshing
      no_bytes
    ≡ record {
      cache =
          (gateway_access_grant_for_node libraries "s" no_grants terms node 1 plain drawn).cache;
      grant = some (record granted { policy_rev = 4 });
      is_changed = false;
    }
unfolding sdl_control.Gateway.Grants.Issue.may_reuse sdl_control.Gateway.Grants.expire_threshold
grant_again_example =
    grant_again libraries "s" no_grants terms node 1 plain drawn granted later 2 refreshing no_bytes
      is_new is_granted refl refl refl refl (omega arith)
