-- ===== src/Gateway/Grants/Ticket.antt =====
-- control/gateway.go: newGatewayTicket, the normal form of channels and buildGatewayAccessGrantForNode.
-- Packages encoding, crypto and net/url are arguments.
use sdl_control.Base.{
  ℕ, ◌-◌, List, [], ◌∷◌, String, Option, none, some, ◌||◌, not, ◌==◌, string_eq, nat_eq,
  if◌then◌else◌,
}
use sdl_control.Base.Utf8.{utf8}
use sdl_control.Base.Text.{trim_space}
use sdl_control.Gateway.Grants.{GatewayChannel, Node, has_prefix, hex}

pub record GatewayTicketClaims : Type 0 where
  pub ticket_id : String
  pub device_id : String
  pub virtual_ip : ℕ
  pub session_id : ℕ
  pub policy_revision : ℕ
  pub gateway_ids : List String
  pub gateway_group_id : String
  pub issued_at_unix_ms : ℕ
  pub not_before_unix_ms : ℕ
  pub expire_unix_ms : ℕ
  pub lease_cap_secs : ℕ
  pub grace_cap_secs : ℕ

pub record SignedGatewayTicket : Type 0 where
  pub alg : String
  pub claims : List ℕ
  pub signature : List ℕ

pub record GatewayAccessGrant : Type 0 where
  pub ticket : List ℕ
  pub ticket_expire_unix_ms : ℕ
  pub session_id : ℕ
  pub policy_rev : ℕ
  pub gateway_capabilities : List String
  pub lease_secs : ℕ
  pub grace_secs : ℕ
  pub gateway_channel : Option GatewayChannel
  pub gateway_id : String
  pub soft_refresh_after_unix_ms : ℕ
  pub hard_expire_unix_ms : ℕ

-- What the code uses of the libraries: the deterministic encoding of the two messages, hmac-sha256 of a
-- key and a text, url.Parse, Host and EscapedPath of an URL, and its String once its path is "/gateway"
-- and its query and fragment are empty.
pub record Libraries (Url : Type 0) : Type 0 where
  pub marshal_claims : GatewayTicketClaims → Option (List ℕ)
  pub marshal_ticket : SignedGatewayTicket → Option (List ℕ)
  pub hmac_sha256 : List ℕ → List ℕ → List ℕ
  pub parse_url : String → Option Url
  pub host : Url → String
  pub escaped_path : Url → String
  pub at_gateway : Url → String

-- What one call reads: 12 random bytes, or the error of the source of them, and the clock.
pub record Drawn : Type 0 where
  pub bytes : Option (List ℕ)
  pub now_ms : ℕ

abbrev pub channel_udp : ℕ
channel_udp = 1

abbrev pub channel_quic : ℕ
channel_quic = 2

abbrev pub channel_https : ℕ
channel_https = 3

unfoldable pub normalize_gateway_channel_kind : ℕ → ℕ
normalize_gateway_channel_kind kind =
    if kind == channel_udp || kind == channel_quic || kind == channel_https then kind else 0

module _ {Url : Type 0} (lib : Libraries Url) where
  unfoldable pub normalize_url : Option Url → String
  normalize_url none = ""
  normalize_url (some url) =
      if trim_space (lib.host url) == ""
      then ""
      else if lib.escaped_path url == ""
          || lib.escaped_path url == "/"
          || lib.escaped_path url == "/gateway"
      then lib.at_gateway url
      else ""

  unfoldable pub normalize_gateway_channel_addr : ℕ → String → String
  unfolding normalize_url has_prefix
  normalize_gateway_channel_addr kind raw =
      let addr = trim_space raw in
      if addr == ""
      then ""
      else if not (kind == channel_https)
      then addr
      else if not (has_prefix addr "https://")
      then ""
      else normalize_url (lib.parse_url addr)

  unfoldable pub clone_channel : GatewayChannel → GatewayChannel
  unfolding normalize_gateway_channel_addr normalize_gateway_channel_kind
  clone_channel c =
      let kind = normalize_gateway_channel_kind c.kind in
      let udp = kind == channel_udp in
      record {
        kind = kind;
        addr = normalize_gateway_channel_addr kind c.addr;
        server_name = trim_space c.server_name;
        udp_public_key = if udp then c.udp_public_key else [];
        udp_key_id = if udp then trim_space c.udp_key_id else "";
      }

  unfoldable pub clone_gateway_channels : List (Option GatewayChannel) → List GatewayChannel
  unfolding clone_channel
  clone_gateway_channels [] = []
  clone_gateway_channels (none ∷ rest) = clone_gateway_channels rest
  clone_gateway_channels (some c ∷ rest) =
      let later = clone_gateway_channels rest in
      if (clone_channel c).addr == "" then later else clone_channel c ∷ later

  unfoldable pub first_of : List GatewayChannel → Option GatewayChannel
  first_of [] = none
  first_of (c ∷ rest) = some c

  unfoldable pub sign_claims : String → Option (List ℕ) → Option (List ℕ)
  sign_claims secret none = none
  sign_claims secret (some claims) =
      if trim_space secret == ""
      then none
      else lib.marshal_ticket (record {
        alg = "hmac-sha256";
        claims = claims;
        signature = lib.hmac_sha256 (utf8 secret) claims;
      })

  -- `none` for each error. The claims take effect five seconds before they are issued.
  unfoldable pub ticket_of : Option (List ℕ) → String → GatewayTicketClaims → Option (List ℕ)
  unfolding sign_claims hex
  ticket_of none secret claims = none
  ticket_of (some bytes) secret claims =
      sign_claims secret (lib.marshal_claims (record claims { ticket_id = hex bytes }))

  unfoldable pub new_gateway_ticket :
      Drawn
      → String
      → (device_id : String) → (virtual_ip session_id policy_revision : ℕ)
      → (gateway_ids : List String) → (gateway_group_id : String)
      → (expire_unix_ms lease_cap_secs grace_cap_secs : ℕ) → Option (List ℕ)
  unfolding ticket_of
  new_gateway_ticket drawn secret device_id virtual_ip session_id policy_revision gateway_ids
        gateway_group_id expire_unix_ms lease_cap_secs grace_cap_secs =
      ticket_of drawn.bytes secret (record {
        ticket_id = "";
        device_id = device_id;
        virtual_ip = virtual_ip;
        session_id = session_id;
        policy_revision = policy_revision;
        gateway_ids = gateway_ids;
        gateway_group_id = gateway_group_id;
        issued_at_unix_ms = drawn.now_ms;
        not_before_unix_ms = drawn.now_ms - 5000;
        expire_unix_ms = expire_unix_ms;
        lease_cap_secs = lease_cap_secs;
        grace_cap_secs = grace_cap_secs;
      })

  -- The grant without its ticket and channel, completed where there are both
  unfoldable pub with_channels :
      Option (List ℕ) → List GatewayChannel → GatewayAccessGrant → Option GatewayAccessGrant
  unfolding clone_gateway_channels first_of
  with_channels none channels grant = none
  with_channels (some ticket) [] grant = none
  with_channels (some ticket) (c ∷ rest) grant = some (record grant {
    ticket = ticket;
    gateway_channel = first_of (clone_gateway_channels (some c ∷ []));
  })

  unfoldable pub build_gateway_access_grant_for_node :
      Drawn
      → String
      → (virtual_ip : ℕ) → (device_id : String) → Node
      → (session_id expire_unix_ms refresh_after_unix_ms lease_secs grace_secs policy_rev : ℕ)
      → Option GatewayAccessGrant
  unfolding new_gateway_ticket with_channels
  build_gateway_access_grant_for_node drawn secret virtual_ip device_id node session_id
        expire_unix_ms refresh_after_unix_ms lease_secs grace_secs policy_rev =
      with_channels
        (new_gateway_ticket drawn secret device_id virtual_ip session_id policy_rev
          (node.gateway_id ∷ []) "" expire_unix_ms lease_secs grace_secs)
        (clone_gateway_channels node.channels)
        (record {
          ticket = [];
          ticket_expire_unix_ms = expire_unix_ms;
          session_id = session_id;
          policy_rev = policy_rev;
          gateway_capabilities = node.capabilities;
          lease_secs = lease_secs;
          grace_secs = grace_secs;
          gateway_channel = none;
          gateway_id = node.gateway_id;
          soft_refresh_after_unix_ms = refresh_after_unix_ms;
          hard_expire_unix_ms = expire_unix_ms;
        })
