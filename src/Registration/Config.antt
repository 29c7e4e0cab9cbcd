-- ===== src/Registration/Config.antt =====
-- The checks of a registration request, and the network that the configuration gives to a group:
-- control/gateway.go matchDomainAndGroup and validateRegistrationRequest, control/registration.go
-- resolveGroupNetworkConfig, control/controller.go. net.ParseIP and strings.ToLower are parameters.
pub mod Match
use Prim.Native.String.{len}
use sdl_control.Base.{
  ℕ, List, [], ◌∷◌, String, Option, none, some, Bool, true, false, ◌&&◌, ◌||◌, not, ◌==◌, nat_eq,
  string_eq, ltb, if◌then◌else◌, length, is_empty,
}
use sdl_control.Base.Text.{trim_space, ◌<>◌, has_suffix, trim_suffix}
use sdl_control.Base.Map.{Map, get}
use sdl_control.Protocol.Ip.{Ip, to4, ip_to_uint32}

pub record GroupConfig : Type 0 where
  pub gateway : Ip
  pub netmask : String
  pub dns_service_ip : String

pub record DomainConfig : Type 0 where
  pub groups : Map String GroupConfig

-- The fields of config.Config that a registration reads
pub record Config : Type 0 where
  pub gateway : Ip
  pub domain : String
  pub netmask : String
  pub dns_service_ip : String
  pub groups : Map String GroupConfig
  pub domains : Map String DomainConfig

-- pb.RegistrationRequest
pub record RegistrationRequest : Type 0 where
  pub token : String
  pub device_id : String
  pub name : String
  pub device_pub_key : List ℕ
  pub online_kx_pub : List ℕ
  pub virtual_ip : ℕ
  pub allow_ip_change : Bool
  pub version : String

pub data ConfigError : Type 0 where
  token_length device_id_length name_length pub_key_empty online_kx_pub_length : ConfigError
  not_in_domains not_under_domain group_not_configured domain_mismatch invalid_netmask : ConfigError

-- s == "" || len(s) > 128
unfoldable pub bad_length : String → Bool
bad_length s = s == "" || ltb 128 (len s)

-- `none` is no error.
unfoldable pub validate_registration_request : RegistrationRequest → Option ConfigError
unfolding bad_length
validate_registration_request reg =
    if bad_length reg.token
    then some token_length
    else if bad_length reg.device_id
    then some device_id_length
    else if bad_length reg.name
    then some name_length
    else if is_empty reg.device_pub_key
    then some pub_key_empty
    else if not (length reg.online_kx_pub == 32)
    then some online_kx_pub_length
    else none

-- The loop over the domains: the longest one yet that the token ends in
unfoldable pub best_domain : String → Map String DomainConfig → String → String
best_domain token [] best = best
best_domain token ((domain, dc) ∷ rest) best =
    best_domain token rest
      (if has_suffix token ("." <> domain) && ltb (len best) (len domain) then domain else best)

-- `none` is that the last result is false.
unfoldable pub match_domain_and_group : String → Map String DomainConfig → Option (String × String)
unfolding best_domain
match_domain_and_group token domains =
    let best = best_domain token domains "" in
    let group = trim_space (trim_suffix token ("." <> best)) in
    if best == "" then none else if group == "" then none else some (best, group)

pub data Resolved : Type 0 where
  resolved : Ip → List ℕ → Resolved
  unresolved : ConfigError → Resolved

-- parseNetmask; nil is the empty slice.
unfoldable pub parse_netmask : (String → Ip) → String → Option (List ℕ)
parse_netmask parse_ip netmask =
    let ip = parse_ip netmask in if is_empty ip || is_empty (to4 ip) then none else some (to4 ip)

with_netmask : Ip → Option (List ℕ) → Resolved
with_netmask gateway none = unresolved invalid_netmask
with_netmask gateway (some mask) = resolved gateway mask

of_group : (String → Ip) → ConfigError → Option GroupConfig → Resolved
unfolding with_netmask parse_netmask
of_group parse_ip e none = unresolved e
of_group parse_ip e (some gc) = with_netmask gc.gateway (parse_netmask parse_ip gc.netmask)

-- c.cfg.Domains[domainName].Groups
groups_of : Option DomainConfig → Map String GroupConfig
groups_of none = []
groups_of (some dc) = dc.groups

of_domain : (String → Ip) → Map String DomainConfig → Option (String × String) → Resolved
unfolding of_group groups_of
of_domain parse_ip domains none = unresolved not_in_domains
of_domain parse_ip domains (some (domain, group)) =
    of_group parse_ip not_under_domain (get (groups_of (get domains domain)) group)

unfoldable pub resolve_group_network_config : (String → Ip) → Config → String → Resolved
unfolding of_domain of_group with_netmask match_domain_and_group parse_netmask
resolve_group_network_config parse_ip cfg group =
    if not (is_empty cfg.domains)
    then of_domain parse_ip cfg.domains (match_domain_and_group group cfg.domains)
    else if not (is_empty cfg.groups)
    then of_group parse_ip group_not_configured (get cfg.groups group)
    else if not (cfg.domain == "") && not (group == cfg.domain)
    then unresolved domain_mismatch
    else with_netmask cfg.gateway (parse_netmask parse_ip cfg.netmask)

-- The group's own address, or that of the configuration
own_or : String → String → String
own_or own general = if trim_space own == "" then trim_space general else trim_space own

-- A group that is missing under its domain reads as the zero value; one that is missing in `groups` is
-- no address.
dns_of_domain : Config → Option (String × String) → String
unfolding own_or groups_of
dns_of_domain cfg none = ""
dns_of_domain cfg (some (domain, group)) = elim (get (groups_of (get cfg.domains domain)) group) [
  | none ↦ own_or "" cfg.dns_service_ip
  | some gc ↦ own_or gc.dns_service_ip cfg.dns_service_ip
]

dns_of_group : Config → Option GroupConfig → String
unfolding own_or
dns_of_group cfg none = ""
dns_of_group cfg (some gc) = own_or gc.dns_service_ip cfg.dns_service_ip

unfoldable pub resolve_dns_service_ip : (String → String) → Config → String → String
unfolding dns_of_domain dns_of_group match_domain_and_group
resolve_dns_service_ip lower cfg group =
    let name = lower (trim_space group) in
    if not (is_empty cfg.domains)
    then dns_of_domain cfg (match_domain_and_group name cfg.domains)
    else if not (is_empty cfg.groups)
    then dns_of_group cfg (get cfg.groups name)
    else trim_space cfg.dns_service_ip

unfoldable pub reserved_service_ips :
    (String → Ip) → (String → String) → Config → String → Map ℕ String
unfolding resolve_dns_service_ip
reserved_service_ips parse_ip lower cfg group =
    let ip = trim_space (resolve_dns_service_ip lower cfg group) in
    let parsed = parse_ip ip in
    if not (ip == "") && not (is_empty parsed) && not (is_empty (to4 parsed))
    then (ip_to_uint32 parsed, "dns_service_ip") ∷ []
    else []

abbrev pub supported_handshake_capabilities : List String
supported_handshake_capabilities =
    "udp_endpoint_report_v1" ∷ "punch_coord_v1" ∷ "gateway_ticket_v1" ∷ []

-- hasCapability, and the test on a key of a map
unfoldable pub has_capability : List String → String → Bool
has_capability [] capability = false
has_capability (item ∷ items) capability = item == capability || has_capability items capability

unfoldable pub negotiate_handshake_capabilities : List String → List String
unfolding has_capability
negotiate_handshake_capabilities [] = []
negotiate_handshake_capabilities (c ∷ cs) =
    let rest = negotiate_handshake_capabilities cs in
    if has_capability supported_handshake_capabilities c then c ∷ rest else rest
