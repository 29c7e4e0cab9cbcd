-- ===== src/DeviceList/Isolation.antt =====
-- A client is told of the other clients of its scope, and of no others.
use sdl_control.Base.{
  ℕ, ◌≡◌, refl, List, [], ◌∷◌, String, Option, none, some, ◌&&◌, not, ◌==◌, nat_eq, string_eq,
  if◌then◌else◌, arith, ap, ◌∙◌, nat_beq_iff,
}
use mathlib.Core.Option
use sdl_control.Base.Map.{Map, get, IsUnique}
use sdl_control.Network.Client.{ClientInfo}
use sdl_control.Network.Identity.{client_network_scope}
use sdl_control.ExitNodes.{Approvals, is_approved, client_exit_node_usable}
use sdl_control.DeviceList.{
  DeviceInfo, device_info, is_hidden, infos, infos_of, build_device_info_list, enriched_by,
  enrich_item, enrich,
}

-- What a list says of an address
abbrev pub told : List DeviceInfo → ℕ → Option DeviceInfo
told [] ip = none
told (item ∷ items) ip = if item.virtual_ip == ip then some item else told items ip

-- What is to be said of it
abbrev pub shown : ℕ → String → ℕ → Option ClientInfo → Option DeviceInfo
shown self_ip scope ip none = none
shown self_ip scope ip (some c) =
    if is_hidden self_ip scope ip c then none else some (device_info ip c)

infos_lem :
    (clients : Map ℕ ClientInfo) (self_ip : ℕ) (scope : String) (ip : ℕ)
    → IsUnique clients
    → told (infos clients self_ip scope) ip ≡ shown self_ip scope ip (get clients ip)
unfolding infos get device_info
infos_lem [] self_ip scope ip u = refl
infos_lem ((k, c) ∷ rest) self_ip scope ip u = ground (
  arith,
  infos_lem rest self_ip scope ip u.1,
  u.0,
  nat_beq_iff k ip,
  ap (get rest),
  same_hidden,
  same_info,
)
  where
    same_hidden : k ≡ ip → is_hidden self_ip scope k c ≡ is_hidden self_ip scope ip c
    same_hidden e = ap (λ x. is_hidden self_ip scope x c) e

    same_info : k ≡ ip → device_info k c ≡ device_info ip c
    same_info e = ap (λ x. device_info x c) e

-- The item for a client as it is sent
abbrev pub item_for : Approvals → ℕ → ClientInfo → DeviceInfo
item_for approved ip c = record (device_info ip c) {
  exit_node_approved = is_approved approved c.user_id c.device_id;
  exit_node_usable = is_approved approved c.user_id c.device_id && client_exit_node_usable c;
}

-- A client of the same scope at another address is visible.
abbrev pub visible : Approvals → ClientInfo → ℕ → ℕ → Option ClientInfo → Option DeviceInfo
visible approved self self_ip ip none = none
visible approved self self_ip ip (some c) =
    if not (ip == self_ip) && client_network_scope c "" == client_network_scope self ""
    then some (item_for approved ip c)
    else none

module _ (approved : Approvals) (clients : Map ℕ ClientInfo) where
  enrich_item_ip :
      (item : DeviceInfo) (found : Option ClientInfo)
      → (enriched_by approved item found).virtual_ip ≡ item.virtual_ip
  unfolding enriched_by
  enrich_item_ip item none = refl
  enrich_item_ip item (some c) = refl

  told-enrich :
      (items : List DeviceInfo) (ip : ℕ)
      → told (enrich approved clients items) ip
        ≡ Option.map (enrich_item approved clients) (told items ip)
  unfolding enrich enrich_item
  told-enrich [] ip = refl
  told-enrich (item ∷ items) ip =
      ground (arith, told-enrich items ip, enrich_item_ip item (get clients item.virtual_ip))

  enriched_shown :
      (self : ClientInfo) (self_ip ip : ℕ) (found : Option ClientInfo)
      → get clients ip ≡ found
      → Option.map
          (enrich_item approved clients)
          (shown self_ip (client_network_scope self "") ip found)
        ≡ visible approved self self_ip ip found
  unfolding enrich_item enriched_by is_hidden device_info
  enriched_shown self self_ip ip none h = refl
  enriched_shown self self_ip ip (some c) h =
      let item : enrich_item approved clients (device_info ip c) ≡ item_for approved ip c =
        ap (enriched_by approved (device_info ip c)) h in
      ground (arith, item)

  -- A client that is in the network is told of exactly the clients at other
  -- addresses whose scope is its own, whether they are online, and whether they may be used as an
  -- exit node: only one that is approved for its user, is online, and reports that it is advertised
  -- and ready.
  pub device_list_lem :
      (self : ClientInfo) (self_ip ip : ℕ)
      → IsUnique clients
      → get clients self_ip ≡ some self
      → told (enrich approved clients (build_device_info_list clients self_ip)) ip
        ≡ visible approved self self_ip ip (get clients ip)
  unfolding build_device_info_list infos_of
  device_list_lem self self_ip ip u h =
      told-enrich (build_device_info_list clients self_ip) ip
      ∙ (ap (λ f. Option.map (enrich_item approved clients) (told (infos_of clients self_ip f) ip))
            h
          ∙ (ap (Option.map (enrich_item approved clients))
                (infos_lem clients self_ip (client_network_scope self "") ip u)
              ∙ enriched_shown self self_ip ip (get clients ip) refl))
