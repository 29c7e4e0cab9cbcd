-- ===== src/Network/Control/Keeps.antt =====
-- The operations keep every index true, and a touch is seen by the readers.
use sdl_control.Base.{
  ℕ, ◌%◌, ◌≡◌, refl, [], ◌∷◌, String, Option, none, some, nat_eq, string_eq, if◌then◌else◌, arith,
  Option-cases, inl, inr, beq_refl,
}
use mathlib.Core.Option
use sdl_control.Base.Text.{trim_space}
use sdl_control.Base.Map
use sdl_control.Base.Map.{Map, get-put}
use sdl_control.Network.Client.{ClientInfo}
use sdl_control.Network.Info.{NetworkInfo, upsert_client}
use sdl_control.Network.Index.{IsIndexed, upsert_client-IsIndexed}
use sdl_control.Network.Control.{
  Networks, skips, skips_read, touched, touch_client_by_ip_in_network,
  find_client_by_virtual_ip_in_network, update_client_by_virtual_ip_in_network,
}

abbrev pub AllIndexed : Networks → Type 0
AllIndexed [] = Unit
AllIndexed ((key, n) ∷ rest) = IsIndexed n × AllIndexed rest

-- A touch keeps every index true.
pub touch-AllIndexed :
    (ns : Networks) (key : String) (ip now : ℕ)
    → AllIndexed ns
    → AllIndexed (touch_client_by_ip_in_network ns key ip now).0
unfolding touch_client_by_ip_in_network
touch-AllIndexed [] key ip now v = tt
touch-AllIndexed ((k, n) ∷ rest) key ip now v = elim (Option-cases (Map.get n.clients ip)) [
  | inl e ↦ ground (arith, touch-AllIndexed rest key ip now v.1)
  | inr (c, e) ↦ ground (
    arith,
    touch-AllIndexed rest key ip now v.1,
    upsert_client-IsIndexed n ip (touched now c) v.0,
  )
]

-- So does an update of a client by its address, whatever it makes of the client.
pub update-AllIndexed :
    (ns : Networks) (key : String) (ip : ℕ) (f : ClientInfo → ClientInfo)
    → AllIndexed ns
    → AllIndexed (update_client_by_virtual_ip_in_network ns key ip f).0
unfolding update_client_by_virtual_ip_in_network
update-AllIndexed [] key ip f v = tt
update-AllIndexed ((k, n) ∷ rest) key ip f v = elim (Option-cases (Map.get n.clients ip)) [
  | inl e ↦ ground (arith, update-AllIndexed rest key ip f v.1)
  | inr (c, e) ↦
      ground (arith, update-AllIndexed rest key ip f v.1, upsert_client-IsIndexed n ip (f c) v.0)
]

-- The network that a request with this key and address means: the first that has the client.
abbrev pub first_network : Networks → String → ℕ → Option NetworkInfo
first_network [] key ip = none
first_network ((k, n) ∷ rest) key ip =
    let later = first_network rest key ip in
    if skips key k then later else elim (Map.get n.clients ip) [ none ↦ later | some c ↦ some n ]

abbrev pub short_epoch : Option NetworkInfo → ℕ
short_epoch none = 0
short_epoch (some n) = n.epoch % 65536

-- A touch returns the epoch of the network that it found, cut to sixteen bits, and 0 if it found none.
pub touch-short_epoch :
    (ns : Networks) (key : String) (ip now : ℕ)
    → (touch_client_by_ip_in_network ns key ip now).1 ≡ short_epoch (first_network ns key ip)
unfolding touch_client_by_ip_in_network upsert_client
touch-short_epoch [] key ip now = refl
touch-short_epoch ((k, n) ∷ rest) key ip now = ground (arith, touch-short_epoch rest key ip now)

skips_same : (key k : String) → trim_space key ≡ key → skips_read key k ≡ skips key k
unfolding skips_read skips
skips_same key k e = rw e

-- After a touch, whoever looks the client up by the same trimmed key and address finds it online and
-- seen at that time, with all else as it was.
pub find-touch :
    (ns : Networks) (key : String) (ip now : ℕ)
    → trim_space key ≡ key
    → find_client_by_virtual_ip_in_network (touch_client_by_ip_in_network ns key ip now).0 key ip
      ≡ Option.map (touched now) (find_client_by_virtual_ip_in_network ns key ip)
unfolding touch_client_by_ip_in_network find_client_by_virtual_ip_in_network upsert_client
find-touch [] key ip now t = refl
find-touch ((k, n) ∷ rest) key ip now t = elim (Option-cases (Map.get n.clients ip)) [
  | inl e ↦ ground (arith, find-touch rest key ip now t, skips_same key k t)
  | inr (c, e) ↦ ground (
    arith,
    find-touch rest key ip now t,
    skips_same key k t,
    get-put n.clients ip (touched now c) ip,
    beq_refl ip,
  )
]
