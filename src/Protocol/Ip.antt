-- ===== src/Protocol/Ip.antt =====
-- util/utils.go, and the functions of Go's package `net` on which it stands. A `net.IP` or
-- `net.IPMask` is its slice of bytes; nil is the empty slice.
use sdl_control.Base.{
  ℕ, ◌-◌, ◌<◌, ◌^◌, ◌≡◌, ◌↔◌, refl, nat_beq_iff, List, [], ◌∷◌, ◌&&◌, ◌==◌, nat_eq, Bool, false,
  true, arith, length, take, drop, leb, if◌then◌else◌,
}
use sdl_control.Base.Bytes.{be32, put_be32}

abbrev pub Ip : Type 0
Ip = List ℕ

is_zeros : List ℕ → Bool
is_zeros [] = true
is_zeros (b ∷ bs) = b == 0 && is_zeros bs

is_ff_pair : List ℕ → Bool
is_ff_pair (a ∷ b ∷ rest) = a == 0xff && b == 0xff
is_ff_pair _ = false

-- isZeros(ip[0:10]) && ip[10] == 0xff && ip[11] == 0xff
is_v4_prefix : List ℕ → Bool
unfolding is_zeros is_ff_pair
is_v4_prefix ip = is_zeros (take 10 ip) && is_ff_pair (drop 10 ip)

-- ip.To4()
unfoldable pub to4 : Ip → Ip
unfolding is_v4_prefix
to4 ip =
    if length ip == 4 then ip else if length ip == 16 && is_v4_prefix ip then drop 12 ip else []

unfoldable pub bytes_eq : List ℕ → List ℕ → Bool
bytes_eq [] [] = true
bytes_eq (a ∷ as') (b ∷ bs) = a == b && bytes_eq as' bs
bytes_eq _ _ = false

-- a.Equal(b)
unfoldable pub ip_equal : Ip → Ip → Bool
unfolding bytes_eq is_v4_prefix
ip_equal a b =
    if length a == length b
    then bytes_eq a b
    else if length a == 4 && length b == 16
    then is_v4_prefix b && bytes_eq a (drop 12 b)
    else if length a == 16 && length b == 4
    then is_v4_prefix a && bytes_eq (drop 12 a) b
    else false

-- net.IPv4(a, b, c, d)
unfoldable pub ipv4 : ℕ → ℕ → ℕ → ℕ → Ip
ipv4 a b c d = 0 ∷ 0 ∷ 0 ∷ 0 ∷ 0 ∷ 0 ∷ 0 ∷ 0 ∷ 0 ∷ 0 ∷ 0xff ∷ 0xff ∷ a ∷ b ∷ c ∷ d ∷ []

-- binary.BigEndian.Uint32 of a slice; the callers hand over four bytes.
unfoldable pub uint32_of : List ℕ → ℕ
unfolding be32
uint32_of (a ∷ b ∷ c ∷ d ∷ rest) = be32 a b c d
uint32_of _ = 0

unfoldable pub ip_to_uint32 : Ip → ℕ
unfolding to4 uint32_of
ip_to_uint32 ip = let ip4 = to4 ip in if length ip4 == 0 then 0 else uint32_of ip4

unfoldable pub uint32_to_ip : ℕ → Ip
unfolding put_be32
uint32_to_ip v = put_be32 v

unfoldable pub mask_to_uint32 : List ℕ → ℕ
unfolding uint32_of
mask_to_uint32 mask = if leb 4 (length mask) then uint32_of (drop (length mask - 4) mask) else 0

pub to4-uint32_to_ip : (v : ℕ) → to4 (uint32_to_ip v) ≡ uint32_to_ip v
unfolding to4 uint32_to_ip
to4-uint32_to_ip v = refl

pub to4-ipv4 : (a b c d : ℕ) → to4 (ipv4 a b c d) ≡ a ∷ b ∷ c ∷ d ∷ []
unfolding to4 ipv4
to4-ipv4 a b c d = refl

-- An address that is written out as four bytes is read back as itself.
pub ip_to_uint32-uint32_to_ip : (v : ℕ) → v < 2 ^ 32 → ip_to_uint32 (uint32_to_ip v) ≡ v
unfolding ip_to_uint32 uint32_to_ip
ip_to_uint32-uint32_to_ip v h = omega arith

pub bytes_eq_iff : (a b : List ℕ) → (bytes_eq a b ≡ true) ↔ (a ≡ b)
unfolding bytes_eq
bytes_eq_iff [] [] = (λ h. refl, λ h. refl)
bytes_eq_iff [] (y ∷ ys) = (λ h. absurd (cc), λ h. absurd (cc))
bytes_eq_iff (x ∷ xs) [] = (λ h. absurd (cc), λ h. absurd (cc))
bytes_eq_iff (x ∷ xs) (y ∷ ys) = ground (arith, bytes_eq_iff xs ys, nat_beq_iff x y)
