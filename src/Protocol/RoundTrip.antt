-- ===== src/Protocol/RoundTrip.antt =====
-- What a packet keeps on the wire, and which byte strings are packets.
use Prim.Native.Nat.{bit_and, bit_or}
use sdl_control.Base.{
  ℕ, ◌+◌, ◌*◌, ◌/◌, ◌%◌, ◌<◌, ◌≡◌, ◌≢◌, refl, List, [], ◌∷◌, none, some, arith, length, ◌↔◌, All,
  ◌∙◌,
}
use mathlib.Core.Path.{subst}
use mathlib.Core.Option.{some-injective}
use sdl_control.Base.Bytes.{bit_and-low_nibble, bit_or-nibbles}
use sdl_control.Protocol.Ip.{Ip, to4, ipv4, to4-ipv4}
use sdl_control.Protocol.Codes.{
  v3, unknown, version_from_uint8, protocol_from_uint8, app_protocol_from_uint8, protocol_known,
  app_protocol_known,
}
use sdl_control.Protocol.Packet.{Packet, packet_header_size, copy4, marshal, unmarshal}

-- The fields that `Marshal` writes whole: known codes and four-bit lifetimes.
pub record IsWire (p : Packet) : Type 0 where
  pub known_proto : protocol_from_uint8 p.proto ≡ p.proto
  pub known_app : app_protocol_from_uint8 p.app_proto ≡ p.app_proto
  pub source_ttl_fits : p.source_ttl < 16
  pub ttl_fits : p.ttl < 16

abbrev four : List ℕ → Ip
four (a ∷ b ∷ c ∷ d ∷ rest) = ipv4 a b c d
four _ = []

-- The address that the other side reads: the four bytes, and zeros where there are none.
abbrev pub wire_ip : Ip → Ip
wire_ip ip = four (copy4 (to4 ip))

copy4_cases : (xs : List ℕ) → (a b c d : ℕ) × (copy4 xs ≡ a ∷ b ∷ c ∷ d ∷ [])
unfolding copy4
copy4_cases [] = (0, 0, 0, 0, refl)
copy4_cases (a ∷ []) = (a, 0, 0, 0, refl)
copy4_cases (a ∷ b ∷ []) = (a, b, 0, 0, refl)
copy4_cases (a ∷ b ∷ c ∷ []) = (a, b, c, 0, refl)
copy4_cases (a ∷ b ∷ c ∷ d ∷ rest) = (a, b, c, d, refl)

ttl_byte :
    (s t : ℕ) → s < 16 → t < 16 → bit_or (bit_and s 0x0f * 16 % 256) (bit_and t 0x0f) ≡ s * 16 + t
ttl_byte s t hs ht =
    let es : bit_and s 0x0f * 16 % 256 ≡ (s * 16 + t) / 16 * 16 =
      omega (arith, bit_and-low_nibble s) in
    let et : bit_and t 0x0f ≡ (s * 16 + t) % 16 = omega (arith, bit_and-low_nibble t) in
    rw (es, et) (bit_or-nibbles (s * 16 + t) (omega arith))

high_of : (s t : ℕ) → s < 16 → t < 16 → bit_and ((s * 16 + t) / 16) 0x0f ≡ s
high_of s t hs ht = omega (arith, bit_and-low_nibble ((s * 16 + t) / 16))

low_of : (s t : ℕ) → s < 16 → t < 16 → bit_and (s * 16 + t) 0x0f ≡ t
low_of s t hs ht = omega (arith, bit_and-low_nibble (s * 16 + t))

-- `Unmarshal` after `Marshal` gives the packet back, for known codes and four-bit lifetimes: the
-- version becomes 3, an address its sixteen-byte form, and the routing key is not sent.
pub unmarshal-marshal :
    (p : Packet)
    → IsWire p
    → unmarshal (marshal p)
      ≡ some (record p {
        ver = v3;
        src_ip = wire_ip p.src_ip;
        dst_ip = wire_ip p.dst_ip;
        route_network_key = "";
      })
unfolding marshal unmarshal version_from_uint8
unmarshal-marshal p w =
    let (s0, s1, s2, s3, es) = copy4_cases (to4 p.src_ip) in
    let (d0, d1, d2, d3, ed) = copy4_cases (to4 p.dst_ip) in
    rw (es, ed, ttl_byte p.source_ttl p.ttl w.source_ttl_fits w.ttl_fits)
      (rw (
        w.known_proto,
        w.known_app,
        high_of p.source_ttl p.ttl w.source_ttl_fits w.ttl_fits,
        low_of p.source_ttl p.ttl w.source_ttl_fits w.ttl_fits,
      ))

-- `Unmarshal` refuses a byte string exactly when it is shorter than the header.
pub unmarshal-none :
    (bytes : List ℕ) → (unmarshal bytes ≡ none) ↔ (length bytes < packet_header_size)
unfolding unmarshal
unmarshal-none ([]) = ((λ _. omega arith), (λ _. refl))
unmarshal-none (x0 ∷ []) = ((λ _. omega arith), (λ _. refl))
unmarshal-none (x0 ∷ x1 ∷ []) = ((λ _. omega arith), (λ _. refl))
unmarshal-none (x0 ∷ x1 ∷ x2 ∷ []) = ((λ _. omega arith), (λ _. refl))
unmarshal-none (x0 ∷ x1 ∷ x2 ∷ x3 ∷ []) = ((λ _. omega arith), (λ _. refl))
unmarshal-none (x0 ∷ x1 ∷ x2 ∷ x3 ∷ x4 ∷ []) = ((λ _. omega arith), (λ _. refl))
unmarshal-none (x0 ∷ x1 ∷ x2 ∷ x3 ∷ x4 ∷ x5 ∷ []) = ((λ _. omega arith), (λ _. refl))
unmarshal-none (x0 ∷ x1 ∷ x2 ∷ x3 ∷ x4 ∷ x5 ∷ x6 ∷ []) = ((λ _. omega arith), (λ _. refl))
unmarshal-none (x0 ∷ x1 ∷ x2 ∷ x3 ∷ x4 ∷ x5 ∷ x6 ∷ x7 ∷ []) = ((λ _. omega arith), (λ _. refl))
unmarshal-none (x0 ∷ x1 ∷ x2 ∷ x3 ∷ x4 ∷ x5 ∷ x6 ∷ x7 ∷ x8 ∷ []) = ((λ _. omega arith), (λ _. refl))
unmarshal-none (x0 ∷ x1 ∷ x2 ∷ x3 ∷ x4 ∷ x5 ∷ x6 ∷ x7 ∷ x8 ∷ x9 ∷ []) =
    ((λ _. omega arith), (λ _. refl))
unmarshal-none (x0 ∷ x1 ∷ x2 ∷ x3 ∷ x4 ∷ x5 ∷ x6 ∷ x7 ∷ x8 ∷ x9 ∷ x10 ∷ []) =
    ((λ _. omega arith), (λ _. refl))
unmarshal-none (x0 ∷ x1 ∷ x2 ∷ x3 ∷ x4 ∷ x5 ∷ x6 ∷ x7 ∷ x8 ∷ x9 ∷ x10 ∷ x11 ∷ rest) =
    ((λ e. cc), (λ h. absurd (omega arith)))

split_byte :
    (b : ℕ)
    → b < 256
    → bit_or (bit_and (bit_and (b / 16) 0x0f) 0x0f * 16 % 256) (bit_and (bit_and b 0x0f) 0x0f) ≡ b
split_byte b h =
    let hi : bit_and (b / 16) 0x0f ≡ b / 16 = omega (arith, bit_and-low_nibble (b / 16)) in
    let lo : bit_and b 0x0f ≡ b % 16 = bit_and-low_nibble b h in
    rw (hi, lo) (ttl_byte (b / 16) (b % 16) (omega arith) (omega arith) ∙ omega arith)

-- A byte string with version 3 that `Unmarshal` accepts with known codes is what `Marshal` writes for
-- the packet that was read.
pub marshal-unmarshal :
    (rest : List ℕ) {p : Packet}
    → All (λ b. b < 256) rest
    → unmarshal (v3 ∷ rest) ≡ some p
    → p.proto ≢ unknown
    → p.app_proto ≢ unknown
    → marshal p ≡ v3 ∷ rest
unfolding marshal unmarshal copy4
marshal-unmarshal ([]) b e kp ka = cc
marshal-unmarshal (b1 ∷ []) b e kp ka = cc
marshal-unmarshal (b1 ∷ b2 ∷ []) b e kp ka = cc
marshal-unmarshal (b1 ∷ b2 ∷ b3 ∷ []) b e kp ka = cc
marshal-unmarshal (b1 ∷ b2 ∷ b3 ∷ s0 ∷ []) b e kp ka = cc
marshal-unmarshal (b1 ∷ b2 ∷ b3 ∷ s0 ∷ s1 ∷ []) b e kp ka = cc
marshal-unmarshal (b1 ∷ b2 ∷ b3 ∷ s0 ∷ s1 ∷ s2 ∷ []) b e kp ka = cc
marshal-unmarshal (b1 ∷ b2 ∷ b3 ∷ s0 ∷ s1 ∷ s2 ∷ s3 ∷ []) b e kp ka = cc
marshal-unmarshal (b1 ∷ b2 ∷ b3 ∷ s0 ∷ s1 ∷ s2 ∷ s3 ∷ d0 ∷ []) b e kp ka = cc
marshal-unmarshal (b1 ∷ b2 ∷ b3 ∷ s0 ∷ s1 ∷ s2 ∷ s3 ∷ d0 ∷ d1 ∷ []) b e kp ka = cc
marshal-unmarshal (b1 ∷ b2 ∷ b3 ∷ s0 ∷ s1 ∷ s2 ∷ s3 ∷ d0 ∷ d1 ∷ d2 ∷ []) b e kp ka = cc
marshal-unmarshal (b1 ∷ b2 ∷ b3 ∷ s0 ∷ s1 ∷ s2 ∷ s3 ∷ d0 ∷ d1 ∷ d2 ∷ d3 ∷ payload) {p} b e kp ka =
    subst
      (λ q.
        q.proto ≢ unknown
        → q.app_proto ≢ unknown
        → marshal q ≡ v3 ∷ b1 ∷ b2 ∷ b3 ∷ s0 ∷ s1 ∷ s2 ∷ s3 ∷ d0 ∷ d1 ∷ d2 ∷ d3 ∷ payload)
      (some-injective _ p e)
      (λ known_proto known_app.
        rw (to4-ipv4 s0 s1 s2 s3, to4-ipv4 d0 d1 d2 d3, split_byte b3 b.1.1.0)
          (rw (protocol_known b1 known_proto, app_protocol_known b2 known_app)))
      kp ka
