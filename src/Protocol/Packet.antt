-- ===== src/Protocol/Packet.antt =====
-- protocol/packet.go: the packet, `NewPacket`, `Marshal` and `Unmarshal`.
use Prim.Native.Nat.{bit_and, bit_or}
use sdl_control.Base.{ℕ, ◌*◌, ◌/◌, ◌%◌, List, [], ◌∷◌, ◌++◌, String, Option, none, some, take}
use sdl_control.Protocol.Ip.{Ip, to4, ipv4}
use sdl_control.Protocol.Codes.{
  v3, version_from_uint8, protocol_from_uint8, app_protocol_from_uint8,
}

pub record Packet : Type 0 where
  pub ver : ℕ
  pub proto : ℕ
  pub app_proto : ℕ
  pub source_ttl : ℕ
  pub ttl : ℕ
  pub src_ip : Ip
  pub dst_ip : Ip
  pub payload : List ℕ
  pub route_network_key : String

abbrev pub packet_header_size : ℕ
packet_header_size = 12

abbrev pub max_ttl : ℕ
max_ttl = 15

unfoldable pub new_packet : ℕ → ℕ → ℕ → ℕ → ℕ → Ip → Ip → List ℕ → Packet
new_packet ver proto app_proto source_ttl ttl src_ip dst_ip payload = record {
  ver = version_from_uint8 ver;
  proto = protocol_from_uint8 proto;
  app_proto = app_protocol_from_uint8 app_proto;
  source_ttl = source_ttl;
  ttl = ttl;
  src_ip = to4 src_ip;
  dst_ip = to4 dst_ip;
  payload = payload;
  route_network_key = "";
}

-- copy(buf[k:k+4], src), where the buffer holds zeros
unfoldable pub copy4 : List ℕ → List ℕ
copy4 src = take 4 (src ++ 0 ∷ 0 ∷ 0 ∷ 0 ∷ [])

unfoldable pub marshal : Packet → List ℕ
marshal p =
    (bit_and v3 0x0f
      ∷ p.proto
      ∷ p.app_proto
      ∷ bit_or (bit_and p.source_ttl 0x0f * 16 % 256) (bit_and p.ttl 0x0f)
      ∷ [])
    ++ (copy4 (to4 p.src_ip) ++ (copy4 (to4 p.dst_ip) ++ p.payload))

-- `none` is ErrInvalidPacket. The patterns say that the twelve bytes of the header are there.
unfoldable pub unmarshal : List ℕ → Option Packet
unmarshal (b0 ∷ b1 ∷ b2 ∷ b3 ∷ s0 ∷ s1 ∷ s2 ∷ s3 ∷ d0 ∷ d1 ∷ d2 ∷ d3 ∷ payload) = some (record {
  ver = version_from_uint8 (bit_and b0 0x0f);
  proto = protocol_from_uint8 b1;
  app_proto = app_protocol_from_uint8 b2;
  source_ttl = bit_and (b3 / 16) 0x0f;
  ttl = bit_and b3 0x0f;
  src_ip = ipv4 s0 s1 s2 s3;
  dst_ip = ipv4 d0 d1 d2 d3;
  payload = payload;
  route_network_key = "";
})
unmarshal _ = none
