-- ===== src/Tests/Packets.antt =====
-- A packet of the controller's protocol, and the payloads of its control messages.
use sdl_control.Base.{ℕ, ◌≡◌, ◌<◌, ◌≢◌, refl, List, [], ◌∷◌, some, All, arith, nat_eq, string_eq}
use sdl_control.Protocol.Ip.{Ip}
use sdl_control.Protocol.Codes.{v3, unknown, proto_control}
use sdl_control.Protocol.Packet.{Packet, marshal, unmarshal}
use sdl_control.Protocol.RoundTrip.{IsWire, wire_ip, unmarshal-marshal, marshal-unmarshal}

abbrev packet : Packet
packet = record {
  ver = v3;
  proto = proto_control;
  app_proto = 1;
  source_ttl = 15;
  ttl = 14;
  src_ip = 10 ∷ 26 ∷ 0 ∷ 2 ∷ [];
  dst_ip = 10 ∷ 26 ∷ 0 ∷ 1 ∷ [];
  payload = 0 ∷ 9 ∷ [];
  route_network_key = "k";
}

packet-IsWire : IsWire packet
unfolding sdl_control.Protocol.Codes.protocol_from_uint8
    sdl_control.Protocol.Codes.app_protocol_from_uint8
packet-IsWire = record {
  known_proto = refl;
  known_app = refl;
  source_ttl_fits = omega arith;
  ttl_fits = omega arith;
}

unmarshal-marshal_example :
    unmarshal (marshal packet)
    ≡ some (record packet {
      ver = v3;
      src_ip = wire_ip packet.src_ip;
      dst_ip = wire_ip packet.dst_ip;
      route_network_key = "";
    })
unmarshal-marshal_example = unmarshal-marshal packet packet-IsWire

abbrev rest : List ℕ
rest = 3 ∷ 1 ∷ 0xfe ∷ 10 ∷ 26 ∷ 0 ∷ 2 ∷ 10 ∷ 26 ∷ 0 ∷ 1 ∷ 7 ∷ []

abbrev read : Packet
read = record {
  ver = v3;
  proto = 3;
  app_proto = 1;
  source_ttl = 15;
  ttl = 14;
  src_ip = wire_ip (10 ∷ 26 ∷ 0 ∷ 2 ∷ []);
  dst_ip = wire_ip (10 ∷ 26 ∷ 0 ∷ 1 ∷ []);
  payload = 7 ∷ [];
  route_network_key = "";
}

rest_bytes : All (λ b. b < 256) rest
rest_bytes = ground arith

rest_accepted : unmarshal (v3 ∷ rest) ≡ some read
unfolding unmarshal sdl_control.Protocol.Codes.version_from_uint8
    sdl_control.Protocol.Codes.protocol_from_uint8
    sdl_control.Protocol.Codes.app_protocol_from_uint8 sdl_control.Protocol.Packet.copy4
    sdl_control.Protocol.Ip.ipv4 sdl_control.Protocol.Ip.to4
rest_accepted = refl

proto_known : read.proto ≢ unknown
proto_known = ground arith

app_known : read.app_proto ≢ unknown
app_known = ground arith

marshal-unmarshal_example : marshal read ≡ v3 ∷ rest
marshal-unmarshal_example = marshal-unmarshal rest rest_bytes rest_accepted proto_known app_known
