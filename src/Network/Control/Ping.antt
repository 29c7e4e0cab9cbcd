-- ===== src/Network/Control/Ping.antt =====
-- control/punch.go HandleControlPacketInNetwork and control/registration.go buildDisconnectPacket: the
-- control protocol over the networks.
use sdl_control.Base.{
  ℕ, ◌%◌, ◌≡◌, ◌≢◌, List, [], String, Option, none, some, ◌==◌, nat_eq, string_eq, if◌then◌else◌,
  arith, nat_beq_iff,
}
use sdl_control.Protocol.Ip.{Ip, ip_to_uint32}
use sdl_control.Protocol.Codes.{v3, proto_error, proto_control}
use sdl_control.Protocol.Packet.{Packet, max_ttl}
use sdl_control.Protocol.Control.{
  control_ping, control_pong, control_addr_request, control_addr_response, parse_ping_payload,
  build_ping_payload, build_addr_payload,
}
use sdl_control.Network.Info.{NetworkInfo}
use sdl_control.Network.Control.{Networks, touch_client_by_ip_in_network}
use sdl_control.Network.Control.Keeps.{first_network, touch-short_epoch}

unfoldable pub build_disconnect_packet : Packet → Packet
build_disconnect_packet request = record {
  ver = v3;
  proto = proto_error;
  app_proto = 2;
  source_ttl = max_ttl;
  ttl = max_ttl;
  src_ip = request.dst_ip;
  dst_ip = request.src_ip;
  payload = [];
  route_network_key = "";
}

pub control_reply : Packet → ℕ → List ℕ → Packet
control_reply request code payload = record {
  ver = v3;
  proto = proto_control;
  app_proto = code;
  source_ttl = max_ttl;
  ttl = max_ttl;
  src_ip = request.dst_ip;
  dst_ip = request.src_ip;
  payload = payload;
  route_network_key = "";
}

pub data ControlError : Type 0 where
  bad_ping bad_addr unsupported : ControlError

pub data Reply : Type 0 where
  reply : Packet → Reply
  refused : ControlError → Reply

-- The reply to a ping, by the epoch that the touch returned
pong : Packet → ℕ → ℕ → Packet
unfolding control_reply build_disconnect_packet
pong request time epoch =
    if epoch == 0
    then build_disconnect_packet request
    else control_reply request control_pong (build_ping_payload time epoch)

handle_ping : Networks → Packet → String → ℕ → Option (ℕ × ℕ) → Networks × Reply
unfolding pong
handle_ping ns request key now none = (ns, refused bad_ping)
handle_ping ns request key now (some (time, epoch)) =
    let (ns', touched_epoch) =
      touch_client_by_ip_in_network ns key (ip_to_uint32 request.src_ip) now in
    (ns', reply (pong request time touched_epoch))

handle_addr : Packet → Option (List ℕ) → Reply
unfolding control_reply
handle_addr request none = refused bad_addr
handle_addr request (some payload) = reply (control_reply request control_addr_response payload)

-- `remote` is what the library reads out of the remote address, as for `build_addr_payload`.
unfoldable pub handle_control_packet_in_network :
    Networks → Packet → Option (Ip × ℕ) → String → ℕ → Networks × Reply
unfolding handle_ping handle_addr
handle_control_packet_in_network ns request remote key now =
    if request.app_proto == control_ping
    then handle_ping ns request key now (parse_ping_payload request.payload)
    else if request.app_proto == control_addr_request
    then (ns, handle_addr request (build_addr_payload remote))
    else (ns, refused unsupported)

module _ (ns : Networks) (request : Packet) (remote : Option (Ip × ℕ)) (key : String)
    (now time epoch : ℕ) (n : NetworkInfo) (ping : request.app_proto ≡ control_ping)
    (parsed : parse_ping_payload request.payload ≡ some (time, epoch))
    (found : first_network ns key (ip_to_uint32 request.src_ip) ≡ some n) where
  -- A well-formed ping of a registered client is answered by a pong with its time and the network's
  -- epoch cut to sixteen bits, where these are not all zero.
  pub ping_pong :
      n.epoch % 65536 ≢ 0
      → (handle_control_packet_in_network ns request remote key now).1
        ≡ reply (control_reply request control_pong (build_ping_payload time (n.epoch % 65536)))
  unfolding handle_control_packet_in_network
  ping_pong ne = ground (
    arith,
    touch-short_epoch ns key (ip_to_uint32 request.src_ip) now,
    nat_beq_iff (n.epoch % 65536) 0,
  )

  -- A well-formed ping of a registered client is answered by a disconnect packet where the epoch of
  -- its network is a multiple of 65536.
  pub ping_disconnected :
      n.epoch % 65536 ≡ 0
      → (handle_control_packet_in_network ns request remote key now).1
        ≡ reply (build_disconnect_packet request)
  unfolding handle_control_packet_in_network
  ping_disconnected z = ground (arith, touch-short_epoch ns key (ip_to_uint32 request.src_ip) now)
