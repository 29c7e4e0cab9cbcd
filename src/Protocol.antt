-- ===== src/Protocol.antt =====
-- protocol/packet.go, protocol/control_packet.go and util/utils.go: the wire format.
pub mod Ip
pub mod Codes
pub mod Packet
pub mod RoundTrip
pub mod Control
