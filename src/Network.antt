-- ===== src/Network.antt =====
-- control/ip.go and control/network.go: virtual networks, their clients and the allocation of
-- addresses.
pub mod Client
pub mod Identity
pub mod Info
pub mod Index
pub mod OneAddress
pub mod Alloc
pub mod Control
