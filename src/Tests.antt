-- ===== src/Tests.antt =====
-- Runs of the theorems at concrete inputs.
mod Networks
mod Packets
mod Accounts
mod Naming
mod Gateways
mod Granting
mod Punching
mod Joining
mod Proving
mod Listing
