-- ===== src/Registration.antt =====
-- control/registration.go: a device asks for a network (the handshake, the checks, the address) and
-- proves its key.
pub mod Config
pub mod Join
pub mod Runtime
pub mod Challenge
pub mod Handle
