-- ===== src/Gateway.antt =====
-- control/gateway.go and control/controller.go: the gateways that report to the controller.
pub mod Replay
pub mod Approval
pub mod Grants
