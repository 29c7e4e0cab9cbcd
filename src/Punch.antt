-- ===== src/Punch.antt =====
-- control/punch.go: the sessions in which the controller has two clients punch a hole. The messages of
-- protocol/pb are generated: a handler takes the message that proto.Unmarshal made of the payload.
pub mod State
pub mod Session
pub mod Retry
pub mod Outcome
pub mod Deadlines
pub mod Endpoints
