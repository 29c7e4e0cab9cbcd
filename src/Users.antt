-- ===== src/Users.antt =====
-- control/user.go: users, enrolments, device tickets and authenticated devices. A `time.Time` is the
-- count of nanoseconds since Go's zero time, so 0 is the time that IsZero reports; a duration is a
-- count of nanoseconds. Each operation returns its result with the state that it leaves, also when it
-- fails; the lock around it is one step.
pub mod State
pub mod Groups
pub mod Tickets
pub mod Enroll
pub mod Create
pub mod Names
pub mod Devices
pub mod Wildcard
