-- ===== src/Punch/State.antt =====
-- control/punch.go: punch sessions, the keys of sessions and pairs, and the retry state of a pair.
use sdl_control.Base.{
  ℕ, ◌+◌, ◌*◌, ◌/◌, ◌%◌, ◌^◌, String, Option, none, some, Bool, nat_eq, pair_eq, ◌==◌, ltb,
  if◌then◌else◌,
}
use sdl_control.Base.Map.{Map}
use sdl_control.ExpireMap
use sdl_control.ExpireMap.{ExpireMap}

pub data PunchSessionState : Type 0 where
  scheduled sending waiting success failed timeout : PunchSessionState

-- pb.PunchSessionPhase, with the numbers that proto3 keeps although it does not know them
pub data PunchSessionPhase : Type 0 where
  phase_unknown phase_scheduled phase_sending phase_waiting : PunchSessionPhase
  phase_success phase_timeout phase_failed : PunchSessionPhase
  phase_other : ℕ → PunchSessionPhase

pub data PunchResultCode : Type 0 where
  result_unknown result_success result_failed result_timeout : PunchResultCode
  result_canceled result_rejected result_no_response result_superseded : PunchResultCode
  result_other : ℕ → PunchResultCode

pub record PunchAck : Type 0 where
  pub session_id : ℕ
  pub source : ℕ
  pub attempt : ℕ
  pub accepted : Bool
  pub phase : PunchSessionPhase
  pub reason : String

-- Without the selected endpoint, which is only logged.
pub record PunchResult : Type 0 where
  pub session_id : ℕ
  pub source : ℕ
  pub attempt : ℕ
  pub code : PunchResultCode
  pub phase : PunchSessionPhase
  pub reason : String

pub record PunchRequest : Type 0 where
  pub session_id : ℕ
  pub source : ℕ
  pub target : ℕ
  pub attempt : ℕ
  pub attempt_budget : ℕ
  pub deadline_unix_ms : ℕ
  pub trigger_reason : String
  pub selection_policy : String

-- An absent map and an empty one are the same list.
pub record PunchSession : Type 0 where
  pub session_id : ℕ
  pub source : ℕ
  pub target : ℕ
  pub attempt : ℕ
  pub attempt_budget : ℕ
  pub deadline_unix_ms : ℕ
  pub trigger_reason : String
  pub selection_policy : String
  pub state : PunchSessionState
  pub requested_at : ℕ
  pub last_reason : String
  pub relay_fallback : Bool
  pub ack : Map ℕ Bool
  pub results : Map ℕ PunchResult

pub record PunchRetryState : Type 0 where
  pub attempt : ℕ
  pub next_allowed_unix_ms : ℕ

-- The texts "%d:%d" and "%d-%d" of two numbers stand for the numbers, and the numbers for the texts.
abbrev pub Key : Type 0
Key = ℕ × ℕ

unfoldable pub punch_session_key : ℕ → ℕ → Key
punch_session_key session_id attempt = (session_id, attempt)

unfoldable pub punch_pair_key : ℕ → ℕ → Key
punch_pair_key a b = if ltb a b then (a, b) else (b, a)

-- The fields of the source's NetworkControl that the hole punching keeps.
pub record PunchControl : Type 0 where
  pub sessions : ExpireMap Key PunchSession
  pub pair_cooldown : ExpireMap Key (Unit {0})
  pub pair_retry : ExpireMap Key PunchRetryState

abbrev pub max_punch_attempts_per_pair : ℕ
max_punch_attempts_per_pair = 3

abbrev pub second : ℕ
second = 1_000_000_000

abbrev pub millisecond : ℕ
millisecond = 1_000_000

unfoldable pub retry_backoff_duration : ℕ → ℕ
retry_backoff_duration attempt =
    if attempt == 0
    then 0
    else let shift = if ltb 5 attempt then 5 else attempt in
      let d = (2 ^ shift) * second in if ltb (30 * second) d then 30 * second else d

unfoldable pub punch_session_state_from_phase : PunchSessionPhase → PunchSessionState
punch_session_state_from_phase phase_scheduled = scheduled
punch_session_state_from_phase phase_unknown = scheduled
punch_session_state_from_phase phase_sending = sending
punch_session_state_from_phase phase_waiting = waiting
punch_session_state_from_phase phase_success = success
punch_session_state_from_phase phase_timeout = timeout
punch_session_state_from_phase phase_failed = failed
punch_session_state_from_phase (phase_other n) = failed

-- The zero value that a read of a missing key gives
unfoldable pub or_no_retry : Option PunchRetryState → PunchRetryState
or_no_retry none = record { attempt = 0; next_allowed_unix_ms = 0 }
or_no_retry (some state) = state

-- The retry state after one more failure; the count is a uint32.
unfoldable pub next_retry : ℕ → PunchRetryState → PunchRetryState
unfolding retry_backoff_duration
next_retry now state =
    let attempt = (state.attempt + 1) % 2 ^ 32 in
    record {
      attempt = attempt;
      next_allowed_unix_ms = (now + retry_backoff_duration attempt) / millisecond;
    }

unfoldable pub count_failure :
    ExpireMap Key PunchRetryState → ℕ → Key → ExpireMap Key PunchRetryState
unfolding or_no_retry next_retry
count_failure retry now pair =
    let (retry', found) = ExpireMap.get retry now pair in
    ExpireMap.set retry' now pair (next_retry now (or_no_retry found))

unfoldable pub update_punch_retry_state :
    ExpireMap Key PunchRetryState → ℕ → Key → PunchSessionState → ExpireMap Key PunchRetryState
unfolding count_failure
update_punch_retry_state retry now pair success = ExpireMap.delete retry pair
update_punch_retry_state retry now pair failed = count_failure retry now pair
update_punch_retry_state retry now pair timeout = count_failure retry now pair
update_punch_retry_state retry now pair scheduled = retry
update_punch_retry_state retry now pair sending = retry
update_punch_retry_state retry now pair waiting = retry
