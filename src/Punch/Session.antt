-- ===== src/Punch/Session.antt =====
-- control/punch.go: the handlers of PunchRequest, PunchAck and PunchResult, and ReconcilePunchSessions.
-- A handler reads the clock once.
use sdl_control.Base.{
  ℕ, ◌+◌, ◌*◌, ◌/◌, [], ◌∷◌, Option, none, some, Bool, true, false, ◌&&◌, ◌||◌, not, ◌==◌, nat_eq,
  string_eq, pair_eq, ltb, leb, if◌then◌else◌, length,
}
use sdl_control.Base.Map
use sdl_control.Base.Map.{Map}
use sdl_control.ExpireMap
use sdl_control.ExpireMap.{ExpireMap}
use sdl_control.Punch.State.{
  PunchSessionState, PunchResultCode, PunchAck, PunchResult, PunchRequest, PunchSession, Key,
  punch_session_key, punch_pair_key, PunchControl, max_punch_attempts_per_pair, second, millisecond,
  punch_session_state_from_phase, update_punch_retry_state, scheduled, sending, waiting, success,
  failed, timeout, result_unknown, result_success, result_failed, result_timeout, result_canceled,
  result_rejected, result_no_response, result_superseded, result_other,
}

pub data PunchError : Type 0 where
  bad_message session_not_found source_mismatch invalid_request target_not_registered : PunchError

pub record Handled : Type 0 where
  pub control : PunchControl
  pub error : Option PunchError

-- ack.GetSource() != 0 && ack.GetSource() != source
unfoldable pub mismatches : ℕ → ℕ → Bool
mismatches claimed source = not (claimed == 0) && not (claimed == source)

abbrev sending_at_least : PunchSessionState → PunchSessionState
sending_at_least scheduled = sending
sending_at_least s = s

-- The session after the answer of one side
unfoldable pub acked : PunchSession → ℕ → PunchAck → PunchSession
unfolding punch_session_state_from_phase
acked session source ack =
    let answers = Map.put session.ack source ack.accepted in
    if not ack.accepted
    then record session {
      ack = answers;
      state = failed;
      last_reason = ack.reason;
      relay_fallback = true;
    }
    else if leb 2 (length answers)
    then record session { ack = answers; state = waiting }
    else record session {
      ack = answers;
      state = sending_at_least (punch_session_state_from_phase ack.phase);
    }

-- The session ended: the pair may be tried again when the retry state allows.
unfoldable pub settle : PunchControl → ℕ → PunchSession → PunchControl
unfolding update_punch_retry_state punch_pair_key
settle c now session =
    let pair = punch_pair_key session.source session.target in
    record c {
      pair_cooldown = ExpireMap.delete c.pair_cooldown pair;
      pair_retry = update_punch_retry_state c.pair_retry now pair session.state;
    }

unfoldable pub store_session : PunchControl → ℕ → PunchSession → Key → PunchControl
store_session c now session key = record c { sessions = ExpireMap.set c.sessions now key session }

unfoldable pub ack_found : PunchControl → ℕ → ℕ → PunchAck → Key → Option PunchSession → Handled
unfolding acked settle mismatches store_session
ack_found c now source ack key none = record { control = c; error = some session_not_found }
ack_found c now source ack key (some session) =
    if mismatches ack.source source
    then record { control = c; error = some source_mismatch }
    else let session' = acked session source ack in
      let c' = if ack.accepted then c else settle c now session' in
      record { control = store_session c' now session' key; error = none }

-- HandlePunchAckPacket; `source` is the address of the packet.
unfoldable pub handle_punch_ack : PunchControl → ℕ → ℕ → Option PunchAck → Handled
unfolding ack_found punch_session_key
handle_punch_ack c now source none = record { control = c; error = some bad_message }
handle_punch_ack c now source (some ack) =
    let key = punch_session_key ack.session_id ack.attempt in
    let (sessions', found) = ExpireMap.get c.sessions now key in
    ack_found (record c { sessions = sessions' }) now source ack key found

-- The state and the fallback that a result's code gives
unfoldable pub outcome_of : PunchResultCode → PunchSessionState × Bool
outcome_of result_success = (success, false)
outcome_of result_timeout = (timeout, true)
outcome_of result_no_response = (timeout, true)
outcome_of result_unknown = (failed, true)
outcome_of result_failed = (failed, true)
outcome_of result_canceled = (failed, true)
outcome_of result_rejected = (failed, true)
outcome_of result_superseded = (failed, true)
outcome_of (result_other n) = (failed, true)

unfoldable pub reported : PunchSession → ℕ → PunchResult → PunchSession
unfolding outcome_of
reported session source result = record session {
  results = Map.put session.results source result;
  state = (outcome_of result.code).0;
  relay_fallback = (outcome_of result.code).1;
  last_reason = result.reason;
}

unfoldable pub result_found :
    PunchControl → ℕ → ℕ → PunchResult → Key → Option PunchSession → Handled
unfolding reported settle mismatches store_session
result_found c now source result key none = record { control = c; error = some session_not_found }
result_found c now source result key (some session) =
    if mismatches result.source source
    then record { control = c; error = some source_mismatch }
    else let session' = reported session source result in
      record { control = store_session (settle c now session') now session' key; error = none }

-- HandlePunchResultPacket
unfoldable pub handle_punch_result : PunchControl → ℕ → ℕ → Option PunchResult → Handled
unfolding result_found punch_session_key
handle_punch_result c now source none = record { control = c; error = some bad_message }
handle_punch_result c now source (some result) =
    let key = punch_session_key result.session_id result.attempt in
    let (sessions', found) = ExpireMap.get c.sessions now key in
    result_found (record c { sessions = sessions' }) now source result key found

-- session.State == Scheduled || Sending || Waiting
unfoldable pub is_open : PunchSessionState → Bool
is_open scheduled = true
is_open sending = true
is_open waiting = true
is_open success = false
is_open failed = false
is_open timeout = false

unfoldable pub is_overdue : ℕ → PunchSession → Bool
unfolding is_open
is_overdue now_ms session =
    is_open session.state && ltb 0 session.deadline_unix_ms && ltb session.deadline_unix_ms now_ms

unfoldable pub expired : PunchSession → PunchSession
expired session = record session {
  state = timeout;
  last_reason = (if session.last_reason == "" then "deadline exceeded" else session.last_reason);
  relay_fallback = true;
}

unfoldable pub after_deadline : ℕ → PunchSession → PunchSession
unfolding is_overdue expired
after_deadline now_ms session = if is_overdue now_ms session then expired session else session

unfoldable pub settle_overdue : PunchControl → ℕ → ℕ → PunchSession → PunchControl
unfolding is_overdue expired settle
settle_overdue c now now_ms session =
    if is_overdue now_ms session then settle c now (expired session) else c

-- The loop of ReconcilePunchSessions over the sessions: what becomes of them, and of the pairs. It
-- writes past the map's deadlines, which stay.
unfoldable pub reconcile_entries :
    Map Key PunchSession → PunchControl → ℕ → ℕ → Map Key PunchSession × PunchControl
unfolding after_deadline settle_overdue
reconcile_entries [] c now now_ms = ([], c)
reconcile_entries ((key, session) ∷ rest) c now now_ms =
    let (rest', c') = reconcile_entries rest (settle_overdue c now now_ms session) now now_ms in
    ((key, after_deadline now_ms session) ∷ rest', c')

unfoldable pub reconcile_punch_sessions : PunchControl → ℕ → ℕ → PunchControl
unfolding reconcile_entries
reconcile_punch_sessions c now now_ms =
    let (entries, c') = reconcile_entries c.sessions.entries c now now_ms in
    record c' { sessions = record c.sessions { entries = entries } }

-- HandlePunchRequestPacketInNetwork: `registered` is whether FindClientByVirtualIPInNetwork found the
-- target, `now` the clock in nanoseconds. The session with its acknowledgement from the sender.
unfoldable pub requested : ℕ → ℕ → PunchRequest → PunchSession
requested now source req = record {
  session_id = req.session_id;
  source = source;
  target = req.target;
  attempt = req.attempt;
  attempt_budget =
      (if req.attempt_budget == 0 then max_punch_attempts_per_pair else req.attempt_budget);
  deadline_unix_ms =
      (if req.deadline_unix_ms == 0
        then (now + 5 * second) / millisecond
        else req.deadline_unix_ms);
  trigger_reason = req.trigger_reason;
  selection_policy = req.selection_policy;
  state = scheduled;
  requested_at = now / second;
  last_reason = "";
  relay_fallback = false;
  ack = (source, true) ∷ [];
  results = [];
}

unfoldable pub handle_punch_request :
    (ℕ → Bool) → PunchControl → ℕ → ℕ → Option PunchRequest → Handled
unfolding requested mismatches punch_session_key store_session
handle_punch_request registered c now source none = record { control = c; error = some bad_message }
handle_punch_request registered c now source (some req) =
    if mismatches req.source source
    then record { control = c; error = some source_mismatch }
    else if req.session_id == 0 || req.attempt == 0
    then record { control = c; error = some invalid_request }
    else if not (registered req.target)
    then record { control = c; error = some target_not_registered }
    else record {
      control =
          store_session c now (requested now source req)
            (punch_session_key req.session_id req.attempt);
      error = none;
    }
