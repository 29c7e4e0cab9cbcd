-- ===== src/Punch/Outcome.antt =====
-- What the answers of the two sides and the deadlines make of a session.
pub mod Ack
use sdl_control.Base.{
  ℕ, suc, ◌+◌, ◌*◌, ◌≤◌, ◌≡◌, ◌≢◌, ◌∙◌, refl, ap, List, [], ◌∷◌, String, Option, none, some, Bool,
  true, false, ◌&&◌, ◌||◌, not, Eq, ◌==◌, nat_eq, string_eq, pair_eq, ltb, leb, if◌then◌else◌,
  length, arith, beq_refl, Bool-cases, Option-cases, inl, inr, pair_beq_iff,
}
use sdl_control.Base.Map
use sdl_control.Base.Map.{Map}
use sdl_control.ExpireMap
use sdl_control.ExpireMap.{ExpireMap}
use sdl_control.ExpireMap.Laws.{live, live-set, live-set-get, live-delete, get_lem}
use sdl_control.Punch.State.{
  PunchSessionState, scheduled, sending, waiting, success, failed, timeout, PunchAck, PunchResult,
  PunchResultCode, PunchSession, PunchRetryState, Key, punch_session_key, punch_pair_key,
  PunchControl, result_unknown, result_success, result_failed, result_timeout, result_canceled,
  result_rejected, result_no_response, result_superseded, result_other, update_punch_retry_state,
  or_no_retry, next_retry,
}
use sdl_control.Punch.Retry.{update_retry_lem, retry_after, failed_times, next_retry_lem}
use sdl_control.Punch.Session.{
  Handled, PunchError, mismatches, acked, settle, store_session, ack_found, result_found,
  handle_punch_ack, outcome_of, reported, handle_punch_result, is_open, is_overdue, expired,
  after_deadline, settle_overdue, reconcile_entries, reconcile_punch_sessions,
}

-- The key of the two clients of a session, the smaller address first
abbrev pub pair_of : PunchSession → Key
pair_of s = if ltb s.source s.target then (s.source, s.target) else (s.target, s.source)

pub pair_lem : (s : PunchSession) → punch_pair_key s.source s.target ≡ pair_of s
unfolding punch_pair_key
pair_lem s = refl

abbrev pub is_success : PunchSessionState → Bool
is_success success = true
is_success _ = false

-- The state that a result's code stands for
abbrev pub state_of : PunchResultCode → PunchSessionState
state_of result_success = success
state_of result_timeout = timeout
state_of result_no_response = timeout
state_of _ = failed

-- A session that ended, and the pairs: its own has no cooldown, and one failure more or no retry state;
-- the others are as they were.
pub record IsSettled (cooldown : ExpireMap Key (Unit {0})) (retry : ExpireMap Key PunchRetryState)
    (cooldown' : ExpireMap Key (Unit {0})) (retry' : ExpireMap Key PunchRetryState) (now : ℕ)
    (s : PunchSession) : Type 0 where
  pub ended : is_open s.state ≡ false
  pub relay : s.relay_fallback ≡ not (is_success s.state)
  pub cools :
      (p : Key) → live cooldown' now p ≡ (if pair_of s == p then none else live cooldown now p)
  pub counts :
      (p : Key)
      → live retry' now p ≡ (
          if pair_of s == p
          then (if is_success s.state then none else failed_times now 1 (live retry now p))
          else live retry now p)

retry_now :
    (retry : ExpireMap Key PunchRetryState) (now : ℕ) (pair : Key) (st : PunchSessionState)
    → is_open st ≡ false
    → retry_after retry now now pair st
      ≡ (if is_success st then none else failed_times now 1 (live retry now pair))
unfolding is_open
retry_now retry now pair success e = refl
retry_now retry now pair failed e = ground (arith, next_retry_lem now (live retry now pair))
retry_now retry now pair timeout e = ground (arith, next_retry_lem now (live retry now pair))
retry_now retry now pair scheduled e = absurd (ground arith)
retry_now retry now pair sending e = absurd (ground arith)
retry_now retry now pair waiting e = absurd (ground arith)

-- The same at any key
retry_at :
    (retry : ExpireMap Key PunchRetryState) (now : ℕ) (pair p : Key) (st : PunchSessionState)
    → is_open st ≡ false
    → live (update_punch_retry_state retry now pair st) now p ≡ (
        if pair == p
        then (if is_success st then none else failed_times now 1 (live retry now p))
        else live retry now p)
retry_at retry now pair p st ended =
    update_retry_lem retry now now pair p st (ground arith) ∙ (elim (Bool-cases (pair == p)) [
      | inl e ↦ rw e (
          retry_now retry now pair st ended
          ∙ ap (λ k. if is_success st then none else failed_times now 1 (live retry now k))
              ((pair_beq_iff pair p).0 e))
      | inr e ↦ rw e refl
    ])

pub settle-IsSettled :
    (c : PunchControl) (now : ℕ) (s : PunchSession)
    → is_open s.state ≡ false
    → s.relay_fallback ≡ not (is_success s.state)
    → IsSettled c.pair_cooldown c.pair_retry
        (settle c now s).pair_cooldown
        (settle c now s).pair_retry
        now
        s
unfolding settle
settle-IsSettled c now s ended relay = record {
  ended = ended;
  relay = relay;
  cools = λ p. rw (pair_lem s) (live-delete c.pair_cooldown now (pair_of s) p);
  counts = λ p. rw (pair_lem s) (retry_at c.pair_retry now (pair_of s) p s.state ended);
}

-- The session with the result of one side in it
abbrev pub with_result : PunchSession → ℕ → PunchResult → PunchSession
with_result s source r = record s {
  results = Map.put s.results source r;
  state = state_of r.code;
  relay_fallback = not (is_success (state_of r.code));
  last_reason = r.reason;
}

outcome_lem :
    (code : PunchResultCode)
    → (outcome_of code ≡ (state_of code, not (is_success (state_of code))))
      × (is_open (state_of code) ≡ false)
unfolding outcome_of is_open
outcome_lem result_success = (refl, refl)
outcome_lem result_timeout = (refl, refl)
outcome_lem result_no_response = (refl, refl)
outcome_lem result_unknown = (refl, refl)
outcome_lem result_failed = (refl, refl)
outcome_lem result_canceled = (refl, refl)
outcome_lem result_rejected = (refl, refl)
outcome_lem result_superseded = (refl, refl)
outcome_lem (result_other n) = (refl, refl)

reported_lem :
    (s : PunchSession) (source : ℕ) (r : PunchResult) → reported s source r ≡ with_result s source r
unfolding reported
reported_lem s source r = rw (outcome_lem r.code).0 refl

-- The sessions that a reader finds after one was stored
stored_at :
    (c c' : PunchControl) (now : ℕ) (s : PunchSession) (key j : Key)
    → c'.sessions ≡ c.sessions
    → live (store_session c' now s key).sessions now j
      ≡ (if key == j then some s else live c.sessions now j)
unfolding store_session
stored_at c c' now s key j same =
    live-set c'.sessions now now key s j ∙ ground (arith, ap (λ m. live m now j) same)

-- The session that a reader finds after it was stored
pub stored_lem :
    (c c' : PunchControl) (now : ℕ) (s : PunchSession) (key : Key)
    → c'.sessions ≡ c.sessions
    → live (store_session c' now s key).sessions now key ≡ some s
unfolding store_session
stored_lem c c' now s key same =
    live-set c'.sessions now now key s key ∙ rw (beq_refl key) (ground arith)

module _ (c : PunchControl) (now source : ℕ) (r : PunchResult) (session : PunchSession)
    (held : live c.sessions now (punch_session_key r.session_id r.attempt) ≡ some session)
    (ours : mismatches r.source source ≡ false) where
  abbrev after_result : Handled
  after_result = handle_punch_result c now source (some r)

  abbrev after_read : PunchControl
  after_read = record c {
    sessions = (ExpireMap.get c.sessions now (punch_session_key r.session_id r.attempt)).0;
  }

  result_is : after_result ≡ record {
    control =
        store_session
          (settle after_read now (reported session source r))
          now
          (reported session source r)
          (punch_session_key r.session_id r.attempt);
    error = none;
  }
  unfolding handle_punch_result result_found
  result_is =
      rw
        (
          (get_lem c.sessions now now (punch_session_key r.session_id r.attempt)
              (punch_session_key r.session_id r.attempt) (ground arith)).0,
          held,
          ours,
        )
        refl

  -- A result for a session that is alive, from the source that it names, or that names none, is stored
  -- in its session: the state is success for the code success, timeout for the codes timeout and no
  -- response, and failed for every other code; the relay is the fallback unless it is success. The
  -- session has then ended, and the other sessions are as they were. Its pair has no cooldown any more,
  -- and no retry state after a success, and after anything else one attempt more, modulo 2 ^ 32, with
  -- the delay for that count; the other pairs are as they were.
  pub punch_result_lem :
      (j : Key)
      → (after_result.error ≡ none)
        × (live after_result.control.sessions now j ≡ (
            if (r.session_id, r.attempt) == j
            then some (with_result session source r)
            else live c.sessions now j))
        × IsSettled c.pair_cooldown c.pair_retry after_result.control.pair_cooldown
            after_result.control.pair_retry now
            (with_result session source r)
  unfolding store_session settle punch_session_key
  punch_result_lem j =
      let s = with_result session source r in
      rw (result_is, reported_lem session source r)
        (
          refl,
          stored_at after_read (settle after_read now s) now s (r.session_id, r.attempt) j refl
              ∙ (rw (get_lem c.sessions now now (r.session_id, r.attempt) j (ground arith)).1 refl),
          settle-IsSettled after_read now s (outcome_lem r.code).1 refl,
        )
