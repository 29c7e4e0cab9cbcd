-- ===== src/Punch/Deadlines.antt =====
-- What ReconcilePunchSessions does to the sessions and to the pairs.
use sdl_control.Base.{
  ℕ, suc, ◌≡◌, refl, sym, ap, ◌∙◌, [], ◌∷◌, Option, none, some, Bool, true, false, ◌&&◌, ◌==◌,
  nat_eq, string_eq, pair_eq, ltb, if◌then◌else◌, arith, All, Bool-cases, inl, inr,
}
use sdl_control.Base.Map
use sdl_control.Base.Map.{Map}
use sdl_control.ExpireMap.Laws.{live}
use sdl_control.Punch.State.{
  PunchSessionState, scheduled, sending, waiting, success, failed, timeout, PunchSession, Key,
  PunchControl,
}
use sdl_control.Punch.Retry.{failed_times, failed_times_more}
use sdl_control.Punch.Outcome.{pair_of, settle-IsSettled}
use sdl_control.Punch.Session.{
  is_open, is_overdue, expired, after_deadline, settle_overdue, reconcile_entries,
  reconcile_punch_sessions,
}

-- A session that has not ended, with a deadline that has passed
abbrev pub is_running : PunchSessionState → Bool
is_running scheduled = true
is_running sending = true
is_running waiting = true
is_running _ = false

abbrev pub is_late : ℕ → PunchSession → Bool
is_late now_ms s = is_running s.state && ltb 0 s.deadline_unix_ms && ltb s.deadline_unix_ms now_ms

-- What the session of a key becomes
abbrev pub timed_out : ℕ → Option PunchSession → Option PunchSession
timed_out now_ms none = none
timed_out now_ms (some s) =
    if is_late now_ms s
    then some (record s {
      state = timeout;
      last_reason = (if s.last_reason == "" then "deadline exceeded" else s.last_reason);
      relay_fallback = true;
    })
    else some s

-- How many late sessions a pair has
abbrev pub late_of : ℕ → Key → Map Key PunchSession → ℕ
late_of now_ms p [] = 0
late_of now_ms p ((key, s) ∷ rest) =
    if is_late now_ms s && (pair_of s == p)
    then suc (late_of now_ms p rest)
    else late_of now_ms p rest

open_lem : (st : PunchSessionState) → is_open st ≡ is_running st
unfolding is_open
open_lem scheduled = refl
open_lem sending = refl
open_lem waiting = refl
open_lem success = refl
open_lem failed = refl
open_lem timeout = refl

overdue_lem : (now_ms : ℕ) (s : PunchSession) → is_overdue now_ms s ≡ is_late now_ms s
unfolding is_overdue
overdue_lem now_ms s = rw (open_lem s.state) refl

after_deadline_lem :
    (now_ms : ℕ) (s : PunchSession) → some (after_deadline now_ms s) ≡ timed_out now_ms (some s)
unfolding after_deadline expired
after_deadline_lem now_ms s = elim (Bool-cases (is_late now_ms s)) [
  | inl e ↦ rw (overdue_lem now_ms s, e) refl
  | inr e ↦ rw (overdue_lem now_ms s, e) refl
]

after_deadline_done :
    (now_ms : ℕ) (s : PunchSession) → is_overdue now_ms (after_deadline now_ms s) ≡ false
unfolding after_deadline is_overdue expired is_open
after_deadline_done now_ms s = elim (Bool-cases (is_overdue now_ms s)) [
  | inl e ↦ rw (after_deadline, e) refl
  | inr e ↦ rw (after_deadline, e) e
]

none_overdue :
    (entries : Map Key PunchSession) (c : PunchControl) (now now_ms : ℕ)
    → All (λ e. is_overdue now_ms e.1 ≡ false) (reconcile_entries entries c now now_ms).0
unfolding reconcile_entries
none_overdue [] c now now_ms = tt
none_overdue ((key, s) ∷ rest) c now now_ms =
    (after_deadline_done now_ms s, none_overdue rest (settle_overdue c now now_ms s) now now_ms)

none_late :
    (now_ms : ℕ) (entries : Map Key PunchSession)
    → All (λ e. is_overdue now_ms e.1 ≡ false) entries
    → All (λ e. is_late now_ms e.1 ≡ false) entries
none_late now_ms [] a = tt
none_late now_ms ((key, s) ∷ rest) a = (sym (overdue_lem now_ms s) ∙ a.0, none_late now_ms rest a.1)

get-reconcile :
    (entries : Map Key PunchSession) (c : PunchControl) (now now_ms : ℕ) (k : Key)
    → Map.get (reconcile_entries entries c now now_ms).0 k ≡ timed_out now_ms (Map.get entries k)
unfolding reconcile_entries Map.get
get-reconcile [] c now now_ms k = refl
get-reconcile ((key, s) ∷ rest) c now now_ms k = elim (Bool-cases (key == k)) [
  | inl e ↦ rw e (after_deadline_lem now_ms s)
  | inr e ↦ rw e (get-reconcile rest (settle_overdue c now now_ms s) now now_ms k)
]

-- Once none is overdue the loop changes nothing.
reconcile_quiet :
    (entries : Map Key PunchSession) (c : PunchControl) (now now_ms : ℕ)
    → All (λ e. is_overdue now_ms e.1 ≡ false) entries
    → reconcile_entries entries c now now_ms ≡ (entries, c)
unfolding reconcile_entries settle_overdue after_deadline
reconcile_quiet [] c now now_ms a = refl
reconcile_quiet ((key, s) ∷ rest) c now now_ms a =
    rw (a.0, reconcile_quiet rest c now now_ms a.1) refl

module _ (now now_ms : ℕ) (p : Key) where
  -- One session, seen from a pair
  settle_overdue_lem :
      (c : PunchControl) (s : PunchSession)
      → (live (settle_overdue c now now_ms s).pair_cooldown now p
          ≡ (if is_late now_ms s && (pair_of s == p) then none else live c.pair_cooldown now p))
        × (live (settle_overdue c now now_ms s).pair_retry now p ≡ (
            if is_late now_ms s && (pair_of s == p)
            then failed_times now 1 (live c.pair_retry now p)
            else live c.pair_retry now p))
  unfolding settle_overdue expired is_open
  settle_overdue_lem c s = elim (Bool-cases (is_late now_ms s)) [
    | inl e ↦
        let done = settle-IsSettled c now (expired s) refl refl in
        rw (overdue_lem now_ms s, e) (done.cools p, done.counts p)
    | inr e ↦ rw (overdue_lem now_ms s, e) (refl, refl)
  ]

  pairs_lem :
      (entries : Map Key PunchSession) (c : PunchControl)
      → (live (reconcile_entries entries c now now_ms).1.pair_cooldown now p
          ≡ (if late_of now_ms p entries == 0 then live c.pair_cooldown now p else none))
        × (live (reconcile_entries entries c now now_ms).1.pair_retry now p
            ≡ failed_times now (late_of now_ms p entries) (live c.pair_retry now p))
  unfolding reconcile_entries
  pairs_lem [] c = (refl, refl)
  pairs_lem ((key, s) ∷ rest) c =
      let later = pairs_lem rest (settle_overdue c now now_ms s) in
      let here = settle_overdue_lem c s in
      let n = late_of now_ms p rest in
      elim (Bool-cases (is_late now_ms s && (pair_of s == p))) [
        | inl e ↦ rw e (
          later.0 ∙ ground (arith, here.0, e),
          later.1
              ∙ (ap (failed_times now n) (here.1 ∙ rw e refl)
                  ∙ failed_times_more now n (live c.pair_retry now p)),
        )
        | inr e ↦ rw e (
          later.0 ∙ ground (arith, here.0, e),
          later.1 ∙ ap (failed_times now n) (here.1 ∙ rw e refl),
        )
      ]

-- A run at a time leaves every key with the session that it had, but a session that was scheduled,
-- sending or waiting with a deadline that has passed is a timeout now, with the relay as fallback and
-- its reason, or "deadline exceeded" if it had none. No session is late afterwards. A pair with such
-- sessions has no cooldown any more, and for each of them one attempt more, modulo 2 ^ 32, with the delay
-- for that count; the other pairs are as they were. A second run for that time, at any clock, changes
-- nothing.
pub reconcile_lem :
    (c : PunchControl) (now later now_ms : ℕ) (k p : Key)
    → (Map.get (reconcile_punch_sessions c now now_ms).sessions.entries k
        ≡ timed_out now_ms (Map.get c.sessions.entries k))
      × All
          (λ e. is_late now_ms e.1 ≡ false)
          (reconcile_punch_sessions c now now_ms).sessions.entries
      × (live (reconcile_punch_sessions c now now_ms).pair_cooldown now p
          ≡ (if late_of now_ms p c.sessions.entries == 0 then live c.pair_cooldown now p else none))
      × (live (reconcile_punch_sessions c now now_ms).pair_retry now p
          ≡ failed_times now (late_of now_ms p c.sessions.entries) (live c.pair_retry now p))
      × (reconcile_punch_sessions (reconcile_punch_sessions c now now_ms) later now_ms
          ≡ reconcile_punch_sessions c now now_ms)
unfolding reconcile_punch_sessions
reconcile_lem c now later now_ms k p = (
  get-reconcile c.sessions.entries c now now_ms k,
  none_late now_ms entries (none_overdue c.sessions.entries c now now_ms),
  (pairs_lem now now_ms p c.sessions.entries c).0,
  (pairs_lem now now_ms p c.sessions.entries c).1,
  ap (λ r. record r.1 { sessions = record c.sessions { entries = r.0 } })
      (reconcile_quiet entries (reconcile_punch_sessions c now now_ms) later now_ms
        (none_overdue c.sessions.entries c now now_ms)),
)
  where
    entries : Map Key PunchSession
    entries = (reconcile_entries c.sessions.entries c now now_ms).0
