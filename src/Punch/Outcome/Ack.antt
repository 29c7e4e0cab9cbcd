-- ===== src/Punch/Outcome/Ack.antt =====
-- The acknowledgements of the two sides.
use sdl_control.Base.{
  ℕ, ◌≡◌, ◌≢◌, ◌∙◌, refl, ap, [], ◌∷◌, none, some, Bool, true, false, not, ◌==◌, nat_eq, string_eq,
  pair_eq, if◌then◌else◌, arith, nat_beq_iff,
}
use sdl_control.Base.Map
use sdl_control.Base.Map.{Map}
use sdl_control.ExpireMap
use sdl_control.ExpireMap.{ExpireMap}
use sdl_control.ExpireMap.Laws.{live, get_lem}
use sdl_control.Punch.State.{waiting, PunchAck, PunchSession, punch_session_key, PunchControl}
use sdl_control.Punch.Session.{
  Handled, mismatches, acked, settle, store_session, ack_found, handle_punch_ack, is_open,
}
use sdl_control.Punch.Outcome.{IsSettled, settle-IsSettled, stored_lem, is_success}

rejected_ended :
    (s : PunchSession) (source : ℕ) (a : PunchAck)
    → a.accepted ≡ false
    → (is_open (acked s source a).state ≡ false)
      × ((acked s source a).relay_fallback ≡ not (is_success (acked s source a).state))
unfolding acked is_open
rejected_ended s source a e = rw e (refl, refl)

revived :
    (s : PunchSession) (source : ℕ) (a : PunchAck) (first : ℕ)
    → a.accepted ≡ true
    → first ≢ source
    → s.ack ≡ (first, false) ∷ []
    → acked s source a ≡ record s { ack = (first, false) ∷ (source, true) ∷ []; state = waiting }
unfolding acked Map.put
revived s source a first e ne answers = rw (acked, answers, e, other) refl
  where
    other : first == source ≡ false
    other = ground (arith, nat_beq_iff first source)

module _ (c : PunchControl) (now source : ℕ) (a : PunchAck) (session : PunchSession)
    (held : live c.sessions now (punch_session_key a.session_id a.attempt) ≡ some session)
    (ours : mismatches a.source source ≡ false) where
  abbrev after_ack : Handled
  after_ack = handle_punch_ack c now source (some a)

  abbrev after_read : PunchControl
  after_read = record c {
    sessions = (ExpireMap.get c.sessions now (punch_session_key a.session_id a.attempt)).0;
  }

  stored : PunchControl → Handled
  stored c' = record {
    control =
        store_session c' now (acked session source a) (punch_session_key a.session_id a.attempt);
    error = none;
  }

  ack_is :
      after_ack
      ≡ stored (if a.accepted then after_read else settle after_read now (acked session source a))
  unfolding handle_punch_ack ack_found stored
  ack_is =
      rw
        (
          (get_lem c.sessions now now (punch_session_key a.session_id a.attempt)
              (punch_session_key a.session_id a.attempt) (ground arith)).0,
          held,
          ours,
        )
        refl

  ack_by :
      (b : Bool)
      → a.accepted ≡ b
      → after_ack
        ≡ stored (if b then after_read else settle after_read now (acked session source a))
  ack_by b e =
      ack_is
      ∙ ap (λ t. stored (if t then after_read else settle after_read now (acked session source a)))
          e

  -- An acknowledgement that refuses a session that is alive, from the source that it names, or that
  -- names none, ends the session as failed with the relay as fallback: its pair has no cooldown any
  -- more and counts one failure more.
  pub punch_ack_rejected :
      a.accepted ≡ false
      → (after_ack.error ≡ none)
        × (live after_ack.control.sessions now (punch_session_key a.session_id a.attempt)
            ≡ some (acked session source a))
        × IsSettled c.pair_cooldown c.pair_retry after_ack.control.pair_cooldown
            after_ack.control.pair_retry now
            (acked session source a)
  unfolding store_session settle stored
  punch_ack_rejected e =
      let s = acked session source a in
      rw (ack_by false e) (
        refl,
        stored_lem after_read (settle after_read now s) now s
            (punch_session_key a.session_id a.attempt) refl,
        settle-IsSettled after_read now s (rejected_ended session source a e).0
            (rejected_ended session source a e).1,
      )

  -- When the first side has refused a session that is alive and the other side then accepts, the
  -- session is stored as waiting, so it is open again although its failure was counted and stays
  -- counted.
  pub ack_revives :
      (first : ℕ)
      → a.accepted ≡ true
      → first ≢ source
      → session.ack ≡ (first, false) ∷ []
      → (live after_ack.control.sessions now (punch_session_key a.session_id a.attempt)
          ≡ some (record session { ack = (first, false) ∷ (source, true) ∷ []; state = waiting }))
        × (after_ack.control.pair_retry ≡ c.pair_retry)
  unfolding store_session stored
  ack_revives first e ne answers = rw (ack_by true e) (
    stored_lem after_read after_read now (acked session source a)
          (punch_session_key a.session_id a.attempt) refl
        ∙ ap some (revived session source a first e ne answers),
    refl,
  )
