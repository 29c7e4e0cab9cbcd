-- ===== src/Punch/Retry.antt =====
-- The keys of pairs, and the delay before a pair is tried again.
use sdl_control.Base.{
  ℕ, zero, suc, ◌+◌, ◌*◌, ◌/◌, ◌%◌, ◌^◌, ◌≤◌, ◌≡◌, refl, Option, none, some, nat_eq, pair_eq, ◌==◌,
  ltb, if◌then◌else◌, arith, ◌⊎◌, inl, inr, true, false, ◌∙◌, ap, sym, ◌&&◌, Bool-cases,
  pair_beq_iff,
}
use sdl_control.ExpireMap
use sdl_control.ExpireMap.{ExpireMap}
use sdl_control.ExpireMap.Laws.{live, live-delete, live-set-get, get_lem}
use sdl_control.Punch.State.{
  Key, punch_pair_key, PunchRetryState, PunchSessionState, success, failed, timeout, scheduled,
  sending, waiting, second, millisecond, retry_backoff_duration, or_no_retry, next_retry,
  count_failure, update_punch_retry_state,
}

-- A pair has one key, whichever of the two comes first.
pub pair_key_sym : (a b : ℕ) → punch_pair_key a b ≡ punch_pair_key b a
unfolding punch_pair_key
pair_key_sym a b = ground arith

pub pair_key_unique :
    (a b c d : ℕ)
    → punch_pair_key a b ≡ punch_pair_key c d
    → ((a ≡ c) × (b ≡ d)) ⊎ ((a ≡ d) × (b ≡ c))
unfolding punch_pair_key
pair_key_unique a b c d h = ground arith

-- The delays in seconds
unfoldable pub delay : ℕ → ℕ
delay n =
    if n == 0
    then 0
    else if n == 1
    then 2
    else if n == 2
    then 4
    else if n == 3
    then 8
    else if n == 4
    then 16
    else 30

capped : (n : ℕ) → n == 0 ≡ false → ltb 5 n ≡ true → retry_backoff_duration n ≡ 30 * second
unfolding retry_backoff_duration
capped n some_failure many = rw (retry_backoff_duration, some_failure, many) refl

retry_backoff_delay : (n : ℕ) → retry_backoff_duration n ≡ delay n * second
unfolding retry_backoff_duration delay
retry_backoff_delay zero = refl
retry_backoff_delay (suc zero) = refl
retry_backoff_delay (suc (suc zero)) = refl
retry_backoff_delay (suc (suc (suc zero))) = refl
retry_backoff_delay (suc (suc (suc (suc zero)))) = refl
retry_backoff_delay (suc (suc (suc (suc (suc zero))))) = refl
retry_backoff_delay (suc (suc (suc (suc (suc (suc n)))))) =
    ground (arith, capped (suc (suc (suc (suc (suc (suc n)))))))

delay_mono : (n m : ℕ) → n ≤ m → (delay n ≤ delay m) × (delay m ≤ 30) × ((n ≡ 0) ⊎ (2 ≤ delay n))
unfolding delay
delay_mono n m le = ground arith

-- After more failures the delay is no shorter, it is never above thirty seconds, and after at least
-- one failure it is at least two seconds.
pub retry_backoff_lem :
    (n m : ℕ)
    → n ≤ m
    → (retry_backoff_duration n ≤ retry_backoff_duration m)
      × (retry_backoff_duration m ≤ 30 * second)
      × ((n ≡ 0) ⊎ (2 * second ≤ retry_backoff_duration n))
retry_backoff_lem n m le =
    ground (arith, retry_backoff_delay n, retry_backoff_delay m, delay_mono n m le)

-- The attempts that a pair has had
abbrev pub attempts_of : Option PunchRetryState → ℕ
attempts_of none = 0
attempts_of (some state) = state.attempt

-- What a pair shows after so many failures at a time: the count, of 32 bits, and the delay for it
abbrev pub failed_times : ℕ → ℕ → Option PunchRetryState → Option PunchRetryState
failed_times now zero before = before
failed_times now (suc k) before = some (record {
  attempt = (attempts_of before + suc k) % 2 ^ 32;
  next_allowed_unix_ms =
      (now + delay ((attempts_of before + suc k) % 2 ^ 32) * second) / millisecond;
})

pub next_retry_lem :
    (now : ℕ) (before : Option PunchRetryState)
    → some (next_retry now (or_no_retry before)) ≡ failed_times now 1 before
unfolding next_retry or_no_retry
next_retry_lem now none = rw (retry_backoff_delay 1) refl
next_retry_lem now (some state) = rw (retry_backoff_delay ((state.attempt + 1) % 2 ^ 32)) refl

pub failed_times_more :
    (now k : ℕ) (before : Option PunchRetryState)
    → failed_times now k (failed_times now 1 before) ≡ failed_times now (suc k) before
failed_times_more now zero before = refl
failed_times_more now (suc k) before = ap (λ n. some (counted n)) (sum (attempts_of before))
  where
    counted : ℕ → PunchRetryState
    counted n = record {
      attempt = n;
      next_allowed_unix_ms = (now + delay n * second) / millisecond;
    }

    sum : (a : ℕ) → ((a + 1) % 2 ^ 32 + suc k) % 2 ^ 32 ≡ (a + suc (suc k)) % 2 ^ 32
    sum a = omega arith

-- After a failure the pair shows one attempt more until the entry runs out; the other pairs show what
-- they showed.
abbrev pub after_failure : ExpireMap Key PunchRetryState → ℕ → Key → PunchRetryState
after_failure retry now pair = next_retry now (or_no_retry (live retry now pair))

count_failure_lem :
    (retry : ExpireMap Key PunchRetryState) (now t : ℕ) (pair j : Key)
    → now ≤ t
    → live (count_failure retry now pair) t j ≡ (
        if pair == j
        then (if ltb 0 retry.ttl && ltb (now + retry.ttl) t
            then none
            else some (after_failure retry now pair))
        else live retry t j)
unfolding count_failure
count_failure_lem retry now t pair j le =
    ap
      (λ found.
        live
          (ExpireMap.set (ExpireMap.get retry now pair).0 now pair
            (next_retry now (or_no_retry found)))
          t j)
      (get_lem retry now now pair pair (ground arith)).0
    ∙ live-set-get retry now t pair (after_failure retry now pair) j le

unchanged :
    (retry : ExpireMap Key PunchRetryState) (t : ℕ) (pair j : Key)
    → live retry t j ≡ (if pair == j then live retry t pair else live retry t j)
unchanged retry t pair j = elim (Bool-cases (pair == j)) [
  | inl e ↦ rw e (ap (live retry t) (sym ((pair_beq_iff pair j).0 e)))
  | inr e ↦ rw e refl
]

-- What the pair shows after an outcome: success forgets it, a failure counts, and a session that goes
-- on leaves it.
abbrev pub retry_after :
    ExpireMap Key PunchRetryState → ℕ → ℕ → Key → PunchSessionState → Option PunchRetryState
retry_after retry now t pair success = none
retry_after retry now t pair failed =
    if ltb 0 retry.ttl && ltb (now + retry.ttl) t then none else some (after_failure retry now pair)
retry_after retry now t pair timeout =
    if ltb 0 retry.ttl && ltb (now + retry.ttl) t then none else some (after_failure retry now pair)
retry_after retry now t pair _ = live retry t pair

-- What a reader sees of the retry states when an outcome was noted, at that time or later: a
-- success forgets the pair; a failure or a timeout counts one more attempt, with the delay for that
-- count, until the entry runs out; any other state leaves the pair. The other pairs are as they
-- were.
pub update_retry_lem :
    (retry : ExpireMap Key PunchRetryState) (now t : ℕ) (pair j : Key) (state : PunchSessionState)
    → now ≤ t
    → live (update_punch_retry_state retry now pair state) t j
      ≡ (if pair == j then retry_after retry now t pair state else live retry t j)
unfolding update_punch_retry_state
update_retry_lem retry now t pair j success le = live-delete retry t pair j
update_retry_lem retry now t pair j failed le = count_failure_lem retry now t pair j le
update_retry_lem retry now t pair j timeout le = count_failure_lem retry now t pair j le
update_retry_lem retry now t pair j scheduled le = unchanged retry t pair j
update_retry_lem retry now t pair j sending le = unchanged retry t pair j
update_retry_lem retry now t pair j waiting le = unchanged retry t pair j
