-- ===== src/Gateway/Replay.antt =====
-- control/gateway.go validateGatewayReplayWindow: the window in which a report's nonce serves once.
pub mod Window
pub mod Deadline
use sdl_control.Base.{
  ℕ, ◌+◌, ◌*◌, ◌/◌, List, [], ◌∷◌, String, Option, none, some, Bool, true, false, ◌||◌, string_eq,
  ltb, leb, if◌then◌else◌, is_some,
}
use sdl_control.Base.Map.{Map, get, put}

-- A time is a count of nanoseconds since the Unix epoch, and one in milliseconds ends in `_ms`. A
-- nonce is its text in hex. A report from before the epoch is left out.
abbrev pub Nonces : Type 0
Nonces = Map String (Map String ℕ)

abbrev pub millisecond : ℕ
millisecond = 1_000_000

abbrev pub report_freshness_window_ms : ℕ
report_freshness_window_ms = 120_000

pub data ReplayError : Type 0 where
  stale_report_timestamp replayed_nonce : ReplayError

-- What the check returns; `none` is no error.
pub record Checked : Type 0 where
  pub nonces : Nonces
  pub error : Option ReplayError

-- The report is further from now than the window.
unfoldable pub is_stale : ℕ → ℕ → Bool
is_stale report_ms now =
    let report_time = report_ms * millisecond in
    let window = report_freshness_window_ms * millisecond in
    ltb (report_time + window) now || ltb (now + window) report_time

unfoldable pub expire_at : ℕ → ℕ → ℕ
expire_at report_ms now =
    if ltb (report_ms + report_freshness_window_ms) (now / millisecond)
    then (now + report_freshness_window_ms * millisecond) / millisecond
    else report_ms + report_freshness_window_ms

-- The loop that deletes what has run out
unfoldable pub prune : Map String ℕ → ℕ → Map String ℕ
prune [] now_ms = []
prune ((key, expire) ∷ rest) now_ms =
    let later = prune rest now_ms in if leb expire now_ms then later else (key, expire) ∷ later

unfoldable pub cache_of : Option (Map String ℕ) → Map String ℕ
cache_of none = []
cache_of (some cache) = cache

-- The check against the pruned cache
unfoldable pub claim_nonce : Nonces → String → Map String ℕ → String → ℕ → Checked
claim_nonce nonces gateway_id cache nonce expire =
    if is_some (get cache nonce)
    then record { nonces = put nonces gateway_id cache; error = some replayed_nonce }
    else record { nonces = put nonces gateway_id (put cache nonce expire); error = none }

unfoldable pub validate_gateway_replay_window : Nonces → String → ℕ → String → ℕ → Checked
unfolding is_stale expire_at prune cache_of claim_nonce
validate_gateway_replay_window nonces gateway_id report_ms nonce now =
    if is_stale report_ms now
    then record { nonces = nonces; error = some stale_report_timestamp }
    else claim_nonce nonces gateway_id
        (prune (cache_of (get nonces gateway_id)) (now / millisecond)) nonce
        (expire_at report_ms now)
