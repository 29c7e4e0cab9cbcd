-- ===== src/Gateway/Replay/Deadline.antt =====
-- The instant at which a nonce has run out and its report has not.
use sdl_control.Base.{
  ℕ, ◌+◌, ◌*◌, ◌/◌, ◌≤◌, ◌≡◌, refl, [], ◌∷◌, String, none, some, false, string_eq, arith, beq_refl,
  ap,
}
use text.Mathlib.TextEquality.{eq_iff}
use sdl_control.Base.Map.{Map, get, put, get-put, IsUnique, put-IsUnique}
use sdl_control.Gateway.Replay.{
  Nonces, millisecond, report_freshness_window_ms, is_stale, expire_at, prune, cache_of,
  claim_nonce, validate_gateway_replay_window,
}
use sdl_control.Gateway.Replay.Window.{accepted_put}

prune-absent :
    (cache : Map String ℕ) (now_ms : ℕ) (nonce : String)
    → get cache nonce ≡ none
    → get (prune cache now_ms) nonce ≡ none
unfolding prune get
prune-absent [] now_ms nonce h = refl
prune-absent ((key, e) ∷ rest) now_ms nonce h = ground (arith, prune-absent rest now_ms nonce)

prune-IsUnique :
    (cache : Map String ℕ) (now_ms : ℕ) → IsUnique cache → IsUnique (prune cache now_ms)
unfolding prune
prune-IsUnique [] now_ms u = tt
prune-IsUnique ((key, e) ∷ rest) now_ms u =
    ground (arith, prune-IsUnique rest now_ms u.1, prune-absent rest now_ms key u.0)

-- What has run out is gone after the loop.
prune-past :
    (cache : Map String ℕ) (now_ms : ℕ) (nonce : String) (expire : ℕ)
    → IsUnique cache
    → expire ≤ now_ms
    → get cache nonce ≡ some expire
    → get (prune cache now_ms) nonce ≡ none
unfolding prune get
prune-past [] now_ms nonce expire u le h = refl
prune-past ((key, e) ∷ rest) now_ms nonce expire u le h = ground (
  arith,
  prune-past rest now_ms nonce expire u.1 le,
  prune-absent rest now_ms nonce,
  u.0,
  same nonce,
  eq_iff key nonce,
)
  where
    same : (x : String) → key ≡ x → get rest key ≡ get rest x
    same x e = ap (get rest) e

claim_absent :
    (nonces : Nonces) (g : String) (cache : Map String ℕ) (n : String) (e : ℕ)
    → get cache n ≡ none
    → (claim_nonce nonces g cache n e).error ≡ none
unfolding claim_nonce
claim_absent nonces g cache n e h = rw h refl

module _ (nonces : Nonces) (gateway_id : String) (report_ms : ℕ) (nonce : String) (now : ℕ)
    (unique : IsUnique (cache_of (get nonces gateway_id)))
    (accepted : (validate_gateway_replay_window nonces gateway_id report_ms nonce now).error
      ≡ none) where
  abbrev deadline : ℕ
  deadline = (report_ms + report_freshness_window_ms) * millisecond

  abbrev claimed : Map String ℕ
  claimed =
      put (prune (cache_of (get nonces gateway_id)) (now / millisecond)) nonce
        (report_ms + report_freshness_window_ms)

  deadline_fresh : is_stale report_ms deadline ≡ false
  unfolding is_stale
  deadline_fresh = ground arith

  deadline_ms : report_ms + report_freshness_window_ms ≤ deadline / millisecond
  deadline_ms = ground arith

  pruned : get (prune claimed (deadline / millisecond)) nonce ≡ none
  pruned =
      let cache = prune (cache_of (get nonces gateway_id)) (now / millisecond) in
      prune-past claimed (deadline / millisecond) nonce (report_ms + report_freshness_window_ms)
        (put-IsUnique cache nonce (report_ms + report_freshness_window_ms)
          (prune-IsUnique (cache_of (get nonces gateway_id)) (now / millisecond) unique))
        deadline_ms
        (rw (get-put cache nonce (report_ms + report_freshness_window_ms) nonce, beq_refl nonce)
          refl)

  again_cache : cache_of (get (put nonces gateway_id claimed) gateway_id) ≡ claimed
  unfolding cache_of
  again_cache = rw (get-put nonces gateway_id claimed gateway_id, beq_refl gateway_id) refl

  -- The check against a state whose cache is `claimed`
  again :
      (st : Nonces)
      → cache_of (get st gateway_id) ≡ claimed
      → (validate_gateway_replay_window st gateway_id report_ms nonce deadline).error ≡ none
  unfolding validate_gateway_replay_window
  again st h =
      rw (deadline_fresh, h)
        (claim_absent st gateway_id (prune claimed (deadline / millisecond)) nonce
          (expire_at report_ms deadline) pruned)

  -- A report that was accepted into a cache without double keys is accepted a second time when it
  -- comes again at the very nanosecond at which its window ends.
  pub replay_at_deadline :
      (validate_gateway_replay_window
        (validate_gateway_replay_window nonces gateway_id report_ms nonce now).nonces
        gateway_id
        report_ms
        nonce
        deadline).error
      ≡ none
  replay_at_deadline =
      rw (accepted_put nonces gateway_id report_ms nonce now accepted).1
        (again (put nonces gateway_id claimed) again_cache)
