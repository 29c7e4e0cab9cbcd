-- ===== src/Gateway/Replay/Window.antt =====
-- A nonce serves once in the window of its report.
use sdl_control.Base.{
  ℕ, ◌+◌, ◌*◌, ◌/◌, ◌<◌, ◌≤◌, ◌≡◌, ◌≢◌, ◌∙◌, refl, List, [], ◌∷◌, String, Option, none, some, true,
  false, string_eq, is_some, arith, All, beq_refl, ap, Bool-cases, inl, inr, ◌⊎◌,
}
use text.Mathlib.TextEquality.{eq_iff}
use sdl_control.Base.Map.{Map, get, put, get-put}
use sdl_control.Gateway.Replay.{
  Nonces, millisecond, report_freshness_window_ms, Checked, is_stale, expire_at, prune, cache_of,
  claim_nonce, validate_gateway_replay_window,
}

-- An accepted report writes its deadline: the clamp never applies.
expire_at_fresh :
    (report_ms now : ℕ)
    → is_stale report_ms now ≡ false
    → expire_at report_ms now ≡ report_ms + report_freshness_window_ms
unfolding is_stale expire_at
expire_at_fresh report_ms now h = ground arith

-- A nonce that has not run out survives the loop.
prune-get :
    (cache : Map String ℕ) (now_ms : ℕ) (nonce : String) (expire : ℕ)
    → now_ms < expire
    → get cache nonce ≡ some expire
    → get (prune cache now_ms) nonce ≡ some expire
unfolding prune get
prune-get [] now_ms nonce expire lt h = h
prune-get ((key, e) ∷ rest) now_ms nonce expire lt h =
    ground (arith, prune-get rest now_ms nonce expire lt)

-- The nonce that a gateway's cache holds, with its deadline
abbrev pub held : Nonces → String → String → Option ℕ
held nonces gateway_id nonce = get (cache_of (get nonces gateway_id)) nonce

claim_keeps :
    (nonces : Nonces) (g : String) (cache : Map String ℕ) (n : String) (e : ℕ)
    (gateway_id nonce : String) (expire : ℕ)
    → held nonces gateway_id nonce ≡ some expire
    → (g ≡ gateway_id → get cache nonce ≡ some expire)
    → held (claim_nonce nonces g cache n e).nonces gateway_id nonce ≡ some expire
unfolding claim_nonce cache_of
claim_keeps nonces g cache n e gateway_id nonce expire h c =
    elim (Bool-cases (is_some (get cache n))) [
      | inl s ↦ rw s (ground (arith, get-put nonces g cache gateway_id, eq_iff g gateway_id))
      | inr s ↦ rw s (
          ground (
            arith,
            get-put nonces g (put cache n e) gateway_id,
            eq_iff g gateway_id,
            get-put cache n e nonce,
            eq_iff n nonce,
            same nonce,
          ))
    ]
  where
    same : (x : String) → n ≡ x → get cache n ≡ get cache x
    same x e = ap (get cache) e

validate_keeps :
    (nonces : Nonces) (g : String) (r : ℕ) (n : String) (now : ℕ) (gateway_id nonce : String)
    (expire : ℕ)
    → held nonces gateway_id nonce ≡ some expire
    → now / millisecond < expire
    → held (validate_gateway_replay_window nonces g r n now).nonces gateway_id nonce ≡ some expire
unfolding validate_gateway_replay_window
validate_keeps nonces g r n now gateway_id nonce expire h lt = elim (Bool-cases (is_stale r now)) [
  | inl s ↦ rw s h
  | inr s ↦ rw s (
      claim_keeps nonces g (prune (cache_of (get nonces g)) (now / millisecond)) n (expire_at r now)
        gateway_id nonce expire h
        (λ e. prune-get (cache_of (get nonces g)) (now / millisecond) nonce expire lt (rw e h)))
]

-- A report as it comes to the check: the gateway, the time of the report, the nonce, and the clock.
pub record Report : Type 0 where
  pub gateway_id : String
  pub report_ms : ℕ
  pub nonce : String
  pub now : ℕ

abbrev check : Nonces → Report → Checked
check nonces r = validate_gateway_replay_window nonces r.gateway_id r.report_ms r.nonce r.now

-- The reports that come in, one after the other.
unfoldable pub check_all : Nonces → List Report → Nonces
check_all nonces [] = nonces
check_all nonces (r ∷ rs) = check_all (check nonces r).nonces rs

check_all_keeps :
    (nonces : Nonces) (rs : List Report) (gateway_id nonce : String) (expire : ℕ)
    → held nonces gateway_id nonce ≡ some expire
    → All (λ r. r.now / millisecond < expire) rs
    → held (check_all nonces rs) gateway_id nonce ≡ some expire
unfolding check_all
check_all_keeps nonces [] gateway_id nonce expire h a = h
check_all_keeps nonces (r ∷ rs) gateway_id nonce expire h a =
    check_all_keeps (check nonces r).nonces rs gateway_id nonce expire
      (validate_keeps nonces r.gateway_id r.report_ms r.nonce r.now gateway_id nonce expire h a.0)
      a.1

claim_accepts :
    (nonces : Nonces) (g : String) (cache : Map String ℕ) (n : String) (e : ℕ)
    → (claim_nonce nonces g cache n e).error ≡ none
    → (claim_nonce nonces g cache n e).nonces ≡ put nonces g (put cache n e)
unfolding claim_nonce
claim_accepts nonces g cache n e h = elim (Bool-cases (is_some (get cache n))) [
  | inl s ↦ absurd (ground arith)
  | inr s ↦ rw s refl
]

pub held-put :
    (nonces : Nonces) (g : String) (cache : Map String ℕ) (n : String)
    → held (put nonces g cache) g n ≡ get cache n
unfolding cache_of
held-put nonces g cache n = rw (get-put nonces g cache g, beq_refl g) refl

pub accepted_put :
    (nonces : Nonces) (gateway_id : String) (report_ms : ℕ) (nonce : String) (now : ℕ)
    → (validate_gateway_replay_window nonces gateway_id report_ms nonce now).error ≡ none
    → (is_stale report_ms now ≡ false)
      × ((validate_gateway_replay_window nonces gateway_id report_ms nonce now).nonces
          ≡ put nonces gateway_id (
              put
                (prune (cache_of (get nonces gateway_id)) (now / millisecond))
                nonce
                (report_ms + report_freshness_window_ms)))
unfolding validate_gateway_replay_window
accepted_put nonces gateway_id report_ms nonce now h = elim (Bool-cases (is_stale report_ms now)) [
  | inl s ↦ absurd (ground arith)
  | inr s ↦ (
    s,
    rw s (
        claim_accepts nonces gateway_id
          (prune (cache_of (get nonces gateway_id)) (now / millisecond)) nonce
          (expire_at report_ms now) (ground arith)
        ∙ ap
            (λ e.
              put nonces gateway_id
                (put (prune (cache_of (get nonces gateway_id)) (now / millisecond)) nonce e))
            (expire_at_fresh report_ms now s)),
  )
]

accepted_holds :
    (nonces : Nonces) (gateway_id : String) (report_ms : ℕ) (nonce : String) (now : ℕ)
    → (validate_gateway_replay_window nonces gateway_id report_ms nonce now).error ≡ none
    → held
        (validate_gateway_replay_window nonces gateway_id report_ms nonce now).nonces
        gateway_id
        nonce
      ≡ some (report_ms + report_freshness_window_ms)
accepted_holds nonces gateway_id report_ms nonce now h =
    let cache = prune (cache_of (get nonces gateway_id)) (now / millisecond) in
    let expire = report_ms + report_freshness_window_ms in
    rw (accepted_put nonces gateway_id report_ms nonce now h).1 (
      held-put nonces gateway_id (put cache nonce expire) nonce
      ∙ rw (get-put cache nonce expire nonce, beq_refl nonce) refl)

held_refused :
    (nonces : Nonces) (gateway_id : String) (report_ms : ℕ) (nonce : String) (now expire : ℕ)
    → held nonces gateway_id nonce ≡ some expire
    → now / millisecond < expire
    → (validate_gateway_replay_window nonces gateway_id report_ms nonce now).error ≢ none
unfolding validate_gateway_replay_window claim_nonce
held_refused nonces gateway_id report_ms nonce now expire h lt none_ =
    ground
      (arith, prune-get (cache_of (get nonces gateway_id)) (now / millisecond) nonce expire lt h)

-- An early report that comes again finds its nonce; a late one is stale.
before_or_stale :
    (report_ms later : ℕ)
    → later ≢ (report_ms + report_freshness_window_ms) * millisecond
    → (later / millisecond < report_ms + report_freshness_window_ms)
      ⊎ (is_stale report_ms later ≡ true)
unfolding is_stale
before_or_stale report_ms later ne = ground arith

stale_refused :
    (nonces : Nonces) (gateway_id : String) (report_ms : ℕ) (nonce : String) (now : ℕ)
    → is_stale report_ms now ≡ true
    → (validate_gateway_replay_window nonces gateway_id report_ms nonce now).error ≢ none
unfolding validate_gateway_replay_window
stale_refused nonces gateway_id report_ms nonce now s h = ground arith

earlier_before :
    (later bound : ℕ) (rs : List Report)
    → later / millisecond < bound
    → All (λ r. r.now ≤ later) rs
    → All (λ r. r.now / millisecond < bound) rs
earlier_before later bound [] lt a = tt
earlier_before later bound (r ∷ rs) lt a = (ground arith, earlier_before later bound rs lt a.1)

module _ (nonces : Nonces) (gateway_id : String) (report_ms : ℕ) (nonce : String) (now : ℕ)
    (accepted : (validate_gateway_replay_window nonces gateway_id report_ms nonce now).error
      ≡ none) where
  abbrev after_accept : Nonces
  after_accept = (validate_gateway_replay_window nonces gateway_id report_ms nonce now).nonces

  -- A report that was accepted is refused when it comes again after any other reports, as long as
  -- the clock read no later for these than for it: at every time but the nanosecond at which its
  -- window ends.
  pub replay_refused :
      (rs : List Report) (later : ℕ)
      → All (λ r. r.now ≤ later) rs
      → later ≢ (report_ms + report_freshness_window_ms) * millisecond
      → (validate_gateway_replay_window
          (check_all after_accept rs)
          gateway_id
          report_ms
          nonce
          later).error
        ≢ none
  replay_refused rs later ordered ne = elim (before_or_stale report_ms later ne) [
    | inl lt ↦
        held_refused (check_all after_accept rs) gateway_id report_ms nonce later
          (report_ms + report_freshness_window_ms)
          (check_all_keeps after_accept rs gateway_id nonce (report_ms + report_freshness_window_ms)
            (accepted_holds nonces gateway_id report_ms nonce now accepted)
            (earlier_before later (report_ms + report_freshness_window_ms) rs lt ordered))
          lt
    | inr s ↦ stale_refused (check_all after_accept rs) gateway_id report_ms nonce later s
  ]
