-- ===== src/Gateway/Grants/Effects.antt =====
-- control/gateway.go: what the revision of the grant policy tells apart.
use sdl_control.Base.{
  ℕ, ◌+◌, ◌%◌, ◌^◌, ◌≤◌, ◌<◌, ◌≡◌, ◌≢◌, ◌⊎◌, inl, inr, refl, List, false, ◌==◌, string_eq, nat_eq,
  if◌then◌else◌, Bool-cases, beq_refl, arith,
}
use text.Mathlib.TextEquality.{eq_iff}
use sdl_control.Gateway.Grants.{
  Node, GrantPolicy, at_least_one, gateway_grant_fingerprint, sync_gateway_grant_policy,
}

-- A revision that is not 0 and fits is its own least.
at_least_one_lem :
    (n : ℕ)
    → n < 2 ^ 64
    → (1 ≤ at_least_one n) × (at_least_one n < 2 ^ 64) × ((n ≡ 0) ⊎ (at_least_one n ≡ n))
unfolding at_least_one
at_least_one_lem n lt = ground (arith)

next_lem : (n : ℕ) → n < 2 ^ 64 → at_least_one ((n + 1) % 2 ^ 64) ≢ n
unfolding at_least_one
next_lem n lt = ground (arith)

at_least_one_idem : (n : ℕ) → at_least_one (at_least_one n) ≡ at_least_one n
unfolding at_least_one
at_least_one_idem n = ground (arith)

wraps : (n : ℕ) → n % 2 ^ 64 < 2 ^ 64
wraps n = omega arith

module _ (p : GrantPolicy) (nodes : List Node) where
  -- The revision always fits a machine word and is not 0. With the same fingerprint it stays as it was,
  -- or becomes 1 from 0; with another one it changes, at the wrap of 64 bits too. The fingerprint that
  -- is stored is that of the nodes, and a second call for them changes nothing.
  pub sync_lem :
      p.rev < 2 ^ 64
      → ((sync_gateway_grant_policy p nodes).policy.fingerprint ≡ gateway_grant_fingerprint nodes)
        × (1 ≤ (sync_gateway_grant_policy p nodes).policy_rev)
        × ((sync_gateway_grant_policy p nodes).policy_rev < 2 ^ 64)
        × (((gateway_grant_fingerprint nodes ≡ p.fingerprint)
              × ((sync_gateway_grant_policy p nodes).policy_rev
                  ≡ (if p.rev == 0 then 1 else p.rev)))
            ⊎ ((gateway_grant_fingerprint nodes ≢ p.fingerprint)
                × ((sync_gateway_grant_policy p nodes).policy_rev ≢ p.rev)))
        × (sync_gateway_grant_policy (sync_gateway_grant_policy p nodes).policy nodes ≡ record {
          policy = (sync_gateway_grant_policy p nodes).policy;
          policy_rev = (sync_gateway_grant_policy p nodes).policy_rev;
          is_changed = false;
        })
  unfolding sync_gateway_grant_policy at_least_one
  sync_lem lt = elim (Bool-cases (gateway_grant_fingerprint nodes == p.fingerprint)) [
    | inl e ↦ rw e (ground (arith, e, eq_iff (gateway_grant_fingerprint nodes) p.fingerprint))
    | inr e ↦ rw e (
      refl,
      (at_least_one_lem _ (wraps (p.rev + 1))).0,
      (at_least_one_lem _ (wraps (p.rev + 1))).1,
      inr (
        ground (arith, e, eq_iff (gateway_grant_fingerprint nodes) p.fingerprint),
        next_lem p.rev lt,
      ),
      rw (beq_refl (gateway_grant_fingerprint nodes))
          (rw (at_least_one_idem ((p.rev + 1) % 2 ^ 64)) refl),
    )
  ]
