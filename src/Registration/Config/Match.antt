-- ===== src/Registration/Config/Match.antt =====
-- A token belongs to the longest domain that it ends in.
use Prim.Native.String.{len}
use sdl_control.Base.{
  ◌≡◌, ◌≢◌, ◌≤◌, ◌⊎◌, refl, [], ◌∷◌, String, some, true, ◌&&◌, ◌==◌, string_eq, ltb, is_some, arith,
  Bool-cases, inl, inr, ap, ◌∙◌, sym, beq_refl,
}
use text.Mathlib.TextEquality.{eq_iff}
use sdl_control.Base.Text.{
  trim_space, ◌<>◌, has_suffix, trim_suffix, trim_suffix-append, append-nil_left,
}
use sdl_control.Base.Map.{Map, get}
use sdl_control.Registration.Config.{DomainConfig, best_domain, match_domain_and_group}

-- A domain of the configuration that the token ends in
abbrev pub Fits : String → Map String DomainConfig → String → Type 0
Fits token domains d = (is_some (get domains d) ≡ true) × (has_suffix token ("." <> d) ≡ true)

module _ (token k : String) (dc : DomainConfig) (rest : Map String DomainConfig) where
  here-Fits : has_suffix token ("." <> k) ≡ true → Fits token ((k, dc) ∷ rest) k
  unfolding get
  here-Fits h = (ground (arith, beq_refl k), h)

  later-Fits : (d : String) → Fits token rest d → Fits token ((k, dc) ∷ rest) d
  unfolding get
  later-Fits d f = (ground (arith, f.0), f.1)

  split-Fits : (d : String) → Fits token ((k, dc) ∷ rest) d → (k ≡ d) ⊎ Fits token rest d
  unfolding get
  split-Fits d f = elim (Bool-cases (k == d)) [
    | inl e ↦ inl ((eq_iff k d).0 e)
    | inr e ↦ inr (ground (arith, f.0, e), f.1)
  ]

best_from :
    (token : String) (domains : Map String DomainConfig) (best : String)
    → (best_domain token domains best ≡ best) ⊎ Fits token domains (best_domain token domains best)
unfolding best_domain get
best_from token [] best = inl refl
best_from token ((d, dc) ∷ rest) best =
    elim (Bool-cases (has_suffix token ("." <> d) && ltb (len best) (len d))) [
      | inl e ↦ rw e (elim (best_from token rest d) [
        | inl z ↦ rw z (inr (here-Fits token d dc rest (ground (arith, e))))
        | inr z ↦ inr (later-Fits token d dc rest _ z)
      ])
      | inr e ↦ rw e (elim (best_from token rest best) [
        | inl z ↦ inl z
        | inr z ↦ inr (later-Fits token d dc rest _ z)
      ])
    ]

best_longest :
    (token : String) (domains : Map String DomainConfig) (best : String)
    → (len best ≤ len (best_domain token domains best))
      × ((d : String) → Fits token domains d → len d ≤ len (best_domain token domains best))
unfolding best_domain get
best_longest token [] best = (omega arith, λ d f. absurd (cc))
best_longest token ((k, dc) ∷ rest) best =
    elim (Bool-cases (has_suffix token ("." <> k) && ltb (len best) (len k))) [
      | inl e ↦
          let (grows, all) = best_longest token rest k in
          rw e (
            ground (arith, e, grows),
            λ d f. elim (split-Fits token k dc rest d f) [
              | inl z ↦ rw (← z) grows
              | inr z ↦ all d z
            ],
          )
      | inr e ↦
          let (grows, all) = best_longest token rest best in
          rw e (
            grows,
            λ d f. elim (split-Fits token k dc rest d f) [
              | inl z ↦
                  ground
                    (arith, e, f.1, grows, same_len d z, ap (λ x. has_suffix token ("." <> x)) z)
              | inr z ↦ all d z
            ],
          )
    ]
  where
    same_len : (d : String) → k ≡ d → len k ≡ len d
    same_len d z = ap len z

not_dot : (s : String) → s ≡ "." → s ≢ ""
not_dot s d e = cc

-- A match names a domain of the configuration that the token ends in after a dot, none that is
-- longer is such a domain, and the group is what stands before the dot, trimmed, and not empty.
pub match_lem :
    (token : String) (domains : Map String DomainConfig) (domain group : String)
    → match_domain_and_group token domains ≡ some (domain, group)
    → (before : String) × (token ≡ before <> ("." <> domain))
      × (group ≡ trim_space before)
      × (group ≢ "")
      × (is_some (get domains domain) ≡ true)
      × ((d : String) → Fits token domains d → len d ≤ len domain)
unfolding match_domain_and_group
match_lem token domains domain group h =
    let best = best_domain token domains "" in
    let rest = trim_suffix token ("." <> best) in
    let found : (best ≡ domain) × (trim_space rest ≡ group) × (best ≢ "") × (group ≢ "") =
      ground (arith, h, eq_iff best "", eq_iff (trim_space rest) "") in
    let fits : Fits token domains best = elim (best_from token domains "") [
      | inl z ↦ absurd (found.2 z)
      | inr z ↦ z
    ] in
    (
      rest,
      sym (
            trim_suffix-append token ("." <> best) fits.1
              (λ z. not_dot "." refl (append-nil_left "." best z)))
          ∙ ap (λ d. rest <> ("." <> d)) found.0,
      sym found.1,
      found.3,
      ap (λ d. is_some (get domains d)) (sym found.0) ∙ fits.0,
      λ d f. rw (← found.0) ((best_longest token domains "").1 d f),
    )
