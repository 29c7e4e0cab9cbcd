-- ===== src/Users/Wildcard.antt =====
-- control/user.go wildcardMatch, over the code points of the texts: a table filled row by row, one row
-- for each prefix of the pattern, whose entry `i` says whether the prefix matches the first `i` runes.
use sdl_control.Base.{
  ℕ, List, [], ◌∷◌, Bool, true, false, ◌&&◌, ◌||◌, ◌==◌, nat_eq, ◌≡◌, refl, if◌then◌else◌, arith,
  length, suc, ap, ◌∙◌, Bool-cases, inl, inr, sym, nat_beq_iff,
}

falses : List ℕ → List Bool
falses [] = []
falses (v ∷ vs) = false ∷ falses vs

-- make([]bool, n+1)[0] = true, for the n runes of the value
first_row : List ℕ → List Bool
unfolding falses
first_row value = true ∷ falses value

-- next[i] = matches[i] || next[i-1], from `before` on
star_row : Bool → List Bool → List Bool
star_row before [] = []
star_row before (b ∷ bs) = (b || before) ∷ star_row (b || before) bs

-- next[i] = matches[i-1] && (rune == '?' || rune == value[i-1])
rune_row : ℕ → List ℕ → List Bool → List Bool
rune_row rune (v ∷ vs) (b ∷ bs) = (b && (rune == b'?' || rune == v)) ∷ rune_row rune vs bs
rune_row rune _ _ = []

next_row : ℕ → List ℕ → List Bool → List Bool
unfolding star_row rune_row
next_row rune value row =
    if rune == b'*' then star_row false row else false ∷ rune_row rune value row

last_entry : List Bool → Bool
last_entry [] = false
last_entry (b ∷ []) = b
last_entry (b ∷ c ∷ bs) = last_entry (c ∷ bs)

fill : List ℕ → List ℕ → List Bool → Bool
unfolding next_row last_entry
fill [] value row = last_entry row
fill (rune ∷ text_pattern) value row = fill text_pattern value (next_row rune value row)

unfoldable pub wildcard_match : List ℕ → List ℕ → Bool
unfolding fill first_row
wildcard_match text_pattern value = fill text_pattern value (first_row value)

-- The language of the patterns: `*` stands for any text, `?` for any rune.
pub glob : List ℕ → List ℕ → Bool
glob [] [] = true
glob [] (v ∷ vs) = false
glob (p ∷ ps) [] = p == b'*' && glob ps []
glob (p ∷ ps) (v ∷ vs) =
    if p == b'*' then glob ps (v ∷ vs) || glob (p ∷ ps) vs else (p == b'?' || p == v) && glob ps vs

-- Some entry of the row is set from which the rest of the pattern matches the rest of the value.
reach : List ℕ → List ℕ → List Bool → Bool
reach ps v [] = false
reach ps [] (b ∷ bs) = b && glob ps []
reach ps (x ∷ v) (b ∷ bs) = (b && glob ps (x ∷ v)) || reach ps v bs

star_reach :
    (ps v : List ℕ) (row : List Bool) (before : Bool)
    → length row ≡ suc (length v)
    → reach ps v (star_row before row) ≡ ((before && glob (b'*' ∷ ps) v) || reach (b'*' ∷ ps) v row)
unfolding star_row reach glob
star_reach ps v [] before l = absurd (omega arith)
star_reach ps [] (b ∷ bs) before l = ground arith
star_reach ps (x ∷ v) (b ∷ bs) before l =
    ground (arith, star_reach ps v bs (b || before) (omega arith))

reach_nil :
    (p : ℕ) (ps : List ℕ) (row : List Bool) → (p == b'*') ≡ false → reach (p ∷ ps) [] row ≡ false
unfolding reach glob
reach_nil p ps [] e = refl
reach_nil p ps (b ∷ bs) e = ground arith

rune_reach :
    (p : ℕ) (ps v : List ℕ) (row : List Bool)
    → (p == b'*') ≡ false
    → reach ps v (false ∷ rune_row p v row) ≡ reach (p ∷ ps) v row
unfolding rune_row reach glob
rune_reach p ps [] [] e = refl
rune_reach p ps [] (b ∷ bs) e = ground arith
rune_reach p ps (x ∷ v) [] e = cases v
  where
    cases : (w : List ℕ) → reach ps (x ∷ w) (false ∷ []) ≡ false
    cases [] = refl
    cases (y ∷ w) = refl
rune_reach p ps (x ∷ []) (b ∷ bs) e = ground (arith, reach_nil p ps bs e)
rune_reach p ps (x ∷ y ∷ v) (b ∷ bs) e = ground (arith, rune_reach p ps (y ∷ v) bs e)

length-star_row : (before : Bool) (row : List Bool) → length (star_row before row) ≡ length row
unfolding star_row
length-star_row before [] = refl
length-star_row before (b ∷ bs) = ap suc (length-star_row (b || before) bs)

length-rune_row :
    (p : ℕ) (v : List ℕ) (row : List Bool)
    → length row ≡ suc (length v)
    → length (rune_row p v row) ≡ length v
unfolding rune_row
length-rune_row p [] row l = omega arith
length-rune_row p (x ∷ v) [] l = absurd (omega arith)
length-rune_row p (x ∷ v) (b ∷ bs) l = ap suc (length-rune_row p v bs (omega arith))

length-next_row :
    (p : ℕ) (v : List ℕ) (row : List Bool)
    → length row ≡ suc (length v)
    → length (next_row p v row) ≡ suc (length v)
unfolding next_row
length-next_row p v row l = ground (arith, length-star_row false row, length-rune_row p v row l)

next_reach :
    (p : ℕ) (ps v : List ℕ) (row : List Bool)
    → length row ≡ suc (length v)
    → reach ps v (next_row p v row) ≡ reach (p ∷ ps) v row
unfolding next_row
next_reach p ps v row l = elim (Bool-cases (p == b'*')) [
  | inl e ↦
      let star : b'*' ≡ p = sym ((nat_beq_iff p b'*').0 e) in
      rw e (star_reach ps v row false l ∙ ap (λ x. reach (x ∷ ps) v row) star)
  | inr e ↦ rw e (rune_reach p ps v row e)
]

last-reach :
    (v : List ℕ) (row : List Bool) → length row ≡ suc (length v) → last_entry row ≡ reach [] v row
unfolding last_entry reach glob
last-reach v [] l = absurd (omega arith)
last-reach [] (b ∷ []) l = ground arith
last-reach [] (b ∷ c ∷ bs) l = absurd (omega arith)
last-reach (x ∷ v) (b ∷ []) l = absurd (omega arith)
last-reach (x ∷ v) (b ∷ c ∷ bs) l = ground (arith, last-reach v (c ∷ bs) (omega arith))

fill-reach :
    (ps v : List ℕ) (row : List Bool) → length row ≡ suc (length v) → fill ps v row ≡ reach ps v row
unfolding fill
fill-reach [] v row l = last-reach v row l
fill-reach (p ∷ ps) v row l =
    fill-reach ps v (next_row p v row) (length-next_row p v row l) ∙ next_reach p ps v row l

length-falses : (v : List ℕ) → length (falses v) ≡ length v
unfolding falses
length-falses [] = refl
length-falses (x ∷ v) = ap suc (length-falses v)

reach-falses : (ps w v : List ℕ) → reach ps w (falses v) ≡ false
unfolding falses reach
reach-falses ps w [] = refl
reach-falses ps [] (x ∷ v) = refl
reach-falses ps (y ∷ w) (x ∷ v) = reach-falses ps w v

first-reach : (ps v : List ℕ) → reach ps v (first_row v) ≡ glob ps v
unfolding first_row falses reach
first-reach ps [] = ground arith
first-reach ps (x ∷ v) = ground (arith, reach-falses ps v (x ∷ v))

-- The table decides the language of the patterns, for every pattern and value.
pub wildcard_match-glob :
    (text_pattern value : List ℕ) → wildcard_match text_pattern value ≡ glob text_pattern value
unfolding wildcard_match
wildcard_match-glob ps v =
    fill-reach ps v (first_row v) (unfold first_row in ap suc (length-falses v)) ∙ first-reach ps v
