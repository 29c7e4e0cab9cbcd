-- ===== src/Base/Search.antt =====
-- for i := start; ; i++ { if !taken(i) { return i } }: the loop on fuel, and how much is enough.
use Prim.Native.Nat.{ℕ, zero, suc, ◌+◌, ◌≤◌, ◌<◌}
use mathlib.Core.Path.{◌≡◌, refl, sym, ap, ◌∙◌}
use mathlib.Core.Bool.{Bool, true, false, ◌||◌}
use mathlib.Core.Option.{Option, none, some}
use mathlib.Core.List.{List, [], ◌∷◌}
use mathlib.Core.Logic.{inl, inr}
use native.Mathlib.Omega.{arith}
use sdl_control.Base.Tests.{if◌then◌else◌, Bool-cases}
use sdl_control.Base.Lists.{length}

unfoldable pub first_free : (ℕ → Bool) → ℕ → ℕ → Option ℕ
first_free taken zero i = none
first_free taken (suc fuel) i =
    let rest = first_free taken fuel (i + 1) in if taken i then rest else some i

pub first_free_lem :
    (taken : ℕ → Bool) (fuel i k : ℕ)
    → first_free taken fuel i ≡ some k
    → (taken k ≡ false) × (i ≤ k) × ((j : ℕ) → i ≤ j → j < k → taken j ≡ true)
unfolding first_free
first_free_lem taken zero i k h = absurd (cc)
first_free_lem taken (suc fuel) i k h = elim (Bool-cases (taken i)) [
  | inl t ↦
      let (free, le, before) = first_free_lem taken fuel (i + 1) k (ground (arith, h, t)) in
      (free, omega (arith, le), λ j l u. ground (arith, t, before j, same j))
  | inr t ↦
      let here : i ≡ k = ground (arith, h, t) in
      (ap taken (sym here) ∙ t, omega (arith, here), λ j l u. absurd (omega (arith, here, l, u)))
]
  where
    same : (j : ℕ) → i ≡ j → taken i ≡ taken j
    same j e = ap taken e

pub first_free_bound :
    (taken : ℕ → Bool) (fuel i k : ℕ) → first_free taken fuel i ≡ some k → k < i + fuel
unfolding first_free
first_free_bound taken zero i k h = absurd (cc)
first_free_bound taken (suc fuel) i k h = ground (arith, first_free_bound taken fuel (i + 1) k)

-- Only the numbers that the fuel reaches matter.
pub first_free_same :
    (s t : ℕ → Bool) (fuel i : ℕ)
    → ((j : ℕ) → i ≤ j → j < i + fuel → s j ≡ t j)
    → first_free s fuel i ≡ first_free t fuel i
unfolding first_free
first_free_same s t zero i same = refl
first_free_same s t (suc fuel) i same = ground (
  arith,
  first_free_same s t fuel (i + 1) (λ j l u. same j (omega (arith, l)) (omega (arith, u))),
  same i (omega arith) (omega arith),
)

module _ {ℓ} {A : Type ℓ} (hits : A → ℕ → Bool) where
  -- Some element stands in the way of i.
  unfoldable pub any_hits : List A → ℕ → Bool
  any_hits [] i = false
  any_hits (x ∷ xs) i = hits x i || any_hits xs i

  unfoldable others : List A → ℕ → List A
  others [] i = []
  others (x ∷ xs) i = let rest = others xs i in if hits x i then rest else x ∷ rest

  length-others : (xs : List A) (i : ℕ) → length (others xs i) ≤ length xs
  unfolding others
  length-others [] i = omega arith
  length-others (x ∷ xs) i = ground (arith, length-others xs i)

  others_shorter : (xs : List A) (i : ℕ) → any_hits xs i ≡ true → length (others xs i) < length xs
  unfolding others any_hits
  others_shorter [] i h = absurd (cc)
  others_shorter (x ∷ xs) i h = ground (arith, others_shorter xs i, length-others xs i)

  module _ (once : (x : A) (i j : ℕ) → hits x i ≡ true → hits x j ≡ true → i ≡ j) where
    others_hit : (xs : List A) (i j : ℕ) → i < j → any_hits (others xs i) j ≡ any_hits xs j
    unfolding others any_hits
    others_hit [] i j l = refl
    others_hit (x ∷ xs) i j l = ground (arith, others_hit xs i j, once x i j)

    -- Where an element stands in the way of one number at most, the search ends within as many steps
    -- as there are elements, and one more.
    pub enough_fuel :
        (xs : List A) (fuel i : ℕ)
        → length xs < fuel
        → (k : ℕ) × (first_free (any_hits xs) fuel i ≡ some k)
    unfolding first_free
    enough_fuel xs zero i h = absurd (omega (arith, h))
    enough_fuel xs (suc fuel) i h = elim (Bool-cases (any_hits xs i)) [
      | inl t ↦
          let shorter = others_shorter xs i t in
          let (k, found) = enough_fuel (others xs i) fuel (i + 1) (omega (arith, h, shorter)) in
          (
            k,
            rw t (
                first_free_same (any_hits xs) (any_hits (others xs i)) fuel (i + 1)
                  (λ j l u. sym (others_hit xs i j (omega (arith, l))))
                ∙ found),
          )
      | inr t ↦ (i, rw t refl)
    ]
