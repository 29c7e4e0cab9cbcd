-- ===== src/Base/Text/Fold.antt =====
-- strings.EqualFold: rune by rune, two runes agree if `fold` gives them the same representative of
-- their orbit under unicode.SimpleFold, whose tables are Go's.
use Prim.Native.Char.{code}
use Prim.Native.String.{String, [], ◌∷◌}
use Prim.Native.Nat.{ℕ, zero, suc, ◌+◌, ◌*◌, ◌-◌, ◌/◌, ◌%◌, ◌<◌}
use mathlib.Core.Path.{◌≡◌, refl, ap, ◌∙◌, sym}
use mathlib.Core.Bool.{Bool, true, false, ◌&&◌}
use mathlib.Core.Logic.{inl, inr}
use text.Mathlib.TextLemmas.{nil-append, cons-append}
use native.Mathlib.Omega.{arith}
use sdl_control.Base.Tests.{ltb, Bool-cases}
use sdl_control.Base.Equality.{nat_beq, nat_beq_iff}
use sdl_control.Base.Text.{◌<>◌}
use sdl_control.Base.Decimal.{digit, digits, decimal, code-digit}

module _ (fold : ℕ → ℕ) where
  unfoldable pub equal_fold : String → String → Bool
  equal_fold [] [] = true
  equal_fold [] (d ∷ t) = false
  equal_fold (c ∷ s) [] = false
  equal_fold (c ∷ s) (d ∷ t) = nat_beq (fold (code c)) (fold (code d)) && equal_fold s t

  pub equal_fold_sym : (s t : String) → equal_fold s t ≡ equal_fold t s
  unfolding equal_fold
  equal_fold_sym [] [] = refl
  equal_fold_sym [] (d ∷ t) = refl
  equal_fold_sym (c ∷ s) [] = refl
  equal_fold_sym (c ∷ s) (d ∷ t) = ground (arith, equal_fold_sym s t)

  pub equal_fold_trans :
      (s t u : String) → equal_fold s t ≡ true → equal_fold t u ≡ true → equal_fold s u ≡ true
  unfolding equal_fold
  equal_fold_trans [] [] u h k = k
  equal_fold_trans [] (d ∷ t) u h k = absurd (cc)
  equal_fold_trans (c ∷ s) [] u h k = absurd (cc)
  equal_fold_trans (c ∷ s) (d ∷ t) [] h k = absurd (cc)
  equal_fold_trans (c ∷ s) (d ∷ t) (e ∷ u) h k = ground (arith, equal_fold_trans s t u)

  pub equal_fold_empty : (s : String) → (s ≡ "" → ⊥) → equal_fold s "" ≡ false
  unfolding equal_fold
  equal_fold_empty [] h = absurd (h refl)
  equal_fold_empty (c ∷ s) h = refl

  -- What follows two equal starts
  pub equal_fold_tail :
      (s t u : String) → equal_fold (s <> t) (s <> u) ≡ true → equal_fold t u ≡ true
  unfolding equal_fold
  equal_fold_tail [] t u h = simp nil-append at h
  equal_fold_tail (c ∷ s) t u h =
      let h' = simp cons-append at h in equal_fold_tail s t u (ground (arith, h'))

  -- A digit is alone in its orbit.
  abbrev pub KeepsDigits : Type 0
  KeepsDigits = (d : ℕ) → d < 10 → fold (48 + d) ≡ 48 + d

  -- The number that digits write behind v, read after the folding
  value : ℕ → String → ℕ
  value v [] = v
  value v (c ∷ s) = value (v * 10 + (fold (code c) - 48)) s

  value_fold : (s t : String) (v : ℕ) → equal_fold s t ≡ true → value v s ≡ value v t
  unfolding value equal_fold
  value_fold [] [] v h = refl
  value_fold [] (d ∷ t) v h = absurd (cc)
  value_fold (c ∷ s) [] v h = absurd (cc)
  value_fold (c ∷ s) (d ∷ t) v h =
      let same : fold (code c) ≡ fold (code d) = ground (arith, h) in
      ap (λ x. value (v * 10 + (x - 48)) s) same
      ∙ value_fold s t (v * 10 + (fold (code d) - 48)) (ground (arith, h))

  module _ (keeps : KeepsDigits) where
    digit_value : (d : ℕ) → d < 10 → fold (code (digit d)) - 48 ≡ d
    digit_value d l = omega (arith, ap fold (code-digit d l), keeps d l)

    value-digits :
        (fuel n : ℕ) (written : String)
        → n < fuel
        → value 0 (digits fuel n written) ≡ value n written
    unfolding digits value
    value-digits zero n written h = absurd (omega (arith, h))
    value-digits (suc fuel) n written h = elim (Bool-cases (ltb n 10)) [
      | inl small ↦
          rw small (ap (λ d. value d written) (omega (arith, digit_value n (ground arith))))
      | inr big ↦ rw big (
          value-digits fuel (n / 10) (digit (n % 10) ∷ written) (ground arith)
          ∙ ap (λ d. value d written) (omega (arith, digit_value (n % 10) (omega arith))))
    ]

    -- Two numbers whose digits agree after the folding are equal.
    pub decimal_fold_inj : (m n : ℕ) → equal_fold (decimal m) (decimal n) ≡ true → m ≡ n
    unfolding decimal value
    decimal_fold_inj m n h =
        sym (value-digits (suc m) m [] (omega arith))
        ∙ (value_fold (decimal m) (decimal n) 0 h ∙ value-digits (suc n) n [] (omega arith))

pub equal_fold_refl : (fold : ℕ → ℕ) (s : String) → equal_fold fold s s ≡ true
unfolding equal_fold
equal_fold_refl fold [] = refl
equal_fold_refl fold (c ∷ s) =
    ground (arith, equal_fold_refl fold s, nat_beq_iff (fold (code c)) (fold (code c)))

-- Two numbers that are written alike are equal.
pub decimal_inj : (m n : ℕ) → decimal m ≡ decimal n → m ≡ n
decimal_inj m n h =
    decimal_fold_inj (λ c. c) (λ d l. refl) m n
      (ap (equal_fold (λ c. c) (decimal m)) (sym h) ∙ equal_fold_refl (λ c. c) (decimal m))
