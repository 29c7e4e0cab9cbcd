-- ===== src/Base/Text/Trim.antt =====
-- A text that was trimmed, with a number behind it, is trimmed.
use Prim.Native.Char.{Char, code}
use Prim.Native.String.{String, [], ◌∷◌}
use Prim.Native.Nat.{ℕ, zero, suc, ◌/◌, ◌%◌}
use mathlib.Core.Path.{◌≡◌, refl, ap, ◌∙◌, sym}
use mathlib.Core.Logic.{◌⊎◌, inl, inr, ◌≢◌}
use mathlib.Core.Bool.{Bool, true, false}
use text.Mathlib.TextLemmas.{nil-append, cons-append, append-ne-nil_of_right_ne-nil}
use sdl_control.Base.Tests.{ltb, if◌then◌else◌, Bool-cases}
use sdl_control.Base.Text.{
  ◌<>◌, is_space, trim_left, trim_right, keep_unless, trim_space, append-nil_left,
}
use sdl_control.Base.Decimal.{digit, digits, decimal}

-- No character is a space.
abbrev AllSolid : String → Type 0
AllSolid [] = Unit
AllSolid (c ∷ s) = (is_space (code c) ≡ false) × AllSolid s

solid-trim_right : (s : String) → AllSolid s → trim_right s ≡ s
unfolding trim_right keep_unless
solid-trim_right [] h = refl
solid-trim_right (c ∷ s) h = rw (h.0, solid-trim_right s h.1) refl

digit_solid : (n : ℕ) → is_space (code (digit n)) ≡ false
unfolding digit is_space
digit_solid zero = refl
digit_solid (suc zero) = refl
digit_solid (suc (suc zero)) = refl
digit_solid (suc (suc (suc zero))) = refl
digit_solid (suc (suc (suc (suc zero)))) = refl
digit_solid (suc (suc (suc (suc (suc zero))))) = refl
digit_solid (suc (suc (suc (suc (suc (suc zero)))))) = refl
digit_solid (suc (suc (suc (suc (suc (suc (suc zero))))))) = refl
digit_solid (suc (suc (suc (suc (suc (suc (suc (suc zero)))))))) = refl
digit_solid (suc (suc (suc (suc (suc (suc (suc (suc (suc n))))))))) = refl

digits_solid : (fuel n : ℕ) (written : String) → AllSolid written → AllSolid (digits fuel n written)
unfolding digits
digits_solid zero n written h = h
digits_solid (suc fuel) n written h = elim (Bool-cases (ltb n 10)) [
  | inl small ↦ rw small (digit_solid n, h)
  | inr big ↦
      rw big (digits_solid fuel (n / 10) (digit (n % 10) ∷ written) (digit_solid (n % 10), h))
]

decimal_solid : (n : ℕ) → AllSolid (decimal n)
unfolding decimal
decimal_solid n = digits_solid (suc n) n [] tt

dash_solid : (i : ℕ) → AllSolid ("-" <> decimal i)
unfolding is_space
dash_solid i = rw (cons-append) (refl, rw nil-append (decimal_solid i))

kept : (b : Bool) (c : Char) (s : String) → s ≢ "" → keep_unless b c s ≡ c ∷ s
unfolding keep_unless
kept true c [] ne = absurd (ne refl)
kept true c (d ∷ s) ne = refl
kept false c s ne = refl

-- What stands before a text that ends in no space does not change its end.
trim_right-append : (s w : String) → trim_right w ≡ w → w ≢ "" → trim_right (s <> w) ≡ s <> w
unfolding trim_right
trim_right-append [] w h ne = rw nil-append h
trim_right-append (c ∷ s) w h ne =
    rw (cons-append c s w, trim_right-append s w h ne)
      (kept (is_space (code c)) c (s <> w) (append-ne-nil_of_right_ne-nil s ne))

-- Empty, or it starts with what is no space
abbrev pub Head : String → Type 0
Head s = (s ≡ "") ⊎ ((c : Char) × (rest : String) × (s ≡ c ∷ rest) × (is_space (code c) ≡ false))

trim_step :
    (c : Char) (s : String) (b : Bool)
    → is_space (code c) ≡ b
    → Head (trim_right (trim_left s))
    → Head (trim_right (if b then trim_left s else c ∷ s))
unfolding trim_right keep_unless
trim_step c s true h later = later
trim_step c s false h later = inr (c, trim_right s, rw h refl, h)

pub trim-Head : (s : String) → Head (trim_space s)
unfolding trim_space trim_left trim_right
trim-Head [] = inl refl
trim-Head (c ∷ s) = trim_step c s (is_space (code c)) refl (trim-Head s)

not_dash : (s : String) → s ≡ "-" → s ≢ ""
not_dash s d e = cc

-- A trimmed text with a number behind it
abbrev pub numbered : String → ℕ → String
numbered s i = s <> ("-" <> decimal i)

pub trim-numbered :
    (s : String) (i : ℕ) → Head s → s ≢ "" → trim_space (numbered s i) ≡ numbered s i
unfolding trim_space trim_left
trim-numbered s i (inl e) ne = absurd (ne e)
trim-numbered s i (inr (c, rest, e, h)) ne =
    let back = "-" <> decimal i in
    let whole : numbered s i ≡ c ∷ (rest <> back) =
      ap (λ t. t <> back) e ∙ cons-append c rest back in
    let back_trimmed : trim_right back ≡ back = solid-trim_right back (dash_solid i) in
    ap trim_right (ap trim_left whole ∙ (rw h refl ∙ sym whole))
    ∙ trim_right-append s back back_trimmed
        (λ z. not_dash "-" refl (append-nil_left "-" (decimal i) z))

pub numbered_nonempty : (s : String) (i : ℕ) → s ≢ "" → numbered s i ≢ ""
numbered_nonempty s i ne e = ne (append-nil_left s ("-" <> decimal i) e)
