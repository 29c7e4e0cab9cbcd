-- ===== src/Base/Text.antt =====
-- The functions of Go's package `strings` that the program calls, over texts in valid UTF-8.
pub mod Trim
pub mod Fold
use Prim.Native.Char.{Char, code}
use Prim.Native.String.{String, [], ◌∷◌, ◌++◌}
use mathlib.Core.Path.{◌≡◌, refl, sym, ap, ◌∙◌}
use mathlib.Core.Logic.{◌≢◌, inl, inr}
use mathlib.Core.Bool.{Bool, true, false, ◌&&◌, ◌||◌}
use Prim.Native.Nat.{ℕ}
use text.Mathlib.TextLemmas.{nil-append, cons-append}
use text.Mathlib.TextPositions.{eq_refl}
use text.Mathlib.Text.{◌==◌}
use text.Mathlib.TextEquality.{eq_iff}
use native.Mathlib.Omega.{arith}
use sdl_control.Base.Tests.{leb, Bool-cases, if◌then◌else◌}
use sdl_control.Base.Equality.{nat_beq}

-- s + t
infixr 65 ◌<>◌
abbrev pub ◌<>◌ : String → String → String
s <> t = s ++ t

-- unicode.IsSpace
unfoldable pub is_space : ℕ → Bool
is_space c =
    (leb 9 c && leb c 13)
    || nat_beq c 0x20
    || nat_beq c 0x85
    || nat_beq c 0xa0
    || nat_beq c 0x1680
    || (leb 0x2000 c && leb c 0x200a)
    || nat_beq c 0x2028
    || nat_beq c 0x2029
    || nat_beq c 0x202f
    || nat_beq c 0x205f
    || nat_beq c 0x3000

trim_left : String → String
trim_left [] = []
trim_left (c ∷ s) = let rest = trim_left s in if is_space (code c) then rest else c ∷ s

-- A character is dropped if it is a space and all behind it was dropped.
keep_unless : Bool → Char → String → String
keep_unless true c [] = []
keep_unless true c (d ∷ s) = c ∷ d ∷ s
keep_unless false c s = c ∷ s

trim_right : String → String
unfolding keep_unless
trim_right [] = []
trim_right (c ∷ s) = keep_unless (is_space (code c)) c (trim_right s)

-- strings.TrimSpace
unfoldable pub trim_space : String → String
unfolding is_space trim_left trim_right keep_unless
trim_space s = trim_right (trim_left s)

trim_example : trim_space " \t a b \n" ≡ "a b"
unfolding trim_space
trim_example = refl

-- strings.Contains(s, ".")
unfoldable pub contains_dot : String → Bool
contains_dot [] = false
contains_dot (c ∷ s) = nat_beq (code c) b'.' || contains_dot s

-- strings.HasSuffix(s, t)
unfoldable pub has_suffix : String → String → Bool
has_suffix [] t = t == ""
has_suffix (c ∷ s) t = c ∷ s == t || has_suffix s t

dot-contains : (t : String) → contains_dot ("." <> t) ≡ true
unfolding contains_dot
dot-contains t = rw (cons-append)

pub contains_dot-append : (s t : String) → contains_dot (s <> ("." <> t)) ≡ true
unfolding contains_dot
contains_dot-append [] t = rw nil-append (dot-contains t)
contains_dot-append (c ∷ s) t =
    rw (cons-append c s ("." <> t), contains_dot-append s t) (ground arith)

pub has_suffix_self : (t : String) → has_suffix t t ≡ true
unfolding has_suffix
has_suffix_self [] = refl
has_suffix_self (c ∷ t) = rw (eq_refl (c ∷ t))

pub has_suffix-append : (s t : String) → has_suffix (s <> t) t ≡ true
unfolding has_suffix
has_suffix-append [] t = rw nil-append (has_suffix_self t)
has_suffix-append (c ∷ s) t = rw (cons-append c s t, has_suffix-append s t) (ground arith)

-- A text that is empty has an empty start.
pub append-nil_left : (s t : String) → s <> t ≡ "" → s ≡ ""
append-nil_left [] t h = refl
append-nil_left (c ∷ s) t h = let e = sym (cons-append c s t) ∙ h in absurd (cc)

-- strings.TrimSuffix
unfoldable pub trim_suffix : String → String → String
trim_suffix [] t = []
trim_suffix (c ∷ s) t = let rest = c ∷ trim_suffix s t in if c ∷ s == t then "" else rest

-- A text that ends in another is what is left without it, with it behind.
pub trim_suffix-append : (s t : String) → has_suffix s t ≡ true → t ≢ "" → trim_suffix s t <> t ≡ s
unfolding has_suffix trim_suffix
trim_suffix-append [] t h ne = absurd (ne ((eq_iff t "").0 h))
trim_suffix-append (c ∷ s) t h ne = elim (Bool-cases (c ∷ s == t)) [
  | inl e ↦ rw (e) (nil-append t ∙ sym ((eq_iff (c ∷ s) t).0 e))
  | inr e ↦ rw e (
      cons-append c (trim_suffix s t) t
      ∙ ap (λ x. c ∷ x) (trim_suffix-append s t (ground (arith, h, e)) ne))
]
