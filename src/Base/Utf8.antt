-- ===== src/Base/Utf8.antt =====
-- []byte(s) of a text: its bytes in UTF-8.
use Prim.Native.Char.{code}
use Prim.Native.String.{String, [] as empty, ◌∷◌ as ◌before◌}
use Prim.Native.Nat.{ℕ, ◌+◌, ◌/◌, ◌%◌}
use mathlib.Core.Path.{◌≡◌, refl}
use mathlib.Core.List.{List, [], ◌∷◌, ◌++◌}
use sdl_control.Base.Tests.{leb, if◌then◌else◌}

-- The bytes of one character
utf8_char : ℕ → List ℕ
utf8_char c =
    if leb c 0x7f
    then c ∷ []
    else if leb c 0x7ff
    then (192 + c / 64) ∷ (128 + c % 64) ∷ []
    else if leb c 0xffff
    then (224 + c / 4096) ∷ (128 + c / 64 % 64) ∷ (128 + c % 64) ∷ []
    else (240 + c / 262144) ∷ (128 + c / 4096 % 64) ∷ (128 + c / 64 % 64) ∷ (128 + c % 64) ∷ []

unfoldable pub utf8 : String → List ℕ
unfolding utf8_char
utf8 empty = []
utf8 (c before s) = utf8_char (code c) ++ utf8 s

utf8_example : utf8 "aé" ≡ 97 ∷ 195 ∷ 169 ∷ []
unfolding utf8
utf8_example = refl
