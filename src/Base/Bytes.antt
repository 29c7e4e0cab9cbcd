-- ===== src/Base/Bytes.antt =====
-- Bytes as numbers below 256: big-endian words (Go's encoding/binary), and masks checked by a table.
use Prim.Native.Nat.{ℕ, zero, suc, ◌+◌, ◌*◌, ◌/◌, ◌%◌, ◌<◌, bit_and, bit_or}
use mathlib.Core.Path.{◌≡◌, refl}
use mathlib.Core.Bool.{Bool, true, ◌&&◌}
use mathlib.Core.List.{List, [], ◌∷◌}
use native.Mathlib.Omega.{arith}
use sdl_control.Base.Equality.{nat_beq, nat_beq_iff}

-- binary.BigEndian.Uint16 and PutUint16
unfoldable pub be16 : ℕ → ℕ → ℕ
be16 a b = a * 256 + b

unfoldable pub put_be16 : ℕ → List ℕ
put_be16 v = v / 256 % 256 ∷ v % 256 ∷ []

-- binary.BigEndian.Uint32 and PutUint32
unfoldable pub be32 : ℕ → ℕ → ℕ → ℕ → ℕ
be32 a b c d = a * 16777216 + b * 65536 + c * 256 + d

unfoldable pub put_be32 : ℕ → List ℕ
put_be32 v = v / 16777216 % 256 ∷ v / 65536 % 256 ∷ v / 256 % 256 ∷ v % 256 ∷ []

-- Every number under the bound passes.
every : (test : ℕ → Bool) (bound : ℕ) → Bool
every test zero = true
every test (suc last) = every test last && test last

-- What the table of a test says of one number.
from_table : (test : ℕ → Bool) (bound b : ℕ) → b < bound → every test bound ≡ true → test b ≡ true
unfolding every
from_table test zero b lt table = absurd (omega arith)
from_table test (suc last) b lt table = ground (arith, from_table test last b)

low_nibbles : every (λ b. nat_beq (bit_and b 0x0f) (b % 16)) 256 ≡ true
unfolding every
low_nibbles = refl

pub bit_and-low_nibble : (b : ℕ) → b < 256 → bit_and b 0x0f ≡ b % 16
bit_and-low_nibble b lt = (nat_beq_iff _ _).0 (from_table _ 256 b lt low_nibbles)

joined_nibbles : every (λ b. nat_beq (bit_or (b / 16 * 16) (b % 16)) b) 256 ≡ true
unfolding every
joined_nibbles = refl

pub bit_or-nibbles : (b : ℕ) → b < 256 → bit_or (b / 16 * 16) (b % 16) ≡ b
bit_or-nibbles b lt = (nat_beq_iff _ _).0 (from_table _ 256 b lt joined_nibbles)
