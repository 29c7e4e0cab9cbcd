-- ===== src/Base/Map.antt =====
-- Go's `map[K]V` as an association list. The order of the entries stands for the order in which
-- `range` visits them, which Go leaves open: a theorem over every list covers every order.
use sdl_control.Base.Tests.{if◌then◌else◌}
use sdl_control.Base.Equality.{Eq, ◌==◌}
use mathlib.Core.Path.{◌≡◌, refl}
use mathlib.Core.Option.{Option, none, some}
use mathlib.Core.List.{List, [], ◌∷◌}
use native.Mathlib.Omega.{arith}

abbrev pub Map {ℓ κ} : Type ℓ → Type κ → Type (ℓ ⊔ κ)
Map K V = List (K × V)

module _ {ℓ κ} {K : Type ℓ} {V : Type κ} ⦃e : Eq K⦄ where
  -- v, ok := m[k]
  unfoldable pub get : Map K V → K → Option V
  get [] k = none
  get ((j, v) ∷ m) k = if j == k then some v else get m k

  -- delete(m, k)
  unfoldable pub delete : Map K V → K → Map K V
  delete [] k = []
  delete ((j, v) ∷ m) k = let rest = delete m k in if j == k then rest else (j, v) ∷ rest

  -- m[k] = v
  unfoldable pub put : Map K V → K → V → Map K V
  put [] k v = (k, v) ∷ []
  put ((j, w) ∷ m) k v = if j == k then (k, v) ∷ delete m k else (j, w) ∷ put m k v

  pub get-delete : (m : Map K V) (k j : K) → get (delete m k) j ≡ (if k == j then none else get m j)
  unfolding get delete
  get-delete [] k j = ground arith
  get-delete ((i, w) ∷ m) k j =
      ground (arith, get-delete m k j, e.beq_iff i k, e.beq_iff i j, e.beq_iff k j)

  pub get-put :
      (m : Map K V) (k : K) (v : V) (j : K)
      → get (put m k v) j ≡ (if k == j then some v else get m j)
  unfolding get put
  get-put [] k v j = refl
  get-put ((i, w) ∷ m) k v j =
      ground (arith, get-put m k v j, get-delete m k j, e.beq_iff i k, e.beq_iff i j, e.beq_iff k j)

  -- Every key stands once, as in a Go map.
  abbrev pub IsUnique : Map K V → Type (ℓ ⊔ κ)
  IsUnique [] = Unit
  IsUnique ((k, v) ∷ m) = (get m k ≡ none) × IsUnique m

  pub delete-IsUnique : (m : Map K V) (k : K) → IsUnique m → IsUnique (delete m k)
  unfolding delete
  delete-IsUnique [] k u = tt
  delete-IsUnique ((j, v) ∷ m) k u = ground (arith, delete-IsUnique m k u.1, get-delete m k j)

  pub put-IsUnique : (m : Map K V) (k : K) (v : V) → IsUnique m → IsUnique (put m k v)
  unfolding put get
  put-IsUnique [] k v u = (refl, tt)
  put-IsUnique ((j, w) ∷ m) k v u = ground (
    arith,
    put-IsUnique m k v u.1,
    get-put m k v j,
    get-delete m k k,
    delete-IsUnique m k u.1,
    e.beq_iff j k,
    e.beq_iff k j,
    e.beq_iff k k,
  )

pub ruleset map_laws = (get-put, get-delete)
