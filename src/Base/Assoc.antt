-- ===== src/Base/Assoc.antt =====
-- A `HashMap` as an association list. What is said of it is said by `lookup`.
use grafted.Base.Tests.{Eq, ◌==◌, if◌then◌else◌}
use mathlib.Core.Path.{◌≡◌, refl, ◌∙◌}
use mathlib.Core.Logic.{◌≢◌}
use mathlib.Core.Bool.{Bool, true, false}
use mathlib.Core.List.{List, [], ◌∷◌}
use mathlib.Core.Option.{Option, none, some}
use native.Mathlib.Omega.{arith}

abbrev pub Map {ℓ κ} : Type ℓ → Type κ → Type (ℓ ⊔ κ)
Map K V = List (K × V)

abbrev pub is_some {ℓ} : {V : Type ℓ} → Option V → Bool
is_some none = false
is_some (some v) = true

module _ {ℓ κ} {K : Type ℓ} {V : Type κ} ⦃e : Eq K⦄ where
  unfoldable pub lookup : Map K V → K → Option V
  lookup [] k = none
  lookup ((j, v) ∷ m) k = if j == k then some v else lookup m k

  unfoldable pub insert : Map K V → K → V → Map K V
  insert [] k v = (k, v) ∷ []
  insert ((j, w) ∷ m) k v = if j == k then (k, v) ∷ m else (j, w) ∷ insert m k v

  unfoldable pub remove : Map K V → K → Map K V
  remove [] k = []
  remove ((j, w) ∷ m) k = let rest = remove m k in if j == k then rest else (j, w) ∷ rest

  pub lookup-insert :
      (m : Map K V) (k j : K) (v : V)
      → lookup (insert m k v) j ≡ (if k == j then some v else lookup m j)
  unfolding lookup insert
  lookup-insert [] k j v = refl
  lookup-insert ((i, w) ∷ m) k j v =
      ground (arith, e.eq_iff k j, e.eq_iff i k, e.eq_iff i j, lookup-insert m k j v)

  pub lookup-insert_self : (m : Map K V) (k : K) (v : V) → lookup (insert m k v) k ≡ some v
  lookup-insert_self m k v = lookup-insert m k k v ∙ rw ((e.eq_iff k k).1 refl) refl

  pub lookup-insert_ne :
      (m : Map K V) (k j : K) (v : V) → k ≢ j → lookup (insert m k v) j ≡ lookup m j
  lookup-insert_ne m k j v apart = ground (arith, lookup-insert m k j v, e.eq_iff k j)

  pub lookup-remove :
      (m : Map K V) (k j : K) → lookup (remove m k) j ≡ (if k == j then none else lookup m j)
  unfolding lookup remove
  lookup-remove [] k j = ground arith
  lookup-remove ((i, w) ∷ m) k j =
      ground (arith, e.eq_iff k j, e.eq_iff i k, e.eq_iff i j, lookup-remove m k j)
