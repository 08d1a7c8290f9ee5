-- ===== src/Base/Assoc.antt =====
-- Association lists: the finite maps of the model. A Go map lists its entries in no fixed order, so
-- what is stated of a map is stated of its lookups, or of every list of entries.
pub mod Laws
pub mod Count
use mathlib.Core.Path.{◌≡◌}
use mathlib.Core.Bool.{Bool, false, true}
use mathlib.Core.Option.{none, Option, some}
use mathlib.Core.List.{List, [], ◌∷◌}
use health.Base.Tests.{if◌then◌else◌}
use health.Base.Keys.{Eq, ◌=?◌}

abbrev pub Assoc {ℓ κ} : Type ℓ → Type κ → Type (ℓ ⊔ κ)
Assoc K V = List (K × V)

module _ {ℓ κ} {K : Type ℓ} {V : Type κ} ⦃e : Eq K⦄ where
  unfoldable pub lookup : K → Assoc K V → Option V
  lookup k [] = none
  lookup k ((j, v) ∷ l) = if j =? k then some v else lookup k l

  -- `m[k] = v`: an entry keeps its place.
  unfoldable pub insert : K → V → Assoc K V → Assoc K V
  insert k v [] = (k, v) ∷ []
  insert k v ((j, w) ∷ l) = if j =? k then (j, v) ∷ l else (j, w) ∷ insert k v l

  -- `delete(m, k)`.
  unfoldable pub remove : K → Assoc K V → Assoc K V
  remove k [] = []
  remove k ((j, w) ∷ l) = if j =? k then l else (j, w) ∷ remove k l

  -- `for k, v := range src { m[k] = v }`.
  unfoldable pub insert_all : Assoc K V → Assoc K V → Assoc K V
  unfolding insert
  insert_all [] l = l
  insert_all ((k, v) ∷ src) l = insert_all src (insert k v l)

  -- No key stands twice.
  abbrev pub IsDistinct : Assoc K V → Type κ
  IsDistinct [] = Unit
  IsDistinct ((k, v) ∷ l) = (lookup k l ≡ none) × IsDistinct l
