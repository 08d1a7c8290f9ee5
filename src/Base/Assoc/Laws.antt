-- ===== src/Base/Assoc/Laws.antt =====
-- Lookups after an update, and the distinctness of keys.
use health.Base.Tests.{Bool-cases, if◌then◌else◌, is_some}
use health.Base.Keys.{Eq, =?_refl, ◌=?◌}
use health.Base.Assoc.{Assoc, insert, insert_all, IsDistinct, lookup, remove}
use mathlib.Core.Path.{refl, ◌≡◌}
use mathlib.Core.Logic.{inl, inr}
use mathlib.Core.Option.{none, some}
use mathlib.Core.List.{[], ◌∷◌}
use native.Mathlib.Omega.{arith}

module _ {ℓ κ} {K : Type ℓ} {V : Type κ} ⦃e : Eq K⦄ where
  pub lookup-insert :
      (k j : K) (v : V) (l : Assoc K V)
      → lookup j (insert k v l) ≡ (if k =? j then some v else lookup j l)
  unfolding lookup insert
  lookup-insert k j v [] = refl
  lookup-insert k j v ((i, w) ∷ l) =
      ground (arith, e.beq_iff k j, e.beq_iff i k, e.beq_iff i j, lookup-insert k j v l)

  pub lookup-insert_self : (k : K) (v : V) (l : Assoc K V) → lookup k (insert k v l) ≡ some v
  lookup-insert_self k v l = rw (lookup-insert k k v l, =?_refl k)

  pub lookup-remove :
      (k j : K) (l : Assoc K V)
      → IsDistinct l
      → lookup j (remove k l) ≡ (if k =? j then none else lookup j l)
  unfolding lookup remove
  lookup-remove k j [] d = ground arith
  lookup-remove k j ((i, w) ∷ l) d =
      ground (arith, e.beq_iff k j, e.beq_iff i k, e.beq_iff i j, lookup-remove k j l d.1)

  pub insert-IsDistinct : (k : K) (v : V) (l : Assoc K V) → IsDistinct l → IsDistinct (insert k v l)
  unfolding lookup insert
  insert-IsDistinct k v [] d = (refl, tt)
  insert-IsDistinct k v ((i, w) ∷ l) d = elim (Bool-cases (i =? k)) [
    | inl same ↦ rw same d
    | inr other ↦ rw other (
      ground (arith, lookup-insert k i v l, e.beq_iff k i, e.beq_iff i k),
      insert-IsDistinct k v l d.1,
    )
  ]

  pub remove-IsDistinct : (k : K) (l : Assoc K V) → IsDistinct l → IsDistinct (remove k l)
  unfolding lookup remove
  remove-IsDistinct k [] d = d
  remove-IsDistinct k ((i, w) ∷ l) d = elim (Bool-cases (i =? k)) [
    | inl same ↦ rw same d.1
    | inr other ↦ rw other (
      ground (arith, lookup-remove k i l d.1, e.beq_iff k i, e.beq_iff i k),
      remove-IsDistinct k l d.1,
    )
  ]

  pub insert_all-IsDistinct : (src l : Assoc K V) → IsDistinct l → IsDistinct (insert_all src l)
  unfolding insert_all
  insert_all-IsDistinct [] l d = d
  insert_all-IsDistinct ((k, v) ∷ src) l d =
      insert_all-IsDistinct src (insert k v l) (insert-IsDistinct k v l d)

  -- A key of the source has the source's value, another one keeps its own.
  pub lookup-insert_all :
      (j : K) (src l : Assoc K V)
      → IsDistinct src
      → lookup j (insert_all src l) ≡ (if is_some (lookup j src) then lookup j src else lookup j l)
  unfolding insert_all lookup
  lookup-insert_all j [] l d = refl
  lookup-insert_all j ((k, v) ∷ src) l d =
      ground (
        arith,
        lookup-insert_all j src (insert k v l) d.1,
        lookup-insert k j v l,
        e.beq_iff k j,
        d.0,
      )
