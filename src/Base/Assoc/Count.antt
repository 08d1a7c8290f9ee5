-- ===== src/Base/Assoc/Count.antt =====
-- Counting entries: sizes after an update, and the pigeonhole principle on keys.
use health.Base.Tests.{Bool-cases, if◌then◌else◌, is_some}
use health.Base.Keys.{Eq, =?_refl, ◌=?◌}
use health.Base.Lists.{length}
use health.Base.Assoc.{Assoc, insert, IsDistinct, lookup, remove}
use health.Base.Assoc.Laws.{lookup-remove, remove-IsDistinct}
use Prim.Native.Nat.{suc, ◌≤◌}
use mathlib.Core.Path.{refl, ◌≡◌}
use mathlib.Core.Logic.{inl, inr}
use mathlib.Core.Bool.{Bool, true}
use mathlib.Core.List.{Memᴰ, [], ◌∷◌}
use mathlib.Core.Option.{some}
use native.Mathlib.Omega.{arith}

module _ {ℓ κ} {K : Type ℓ} {V : Type κ} ⦃e : Eq K⦄ where
  abbrev pub has_key : K → Assoc K V → Bool
  has_key k l = is_some (lookup k l)

  pub length-insert :
      (k : K) (v : V) (l : Assoc K V)
      → length (insert k v l) ≡ (if has_key k l then length l else suc (length l))
  unfolding lookup insert
  length-insert k v [] = refl
  length-insert k v ((i, w) ∷ l) = ground (arith, length-insert k v l)

  pub length-remove :
      (k : K) (l : Assoc K V) → has_key k l ≡ true → suc (length (remove k l)) ≡ length l
  unfolding lookup remove
  length-remove k [] h = absurd (cc)
  length-remove k ((i, w) ∷ l) h = ground (arith, length-remove k l)

  pub has_key-of_mem : (k : K) (v : V) (l : Assoc K V) → Memᴰ (k, v) l → has_key k l ≡ true
  unfolding lookup
  has_key-of_mem k v [] m = elim m [ ]
  has_key-of_mem k v ((i, w) ∷ l) (Memᴰ.head m) = ground (arith, e.beq_iff i k)
  has_key-of_mem k v ((i, w) ∷ l) (Memᴰ.tail m) = ground (arith, has_key-of_mem k v l m)

  pub lookup-of_mem :
      (k : K) (v : V) (l : Assoc K V) → IsDistinct l → Memᴰ (k, v) l → lookup k l ≡ some v
  unfolding lookup
  lookup-of_mem k v [] d m = elim m [ ]
  lookup-of_mem k v ((i, w) ∷ l) d (Memᴰ.head m) = ground (arith, e.beq_iff i k)
  lookup-of_mem k v ((i, w) ∷ l) d (Memᴰ.tail m) =
      ground (arith, lookup-of_mem k v l d.1 m, has_key-of_mem k v l m, e.beq_iff i k, d.0)

  has_key-head : (i : K) (v : V) (a : Assoc K V) → has_key i ((i, v) ∷ a) ≡ true
  unfolding lookup
  has_key-head i v a = rw (=?_refl i)

-- Every key of the first list is a key of the second.
abbrev pub KeysWithin {ℓ κ μ} :
    {K : Type ℓ} {V : Type κ} {W : Type μ} ⦃e : Eq K⦄ → Assoc K V → Assoc K W → Type ℓ
KeysWithin {K} a b = (k : K) → has_key k a ≡ true → has_key k b ≡ true

module _ {ℓ κ μ} {K : Type ℓ} {V : Type κ} {W : Type μ} ⦃e : Eq K⦄ where
  KeysWithin-remove :
      (i : K) (v : V) (a : Assoc K V) (b : Assoc K W)
      → IsDistinct ((i, v) ∷ a)
      → IsDistinct b
      → KeysWithin ((i, v) ∷ a) b
      → KeysWithin a (remove i b)
  unfolding lookup
  KeysWithin-remove i v a b da db h k p = elim (Bool-cases (i =? k)) [
    | inl same ↦ absurd (ground (arith, e.beq_iff i k, da))
    | inr other ↦ rw (lookup-remove i k b db) (rw other (h k (rw other p)))
  ]

  -- One step of the counting arguments: the first key is struck from both lists.
  length-remove_head :
      (i : K) (v : V) (a : Assoc K V) (b : Assoc K W)
      → KeysWithin ((i, v) ∷ a) b
      → suc (length (remove i b)) ≡ length b
  length-remove_head i v a b h = length-remove i b (h i (has_key-head i v a))

  pub length-le_of_KeysWithin :
      (a : Assoc K V) (b : Assoc K W)
      → IsDistinct a
      → IsDistinct b
      → KeysWithin a b
      → length a ≤ length b
  length-le_of_KeysWithin [] b da db h = omega arith
  length-le_of_KeysWithin ((i, v) ∷ a) b da db h =
      let ih =
        length-le_of_KeysWithin a (remove i b) da.1 (remove-IsDistinct i b db)
          (KeysWithin-remove i v a b da db h) in
      omega (arith, ih, length-remove_head i v a b h)

  -- Distinct keys that all lie in a list of the same length are all its keys.
  pub KeysWithin-all :
      (a : Assoc K V) (b : Assoc K W)
      → IsDistinct a
      → IsDistinct b
      → KeysWithin a b
      → length b ≤ length a
      → KeysWithin b a
  unfolding lookup
  KeysWithin-all [] [] da db h le k p = cc
  KeysWithin-all [] ((j, w) ∷ b) da db h le k p = absurd (omega arith)
  KeysWithin-all ((i, v) ∷ a) b da db h le k p = elim (Bool-cases (i =? k)) [
    | inl same ↦ rw same
    | inr other ↦ rw other (
        KeysWithin-all a (remove i b) da.1 (remove-IsDistinct i b db)
          (KeysWithin-remove i v a b da db h) (omega (arith, length-remove_head i v a b h)) k
          (rw (lookup-remove i k b db) (rw other p)))
  ]
