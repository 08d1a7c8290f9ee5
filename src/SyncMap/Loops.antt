-- ===== src/SyncMap/Loops.antt =====
-- Loops over the map that run to the end.
use health.Base.{
  arith, Bool, Bool-cases, Eq, if◌then◌else◌, inl, inr, length, none, refl, some, subst, true, [],
  ◌=?◌, ◌∷◌, ◌≡◌,
}
use mathlib.Core.Option as Option
use health.Base.Assoc.{Assoc, IsDistinct, lookup}
use health.Base.Assoc.Count.{has_key}
use health.SyncMap.{each_object, each_object_entry, entries, get, GoMap, made, Map, nil, size}
use health.SyncMap.Laws.{IsMap}

none_of_has_key {ℓ κ} :
    {K : Type ℓ} {V : Type κ} ⦃e : Eq K⦄ (k : K) (a b : Assoc K V)
    → has_key k a ≡ has_key k b
    → lookup k b ≡ none
    → lookup k a ≡ none
none_of_has_key k a b p q = ground arith

module _ {ℓ κ μ} {K : Type ℓ} {V : Type κ} {S : Type μ} ⦃e : Eq K⦄ where
  -- Whatever the callback does, the loop keeps the keys.
  has_key-each_object_entry :
      (fn : K → V → S → V × S × Bool) (k : K) (l : Assoc K V) (s : S)
      → has_key k (each_object_entry fn l s).0 ≡ has_key k l
  unfolding each_object_entry lookup
  has_key-each_object_entry fn k [] s = refl
  has_key-each_object_entry fn k ((j, v) ∷ l) s =
      ground (arith, has_key-each_object_entry fn k l (fn j v s).1)

  length-each_object_entry :
      (fn : K → V → S → V × S × Bool) (l : Assoc K V) (s : S)
      → length (each_object_entry fn l s).0 ≡ length l
  unfolding each_object_entry
  length-each_object_entry fn [] s = refl
  length-each_object_entry fn ((j, v) ∷ l) s =
      ground (arith, length-each_object_entry fn l (fn j v s).1)

  each_object_entry-IsDistinct :
      (fn : K → V → S → V × S × Bool) (l : Assoc K V) (s : S)
      → IsDistinct l
      → IsDistinct (each_object_entry fn l s).0
  unfolding each_object_entry
  each_object_entry-IsDistinct fn [] s d = d
  each_object_entry-IsDistinct fn ((j, v) ∷ l) s d = elim (Bool-cases (fn j v s).2) [
    | inl on ↦ rw on (
      none_of_has_key j (each_object_entry fn l (fn j v s).1).0 l
          (has_key-each_object_entry fn j l (fn j v s).1) d.0,
      each_object_entry-IsDistinct fn l (fn j v s).1 d.1,
    )
    | inr off ↦ rw off d
  ]

  each_object-IsMap_items :
      (fn : K → V → S → V × S × Bool) (m : GoMap K V) (s : S)
      → IsDistinct (entries m)
      → IsMap (each_object fn (record { items = m }) s).0
  unfolding each_object
  each_object-IsMap_items fn nil s d = d
  each_object-IsMap_items fn (made l) s d = each_object_entry-IsDistinct fn l s d

  pub each_object-IsMap :
      (fn : K → V → S → V × S × Bool) (m : Map K V) (s : S) → IsMap m → IsMap (each_object fn m s).0
  each_object-IsMap fn m s d = each_object-IsMap_items fn m.items s d

  size-each_object_items :
      (fn : K → V → S → V × S × Bool) (m : GoMap K V) (s : S)
      → size (each_object fn (record { items = m }) s).0 ≡ length (entries m)
  unfolding each_object size
  size-each_object_items fn nil s = refl
  size-each_object_items fn (made l) s = length-each_object_entry fn l s

  pub size-each_object :
      (fn : K → V → S → V × S × Bool) (m : Map K V) (s : S) → size (each_object fn m s).0 ≡ size m
  size-each_object fn m s = unfold size in size-each_object_items fn m.items s

  -- A callback that changes every object by `f` and always goes on.
  abbrev pub always : (V → V) → K → V → S → V × S × Bool
  always f k v s = (f v, s, true)

  lookup-always :
      (f : V → V) (k : K) (l : Assoc K V) (s : S)
      → lookup k (each_object_entry (always f) l s).0 ≡ Option.map f (lookup k l)
  unfolding each_object_entry lookup
  lookup-always f k [] s = refl
  lookup-always f k ((j, v) ∷ l) s = ground (arith, lookup-always f k l s)

  get-always_items :
      (f : V → V) (k : K) (m : GoMap K V) (s : S)
      → get k (each_object (always f) (record { items = m }) s).0
        ≡ Option.map f (lookup k (entries m))
  unfolding each_object get
  get-always_items f k nil s = lookup-always f k [] s
  get-always_items f k (made l) s = lookup-always f k l s

  pub get-always :
      (f : V → V) (k : K) (m : Map K V) (s : S)
      → get k (each_object (always f) m s).0 ≡ Option.map f (get k m)
  get-always f k m s = unfold get in get-always_items f k m.items s

  lookup-each_object_cons :
      (fn : K → V → S → V × S × Bool) (j k : K) (w : V) (l : Assoc K V) (s : S)
      → lookup k (each_object_entry fn ((j, w) ∷ l) s).0 ≡ (
          if j =? k
          then some (fn j w s).0
          else if (fn j w s).2
          then lookup k (each_object_entry fn l (fn j w s).1).0
          else lookup k l)
  unfolding each_object_entry lookup
  lookup-each_object_cons fn j k w l s = ground arith

  -- What the callback keeps of every object, the loop keeps of the object of each key.
  values_entry :
      (fn : K → V → S → V × S × Bool) (P : V → Type 0) (k : K) (l : Assoc K V) (s : S)
      → ((j : K) (v : V) (s : S) → P v → P (fn j v s).0)
      → ((v : V) → lookup k l ≡ some v → P v)
      → (v : V) → lookup k (each_object_entry fn l s).0 ≡ some v
      → P v
  unfolding each_object_entry lookup
  values_entry fn P k [] s keep h v p = absurd (cc)
  values_entry fn P k ((j, w) ∷ l) s keep h v p =
      let c = lookup-each_object_cons fn j k w l s in
      elim (Bool-cases (j =? k)) [
        | inl same ↦ subst P (ground arith) (keep j w s (h w (ground arith)))
        | inr other ↦ elim (Bool-cases (fn j w s).2) [
          | inl on ↦
              values_entry fn P k l (fn j w s).1 keep (λ u e. h u (ground arith)) v (ground arith)
          | inr off ↦ h v (ground arith)
        ]
      ]

  values_items :
      (fn : K → V → S → V × S × Bool) (P : V → Type 0) (k : K) (m : GoMap K V) (s : S)
      → ((j : K) (v : V) (s : S) → P v → P (fn j v s).0)
      → ((v : V) → lookup k (entries m) ≡ some v → P v)
      → (v : V) → get k (each_object fn (record { items = m }) s).0 ≡ some v
      → P v
  unfolding each_object get
  values_items fn P k nil s keep h v p = values_entry fn P k [] s keep h v p
  values_items fn P k (made l) s keep h v p = values_entry fn P k l s keep h v p

  pub get-each_object_keeps :
      (fn : K → V → S → V × S × Bool) (P : V → Type 0) (k : K) (m : Map K V) (s : S)
      → ((j : K) (v : V) (s : S) → P v → P (fn j v s).0)
      → ((v : V) → get k m ≡ some v → P v)
      → (v : V) → get k (each_object fn m s).0 ≡ some v
      → P v
  unfolding get
  get-each_object_keeps fn P k m s keep h v p = values_items fn P k m.items s keep h v p

  -- A callback that changes every object by `f`, goes on, and gathers something on the way.
  lookup-goes_on :
      (fn : K → V → S → V × S × Bool) (f : V → V) (k : K) (l : Assoc K V) (s : S)
      → ((j : K) (v : V) (s : S) → (fn j v s).0 ≡ f v)
      → ((j : K) (v : V) (s : S) → (fn j v s).2 ≡ true)
      → lookup k (each_object_entry fn l s).0 ≡ Option.map f (lookup k l)
  unfolding each_object_entry lookup
  lookup-goes_on fn f k [] s same on = refl
  lookup-goes_on fn f k ((j, v) ∷ l) s same on =
      ground (arith, same j v s, on j v s, lookup-goes_on fn f k l (fn j v s).1 same on)

  goes_on_items :
      (fn : K → V → S → V × S × Bool) (f : V → V) (k : K) (m : GoMap K V) (s : S)
      → ((j : K) (v : V) (s : S) → (fn j v s).0 ≡ f v)
      → ((j : K) (v : V) (s : S) → (fn j v s).2 ≡ true)
      → get k (each_object fn (record { items = m }) s).0 ≡ Option.map f (lookup k (entries m))
  unfolding each_object get
  goes_on_items fn f k nil s same on = lookup-goes_on fn f k [] s same on
  goes_on_items fn f k (made l) s same on = lookup-goes_on fn f k l s same on

  pub get-goes_on :
      (fn : K → V → S → V × S × Bool) (f : V → V) (k : K) (m : Map K V) (s : S)
      → ((j : K) (v : V) (s : S) → (fn j v s).0 ≡ f v)
      → ((j : K) (v : V) (s : S) → (fn j v s).2 ≡ true)
      → get k (each_object fn m s).0 ≡ Option.map f (get k m)
  get-goes_on fn f k m s same on = unfold get in goes_on_items fn f k m.items s same on
