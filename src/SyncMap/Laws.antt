-- ===== src/SyncMap/Laws.antt =====
-- The map's methods against each other: what a reader sees after each writer.
use health.Base.{arith, Eq, if◌then◌else◌, is_some, none, some, suc, ◌=?◌, ◌≡◌}
use health.Base.Assoc
use health.Base.Assoc.{IsDistinct}
use health.Base.Assoc.Laws.{
  insert-IsDistinct, insert_all-IsDistinct, lookup-insert, lookup-insert_all, lookup-remove,
}
use health.Base.Assoc.Count.{length-insert}
use health.SyncMap.{absorb_map, delete, entries, get, GoMap, made, Map, nil, set, size}

module _ {ℓ κ} {K : Type ℓ} {V : Type κ} ⦃e : Eq K⦄ where
  -- A Go map holds a key once.
  abbrev pub IsMap : Map K V → Type κ
  IsMap m = IsDistinct (entries m.items)

  pub get-set :
      (k j : K) (v : V) (m : Map K V) → get j (set k v m) ≡ (if k =? j then some v else get j m)
  unfolding get set
  get-set k j v m = lookup-insert k j v (entries m.items)

  pub set-IsMap : (k : K) (v : V) (m : Map K V) → IsMap m → IsMap (set k v m)
  unfolding set
  set-IsMap k v m d = insert-IsDistinct k v (entries m.items) d

  pub size-set :
      (k : K) (v : V) (m : Map K V)
      → size (set k v m) ≡ (if is_some (get k m) then size m else suc (size m))
  unfolding set get size
  size-set k v m = length-insert k v (entries m.items)

  get-delete_items :
      (k j : K) (m : GoMap K V)
      → IsDistinct (entries m)
      → get j (delete k (record { items = m }))
        ≡ (if k =? j then none else get j (record { items = m }))
  unfolding get delete Assoc.lookup
  get-delete_items k j nil d = ground arith
  get-delete_items k j (made l) d = lookup-remove k j l d

  -- After a delete, a map with each key at most once lacks the key and keeps every other entry.
  pub get-delete :
      (k j : K) (m : Map K V) → IsMap m → get j (delete k m) ≡ (if k =? j then none else get j m)
  get-delete k j m d = get-delete_items k j m.items d

  -- After `AbsorbMap` of a source with each key at most once, a key has its value in the source if
  -- it has one there, and else its old value.
  get-absorb_map :
      (j : K) (src : GoMap K V) (m : Map K V)
      → IsDistinct (entries src)
      → get j (absorb_map src m)
        ≡ (if is_some (Assoc.lookup j (entries src)) then Assoc.lookup j (entries src) else get j m)
  unfolding get absorb_map
  get-absorb_map j src m d = lookup-insert_all j (entries src) (entries m.items) d

  pub absorb_map-IsMap : (src : GoMap K V) (m : Map K V) → IsMap m → IsMap (absorb_map src m)
  unfolding absorb_map
  absorb_map-IsMap src m d = insert_all-IsDistinct (entries src) (entries m.items) d
