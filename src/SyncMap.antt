-- ===== src/SyncMap.antt =====
-- internal/syncmap/map.go: the map behind a read-write lock. Each method holds the lock for its
-- whole body, so it is one atomic function of the contents. A nil Go map is kept apart from an
-- empty one.
pub mod Laws
pub mod Loops
use health.Base.{Bool, Eq, false, if◌then◌else◌, length, List, map, Option, true, ℕ, [], ◌∷◌}
use health.Base.Assoc
use health.Base.Assoc.{Assoc}

-- A Go map value: nil, or allocated with its entries in the order of one iteration.
pub data GoMap {ℓ κ} (K : Type ℓ) (V : Type κ) : Type (ℓ ⊔ κ) where
  nil : GoMap K V
  made : Assoc K V → GoMap K V

module _ {ℓ κ} {K : Type ℓ} {V : Type κ} where
  -- What a `range` over the map goes through.
  abbrev pub entries : GoMap K V → Assoc K V
  entries nil = []
  entries (made l) = l

pub record Map {ℓ κ} (K : Type ℓ) (V : Type κ) : Type (ℓ ⊔ κ) where
  pub items : GoMap K V

-- The zero value of the struct.
abbrev pub zero_map {ℓ κ} : {K : Type ℓ} {V : Type κ} → Map K V
zero_map = record { items = nil }

module _ {ℓ κ} {K : Type ℓ} {V : Type κ} ⦃e : Eq K⦄ where
  -- A read of a nil map finds nothing.
  unfoldable pub get : K → Map K V → Option V
  get key m = Assoc.lookup key (entries m.items)

  -- A nil map is allocated first: to write to it would panic.
  unfoldable pub set : K → V → Map K V → Map K V
  set key value m = record { items = made (Assoc.insert key value (entries m.items)) }

  delete_key : K → GoMap K V → GoMap K V
  delete_key key nil = nil
  delete_key key (made l) = made (Assoc.remove key l)

  -- `delete` on a nil map does nothing.
  unfoldable pub delete : K → Map K V → Map K V
  unfolding delete_key
  delete key m = record { items = delete_key key m.items }

  unfoldable pub absorb_map : GoMap K V → Map K V → Map K V
  absorb_map src m = record { items = made (Assoc.insert_all (entries src) (entries m.items)) }

module _ {ℓ κ} {K : Type ℓ} {V : Type κ} where
  unfoldable pub size : Map K V → ℕ
  size m = length (entries m.items)

  unfoldable pub keys : Map K V → List K
  keys m = map (λ p. p.0) (entries m.items)

  unfoldable pub with_entries : GoMap K V → Assoc K V → GoMap K V
  with_entries nil l = nil
  with_entries (made _) l = made l

  unfoldable pub clear : Map K V → Map K V
  clear m = record { items = made [] }

  unfoldable pub value : Map K V → GoMap K V
  value m = made (entries m.items)

module _ {ℓ κ μ} {K : Type ℓ} {V : Type κ} {S : Type μ} where
  -- The loop of `Each`. The callback's captured variables are the state; its result says whether to
  -- go on.
  unfoldable pub each_entry : (K → V → S → S × Bool) → Assoc K V → S → S
  each_entry fn [] s = s
  each_entry fn ((k, v) ∷ l) s =
      let (s', more) = fn k v s in let rest = each_entry fn l s' in if more then rest else s'

  unfoldable pub each : (K → V → S → S × Bool) → Map K V → S → S
  unfolding each_entry
  each fn m s = each_entry fn (entries m.items) s

  -- The same loop for a callback that changes the object to which the value points, as the calls of
  -- a reporter's methods do: the object after the call takes the old one's place.
  unfoldable pub each_object_entry : (K → V → S → V × S × Bool) → Assoc K V → S → Assoc K V × S
  each_object_entry fn [] s = ([], s)
  each_object_entry fn ((k, v) ∷ l) s =
      let (v', s', more) = fn k v s in
      let rest = each_object_entry fn l s' in
      if more then ((k, v') ∷ rest.0, rest.1) else ((k, v') ∷ l, s')

  unfoldable pub each_object : (K → V → S → V × S × Bool) → Map K V → S → Map K V × S
  unfolding each_object_entry with_entries
  each_object fn m s =
      let (l, s') = each_object_entry fn (entries m.items) s in
      (record { items = with_entries m.items l }, s')
