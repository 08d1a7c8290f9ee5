-- ===== src/Discovery/Traverse/Covered.antt =====
-- What the traversal has still to visit: an address is in the graph, waits or is too deep.
use mathlib.Core.List.{Memᴰ}
use health.Base.{
  String, ℕ, List, ◌∷◌, ◌++◌, if◌then◌else◌, ◌≡◌, inl, inr, ◌=?◌, ◌≤◌, [], sym, Bool-cases,
  string_eq, ◌⊎◌, arith, true, false, subst, eq_iff, refl,
}
use health.Discovery.Traverse.{queue_items, Fetch, QueueItem, node_of}
use health.Base.Int.{ℤ, lt_int, pos}
use health.Base.Assoc.{Assoc, insert}
use health.Discovery.Types.{Node}
use health.Base.Assoc.Count.{has_key}
use health.Base.Assoc.Laws.{lookup-insert}

-- An item for an address waits at a depth of at most `n`.
abbrev Waiting : String → ℕ → List QueueItem → Type 0
Waiting u n [] = ⊥
Waiting u n (i ∷ q) = ((i.url ≡ u) × (i.depth ≤ n)) ⊎ Waiting u n q

Waiting-append_left :
    (u : String) (n : ℕ) (q r : List QueueItem) → Waiting u n q → Waiting u n (q ++ r)
Waiting-append_left u n [] r h = absurd h
Waiting-append_left u n (i ∷ q) r (inl h) = inl h
Waiting-append_left u n (i ∷ q) r (inr h) = inr (Waiting-append_left u n q r h)

pub Waiting-append_right :
    (u : String) (n : ℕ) (q r : List QueueItem) → Waiting u n r → Waiting u n (q ++ r)
Waiting-append_right u n [] r h = h
Waiting-append_right u n (i ∷ q) r h = inr (Waiting-append_right u n q r h)

pub Waiting-queue_items :
    (u : String) (n : ℕ) (deps : List String) → Memᴰ u deps → Waiting u n (queue_items n deps)
unfolding queue_items
Waiting-queue_items u n [] m = elim m [ ]
Waiting-queue_items u n (dep ∷ deps) (Memᴰ.head e) = inl (sym e, omega arith)
Waiting-queue_items u n (dep ∷ deps) (Memᴰ.tail m) = inr (Waiting-queue_items u n deps m)

module _ (fetch : Fetch) (max_depth : ℤ) where
  abbrev pub deps_of : String → List String
  deps_of u = (node_of u (fetch u)).dependencies

  -- An address is in the graph from a depth of at most `n`, or waits at such a depth, or `n` is
  -- too deep. `level` is the depth from which a node was found.
  abbrev pub Covered : (String → ℕ) → List QueueItem → Assoc String Node → String → ℕ → Type 0
  Covered level q nodes u n =
      ((has_key u nodes ≡ true) × (level u ≤ n)) ⊎ Waiting u n q ⊎ (lt_int max_depth (pos n) ≡ true)

  pub Covered-seen :
      (level : String → ℕ) (i : QueueItem) (q : List QueueItem) (nodes : Assoc String Node)
      (u : String) (n : ℕ)
      → has_key i.url nodes ≡ true
      → level i.url ≤ i.depth
      → Covered level (i ∷ q) nodes u n
      → Covered level q nodes u n
  Covered-seen level i q nodes u n seen le (inl h) = inl h
  Covered-seen level i q nodes u n seen le (inr (inr h)) = inr (inr h)
  Covered-seen level i q nodes u n seen le (inr (inl (inr w))) = inr (inl w)
  Covered-seen level i q nodes u n seen le (inr (inl (inl (e, d)))) =
      inl (subst (λ x. (has_key x nodes ≡ true) × (level x ≤ n)) e (seen, omega (arith, le, d)))

  pub Covered-deep :
      (level : String → ℕ) (i : QueueItem) (q : List QueueItem) (nodes : Assoc String Node)
      (u : String) (n : ℕ)
      → lt_int max_depth (pos i.depth) ≡ true
      → Covered level (i ∷ q) nodes u n
      → Covered level q nodes u n
  Covered-deep level i q nodes u n deep (inl h) = inl h
  Covered-deep level i q nodes u n deep (inr (inr h)) = inr (inr h)
  Covered-deep level i q nodes u n deep (inr (inl (inr w))) = inr (inl w)
  Covered-deep level i q nodes u n deep (inr (inl (inl (e, d)))) = inr (inr (ground arith))

  -- The levels once the item has become a node.
  abbrev pub with_level : (String → ℕ) → QueueItem → String → ℕ
  with_level level i u = if i.url =? u then i.depth else level u

  abbrev pub with_node : QueueItem → Assoc String Node → Assoc String Node
  with_node i nodes = insert i.url (node_of i.url (fetch i.url)) nodes

  pub has_key-with_node :
      (i : QueueItem) (nodes : Assoc String Node) (u : String)
      → has_key u (with_node i nodes) ≡ (if i.url =? u then true else has_key u nodes)
  has_key-with_node i nodes u =
      ground (arith, lookup-insert i.url u (node_of i.url (fetch i.url)) nodes)

  pub Covered-near :
      (level : String → ℕ) (i : QueueItem) (q r : List QueueItem) (nodes : Assoc String Node)
      (u : String) (n : ℕ)
      → has_key i.url nodes ≡ false
      → Covered level (i ∷ q) nodes u n
      → Covered (with_level level i) (q ++ r) (with_node i nodes) u n
  Covered-near level i q r nodes u n new (inl (k, d)) = elim (Bool-cases (i.url =? u)) [
    | inl same ↦ absurd (
        let e = (eq_iff i.url u).0 same in
        ground (arith, subst (λ x. has_key x nodes ≡ false) e new))
    | inr other ↦ inl (rw (has_key-with_node i nodes u, other, k) (refl, d))
  ]
  Covered-near level i q r nodes u n new (inr (inr h)) = inr (inr h)
  Covered-near level i q r nodes u n new (inr (inl (inr w))) =
      inr (inl (Waiting-append_left u n q r w))
  Covered-near level i q r nodes u n new (inr (inl (inl (e, d)))) =
      inl (rw (has_key-with_node i nodes u, (eq_iff i.url u).1 e) (refl, d))
