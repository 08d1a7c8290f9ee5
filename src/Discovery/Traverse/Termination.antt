-- ===== src/Discovery/Traverse/Termination.antt =====
-- The traversal ends, also where services depend on each other in a circle: the items that can ever
-- be queued are no more than the nodes of the tree of dependencies, cut at the greatest depth.
use health.Base.{
  arith, Bool-cases, false, inl, inr, is_some, List, refl, String, string_eq, suc, true, zero, ℕ,
  [], ◌++◌, ◌+◌, ◌-◌, ◌<◌, ◌∷◌, ◌≡◌, ◌≤◌,
}
use health.Discovery.Types.{Node}
use health.Base.Int.{lt_int, negsuc, pos, ℤ}
use health.Discovery.Traverse.{
  discover_graph, Fetch, node_of, queue_items, QueueItem, traverse, visit,
}
use health.Base.Assoc.{Assoc}
use health.Base.Assoc.Count.{has_key}

-- The sum of a cost over a list.
unfoldable pub sum_over {ℓ} : {A : Type ℓ} → (A → ℕ) → List A → ℕ
sum_over f [] = 0
sum_over f (x ∷ xs) = f x + sum_over f xs

pub sum_over-append {ℓ} :
    {A : Type ℓ} (f : A → ℕ) (xs ys : List A)
    → sum_over f (xs ++ ys) ≡ sum_over f xs + sum_over f ys
unfolding sum_over
sum_over-append f [] ys = omega arith
sum_over-append f (x ∷ xs) ys = omega (arith, sum_over-append f xs ys)

-- How many more levels may be fetched below an item.
unfoldable pub levels_left : ℤ → ℕ → ℕ
levels_left (pos n) depth = suc n - depth
levels_left (negsuc n) depth = 0

levels_left-suc :
    (max_depth : ℤ) (depth : ℕ)
    → lt_int max_depth (pos depth) ≡ false
    → levels_left max_depth depth ≡ suc (levels_left max_depth (suc depth))
unfolding levels_left
levels_left-suc (pos n) depth near = ground arith
levels_left-suc (negsuc n) depth near = absurd (ground arith)

module _ (fetch : Fetch) where
  -- The items that one item can lead to, itself included, with so many levels left.
  unfoldable pub cost : ℕ → String → ℕ
  unfolding sum_over
  cost zero url = 1
  cost (suc k) url = suc (sum_over (cost k) (node_of url (fetch url)).dependencies)

module _ (fetch : Fetch) (max_depth : ℤ) where
  unfoldable pub item_cost : QueueItem → ℕ
  unfolding cost levels_left
  item_cost item = cost fetch (levels_left max_depth item.depth) item.url

  item_cost_pos : (item : QueueItem) → 0 < item_cost item
  unfolding item_cost
  item_cost_pos item = cost_pos (levels_left max_depth item.depth) item.url
    where
      cost_pos : (k : ℕ) (url : String) → 0 < cost fetch k url
      cost_pos zero url = omega arith
      cost_pos (suc k) url = omega arith

  cost-queue_items :
      (depth : ℕ) (deps : List String)
      → sum_over item_cost (queue_items depth deps)
        ≡ sum_over (cost fetch (levels_left max_depth depth)) deps
  unfolding sum_over queue_items item_cost
  cost-queue_items depth [] = refl
  cost-queue_items depth (dep ∷ deps) = omega (arith, cost-queue_items depth deps)

  item_cost-near :
      (item : QueueItem)
      → lt_int max_depth (pos item.depth) ≡ false
      → item_cost item
        ≡ suc (
            sum_over
              (cost fetch (levels_left max_depth (suc item.depth)))
              (node_of item.url (fetch item.url)).dependencies)
  unfolding item_cost
  item_cost-near item near = rw (levels_left-suc max_depth item.depth near)

  -- A visit pays with the item for all that it queues.
  visit-cost :
      (item : QueueItem) (queue : List QueueItem) (nodes : Assoc String Node)
      → suc (sum_over item_cost (visit fetch max_depth item queue nodes).0)
        ≤ item_cost item + sum_over item_cost queue
  unfolding visit
  visit-cost item queue nodes = elim (Bool-cases (has_key item.url nodes)) [
    | inl seen ↦ rw seen (omega (arith, item_cost_pos item))
    | inr unseen ↦ rw unseen (elim (Bool-cases (lt_int max_depth (pos item.depth))) [
      | inl deep ↦ rw deep (omega (arith, item_cost_pos item))
      | inr near ↦ rw near (
          let deps = (node_of item.url (fetch item.url)).dependencies in
          omega (
            arith,
            sum_over-append item_cost queue (queue_items (suc item.depth) deps),
            cost-queue_items (suc item.depth) deps,
            item_cost-near item near,
          ))
    ])
  ]

  -- With as much fuel as the queue costs, the loop ends.
  traverse_total :
      (fuel : ℕ) (queue : List QueueItem) (nodes : Assoc String Node)
      → sum_over item_cost queue ≤ fuel
      → is_some (traverse fetch max_depth fuel queue nodes) ≡ true
  unfolding traverse sum_over
  traverse_total fuel [] nodes h = refl
  traverse_total zero (item ∷ queue) nodes h = absurd (omega (arith, item_cost_pos item))
  traverse_total (suc fuel) (item ∷ queue) nodes h =
      let v = visit fetch max_depth item queue nodes in
      traverse_total fuel v.0 v.1 (omega (arith, visit-cost item queue nodes))

  -- `DiscoverGraph` returns a graph from every root, for all answers of the services and every
  -- greatest depth, once the loop has run for the cost of the root.
  pub discover_graph_total :
      (root : String) (now : ℤ) (fuel : ℕ)
      → cost fetch (levels_left max_depth 0) root ≤ fuel
      → is_some (discover_graph fetch max_depth fuel root now) ≡ true
  unfolding discover_graph
  discover_graph_total root now fuel h = ground (
    arith,
    traverse_total fuel (record { url = root; depth = 0 } ∷ []) []
        (unfold sum_over item_cost in omega arith),
  )
