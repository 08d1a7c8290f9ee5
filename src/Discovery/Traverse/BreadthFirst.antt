-- ===== src/Discovery/Traverse/BreadthFirst.antt =====
-- The invariant of the breadth-first traversal, and that visiting an item keeps it.
use mathlib.Core.List.{Memᴰ}
use health.Base.{
  String, ℕ, List, ◌∷◌, ◌++◌, ◌≡◌, inl, inr, ◌=?◌, ◌≤◌, [], sym, Bool-cases, string_eq, arith, true,
  false, suc, All, subst, eq_iff, refl, some, zero,
}
use health.Discovery.Traverse.{queue_items, Fetch, QueueItem, visit, traverse}
use health.Base.Int.{ℤ, lt_int, pos}
use health.Base.Assoc.{Assoc, lookup}
use health.Discovery.Types.{Node}
use health.Base.Assoc.Count.{has_key}
use health.Discovery.Traverse.Order.{
  IsNarrow-tail, IsSorted, IsNarrow, visit-All, visit-IsSorted, visit-IsNarrow,
}
use health.Discovery.Traverse.Covered.{
  Covered, Covered-seen, Covered-deep, Covered-near, Waiting-append_right, Waiting-queue_items,
  deps_of, with_level, with_node, has_key-with_node,
}

module _ (fetch : Fetch) (max_depth : ℤ) where
  pub record IsBreadthFirst (root : String) (level : String → ℕ) (q : List QueueItem)
      (nodes : Assoc String Node) : Type 0 where
    pub rooted : Covered fetch max_depth level q nodes root 0
    pub closed :
        (u dep : String)
        → has_key u nodes ≡ true
        → Memᴰ dep (deps_of fetch max_depth u)
        → Covered fetch max_depth level q nodes dep (suc (level u))
    below : (u : String) → has_key u nodes ≡ true → All (λ (j : QueueItem). level u ≤ j.depth) q
    sorted : IsSorted q
    narrow : IsNarrow q

  module _ (root : String) (level : String → ℕ) (i : QueueItem) (q : List QueueItem)
      (nodes : Assoc String Node) where
    abbrev next_queue : List QueueItem
    next_queue = q ++ queue_items (suc i.depth) (deps_of fetch max_depth i.url)

    old_key :
        (u : String)
        → (i.url =? u) ≡ false
        → has_key u (with_node fetch max_depth i nodes) ≡ true
        → has_key u nodes ≡ true
    old_key u other k = ground (arith, has_key-with_node fetch max_depth i nodes u)

    near_closed :
        IsBreadthFirst root level (i ∷ q) nodes
        → has_key i.url nodes ≡ false
        → (u dep : String) → has_key u (with_node fetch max_depth i nodes) ≡ true
        → Memᴰ dep (deps_of fetch max_depth u)
        → Covered fetch max_depth
            (with_level fetch max_depth level i)
            next_queue
            (with_node fetch max_depth i nodes)
            dep
            (suc (with_level fetch max_depth level i u))
    near_closed h new u dep k m = elim (Bool-cases (i.url =? u)) [
      | inl same ↦
          let m' =
            subst (λ x. Memᴰ dep (deps_of fetch max_depth x)) (sym ((eq_iff i.url u).0 same)) m in
          rw same (
            inr (
              inl (
                Waiting-append_right dep (suc i.depth) q
                  (queue_items (suc i.depth) (deps_of fetch max_depth i.url))
                  (Waiting-queue_items dep (suc i.depth) (deps_of fetch max_depth i.url) m'))))
      | inr other ↦ rw other (
          Covered-near fetch max_depth level i q
            (queue_items (suc i.depth) (deps_of fetch max_depth i.url)) nodes dep (suc (level u))
            new (h.closed u dep (old_key u other k) m))
    ]

    near_below :
        IsBreadthFirst root level (i ∷ q) nodes
        → (u : String) → has_key u (with_node fetch max_depth i nodes) ≡ true
        → All (λ (j : QueueItem). with_level fetch max_depth level i u ≤ j.depth) next_queue
    near_below h u k = elim (Bool-cases (i.url =? u)) [
      | inl same ↦
          rw same (visit-All i.depth i q (deps_of fetch max_depth i.url) (omega arith, h.sorted.0))
      | inr other ↦
          rw other (
            visit-All (level u) i q (deps_of fetch max_depth i.url) (h.below u (old_key u other k)))
    ]

    near_IsBreadthFirst :
        IsBreadthFirst root level (i ∷ q) nodes
        → has_key i.url nodes ≡ false
        → IsBreadthFirst root
            (with_level fetch max_depth level i)
            next_queue
            (with_node fetch max_depth i nodes)
    near_IsBreadthFirst h new = record {
      rooted =
          Covered-near fetch max_depth level i q
            (queue_items (suc i.depth) (deps_of fetch max_depth i.url)) nodes root 0 new h.rooted;
      closed = near_closed h new;
      below = near_below h;
      sorted = visit-IsSorted i q (deps_of fetch max_depth i.url) h.sorted h.narrow;
      narrow = visit-IsNarrow i q (deps_of fetch max_depth i.url) h.sorted h.narrow;
    }

  visit-IsBreadthFirst :
      (root : String) (level : String → ℕ) (i : QueueItem) (q : List QueueItem)
      (nodes : Assoc String Node)
      → IsBreadthFirst root level (i ∷ q) nodes
      → (level' : String → ℕ) × IsBreadthFirst root level'
          (visit fetch max_depth i q nodes).0
          (visit fetch max_depth i q nodes).1
  unfolding visit
  visit-IsBreadthFirst root level i q nodes h = elim (Bool-cases (has_key i.url nodes)) [
    | inl seen ↦ rw seen (
      level,
      record {
        rooted =
            Covered-seen fetch max_depth level i q nodes root 0 seen (h.below i.url seen).0
              h.rooted;
        closed = λ u dep k m.
            Covered-seen fetch max_depth level i q nodes dep (suc (level u)) seen
              (h.below i.url seen).0 (h.closed u dep k m);
        below = λ u k. (h.below u k).1;
        sorted = h.sorted.1;
        narrow = IsNarrow-tail i q h.sorted h.narrow;
      },
    )
    | inr new ↦ rw new (elim (Bool-cases (lt_int max_depth (pos i.depth))) [
      | inl deep ↦ rw deep (
        level,
        record {
          rooted = Covered-deep fetch max_depth level i q nodes root 0 deep h.rooted;
          closed = λ u dep k m.
              Covered-deep fetch max_depth level i q nodes dep (suc (level u)) deep
                (h.closed u dep k m);
          below = λ u k. (h.below u k).1;
          sorted = h.sorted.1;
          narrow = IsNarrow-tail i q h.sorted h.narrow;
        },
      )
      | inr near ↦
          rw near
            (with_level fetch max_depth level i, near_IsBreadthFirst root level i q nodes h new)
    ])
  ]

  pub traverse-IsBreadthFirst :
      (root : String) (fuel : ℕ) (level : String → ℕ) (q : List QueueItem)
      (nodes out : Assoc String Node)
      → IsBreadthFirst root level q nodes
      → traverse fetch max_depth fuel q nodes ≡ some out
      → (level' : String → ℕ) × IsBreadthFirst root level' [] out
  unfolding traverse
  traverse-IsBreadthFirst root fuel level [] nodes out h e =
      let same : nodes ≡ out = cc in (level, subst (IsBreadthFirst root level []) same h)
  traverse-IsBreadthFirst root zero level (i ∷ q) nodes out h e = absurd (cc)
  traverse-IsBreadthFirst root (suc fuel) level (i ∷ q) nodes out h e =
      let v = visit fetch max_depth i q nodes in
      let (level', h') = visit-IsBreadthFirst root level i q nodes h in
      traverse-IsBreadthFirst root fuel level' v.0 v.1 out h' e

  pub start_IsBreadthFirst :
      (root : String) → IsBreadthFirst root (λ u. 0) (record { url = root; depth = 0 } ∷ []) []
  unfolding lookup
  start_IsBreadthFirst root = record {
    rooted = inr (inl (inl (refl, omega arith)));
    closed = λ u dep k m. absurd (cc);
    below = λ u k. absurd (cc);
    sorted = (tt, tt);
    narrow = tt;
  }
