-- ===== src/Discovery/Traverse/Complete.antt =====
-- The traversal misses nothing: the graph holds every address within reach of the root.
use health.Discovery.Traverse.Sound.{link, start, Chain, discover_graph_sound, IsFound}
use health.Base.{
  String, ℕ, ◌∷◌, ◌≡◌, inl, inr, ◌≤◌, [], string_eq, arith, true, subst, refl, some, ◌↔◌,
  Option-cases,
}
use health.Discovery.Traverse.{Fetch, node_of, traverse, discover_graph}
use health.Base.Int.{ℤ, pos, ◌≤ℤ◌}
use health.Base.Assoc.{Assoc, lookup, IsDistinct}
use health.Discovery.Types.{Node, Graph}
use health.Base.Assoc.Count.{has_key}
use health.Discovery.Traverse.Sound.{Chain, start}
use health.Discovery.Traverse.Termination.{cost, levels_left, discover_graph_total}
use health.Discovery.Traverse.BreadthFirst.{
  IsBreadthFirst, traverse-IsBreadthFirst, start_IsBreadthFirst,
}

module _ (fetch : Fetch) (max_depth : ℤ) where
  -- With nothing left in the queue, each chain within the greatest depth leads to a node.
  Chain-covered :
      (root : String) (level : String → ℕ) (nodes : Assoc String Node)
      → IsBreadthFirst fetch max_depth root level [] nodes
      → {d : ℕ} {url : String} → Chain fetch root d url
      → pos d ≤ℤ max_depth
      → (has_key url nodes ≡ true) × (level url ≤ d)
  Chain-covered root level nodes h (start u e) w = elim h.rooted [
    | inl found ↦ rw e found
    | inr (inl waiting) ↦ absurd waiting
    | inr (inr deep) ↦ absurd (ground arith)
  ]
  Chain-covered root level nodes h (link {d} {url} dep c m) w =
      let (k, le) = Chain-covered root level nodes h c (ground arith) in
      elim (h.closed url dep k m) [
        | inl found ↦ (found.0, omega (arith, found.1, le))
        | inr (inl waiting) ↦ absurd waiting
        | inr (inr deep) ↦ absurd (ground arith)
      ]

  -- The graph that `DiscoverGraph` returns has a node for an address exactly if a chain of followed
  -- dependencies, no longer than the greatest depth, leads from the root to it.
  pub discover_graph_iff :
      (root : String) (fuel : ℕ) (now : ℤ) (g : Graph)
      → discover_graph fetch max_depth fuel root now ≡ some g
      → (url : String)
      → (has_key url g.nodes ≡ true) ↔ ((d : ℕ) × (pos d ≤ℤ max_depth) × Chain fetch root d url)
  unfolding discover_graph
  discover_graph_iff root fuel now g e url =
      elim (Option-cases
        (traverse fetch max_depth fuel (record { url = root; depth = 0 } ∷ []) [])) [
          | inl nothing ↦ absurd (ground arith)
          | inr found ↦
              let (nodes, f) = found in
              let same : nodes ≡ g.nodes = ground arith in
              let (level, h) =
                traverse-IsBreadthFirst fetch max_depth root fuel (λ u. 0)
                  (record { url = root; depth = 0 } ∷ []) [] nodes
                  (start_IsBreadthFirst fetch max_depth root) f in
              (
                λ k. elim (Option-cases (lookup url g.nodes)) [
                  | inl none_there ↦ absurd (ground arith)
                  | inr there ↦
                      let (all, _, _) =
                        discover_graph_sound fetch max_depth root fuel now g
                          (unfold discover_graph in e) in
                      let i = all url there.0 there.1 in (i.depth, i.within, i.chain)
                ],
                λ c.
                    let (d, w, chain) = c in
                    subst (λ x. has_key url x ≡ true) same
                      (Chain-covered root level nodes h chain w).0,
              )
        ]

  -- The node of an address that the graph has is its answer.
  at_key :
      (url : String) (node : Node) (g : Graph) (root : String)
      → node ≡ node_of url (fetch url)
      → ((n : Node) → lookup url g.nodes ≡ some n → IsFound fetch max_depth root url n)
      → has_key url g.nodes ≡ true
      → lookup url g.nodes ≡ some node
  at_key url node g root same all k = elim (Option-cases (lookup url g.nodes)) [
    | inl none_there ↦ absurd (ground arith)
    | inr (n, there) ↦ rw (there, same, (all n there).answer) refl
  ]

  -- `DiscoverGraph`, once the loop has run for the cost of the root, returns a graph in which every
  -- address stands once. An address has a node exactly if a chain of followed dependencies, no
  -- longer than the greatest depth, leads from the root to it, and the node is the one that the
  -- answer of that address calls for ("unknown" where there was no answer).
  pub discover_graph_correct :
      (root : String) (now : ℤ) (fuel : ℕ)
      → cost fetch (levels_left max_depth 0) root ≤ fuel
      → (g : Graph) × (discover_graph fetch max_depth fuel root now ≡ some g)
        × IsDistinct g.nodes
        × ((url : String) (node : Node)
            → (lookup url g.nodes ≡ some node) ↔ (
                (node ≡ node_of url (fetch url))
                × ((d : ℕ) × (pos d ≤ℤ max_depth) × Chain fetch root d url)))
  discover_graph_correct root now fuel enough =
      elim (Option-cases (discover_graph fetch max_depth fuel root now)) [
        | inl nothing ↦
            absurd (ground (arith, discover_graph_total fetch max_depth root now fuel enough))
        | inr (g, e) ↦
            let (all, distinct, _) = discover_graph_sound fetch max_depth root fuel now g e in
            let held = discover_graph_iff root fuel now g e in
            (
              g,
              e,
              distinct,
              λ url node. (
                λ p. let i = all url node p in (i.answer, (i.depth, i.within, i.chain)),
                λ (same, chain). at_key url node g root same (all url) ((held url).1 chain),
              ),
            )
      ]
