-- ===== src/Discovery/Traverse/Sound.antt =====
-- What the graph holds: addresses within reach of the root, each once, with the node that its fetch
-- calls for.
use mathlib.Core.List.{Memᴰ}
use health.Base.{
  All, All-append, arith, Bool-cases, eq_iff, inl, inr, List, Option-cases, refl, some, String,
  string_eq, subst, suc, zero, ℕ, [], ◌=?◌, ◌∷◌, ◌≡◌,
}
use health.Discovery.Types.{Graph, Node}
use health.Discovery.Traverse.{
  discover_graph, Fetch, node_of, queue_items, QueueItem, traverse, visit,
}
use health.Base.Int.{lt_int, pos, ℤ, ◌≤ℤ◌}
use health.Base.Assoc.{Assoc, insert, IsDistinct, lookup}
use health.Base.Assoc.Count.{has_key}
use health.Base.Assoc.Laws.{insert-IsDistinct, lookup-insert}

module _ (fetch : Fetch) (root : String) where
  -- A chain of followed dependencies from the root, of so many links.
  pub data Chain : ℕ → String → Type 0 where
    start : (url : String) → url ≡ root → Chain 0 url
    link :
        {d : ℕ} {url : String} (dep : String)
        → Chain d url
        → Memᴰ dep (node_of url (fetch url)).dependencies
        → Chain (suc d) dep

module _ (fetch : Fetch) (max_depth : ℤ) (root : String) where
  -- A node of the graph: what its address answers, and a chain to it within the greatest depth.
  pub record IsFound (url : String) (node : Node) : Type 0 where
    pub answer : node ≡ node_of url (fetch url)
    pub depth : ℕ
    pub within : pos depth ≤ℤ max_depth
    pub chain : Chain fetch root depth url

  abbrev pub AllFound : Assoc String Node → Type 0
  AllFound nodes = (url : String) (node : Node) → lookup url nodes ≡ some node → IsFound url node

  abbrev Queued : QueueItem → Type 0
  Queued item = Chain fetch root item.depth item.url

  Queued-deps :
      (d : ℕ) (url : String) (deps : List String)
      → Chain fetch root d url
      → ((dep : String) → Memᴰ dep deps → Memᴰ dep (node_of url (fetch url)).dependencies)
      → All Queued (queue_items (suc d) deps)
  unfolding queue_items
  Queued-deps d url [] c h = tt
  Queued-deps d url (dep ∷ deps) c h =
      (link dep c (h dep (Memᴰ.head refl)), Queued-deps d url deps c (λ x m. h x (Memᴰ.tail m)))

  insert-AllFound :
      (item : QueueItem) (nodes : Assoc String Node)
      → pos item.depth ≤ℤ max_depth
      → Queued item
      → AllFound nodes
      → AllFound (insert item.url (node_of item.url (fetch item.url)) nodes)
  insert-AllFound item nodes w c h url node p = elim (Bool-cases (item.url =? url)) [
    | inl same ↦
        let e = (eq_iff item.url url).0 same in
        record {
          answer =
              ground
                (arith, lookup-insert item.url url (node_of item.url (fetch item.url)) nodes, e);
          depth = item.depth;
          within = w;
          chain = subst (Chain fetch root item.depth) e c;
        }
    | inr other ↦
        h url node
          (ground (arith, lookup-insert item.url url (node_of item.url (fetch item.url)) nodes))
  ]

  -- The loop keeps what it found, and queues only what a chain leads to.
  record IsSoundState (queue : List QueueItem) (nodes : Assoc String Node) : Type 0 where
    queued : All Queued queue
    found : AllFound nodes
    distinct : IsDistinct nodes

  visit-IsSoundState :
      (item : QueueItem) (queue : List QueueItem) (nodes : Assoc String Node)
      → Queued item
      → IsSoundState queue nodes
      → IsSoundState
          (visit fetch max_depth item queue nodes).0
          (visit fetch max_depth item queue nodes).1
  unfolding visit
  visit-IsSoundState item queue nodes c s = elim (Bool-cases (has_key item.url nodes)) [
    | inl seen ↦ rw seen s
    | inr unseen ↦ rw unseen (elim (Bool-cases (lt_int max_depth (pos item.depth))) [
      | inl deep ↦ rw deep s
      | inr near ↦ rw near (
          let node = node_of item.url (fetch item.url) in
          record {
            queued =
                All-append Queued queue (queue_items (suc item.depth) node.dependencies) s.queued
                  (Queued-deps item.depth item.url node.dependencies c (λ dep m. m));
            found = insert-AllFound item nodes (ground arith) c s.found;
            distinct = insert-IsDistinct item.url node nodes s.distinct;
          })
    ])
  ]

  traverse_sound :
      (fuel : ℕ) (queue : List QueueItem) (nodes out : Assoc String Node)
      → IsSoundState queue nodes
      → traverse fetch max_depth fuel queue nodes ≡ some out
      → AllFound out × IsDistinct out
  unfolding traverse
  traverse_sound fuel [] nodes out s e =
      let same : nodes ≡ out = cc in
      subst (λ x. AllFound x × IsDistinct x) same (s.found, s.distinct)
  traverse_sound zero (item ∷ queue) nodes out s e = absurd (cc)
  traverse_sound (suc fuel) (item ∷ queue) nodes out s e =
      let v = visit fetch max_depth item queue nodes in
      let rest : IsSoundState queue nodes = record {
        queued = s.queued.1;
        found = s.found;
        distinct = s.distinct;
      } in
      traverse_sound fuel v.0 v.1 out (visit-IsSoundState item queue nodes s.queued.0 rest) e

  start_state : IsSoundState (record { url = root; depth = 0 } ∷ []) []
  unfolding lookup
  start_state = record {
    queued = (start root refl, tt);
    found = λ url node p. absurd (cc);
    distinct = tt;
  }

  -- Every node of the graph that `DiscoverGraph` returns stands under its own address, has the
  -- contents that the answer of that address calls for ("unknown" where there was no answer), and
  -- is reached from the root by a chain of followed dependencies no longer than the greatest depth.
  pub discover_graph_sound :
      (fuel : ℕ) (now : ℤ) (g : Graph)
      → discover_graph fetch max_depth fuel root now ≡ some g
      → AllFound g.nodes × IsDistinct g.nodes × (g.root ≡ root)
  unfolding discover_graph
  discover_graph_sound fuel now g e =
      elim (Option-cases
        (traverse fetch max_depth fuel (record { url = root; depth = 0 } ∷ []) [])) [
          | inl nothing ↦ absurd (ground arith)
          | inr found ↦
              let (nodes, f) = found in
              let same : record { root = root; nodes = nodes; timestamp = now } ≡ g =
                ground arith in
              let (a, d) =
                traverse_sound fuel (record { url = root; depth = 0 } ∷ []) [] nodes start_state
                  f in
              subst (λ x. AllFound x.nodes × IsDistinct x.nodes × (x.root ≡ root)) same (a, d, refl)
        ]
