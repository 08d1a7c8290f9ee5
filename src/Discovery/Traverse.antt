-- ===== src/Discovery/Traverse.antt =====
-- discovery/discover.go: `DiscoverGraph`. What one fetch of a manifest gives at each address is an
-- argument, since it is another service's answer; an address is fetched once at most.
pub mod Termination
pub mod Sound
pub mod Order
pub mod Covered
pub mod BreadthFirst
pub mod Complete
use text.Mathlib.Text.{starts_with}
use health.Base.{
  Bool, if◌then◌else◌, List, none, Option, some, String, string_eq, suc, zero, ℕ, [], ◌++◌, ◌||◌,
  ◌∷◌,
}
use health.Discovery.Types.{CheckEntry, Graph, Manifest, Node}
use health.Base.Int.{lt_int, pos, ℤ}
use health.Base.Assoc.{Assoc, insert}
use health.Base.Assoc.Count.{has_key}

-- `FetchManifest` at each address: `none` stands for its error.
abbrev pub Fetch : Type 0
Fetch = String → Option Manifest

unfoldable pub is_http_url : String → Bool
is_http_url s = starts_with s "http://" || starts_with s "https://"

pub record QueueItem : Type 0 where
  pub url : String
  pub depth : ℕ

-- The inner loop: the dependencies of one check that are followed.
unfoldable pub http_urls : List String → List String
unfolding is_http_url
http_urls [] = []
http_urls (dep ∷ deps) = let rest = http_urls deps in if is_http_url dep then dep ∷ rest else rest

-- Both loops over the checks of a manifest: `node.Dependencies`.
unfoldable pub dependencies_of : List CheckEntry → List String
unfolding http_urls
dependencies_of [] = []
dependencies_of (check ∷ checks) = http_urls check.depends_on ++ dependencies_of checks

-- What the traversal queues for the node.
unfoldable pub queue_items : ℕ → List String → List QueueItem
queue_items depth [] = []
queue_items depth (dep ∷ deps) = record { url = dep; depth = depth } ∷ queue_items depth deps

unfoldable pub node_of : String → Option Manifest → Node
unfolding dependencies_of
node_of url none = record {
  service = "";
  url = url;
  status = "unknown";
  checks = [];
  dependencies = [];
}
node_of url (some m) = record {
  service = m.service;
  url = url;
  status = m.status;
  checks = m.checks;
  dependencies = dependencies_of m.checks;
}

module _ (fetch : Fetch) (max_depth : ℤ) where
  -- The body of the loop for the first item of the queue.
  unfoldable pub visit :
      QueueItem → List QueueItem → Assoc String Node → List QueueItem × Assoc String Node
  unfolding node_of queue_items
  visit item queue nodes =
      if has_key item.url nodes
      then (queue, nodes)
      else if lt_int max_depth (pos item.depth)
      then (queue, nodes)
      else (
        queue ++ queue_items (suc item.depth) (node_of item.url (fetch item.url)).dependencies,
        insert item.url (node_of item.url (fetch item.url)) nodes,
      )

  -- `for len(queue) > 0`, on fuel.
  unfoldable pub traverse : ℕ → List QueueItem → Assoc String Node → Option (Assoc String Node)
  unfolding visit
  traverse fuel [] nodes = some nodes
  traverse zero (item ∷ queue) nodes = none
  traverse (suc fuel) (item ∷ queue) nodes =
      let (queue', nodes') = visit item queue nodes in traverse fuel queue' nodes'

  -- `DiscoverGraph`, at the instant `now`.
  unfoldable pub discover_graph : ℕ → String → ℤ → Option Graph
  unfolding traverse
  discover_graph fuel root now =
      mathlib.Core.Option.map (λ nodes. record { root = root; nodes = nodes; timestamp = now })
        (traverse fuel (record { url = root; depth = 0 } ∷ []) [])
