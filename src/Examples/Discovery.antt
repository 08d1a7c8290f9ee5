-- ===== src/Examples/Discovery.antt =====
-- Two services that depend on each other.
use health.Base.{
  arith, false, if◌then◌else◌, some, String, string_eq, true, [], ◌=?◌, ◌∷◌, ◌≡◌, ◌↔◌, ℕ,
}
use health.Discovery.Traverse.{
  dependencies_of, discover_graph, Fetch, http_urls, is_http_url, node_of,
}
use health.Discovery.Traverse.Termination.{cost, levels_left, sum_over}
use health.Discovery.Types.{CheckEntry, Graph, Manifest, Node}
use health.Base.Int.{pos, ◌≤ℤ◌}
use health.Base.Assoc.{IsDistinct, lookup}
use health.Discovery.Traverse.Sound.{Chain}
use health.Discovery.Traverse.Complete.{discover_graph_correct}

abbrev entry_on : String → CheckEntry
entry_on url = record {
  name = "peer";
  status = "healthy";
  group = "";
  component_type = "";
  affects_liveness = false;
  affects_readiness = true;
  affects_startup = false;
  depends_on = url ∷ "postgres" ∷ [];
  duration = "";
  last_check = "";
  error = "";
}

abbrev manifest_on : String → Manifest
manifest_on url = record {
  service = "s";
  version = "1";
  status = "pass";
  checks = entry_on url ∷ [];
  timestamp = pos 0;
}

abbrev circle : Fetch
circle url =
    if url =? "http://a" then some (manifest_on "http://b") else some (manifest_on "http://a")

discover_graph_correct_example :
    (g : Graph) × (discover_graph circle (pos 1) 20 "http://a" (pos 3) ≡ some g)
    × IsDistinct g.nodes
    × ((url : String) (node : Node)
        → (lookup url g.nodes ≡ some node) ↔ (
            (node ≡ node_of url (circle url))
            × ((d : ℕ) × (pos d ≤ℤ pos 1) × Chain circle "http://a" d url)))
unfolding cost sum_over levels_left node_of dependencies_of http_urls is_http_url
discover_graph_correct_example =
    discover_graph_correct circle (pos 1) "http://a" (pos 3) 20 (omega arith)
