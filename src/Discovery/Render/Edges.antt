-- ===== src/Discovery/Render/Edges.antt =====
-- Every node and every dependency is in the text.
use mathlib.Core.List.{Memᴰ}
use text.Mathlib.TextLemmas.{append_assoc}
use health.Base.{if◌then◌else◌, ◌=?◌, string_eq, String, ◌≡◌, sym, ap, ◌∙◌, List, [], ◌∷◌, subst}
use health.Base.Assoc.{Assoc}
use health.Errors.{concat}
use health.Discovery.Types.{Node}
use health.Discovery.Render.Ids.{IsPlain, sanitize_id-IsPlain}
use health.Discovery.Render.{
  dot, dot_edges, dot_node, dot_nodes, edge_line, edge_lines, mermaid, mermaid_body, mermaid_node,
  dot_color, label_of, mermaid_style, sanitize_id,
}

-- The text has the other one somewhere in it.
pub record Contains (t s : String) : Type 0 where
  pub before : String
  pub after : String
  pub split : t ≡ concat before (concat s after)

Contains-head : (s t : String) → Contains (concat s t) s
Contains-head s t = record {
  before = "";
  after = t;
  split = sym (Prim.Native.String.append.nil (concat s t));
}

Contains-tail : (a t s : String) → Contains t s → Contains (concat a t) s
Contains-tail a t s c = record {
  before = concat a c.before;
  after = c.after;
  split = ap (concat a) c.split ∙ sym (append_assoc a c.before (concat s c.after));
}

-- The first part of a text that is contained.
Contains-part : (t a b : String) → Contains t (concat a b) → Contains t a
Contains-part t a b c = record {
  before = c.before;
  after = concat b c.after;
  split = c.split ∙ ap (concat c.before) (append_assoc a b c.after);
}

-- The line of a node in DOT, cut behind its label.
dot_node-split :
    (url : String) (node : Node)
    → dot_node url node
      ≡ concat
          (concat "    " (
            concat
              (sanitize_id url)
              (concat " [label=\"" (concat (label_of url node) "\", fillcolor=\""))))
          (concat (dot_color node.status) "\", fontcolor=\"white\"];\n")
unfolding dot_node
dot_node-split url node =
    let color = concat (dot_color node.status) "\", fontcolor=\"white\"];\n" in
    let quoted = concat (label_of url node) "\", fillcolor=\"" in
    sym (
      append_assoc "    " (concat (sanitize_id url) (concat " [label=\"" quoted)) color
      ∙ ap (concat "    ") (
          append_assoc (sanitize_id url) (concat " [label=\"" quoted) color
          ∙ ap (concat (sanitize_id url)) (
              append_assoc " [label=\"" quoted color
              ∙ ap (concat " [label=\"")
                  (append_assoc (label_of url node) "\", fillcolor=\"" color))))

module _ (arrow ending : String) where
  Contains-edge_lines :
      (id : String) (deps : List String) (after dep : String)
      → Memᴰ dep deps
      → Contains (edge_lines arrow ending id deps after) (edge_line arrow ending id dep)
  unfolding edge_lines
  Contains-edge_lines id [] after dep m = elim m [ ]
  Contains-edge_lines id (d ∷ deps) after dep (Memᴰ.head e) =
      rw e (Contains-head (edge_line arrow ending id d) (edge_lines arrow ending id deps after))
  Contains-edge_lines id (d ∷ deps) after dep (Memᴰ.tail m) =
      Contains-tail (edge_line arrow ending id d) (edge_lines arrow ending id deps after)
        (edge_line arrow ending id dep) (Contains-edge_lines id deps after dep m)

  Contains-after :
      (id : String) (deps : List String) (after s : String)
      → Contains after s
      → Contains (edge_lines arrow ending id deps after) s
  unfolding edge_lines
  Contains-after id [] after s c = c
  Contains-after id (d ∷ deps) after s c =
      Contains-tail (edge_line arrow ending id d) (edge_lines arrow ending id deps after) s
        (Contains-after id deps after s c)

-- What is said of an entry holds of an equal one.
along :
    {t : String} (f : String → Node → String) (p q : String × Node)
    → p ≡ q
    → Contains t (f q.0 q.1)
    → Contains t (f p.0 p.1)
along {t} f p q e c = subst (λ (p : String × Node). Contains t (f p.0 p.1)) (sym e) c

module _ (url : String) (node : Node) where
  mermaid_body-node :
      (nodes : Assoc String Node)
      → Memᴰ (url, node) nodes
      → Contains (mermaid_body nodes) (mermaid_node url node)
  unfolding mermaid_body
  mermaid_body-node [] m = elim m [ ]
  mermaid_body-node ((k, v) ∷ nodes) (Memᴰ.head e) =
      along mermaid_node (url, node) (k, v) e
        (Contains-head (mermaid_node k v)
          (edge_lines " --> " "\n" (sanitize_id k) v.dependencies (mermaid_body nodes)))
  mermaid_body-node ((k, v) ∷ nodes) (Memᴰ.tail m) =
      Contains-tail (mermaid_node k v)
        (edge_lines " --> " "\n" (sanitize_id k) v.dependencies (mermaid_body nodes))
        (mermaid_node url node)
        (Contains-after " --> " "\n" (sanitize_id k) v.dependencies (mermaid_body nodes)
          (mermaid_node url node) (mermaid_body-node nodes m))

  dot_nodes-node :
      (nodes : Assoc String Node) (after : String)
      → Memᴰ (url, node) nodes
      → Contains (dot_nodes nodes after) (dot_node url node)
  unfolding dot_nodes
  dot_nodes-node [] after m = elim m [ ]
  dot_nodes-node ((k, v) ∷ nodes) after (Memᴰ.head e) =
      along dot_node (url, node) (k, v) e (Contains-head (dot_node k v) (dot_nodes nodes after))
  dot_nodes-node ((k, v) ∷ nodes) after (Memᴰ.tail m) =
      Contains-tail (dot_node k v) (dot_nodes nodes after) (dot_node url node)
        (dot_nodes-node nodes after m)

  module _ (dep : String) (d : Memᴰ dep node.dependencies) where
    mermaid_body-edge :
        (nodes : Assoc String Node)
        → Memᴰ (url, node) nodes
        → Contains (mermaid_body nodes) (edge_line " --> " "\n" (sanitize_id url) dep)
    unfolding mermaid_body
    mermaid_body-edge [] m = elim m [ ]
    mermaid_body-edge ((k, v) ∷ nodes) (Memᴰ.head e) =
        let line = edge_line " --> " "\n" (sanitize_id k) dep in
        along (λ u _. edge_line " --> " "\n" (sanitize_id u) dep) (url, node) (k, v) e
          (Contains-tail (mermaid_node k v)
            (edge_lines " --> " "\n" (sanitize_id k) v.dependencies (mermaid_body nodes)) line
            (Contains-edge_lines " --> " "\n" (sanitize_id k) v.dependencies (mermaid_body nodes)
              dep (subst (λ (p : String × Node). Memᴰ dep p.1.dependencies) e d)))
    mermaid_body-edge ((k, v) ∷ nodes) (Memᴰ.tail m) =
        let line = edge_line " --> " "\n" (sanitize_id url) dep in
        Contains-tail (mermaid_node k v)
          (edge_lines " --> " "\n" (sanitize_id k) v.dependencies (mermaid_body nodes)) line
          (Contains-after " --> " "\n" (sanitize_id k) v.dependencies (mermaid_body nodes) line
            (mermaid_body-edge nodes m))

    dot_edges-edge :
        (nodes : Assoc String Node) (after : String)
        → Memᴰ (url, node) nodes
        → Contains (dot_edges nodes after) (edge_line " -> " ";\n" (sanitize_id url) dep)
    unfolding dot_edges
    dot_edges-edge [] after m = elim m [ ]
    dot_edges-edge ((k, v) ∷ nodes) after (Memᴰ.head e) =
        along (λ u _. edge_line " -> " ";\n" (sanitize_id u) dep) (url, node) (k, v) e
          (Contains-edge_lines " -> " ";\n" (sanitize_id k) v.dependencies (dot_edges nodes after)
            dep (subst (λ (p : String × Node). Memᴰ dep p.1.dependencies) e d))
    dot_edges-edge ((k, v) ∷ nodes) after (Memᴰ.tail m) =
        Contains-after " -> " ";\n" (sanitize_id k) v.dependencies (dot_edges nodes after)
          (edge_line " -> " ";\n" (sanitize_id url) dep) (dot_edges-edge nodes after m)

-- What stands after the first loop of `DOT` is in the text.
Contains-dot_nodes :
    (nodes : Assoc String Node) (after s : String)
    → Contains after s
    → Contains (dot_nodes nodes after) s
unfolding dot_nodes
Contains-dot_nodes [] after s c = c
Contains-dot_nodes ((k, v) ∷ nodes) after s c =
    Contains-tail (dot_node k v) (dot_nodes nodes after) s (Contains-dot_nodes nodes after s c)

Contains-dot :
    (first second : Assoc String Node) (s : String)
    → Contains (dot_nodes first (concat "\n" (dot_edges second "}\n"))) s
    → Contains (dot first second) s
unfolding dot
Contains-dot first second s c =
    let body = dot_nodes first (concat "\n" (dot_edges second "}\n")) in
    let settings : String = "    node [shape=box, style=filled, fontname=\"sans-serif\"];\n\n" in
    Contains-tail "digraph health {\n" (concat "    rankdir=TB;\n" (concat settings body)) s
      (Contains-tail "    rankdir=TB;\n" (concat settings body) s (Contains-tail settings body s c))

-- The name of a node in a drawing: its service, or its address if that is empty.
abbrev pub shown_as : String → Node → String
shown_as url node = if node.service =? "" then url else node.service

-- For an entry of a graph and one of its dependencies, the Mermaid text has a line that declares the
-- node under its identifier with its service in quotes, or its address if the service is empty, and
-- a line with an arrow from the identifier of the entry to that of the dependency; the DOT text has
-- both in its own notation; whatever order each loop takes the entries in. The identifiers are the
-- sanitized addresses, and have none of "/", ".", ":" and "-".
pub renderings_complete :
    (nodes first second : Assoc String Node) (url : String) (node : Node) (dep : String)
    → Memᴰ (url, node) nodes
    → Memᴰ (url, node) first
    → Memᴰ (url, node) second
    → Memᴰ dep node.dependencies
    → let from = sanitize_id url in
      let to = sanitize_id dep in
      Contains
        (mermaid nodes)
        (concat "    " (concat from (concat "[\"" (concat (shown_as url node) "\"]\n"))))
      × Contains (mermaid nodes) (concat "    " (concat from (concat " --> " (concat to "\n"))))
      × Contains (dot first second) (
          concat "    "
            (concat from (concat " [label=\"" (concat (shown_as url node) "\", fillcolor=\""))))
      × Contains (dot first second) (concat "    " (concat from (concat " -> " (concat to ";\n"))))
      × IsPlain from
      × IsPlain to
unfolding mermaid mermaid_node dot_node label_of edge_line
renderings_complete nodes first second url node dep m f s d =
    let edge = edge_line " -> " ";\n" (sanitize_id url) dep in
    let rest = dot_edges second "}\n" in
    let color = concat (dot_color node.status) "\", fontcolor=\"white\"];\n" in
    let label = shown_as url node in
    (
      Contains-part (mermaid nodes)
          (concat "    " (concat (sanitize_id url) (concat "[\"" (concat label "\"]\n"))))
          (mermaid_style node.status (sanitize_id url))
          (Contains-tail "graph TD\n" (mermaid_body nodes) (mermaid_node url node)
            (mermaid_body-node url node nodes m)),
      Contains-tail "graph TD\n" (mermaid_body nodes) (edge_line " --> " "\n" (sanitize_id url) dep)
          (mermaid_body-edge url node dep d nodes m),
      Contains-part (dot first second)
          (concat "    "
            (concat (sanitize_id url) (concat " [label=\"" (concat label "\", fillcolor=\""))))
          color
          (subst (Contains (dot first second)) (dot_node-split url node) (
            Contains-dot first second (dot_node url node)
              (dot_nodes-node url node first (concat "\n" rest) f))),
      Contains-dot first second edge (
          Contains-dot_nodes first (concat "\n" rest) edge
            (Contains-tail "\n" rest edge (dot_edges-edge url node dep d second "}\n" s))),
      (sanitize_id-IsPlain url).0,
      (sanitize_id-IsPlain dep).0,
    )
