-- ===== src/Discovery/Render.antt =====
-- discovery/render.go: the text of a graph for Mermaid and for Graphviz. Go visits the entries of a
-- map in any order: each loop over the nodes takes them as a list, in the order of that loop.
pub mod Ids
pub mod Edges
use Prim.Native.String.{String}
use Prim.Native.Char.{Char, code}
use health.Base.{
  ℕ, zero, suc, List, [], ◌∷◌, Bool, if◌then◌else◌, ◌||◌, ◌==◌, ◌=?◌, string_eq, is_some,
}
use health.Base.Assoc.{Assoc}
use health.Errors.{concat}
use health.Discovery.Types.{Node}
use health.Text.{strip}

-- '/', '.', ':' and '-'.
abbrev pub is_mark : Char → Bool
is_mark c = code c == 47 || code c == 46 || code c == 58 || code c == 45

-- The replacer at one place of the text. The number counts the characters that a replacement has
-- used up: after ":" of "://", the next two.
unfoldable pub replace_from : ℕ → String → String
unfolding strip
replace_from n String.[] = String.[]
replace_from (suc n) (String.◌∷◌ c s) = replace_from n s
replace_from zero (String.◌∷◌ c s) =
    let next = replace_from 0 s in
    let after_two = replace_from 2 s in
    if is_some (strip (String.◌∷◌ c s) "://")
    then String.◌∷◌ "_" after_two
    else String.◌∷◌ (if is_mark c then "_" else c) next

unfoldable pub sanitize_id : String → String
unfolding replace_from
sanitize_id s = replace_from 0 s

unfoldable pub label_of : String → Node → String
label_of url node = if node.service =? "" then url else node.service

unfoldable pub mermaid_style : String → String → String
mermaid_style status id = concat "    style " (
    concat id (
      if status =? "pass"
      then " fill:#4caf50,color:#fff\n"
      else if status =? "fail"
      then " fill:#f44336,color:#fff\n"
      else if status =? "warn"
      then " fill:#ff9800,color:#fff\n"
      else " fill:#9e9e9e,color:#fff\n"))

unfoldable pub dot_color : String → String
dot_color status =
    if status =? "pass"
    then "#4caf50"
    else if status =? "fail"
    then "#f44336"
    else if status =? "warn"
    then "#ff9800"
    else "#9e9e9e"

-- One dependency, with the arrow and the end of the line.
unfoldable pub edge_line : String → String → String → String → String
unfolding sanitize_id
edge_line arrow ending id dep =
    concat "    " (concat id (concat arrow (concat (sanitize_id dep) ending)))

-- The inner loop over the dependencies, and what is written after it.
unfoldable pub edge_lines : String → String → String → List String → String → String
unfolding edge_line
edge_lines arrow ending id [] after = after
edge_lines arrow ending id (dep ∷ deps) after =
    concat (edge_line arrow ending id dep) (edge_lines arrow ending id deps after)

unfoldable pub mermaid_node : String → Node → String
unfolding sanitize_id label_of mermaid_style
mermaid_node url node =
    let id = sanitize_id url in
    concat (concat "    " (concat id (concat "[\"" (concat (label_of url node) "\"]\n"))))
      (mermaid_style node.status id)

-- The loop of `Mermaid`.
unfoldable pub mermaid_body : Assoc String Node → String
unfolding sanitize_id mermaid_node edge_lines
mermaid_body [] = String.[]
mermaid_body ((url, node) ∷ nodes) =
    concat (mermaid_node url node)
      (edge_lines " --> " "\n" (sanitize_id url) node.dependencies (mermaid_body nodes))

unfoldable pub mermaid : Assoc String Node → String
unfolding mermaid_body
mermaid nodes = concat "graph TD\n" (mermaid_body nodes)

unfoldable pub dot_node : String → Node → String
unfolding sanitize_id label_of dot_color
dot_node url node = concat "    " (
    concat (sanitize_id url) (
      concat " [label=\"" (
        concat (label_of url node) (
          concat "\", fillcolor=\""
            (concat (dot_color node.status) "\", fontcolor=\"white\"];\n")))))

-- The two loops of `DOT`, each with what is written after it.
unfoldable pub dot_nodes : Assoc String Node → String → String
unfolding dot_node
dot_nodes [] after = after
dot_nodes ((url, node) ∷ nodes) after = concat (dot_node url node) (dot_nodes nodes after)

unfoldable pub dot_edges : Assoc String Node → String → String
unfolding sanitize_id edge_lines
dot_edges [] after = after
dot_edges ((url, node) ∷ nodes) after =
    edge_lines " -> " ";\n" (sanitize_id url) node.dependencies (dot_edges nodes after)

unfoldable pub dot : Assoc String Node → Assoc String Node → String
unfolding dot_nodes dot_edges
dot first second = concat "digraph health {\n" (
    concat "    rankdir=TB;\n" (
      concat "    node [shape=box, style=filled, fontname=\"sans-serif\"];\n\n"
        (dot_nodes first (concat "\n" (dot_edges second "}\n")))))
