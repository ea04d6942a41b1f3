-- ===== src/Graph/Mermaid.antt =====
-- The writers of crates/nfctl-graph/src/mermaid.rs and dot.rs.
use Prim.Native.Char.{code}
use nfctl.Common.{
  ℕ, String, List, [], ◌∷◌, ◌++◌, Option, none, some, string_eq, is_empty, map, eqb, ◌&&◌, ◌||◌,
  not, if◌then◌else◌,
}
use mathlib.Core.Option
use nfctl.Model.Ids.{join}
use nfctl.Model.Topology.{
  VertexKind, source, sink, reduce, Vertex, Edge, OnFull, retry_until_success, discard_latest,
  TagOperator, TagCondition, Topology,
}
use nfctl.Graph.Scan.{replace_char, keep_chars}
use nfctl.Graph.View.{ViewNode, ViewEdge, ViewGraph, join_all}
use nfctl.Graph.View.Build.{get_elem?}

-- What `format!` and `writeln!` put together.
unfoldable pub text : List String → String
text [] = ""
text (s ∷ ss) = join s (text ss)

pub data Direction : Type 0 where
  left_right top_down : Direction

abbrev pub keyword : Direction → String
keyword left_right = "LR"
keyword top_down = "TD"

-- `delims`
abbrev pub opening : VertexKind → String
opening source = "(["
opening sink = "[["
opening VertexKind.map = "["
opening reduce = "{{"

abbrev pub closing : VertexKind → String
closing source = "])"
closing sink = "]]"
closing VertexKind.map = "]"
closing reduce = "}}"

unfoldable pub node_id : String → String
node_id name = replace_char b'-' "_" name

-- `s.replace('"', ..)`
unfoldable pub replace_quotes : String → String → String
replace_quotes by String.[] = ""
replace_quotes by (String.◌∷◌ c s) =
    let rest = replace_quotes by s in if eqb (code c) b'"' then join by rest else String.◌∷◌ c rest

unfoldable pub quote : String → String
quote s = text ("\"" ∷ replace_quotes "#quot;" s ∷ "\"" ∷ [])

unfoldable pub edge_text : String → String
edge_text s = keep_chars (λ c. not (eqb (code c) b'|' || eqb (code c) b'"')) s

abbrev joiner : TagOperator → String
joiner TagOperator.or = ", "
joiner TagOperator.and = " & "
joiner TagOperator.not_ = " & "

abbrev negated : TagOperator → String → String
negated TagOperator.not_ body = join "not " body
negated TagOperator.and body = body
negated TagOperator.or body = body

pub edge_label : TagCondition → String
edge_label c = negated c.operator (edge_text (join_all (joiner c.operator) c.values))

abbrev pub arrow : OnFull → String
arrow retry_until_success = "-->"
arrow discard_latest = "-.->"

abbrev pub labelled : Option String → String
labelled none = " "
labelled (some label) = text ("|" ∷ label ∷ "| " ∷ [])

unfoldable pub edge_line : Edge → String
edge_line e = text (
    "  "
    ∷ node_id e.from
    ∷ " "
    ∷ arrow e.on_full
    ∷ labelled (Option.map edge_label e.conditions)
    ∷ node_id e.to
    ∷ [])

unfoldable pub vertex_line : Vertex → String
vertex_line v = text ("  " ∷ node_id v.name ∷ opening v.kind ∷ quote v.name ∷ closing v.kind ∷ [])

-- Each with a line feed after it.
unfoldable pub end_lines : List String → String
end_lines [] = ""
end_lines (l ∷ ls) = join l (join "\n" (end_lines ls))

-- `to_mermaid`
unfoldable pub to_mermaid : Topology → Direction → String
to_mermaid t dir =
    end_lines
      (join "flowchart " (keyword dir) ∷ (map vertex_line t.vertices ++ map edge_line t.edges))

-- `label.replace(" ×", "_x")`
unfoldable pub replace_times : String → String
replace_times String.[] = ""
replace_times (String.◌∷◌ c String.[]) = String.◌∷◌ c ""
replace_times (String.◌∷◌ c (String.◌∷◌ d s)) =
    if eqb (code c) 32 && eqb (code d) 215
    then join "_x" (replace_times s)
    else String.◌∷◌ c (replace_times (String.◌∷◌ d s))

abbrev pub view_id : String → String
view_id label = node_id (replace_times label)

abbrev node_label : Option ViewNode → String
node_label none = ""
node_label (some n) = n.label

abbrev label_at : List ViewNode → ℕ → String
label_at nodes id = node_label (get_elem? nodes id)

unfoldable pub view_vertex_line : ViewNode → String
view_vertex_line n =
    text ("  " ∷ view_id n.label ∷ opening n.kind ∷ quote n.label ∷ closing n.kind ∷ [])

-- `if e.tags.is_empty()`, and the label of the edge.
abbrev view_label : List String → Option String
view_label tags = if is_empty tags then none else some (edge_text (join_all ", " tags))

-- The ids of an edge are those of nodes; the source would panic on others.
unfoldable pub view_edge_line : List ViewNode → ViewEdge → String
view_edge_line nodes e = text (
    "  "
    ∷ view_id (label_at nodes e.from)
    ∷ " "
    ∷ (if e.lossy then "-.->" else "-->")
    ∷ labelled (view_label e.tags)
    ∷ view_id (label_at nodes e.to)
    ∷ [])

-- `view_to_mermaid`
unfoldable pub view_to_mermaid : ViewGraph → Direction → String
view_to_mermaid g dir = end_lines (
    join "flowchart " (keyword dir)
    ∷ (map view_vertex_line g.nodes ++ map (view_edge_line g.nodes) g.edges))

-- dot.rs: `shape`
abbrev shape : VertexKind → String
shape source = "cds"
shape sink = "box3d"
shape VertexKind.map = "box"
shape reduce = "hexagon"

abbrev dot_quote : String → String
dot_quote s = text ("\"" ∷ replace_quotes "\\\"" s ∷ "\"" ∷ [])

abbrev dot_joiner : TagOperator → String
dot_joiner TagOperator.or = " | "
dot_joiner TagOperator.and = " & "
dot_joiner TagOperator.not_ = " & "

abbrev dot_label : Option TagCondition → List String
dot_label none = []
dot_label (some c) =
    join "label=" (dot_quote (negated c.operator (join_all (dot_joiner c.operator) c.values))) ∷ []

abbrev dot_style : OnFull → List String
dot_style retry_until_success = []
dot_style discard_latest = "style=dashed" ∷ []

abbrev dot_attributes : List String → String
dot_attributes [] = ""
dot_attributes (a ∷ rest) = text (" [" ∷ join_all ", " (a ∷ rest) ∷ "]" ∷ [])

unfoldable pub dot_vertex : Vertex → String
dot_vertex v = text ("  " ∷ dot_quote v.name ∷ " [shape=" ∷ shape v.kind ∷ "];" ∷ [])

unfoldable pub dot_edge : Edge → String
dot_edge e = text (
    "  "
    ∷ dot_quote e.from
    ∷ " -> "
    ∷ dot_quote e.to
    ∷ dot_attributes (dot_label e.conditions ++ dot_style e.on_full)
    ∷ ";"
    ∷ [])

-- `to_dot`
unfoldable pub to_dot : Topology → String
to_dot t = end_lines (
    "digraph pipeline {"
    ∷ "  rankdir=LR;"
    ∷ "  node [fontname=\"monospace\"];"
    ∷ (map dot_vertex t.vertices ++ (map dot_edge t.edges ++ "}" ∷ [])))
