-- ===== src/Tests/Charts.antt =====
-- Flowcharts that crates/nfctl-graph/src/mermaid.rs writes and mermaid_in.rs reads.
use nfctl.Common.{true, ◌≡◌, refl, ok, err, [], ◌∷◌, any, all, keep, find, contains}
use mathlib.Core.Option
use nfctl.Model.Ids.{join, new_name, check_dns_label, check_chars}
use nfctl.Model.Topology.{
  TagOperator, source, sink, Topology, check_vertices, check_edges, check_ends_of, kind_of, new,
}
use nfctl.Model.Topology.Valid.{new_iff}
use nfctl.Graph.Shards.{strip_suffix}
use nfctl.Graph.Scan.{
  split_from, strip_prefix, split_once, trim_start_by, trim_end_by, map_chars, keep_chars,
  lower_char, first_word, lines,
}
use nfctl.Graph.View.{join_all}
use nfctl.Graph.View.Build.{get_elem?}
use nfctl.Graph.Mermaid.{
  view_to_mermaid, view_vertex_line, view_edge_line, edge_text, left_right, top_down, text, node_id,
  replace_quotes, quote, vertex_line, edge_line, end_lines, to_mermaid, replace_times, view_id,
  to_dot, dot_vertex, dot_edge,
}
use nfctl.Graph.Import.{
  strip_comment, op_at, find_op, label_and_end, parse_edge, inside, parse_shapes, node_at, declare,
  declaration, statement, read_line, read_lines, parse, not_a_flowchart,
}
use nfctl.Graph.Import.Build.{
  tags, vertex_name, name_at, vertices_of, edges_of, build_group, build_groups, build, from_mermaid,
}
use nfctl.Graph.Import.Names.{IsName, IsName-of_new}
use nfctl.Graph.Import.RoundTrip.{from_mermaid-to_mermaid}
use nfctl.Tests.Shapes.{v, e}

abbrev chart : Topology
chart = record { vertices = v "in" source 1 ∷ v "out-1" sink 1 ∷ []; edges = e "in" "out-1" ∷ [] }

written :
    to_mermaid chart left_right
    ≡ "flowchart LR\n  in([\"in\"])\n  out_1[[\"out-1\"]]\n  in --> out_1\n"
unfolding to_mermaid end_lines vertex_line edge_line text join node_id map_chars quote
    replace_quotes
written = refl

new-chart : new chart.vertices chart.edges ≡ ok chart
unfolding new check_vertices check_edges check_ends_of kind_of contains find
new-chart = refl

name-in : IsName "in"
unfolding new_name check_dns_label check_chars all
name-in = IsName-of_new "in" refl

name-out : IsName "out-1"
unfolding new_name check_dns_label check_chars all
name-out = IsName-of_new "out-1" refl

from_mermaid-to_mermaid_example :
    from_mermaid (to_mermaid chart top_down) ≡ ok (("pipeline", chart) ∷ [])
from_mermaid-to_mermaid_example =
    from_mermaid-to_mermaid chart top_down
      ((new_iff chart.vertices chart.edges chart).0 new-chart).0
      ((name-in, refl), ((name-out, refl), tt)) (refl, tt)
      (
        (
          (λ q. cc),
          ((λ q. cc), ((λ q. cc), ((λ q. cc), ((λ q. cc), ((λ q. cc), ((λ q. cc), tt)))))),
        ),
        tt,
      )

-- The edge of a vertex that is called `class` is taken for a statement and left out.
lost :
    from_mermaid "graph LR\n class([\"class\"])\n out[[\"out\"]]\n class --> out\n"
    ≡ ok (
        ("pipeline", record { vertices = v "class" source 1 ∷ v "out" sink 1 ∷ []; edges = [] })
        ∷ [])
unfolding from_mermaid build build_groups build_group vertices_of edges_of name_at vertex_name new
    check_vertices check_edges contains new_name check_dns_label check_chars all any keep keep_chars
    parse read_lines read_line statement declaration declare node_at parse_shapes inside parse_edge
    label_and_end find_op op_at strip_comment strip_suffix strip_prefix split_once trim_start_by
    trim_end_by map_chars lower_char first_word lines join Option.bind
lost = refl

no_header : from_mermaid "sequenceDiagram\n A->>B: hi" ≡ err not_a_flowchart
unfolding from_mermaid parse read_lines read_line strip_comment trim_start_by trim_end_by first_word
    map_chars lower_char strip_prefix lines
no_header = refl

-- A group of two shards of `a` and a vertex `a-x2` have one id.
one_id : view_id "a ×2" ≡ view_id "a-x2"
unfolding replace_times node_id map_chars join
one_id = refl

dot :
    to_dot chart
    ≡ "digraph pipeline {\n  rankdir=LR;\n  node [fontname=\"monospace\"];\n  \"in\" [shape=cds];\n  \"out-1\" [shape=box3d];\n  \"in\" -> \"out-1\";\n}\n"
unfolding to_dot end_lines dot_vertex dot_edge text join replace_quotes
dot = refl

and_tags : tags "a & b" ≡ record { operator = TagOperator.and; values = "a" ∷ "b" ∷ [] }
unfolding tags strip_prefix split_once split_from trim_start_by trim_end_by keep
and_tags = refl

grouped :
    view_to_mermaid
      (record {
        nodes =
            record { label = "a ×2"; kind = source; members = "a-0" ∷ "a-1" ∷ []; partitions = 1 }
            ∷ record { label = "out"; kind = sink; members = "out" ∷ []; partitions = 1 }
            ∷ [];
        edges = record { from = 0; to = 1; tags = "x" ∷ []; lossy = true; members = [] } ∷ [];
      })
      left_right
    ≡ "flowchart LR\n  a_x2([\"a ×2\"])\n  out[[\"out\"]]\n  a_x2 -.->|x| out\n"
unfolding join_all view_to_mermaid view_vertex_line view_edge_line end_lines text join replace_times
    node_id map_chars quote replace_quotes edge_text keep_chars get_elem?
grouped = refl
