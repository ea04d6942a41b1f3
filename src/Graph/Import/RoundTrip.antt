-- ===== src/Graph/Import/RoundTrip.antt =====
-- What `to_mermaid` (crates/nfctl-graph/src/mermaid.rs) writes, `from_mermaid` (mermaid_in.rs) reads.
use nfctl.Common.{
  List, [], ◌∷◌, ◌++◌, string_eq, ◌≡◌, refl, sym, subst, arith, ok, All, All-append, map,
}
use nfctl.Model.Ids.{join}
use nfctl.Model.Topology.{source, sink, Vertex, Edge, Topology}
use nfctl.Model.Topology.Valid.{IsValid, AllResolve}
use nfctl.Graph.Scan.{strip_prefix, trim_start_by, trim_end_by, first_word, map_chars, lower_char}
use nfctl.Graph.Scan.Chars.{NoChar, AllChars-join}
use nfctl.Graph.Mermaid.{
  Direction, left_right, top_down, keyword, vertex_line, edge_line, to_mermaid,
}
use nfctl.Graph.Import.{node_at, read_line, read_lines, start, parse, strip_comment}
use nfctl.Graph.Import.Build.{from_mermaid}
use nfctl.Graph.Import.Drawn.{IsPlain, IsSolid, drawn, build-drawn, name-of_mem, mem-end}
use nfctl.Graph.Import.Reads.{vertex_line-text, token-NoChar}
use nfctl.Graph.Import.Links.{IsFree, edge_line-text, edge-NoChar}
use nfctl.Graph.Import.Statements.{is_break, lines-end_lines, so_far, read_vertices, read_edges}

read_header :
    (dir : Direction) → read_line start (join "flowchart " (keyword dir)) ≡ ok (so_far [] [])
unfolding read_line join strip_comment strip_prefix trim_start_by trim_end_by first_word map_chars
    lower_char
read_header left_right = refl
read_header top_down = refl

vertices-NoBreak : (vs : List Vertex) → All IsPlain vs → All (NoChar is_break) (map vertex_line vs)
vertices-NoBreak [] h = tt
vertices-NoBreak (v ∷ vs) ((hv, _), h) = (
  subst (NoChar is_break) (sym (vertex_line-text v)) (
      AllChars-join _ "  " _ (refl, (refl, tt))
        (token-NoChar is_break v.name v.kind (λ c k. ground (arith, k)) hv)),
  vertices-NoBreak vs h,
)

edges-NoBreak :
    (vs : List Vertex) (es : List Edge)
    → All IsPlain vs
    → All IsSolid es
    → AllResolve vs es
    → All (NoChar is_break) (map edge_line es)
edges-NoBreak vs [] h s r = tt
edges-NoBreak vs (e ∷ es) h (solid, s) ((from, to), r) = (
  subst (NoChar is_break) (sym (edge_line-text e solid)) (
      AllChars-join _ "  " _ (refl, (refl, tt))
        (edge-NoChar is_break e.from e.to (λ c k. ground (arith, k))
          (refl, (refl, (refl, (refl, (refl, tt)))))
          (name-of_mem vs e.from h (mem-end vs e.from sink from))
          (name-of_mem vs e.to h (mem-end vs e.to source to)))),
  edges-NoBreak vs es h s r,
)

header-NoBreak : (dir : Direction) → NoChar is_break (join "flowchart " (keyword dir))
unfolding join
header-NoBreak left_right = (
  refl,
  (refl, (refl, (refl, (refl, (refl, (refl, (refl, (refl, (refl, (refl, (refl, tt))))))))))),
)
header-NoBreak top_down = (
  refl,
  (refl, (refl, (refl, (refl, (refl, (refl, (refl, (refl, (refl, (refl, (refl, tt))))))))))),
)

-- What is parsed of a topology that was written.
parse-to_mermaid :
    (t : Topology) (dir : Direction)
    → IsValid t.vertices t.edges
    → All IsPlain t.vertices
    → All IsSolid t.edges
    → All (λ e. IsFree e.from) t.edges
    → parse (to_mermaid t dir) ≡ ok (drawn t)
unfolding parse to_mermaid read_lines
parse-to_mermaid t dir valid plain solid free =
    let rest = map vertex_line t.vertices ++ map edge_line t.edges in
    let clean : All (NoChar is_break) rest =
      All-append (NoChar is_break) (map vertex_line t.vertices) (map edge_line t.edges)
        (vertices-NoBreak t.vertices plain)
        (edges-NoBreak t.vertices t.edges plain solid valid.resolve) in
    rw (lines-end_lines (join "flowchart " (keyword dir) ∷ rest) (header-NoBreak dir, clean)) (
      rw (read_header dir) (
        rw
          (read_vertices t.vertices [] [] (map edge_line t.edges) plain valid.names_unique
            (λ n h m. unfold node_at in refl))
          (rw (read_edges t.vertices t.edges [] plain solid free valid.resolve) refl)))

-- A topology that `Topology::new` accepts, of vertices with a valid name, one partition, no image and
-- no scale and of edges without a condition that keep what does not fit, comes back when it is
-- written and read, if no edge begins at a vertex whose name begins another statement (`subgraph`,
-- `style`, `classdef`, `class`, `linkstyle`, `direction` or `click`).
pub from_mermaid-to_mermaid :
    (t : Topology) (dir : Direction)
    → IsValid t.vertices t.edges
    → All IsPlain t.vertices
    → All IsSolid t.edges
    → All (λ e. IsFree e.from) t.edges
    → from_mermaid (to_mermaid t dir) ≡ ok (("pipeline", t) ∷ [])
unfolding from_mermaid
from_mermaid-to_mermaid t dir valid plain solid free =
    rw (parse-to_mermaid t dir valid plain solid free) (build-drawn t valid plain solid)
