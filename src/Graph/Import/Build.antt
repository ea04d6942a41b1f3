-- ===== src/Graph/Import/Build.antt =====
-- The topologies of a flowchart that was read: `build` of crates/nfctl-graph/src/mermaid_in.rs.
use Prim.Native.Char.{Char, code}
use nfctl.Common.{
  String, Bool, false, ◌&&◌, ◌||◌, not, List, [], ◌∷◌, ◌++◌, Option, none, some, ◌==◌, string_eq,
  option_eq, Result, ok, ◌>>=◌, map_err, any, keep, map, eqb, leb, if◌then◌else◌, is_empty,
}
use mathlib.Core.Option
use nfctl.Model.Ids.{VertexName, new_name, max_label}
use nfctl.Model.Topology.{
  VertexKind, Vertex, Edge, retry_until_success, TagOperator, TagCondition, Topology, new,
}
use nfctl.Graph.Scan.{strip_prefix, has, trim, trim_by, map_chars, keep_chars, to_lower, split_from}
use nfctl.Graph.Import.{ImportError, topology, bad_name, Nodes, Link, Parsed, parse}

abbrev pub is_dash : Char → Bool
is_dash c = eqb (code c) b'-'

abbrev pub dash_for : Char → Char
dash_for c = if eqb (code c) b'_' || eqb (code c) 32 then "-" else c

-- `c.is_ascii_alphanumeric() || *c == '-'`
abbrev pub stays : Char → Bool
stays c =
    (leb b'a' (code c) && leb (code c) b'z')
    || (leb b'A' (code c) && leb (code c) b'Z')
    || (leb b'0' (code c) && leb (code c) b'9')
    || is_dash c

-- `vertex_name`
unfoldable pub vertex_name : String → String
vertex_name label = trim_by is_dash (keep_chars stays (map_chars dash_for (to_lower label)))

abbrev pub operator_and_body : Option String → String → TagOperator × String
operator_and_body (some rest) label = (TagOperator.not_, rest)
operator_and_body none label =
    if has " & " label then (TagOperator.and, label) else (TagOperator.or, label)

abbrev pub separator : TagOperator → String
separator TagOperator.and = " & "
separator TagOperator.or = ","
separator TagOperator.not_ = ","

-- `tags`
unfoldable pub tags : String → TagCondition
tags label =
    let p = operator_and_body (strip_prefix "not " label) label in
    record {
      operator = p.0;
      values = keep (λ s. not (s == "")) (map trim (split_from 0 (separator p.0) p.1));
    }

-- The names that nodes are given, by their ids.
abbrev pub Named : Type 0
Named = List (String × VertexName)

unfoldable pub name_at : Named → String → Option VertexName
name_at [] id = none
name_at ((k, n) ∷ names) id = if k == id then some n else name_at names id

abbrev pub plain : VertexName → VertexKind → Vertex
plain name kind = record {
  name = name;
  kind = kind;
  partitions = 1;
  scale = record { min = none; max = none; disabled = false };
  image = none;
}

abbrev pub add_vertex : String → VertexKind → Named × List Vertex → VertexName → Named × List Vertex
add_vertex id kind rest name = ((id, name) ∷ rest.0, plain name kind ∷ rest.1)

-- The loop over the members of a group; a node without a kind is outside of all pipelines.
unfoldable pub vertices_of : String → Nodes → Result ImportError (Named × List Vertex)
vertices_of pipeline [] = ok ([], [])
vertices_of pipeline ((id, n) ∷ ns) = elim n.kind [
  | none ↦ vertices_of pipeline ns
  | some kind ↦
      map_err (λ _. bad_name pipeline n.label) (new_name max_label (vertex_name n.label))
      >>= λ name. vertices_of pipeline ns >>= λ rest. ok (add_vertex id kind rest name)
]

abbrev pub solid : VertexName → VertexName → Option String → Edge
solid from to label = record {
  from = from;
  to = to;
  conditions = Option.map tags label;
  on_full = retry_until_success;
}

abbrev pub joins : VertexName → VertexName → Edge → Bool
joins from to e = e.from == from && e.to == to

abbrev pub push_edge : Option String → Option VertexName → Option VertexName → List Edge → List Edge
push_edge label (some from) (some to) edges =
    if any (joins from to) edges then edges else edges ++ solid from to label ∷ []
push_edge label _ _ edges = edges

-- The loop over the links.
unfoldable pub edges_of : Named → List Link → List Edge → List Edge
edges_of names [] edges = edges
edges_of names (l ∷ ls) edges =
    let skip = edges_of names ls edges in
    let add =
      edges_of names ls (push_edge l.label (name_at names l.from) (name_at names l.to) edges) in
    if l.dotted then skip else add

abbrev pub members : Nodes → Option String → Nodes
members nodes group = keep (λ p. p.1.group == group) nodes

-- The body of the loop over the groups: a group without a vertex gives nothing.
unfoldable pub build_group :
    Parsed → Option String × String → Result ImportError (List (String × Topology))
build_group p g = vertices_of g.1 (members p.nodes g.0) >>= λ made.
    if is_empty made.1
    then ok []
    else (map_err (topology g.1) (new made.1 (edges_of made.0 p.links [])) >>= λ t.
        ok ((g.1, t) ∷ []))

unfoldable pub build_groups :
    Parsed → List (Option String × String) → Result ImportError (List (String × Topology))
build_groups p [] = ok []
build_groups p (g ∷ gs) =
    build_group p g >>= λ first. build_groups p gs >>= λ rest. ok (first ++ rest)

abbrev pub group_list : List (String × String) → List (Option String × String)
group_list [] = (none, "pipeline") ∷ []
group_list (g ∷ gs) = map (λ x. (some x.0, x.1)) (g ∷ gs)

-- `build`
unfoldable pub build : Parsed → Result ImportError (List (String × Topology))
build p = build_groups p (group_list p.groups)

-- `from_mermaid`
unfoldable pub from_mermaid : String → Result ImportError (List (String × Topology))
from_mermaid src = parse src >>= λ p. build p
