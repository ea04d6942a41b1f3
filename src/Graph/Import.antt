-- ===== src/Graph/Import.antt =====
-- crates/nfctl-graph/src/mermaid_in.rs: flowcharts read into topologies. `HashMap` and the list of its
-- keys in order are one list of entries, in the order of the declarations.
pub mod Names
pub mod Build
pub mod Drawn
pub mod Lines
pub mod Shapes
pub mod Reads
pub mod Links
pub mod Statements
pub mod RoundTrip
use Prim.Native.Char.{Char, code}
use nfctl.Common.{
  ℕ, String, Bool, true, false, ◌&&◌, ◌||◌, not, List, [], ◌∷◌, ◌++◌, Option, none, some, ◌==◌,
  string_eq, Result, ok, err, ◌>>=◌, or_else, any, map, eqb, leb, if◌then◌else◌,
}
use mathlib.Core.Option
use nfctl.Model.Ids.{join}
use nfctl.Model.Topology.{
  VertexKind, source, sink, reduce, TopologyError, TagOperator, TagCondition,
}
use nfctl.Graph.Shards.{strip_suffix}
use nfctl.Graph.Scan.{
  strip_prefix, starts_with, prepend, split_once, has, is_quote, trim, trim_by, trim_start_by,
  trim_end_by, is_white, map_chars, keep_chars, replace_char, to_lower, first_word, split_from,
  lines,
}

pub data ImportError : Type 0 where
  not_a_flowchart : ImportError
  topology : String → TopologyError → ImportError
  bad_name : (pipeline label : String) → ImportError

pub record Node : Type 0 where
  pub label : String
  pub kind : Option VertexKind
  pub group : Option String

pub record Link : Type 0 where
  pub from : String
  pub to : String
  pub label : Option String
  pub dotted : Bool

abbrev pub Nodes : Type 0
Nodes = List (String × Node)

pub record Parsed : Type 0 where
  pub nodes : Nodes
  pub links : List Link
  pub groups : List (String × String)

-- `strip_comment`
unfoldable pub strip_comment : Bool → String → String
strip_comment in_quote String.[] = ""
strip_comment in_quote (String.◌∷◌ c s) =
    let flip = String.◌∷◌ c (strip_comment (not in_quote) s) in
    let go = String.◌∷◌ c (strip_comment in_quote s) in
    if eqb (code c) b'"'
    then flip
    else if not in_quote && starts_with "%%" (String.◌∷◌ c s)
    then ""
    else go

-- `parse_subgraph`
pub parse_subgraph : String → String × String
parse_subgraph rest = elim (split_once "[" rest) [
  | some p ↦ (trim p.0, trim_by is_quote (trim_end_by (λ c. eqb (code c) b']') p.1))
  | none ↦ (trim_by is_quote rest, trim_by is_quote rest)
]

unfoldable pub op_at : List String → String → Option (String × String)
op_at [] s = none
op_at (op ∷ ops) s = elim (strip_prefix (join " " op) s) [
  | some rest ↦ some (op, rest)
  | none ↦ op_at ops s
]

abbrev pub ops : List String
ops = "-.->" ∷ "-->" ∷ "==>" ∷ "---" ∷ []

abbrev pub later_op : Char → String × (String × String) → String × (String × String)
later_op c p = (String.◌∷◌ c p.0, p.1)

-- Before the operator, the operator and what follows. No two operators begin in one place, so the
-- least index of `find` is the first place where one begins.
unfoldable pub find_op : String → Option (String × (String × String))
find_op String.[] = none
find_op (String.◌∷◌ c s) = elim (op_at ops (String.◌∷◌ c s)) [
  | some p ↦ some ("", p)
  | none ↦ Option.map (later_op c) (find_op s)
]

-- The label between bars, and the other end.
unfoldable pub label_and_end : String → Option (Option String × String)
label_and_end rest = elim (strip_prefix "|" rest) [
  | some after ↦ Option.map (λ p. (some (trim p.0), trim p.1)) (split_once "|" after)
  | none ↦ some (none, trim rest)
]

-- Both ends, the operator and the label.
pub record EdgeText : Type 0 where
  pub start : String
  pub op : String
  pub label : Option String
  pub end : String

abbrev pub edge_text_of : String × (String × String) → Option String × String → Option EdgeText
edge_text_of p q =
    if trim p.0 == "" || q.1 == ""
    then none
    else some (record { start = trim p.0; op = p.1.0; label = q.0; end = q.1 })

-- `parse_edge`
unfoldable pub parse_edge : String → Option EdgeText
parse_edge line =
    Option.bind (find_op line)
      (λ p. Option.bind (label_and_end (trim_start_by is_white p.1.1)) (edge_text_of p))

abbrev pub Shape : Type 0
Shape = String × (String × Option VertexKind)

abbrev pub shapes : List Shape
shapes =
    ("([", ("])", some source))
    ∷ ("[[", ("]]", some sink))
    ∷ ("((", ("))", none))
    ∷ ("{{", ("}}", some reduce))
    ∷ ("[", ("]", some VertexKind.map))
    ∷ ("(", (")", none))
    ∷ []

-- What stands before the opening and between it and the closing. An opening ends with no character
-- that its closing begins with, so a token that has the one and ends with the other has the other
-- after the one.
unfoldable pub inside : Shape → String → Option (String × String)
inside (opening, (closing, kind)) tok = elim (split_once opening tok) [
  | none ↦ none
  | some p ↦ if p.0 == "" then none else Option.map (λ l. (p.0, l)) (strip_suffix closing p.1)
]

pub record NodeText : Type 0 where
  pub id : String
  pub label : String
  pub kind : Option VertexKind

unfoldable pub parse_shapes : List Shape → String → NodeText
parse_shapes [] tok = record {
  id = tok;
  label = replace_char b'_' "-" tok;
  kind = some VertexKind.map;
}
parse_shapes (s ∷ ss) tok = elim (inside s tok) [
  | some p ↦ record { id = p.0; label = trim_by is_quote (trim p.1); kind = s.1.1 }
  | none ↦ parse_shapes ss tok
]

-- `parse_node`
abbrev pub parse_node : String → NodeText
parse_node tok = parse_shapes shapes tok

-- The entry of a key.
unfoldable pub node_at : Nodes → String → Option Node
node_at [] id = none
node_at ((k, n) ∷ ns) id = if k == id then some n else node_at ns id

-- `declare`
unfoldable pub declare : NodeText → Option String → Nodes → Nodes
declare d group nodes = elim (node_at nodes d.id) [
  | some n ↦ nodes
  | none ↦ nodes ++ (d.id, record { label = d.label; kind = d.kind; group = group }) ∷ []
]

pub record State : Type 0 where
  pub parsed : Parsed
  pub stack : List String
  pub header_seen : Bool

abbrev pub top : List String → Option String
top [] = none
top (g ∷ gs) = some g

abbrev pub pop : List String → List String
pop [] = []
pop (g ∷ gs) = gs

abbrev pub ignored : List String
ignored = "style " ∷ "classdef " ∷ "class " ∷ "linkstyle " ∷ "direction " ∷ "click " ∷ []

abbrev pub with_nodes : State → Nodes → State
with_nodes st nodes = record st { parsed = record (st.parsed) { nodes = nodes } }

abbrev pub open_group : State → String × String → State
open_group st g = record st {
  parsed = record (st.parsed) { groups = st.parsed.groups ++ g ∷ [] };
  stack = g.0 ∷ st.stack;
}

abbrev pub add_link : State → EdgeText → State
add_link st e =
    let s = parse_node e.start in
    let d = parse_node e.end in
    let nodes = declare d (top st.stack) (declare s (top st.stack) st.parsed.nodes) in
    record st {
      parsed = record (st.parsed) {
        nodes = nodes;
        links =
            st.parsed.links
            ++ record { from = s.id; to = d.id; label = e.label; dotted = has "." e.op } ∷ [];
      };
    }

-- The rest of the loop's body, of a line that is an edge or a node.
unfoldable pub declaration : State → String → State
declaration st line = elim (parse_edge line) [
  | some e ↦ add_link st e
  | none ↦ with_nodes st (declare (parse_node line) (top st.stack) st.parsed.nodes)
]

-- The loop's body after the header.
unfoldable pub statement : State → String → State
statement st line = elim (strip_prefix "subgraph " line) [
  | some rest ↦ open_group st (parse_subgraph (trim rest))
  | none ↦
      if to_lower line == "end"
      then record st { stack = pop st.stack }
      else if any (λ k. starts_with k (to_lower line)) ignored
      then st
      else declaration st line
]

abbrev pub is_header : String → Bool
is_header word = word == "graph" || word == "flowchart"

-- The loop's body.
unfoldable pub read_line : State → String → Result ImportError State
read_line st raw =
    let line = trim (strip_comment false raw) in
    if line == ""
    then ok st
    else if not st.header_seen
    then (if is_header (to_lower (first_word line))
        then ok (record st { header_seen = true })
        else err not_a_flowchart)
    else ok (statement st line)

unfoldable pub read_lines : State → List String → Result ImportError State
read_lines st [] = ok st
read_lines st (l ∷ ls) = read_line st l >>= λ next. read_lines next ls

abbrev pub start : State
start = record {
  parsed = record { nodes = []; links = []; groups = [] };
  stack = [];
  header_seen = false;
}

-- `parse`
unfoldable pub parse : String → Result ImportError Parsed
parse src = read_lines start (lines src) >>= λ st. ok st.parsed
