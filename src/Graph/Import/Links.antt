-- ===== src/Graph/Import/Links.antt =====
-- The link that `parse` (crates/nfctl-graph/src/mermaid_in.rs) reads in an edge that `to_mermaid` writes.
use Prim.Native.Char.{Char}
use nfctl.Common.{
  String, Bool, true, not, List, [], ◌∷◌, none, some, string_eq, ◌≡◌, ◌≢◌, refl, sym, ap, ◌∙◌,
  subst, arith, ok, All, all,
}
use mathlib.Core.Option
use nfctl.Model.Ids.{join, new_name, check_dns_label, check_chars}
use nfctl.Model.Topology.{VertexKind, source, sink, reduce, Edge}
use nfctl.Graph.Scan.{strip_prefix, trim_start_by, trim_end_by, is_white, map_chars}
use nfctl.Graph.Scan.Chars.{
  AllChars, NoChar, Is, AllChars-join, AllChars-right, AllChars-weaken, join_nonempty,
  trim_end-join, trim_end-none, trim_start-none,
}
use nfctl.Graph.Scan.Patterns.{strip_prefix-other, strip_prefix-word}
use nfctl.Graph.Mermaid.{text, node_id, edge_line}
use nfctl.Graph.Import.{
  NodeText, Shape, inside, parse_node, parse_shapes, shapes, op_at, find_op, label_and_end,
  EdgeText, parse_edge, Parsed, declaration, read_line,
}
use nfctl.Graph.Import.Names.{IsName, IsName-of_new, id_char, node_id-AllChars, node_id_injective}
use nfctl.Graph.Import.Drawn.{IsSolid}
use nfctl.Graph.Import.Lines.{
  id_nonempty, id-NoChar, trim-none, trim_start-head, join-nil, not_empty_text, inside-none,
}
use nfctl.Graph.Import.Shapes.{parse_shapes-skip}
use nfctl.Graph.Import.Reads.{
  reserved, reading, read_line-indented, find_op-after, join_nonempty_left, to_lower-none, is_upper,
}

-- The text of an edge, without the spaces before it.
abbrev pub edge_tok : String → String → String
edge_tok from to = join (node_id from) (join " --> " (node_id to))

-- The name is none of the words that begin other statements.
abbrev pub IsFree : String → Type 0
IsFree n = All (λ w. n ≢ w) reserved

pub edge_line-text : (e : Edge) → IsSolid e → edge_line e ≡ join "  " (edge_tok e.from e.to)
unfolding edge_line text join
edge_line-text e h =
    rw (join-nil (node_id e.to))
      (rw (ap (λ (x : Edge). x.on_full) h) (rw (ap (λ (x : Edge). x.conditions) h) refl))

abbrev IsWord : String → Type 0
IsWord w = IsName w × (node_id w ≡ w)

words : All IsWord reserved
unfolding new_name check_dns_label check_chars all node_id map_chars
words = (
  (IsName-of_new "subgraph" refl, refl),
  (
    (IsName-of_new "style" refl, refl),
    (
      (IsName-of_new "classdef" refl, refl),
      (
        (IsName-of_new "class" refl, refl),
        (
          (IsName-of_new "linkstyle" refl, refl),
          ((IsName-of_new "direction" refl, refl), ((IsName-of_new "click" refl, refl), tt)),
        ),
      ),
    ),
  ),
)

free-Unreserved :
    (ws : List String) (n rest : String)
    → IsName n
    → All IsWord ws
    → All (λ w. n ≢ w) ws
    → All (λ w. strip_prefix (join w " ") (join (node_id n) (join " " rest)) ≡ none) ws
free-Unreserved [] n rest h a f = tt
free-Unreserved (w ∷ ws) n rest h ((hw, same), a) (ne, f) = (
  strip_prefix-word w (node_id n) rest
      (subst (NoChar (Is 32)) same (id-NoChar w 32 (λ c k. ground (arith, k)) hw))
      (id-NoChar n 32 (λ c k. ground (arith, k)) h)
      (λ e. ne (node_id_injective n w h hw (sym e ∙ sym same))),
  free-Unreserved ws n rest h a f,
)

pub edge-NoChar :
    (p : Char → Bool) (from to : String)
    → ((c : Char) → id_char c ≡ true → not (p c) ≡ true)
    → NoChar p " --> "
    → IsName from
    → IsName to
    → NoChar p (edge_tok from to)
edge-NoChar p from to f a hf ht =
    AllChars-join _ (node_id from) _
      (AllChars-weaken id_char (λ c. not (p c)) (node_id from) f (node_id-AllChars from hf))
      (AllChars-join _ " --> " (node_id to) a
        (AllChars-weaken id_char (λ c. not (p c)) (node_id to) f (node_id-AllChars to ht)))

edge_tok-ne_end : (from to : String) → edge_tok from to ≢ "end"
unfolding join
edge_tok-ne_end from to e =
    let plain : AllChars (λ c. not (Is 32 c)) "end" = (refl, (refl, (refl, tt))) in
    let all = subst (AllChars (λ c. not (Is 32 c))) (sym e) plain in
    let after : NoChar (Is 32) (join " --> " (node_id to)) =
      AllChars-right _ (node_id from) _ all in
    absurd (ground (arith, after.0))

id-white : (n : String) → IsName n → NoChar is_white (node_id n)
id-white n h =
    AllChars-weaken id_char (λ c. not (is_white c)) (node_id n) (λ c k. ground (arith, k))
      (node_id-AllChars n h)

edge_tok-trim_end :
    (from to : String) → IsName to → trim_end_by is_white (edge_tok from to) ≡ edge_tok from to
edge_tok-trim_end from to h =
    let ne = id_nonempty to h in
    let same = trim_end-none is_white (node_id to) (id-white to h) in
    let right : trim_end_by is_white (join " --> " (node_id to)) ≡ join " --> " (node_id to) =
      trim_end-join is_white " --> " (node_id to) (subst (λ x. x ≢ "") (sym same) ne)
      ∙ ap (join " --> ") same in
    trim_end-join is_white (node_id from) (join " --> " (node_id to))
      (subst (λ x. x ≢ "") (sym right) (join_nonempty " --> " (node_id to) ne))
    ∙ ap (join (node_id from)) right

pub read_line-edge :
    (p : Parsed) (e : Edge)
    → IsSolid e
    → IsName e.from
    → IsName e.to
    → IsFree e.from
    → read_line (reading p) (edge_line e) ≡ ok (declaration (reading p) (edge_tok e.from e.to))
read_line-edge p e solid hf ht free = rw (edge_line-text e solid) (
    read_line-indented p (edge_tok e.from e.to)
      (edge-NoChar (Is b'%') e.from e.to (λ c k. ground (arith, k))
        (refl, (refl, (refl, (refl, (refl, tt))))) hf ht)
      (trim_start-head is_white (node_id e.from) _ (id_nonempty e.from hf) (id-white e.from hf))
      (edge_tok-trim_end e.from e.to ht)
      (join_nonempty_left (node_id e.from) _ (id_nonempty e.from hf))
      (unfold join in free-Unreserved reserved e.from (join "--> " (node_id e.to)) hf words free)
      (to_lower-none (edge_tok e.from e.to) (
        edge-NoChar is_upper e.from e.to (λ c k. ground (arith, k))
          (refl, (refl, (refl, (refl, (refl, tt))))) hf ht))
      (edge_tok-ne_end e.from e.to))

abbrev pub read_edge : String → String → EdgeText
read_edge from to = record { start = node_id from; op = "-->"; label = none; end = node_id to }

find_op-arrow : (s : String) → find_op (join " --> " s) ≡ some ("", ("-->", join " " s))
unfolding find_op op_at strip_prefix join
find_op-arrow s = refl

label_and_end-id : (n : String) → IsName n → label_and_end (node_id n) ≡ some (none, node_id n)
unfolding label_and_end node_id
label_and_end-id n h =
    rw
      (
        label_and_end,
        strip_prefix-other "|" "" (node_id n) (id-NoChar n b'|' (λ c k. ground (arith, k)) h),
      )
      (ap (λ s. some (none, s)) (trim-none (node_id n) (id-white n h)))

trim_start-space :
    (n : String) → IsName n → trim_start_by is_white (join " " (node_id n)) ≡ node_id n
unfolding trim_start_by join
trim_start-space n h = trim_start-none is_white (node_id n) (id-white n h)

pub parse_edge-tok :
    (from to : String)
    → IsName from
    → IsName to
    → parse_edge (edge_tok from to) ≡ some (read_edge from to)
unfolding parse_edge Option.bind
parse_edge-tok from to hf ht =
    rw
      (find_op-after (node_id from) (join " --> " (node_id to)) ("-->", join " " (node_id to))
        (id-NoChar from 32 (λ c k. ground (arith, k)) hf) (find_op-arrow (node_id to)))
      (rw (trim_start-space to ht) (
        rw (label_and_end-id to ht) (
          rw (trim-none (node_id from) (id-white from hf)) (
            rw (not_empty_text (node_id from) (id_nonempty from hf))
              (rw (not_empty_text (node_id to) (id_nonempty to ht)) refl)))))

bare_shapes :
    (ss : List Shape) (tok : String)
    → All (λ s. inside s tok ≡ none) ss
    → (parse_shapes ss tok).id ≡ tok
bare_shapes [] tok h = unfold parse_shapes in refl
bare_shapes (s ∷ ss) tok (h, hs) =
    ap (λ (x : NodeText). x.id) (parse_shapes-skip s ss tok h) ∙ bare_shapes ss tok hs

-- An id alone is read as itself.
pub parse_node-id : (n : String) → IsName n → (parse_node (node_id n)).id ≡ node_id n
parse_node-id n h =
    let round = id-NoChar n b'(' (λ c k. ground (arith, k)) h in
    let square = id-NoChar n b'[' (λ c k. ground (arith, k)) h in
    let brace = id-NoChar n b'{' (λ c k. ground (arith, k)) h in
    bare_shapes shapes (node_id n) (
      inside-none "(" "[" ("])", some source) (node_id n) round,
      (
        inside-none "[" "[" ("]]", some sink) (node_id n) square,
        (
          inside-none "(" "(" ("))", none) (node_id n) round,
          (
            inside-none "{" "{" ("}}", some reduce) (node_id n) brace,
            (
              inside-none "[" "" ("]", some VertexKind.map) (node_id n) square,
              (inside-none "(" "" (")", none) (node_id n) round, tt),
            ),
          ),
        ),
      ),
    )
