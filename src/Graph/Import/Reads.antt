-- ===== src/Graph/Import/Reads.antt =====
-- The statements that `parse` (crates/nfctl-graph/src/mermaid_in.rs) takes the lines of `to_mermaid` for.
use Prim.Native.Char.{Char, code}
use nfctl.Common.{
  String, Bool, true, false, not, ◌||◌, ◌&&◌, List, [], ◌∷◌, none, some, ◌==◌, string_eq, ◌≡◌, ◌≢◌,
  inl, inr, refl, sym, ap, ◌∙◌, subst, arith, Bool-cases, ok, eqb, leb, any, All, eq_of_beq,
}
use mathlib.Core.Option
use nfctl.Model.Ids.{join}
use nfctl.Model.Topology.{VertexKind, source, sink, reduce, Vertex}
use nfctl.Graph.Scan.{
  strip_prefix, trim, trim_start_by, trim_end_by, is_white, is_quote, to_lower, lower_char,
}
use nfctl.Graph.Scan.Chars.{
  AllChars, NoChar, Is, AllChars-join, AllChars-right, AllChars-weaken, map_chars-same,
  false_of_not, trim_end-none, trim_start-none,
}
use nfctl.Graph.Scan.Patterns.{strip_prefix-other, strip_prefix-no_space, strip_prefix-head}
use nfctl.Graph.Mermaid.{text, opening, closing, node_id, vertex_line}
use nfctl.Graph.Import.{
  op_at, ops, find_op, later_op, parse_edge, strip_comment, Parsed, State, statement, declaration,
  read_line,
}
use nfctl.Graph.Import.Names.{IsName, name_char, id_char}
use nfctl.Graph.Import.Lines.{
  node_text, node_text-AllChars, quote-name, id_nonempty, join-nil, not_empty_text,
}

strip_comment-none : (q : Bool) (s : String) → NoChar (Is b'%') s → strip_comment q s ≡ s
unfolding strip_comment
strip_comment-none q String.[] a = refl
strip_comment-none q (String.◌∷◌ c s) (h, a) = elim (Bool-cases (eqb (code c) b'"')) [
  | inl t ↦ rw t (ap (λ (r : String). String.◌∷◌ c r) (strip_comment-none (not q) s a))
  | inr f ↦ rw f (
      rw (strip_prefix-other "%" "%" (String.◌∷◌ c s) (h, a)) (
        rw (strip_comment-none q s a)
          (elim (Bool-cases q) [ inl t ↦ rw t refl | inr n ↦ rw n refl ])))
]

trim-indent :
    (tok : String)
    → trim_start_by is_white tok ≡ tok
    → trim_end_by is_white tok ≡ tok
    → trim (join "  " tok) ≡ tok
unfolding trim_start_by join
trim-indent tok a b = rw (a, b) refl

-- The words that begin other statements.
abbrev pub reserved : List String
reserved = "subgraph" ∷ "style" ∷ "classdef" ∷ "class" ∷ "linkstyle" ∷ "direction" ∷ "click" ∷ []

abbrev pub Unreserved : String → Type 0
Unreserved line = All (λ w. strip_prefix (join w " ") line ≡ none) reserved

statement-declaration :
    (st : State) (line : String)
    → Unreserved line
    → to_lower line ≡ line
    → line ≢ "end"
    → statement st line ≡ declaration st line
unfolding any join statement
statement-declaration st line (a, (b, (c, (d, (e, (f, (g, _))))))) low ne =
    elim (Bool-cases (line == "end")) [
      | inl t ↦ absurd (ne (eq_of_beq line "end" t))
      | inr k ↦ rw (statement, a, low, k, b, c, d, e, f, g) refl
    ]

-- The state after the header of a flowchart without groups.
abbrev pub reading : Parsed → State
reading p = record { parsed = p; stack = []; header_seen = true }

-- A line that is written with two spaces before it.
pub read_line-indented :
    (p : Parsed) (tok : String)
    → NoChar (Is b'%') tok
    → trim_start_by is_white tok ≡ tok
    → trim_end_by is_white tok ≡ tok
    → tok ≢ ""
    → Unreserved tok
    → to_lower tok ≡ tok
    → tok ≢ "end"
    → read_line (reading p) (join "  " tok) ≡ ok (declaration (reading p) tok)
unfolding read_line
read_line-indented p tok a b c ne u low e =
    rw (strip_comment-none false (join "  " tok) (AllChars-join _ "  " tok (refl, (refl, tt)) a)) (
      rw (trim-indent tok b c)
        (rw (not_empty_text tok ne) (ap ok (statement-declaration (reading p) tok u low e))))

op_at-none :
    (os : List String) (c : Char) (s : String)
    → not (Is 32 c) ≡ true
    → op_at os (String.◌∷◌ c s) ≡ none
unfolding join op_at
op_at-none [] c s h = refl
op_at-none (o ∷ os) c s h = rw (op_at, strip_prefix-head " " o c s h) (op_at-none os c s h)

find_op-step :
    (c : Char) (s : String)
    → not (Is 32 c) ≡ true
    → find_op (String.◌∷◌ c s) ≡ Option.map (later_op c) (find_op s)
unfolding find_op
find_op-step c s h = rw (find_op, op_at-none ops c s h) refl

find_op-none : (s : String) → NoChar (Is 32) s → find_op s ≡ none
find_op-none String.[] a = unfold find_op in refl
find_op-none (String.◌∷◌ c s) (h, a) =
    find_op-step c s h ∙ ap (Option.map (later_op c)) (find_op-none s a)

pub find_op-after :
    (s t : String) (p : String × String)
    → NoChar (Is 32) s
    → find_op t ≡ some ("", p)
    → find_op (join s t) ≡ some (s, p)
unfolding join
find_op-after String.[] t p a h = h
find_op-after (String.◌∷◌ c s) t p (k, a) h =
    find_op-step c (join s t) k ∙ ap (Option.map (later_op c)) (find_op-after s t p a h)

pub vertex_line-text : (v : Vertex) → vertex_line v ≡ join "  " (node_text v.name v.kind)
unfolding vertex_line text
vertex_line-text v = rw (join-nil (closing v.kind)) refl

abbrev pub is_upper : Char → Bool
is_upper c = leb b'A' (code c) && leb (code c) b'Z'

pub to_lower-none : (s : String) → NoChar is_upper s → to_lower s ≡ s
to_lower-none s a =
    map_chars-same lower_char (λ c. not (is_upper c)) s
      (λ c h. unfold lower_char in rw (false_of_not (is_upper c) h) refl) a

-- The characters of a node's text.
abbrev token_char : Char → Bool
token_char c =
    id_char c
    || name_char c
    || Is b'"' c
    || Is b'(' c
    || Is b'[' c
    || Is b'{' c
    || Is b')' c
    || Is b']' c
    || Is b'}' c

brackets :
    (kind : VertexKind) → AllChars token_char (opening kind) × AllChars token_char (closing kind)
brackets source = ((refl, (refl, tt)), (refl, (refl, tt)))
brackets sink = ((refl, (refl, tt)), (refl, (refl, tt)))
brackets VertexKind.map = ((refl, tt), (refl, tt))
brackets reduce = ((refl, (refl, tt)), (refl, (refl, tt)))

token : (n : String) (kind : VertexKind) → IsName n → AllChars token_char (node_text n kind)
token n kind h =
    node_text-AllChars token_char n kind (λ c k. ground (arith, k)) (λ c k. ground (arith, k)) refl
      (brackets kind).0 (brackets kind).1 h

pub token-NoChar :
    (p : Char → Bool) (n : String) (kind : VertexKind)
    → ((c : Char) → token_char c ≡ true → not (p c) ≡ true)
    → IsName n
    → NoChar p (node_text n kind)
token-NoChar p n kind f h =
    AllChars-weaken token_char (λ c. not (p c)) (node_text n kind) f (token n kind h)

pub join_nonempty_left : (s t : String) → s ≢ "" → join s t ≢ ""
unfolding join
join_nonempty_left String.[] t ne = absurd (ne refl)
join_nonempty_left (String.◌∷◌ c s) t ne = λ e. cc

node_text-ne_end : (n : String) (kind : VertexKind) → IsName n → node_text n kind ≢ "end"
unfolding join
node_text-ne_end n kind h e =
    let plain : AllChars (λ c. not (is_quote c)) "end" = (refl, (refl, (refl, tt))) in
    let all = subst (AllChars (λ c. not (is_quote c))) (sym e) plain in
    let after = AllChars-right _ (opening kind) _ (AllChars-right _ (node_id n) _ all) in
    let quoted : AllChars (λ c. not (is_quote c))
        (join (String.◌∷◌ "\"" (join n "\"")) (closing kind)) =
      subst (λ q. AllChars (λ c. not (is_quote c)) (join q (closing kind))) (quote-name n h)
        after in
    absurd (ground (arith, quoted.0))

no_space-Unreserved :
    (ws : List String) (s : String)
    → NoChar (Is 32) s
    → All (λ w. strip_prefix (join w " ") s ≡ none) ws
no_space-Unreserved [] s a = tt
no_space-Unreserved (w ∷ ws) s a = (strip_prefix-no_space w s a, no_space-Unreserved ws s a)

pub read_line-vertex :
    (p : Parsed) (v : Vertex)
    → IsName v.name
    → read_line (reading p) (vertex_line v) ≡ ok (declaration (reading p) (node_text v.name v.kind))
read_line-vertex p v h =
    let tok = node_text v.name v.kind in
    let white = token-NoChar is_white v.name v.kind (λ c k. ground (arith, k)) h in
    rw (vertex_line-text v) (
      read_line-indented p tok (token-NoChar (Is b'%') v.name v.kind (λ c k. ground (arith, k)) h)
        (trim_start-none is_white tok white) (trim_end-none is_white tok white)
        (join_nonempty_left (node_id v.name) _ (id_nonempty v.name h))
        (no_space-Unreserved reserved tok
          (token-NoChar (Is 32) v.name v.kind (λ c k. ground (arith, k)) h))
        (to_lower-none tok (token-NoChar is_upper v.name v.kind (λ c k. ground (arith, k)) h))
        (node_text-ne_end v.name v.kind h))

-- No edge stands in a vertex line.
pub parse_edge-vertex :
    (n : String) (kind : VertexKind) → IsName n → parse_edge (node_text n kind) ≡ none
unfolding parse_edge Option.bind
parse_edge-vertex n kind h =
    rw (find_op-none (node_text n kind) (token-NoChar (Is 32) n kind (λ c k. ground (arith, k)) h))
      refl
