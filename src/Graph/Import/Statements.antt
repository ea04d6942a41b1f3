-- ===== src/Graph/Import/Statements.antt =====
-- The lines that `to_mermaid` (crates/nfctl-graph/src/mermaid.rs) writes, read one after the other.
use Prim.Native.Char.{Char, code}
use nfctl.Common.{
  String, Bool, false, ◌||◌, List, [], ◌∷◌, ◌++◌, none, some, ◌==◌, string_eq, ◌≡◌, ◌≢◌, inl, inr,
  refl, sym, ap, ◌∙◌, arith, Bool-cases, ok, eqb, All, map, eq_of_beq, ne_of_beq, Memᴰ,
}
use mathlib.Core.List.Memᴰ
use mathlib.Core.List.{append_assoc, append-nil}
use nfctl.Model.Ids.{join, VertexName}
use nfctl.Model.Topology.{source, sink, Vertex, Edge}
use nfctl.Model.Topology.Valid.{names, Fresh, AllResolve}
use nfctl.Graph.Scan.{lines, to_head, strip_prefix, split_once}
use nfctl.Graph.Scan.Chars.{NoChar}
use nfctl.Graph.Mermaid.{node_id, vertex_line, edge_line, end_lines}
use nfctl.Graph.Import.{
  Node, Nodes, Link, State, node_at, declare, declaration, parse_node, read_lines,
}
use nfctl.Graph.Import.Names.{IsName, node_id_injective}
use nfctl.Graph.Import.Drawn.{IsPlain, IsSolid, node_of, link_of, name-of_mem, mem-end}
use nfctl.Graph.Import.Lines.{node_text}
use nfctl.Graph.Import.Shapes.{parse_node-text}
use nfctl.Graph.Import.Reads.{reading, read_line-vertex, parse_edge-vertex}
use nfctl.Graph.Import.Links.{IsFree, edge_tok, read_line-edge, parse_edge-tok, parse_node-id}

abbrev pub is_break : Char → Bool
is_break c = eqb (code c) 10 || eqb (code c) 13

lines-line : (l s : String) → NoChar is_break l → lines (join l (join "\n" s)) ≡ l ∷ lines s
unfolding lines join
lines-line String.[] s a = refl
lines-line (String.◌∷◌ c l) s (h, a) =
    let (n, r) : (eqb (code c) 10 ≡ false) × (eqb (code c) 13 ≡ false) =
      (ground (arith, h), ground (arith, h)) in
    rw n (rw r (ap (to_head c) (lines-line l s a)))

-- Lines that are written are read back.
pub lines-end_lines : (ls : List String) → All (NoChar is_break) ls → lines (end_lines ls) ≡ ls
unfolding end_lines
lines-end_lines [] h = unfold lines in refl
lines-end_lines (l ∷ ls) (a, h) =
    lines-line l (end_lines ls) a ∙ ap (λ (xs : List String). l ∷ xs) (lines-end_lines ls h)

abbrev pub so_far : Nodes → List Link → State
so_far nodes links = reading (record { nodes = nodes; links = links; groups = [] })

-- The names that are not in `seen` are not declared.
abbrev pub Undeclared : Nodes → List VertexName → Type 0
Undeclared nodes seen =
    (n : VertexName) → IsName n → ¬ Memᴰ n seen → node_at nodes (node_id n) ≡ none

node_at-snoc :
    (nodes : Nodes) (k id : String) (x : Node)
    → node_at nodes id ≡ none
    → k ≢ id
    → node_at (nodes ++ (k, x) ∷ []) id ≡ none
unfolding node_at
node_at-snoc [] k id x h ne = elim (Bool-cases (k == id)) [
  | inl t ↦ absurd (ne (eq_of_beq k id t))
  | inr f ↦ rw f refl
]
node_at-snoc ((j, y) ∷ nodes) k id x h ne = elim (Bool-cases (j == id)) [
  | inl t ↦ absurd (cc (rw t at h))
  | inr f ↦ rw f (node_at-snoc nodes k id x (rw f at h) ne)
]

Undeclared-snoc :
    (nodes : Nodes) (seen : List VertexName) (v : Vertex)
    → IsName v.name
    → Undeclared nodes seen
    → Undeclared (nodes ++ node_of v ∷ []) (v.name ∷ seen)
Undeclared-snoc nodes seen v hv u n hn m =
    node_at-snoc nodes (node_id v.name) (node_id n) _ (u n hn (λ k. m (Memᴰ.tail k)))
      (λ e. m (Memᴰ.head (sym (node_id_injective v.name n hv hn e))))

declaration-vertex :
    (nodes : Nodes) (v : Vertex)
    → IsName v.name
    → node_at nodes (node_id v.name) ≡ none
    → declaration (so_far nodes []) (node_text v.name v.kind) ≡ so_far (nodes ++ node_of v ∷ []) []
unfolding declaration declare
declaration-vertex nodes v h u =
    rw (declaration, parse_edge-vertex v.name v.kind h)
      (rw (parse_node-text v.name v.kind h) (rw (declare, u) refl))

pub read_vertices :
    (vs : List Vertex) (nodes : Nodes) (seen : List VertexName) (rest : List String)
    → All IsPlain vs
    → Fresh seen (names vs)
    → Undeclared nodes seen
    → read_lines (so_far nodes []) (map vertex_line vs ++ rest)
      ≡ read_lines (so_far (nodes ++ map node_of vs) []) rest
unfolding read_lines
read_vertices [] nodes seen rest h f u =
    ap (λ ns. read_lines (so_far ns []) rest) (sym (append-nil nodes))
read_vertices (v ∷ vs) nodes seen rest ((hv, _), h) (fresh, f) u =
    rw (read_line-vertex (so_far nodes []).parsed v hv) (
      rw (declaration-vertex nodes v hv (u v.name hv fresh)) (
        read_vertices vs (nodes ++ node_of v ∷ []) (v.name ∷ seen) rest h f
          (Undeclared-snoc nodes seen v hv u)
        ∙ ap (λ ns. read_lines (so_far ns []) rest)
            (append_assoc nodes (node_of v ∷ []) (map node_of vs))))

-- What is declared stays as it is.
declare-known :
    (nodes : Nodes) (n : VertexName) (x : Node)
    → IsName n
    → node_at nodes (node_id n) ≡ some x
    → declare (parse_node (node_id n)) none nodes ≡ nodes
unfolding declare
declare-known nodes n x h e = rw (declare, parse_node-id n h, e) refl

declaration-edge :
    (nodes : Nodes) (links : List Link) (e : Edge) (x y : Node)
    → IsName e.from
    → IsName e.to
    → node_at nodes (node_id e.from) ≡ some x
    → node_at nodes (node_id e.to) ≡ some y
    → declaration (so_far nodes links) (edge_tok e.from e.to)
      ≡ so_far nodes (links ++ link_of e ∷ [])
unfolding declaration split_once strip_prefix
declaration-edge nodes links e x y hf ht ef et =
    rw (declaration, parse_edge-tok e.from e.to hf ht)
      (rw (declare-known nodes e.from x hf ef) (
        rw (declare-known nodes e.to y ht et)
          (rw (parse_node-id e.from hf) (rw (parse_node-id e.to ht) refl))))

node_at-declared :
    (vs : List Vertex) (n : VertexName)
    → Memᴰ n (names vs)
    → (x : Node) × (node_at (map node_of vs) (node_id n) ≡ some x)
unfolding node_at
node_at-declared [] n m = elim m [ ]
node_at-declared (v ∷ vs) n m = elim (Bool-cases (node_id v.name == node_id n)) [
  | inl t ↦ ((node_of v).1, rw t refl)
  | inr f ↦ elim (Memᴰ.cases_cons m) [
    | inl e ↦ absurd (ne_of_beq (node_id v.name) (node_id n) f (ap node_id (sym e)))
    | inr r ↦ let (x, h) = node_at-declared vs n r in (x, rw f h)
  ]
]

pub read_edges :
    (vs : List Vertex) (es : List Edge) (links : List Link)
    → All IsPlain vs
    → All IsSolid es
    → All (λ e. IsFree e.from) es
    → AllResolve vs es
    → read_lines (so_far (map node_of vs) links) (map edge_line es)
      ≡ ok (so_far (map node_of vs) (links ++ map link_of es))
unfolding read_lines
read_edges vs [] links h s f r = ap (λ ls. ok (so_far (map node_of vs) ls)) (sym (append-nil links))
read_edges vs (e ∷ es) links h (solid, s) (free, f) ((from, to), r) =
    let mf = mem-end vs e.from sink from in
    let mt = mem-end vs e.to source to in
    let hf = name-of_mem vs e.from h mf in
    let ht = name-of_mem vs e.to h mt in
    let (x, ex) = node_at-declared vs e.from mf in
    let (y, ey) = node_at-declared vs e.to mt in
    rw (read_line-edge (so_far (map node_of vs) links).parsed e solid hf ht free) (
      rw (declaration-edge (map node_of vs) links e x y hf ht ex ey) (
        read_edges vs es (links ++ link_of e ∷ []) h s f r
        ∙ ap (λ ls. ok (so_far (map node_of vs) ls))
            (append_assoc links (link_of e ∷ []) (map link_of es))))
