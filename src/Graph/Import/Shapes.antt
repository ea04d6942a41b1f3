-- ===== src/Graph/Import/Shapes.antt =====
-- A node that `to_mermaid` writes is read by `parse_node` (crates/nfctl-graph/src/mermaid_in.rs).
use Prim.Native.Char.{Char, code}
use nfctl.Common.{
  ℕ, String, true, not, List, ◌∷◌, Option, none, some, string_eq, ◌≡◌, refl, ◌∙◌, arith, eqb,
}
use nfctl.Model.Ids.{join}
use nfctl.Model.Topology.{VertexKind, source, sink, reduce}
use nfctl.Graph.Scan.{strip_prefix, trim, trim_by, is_quote}
use nfctl.Graph.Scan.Chars.{NoChar, Is, AllChars-join}
use nfctl.Graph.Scan.Patterns.{split_once-skip_text, split_once-twice}
use nfctl.Graph.Mermaid.{opening, closing, node_id, quote}
use nfctl.Graph.Import.{Shape, inside, parse_shapes, NodeText, parse_node}
use nfctl.Graph.Import.Names.{IsName, name_char, id_char}
use nfctl.Graph.Import.Lines.{
  node_text, inside-none, id_nonempty, id-NoChar, node_text-AllChars, quote-AllChars, label-name,
  inside-own,
}

abbrev pub read_node : String → VertexKind → NodeText
read_node name kind = record { id = node_id name; label = name; kind = some kind }

pub parse_shapes-skip :
    (s : Shape) (ss : List Shape) (tok : String)
    → inside s tok ≡ none
    → parse_shapes (s ∷ ss) tok ≡ parse_shapes ss tok
unfolding parse_shapes
parse_shapes-skip s ss tok h = rw (parse_shapes, h) refl

parse_shapes-own :
    (s : Shape) (ss : List Shape) (tok id body : String)
    → inside s tok ≡ some (id, body)
    → parse_shapes (s ∷ ss) tok
      ≡ record { id = id; label = trim_by is_quote (trim body); kind = s.1.1 }
unfolding parse_shapes
parse_shapes-own s ss tok id body h = rw (parse_shapes, h) refl

parse_shapes-name :
    (s : Shape) (ss : List Shape) (tok n : String) (kind : VertexKind)
    → IsName n
    → s.1.1 ≡ some kind
    → inside s tok ≡ some (node_id n, quote n)
    → parse_shapes (s ∷ ss) tok ≡ read_node n kind
parse_shapes-name s ss tok n kind h k e =
    parse_shapes-own s ss tok (node_id n) (quote n) e ∙ cc (label-name n h, k)

module _ (n : String) (h : IsName n) where
  -- A character that stands neither in ids nor in names.
  abbrev Foreign : ℕ → Type 0
  Foreign k =
      ((c : Char) → id_char c ≡ true → not (eqb (code c) k) ≡ true)
      × ((c : Char) → name_char c ≡ true → not (eqb (code c) k) ≡ true)
      × (not (eqb b'"' k) ≡ true)

  text-NoChar :
      (k : ℕ) (kind : VertexKind)
      → Foreign k
      → NoChar (Is k) (opening kind)
      → NoChar (Is k) (closing kind)
      → NoChar (Is k) (node_text n kind)
  text-NoChar k kind (f, g, q) o c = node_text-AllChars (λ x. not (Is k x)) n kind f g q o c h

  Foreign-round : Foreign b'('
  Foreign-round = (λ c k. ground (arith, k), λ c k. ground (arith, k), refl)

  Foreign-square : Foreign b'['
  Foreign-square = (λ c k. ground (arith, k), λ c k. ground (arith, k), refl)

  Foreign-brace : Foreign b'{'
  Foreign-brace = (λ c k. ground (arith, k), λ c k. ground (arith, k), refl)

  own :
      (o : Char) (os : String) (k : Char) (ks : String) (kind : Option VertexKind)
      → Foreign (code o)
      → ((c : Char) → name_char c ≡ true → not (eqb (code c) (code k)) ≡ true)
      → not (eqb b'"' (code k)) ≡ true
      → strip_prefix (String.◌∷◌ o os) (join (String.◌∷◌ o os) (join (quote n) (String.◌∷◌ k ks)))
        ≡ some (join (quote n) (String.◌∷◌ k ks))
      → inside
          (String.◌∷◌ o os, (String.◌∷◌ k ks, kind))
          (join (node_id n) (join (String.◌∷◌ o os) (join (quote n) (String.◌∷◌ k ks))))
        ≡ some (node_id n, quote n)
  own o os k ks kind (f, g, q) gk qk e =
      inside-own o os k ks (node_id n) (quote n) kind (id-NoChar n (code o) f h)
        (quote-AllChars (λ x. not (Is (code k) x)) n gk qk h) (id_nonempty n h) e

  read_source : parse_node (node_text n source) ≡ read_node n source
  unfolding strip_prefix join
  read_source =
      parse_shapes-name _ _ (node_text n source) n source h refl
        (own "(" "[" "]" ")" (some source) Foreign-round (λ c k. ground (arith, k)) refl refl)

  skip :
      (o : Char) (os : String) (rest : String × Option VertexKind) (ss : List Shape)
      (kind : VertexKind)
      → Foreign (code o)
      → NoChar (Is (code o)) (opening kind)
      → NoChar (Is (code o)) (closing kind)
      → parse_shapes ((String.◌∷◌ o os, rest) ∷ ss) (node_text n kind)
        ≡ parse_shapes ss (node_text n kind)
  skip o os rest ss kind f a b =
      parse_shapes-skip _ ss (node_text n kind)
        (inside-none o os rest (node_text n kind) (text-NoChar (code o) kind f a b))

  read_sink : parse_node (node_text n sink) ≡ read_node n sink
  unfolding strip_prefix join
  read_sink =
      skip "(" "[" ("])", some source) _ sink Foreign-round (refl, (refl, tt)) (refl, (refl, tt))
      ∙ parse_shapes-name _ _ (node_text n sink) n sink h refl
          (own "[" "[" "]" "]" (some sink) Foreign-square (λ c k. ground (arith, k)) refl refl)

  read_reduce : parse_node (node_text n reduce) ≡ read_node n reduce
  unfolding strip_prefix join
  read_reduce =
      skip "(" "[" ("])", some source) _ reduce Foreign-round (refl, (refl, tt)) (refl, (refl, tt))
      ∙ (skip "[" "[" ("]]", some sink) _ reduce Foreign-square (refl, (refl, tt))
            (refl, (refl, tt))
          ∙ (skip "(" "(" ("))", none) _ reduce Foreign-round (refl, (refl, tt)) (refl, (refl, tt))
              ∙ parse_shapes-name _ _ (node_text n reduce) n reduce h refl (
                  own "{" "{" "}" "}" (some reduce) Foreign-brace (λ c k. ground (arith, k)) refl
                    refl)))

  one_square : inside ("[[", ("]]", some sink)) (node_text n VertexKind.map) ≡ none
  unfolding inside join
  one_square =
      rw
        (
          inside,
          split_once-skip_text "[" "[" (node_id n) (join "[" (join (quote n) "]"))
              (id-NoChar n b'[' (λ c k. ground (arith, k)) h)
              (split_once-twice "[" (join (quote n) "]") (
                AllChars-join _ (quote n) "]"
                  (quote-AllChars (λ c. not (Is b'[' c)) n (λ c k. ground (arith, k)) refl h)
                  (refl, tt))),
        )
        refl

  read_map : parse_node (node_text n VertexKind.map) ≡ read_node n VertexKind.map
  unfolding strip_prefix join
  read_map =
      skip "(" "[" ("])", some source) _ VertexKind.map Foreign-round (refl, tt) (refl, tt)
      ∙ (parse_shapes-skip _ _ (node_text n VertexKind.map) one_square
          ∙ (skip "(" "(" ("))", none) _ VertexKind.map Foreign-round (refl, tt) (refl, tt)
              ∙ (skip "{" "{" ("}}", some reduce) _ VertexKind.map Foreign-brace (refl, tt)
                    (refl, tt)
                  ∙ parse_shapes-name _ _ (node_text n VertexKind.map) n VertexKind.map h refl (
                      own "[" "" "]" "" (some VertexKind.map) Foreign-square
                        (λ c k. ground (arith, k)) refl refl))))

-- A node that is written is read with its name and its kind.
pub parse_node-text :
    (n : String) (kind : VertexKind) → IsName n → parse_node (node_text n kind) ≡ read_node n kind
parse_node-text n source h = read_source n h
parse_node-text n sink h = read_sink n h
parse_node-text n VertexKind.map h = read_map n h
parse_node-text n reduce h = read_reduce n h
