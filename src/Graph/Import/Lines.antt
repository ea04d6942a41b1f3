-- ===== src/Graph/Import/Lines.antt =====
-- The text of a node as `to_mermaid` (crates/nfctl-graph/src/mermaid.rs) writes it, and its parts.
use Prim.Native.Char.{Char, code}
use nfctl.Common.{
  ℕ, String, Bool, true, false, not, Option, none, some, ◌==◌, string_eq, ◌≡◌, ◌≢◌, inl, inr, refl,
  sym, ap, ◌∙◌, subst, arith, Bool-cases, eqb, eq_of_beq,
}
use nfctl.Model.Ids.{join, chars, first?}
use nfctl.Model.Topology.{VertexKind}
use nfctl.Graph.Scan.{
  strip_prefix, trim, trim_by, trim_start_by, trim_end_by, is_white, is_quote, map_chars,
}
use nfctl.Graph.Scan.Chars.{
  AllChars, NoChar, Is, AllChars-join, AllChars-weaken, false_of_not, trim_end-drop, trim_end-none,
  trim_start-none,
}
use nfctl.Graph.Scan.Patterns.{split_once-after, split_once-none, strip_suffix-join}
use nfctl.Graph.Mermaid.{text, opening, closing, node_id, quote, replace_quotes}
use nfctl.Graph.Import.{inside}
use nfctl.Model.Ids.Grammar.{EndsWell}
use nfctl.Graph.Import.Names.{IsName, name_char, id_char, node_id-AllChars}

-- The text of a node, without the spaces before it.
abbrev pub node_text : String → VertexKind → String
node_text name kind = join (node_id name) (join (opening kind) (join (quote name) (closing kind)))

replace_quotes-none : (by s : String) → NoChar is_quote s → replace_quotes by s ≡ s
unfolding replace_quotes
replace_quotes-none by String.[] a = refl
replace_quotes-none by (String.◌∷◌ c s) (h, a) =
    rw (false_of_not (is_quote c) h)
      (ap (λ (r : String). String.◌∷◌ c r) (replace_quotes-none by s a))

pub join-nil : (s : String) → join s "" ≡ s
unfolding join
join-nil String.[] = refl
join-nil (String.◌∷◌ c s) = ap (λ (r : String). String.◌∷◌ c r) (join-nil s)

pub join_assoc : (s t u : String) → join (join s t) u ≡ join s (join t u)
unfolding join
join_assoc String.[] t u = refl
join_assoc (String.◌∷◌ c s) t u = ap (λ (r : String). String.◌∷◌ c r) (join_assoc s t u)

-- A name and its quotes.
pub quote-name : (n : String) → IsName n → quote n ≡ String.◌∷◌ "\"" (join n "\"")
unfolding quote text join
quote-name n h =
    rw
      (replace_quotes-none "#quot;" n
        (AllChars-weaken name_char (λ c. not (is_quote c)) n (λ c k. ground (arith, k)) h.allowed))
      refl

pub quote-AllChars :
    (p : Char → Bool) (n : String)
    → ((c : Char) → name_char c ≡ true → p c ≡ true)
    → p "\"" ≡ true
    → IsName n
    → AllChars p (quote n)
quote-AllChars p n f q h =
    subst (AllChars p) (sym (quote-name n h))
      (q, AllChars-join p n "\"" (AllChars-weaken name_char p n f h.allowed) (q, tt))

name_nonempty : (n : String) → IsName n → n ≢ ""
name_nonempty n h = λ e. subst (λ s. EndsWell (first? (chars s))) e h.first

pub trim-none : (s : String) → NoChar is_white s → trim s ≡ s
trim-none s a = rw (trim_start-none is_white s a) (trim_end-none is_white s a)

pub trim_start-head :
    (p : Char → Bool) (n t : String) → n ≢ "" → NoChar p n → trim_start_by p (join n t) ≡ join n t
unfolding trim_start_by join
trim_start-head p String.[] t ne a = absurd (ne refl)
trim_start-head p (String.◌∷◌ c s) t ne (h, a) = rw (false_of_not (p c) h) refl

trim-quoted :
    (n : String) → n ≢ "" → NoChar is_quote n → trim_by is_quote (String.◌∷◌ "\"" (join n "\"")) ≡ n
unfolding trim_start_by trim_end_by
trim-quoted n ne a =
    rw (trim_start-head is_quote n "\"" ne a)
      (trim_end-drop is_quote n "\"" refl ∙ trim_end-none is_quote n a)

pub not_empty_text : (s : String) → s ≢ "" → (s == "") ≡ false
not_empty_text s ne = elim (Bool-cases (s == "")) [
  | inr f ↦ f
  | inl t ↦ absurd (ne (eq_of_beq s "" t))
]

-- The label between its quotes is the name.
pub label-name : (n : String) → IsName n → trim_by is_quote (trim (quote n)) ≡ n
label-name n h =
    let plain =
      AllChars-weaken name_char (λ c. not (is_quote c)) n (λ c k. ground (arith, k)) h.allowed in
    let clean = quote-AllChars (λ c. not (is_white c)) n (λ c k. ground (arith, k)) refl h in
    rw (trim-none (quote n) clean) (rw (quote-name n h) (trim-quoted n (name_nonempty n h) plain))

-- Within the opening and the closing of its own kind.
pub inside-own :
    (o : Char) (os : String) (k : Char) (ks id body : String) (kind : Option VertexKind)
    → NoChar (Is (code o)) id
    → NoChar (Is (code k)) body
    → id ≢ ""
    → strip_prefix (String.◌∷◌ o os) (join (String.◌∷◌ o os) (join body (String.◌∷◌ k ks)))
      ≡ some (join body (String.◌∷◌ k ks))
    → inside
        (String.◌∷◌ o os, (String.◌∷◌ k ks, kind))
        (join id (join (String.◌∷◌ o os) (join body (String.◌∷◌ k ks))))
      ≡ some (id, body)
unfolding inside
inside-own o os k ks id body kind a b ne h =
    rw
      (
        inside,
        split_once-after o os id (join (String.◌∷◌ o os) (join body (String.◌∷◌ k ks)))
            (join body (String.◌∷◌ k ks)) a h,
      )
      (rw (not_empty_text id ne) (rw (strip_suffix-join k ks body b) refl))

pub inside-none :
    (o : Char) (os : String) (rest : String × Option VertexKind) (tok : String)
    → NoChar (Is (code o)) tok
    → inside (String.◌∷◌ o os, rest) tok ≡ none
unfolding inside
inside-none o os rest tok a = rw (inside, split_once-none o os tok a) refl

pub id_nonempty : (n : String) → IsName n → node_id n ≢ ""
unfolding node_id map_chars
id_nonempty String.[] h = absurd h.first
id_nonempty (String.◌∷◌ c s) h = λ e. cc

-- No character of an id, and of a name in quotes.
pub id-NoChar :
    (n : String) (k : ℕ)
    → ((c : Char) → id_char c ≡ true → not (eqb (code c) k) ≡ true)
    → IsName n
    → NoChar (Is k) (node_id n)
id-NoChar n k f h = AllChars-weaken id_char (λ c. not (Is k c)) (node_id n) f (node_id-AllChars n h)

pub node_text-AllChars :
    (p : Char → Bool) (n : String) (kind : VertexKind)
    → ((c : Char) → id_char c ≡ true → p c ≡ true)
    → ((c : Char) → name_char c ≡ true → p c ≡ true)
    → p "\"" ≡ true
    → AllChars p (opening kind)
    → AllChars p (closing kind)
    → IsName n
    → AllChars p (node_text n kind)
node_text-AllChars p n kind f g q o k h =
    AllChars-join p (node_id n) _ (AllChars-weaken id_char p (node_id n) f (node_id-AllChars n h)) (
      AllChars-join p (opening kind) _ o
        (AllChars-join p (quote n) (closing kind) (quote-AllChars p n g q h) k))
