-- ===== src/Graph/Import/Names.antt =====
-- Names in crates/nfctl-graph/src/mermaid.rs and mermaid_in.rs: a vertex name is kept by
-- `vertex_name`, and `node_id` gives two names two ids.
use Prim.Native.Char.{Char, code}
use nfctl.Common.{
  String, Bool, true, ◌||◌, inl, inr, ◌≡◌, refl, sym, ap, ◌∙◌, arith, all, ok, eqb, if◌then◌else◌,
  Bool-cases,
}
use text.Mathlib.TextEquality.{Char-path}
use nfctl.Model.Ids.{chars, first?, last?, ok_char, first_last_ok, new_name, max_label}
use nfctl.Model.Ids.Grammar.{IsLabel-chars, EndsWell, new_name_iff}
use nfctl.Graph.Scan.{trim_start_by, trim_end_by, to_lower, lower_char}
use nfctl.Graph.Scan.Chars.{
  AllChars, Is, AllChars-weaken, map_chars-same, map_chars-AllChars, map_chars_injective,
  keep_chars-all, keep_head,
}
use nfctl.Graph.Mermaid.{node_id}
use nfctl.Graph.Import.Build.{is_dash, dash_for, stays, vertex_name}

-- A character of a name, and of an id.
abbrev pub name_char : Char → Bool
name_char c = ok_char (code c)

abbrev pub id_char : Char → Bool
id_char c = first_last_ok (code c) || Is b'_' c

-- What `VertexName::new` lets through.
pub record IsName (n : String) : Type 0 where
  pub allowed : AllChars name_char n
  pub first : EndsWell (first? (chars n))
  pub last : EndsWell (last? (chars n))
  pub accepted : new_name max_label n ≡ ok n

AllChars-of_all : (s : String) → all ok_char (chars s) ≡ true → AllChars name_char s
unfolding all
AllChars-of_all String.[] h = tt
AllChars-of_all (String.◌∷◌ c s) h = (ground (arith, h), AllChars-of_all s (ground (arith, h)))

pub IsName-of_new : (n : String) → new_name max_label n ≡ ok n → IsName n
IsName-of_new n h =
    let (_, l, _) = (new_name_iff max_label n n).0 h in
    let (a, f, e) = IsLabel-chars l in
    record { allowed = AllChars-of_all n a; first = f; last = e; accepted = h }

trim_start-name : (n : String) → EndsWell (first? (chars n)) → trim_start_by is_dash n ≡ n
unfolding trim_start_by
trim_start-name String.[] f = refl
trim_start-name (String.◌∷◌ c s) f = ground (arith, f)

trim_end-name : (n : String) → EndsWell (last? (chars n)) → trim_end_by is_dash n ≡ n
unfolding trim_end_by
trim_end-name String.[] e = refl
trim_end-name (String.◌∷◌ c String.[]) e = ground (arith, e)
trim_end-name (String.◌∷◌ c (String.◌∷◌ d s)) e =
    rw (trim_end-name (String.◌∷◌ d s) e) (keep_head is_dash c (String.◌∷◌ d s) (inl (λ q. cc)))

pub lower-name : (n : String) → AllChars name_char n → to_lower n ≡ n
lower-name n a =
    map_chars-same lower_char name_char n (λ c h. unfold lower_char in ground (arith, h)) a

-- A vertex name that is read as a label is kept.
pub vertex_name-same : (n : String) → IsName n → vertex_name n ≡ n
unfolding vertex_name
vertex_name-same n h = rw (lower-name n h.allowed) (
    rw (map_chars-same dash_for name_char n (λ c k. ground (arith, k)) h.allowed) (
      rw
        (keep_chars-all stays n
          (AllChars-weaken name_char stays n (λ c k. ground (arith, k)) h.allowed))
        (rw (trim_start-name n h.first) (trim_end-name n h.last))))

abbrev to_id : Char → Char
to_id c = if eqb (code c) b'-' then "_" else c

to_id-code : (c : Char) → code (to_id c) ≡ (if eqb (code c) b'-' then b'_' else code c)
to_id-code c = elim (Bool-cases (eqb (code c) b'-')) [ inl t ↦ rw t refl | inr f ↦ rw f refl ]

to_id_injective : (c d : Char) → name_char c ≡ true → name_char d ≡ true → to_id c ≡ to_id d → c ≡ d
to_id_injective c d hc hd q =
    let e = sym (to_id-code c) ∙ (ap code q ∙ to_id-code d) in
    Char-path c d (ground (arith, hc, hd, e))

to_id-id_char : (c : Char) → name_char c ≡ true → id_char (to_id c) ≡ true
to_id-id_char c h = elim (Bool-cases (eqb (code c) b'-')) [
  | inl t ↦ rw t refl
  | inr f ↦ rw f (ground (arith, h, f))
]

-- Two names have two ids.
pub node_id_injective : (m n : String) → IsName m → IsName n → node_id m ≡ node_id n → m ≡ n
unfolding node_id
node_id_injective m n hm hn e =
    map_chars_injective to_id name_char m n to_id_injective hm.allowed hn.allowed e

pub node_id-AllChars : (n : String) → IsName n → AllChars id_char (node_id n)
unfolding node_id
node_id-AllChars n h = map_chars-AllChars to_id name_char id_char n to_id-id_char h.allowed
