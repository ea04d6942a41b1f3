-- ===== src/K8s/Pipeline/Parts.antt =====
-- Which vertices and edges crates/nfctl-k8s/src/dto/pipeline.rs converts, and into what.
use Prim.Native.String.{len}
use nfctl.Common.{
  ℕ, zero, suc, ◌+◌, ◌≤◌, String, Bool, true, false, [], ◌∷◌, Option, none, some, ◌==◌, string_eq,
  nat_eq, option_eq, is_some, ok, map_err, Result-cases, ok_injective, ok_of_bind, ◌≡◌, ◌≢◌, ◌↔◌,
  inl, inr, refl, sym, ap, ◌∙◌, arith, Bool-cases, eq_of_beq, ne_of_beq,
}
use mathlib.Core.Option
use nfctl.Model.Ids.{InvalidName, new_name, max_label, chars}
use nfctl.Model.Ids.Grammar.{IsLabel, new_name_iff}
use nfctl.Model.Topology.{VertexKind, source, sink, reduce, Vertex, Edge}
use nfctl.K8s.Object.{vertex_name, edge_from, edge_to}
use nfctl.K8s.Dto.{VertexDto, UdfDto, EdgeDto, TagsDto}
use nfctl.K8s.Pipeline.Texts.{OneOf, operator_text, tags_of_iff, policy_of_iff}
use nfctl.K8s.Pipeline.{
  scale_of, kind_of_markers, kind_of_udf, partitions_of, vertex_of, tags_of, policy_of, edge_of,
}

-- A name that Kubernetes lets through: an RFC 1123 label.
abbrev pub IsName : String → Type 0
IsName s = IsLabel (chars s) × (len s ≤ max_label)

abbrev bit : Bool → ℕ
bit true = 1
bit false = 0

-- How many of `source`, `sink` and `udf` a vertex sets.
abbrev pub markers : {J : Type 0} → VertexDto J → ℕ
markers d = bit (is_some d.source) + bit (is_some d.sink) + bit (is_some d.udf)

pub record VertexOk {J : Type 0} (d : VertexDto J) : Type 0 where
  pub named : IsName d.name
  pub some_partition : d.partitions ≢ some 0
  pub one_marker : markers d ≡ 1

abbrev pub tags_text : EdgeDto → Option TagsDto
tags_text d = Option.bind d.conditions (λ c. c.tags)

pub record EdgeOk (d : EdgeDto) : Type 0 where
  pub from : IsName d.from
  pub to : IsName d.to
  pub operator : OneOf (operator_text (tags_text d)) ("or" ∷ "and" ∷ "not" ∷ [])
  pub policy : OneOf d.on_full ("discardLatest" ∷ "retryUntilSuccess" ∷ [])

pub name-ok :
    {E : Type 0} (g : InvalidName → E) (s n : String)
    → map_err g (new_name max_label s) ≡ ok n
    → (n ≡ s) × IsName s
name-ok g s n h = elim (Result-cases (new_name max_label s)) [
  | inl (m, p) ↦
      let (q, label, short) = (new_name_iff max_label s m).0 p in
      (ok_injective (sym h ∙ ap (map_err g) p) ∙ q, (label, short))
  | inr (x, p) ↦ absurd (cc (h, ap (map_err g) p))
]

pub ok-name :
    {E : Type 0} (g : InvalidName → E) (s : String)
    → IsName s
    → map_err g (new_name max_label s) ≡ ok s
ok-name g s h = rw ((new_name_iff max_label s s).1 (refl, h.0, h.1))

-- What the fields of a converted vertex are.
pub record VertexOf {J : Type 0} (d : VertexDto J) (v : Vertex) : Type 0 where
  pub name : v.name ≡ d.name
  pub source_iff : (v.kind ≡ source) ↔ (is_some d.source ≡ true)
  pub sink_iff : (v.kind ≡ sink) ↔ (is_some d.sink ≡ true)
  pub at_least_one : 1 ≤ v.partitions
  pub single : v.kind ≡ source → v.partitions ≡ 1
  pub counted : (n : ℕ) → v.kind ≢ source → d.partitions ≡ some n → v.partitions ≡ n

kind_of_udf-ne : {J : Type 0} (g : Option J) → (kind_of_udf g ≢ source) × (kind_of_udf g ≢ sink)
kind_of_udf-ne none = ground arith
kind_of_udf-ne (some x) = ground arith

markers-ok :
    {J : Type 0} (d : VertexDto J) (s k : Option J) (u : Option (UdfDto J))
    {r : VertexKind × Option String}
    → kind_of_markers d s k u ≡ ok r
    → (bit (is_some s) + bit (is_some k) + bit (is_some u) ≡ 1)
      × ((r.0 ≡ source) ↔ (is_some s ≡ true))
      × ((r.0 ≡ sink) ↔ (is_some k ≡ true))
unfolding kind_of_markers
markers-ok d (some s) none none h = ground arith
markers-ok d none (some s) none h = ground arith
markers-ok d none none (some u) h =
    let (a, b) = kind_of_udf-ne u.group_by in
    let same = ap (λ (x : VertexKind × Option String). x.0) (ok_injective h) in
    (refl, (λ q. absurd (a (same ∙ q)), λ q. cc), (λ q. absurd (b (same ∙ q)), λ q. cc))
markers-ok d none none none h = cc
markers-ok d (some s) (some k) u h = cc
markers-ok d (some s) none (some u) h = cc
markers-ok d none (some k) (some u) h = cc

ok-markers :
    {J : Type 0} (d : VertexDto J) (s k : Option J) (u : Option (UdfDto J))
    → bit (is_some s) + bit (is_some k) + bit (is_some u) ≡ 1
    → (r : VertexKind × Option String) × (kind_of_markers d s k u ≡ ok r)
unfolding kind_of_markers
ok-markers d (some s) none none h = (_, refl)
ok-markers d none (some s) none h = (_, refl)
ok-markers d none none (some u) h = (_, refl)
ok-markers d none none none h = cc
ok-markers d (some s) (some k) u h = ground arith
ok-markers d (some s) none (some u) h = ground arith
ok-markers d none (some k) (some u) h = ground arith

partitions-pos : (k : VertexKind) (n : Option ℕ) → n ≢ some 0 → 1 ≤ partitions_of k n
partitions-pos source n h = omega arith
partitions-pos sink none h = omega arith
partitions-pos sink (some zero) h = absurd (h refl)
partitions-pos sink (some (suc n)) h = omega arith
partitions-pos VertexKind.map none h = omega arith
partitions-pos VertexKind.map (some zero) h = absurd (h refl)
partitions-pos VertexKind.map (some (suc n)) h = omega arith
partitions-pos reduce none h = omega arith
partitions-pos reduce (some zero) h = absurd (h refl)
partitions-pos reduce (some (suc n)) h = omega arith

partitions-counted :
    (k : VertexKind) (m : ℕ) {n : Option ℕ} → k ≢ source → n ≡ some m → partitions_of k n ≡ m
partitions-counted source m ne q = absurd (ne refl)
partitions-counted sink m ne q = rw q refl
partitions-counted VertexKind.map m ne q = rw q refl
partitions-counted reduce m ne q = rw q refl

pub vertex_of_sound :
    {J : Type 0} (d : VertexDto J) (v : Vertex) → vertex_of d ≡ ok v → VertexOk d × VertexOf d v
unfolding vertex_of
vertex_of_sound d v h = elim (Bool-cases (d.partitions == some 0)) [
  | inl p ↦
      let (n, _, q) = ok_of_bind (map_err (vertex_name d.name) (new_name max_label d.name)) _ h in
      absurd (cc (rw p at q))
  | inr p ↦
      let (n, named, q) =
        ok_of_bind (map_err (vertex_name d.name) (new_name max_label d.name)) _ h in
      let (k, kinds, made) = ok_of_bind (kind_of_markers d d.source d.sink d.udf) _ (rw p at q) in
      let (same, legal) = name-ok (vertex_name d.name) d.name n named in
      let (one, is_source, is_sink) = markers-ok d d.source d.sink d.udf kinds in
      let e = ok_injective made in
      (
        record {
          named = legal;
          some_partition = ne_of_beq d.partitions (some 0) p;
          one_marker = one;
        },
        record {
          name = sym (ap (λ (x : Vertex). x.name) e) ∙ same;
          source_iff = rw (← e) is_source;
          sink_iff = rw (← e) is_sink;
          at_least_one =
              rw (← e) (partitions-pos k.0 d.partitions (ne_of_beq d.partitions (some 0) p));
          single = rw (← e) (λ q. rw q refl);
          counted = λ m ne q. rw (← e) (partitions-counted k.0 m (rw (← e) at ne) q);
        },
      )
]

pub vertex_of_complete :
    {J : Type 0} (d : VertexDto J) → VertexOk d → (v : Vertex) × (vertex_of d ≡ ok v)
unfolding vertex_of
vertex_of_complete d good =
    let (k, kinds) = ok-markers d d.source d.sink d.udf good.one_marker in
    elim (Bool-cases (d.partitions == some 0)) [
      | inl p ↦ absurd (good.some_partition (eq_of_beq d.partitions (some 0) p))
      | inr p ↦ (
        record {
          name = d.name;
          kind = k.0;
          partitions = partitions_of k.0 d.partitions;
          scale = scale_of d.scale;
          image = k.1;
        },
        rw (ok-name (vertex_name d.name) d.name good.named, p, kinds) refl,
      )
    ]

pub edge_of_sound :
    (d : EdgeDto) (e : Edge) → edge_of d ≡ ok e → EdgeOk d × (e.from ≡ d.from) × (e.to ≡ d.to)
unfolding edge_of
edge_of_sound d e h =
    let (from, from_ok, h1) =
      ok_of_bind (map_err (edge_from d.from) (new_name max_label d.from)) _ h in
    let (to, to_ok, h2) = ok_of_bind (map_err (edge_to d.to) (new_name max_label d.to)) _ h1 in
    let (c, tags, h3) = ok_of_bind (tags_of (tags_text d)) _ h2 in
    let (p, policy, made) = ok_of_bind (policy_of d.on_full) _ h3 in
    let (same_from, from_name) = name-ok (edge_from d.from) d.from from from_ok in
    let (same_to, to_name) = name-ok (edge_to d.to) d.to to to_ok in
    let q = ok_injective made in
    (
      record {
        from = from_name;
        to = to_name;
        operator = (tags_of_iff (tags_text d)).0 (c, tags);
        policy = (policy_of_iff d.on_full).0 (p, policy);
      },
      sym (ap (λ (x : Edge). x.from) q) ∙ same_from,
      sym (ap (λ (x : Edge). x.to) q) ∙ same_to,
    )

pub edge_of_complete : (d : EdgeDto) → EdgeOk d → (e : Edge) × (edge_of d ≡ ok e)
unfolding edge_of
edge_of_complete d good =
    let (c, tags) = (tags_of_iff (tags_text d)).1 good.operator in
    let (p, policy) = (policy_of_iff d.on_full).1 good.policy in
    (
      record { from = d.from; to = d.to; conditions = c; on_full = p },
      rw
          (
            ok-name (edge_from d.from) d.from good.from,
            ok-name (edge_to d.to) d.to good.to,
            tags,
            policy,
          )
          refl,
    )
