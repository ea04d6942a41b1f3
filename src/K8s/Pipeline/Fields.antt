-- ===== src/K8s/Pipeline/Fields.antt =====
-- What crates/nfctl-k8s/src/dto/pipeline.rs reads the fields of a vertex and of an edge as.
use nfctl.Common.{
  String, true, false, Option, none, some, ◌==◌, string_eq, nat_eq, option_eq, is_some, ok, map_err,
  ok_injective, ok_of_bind, ◌≡◌, ◌↔◌, ◌⊎◌, inl, inr, refl, ap, Bool-cases, eq_of_beq, or_else,
}
use mathlib.Core.Option
use nfctl.Model.Ids.{new_name, max_label}
use nfctl.Model.Topology.{
  VertexKind, reduce, Vertex, TagOperator, TagCondition, OnFull, retry_until_success,
  discard_latest, Edge,
}
use nfctl.K8s.Object.{vertex_name, edge_from, edge_to}
use nfctl.K8s.Dto.{VertexDto, UdfDto, ScaleDto, EdgeDto, TagsDto}
use nfctl.K8s.Pipeline.Parts.{name-ok, tags_text}
use nfctl.K8s.Pipeline.{
  kind_of_udf, scale_of, kind_of_markers, vertex_of, operator_of, tags_of, policy_of, edge_of,
}

-- A udf that groups.
abbrev pub Groups : {J : Type 0} → Option (UdfDto J) → Type 0
Groups none = ⊥
Groups (some u) = is_some u.group_by ≡ true

-- The kind of a vertex that is no source and no sink, its image and its scale.
pub record VertexFields {J : Type 0} (d : VertexDto J) (v : Vertex) : Type 0 where
  pub reduces : (v.kind ≡ reduce) ↔ Groups d.udf
  pub maps : (v.kind ≡ VertexKind.map) ↔ ((is_some d.udf ≡ true) × (¬ Groups d.udf))
  pub image : v.image ≡ Option.bind d.udf (λ u. Option.bind u.container (λ c. c.image))
  pub min : v.scale.min ≡ Option.bind d.scale (λ s. s.min)
  pub max : v.scale.max ≡ Option.bind d.scale (λ s. s.max)
  pub disabled : v.scale.disabled ≡ or_else (Option.map (λ s. s.disabled) d.scale) false

-- The texts of an operator and of a policy; the first of each is the default.
abbrev pub OperatorText : TagOperator → Option String → Type 0
OperatorText TagOperator.or o = (o ≡ none) ⊎ (o ≡ some "or")
OperatorText TagOperator.and o = o ≡ some "and"
OperatorText TagOperator.not_ o = o ≡ some "not"

abbrev pub PolicyText : OnFull → Option String → Type 0
PolicyText retry_until_success o = (o ≡ none) ⊎ (o ≡ some "retryUntilSuccess")
PolicyText discard_latest o = o ≡ some "discardLatest"

abbrev pub TagsOf : Option TagsDto → Option TagCondition → Type 0
TagsOf none none = Unit
TagsOf (some t) (some c) = OperatorText c.operator t.operator × (c.values ≡ t.values)
TagsOf _ _ = ⊥

pub record EdgeFields (d : EdgeDto) (e : Edge) : Type 0 where
  pub from : e.from ≡ d.from
  pub to : e.to ≡ d.to
  pub tags : TagsOf (tags_text d) e.conditions
  pub policy : PolicyText e.on_full d.on_full

operator_of-OperatorText :
    (o : Option String) (t : TagOperator) → operator_of o ≡ ok t → OperatorText t o
unfolding operator_of
operator_of-OperatorText none t h = rw (← ok_injective h) (inl refl)
operator_of-OperatorText (some s) t h = elim (Bool-cases (s == "or")) [
  | inl p ↦ rw (← ok_injective (rw p at h)) (inr (ap some (eq_of_beq s "or" p)))
  | inr p ↦ elim (Bool-cases (s == "and")) [
    | inl q ↦ rw (← ok_injective (rw q at (rw p at h))) (ap some (eq_of_beq s "and" q))
    | inr q ↦ elim (Bool-cases (s == "not")) [
      | inl r ↦ rw (← ok_injective (rw r at (rw q at (rw p at h)))) (ap some (eq_of_beq s "not" r))
      | inr r ↦ absurd (cc (rw r at (rw q at (rw p at h))))
    ]
  ]
]

policy_of-PolicyText : (o : Option String) (t : OnFull) → policy_of o ≡ ok t → PolicyText t o
unfolding policy_of
policy_of-PolicyText none t h = rw (← ok_injective h) (inl refl)
policy_of-PolicyText (some s) t h = elim (Bool-cases (s == "discardLatest")) [
  | inl p ↦ rw (← ok_injective (rw p at h)) (ap some (eq_of_beq s "discardLatest" p))
  | inr p ↦ elim (Bool-cases (s == "retryUntilSuccess")) [
    | inl q ↦
        rw (← ok_injective (rw q at (rw p at h)))
          (inr (ap some (eq_of_beq s "retryUntilSuccess" q)))
    | inr q ↦ absurd (cc (rw q at (rw p at h)))
  ]
]

tags_of-TagsOf : (t : Option TagsDto) (c : Option TagCondition) → tags_of t ≡ ok c → TagsOf t c
unfolding tags_of
tags_of-TagsOf none c h = rw (← ok_injective h) tt
tags_of-TagsOf (some t) c h =
    let (o, p, q) = ok_of_bind (operator_of t.operator) _ h in
    rw (← ok_injective q) (operator_of-OperatorText t.operator o p, refl)

pub edge_of-EdgeFields : (d : EdgeDto) (e : Edge) → edge_of d ≡ ok e → EdgeFields d e
unfolding edge_of
edge_of-EdgeFields d e h =
    let (from, from_ok, h1) =
      ok_of_bind (map_err (edge_from d.from) (new_name max_label d.from)) _ h in
    let (to, to_ok, h2) = ok_of_bind (map_err (edge_to d.to) (new_name max_label d.to)) _ h1 in
    let (c, tags, h3) = ok_of_bind (tags_of (tags_text d)) _ h2 in
    let (p, policy, made) = ok_of_bind (policy_of d.on_full) _ h3 in
    rw (← ok_injective made) (record {
      from = (name-ok (edge_from d.from) d.from from from_ok).0;
      to = (name-ok (edge_to d.to) d.to to to_ok).0;
      tags = tags_of-TagsOf (tags_text d) c tags;
      policy = policy_of-PolicyText d.on_full p policy;
    })

kind_of_udf_iff :
    {J : Type 0} (g : Option J)
    → ((kind_of_udf g ≡ reduce) ↔ (is_some g ≡ true))
      × ((kind_of_udf g ≡ VertexKind.map) ↔ (¬ (is_some g ≡ true)))
kind_of_udf_iff none = ((λ q. cc, λ q. cc), (λ q r. cc, λ q. refl))
kind_of_udf_iff (some x) = ((λ q. refl, λ q. refl), (λ q r. cc, λ q. absurd (q refl)))

scale_of-fields :
    (s : Option ScaleDto)
    → ((scale_of s).min ≡ Option.bind s (λ x. x.min))
      × ((scale_of s).max ≡ Option.bind s (λ x. x.max))
      × ((scale_of s).disabled ≡ or_else (Option.map (λ x. x.disabled) s) false)
unfolding Option.bind
scale_of-fields none = (refl, refl, refl)
scale_of-fields (some s) = (refl, refl, refl)

markers-fields :
    {J : Type 0} (d : VertexDto J) (s k : Option J) (u : Option (UdfDto J))
    {r : VertexKind × Option String}
    → kind_of_markers d s k u ≡ ok r
    → ((r.0 ≡ reduce) ↔ Groups u)
      × ((r.0 ≡ VertexKind.map) ↔ ((is_some u ≡ true) × (¬ Groups u)))
      × (r.1 ≡ Option.bind u (λ x. Option.bind x.container (λ c. c.image)))
unfolding kind_of_markers Option.bind
markers-fields d (some s) none none h =
    rw (← ok_injective h) ((λ q. cc, λ q. absurd q), (λ q. cc, λ q. cc), refl)
markers-fields d none (some s) none h =
    rw (← ok_injective h) ((λ q. cc, λ q. absurd q), (λ q. cc, λ q. cc), refl)
markers-fields d none none (some u) h =
    rw (← ok_injective h)
      (let (a, b) = kind_of_udf_iff u.group_by in (a, (λ q. (refl, b.0 q), λ q. b.1 q.1), refl))
markers-fields d none none none h = cc
markers-fields d (some s) (some k) u h = cc
markers-fields d (some s) none (some u) h = cc
markers-fields d none (some k) (some u) h = cc

pub vertex_of-VertexFields :
    {J : Type 0} (d : VertexDto J) (v : Vertex) → vertex_of d ≡ ok v → VertexFields d v
unfolding vertex_of Option.bind
vertex_of-VertexFields d v h = elim (Bool-cases (d.partitions == some 0)) [
  | inl p ↦
      let (n, _, q) = ok_of_bind (map_err (vertex_name d.name) (new_name max_label d.name)) _ h in
      absurd (cc (rw p at q))
  | inr p ↦
      let (n, _, q) = ok_of_bind (map_err (vertex_name d.name) (new_name max_label d.name)) _ h in
      let (k, kinds, made) = ok_of_bind (kind_of_markers d d.source d.sink d.udf) _ (rw p at q) in
      let (reduces, maps, image) = markers-fields d d.source d.sink d.udf kinds in
      let (min, max, disabled) = scale_of-fields d.scale in
      rw (← ok_injective made) (record {
        reduces = reduces;
        maps = maps;
        image = image;
        min = min;
        max = max;
        disabled = disabled;
      })
]
