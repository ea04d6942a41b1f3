-- ===== src/Service/Logs/Containers.antt =====
-- Which containers of a pod are tailed (`select_containers` in crates/nfctl-core/src/service/logs.rs).
use nfctl.Common.{
  Bool, true, false, not, List, [], ◌∷◌, map, Option, none, some, ◌≡◌, ◌↔◌, ◌⊎◌, refl, sym, ap,
  subst, inl, inr, Memᴰ, Bool-cases, keep, mem-keep, any-of_mem, mem_of_any, contains, contains_iff,
  if◌then◌else◌, ◌==◌, string_eq, eq_of_beq, beq_of_eq,
}
use mathlib.Core.List.Memᴰ
use nfctl.Model.Ids.{ContainerName}
use nfctl.Model.Pods.{PodRef, ContainerState, main_container}
use nfctl.Service.Logs.{
  ContainerSelect, default_containers, all_containers, named, has_container, add_default,
  select_containers,
}

-- The pod has a container of that name.
abbrev pub Has : PodRef → ContainerName → Type 0
Has pod n = (c : ContainerState) × Memᴰ c pod.containers × (c.name ≡ n)

-- What each choice asks for.
abbrev pub Asked : PodRef → ContainerSelect → ContainerName → Type 0
Asked pod all_containers n =
    (c : ContainerState) × Memᴰ c pod.containers × (c.name ≡ n) × (c.is_init ≡ false)
Asked pod (named names) n = Memᴰ n names × Has pod n
Asked pod default_containers n =
    ((n ≡ main_container) ⊎ (pod.default_container ≡ some n)) × Has pod n

has_container_iff : (pod : PodRef) (n : ContainerName) → (has_container pod n ≡ true) ↔ Has pod n
unfolding has_container
has_container_iff pod n = (
  λ h.
      let (c, m, q) = mem_of_any (λ (c : ContainerState). c.name == n) pod.containers h in
      (c, m, eq_of_beq c.name n q),
  λ (c, m, q).
      any-of_mem (λ (c : ContainerState). c.name == n) pod.containers m (beq_of_eq c.name n q),
)

-- The main container, if the pod has it.
abbrev mains : PodRef → List ContainerName
mains pod = if has_container pod main_container then main_container ∷ [] else []

mem-mains :
    (pod : PodRef) (n : ContainerName) → Memᴰ n (mains pod) ↔ ((n ≡ main_container) × Has pod n)
mem-mains pod n = elim (Bool-cases (has_container pod main_container)) [
  | inl p ↦ rw p (
    λ m.
        let e = Memᴰ.eq_of_singleton m in
        (e, subst (Has pod) (sym e) ((has_container_iff pod main_container).0 p)),
    λ (e, _). Memᴰ.head e,
  )
  | inr p ↦ rw p (
    λ m. elim m [ ],
    λ (e, h). absurd (cc (p, (has_container_iff pod main_container).1 (subst (Has pod) e h))),
  )
]

some_injective : {a b : ContainerName} → ◌≡◌ {A = Option ContainerName} (some a) (some b) → a ≡ b
some_injective q = cc

mem-add_default :
    (pod : PodRef) (d : Option ContainerName) (v : List ContainerName) (n : ContainerName)
    → Memᴰ n (add_default pod d v) ↔ (Memᴰ n v ⊎ ((d ≡ some n) × Has pod n))
unfolding add_default
mem-add_default pod none v n = (λ m. inl m, λ h. elim h [ inl m ↦ m | inr y ↦ cc (y.0) ])
mem-add_default pod (some d) v n = elim (Bool-cases (contains v d)) [
  | inl p ↦ rw p (
    λ m. inl m,
    λ h. elim h [
      | inl m ↦ m
      | inr y ↦ subst (λ x. Memᴰ x v) (some_injective y.0) ((contains_iff v d).0 p)
    ],
  )
  | inr p ↦ elim (Bool-cases (has_container pod d)) [
    | inl q ↦
        rw (p, q)
          (
            λ m. elim (Memᴰ.append_cases v m) [
              | inl a ↦ inl a
              | inr b ↦
                  let e = Memᴰ.eq_of_singleton b in
                  inr (ap some (sym e), subst (Has pod) (sym e) ((has_container_iff pod d).0 q))
            ],
            λ h. elim h [
              | inl a ↦ Memᴰ.append_left (d ∷ []) a
              | inr y ↦ Memᴰ.append_right v (Memᴰ.head (sym (some_injective y.0)))
            ],
          )
    | inr q ↦
        rw (p, q)
          (
            λ m. inl m,
            λ h. elim h [
              | inl a ↦ a
              | inr y ↦ absurd (
                  cc (
                    q,
                    (has_container_iff pod d).1 (subst (Has pod) (sym (some_injective y.0)) y.1),
                  ))
            ],
          )
  ]
]

not-true : (b : Bool) → not b ≡ true → b ≡ false
not-true true h = cc
not-true false h = refl

-- The containers that are tailed are exactly those that the choice asks for: all that are not init
-- containers; the named ones that the pod has; or, by default, the main container and the pod's
-- default container, as far as the pod has them.
pub mem-select_containers :
    (pod : PodRef) (sel : ContainerSelect) (n : ContainerName)
    → Memᴰ n (select_containers pod sel) ↔ Asked pod sel n
unfolding select_containers
mem-select_containers pod all_containers n =
    let kept =
      λ (c : ContainerState). mem-keep (λ (c : ContainerState). not c.is_init) pod.containers c in
    (
      λ m.
          let (c, k, e) = Memᴰ.of_map (λ (c : ContainerState). c.name) _ m in
          let (a, q) = (kept c).0 k in (c, a, e, not-true c.is_init q),
      λ (c, a, e, q).
          subst (λ x. Memᴰ x (map (λ c. c.name) (keep (λ c. not c.is_init) pod.containers))) e
            (Memᴰ.map (λ (c : ContainerState). c.name) ((kept c).1 (a, ap not q))),
    )
mem-select_containers pod (named names) n =
    let kept = mem-keep (has_container pod) names n in
    let has = has_container_iff pod n in
    (λ m. let (a, q) = kept.0 m in (a, has.0 q), λ (a, h). kept.1 (a, has.1 h))
mem-select_containers pod default_containers n =
    let added = mem-add_default pod pod.default_container (mains pod) n in
    let first = mem-mains pod n in
    (
      λ m. elim (added.0 m) [
        | inl a ↦ (inl (first.0 a).0, (first.0 a).1)
        | inr (e, h) ↦ (inr e, h)
      ],
      λ (o, h). elim o [ inl e ↦ added.1 (inl (first.1 (e, h))) | inr e ↦ added.1 (inr (e, h)) ],
    )
