-- ===== src/Graph/View/Groups.antt =====
-- The shards that crates/nfctl-graph/src/view.rs collapses make up groups of the vertices.
use nfctl.Common.{
  String, Bool, List, [], ◌∷◌, none, some, ◌==◌, string_eq, option_eq, keep, all, mem-keep, ◌≡◌,
  ◌↔◌, ◌⊎◌, inl, inr, refl, sym, ap, ◌∙◌, subst, Memᴰ, Bool-cases, Option-cases, eq_of_beq,
  beq_of_eq,
}
use mathlib.Core.Option
use mathlib.Core.List.Memᴰ
use nfctl.Common.Sort.{sort_by, insert}
use nfctl.Model.Ids.{VertexName}
use nfctl.Model.Topology.{Topology}
use nfctl.Model.Topology.Valid.{names, Fresh}
use nfctl.Graph.Shards.{stem_of}
use nfctl.Graph.View.Build.{members_of}
use nfctl.Graph.View.Collapse.{
  shards_of, accept, accepted, shard_group, by_index, same_signature, signature,
}
use nfctl.Graph.View.Partition.{Distinct, IsGrouping}

module _ {ℓ} {A : Type ℓ} (le : A → A → Bool) where
  mem-insert : (x : A) (xs : List A) (a : A) → Memᴰ a (insert le x xs) ↔ ((a ≡ x) ⊎ Memᴰ a xs)
  mem-insert x [] a =
      (λ m. inl (Memᴰ.eq_of_singleton m), λ h. elim h [ inl e ↦ Memᴰ.head e | inr m ↦ elim m [ ] ])
  mem-insert x (y ∷ ys) a = elim (Bool-cases (le x y)) [
    | inl p ↦
        rw p (λ m. Memᴰ.cases_cons m, λ h. elim h [ inl e ↦ Memᴰ.head e | inr m ↦ Memᴰ.tail m ])
    | inr p ↦ rw p (
      λ m. elim (Memᴰ.cases_cons m) [
        | inl e ↦ inr (Memᴰ.head e)
        | inr r ↦ elim ((mem-insert x ys a).0 r) [ inl e ↦ inl e | inr q ↦ inr (Memᴰ.tail q) ]
      ],
      λ h. elim h [
        | inl e ↦ Memᴰ.tail ((mem-insert x ys a).1 (inl e))
        | inr m ↦ elim (Memᴰ.cases_cons m) [
          | inl e ↦ Memᴰ.head e
          | inr r ↦ Memᴰ.tail ((mem-insert x ys a).1 (inr r))
        ]
      ],
    )
  ]

  mem-sort_by : (xs : List A) (a : A) → Memᴰ a (sort_by le xs) ↔ Memᴰ a xs
  mem-sort_by [] a = (λ m. m, λ m. m)
  mem-sort_by (x ∷ xs) a =
      let put = mem-insert x (sort_by le xs) a in
      (
        λ m. elim (put.0 m) [ inl e ↦ Memᴰ.head e | inr r ↦ Memᴰ.tail ((mem-sort_by xs a).0 r) ],
        λ m.
            put.1
              (elim (Memᴰ.cases_cons m) [ inl e ↦ inl e | inr r ↦ inr ((mem-sort_by xs a).1 r) ]),
      )

  insert-Distinct : (x : A) (xs : List A) → ¬ Memᴰ x xs → Distinct xs → Distinct (insert le x xs)
  insert-Distinct x [] new d = (λ m. elim m [ ], tt)
  insert-Distinct x (y ∷ ys) new (first, d) = elim (Bool-cases (le x y)) [
    | inl p ↦ rw p (new, (first, d))
    | inr p ↦ rw p (
      λ m. elim ((mem-insert x ys y).0 m) [ inl e ↦ new (Memᴰ.head (sym e)) | inr r ↦ first r ],
      insert-Distinct x ys (λ m. new (Memᴰ.tail m)) d,
    )
  ]

  sort_by-Distinct : (xs : List A) → Distinct xs → Distinct (sort_by le xs)
  sort_by-Distinct [] d = tt
  sort_by-Distinct (x ∷ xs) (new, d) =
      insert-Distinct x (sort_by le xs) (λ m. new ((mem-sort_by xs x).0 m)) (sort_by-Distinct xs d)

keep-Distinct {ℓ} : {A : Type ℓ} (p : A → Bool) (xs : List A) → Distinct xs → Distinct (keep p xs)
unfolding keep
keep-Distinct p [] d = tt
keep-Distinct p (x ∷ xs) (new, d) = elim (Bool-cases (p x)) [
  | inl t ↦ rw t (λ m. new ((mem-keep p xs x).0 m).0, keep-Distinct p xs d)
  | inr f ↦ rw f (keep-Distinct p xs d)
]

pub Distinct-of_Fresh {ℓ} :
    {A : Type ℓ} (seen xs : List A)
    → Fresh seen xs
    → Distinct xs × ((a : A) → Memᴰ a xs → ¬ Memᴰ a seen)
Distinct-of_Fresh seen [] f = (tt, λ a m. elim m [ ])
Distinct-of_Fresh seen (x ∷ xs) (new, f) =
    let (d, apart) = Distinct-of_Fresh (x ∷ seen) xs f in
    (
      (λ m. apart x m (Memᴰ.head refl), d),
      λ a m k. elim (Memᴰ.cases_cons m) [
        | inl e ↦ new (subst (λ b. Memᴰ b seen) e k)
        | inr r ↦ apart a r (Memᴰ.tail k)
      ],
    )

-- The members of an accepted stem are all its shards, sorted.
accept-some :
    (t : Topology) (ns : List VertexName) {ms : List VertexName}
    → accept t ns ≡ some ms
    → ms ≡ sort_by by_index ns
unfolding accept
accept-some t [] h = cc
accept-some t (x ∷ []) h = cc
accept-some t (x ∷ y ∷ rest) h =
    elim (Bool-cases (all (λ m. same_signature (signature t m) (signature t x)) (x ∷ y ∷ rest))) [
      | inl p ↦ cc (rw p at h)
      | inr p ↦ absurd (cc (rw p at h))
    ]

-- A vertex has no group, or its group is that of all the shards with its stem.
group-cases :
    (t : Topology) (n : VertexName)
    → (shard_group t n ≡ none)
      ⊎ ((s : String) × (stem_of n ≡ some s)
          × (shard_group t n ≡ some (s, sort_by by_index (shards_of t s))))
unfolding shard_group Option.bind
group-cases t n = elim (Option-cases (stem_of n)) [
  | inl p ↦ inl (rw p refl)
  | inr (s, p) ↦ elim (Option-cases (accept t (shards_of t s))) [
    | inl q ↦ inl (rw p (rw q refl))
    | inr (ms, q) ↦
        inr (s, p, rw p (rw q (ap (λ k. some (s, k)) (accept-some t (shards_of t s) q))))
  ]
]

-- The group of a vertex is known by its stem.
group_same :
    (t : Topology) (n m : VertexName) → stem_of m ≡ stem_of n → shard_group t m ≡ shard_group t n
unfolding shard_group
group_same t n m h = ap (λ o. Option.bind o (accepted t)) h

-- The shards of a stem are the vertices with that stem.
shards_of_iff :
    (t : Topology) (s : String) (m : VertexName)
    → Memᴰ m (sort_by by_index (shards_of t s)) ↔ (Memᴰ m (names t.vertices) × (stem_of m ≡ some s))
unfolding shards_of
shards_of_iff t s m =
    let kept = mem-keep (λ n. stem_of n == some s) (names t.vertices) m in
    let sorted = mem-sort_by by_index (shards_of t s) m in
    (
      λ h. let (q, e) = kept.0 (sorted.0 h) in (q, eq_of_beq (stem_of m) (some s) e),
      λ h. sorted.1 (kept.1 (h.0, beq_of_eq (stem_of m) (some s) h.1)),
    )

shards_of-Distinct :
    (t : Topology) (s : String)
    → Distinct (names t.vertices)
    → Distinct (sort_by by_index (shards_of t s))
unfolding shards_of
shards_of-Distinct t s d =
    sort_by-Distinct by_index (shards_of t s)
      (keep-Distinct (λ n. stem_of n == some s) (names t.vertices) d)

-- A member of the group of a vertex is the vertex, which has no group, or has its stem.
member-cases :
    (t : Topology) (n m : VertexName)
    → Memᴰ m (members_of n (shard_group t n))
    → (m ≡ n)
      ⊎ (Memᴰ m (names t.vertices)
          × (members_of m (shard_group t m) ≡ members_of n (shard_group t n)))
member-cases t n m = elim (group-cases t n) [
  | inl p ↦ rw p (λ h. inl (Memᴰ.eq_of_singleton h))
  | inr (s, p, q) ↦ rw q (λ h.
      let (k, e) = (shards_of_iff t s m).0 h in
      inr (k, rw (group_same t n m (e ∙ sym p)) (rw q refl)))
]

pub shard_group-IsGrouping :
    (t : Topology) → Distinct (names t.vertices) → IsGrouping (shard_group t) (names t.vertices)
shard_group-IsGrouping t d = record {
  own = λ n nm. elim (group-cases t n) [
    | inl p ↦ rw p (Memᴰ.head refl)
    | inr (s, p, q) ↦ rw q ((shards_of_iff t s n).1 (nm, p))
  ];
  same = λ n m nm mm. elim (member-cases t n m mm) [
    | inl e ↦ ap (λ k. members_of k (shard_group t k)) e
    | inr (k, e) ↦ e
  ];
  inside = λ n m nm mm. elim (member-cases t n m mm) [
    | inl e ↦ subst (λ k. Memᴰ k (names t.vertices)) (sym e) nm
    | inr (k, e) ↦ k
  ];
  once = λ n nm. elim (group-cases t n) [
    | inl p ↦ rw p ((λ m. elim m [ ]), tt)
    | inr (s, p, q) ↦ rw q (shards_of-Distinct t s d)
  ];
}
