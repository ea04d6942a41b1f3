-- ===== src/Graph/View/Partition.antt =====
-- The nodes of a view (crates/nfctl-graph/src/view.rs) part the vertices.
use nfctl.Common.{
  true, false, List, [], ◌∷◌, ◌++◌, ◌==◌, string_eq, is_some, map, length, ◌≡◌, ◌↔◌, ◌⊎◌, inl, inr,
  refl, sym, ap, ◌∙◌, subst, Memᴰ, Bool-cases, eq_of_beq, ne_of_beq,
}
use mathlib.Core.List.Memᴰ
use mathlib.Core.List.{append-nil, append_assoc, flatten}
use nfctl.Model.Ids.{VertexName}
use nfctl.Model.Pipeline.{saturate}
use nfctl.Model.Topology.{Vertex, Topology}
use nfctl.Model.Topology.Valid.{names}
use nfctl.Graph.View.{NodeId, ViewNode}
use nfctl.Graph.View.Build.{
  Grouping, NodeMap, node_at, insert_members, members_of, node_for, build_nodes, build,
}

-- No entry stands twice in the list.
abbrev pub Distinct {ℓ} : {A : Type ℓ} → List A → Type ℓ
Distinct [] = Unit
Distinct (x ∷ xs) = (¬ Memᴰ x xs) × Distinct xs

Distinct-append {ℓ} :
    {A : Type ℓ} (xs ys : List A)
    → Distinct xs
    → Distinct ys
    → ((a : A) → Memᴰ a xs → ¬ Memᴰ a ys)
    → Distinct (xs ++ ys)
Distinct-append [] ys dx dy apart = dy
Distinct-append (x ∷ xs) ys (new, dx) dy apart = (
  λ m. elim (Memᴰ.append_cases xs m) [ inl l ↦ new l | inr r ↦ apart x (Memᴰ.head refl) r ],
  Distinct-append xs ys dx dy (λ a l r. apart a (Memᴰ.tail l) r),
)

-- The members of all nodes.
abbrev pub all_members : List ViewNode → List VertexName
all_members nodes = flatten (map (λ n. n.members) nodes)

-- What a grouping of these vertices must be: a vertex is in its group, and the members of a group are
-- vertices, each once, and have that group.
pub record IsGrouping (group_of : Grouping) (ns : List VertexName) : Type 0 where
  pub own : (n : VertexName) → Memᴰ n ns → Memᴰ n (members_of n (group_of n))
  pub same :
      (n m : VertexName)
      → Memᴰ n ns
      → Memᴰ m (members_of n (group_of n))
      → members_of m (group_of m) ≡ members_of n (group_of n)
  pub inside : (n m : VertexName) → Memᴰ n ns → Memᴰ m (members_of n (group_of n)) → Memᴰ m ns
  pub once : (n : VertexName) → Memᴰ n ns → Distinct (members_of n (group_of n))

node_at-cons :
    (id : NodeId) (m : VertexName) (node_of : NodeMap) (n : VertexName)
    → (is_some (node_at ((m, id) ∷ node_of) n) ≡ true)
      ↔ ((n ≡ m) ⊎ (is_some (node_at node_of n) ≡ true))
unfolding node_at
node_at-cons id m node_of n = elim (Bool-cases (m == n)) [
  | inl p ↦ rw p (λ _. inl (sym (eq_of_beq m n p)), λ _. refl)
  | inr p ↦ rw p (λ h. inr h, λ h. elim h [ inl q ↦ absurd (ne_of_beq m n p (sym q)) | inr k ↦ k ])
]

node_at-insert :
    (id : NodeId) (ms : List VertexName) (node_of : NodeMap) (n : VertexName)
    → (is_some (node_at (insert_members id ms node_of) n) ≡ true)
      ↔ (Memᴰ n ms ⊎ (is_some (node_at node_of n) ≡ true))
unfolding insert_members
node_at-insert id [] node_of n = (λ h. inr h, λ h. elim h [ inl m ↦ elim m [ ] | inr k ↦ k ])
node_at-insert id (m ∷ ms) node_of n =
    let rest = node_at-insert id ms ((m, id) ∷ node_of) n in
    let first = node_at-cons id m node_of n in
    (
      λ h. elim (rest.0 h) [
        | inl k ↦ inl (Memᴰ.tail k)
        | inr k ↦ elim (first.0 k) [ inl p ↦ inl (Memᴰ.head p) | inr q ↦ inr q ]
      ],
      λ h. rest.1 (elim h [
        | inl k ↦ elim (Memᴰ.cases_cons k) [ inl p ↦ inr (first.1 (inl p)) | inr q ↦ inl q ]
        | inr k ↦ inr (first.1 (inr k))
      ]),
    )

all_members-snoc :
    (nodes : List ViewNode) (x : ViewNode)
    → all_members (nodes ++ x ∷ []) ≡ all_members nodes ++ x.members
unfolding flatten
all_members-snoc [] x = append-nil x.members
all_members-snoc (y ∷ nodes) x =
    ap (λ ns. y.members ++ ns) (all_members-snoc nodes x)
    ∙ sym (append_assoc y.members (all_members nodes) x.members)

module _ (group_of : Grouping) (ns : List VertexName) (grouping : IsGrouping group_of ns) where
  -- What the loop over the vertices keeps.
  record Inv (nodes : List ViewNode) (node_of : NodeMap) : Type 0 where
    covered : (n : VertexName) → (is_some (node_at node_of n) ≡ true) ↔ Memᴰ n (all_members nodes)
    distinct : Distinct (all_members nodes)
    inside : (n : VertexName) → Memᴰ n (all_members nodes) → Memᴰ n ns
    whole :
        (n m : VertexName)
        → Memᴰ n (all_members nodes)
        → Memᴰ m (members_of n (group_of n))
        → Memᴰ m (all_members nodes)

  Inv-add :
      (nodes : List ViewNode) (node_of : NodeMap) (id : NodeId) (v : Vertex)
      → Memᴰ v.name ns
      → is_some (node_at node_of v.name) ≡ false
      → Inv nodes node_of
      → Inv
          (nodes ++ node_for group_of v ∷ [])
          (insert_members id (node_for group_of v).members node_of)
  Inv-add nodes node_of id v vm new inv =
      let ms = members_of v.name (group_of v.name) in
      let split = all_members-snoc nodes (node_for group_of v) in
      let apart : (a : VertexName) → Memᴰ a (all_members nodes) → ¬ Memᴰ a ms = λ a l r.
        let there =
          inv.whole a v.name l
            (subst (Memᴰ v.name) (sym (grouping.same v.name a vm r)) (grouping.own v.name vm)) in
        cc (new, (inv.covered v.name).1 there) in
      record {
        covered = λ n. rw split (
          λ h. elim ((node_at-insert id ms node_of n).0 h) [
            | inl m ↦ Memᴰ.append_right (all_members nodes) m
            | inr k ↦ Memᴰ.append_left ms ((inv.covered n).0 k)
          ],
          λ m. (node_at-insert id ms node_of n).1 (elim (Memᴰ.append_cases (all_members nodes) m) [
            | inl l ↦ inr ((inv.covered n).1 l)
            | inr r ↦ inl r
          ]),
        );
        distinct =
            rw split
              (Distinct-append (all_members nodes) ms inv.distinct (grouping.once v.name vm) apart);
        inside = λ n. rw split (λ m. elim (Memᴰ.append_cases (all_members nodes) m) [
          | inl l ↦ inv.inside n l
          | inr r ↦ grouping.inside v.name n vm r
        ]);
        whole = λ n m. rw split (λ h k. elim (Memᴰ.append_cases (all_members nodes) h) [
          | inl l ↦ Memᴰ.append_left ms (inv.whole n m l k)
          | inr r ↦
              Memᴰ.append_right (all_members nodes) (subst (Memᴰ m) (grouping.same v.name n vm r) k)
        ]);
      }

  -- The loop keeps what it has, and ends with a node for each vertex.
  build_nodes-Inv :
      (vs : List Vertex) (nodes : List ViewNode) (node_of : NodeMap)
      → ((v : Vertex) → Memᴰ v vs → Memᴰ v.name ns)
      → Inv nodes node_of
      → Inv (build_nodes group_of vs nodes node_of).0 (build_nodes group_of vs nodes node_of).1
        × ((n : VertexName)
            → (Memᴰ n (all_members nodes) ⊎ Memᴰ n (names vs))
            → Memᴰ n (all_members (build_nodes group_of vs nodes node_of).0))
  unfolding build_nodes
  build_nodes-Inv [] nodes node_of known inv =
      (inv, λ n h. elim h [ inl m ↦ m | inr m ↦ elim m [ ] ])
  build_nodes-Inv (v ∷ vs) nodes node_of known inv =
      elim (Bool-cases (is_some (node_at node_of v.name))) [
        | inl old ↦
            let (after, covers) =
              build_nodes-Inv vs nodes node_of (λ w m. known w (Memᴰ.tail m)) inv in
            rw old (
              after,
              λ n h. covers n (elim h [
                | inl m ↦ inl m
                | inr m ↦ elim (Memᴰ.cases_cons m) [
                  | inl e ↦
                      inl (
                        subst (λ k. Memᴰ k (all_members nodes)) (sym e)
                          ((inv.covered v.name).0 old))
                  | inr r ↦ inr r
                ]
              ]),
            )
        | inr new ↦
            let x = node_for group_of v in
            let id = saturate (length nodes) in
            let (after, covers) =
              build_nodes-Inv vs (nodes ++ x ∷ []) (insert_members id x.members node_of)
                (λ w m. known w (Memᴰ.tail m))
                (Inv-add nodes node_of id v (known v (Memᴰ.head refl)) new inv) in
            let here = λ (n : VertexName) (m : Memᴰ n (all_members nodes ++ x.members)).
              subst (Memᴰ n) (sym (all_members-snoc nodes x)) m in
            rw new (
              after,
              λ n h. covers n (elim h [
                | inl m ↦ inl (here n (Memᴰ.append_left x.members m))
                | inr m ↦ elim (Memᴰ.cases_cons m) [
                  | inl e ↦ inl (
                      here n (
                        Memᴰ.append_right (all_members nodes) (
                          subst (λ k. Memᴰ k x.members) (sym e)
                            (grouping.own v.name (known v (Memᴰ.head refl))))))
                  | inr r ↦ inr r
                ]
              ]),
            )
      ]

-- The loop over the vertices, from its start.
build_nodes-start :
    (group_of : Grouping) (vs : List Vertex) (grouping : IsGrouping group_of (names vs))
    → Inv group_of
        (names vs)
        grouping
        (build_nodes group_of vs [] []).0
        (build_nodes group_of vs [] []).1
      × ((n : VertexName)
          → Memᴰ n (names vs)
          → Memᴰ n (all_members (build_nodes group_of vs [] []).0))
unfolding flatten
build_nodes-start group_of vs grouping =
    let start : Inv group_of (names vs) grouping [] [] = record {
      covered = λ n. unfold node_at in (λ h. cc, λ m. elim m [ ]);
      distinct = tt;
      inside = λ n m. elim m [ ];
      whole = λ n m h. elim h [ ];
    } in
    let (inv, covers) =
      build_nodes-Inv group_of (names vs) grouping vs [] []
        (λ v m. Memᴰ.map (λ (w : Vertex). w.name) m) start in
    (inv, λ n m. covers n (inr m))

-- Each vertex has a node in the map that the loop over the vertices makes.
pub build_nodes-found :
    (group_of : Grouping) (vs : List Vertex)
    → IsGrouping group_of (names vs)
    → (n : VertexName) → Memᴰ n (names vs)
    → is_some (node_at (build_nodes group_of vs [] []).1 n) ≡ true
build_nodes-found group_of vs grouping n m =
    let (inv, covers) = build_nodes-start group_of vs grouping in (inv.covered n).1 (covers n m)

-- Under any grouping of the vertices, each vertex is a member of exactly one node, once, and the
-- nodes have no other member.
pub build-Distinct :
    (t : Topology) (group_of : Grouping)
    → IsGrouping group_of (names t.vertices)
    → Distinct (all_members (build t group_of).nodes)
      × ((n : VertexName)
          → Memᴰ n (all_members (build t group_of).nodes) ↔ Memᴰ n (names t.vertices))
unfolding build
build-Distinct t group_of grouping =
    let (inv, covers) = build_nodes-start group_of t.vertices grouping in
    (inv.distinct, λ n. (inv.inside n, covers n))
