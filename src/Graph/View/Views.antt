-- ===== src/Graph/View/Views.antt =====
-- The two views of crates/nfctl-graph/src/view.rs: with the shards drawn as one node, and without.
use nfctl.Common.{
  ◌≤◌, Bool, true, List, [], ◌∷◌, ◌++◌, none, string_eq, is_some, keep, any, mem_of_any, contains,
  contains_iff, map, length, ◌≡◌, ◌↔◌, inl, inr, refl, sym, ap, ◌∙◌, subst, arith, Memᴰ, Bool-cases,
  beq_of_eq, All, All-mem, All-append,
}
use mathlib.Core.List.Memᴰ
use mathlib.Core.List.{Perm}
use nfctl.Model.Ids.{VertexName}
use nfctl.Model.Pipeline.{u32_max}
use nfctl.Model.Topology.{Vertex, Edge, Topology, ends}
use nfctl.Model.Topology.Valid.{names, IsValid}
use nfctl.Graph.View.{ViewNode, ViewGraph}
use nfctl.Graph.View.Build.{NodeMap, node_at, node_for, build_nodes, build, expanded}
use nfctl.Graph.View.Collapse.{shard_group, collapsed}
use nfctl.Graph.View.Partition.{Distinct, IsGrouping, all_members, build-Distinct}
use nfctl.Graph.View.Groups.{Distinct-of_Fresh, shard_group-IsGrouping}
use nfctl.Graph.View.Pairs.{all_pairs, between, shares, build-perm}

alone-IsGrouping : (ns : List VertexName) → IsGrouping (λ _. none) ns
alone-IsGrouping ns = record {
  own = λ n nm. Memᴰ.head refl;
  same = λ n m nm mm. ap (λ k. k ∷ []) (Memᴰ.eq_of_singleton mm);
  inside = λ n m nm mm. subst (λ k. Memᴰ k ns) (sym (Memᴰ.eq_of_singleton mm)) nm;
  once = λ n nm. ((λ m. elim m [ ]), tt);
}

-- The nodes part the vertices: each vertex is a member of one node, once.
abbrev pub Parts : Topology → ViewGraph → Type 0
Parts t g =
    Distinct (all_members g.nodes)
    × ((n : VertexName) → Memᴰ n (all_members g.nodes) ↔ Memᴰ n (names t.vertices))

-- For a topology that `Topology::new` accepts, the nodes of the collapsed and of the expanded view
-- each part the vertices: each vertex is a member of exactly one node, once, and nothing else is.
pub collapsed-Parts :
    (t : Topology) → IsValid t.vertices t.edges → Parts t (collapsed t) × Parts t (expanded t)
unfolding collapsed expanded
collapsed-Parts t valid = (
  build-Distinct t (shard_group t)
      (shard_group-IsGrouping t (Distinct-of_Fresh [] (names t.vertices) valid.names_unique).0),
  build-Distinct t (λ _. none) (alone-IsGrouping (names t.vertices)),
)

-- `expanded` has one vertex in a node.
abbrev IsAlone : ViewNode → Type 0
IsAlone n = (v : VertexName) × (n.members ≡ v ∷ [])

build_nodes-IsAlone :
    (vs : List Vertex) (nodes : List ViewNode) (node_of : NodeMap)
    → All IsAlone nodes
    → All IsAlone (build_nodes (λ _. none) vs nodes node_of).0
unfolding build_nodes
build_nodes-IsAlone [] nodes node_of h = h
build_nodes-IsAlone (v ∷ vs) nodes node_of h =
    elim (Bool-cases (is_some (node_at node_of v.name))) [
      | inl old ↦ rw old (build_nodes-IsAlone vs nodes node_of h)
      | inr new ↦ rw new (
          build_nodes-IsAlone vs (nodes ++ node_for (λ _. none) v ∷ []) _
            (All-append IsAlone nodes (node_for (λ _. none) v ∷ []) h ((v.name, refl), tt)))
    ]

keep-all {ℓ} : {A : Type ℓ} (p : A → Bool) (xs : List A) → ((a : A) → p a ≡ true) → keep p xs ≡ xs
unfolding keep
keep-all p [] h = refl
keep-all p (x ∷ xs) h = rw (h x) (ap (λ ys. x ∷ ys) (keep-all p xs h))

alone-between : (nodes : List ViewNode) (e : Edge) → All IsAlone nodes → between nodes e ≡ true
alone-between nodes e alone = elim (Bool-cases (any (shares e.from e.to) nodes)) [
  | inr f ↦ ground (arith, f)
  | inl t ↦
      let (n, nm, both) = mem_of_any (shares e.from e.to) nodes t in
      let (ca, cb) : (contains n.members e.from ≡ true) × (contains n.members e.to ≡ true) =
        ground (arith, both) in
      let (v, only) = All-mem IsAlone nodes alone nm in
      let at = λ (a : VertexName) (c : contains n.members a ≡ true).
        Memᴰ.eq_of_singleton (subst (Memᴰ a) only ((contains_iff n.members a).0 c)) in
      rw (beq_of_eq e.from e.to (at e.from ca ∙ sym (at e.to cb))) refl
]

-- For a topology that `Topology::new` accepts, with fewer than 2 ^ 32 vertices, the edges of the
-- expanded view stand for exactly the edges of the topology, each once, and those of the collapsed
-- view for exactly the edges that are not between two shards of one node, each once.
pub collapsed-perm :
    (t : Topology)
    → IsValid t.vertices t.edges
    → length t.vertices ≤ u32_max
    → Perm (all_pairs (collapsed t).edges) (map ends (keep (between (collapsed t).nodes) t.edges))
      × Perm (all_pairs (expanded t).edges) (map ends t.edges)
unfolding collapsed expanded
collapsed-perm t valid small = (
  build-perm t (shard_group t)
      (shard_group-IsGrouping t (Distinct-of_Fresh [] (names t.vertices) valid.names_unique).0)
      valid.resolve small,
  subst (λ es. Perm (all_pairs (build t (λ _. none)).edges) (map ends es))
      (keep-all (between (build t (λ _. none)).nodes) t.edges (λ e.
        alone-between (build t (λ _. none)).nodes e
          (unfold build in build_nodes-IsAlone t.vertices [] [] tt)))
      (build-perm t (λ _. none) (alone-IsGrouping (names t.vertices)) valid.resolve small),
)
