-- ===== src/Graph/View/Pairs.antt =====
-- The edges of a view (crates/nfctl-graph/src/view.rs) stand for the edges of the topology.
use nfctl.Common.{
  ◌≤◌, String, Bool, true, ◌&&◌, ◌||◌, not, List, [], ◌∷◌, ◌++◌, some, ◌==◌, string_eq, nat_eq,
  is_some, keep, any, any-of_mem, mem_of_any, contains, contains_iff, map, length, ltb, ◌≡◌, ◌≢◌,
  inl, inr, refl, sym, ap, ◌∙◌, subst, arith, Memᴰ, Bool-cases, Option-cases, eq_of_beq, beq_of_eq,
  ne_of_beq,
}
use mathlib.Core.List.Memᴰ
use mathlib.Core.List.Perm
use mathlib.Core.List.{Perm, perm_middle, append_assoc, append-nil, flatten}
use nfctl.Model.Ids.{VertexName}
use nfctl.Model.Pipeline.{u32_max}
use nfctl.Model.Topology.{Vertex, Edge, Topology, ends}
use nfctl.Model.Topology.Valid.{names, AllResolve}
use nfctl.Graph.View.{NodeId, ViewNode, ViewEdge}
use nfctl.Graph.View.Build.{
  Grouping, NodeMap, node_at, build_nodes, get_elem?, in_group, same_strings, edge_tags, is_lossy,
  merge, intra, add_edge, build_edges, build,
}
use nfctl.Graph.View.Partition.{
  Distinct, IsGrouping, all_members, build-Distinct, build_nodes-found,
}
use nfctl.Graph.View.Located.{
  Located, get_elem?-mem, get_elem?-of_mem, get_elem?_unique, build_nodes-Located,
}

-- The pairs of vertices that the edges of a view stand for.
abbrev pub all_pairs : List ViewEdge → List (VertexName × VertexName)
all_pairs edges = flatten (map (λ e. e.members) edges)

abbrev pub shares : VertexName → VertexName → ViewNode → Bool
shares a b n = contains n.members a && contains n.members b

-- Not an edge between two vertices of one node.
abbrev pub between : List ViewNode → Edge → Bool
between nodes e = e.from == e.to || not (any (shares e.from e.to) nodes)

merge-perm :
    (from to : NodeId) (tags : List String) (lossy : Bool) (p : VertexName × VertexName)
    (xs : List ViewEdge)
    → Perm (all_pairs (merge from to tags lossy p xs)) (p ∷ all_pairs xs)
unfolding merge flatten
merge-perm from to tags lossy p [] = Perm.refl (p ∷ [])
merge-perm from to tags lossy p (x ∷ xs) =
    elim (Bool-cases ((x.from == from && x.to == to) && same_strings x.tags tags)) [
      | inl t ↦ rw t (
          subst (λ l. Perm l (p ∷ x.members ++ all_pairs xs))
            (sym (append_assoc x.members (p ∷ []) (all_pairs xs)))
            (perm_middle x.members (all_pairs xs)))
      | inr f ↦ rw f (
          Perm.trans (Perm.append_left x.members (merge-perm from to tags lossy p xs))
            (perm_middle x.members (all_pairs xs)))
    ]

node-cases :
    (node_of : NodeMap) (n : VertexName)
    → is_some (node_at node_of n) ≡ true
    → (id : NodeId) × (node_at node_of n ≡ some id)
node-cases node_of n h = elim (Option-cases (node_at node_of n)) [
  | inl p ↦ absurd (cc (rw p at h))
  | inr q ↦ q
]

two_members :
    (xs : List VertexName) (a b : VertexName)
    → a ≢ b
    → Memᴰ a xs
    → Memᴰ b xs
    → ltb 1 (length xs) ≡ true
two_members [] a b ne ma mb = elim ma [ ]
two_members (x ∷ []) a b ne ma mb =
    absurd (ne (Memᴰ.eq_of_singleton ma ∙ sym (Memᴰ.eq_of_singleton mb)))
two_members (x ∷ y ∷ xs) a b ne ma mb = ground arith

module _ (nodes : List ViewNode) (node_of : NodeMap) (distinct : Distinct (all_members nodes))
    (located : Located nodes node_of) where
  -- The id that the map has for a vertex is that of any node with the vertex.
  id-shared :
      (a : VertexName) (i j : NodeId) (x : ViewNode)
      → node_at node_of a ≡ some i
      → get_elem? nodes j ≡ some x
      → Memᴰ a x.members
      → i ≡ j
  id-shared a i j x h at m =
      let (y, h', m') = located a i h in get_elem?_unique nodes i j a distinct h' at m' m

  shared-in_group :
      (a b : VertexName) (i j : NodeId)
      → a ≢ b
      → node_at node_of a ≡ some i
      → node_at node_of b ≡ some j
      → any (shares a b) nodes ≡ true
      → (i == j ≡ true) × (in_group nodes i ≡ true)
  shared-in_group a b i j ne hi hj h =
      let (x, xm, both) = mem_of_any (shares a b) nodes h in
      let (ca, cb) : (contains x.members a ≡ true) × (contains x.members b ≡ true) =
        ground (arith, both) in
      let ma = (contains_iff x.members a).0 ca in
      let mb = (contains_iff x.members b).0 cb in
      let (k, at) = get_elem?-of_mem nodes xm in
      let ik = id-shared a i k x hi at ma in
      let at_i = subst (λ z. get_elem? nodes z ≡ some x) (sym ik) at in
      (
        beq_of_eq i j (ik ∙ sym (id-shared b j k x hj at mb)),
        rw at_i (two_members x.members a b ne ma mb),
      )

  in_group-shared :
      (a b : VertexName) (i j : NodeId)
      → node_at node_of a ≡ some i
      → node_at node_of b ≡ some j
      → i ≡ j
      → any (shares a b) nodes ≡ true
  in_group-shared a b i j hi hj ij =
      let (x, hx, mx) = located a i hi in
      let (y, hy, my) = located b j hj in
      let yx : y ≡ x = cc in
      any-of_mem (shares a b) nodes (get_elem?-mem nodes i hx) (
        let ca = (contains_iff x.members a).1 mx in
        let cb = (contains_iff x.members b).1 (subst (λ (z : ViewNode). Memᴰ b z.members) yx my) in
        ground (arith, ca, cb))

  -- The test of the loop tells whether an edge is between two vertices of one node.
  between-intra :
      (e : Edge) (i j : NodeId)
      → node_at node_of e.from ≡ some i
      → node_at node_of e.to ≡ some j
      → between nodes e ≡ not (intra nodes i j e)
  between-intra e i j hi hj = elim (Bool-cases (e.from == e.to)) [
    | inl same ↦ rw same (ground arith)
    | inr apart ↦ elim (Bool-cases (any (shares e.from e.to) nodes)) [
      | inl t ↦
          let (ids, group) =
            shared-in_group e.from e.to i j (ne_of_beq e.from e.to apart) hi hj t in
          rw apart (rw t (rw ids (rw group refl)))
      | inr f ↦ elim (Bool-cases (i == j)) [
        | inl ids ↦ absurd (cc (f, in_group-shared e.from e.to i j hi hj (eq_of_beq i j ids)))
        | inr ids ↦ rw apart (rw f (rw ids refl))
      ]
    ]
  ]

  add_edge-perm :
      (e : Edge) (edges : List ViewEdge)
      → is_some (node_at node_of e.from) ≡ true
      → is_some (node_at node_of e.to) ≡ true
      → Perm
          (all_pairs (add_edge nodes e (node_at node_of e.from) (node_at node_of e.to) edges))
          (map ends (keep (between nodes) (e ∷ [])) ++ all_pairs edges)
  unfolding add_edge keep
  add_edge-perm e edges hf ht =
      let (i, hi) = node-cases node_of e.from hf in
      let (j, hj) = node-cases node_of e.to ht in
      let same = between-intra e i j hi hj in
      elim (Bool-cases (intra nodes i j e)) [
        | inl t ↦ rw hi (rw hj (rw same (rw t (Perm.refl (all_pairs edges)))))
        | inr f ↦ rw hi (
            rw hj (
              rw same (
                rw f (merge-perm i j (edge_tags nodes i j e) (is_lossy e.on_full) (ends e) edges))))
      ]

  moved :
      (e : Edge) (es : List Edge) (edges : List ViewEdge)
      → Perm
          (map ends (keep (between nodes) es)
            ++ (map ends (keep (between nodes) (e ∷ [])) ++ all_pairs edges))
          (map ends (keep (between nodes) (e ∷ es)) ++ all_pairs edges)
  unfolding keep
  moved e es edges =
      let later = map ends (keep (between nodes) es) in
      elim (Bool-cases (between nodes e)) [
        | inl t ↦ rw t (perm_middle later (all_pairs edges))
        | inr f ↦ rw f (Perm.refl (later ++ all_pairs edges))
      ]

  build_edges-perm :
      (es : List Edge) (edges : List ViewEdge)
      → ((e : Edge)
          → Memᴰ e es
          → (is_some (node_at node_of e.from) ≡ true) × (is_some (node_at node_of e.to) ≡ true))
      → Perm
          (all_pairs (build_edges nodes node_of es edges))
          (map ends (keep (between nodes) es) ++ all_pairs edges)
  unfolding build_edges
  build_edges-perm [] edges known = unfold keep in Perm.refl (all_pairs edges)
  build_edges-perm (e ∷ es) edges known =
      let (hf, ht) = known e (Memᴰ.head refl) in
      let added = add_edge nodes e (node_at node_of e.from) (node_at node_of e.to) edges in
      let later = map ends (keep (between nodes) es) in
      Perm.trans (build_edges-perm es added (λ d m. known d (Memᴰ.tail m)))
        (Perm.trans (Perm.append_left later (add_edge-perm e edges hf ht)) (moved e es edges))

-- Both ends of an edge of the list are vertices.
AllResolve-names :
    (vs : List Vertex) (es : List Edge) {e : Edge}
    → AllResolve vs es
    → Memᴰ e es
    → Memᴰ e.from (names vs) × Memᴰ e.to (names vs)
AllResolve-names vs [] r m = elim m [ ]
AllResolve-names vs (x ∷ es) {e = e} (((v, vm, vn, _), (w, wm, wn, _)), r) m =
    elim (Memᴰ.cases_cons m) [
      | inl p ↦ (
        subst (λ n. Memᴰ n (names vs)) (vn ∙ sym (ap (λ (d : Edge). d.from) p))
            (Memᴰ.map (λ (u : Vertex). u.name) vm),
        subst (λ n. Memᴰ n (names vs)) (wn ∙ sym (ap (λ (d : Edge). d.to) p))
            (Memᴰ.map (λ (u : Vertex). u.name) wm),
      )
      | inr q ↦ AllResolve-names vs es r q
    ]

-- Under any grouping of the vertices of a topology that `Topology::new` accepts, with fewer than
-- 2 ^ 32 of them, the edges of the view stand for exactly the edges of the topology that are not
-- between two different vertices of one node, each once.
pub build-perm :
    (t : Topology) (group_of : Grouping)
    → IsGrouping group_of (names t.vertices)
    → AllResolve t.vertices t.edges
    → length t.vertices ≤ u32_max
    → Perm
        (all_pairs (build t group_of).edges)
        (map ends (keep (between (build t group_of).nodes) t.edges))
unfolding build flatten
build-perm t group_of grouping resolve small =
    let nodes = (build_nodes group_of t.vertices [] []).0 in
    let node_of = (build_nodes group_of t.vertices [] []).1 in
    let located : Located nodes node_of =
      build_nodes-Located group_of t.vertices [] [] (omega (arith, small))
        (unfold node_at in λ n id h. cc) in
    let known : (e : Edge)
        → Memᴰ e t.edges
        → (is_some (node_at node_of e.from) ≡ true) × (is_some (node_at node_of e.to) ≡ true) =
      λ e m.
        let (f, g) = AllResolve-names t.vertices t.edges resolve m in
        (
          build_nodes-found group_of t.vertices grouping e.from f,
          build_nodes-found group_of t.vertices grouping e.to g,
        ) in
    subst (λ l. Perm (all_pairs (build_edges nodes node_of t.edges [])) l)
      (append-nil (map ends (keep (between nodes) t.edges)))
      (build_edges-perm nodes node_of (build-Distinct t group_of grouping).0 located t.edges []
        known)
