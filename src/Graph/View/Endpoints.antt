-- ===== src/Graph/View/Endpoints.antt =====
-- What an edge of a view shows (crates/nfctl-graph/src/view.rs): the nodes that it joins, its tags, and
-- whether it may lose messages.
use nfctl.Common.{
  ◌≤◌, String, true, ◌&&◌, ◌||◌, List, [], ◌∷◌, ◌++◌, some, ◌==◌, string_eq, nat_eq, keep, map,
  length, ◌≡◌, inl, inr, refl, sym, ◌∙◌, arith, Memᴰ, Bool-cases, Option-cases, eq_of_beq, All,
  if◌then◌else◌,
}
use mathlib.Core.List.Memᴰ
use mathlib.Core.List.{Perm}
use nfctl.Model.Ids.{VertexName}
use nfctl.Model.Pipeline.{u32_max}
use nfctl.Model.Topology.{OnFull, discard_latest, retry_until_success, Edge, Topology, ends}
use nfctl.Model.Topology.Valid.{IsValid}
use nfctl.Graph.Shards.{index_of, norm_tags}
use nfctl.Graph.View.{NodeId, ViewNode, is_group, ViewEdge, ViewGraph, tag_strings}
use nfctl.Graph.View.Build.{
  Grouping, NodeMap, node_at, build_nodes, get_elem?, same_strings, edge_tags, is_lossy, merge,
  intra, add_edge, build_edges, build, expanded,
}
use nfctl.Graph.View.Collapse.{collapsed}
use nfctl.Graph.View.Located.{Located, build_nodes-Located}
use nfctl.Graph.View.Pairs.{all_pairs, between}
use nfctl.Graph.View.Views.{collapsed-perm}

-- The tags at an end: in a node of shards, the index of the shard is taken out of them.
abbrev pub shown_at : ViewNode → VertexName → List String → List String
shown_at x end tags = if is_group x then norm_tags tags (index_of end) else tags

module _ (nodes : List ViewNode) (es : List Edge) where
  -- The pair of an edge of the view is that of an edge of the topology: it goes from a vertex of the
  -- node that the edge of the view comes from to one of the node that it goes to, has its tags, and
  -- makes it lossy if it drops the latest message.
  pub record Drawn (e : ViewEdge) (p : VertexName × VertexName) : Type 0 where
    pub edge : Edge
    pub known : Memᴰ edge es
    pub pair : ends edge ≡ p
    pub start : ViewNode
    pub target : ViewNode
    pub from_at : get_elem? nodes e.from ≡ some start
    pub from_in : Memᴰ edge.from start.members
    pub to_at : get_elem? nodes e.to ≡ some target
    pub to_in : Memᴰ edge.to target.members
    pub tags :
        e.tags ≡ shown_at target edge.to (shown_at start edge.from (tag_strings edge.conditions))
    pub loses : edge.on_full ≡ discard_latest → e.lossy ≡ true

  -- All pairs are drawn so, and a lossy edge has one that drops the latest message.
  pub record Faithful (e : ViewEdge) : Type 0 where
    pub pairs : (p : VertexName × VertexName) → Memᴰ p e.members → Drawn e p
    pub lossy :
        e.lossy ≡ true
        → (d : Edge) × Memᴰ d es × Memᴰ (ends d) e.members × (d.on_full ≡ discard_latest)

  same_strings_eq : (xs ys : List String) → same_strings xs ys ≡ true → xs ≡ ys
  unfolding same_strings
  same_strings_eq [] [] h = refl
  same_strings_eq [] (y ∷ ys) h = cc
  same_strings_eq (x ∷ xs) [] h = cc
  same_strings_eq (x ∷ xs) (y ∷ ys) h =
      let (a, b) : (x == y ≡ true) × (same_strings xs ys ≡ true) = ground (arith, h) in
      λ i. eq_of_beq x y a i ∷ same_strings_eq xs ys b i

  is_lossy_iff : (o : OnFull) → is_lossy o ≡ true → o ≡ discard_latest
  is_lossy_iff discard_latest h = refl
  is_lossy_iff retry_until_success h = cc

  -- The edge of a view that stands for one edge alone.
  abbrev alone : NodeId → NodeId → List String → Edge → ViewEdge
  alone from to tags d = record {
    from = from;
    to = to;
    tags = tags;
    lossy = is_lossy d.on_full;
    members = ends d ∷ [];
  }

  merged :
      (x : ViewEdge) (from to : NodeId) (tags : List String) (d : Edge)
      → x.from ≡ from
      → x.to ≡ to
      → x.tags ≡ tags
      → Faithful x
      → Faithful (alone from to tags d)
      → Faithful
          (record x { lossy = x.lossy || is_lossy d.on_full; members = x.members ++ ends d ∷ [] })
  merged x from to tags d hf ht hg old new = record {
    pairs = λ p m. elim (Memᴰ.append_cases x.members m) [
      | inl a ↦
          let r = old.pairs p a in
          record {
            edge = r.edge;
            known = r.known;
            pair = r.pair;
            start = r.start;
            target = r.target;
            from_at = r.from_at;
            from_in = r.from_in;
            to_at = r.to_at;
            to_in = r.to_in;
            tags = r.tags;
            loses = λ l. ground (arith, r.loses l);
          }
      | inr a ↦
          let r = new.pairs p a in
          record {
            edge = r.edge;
            known = r.known;
            pair = r.pair;
            start = r.start;
            target = r.target;
            from_at = rw hf (r.from_at);
            from_in = r.from_in;
            to_at = rw ht (r.to_at);
            to_in = r.to_in;
            tags = hg ∙ r.tags;
            loses = λ l. ground (arith, r.loses l);
          }
    ];
    lossy = λ h. elim (Bool-cases x.lossy) [
      | inl t ↦ let (c, cm, at, drops) = old.lossy t in (c, cm, Memᴰ.append_left _ at, drops)
      | inr f ↦
          let (c, cm, at, drops) = new.lossy (ground (arith, h, f)) in
          (c, cm, Memᴰ.append_right x.members at, drops)
    ];
  }

  merge-Faithful :
      (from to : NodeId) (tags : List String) (d : Edge) (xs : List ViewEdge)
      → Faithful (alone from to tags d)
      → All Faithful xs
      → All Faithful (merge from to tags (is_lossy d.on_full) (ends d) xs)
  unfolding merge
  merge-Faithful from to tags d [] new h = (new, tt)
  merge-Faithful from to tags d (x ∷ xs) new h =
      elim (Bool-cases ((x.from == from && x.to == to) && same_strings x.tags tags)) [
        | inl t ↦
            let (a, b, c) : (x.from == from ≡ true)
                × (x.to == to ≡ true)
                × (same_strings x.tags tags ≡ true) =
              ground (arith, t) in
            rw t (
              merged x from to tags d (eq_of_beq x.from from a) (eq_of_beq x.to to b)
                  (same_strings_eq x.tags tags c) h.0 new,
              h.1,
            )
        | inr f ↦ rw f (h.0, merge-Faithful from to tags d xs new h.1)
      ]

  module _ (node_of : NodeMap) (located : Located nodes node_of) where
    alone-Faithful :
        (d : Edge) (i j : NodeId)
        → Memᴰ d es
        → node_at node_of d.from ≡ some i
        → node_at node_of d.to ≡ some j
        → Faithful (alone i j (edge_tags nodes i j d) d)
    alone-Faithful d i j known hi hj =
        let (x, hx, mx) = located d.from i hi in
        let (y, hy, my) = located d.to j hj in
        record {
          pairs = λ p m. record {
            edge = d;
            known = known;
            pair = sym (Memᴰ.eq_of_singleton m);
            start = x;
            target = y;
            from_at = hx;
            from_in = mx;
            to_at = hy;
            to_in = my;
            tags = rw hx (rw hy refl);
            loses = λ l. rw l refl;
          };
          lossy = λ h. (d, known, Memᴰ.head refl, is_lossy_iff d.on_full h);
        }

    add_edge-Faithful :
        (d : Edge) (edges : List ViewEdge)
        → Memᴰ d es
        → All Faithful edges
        → All Faithful (add_edge nodes d (node_at node_of d.from) (node_at node_of d.to) edges)
    unfolding add_edge
    add_edge-Faithful d edges known h = elim (Option-cases (node_at node_of d.from)) [
      | inl p ↦ rw p h
      | inr (i, hi) ↦ elim (Option-cases (node_at node_of d.to)) [
        | inl p ↦ rw hi (rw p h)
        | inr (j, hj) ↦ elim (Bool-cases (intra nodes i j d)) [
          | inl t ↦ rw hi (rw hj (rw t h))
          | inr f ↦ rw hi (
              rw hj (
                rw f (
                  merge-Faithful i j (edge_tags nodes i j d) d edges
                    (alone-Faithful d i j known hi hj) h)))
        ]
      ]
    ]

    build_edges-Faithful :
        (ds : List Edge) (edges : List ViewEdge)
        → ((d : Edge) → Memᴰ d ds → Memᴰ d es)
        → All Faithful edges
        → All Faithful (build_edges nodes node_of ds edges)
    unfolding build_edges
    build_edges-Faithful [] edges known h = h
    build_edges-Faithful (d ∷ ds) edges known h =
        build_edges-Faithful ds _ (λ c m. known c (Memᴰ.tail m))
          (add_edge-Faithful d edges (known d (Memᴰ.head refl)) h)

build-Faithful :
    (t : Topology) (group_of : Grouping)
    → length t.vertices ≤ u32_max
    → All (Faithful (build t group_of).nodes t.edges) (build t group_of).edges
unfolding build
build-Faithful t group_of small =
    let made = build_nodes group_of t.vertices [] [] in
    build_edges-Faithful made.0 t.edges made.1
      (build_nodes-Located group_of t.vertices [] [] (omega (arith, small))
        (unfold node_at in λ n id h. cc))
      t.edges [] (λ d m. m) tt

-- The edges of a view stand for those edges, each once, and show where they go.
pub record Pictures (t : Topology) (g : ViewGraph) (shown : List Edge) : Type 0 where
  pub pairs : Perm (all_pairs g.edges) (map ends shown)
  pub edges : All (Faithful g.nodes t.edges) g.edges

-- For a topology that `Topology::new` accepts, with fewer than 2 ^ 32 vertices, the edges of the
-- expanded view stand for exactly the edges of the topology, each once, and those of the collapsed
-- view for exactly the edges that are not between two shards of one node, each once. An edge of a view
-- comes from the node with the start, and goes to the node with the end, of each edge that it stands
-- for; it has their tags, less the index of a shard at an end that is a node of shards; and it is lossy
-- exactly if one of them drops the latest message.
pub views-Pictures :
    (t : Topology)
    → IsValid t.vertices t.edges
    → length t.vertices ≤ u32_max
    → Pictures t (collapsed t) (keep (between (collapsed t).nodes) t.edges)
      × Pictures t (expanded t) t.edges
views-Pictures t valid small =
    let (some_edges, all_edges) = collapsed-perm t valid small in
    (
      record { pairs = some_edges; edges = unfold collapsed in build-Faithful t _ small },
      record { pairs = all_edges; edges = unfold expanded in build-Faithful t _ small },
    )
