-- ===== src/Graph/View/Located.antt =====
-- The ids that crates/nfctl-graph/src/view.rs gives out are the positions of the nodes.
use Prim.Native.Nat.{zero, suc}
use nfctl.Common.{
  ℕ, ◌+◌, ◌≤◌, List, [], ◌∷◌, ◌++◌, some, ◌==◌, string_eq, is_some, length, ◌≡◌, ◌⊎◌, inl, inr,
  refl, sym, ap, ◌∙◌, subst, arith, Memᴰ, Bool-cases, eq_of_beq, length-append,
}
use mathlib.Core.List.Memᴰ
use mathlib.Core.List.{flatten}
use nfctl.Model.Ids.{VertexName}
use nfctl.Model.Pipeline.{saturate, u32_max}
use nfctl.Model.Topology.{Vertex}
use nfctl.Graph.View.{NodeId, ViewNode}
use nfctl.Graph.View.Build.{
  Grouping, NodeMap, node_at, insert_members, node_for, build_nodes, get_elem?,
}
use nfctl.Graph.View.Partition.{Distinct, all_members}

-- The node with that id, which has the vertex as a member.
abbrev pub At : List ViewNode → NodeId → VertexName → Type 0
At nodes id n = (x : ViewNode) × (get_elem? nodes id ≡ some x) × Memᴰ n x.members

abbrev pub Located : List ViewNode → NodeMap → Type 0
Located nodes node_of = (n : VertexName) (id : NodeId) → node_at node_of n ≡ some id → At nodes id n

module _ {ℓ} {A : Type ℓ} where
  get_elem?-append :
      (xs ys : List A) (i : ℕ) {a : A} → get_elem? xs i ≡ some a → get_elem? (xs ++ ys) i ≡ some a
  unfolding get_elem?
  get_elem?-append [] ys i h = cc
  get_elem?-append (x ∷ xs) ys zero h = h
  get_elem?-append (x ∷ xs) ys (suc i) h = get_elem?-append xs ys i h

  get_elem?-snoc : (xs : List A) (x : A) → get_elem? (xs ++ x ∷ []) (length xs) ≡ some x
  unfolding get_elem?
  get_elem?-snoc [] x = refl
  get_elem?-snoc (y ∷ xs) x = get_elem?-snoc xs x

  pub get_elem?-mem : (xs : List A) (i : ℕ) {a : A} → get_elem? xs i ≡ some a → Memᴰ a xs
  unfolding get_elem?
  get_elem?-mem [] i h = cc
  get_elem?-mem (x ∷ xs) zero h = Memᴰ.head (cc)
  get_elem?-mem (x ∷ xs) (suc i) h = Memᴰ.tail (get_elem?-mem xs i h)

  pub get_elem?-of_mem : (xs : List A) {a : A} → Memᴰ a xs → (i : ℕ) × (get_elem? xs i ≡ some a)
  unfolding get_elem?
  get_elem?-of_mem [] m = elim m [ ]
  get_elem?-of_mem (x ∷ xs) (Memᴰ.head e) = (0, ap some (sym e))
  get_elem?-of_mem (x ∷ xs) (Memᴰ.tail m) = let (i, h) = get_elem?-of_mem xs m in (suc i, h)

  Distinct-split :
      (xs ys : List A) → Distinct (xs ++ ys) → Distinct ys × ((a : A) → Memᴰ a xs → ¬ Memᴰ a ys)
  Distinct-split [] ys d = (d, λ a m. elim m [ ])
  Distinct-split (x ∷ xs) ys (new, d) =
      let (rest, apart) = Distinct-split xs ys d in
      (
        rest,
        λ a m k. elim (Memᴰ.cases_cons m) [
          | inl e ↦ new (Memᴰ.append_right xs (subst (λ b. Memᴰ b ys) e k))
          | inr r ↦ apart a r k
        ],
      )

mem-all_members :
    (nodes : List ViewNode) (i : ℕ) {x : ViewNode} {n : VertexName}
    → get_elem? nodes i ≡ some x
    → Memᴰ n x.members
    → Memᴰ n (all_members nodes)
unfolding get_elem? flatten
mem-all_members [] i h m = cc
mem-all_members (y ∷ nodes) zero {x = x} {n = n} h m =
    let e : x ≡ y = cc in
    Memᴰ.append_left (all_members nodes) (subst (λ (z : ViewNode). Memᴰ n z.members) e m)
mem-all_members (y ∷ nodes) (suc i) h m = Memᴰ.append_right y.members (mem-all_members nodes i h m)

-- A vertex is a member of at most one node.
pub get_elem?_unique :
    (nodes : List ViewNode) (i j : ℕ) {x y : ViewNode} (n : VertexName)
    → Distinct (all_members nodes)
    → get_elem? nodes i ≡ some x
    → get_elem? nodes j ≡ some y
    → Memᴰ n x.members
    → Memᴰ n y.members
    → i ≡ j
unfolding get_elem? flatten
get_elem?_unique [] i j n d hx hy mx my = cc
get_elem?_unique (z ∷ nodes) zero zero n d hx hy mx my = refl
get_elem?_unique (z ∷ nodes) zero (suc j) {x = x} n d hx hy mx my =
    let e : x ≡ z = cc in
    absurd (
      (Distinct-split z.members (all_members nodes) d).1 n
        (subst (λ (w : ViewNode). Memᴰ n w.members) e mx) (mem-all_members nodes j hy my))
get_elem?_unique (z ∷ nodes) (suc i) zero {y = y} n d hx hy mx my =
    let e : y ≡ z = cc in
    absurd (
      (Distinct-split z.members (all_members nodes) d).1 n
        (subst (λ (w : ViewNode). Memᴰ n w.members) e my) (mem-all_members nodes i hx mx))
get_elem?_unique (z ∷ nodes) (suc i) (suc j) n d hx hy mx my =
    ap suc
      (get_elem?_unique nodes i j n (Distinct-split z.members (all_members nodes) d).0 hx hy mx my)

insert_members-some :
    (id : NodeId) (ms : List VertexName) (node_of : NodeMap) (n : VertexName) (j : NodeId)
    → node_at (insert_members id ms node_of) n ≡ some j
    → (Memᴰ n ms × (j ≡ id)) ⊎ (node_at node_of n ≡ some j)
unfolding insert_members node_at
insert_members-some id [] node_of n j h = inr h
insert_members-some id (m ∷ ms) node_of n j h =
    elim (insert_members-some id ms ((m, id) ∷ node_of) n j h) [
      | inl p ↦ inl (Memᴰ.tail p.0, p.1)
      | inr q ↦ elim (Bool-cases (m == n)) [
        | inl t ↦ inl (Memᴰ.head (sym (eq_of_beq m n t)), cc (rw t at q))
        | inr f ↦ inr (rw f at q)
      ]
    ]

Located-add :
    (nodes : List ViewNode) (node_of : NodeMap) (x : ViewNode)
    → length nodes ≤ u32_max
    → Located nodes node_of
    → Located (nodes ++ x ∷ []) (insert_members (saturate (length nodes)) x.members node_of)
Located-add nodes node_of x small located n id h =
    elim (insert_members-some (saturate (length nodes)) x.members node_of n id h) [
      | inl (m, e) ↦
          let here : id ≡ length nodes = e ∙ ground (arith, small) in
          (
            x,
            subst (λ k. get_elem? (nodes ++ x ∷ []) k ≡ some x) (sym here) (get_elem?-snoc nodes x),
            m,
          )
      | inr old ↦ let (y, at, m) = located n id old in (y, get_elem?-append nodes (x ∷ []) id at, m)
    ]

-- With fewer than 2 ^ 32 vertices, each id in the map is that of a node with the vertex.
pub build_nodes-Located :
    (group_of : Grouping) (vs : List Vertex) (nodes : List ViewNode) (node_of : NodeMap)
    → length nodes + length vs ≤ u32_max
    → Located nodes node_of
    → Located (build_nodes group_of vs nodes node_of).0 (build_nodes group_of vs nodes node_of).1
unfolding build_nodes
build_nodes-Located group_of [] nodes node_of small located = located
build_nodes-Located group_of (v ∷ vs) nodes node_of small located =
    elim (Bool-cases (is_some (node_at node_of v.name))) [
      | inl old ↦
          rw old (build_nodes-Located group_of vs nodes node_of (omega (arith, small)) located)
      | inr new ↦
          let x = node_for group_of v in
          rw new (
            build_nodes-Located group_of vs (nodes ++ x ∷ [])
              (insert_members (saturate (length nodes)) x.members node_of)
              (omega (arith, small, length-append nodes (x ∷ [])))
              (Located-add nodes node_of x (omega (arith, small)) located))
    ]
