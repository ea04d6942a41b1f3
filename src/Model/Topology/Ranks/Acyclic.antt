-- ===== src/Model/Topology/Ranks/Acyclic.antt =====
-- The depths and the ranks of an acyclic topology (crates/nfctl-core/src/model/topology.rs), read off
-- its edges.
use nfctl.Common.{
  ℕ, ◌<◌, List, [], ◌∷◌, ◌++◌, Option, none, some, if◌then◌else◌, eqb, eqb_iff, All-mem, length,
  ◌≡◌, refl, sym, ap, ◌∙◌, inl, inr, arith, Bool-cases, Memᴰ,
}
use mathlib.Core.List.{append-nil, append_assoc}
use nfctl.Model.Topology.{Topology}
use nfctl.Common.Arrays.{
  get_or, set, replicate, length-replicate, length-set, get_or-replicate, get_or-set_self,
  get_or-set_ne,
}
use nfctl.Model.Topology.Ranks.{push_out, start_walk, to_sink, index_edges, settled}
use nfctl.Model.Topology.Ranks.Total.{EdgesBelow, index_edges-Below}
use nfctl.Model.Topology.Ranks.Settle.{settled_total}
use nfctl.Model.Topology.Ranks.Longest.{longest_from, longest_from-lt, depths-IsRight}

-- The second ends of the edges that leave `v`, in order.
unfoldable pub successors : List (ℕ × ℕ) → ℕ → List ℕ
successors [] v = []
successors ((a, b) ∷ es) v = if eqb a v then b ∷ successors es v else successors es v

-- `long v` is the number of edges on a longest path from `v`.
abbrev pub IsLongestPath : List (ℕ × ℕ) → (ℕ → ℕ) → Type 0
IsLongestPath es long = (v : ℕ) → long v ≡ longest_from long (successors es v) 0

length-push_out : (out : List (List ℕ)) (es : List (ℕ × ℕ)) → length (push_out out es) ≡ length out
unfolding push_out
length-push_out out [] = refl
length-push_out out ((a, b) ∷ es) =
    length-push_out (set out a (get_or out a [] ++ b ∷ [])) es
    ∙ length-set out a (get_or out a [] ++ b ∷ [])

push_out-successors :
    (out : List (List ℕ)) (es : List (ℕ × ℕ)) (v : ℕ)
    → EdgesBelow (length out) es
    → get_or (push_out out es) v [] ≡ get_or out v [] ++ successors es v
unfolding push_out successors
push_out-successors out [] v below = sym (append-nil (get_or out v []))
push_out-successors out ((a, b) ∷ es) v below =
    let out' : List (List ℕ) = set out a (get_or out a [] ++ b ∷ []) in
    let rest =
      push_out-successors out' es v (rw (length-set out a (get_or out a [] ++ b ∷ [])) below.1) in
    rest ∙ elim (Bool-cases (eqb a v)) [
      | inl same ↦
          let p : a ≡ v = (eqb_iff a v).0 same in
          rw (same, ← p, get_or-set_self out a (get_or out a [] ++ b ∷ []) [] below.0.0)
            (append_assoc (get_or out a []) (b ∷ []) (successors es a))
      | inr other ↦ rw (
        other,
        get_or-set_ne out a v (get_or out a [] ++ b ∷ []) [] (λ p. cc (other, (eqb_iff a v).1 p)),
      )
    ]

mem-successors : (es : List (ℕ × ℕ)) (a b : ℕ) → Memᴰ (a, b) es → Memᴰ b (successors es a)
unfolding successors
mem-successors [] a b m = elim m [ ]
mem-successors ((c, d) ∷ es) a b (Memᴰ.head e) =
    let p : c ≡ a = ap (λ (x : ℕ × ℕ). x.0) (sym e) in
    rw ((eqb_iff c a).1 p) (Memᴰ.head (ap (λ (x : ℕ × ℕ). x.1) e))
mem-successors ((c, d) ∷ es) a b (Memᴰ.tail m) = elim (Bool-cases (eqb c a)) [
  | inl p ↦ rw p (Memᴰ.tail (mem-successors es a b m))
  | inr p ↦ rw p (mem-successors es a b m)
]

-- On an acyclic graph `to_sink` is the longest path to a sink, at every vertex.
pub to_sink-IsLongestPath :
    (n : ℕ) (es : List (ℕ × ℕ)) (long : ℕ → ℕ) (ds : List ℕ)
    → EdgesBelow n es
    → IsLongestPath es long
    → to_sink n es ≡ some ds
    → (v : ℕ) → v < n
    → get_or ds v 0 ≡ long v
unfolding to_sink
to_sink-IsLongestPath n es long ds below spec e v h =
    let out = push_out (replicate n []) es in
    let adjacent : (u : ℕ) → get_or out u [] ≡ successors es u = λ u.
      push_out-successors (replicate n []) es u (rw (length-replicate {A = List ℕ} n []) below)
      ∙ ap (λ (l : List ℕ). l ++ successors es u) (get_or-replicate {A = List ℕ} n u []) in
    depths-IsRight out long (λ u. rw (adjacent u) (spec u)) n n n 0 (start_walk n) ds
      (λ u d p. cc (p, get_or-replicate {A = Option ℕ} n u none)) refl e v h
    ∙ ap long (omega arith)

-- On an acyclic topology, `depth` is the length of the longest path to a sink, and every edge goes
-- from a vertex to one of a strictly greater rank.
pub ranks-acyclic :
    (t : Topology) (long : ℕ → ℕ)
    → IsLongestPath (index_edges t.vertices t.edges) long
    → (sink : List ℕ) × (rank : List ℕ) × (settled t ≡ some (sink, rank))
      × ((v : ℕ) → v < length t.vertices → get_or sink v 0 ≡ long v)
      × ((a b : ℕ)
          → Memᴰ (a, b) (index_edges t.vertices t.edges)
          → get_or rank a 0 < get_or rank b 0)
ranks-acyclic t long spec =
    let es = index_edges t.vertices t.edges in
    let below = index_edges-Below t.vertices t.edges in
    let (sink, rank, e, deep, s) = settled_total t in
    let values = to_sink-IsLongestPath (length t.vertices) es long sink below spec deep in
    (
      sink,
      rank,
      e,
      values,
      λ a b m.
          let (ha, hb) =
            All-mem (λ (x : ℕ × ℕ). (x.0 < length t.vertices) × (x.1 < length t.vertices)) es below
              m in
          let shorter =
            All-mem (λ x. long x < longest_from long (successors es a) 0) (successors es a)
              (longest_from-lt long (successors es a) 0) (mem-successors es a b m) in
          All-mem
            (λ (x : ℕ × ℕ).
              get_or sink x.1 0 < get_or sink x.0 0 → get_or rank x.0 0 < get_or rank x.1 0)
            es s.ordered m (omega (arith, values a ha, values b hb, shorter, spec a)),
    )
