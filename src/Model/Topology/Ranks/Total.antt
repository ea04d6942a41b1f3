-- ===== src/Model/Topology/Ranks/Total.antt =====
-- The recursion of `depth` (crates/nfctl-core/src/model/topology.rs) ends: every call puts one more
-- vertex on the stack, so as much fuel as there are vertices is enough.
use Prim.Native.Nat.{max}
use nfctl.Common.{
  ℕ, zero, suc, ◌+◌, ◌≤◌, ◌<◌, Bool, true, false, List, [], ◌∷◌, ◌++◌, Option, none, some,
  string_eq, length, All-append, String, ◌≡◌, refl, ap, ◌∙◌, inl, inr, arith, All, Bool-cases,
  Option-cases,
}
use nfctl.Common.Arrays.{
  get_or, set, replicate, length-replicate, length-set, get_or-replicate, get_or-set_cases,
  set-set-get_or,
}
use nfctl.Model.Topology.{Vertex, Edge}
use nfctl.Model.Topology.Ranks.{
  Walk, best_of, depth, index_from, index_edges, pair_up, push_out, depths, start_walk, to_sink,
}

-- The vertices that are not on the stack.
abbrev pub free : List Bool → ℕ
free [] = 0
free (true ∷ bs) = free bs
free (false ∷ bs) = suc (free bs)

pub free-set :
    (bs : List Bool) (v : ℕ)
    → v < length bs
    → get_or bs v false ≡ false
    → free (set bs v true) + 1 ≡ free bs
free-set [] v h e = elim h [ ]
free-set (true ∷ bs) zero h e = cc
free-set (false ∷ bs) zero h e = omega arith
free-set (true ∷ bs) (suc v) h e = free-set bs v (omega arith) e
free-set (false ∷ bs) (suc v) h e = omega (arith, free-set bs v (omega arith) e)

pub free-replicate : (n : ℕ) → free (replicate n false) ≡ n
free-replicate zero = refl
free-replicate (suc n) = ap suc (free-replicate n)

-- Every successor is a vertex.
abbrev pub Below : ℕ → List ℕ → Type 0
Below n = All (λ x. x < n)

abbrev pub OutBelow : ℕ → List (List ℕ) → Type 0
OutBelow n out = (v : ℕ) → Below n (get_or out v [])

-- The call returns, and leaves the stack as it found it.
abbrev pub Returns : Option (ℕ × Walk) → List Bool → Type 0
Returns r stack = (d : ℕ) × (w : Walk) × (r ≡ some (d, w)) × (w.stack ≡ stack)

-- What the recursive call is known to do.
abbrev Visits : ℕ → ℕ → (ℕ → Walk → Option (ℕ × Walk)) → Type 0
Visits n fuel visit =
    (x : ℕ) (w : Walk)
    → x < n
    → length w.stack ≡ n
    → get_or w.stack x false ≡ false
    → free w.stack ≤ fuel
    → Returns (visit x w) w.stack

best_of-Returns :
    (n fuel : ℕ) (visit : ℕ → Walk → Option (ℕ × Walk)) (xs : List ℕ) (best : ℕ) (w : Walk)
    → Visits n fuel visit
    → Below n xs
    → length w.stack ≡ n
    → free w.stack ≤ fuel
    → Returns (best_of visit xs best w) w.stack
unfolding best_of
best_of-Returns n fuel visit [] best w vis below len room = (best, w, refl, refl)
best_of-Returns n fuel visit (x ∷ xs) best w vis below len room =
    elim (Bool-cases (get_or w.stack x false)) [
      | inl on ↦ rw (on, best_of) (best_of-Returns n fuel visit xs best w vis below.1 len room)
      | inr off ↦
          let (d, w', e, same) = vis x w below.0 len off room in
          let (r, u, p, q) =
            best_of-Returns n fuel visit xs (max best (d + 1)) w' vis below.1 (rw same len)
              (rw same room) in
          rw (off, best_of, e) (r, u, p, q ∙ same)
    ]

pub depth-Returns :
    (n fuel : ℕ) (out : List (List ℕ)) (v : ℕ) (w : Walk)
    → OutBelow n out
    → v < n
    → length w.stack ≡ n
    → get_or w.stack v false ≡ false
    → free w.stack ≤ fuel
    → Returns (depth fuel out v w) w.stack
unfolding depth
depth-Returns n zero out v w below hv len off room =
    absurd (omega (arith, free-set w.stack v (omega arith) off))
depth-Returns n (suc fuel) out v w below hv len off room =
    elim (Option-cases (get_or w.memo v none)) [
      | inr (d, known) ↦ rw (known, depth) (d, w, refl, refl)
      | inl unknown ↦
          let (best, w', e, same) =
            best_of-Returns n fuel (depth fuel out) (get_or out v []) 0
              (record w { stack = set w.stack v true })
              (λ x u hx hl ho hr. depth-Returns n fuel out x u below hx hl ho hr) (below v)
              (length-set w.stack v true ∙ len)
              (omega (arith, free-set w.stack v (omega arith) off)) in
          rw (unknown, depth, e)
            (
              best,
              record { memo = set w'.memo v (some best); stack = set w'.stack v false },
              refl,
              rw same (rw (← off) (set-set-get_or w.stack v true false)),
            )
    ]

-- The indices of both ends are in range.
abbrev pub EdgesBelow : ℕ → List (ℕ × ℕ) → Type 0
EdgesBelow n = All (λ e. (e.0 < n) × (e.1 < n))

index_from-bounds :
    (i : ℕ) (vs : List Vertex) (name : String) {j : ℕ}
    → index_from i vs name ≡ some j
    → (i ≤ j) × (j < i + length vs)
unfolding index_from
index_from-bounds i [] name h = cc
index_from-bounds i (v ∷ vs) name {j} h = elim (Option-cases (index_from (suc i) vs name)) [
  | inl p ↦ ground (arith, h, p)
  | inr (k, p) ↦
      let q : k ≡ j = ground (arith, h, p) in
      let b = index_from-bounds (suc i) vs name {j = k} p in omega (arith, b, q)
]

pair_up-Below :
    (n : ℕ) (a b : Option ℕ) (rest : List (ℕ × ℕ))
    → ((x : ℕ) → a ≡ some x → x < n)
    → ((y : ℕ) → b ≡ some y → y < n)
    → EdgesBelow n rest
    → EdgesBelow n (pair_up a b rest)
pair_up-Below n (some x) (some y) rest ha hb r = ((ha x refl, hb y refl), r)
pair_up-Below n none b rest ha hb r = r
pair_up-Below n (some x) none rest ha hb r = r

pub index_edges-Below :
    (vs : List Vertex) (es : List Edge) → EdgesBelow (length vs) (index_edges vs es)
unfolding index_edges
index_edges-Below vs [] = tt
index_edges-Below vs (e ∷ es) =
    pair_up-Below (length vs) (index_from 0 vs e.from) (index_from 0 vs e.to) (index_edges vs es)
      (λ x h. omega (arith, index_from-bounds 0 vs e.from {j = x} h))
      (λ y h. omega (arith, index_from-bounds 0 vs e.to {j = y} h)) (index_edges-Below vs es)

pub push_out-Below :
    (n : ℕ) (out : List (List ℕ)) (es : List (ℕ × ℕ))
    → OutBelow n out
    → EdgesBelow n es
    → OutBelow n (push_out out es)
unfolding push_out
push_out-Below n out [] below edges = below
push_out-Below n out ((a, b) ∷ es) below edges =
    push_out-Below n (set out a (get_or out a [] ++ b ∷ [])) es
      (λ v. elim (get_or-set_cases out a v (get_or out a [] ++ b ∷ []) []) [
        | inl (p, q) ↦
            rw q (All-append (λ x. x < n) (get_or out a []) (b ∷ []) (below a) (edges.0.1, tt))
        | inr q ↦ rw q (below v)
      ])
      edges.1

depths_total :
    (n : ℕ) (out : List (List ℕ)) (left v : ℕ) (w : Walk)
    → OutBelow n out
    → v + left ≡ n
    → w.stack ≡ replicate n false
    → (ds : List ℕ) × (depths n out left v w ≡ some ds) × (length ds ≡ left)
unfolding depths
depths_total n out zero v w below range clean = ([], refl, refl)
depths_total n out (suc left) v w below range clean =
    let (d, w', e, same) =
      depth-Returns n n out v w below (omega arith) (rw clean (length-replicate n false))
        (rw clean (get_or-replicate n v false)) (rw clean (omega (arith, free-replicate n))) in
    let (ds, q, len) = depths_total n out left (suc v) w' below (omega arith) (same ∙ clean) in
    (d ∷ ds, rw (e, depths, q), ap suc len)

-- `to_sink` is computed for any edges between `n` vertices, one depth for each vertex.
pub to_sink_total :
    (n : ℕ) (es : List (ℕ × ℕ))
    → EdgesBelow n es
    → (ds : List ℕ) × (to_sink n es ≡ some ds) × (length ds ≡ n)
unfolding to_sink
to_sink_total n es below =
    depths_total n (push_out (replicate n []) es) n 0 (start_walk n)
      (push_out-Below n (replicate n []) es (λ v. rw (get_or-replicate {A = List ℕ} n v []) tt)
        below)
      (omega arith) refl
