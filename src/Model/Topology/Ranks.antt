-- ===== src/Model/Topology/Ranks.antt =====
-- `depth` and `Topology::ranks` (crates/nfctl-core/src/model/topology.rs): the layered layout.
-- The two loops with no bound in the code take fuel, and `none` means that it ran out.
pub mod Total
pub mod Longest
pub mod Acyclic
pub mod Settle
pub mod Layers
use Prim.Native.Nat.{max, min}
use nfctl.Common.{
  ℕ, zero, suc, ◌+◌, ◌*◌, Bool, true, false, ◌&&◌, not, List, [], ◌∷◌, ◌++◌, Option, none, some,
  ◌==◌, string_eq, if◌then◌else◌, ltb, is_empty, length, keep,
}
use mathlib.Core.Option
use nfctl.Common.Arrays.{get_or, set, replicate}
use nfctl.Model.Ids.{VertexName}
use nfctl.Model.Topology.{Vertex, Edge, Topology}

-- `memo` and `stack`, which every call of `depth` shares.
pub record Walk : Type 0 where
  pub memo : List (Option ℕ)
  pub stack : List Bool

-- The loop of `depth` over the successors. `visit` is the recursive call.
unfoldable pub best_of : (ℕ → Walk → Option (ℕ × Walk)) → List ℕ → ℕ → Walk → Option (ℕ × Walk)
best_of visit [] best w = some (best, w)
best_of visit (x ∷ xs) best w = elim (get_or w.stack x false) [
  | true ↦ best_of visit xs best w
  | false ↦ elim (visit x w) [ none ↦ none | some (d, w') ↦ best_of visit xs (max best (d + 1)) w' ]
]

unfoldable pub depth : ℕ → List (List ℕ) → ℕ → Walk → Option (ℕ × Walk)
depth zero out v w = none
depth (suc fuel) out v w = elim (get_or w.memo v none) [
  | some d ↦ some (d, w)
  | none ↦
      elim (best_of (depth fuel out) (get_or out v []) 0
        (record w { stack = set w.stack v true })) [
          | none ↦ none
          | some (best, w') ↦
              some (best, record { memo = set w'.memo v (some best); stack = set w'.stack v false })
        ]
]

-- `idx`: the index of a vertex by its name. In a `HashMap` a later entry replaces an earlier one.
unfoldable pub index_from : ℕ → List Vertex → VertexName → Option ℕ
index_from i [] n = none
index_from i (v ∷ vs) n = elim (index_from (suc i) vs n) [
  | some j ↦ some j
  | none ↦ if v.name == n then some i else none
]

abbrev pub pair_up : Option ℕ → Option ℕ → List (ℕ × ℕ) → List (ℕ × ℕ)
pair_up (some a) (some b) rest = (a, b) ∷ rest
pair_up _ _ rest = rest

-- The edges whose two ends are found, as pairs of indices.
unfoldable pub index_edges : List Vertex → List Edge → List (ℕ × ℕ)
index_edges vs [] = []
index_edges vs (e ∷ es) =
    pair_up (index_from 0 vs e.from) (index_from 0 vs e.to) (index_edges vs es)

-- `out_edges[a].push(b)`
unfoldable pub push_out : List (List ℕ) → List (ℕ × ℕ) → List (List ℕ)
push_out out [] = out
push_out out ((a, b) ∷ es) = push_out (set out a (get_or out a [] ++ b ∷ [])) es

-- `(v..n).map(|v| depth(v, ..))`, where `left` indices are left.
unfoldable pub depths : ℕ → List (List ℕ) → (left v : ℕ) → Walk → Option (List ℕ)
depths fuel out zero v w = some []
depths fuel out (suc left) v w = elim (depth fuel out v w) [
  | none ↦ none
  | some (d, w') ↦ Option.map (λ ds. d ∷ ds) (depths fuel out left (suc v) w')
]

unfoldable pub maximum : List ℕ → ℕ
maximum [] = 0
maximum (d ∷ ds) = max d (maximum ds)

abbrev pub start_walk : ℕ → Walk
start_walk n = record { memo = replicate n none; stack = replicate n false }

-- A stack of `n` vertices bounds the recursion, so `n` is enough fuel.
unfoldable pub to_sink : ℕ → List (ℕ × ℕ) → Option (List ℕ)
to_sink n es = depths n (push_out (replicate n []) es) n 0 (start_walk n)

-- The test on an edge in the `while` loop.
abbrev pub lifts : List ℕ → List ℕ → ℕ → ℕ → Bool
lifts sink rank a b =
    ltb (get_or sink b 0) (get_or sink a 0) && ltb (get_or rank b 0) (get_or rank a 0 + 1)

-- The `for` loop in the body of the `while` loop.
unfoldable pub relax : List ℕ → List (ℕ × ℕ) → List ℕ → Bool → List ℕ × Bool
relax sink [] rank changed = (rank, changed)
relax sink ((a, b) ∷ es) rank changed =
    relax sink es (if lifts sink rank a b then set rank b (get_or rank a 0 + 1) else rank)
      (if lifts sink rank a b then true else changed)

unfoldable pub settle : ℕ → List ℕ → List (ℕ × ℕ) → List ℕ → Option (List ℕ)
settle zero sink es rank = none
settle (suc fuel) sink es rank =
    let (rank', changed) = relax sink es rank false in
    elim changed [ true ↦ settle fuel sink es rank' | false ↦ some rank' ]

-- `layers[rank[i].min(max)].push(v)`, from index `i` on.
unfoldable pub place : ℕ → List ℕ → ℕ → List Vertex → List (List Vertex) → List (List Vertex)
place top rank i [] layers = layers
place top rank i (v ∷ vs) layers =
    let at : ℕ = min (get_or rank i 0) top in
    place top rank (suc i) vs (set layers at (get_or layers at [] ++ v ∷ []))

-- The two computed vectors of `ranks`: the depths, and the ranks at the end of the loop. No rank
-- passes the greatest depth, and each round but the last raises one.
unfoldable pub settled : Topology → Option (List ℕ × List ℕ)
settled t =
    let n : ℕ = length t.vertices in
    let es = index_edges t.vertices t.edges in
    elim (to_sink n es) [
      | none ↦ none
      | some sink ↦
          Option.map (λ rank. (sink, rank)) (settle (n * maximum sink + 1) sink es (replicate n 0))
    ]

unfoldable pub layers_of : List Vertex → List ℕ → List ℕ → List (List Vertex)
layers_of vs sink rank =
    keep (λ l. not (is_empty l)) (place (maximum sink) rank 0 vs (replicate (maximum sink + 1) []))

-- `Topology::ranks`
unfoldable pub ranks : Topology → Option (List (List Vertex))
ranks t = Option.map (λ (sink, rank). layers_of t.vertices sink rank) (settled t)
