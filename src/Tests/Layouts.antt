-- ===== src/Tests/Layouts.antt =====
-- The layered layout (`ranks`, crates/nfctl-core/src/model/topology.rs).
use mathlib.Core.List.{Perm, flatten}
use native.Mathlib.Omega.{arith}
use nfctl.Common.{ℕ, zero, suc, ◌≡◌, ◌≢◌, ◌<◌, refl, List, [], ◌∷◌, some, All, Memᴰ, keep, length}
use nfctl.Common.Arrays.{get_or}
use nfctl.Model.Topology.{Vertex}
use nfctl.Model.Topology.Ranks.{
  best_of, depth, index_from, index_edges, push_out, depths, maximum, to_sink, relax, settle, place,
  settled, layers_of, ranks,
}
use nfctl.Model.Topology.Ranks.Settle.{Settled, settled_total}
use nfctl.Model.Topology.Ranks.Layers.{ranks-perm}
use nfctl.Model.Topology.Ranks.Longest.{longest_from}
use nfctl.Model.Topology.Ranks.Acyclic.{IsLongestPath, successors, ranks-acyclic}
use nfctl.Tests.Shapes.{linear}

runs_ranks : Unit {0}
unfolding ranks layers_of settled to_sink depths depth best_of index_edges index_from push_out
    maximum relax settle place keep
runs_ranks = tt

settled-linear : settled linear ≡ some (2 ∷ 1 ∷ 0 ∷ [], 0 ∷ 1 ∷ 2 ∷ [])
unfolding runs_ranks
settled-linear = refl

settled_total_example :
    (s : List ℕ) × (rank : List ℕ) × (settled linear ≡ some (s, rank))
    × (to_sink (length linear.vertices) (index_edges linear.vertices linear.edges) ≡ some s)
    × Settled 3 s (maximum s) (index_edges linear.vertices linear.edges) rank
settled_total_example = settled_total linear

ranks-perm_example :
    (layers : List (List Vertex)) × (ranks linear ≡ some layers)
    × Perm (flatten layers) linear.vertices
    × All (λ l. l ≢ []) layers
ranks-perm_example = ranks-perm linear

abbrev linear_long : ℕ → ℕ
linear_long zero = 2
linear_long (suc zero) = 1
linear_long _ = 0

linear_long-IsLongestPath : IsLongestPath (index_edges linear.vertices linear.edges) linear_long
unfolding index_edges index_from successors longest_from
linear_long-IsLongestPath zero = refl
linear_long-IsLongestPath (suc zero) = refl
linear_long-IsLongestPath (suc (suc v)) = ground arith

ranks-acyclic_example :
    (s : List ℕ) × (rank : List ℕ) × (settled linear ≡ some (s, rank))
    × ((v : ℕ) → v < 3 → get_or s v 0 ≡ linear_long v)
    × ((a b : ℕ)
        → Memᴰ (a, b) (index_edges linear.vertices linear.edges)
        → get_or rank a 0 < get_or rank b 0)
ranks-acyclic_example = ranks-acyclic linear linear_long linear_long-IsLongestPath
