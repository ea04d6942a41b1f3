-- ===== src/Model/Topology/Ranks/Layers.antt =====
-- The layers of `Topology::ranks` (crates/nfctl-core/src/model/topology.rs) hold every vertex once.
use Prim.Native.Nat.{min}
use mathlib.Core.List.Perm
use mathlib.Core.List.{Perm, perm_middle, append_assoc, append-nil, flatten}
use nfctl.Common.{
  ℕ, zero, suc, ◌+◌, ◌<◌, not, List, [], ◌∷◌, ◌++◌, some, length, is_empty, keep, ◌≡◌, ◌≢◌, refl,
  ap, subst, ◌∙◌, arith, All,
}
use nfctl.Common.Arrays.{get_or, set, replicate, length-replicate, length-set}
use nfctl.Model.Topology.{Vertex, Topology}
use nfctl.Model.Topology.Ranks.{maximum, place, layers_of, ranks}
use nfctl.Model.Topology.Ranks.Settle.{settled_total}

-- Pushing onto one layer adds the vertex.
push-perm :
    (layers : List (List Vertex)) (i : ℕ) (v : Vertex)
    → i < length layers
    → Perm (flatten (set layers i (get_or layers i [] ++ v ∷ []))) (v ∷ flatten layers)
unfolding flatten
push-perm [] i v h = elim h [ ]
push-perm (l ∷ ls) zero v h = rw append_assoc (perm_middle l (flatten ls))
push-perm (l ∷ ls) (suc i) v h =
    Perm.trans (Perm.append_left l (push-perm ls i v (omega arith))) (perm_middle l (flatten ls))

place-perm :
    (top : ℕ) (rank : List ℕ) (i : ℕ) (vs : List Vertex) (layers : List (List Vertex))
    → top < length layers
    → Perm (flatten (place top rank i vs layers)) (vs ++ flatten layers)
unfolding place
place-perm top rank i [] layers h = Perm.refl (flatten layers)
place-perm top rank i (v ∷ vs) layers h =
    let at : ℕ = min (get_or rank i 0) top in
    let l' : List (List Vertex) = set layers at (get_or layers at [] ++ v ∷ []) in
    Perm.trans
      (place-perm top rank (suc i) vs l'
        (rw (length-set layers at (get_or layers at [] ++ v ∷ [])) h))
      (Perm.trans (Perm.append_left vs (push-perm layers at v (omega arith)))
        (perm_middle vs (flatten layers)))

flatten-keep : (ls : List (List Vertex)) → flatten (keep (λ l. not (is_empty l)) ls) ≡ flatten ls
unfolding keep flatten
flatten-keep [] = refl
flatten-keep ([] ∷ ls) = flatten-keep ls
flatten-keep ((v ∷ l) ∷ ls) = ap (λ r. v ∷ (l ++ r)) (flatten-keep ls)

flatten-replicate : (n : ℕ) → flatten (replicate {A = List Vertex} n []) ≡ []
unfolding flatten
flatten-replicate zero = refl
flatten-replicate (suc n) = flatten-replicate n

keep-All : (ls : List (List Vertex)) → All (λ l. l ≢ []) (keep (λ l. not (is_empty l)) ls)
unfolding keep
keep-All [] = tt
keep-All ([] ∷ ls) = keep-All ls
keep-All ((v ∷ l) ∷ ls) = ((λ e. cc), keep-All ls)

-- `ranks` returns for every topology: its layers are not empty, and hold every vertex exactly once.
pub ranks-perm :
    (t : Topology)
    → (layers : List (List Vertex)) × (ranks t ≡ some layers)
      × Perm (flatten layers) t.vertices
      × All (λ l. l ≢ []) layers
unfolding ranks layers_of
ranks-perm t =
    let (sink, rank, e, _, _) = settled_total t in
    let top : ℕ = maximum sink in
    let empty : List (List Vertex) = replicate (top + 1) [] in
    (
      layers_of t.vertices sink rank,
      rw e,
      rw (flatten-keep (place top rank 0 t.vertices empty)) (
          subst (λ r. Perm (flatten (place top rank 0 t.vertices empty)) r)
            (ap (λ r. t.vertices ++ r) (flatten-replicate (top + 1)) ∙ append-nil t.vertices)
            (place-perm top rank 0 t.vertices empty
              (rw (length-replicate {A = List Vertex} (top + 1) []) (omega arith)))),
      keep-All (place top rank 0 t.vertices empty),
    )
