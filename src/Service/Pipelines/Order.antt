-- ===== src/Service/Pipelines/Order.antt =====
-- The order of the list of workloads (crates/nfctl-core/src/service/pipeline.rs).
use nfctl.Common.{
  true, List, [], ◌∷◌, ◌++◌, map, Option, ok, ok_injective, subst, ◌≡◌, ◌↔◌, ◌⊎◌, inl, inr, refl,
  ap, All, string_eq,
}
use mathlib.Core.List.{Perm}
use nfctl.Common.Lex.{Lex, lex_trans, lex_total, lex_iff}
use nfctl.Common.Sort.{Sorted, sort_by, sort_by-perm, sort_by-Sorted}
use nfctl.Ports.{ClusterPort, ok_of_io}
use nfctl.Model.Ids.{Namespace}
use nfctl.Model.Pipeline.{Pipeline}
use nfctl.Model.MonoVertex.{MonoVertex}
use nfctl.Model.Workload.{Workload, of_pipeline, of_monovertex, WorkloadKind, namespace, name, kind}
use nfctl.Service.Pipelines.{kind_le, workload_le, list_workloads}

abbrev pub KindOrder : WorkloadKind → WorkloadKind → Type 0
KindOrder WorkloadKind.monovertex WorkloadKind.pipeline = ⊥
KindOrder _ _ = Unit

-- By namespace, then by name, then the pipeline before the MonoVertex.
abbrev pub InOrder : {F : Type 0} → Workload F → Workload F → Type 0
InOrder a b = Lex (namespace a) (namespace b) (Lex (name a) (name b) (KindOrder (kind a) (kind b)))

abbrev pub IsOrdered : {F : Type 0} → List (Workload F) → Type 0
IsOrdered [] = Unit
IsOrdered (a ∷ rest) = All (InOrder a) rest × IsOrdered rest

kind_le_iff : (a b : WorkloadKind) → (kind_le a b ≡ true) ↔ KindOrder a b
kind_le_iff WorkloadKind.pipeline WorkloadKind.pipeline = (λ _. tt, λ _. refl)
kind_le_iff WorkloadKind.pipeline WorkloadKind.monovertex = (λ _. tt, λ _. refl)
kind_le_iff WorkloadKind.monovertex WorkloadKind.monovertex = (λ _. tt, λ _. refl)
kind_le_iff WorkloadKind.monovertex WorkloadKind.pipeline = (λ h. cc, λ h. absurd h)

KindOrder-total : (a b : WorkloadKind) → KindOrder a b ⊎ KindOrder b a
KindOrder-total WorkloadKind.pipeline WorkloadKind.pipeline = inl tt
KindOrder-total WorkloadKind.pipeline WorkloadKind.monovertex = inl tt
KindOrder-total WorkloadKind.monovertex WorkloadKind.monovertex = inl tt
KindOrder-total WorkloadKind.monovertex WorkloadKind.pipeline = inr tt

KindOrder-trans : (a b c : WorkloadKind) → KindOrder a b → KindOrder b c → KindOrder a c
KindOrder-trans WorkloadKind.pipeline b WorkloadKind.pipeline h k = tt
KindOrder-trans WorkloadKind.pipeline b WorkloadKind.monovertex h k = tt
KindOrder-trans WorkloadKind.monovertex b WorkloadKind.monovertex h k = tt
KindOrder-trans WorkloadKind.monovertex WorkloadKind.pipeline WorkloadKind.pipeline h k = h
KindOrder-trans WorkloadKind.monovertex WorkloadKind.monovertex WorkloadKind.pipeline h k = k

module _ {F : Type 0} where
  workload_le_iff : (a b : Workload F) → (workload_le a b ≡ true) ↔ InOrder a b
  unfolding workload_le
  workload_le_iff a b =
      lex_iff (namespace a) (namespace b) _
        (lex_iff (name a) (name b) _ (kind_le_iff (kind a) (kind b)))

  workload_le_total : (a b : Workload F) → (workload_le a b ≡ true) ⊎ (workload_le b a ≡ true)
  workload_le_total a b =
      elim (lex_total (namespace a) (namespace b)
        (lex_total (name a) (name b) (KindOrder-total (kind a) (kind b)))) [
          | inl h ↦ inl ((workload_le_iff a b).1 h)
          | inr h ↦ inr ((workload_le_iff b a).1 h)
        ]

  workload_le_trans :
      (a b c : Workload F)
      → workload_le a b ≡ true
      → workload_le b c ≡ true
      → workload_le a c ≡ true
  workload_le_trans a b c h k = (workload_le_iff a c).1 (
      lex_trans (namespace a) (namespace b) (namespace c)
        (lex_trans (name a) (name b) (name c) (KindOrder-trans (kind a) (kind b) (kind c)))
        ((workload_le_iff a b).0 h) ((workload_le_iff b c).0 k))

  all-InOrder :
      (a : Workload F) (xs : List (Workload F))
      → All (λ y. workload_le a y ≡ true) xs
      → All (InOrder a) xs
  all-InOrder a [] h = tt
  all-InOrder a (x ∷ xs) h = ((workload_le_iff a x).0 h.0, all-InOrder a xs h.1)

  Sorted-IsOrdered : (xs : List (Workload F)) → Sorted workload_le xs → IsOrdered xs
  Sorted-IsOrdered [] h = tt
  Sorted-IsOrdered (x ∷ xs) h = (all-InOrder x xs h.0, Sorted-IsOrdered xs h.1)

-- A list of workloads has each pipeline and each MonoVertex that the cluster lists exactly once, and
-- nothing else, in the order of their namespaces, then of their names, by code points, then the
-- pipeline before the MonoVertex.
pub list_workloads-IsOrdered :
    {W F : Type 0} (cluster : ClusterPort W F) (ns : Option Namespace) (w s : W)
    (found : List (Workload F))
    → list_workloads cluster ns w ≡ (ok found, s)
    → (ps : List (Pipeline F)) × (ms : List MonoVertex) × (t : W) × (cluster.list_pipelines ns w
        ≡ (ok ps, t))
      × (cluster.list_monovertices ns t ≡ (ok ms, s))
      × Perm found (map of_pipeline ps ++ map of_monovertex ms)
      × IsOrdered found
unfolding list_workloads
list_workloads-IsOrdered cluster ns w s found h =
    let (ps, t, e, k) = ok_of_io (cluster.list_pipelines ns) _ h in
    let (ms, u, f, l) = ok_of_io (cluster.list_monovertices ns) _ k in
    let all = map of_pipeline ps ++ map of_monovertex ms in
    let same : sort_by workload_le all ≡ found = ok_injective (ap (λ x. x.0) l) in
    (
      ps,
      ms,
      t,
      e,
      subst (λ x. cluster.list_monovertices ns t ≡ (ok ms, x)) (ap (λ x. x.1) l) f,
      subst (λ x. Perm x all) same (sort_by-perm workload_le all),
      subst IsOrdered same
          (Sorted-IsOrdered _ (sort_by-Sorted workload_le workload_le_total workload_le_trans all)),
    )
