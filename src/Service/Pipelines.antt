-- ===== src/Service/Pipelines.antt =====
-- crates/nfctl-core/src/service/pipeline.rs: `PipelineService`, as functions of the two ports. The
-- two lists of `list_workloads` are asked for at once; here one after the other.
pub mod Order
use nfctl.Common.{
  Bool, true, false, List, ◌++◌, map, Option, ok, ok_injective, subst, ◌≡◌, ap, ◌==◌, string_eq,
  if◌then◌else◌,
}
use mathlib.Core.List.{Perm}
use nfctl.Common.Sort.{sort_by, sort_by-perm, leb_chars}
use nfctl.Ports.{ClusterPort, Io, ◌>>=◌, give, ok_of_io}
use nfctl.Model.Ids.{Namespace, PipelineName}
use nfctl.Model.Pipeline.{Pipeline}
use nfctl.Model.MonoVertex.{MonoVertex}
use nfctl.Model.Isb.{IsbService}
use nfctl.Model.Workload.{
  Workload, of_pipeline, of_monovertex, WorkloadKey, WorkloadKind, namespace, name, kind,
}

-- `(ns, name).cmp(...)` is not greater.
abbrev pub name_le : Namespace → PipelineName → Namespace → PipelineName → Bool
name_le ns n ms m = if ns == ms then leb_chars n m else leb_chars ns ms

abbrev pub kind_le : WorkloadKind → WorkloadKind → Bool
kind_le WorkloadKind.monovertex WorkloadKind.pipeline = false
kind_le _ _ = true

module _ {F : Type 0} where
  abbrev pub pipeline_le : Pipeline F → Pipeline F → Bool
  pipeline_le a b = name_le a.key.namespace a.key.name b.key.namespace b.key.name

  -- `(namespace, name, kind).cmp(...)` is not greater.
  unfoldable pub workload_le : Workload F → Workload F → Bool
  workload_le a b =
      if namespace a == namespace b
      then (if name a == name b then kind_le (kind a) (kind b) else leb_chars (name a) (name b))
      else leb_chars (namespace a) (namespace b)

  module _ {W : Type 0} (cluster : ClusterPort W F) where
    unfoldable pub list : Option Namespace → Io W (List (Pipeline F))
    list ns = cluster.list_pipelines ns >>= λ v. give (sort_by pipeline_le v)

    unfoldable pub list_workloads : Option Namespace → Io W (List (Workload F))
    list_workloads ns = cluster.list_pipelines ns >>= λ pipelines.
        cluster.list_monovertices ns >>= λ monovertices.
        give (sort_by workload_le (map of_pipeline pipelines ++ map of_monovertex monovertices))

    -- `get_workload`, by the kind of the key.
    unfoldable pub get_workload : WorkloadKey → Io W (Workload F)
    get_workload k = elim k.kind [
      | WorkloadKind.pipeline ↦
          cluster.get_pipeline (record { namespace = k.namespace; name = k.name }) >>= λ p.
          give (of_pipeline p)
      | WorkloadKind.monovertex ↦
          cluster.get_monovertex (record { namespace = k.namespace; name = k.name }) >>= λ m.
          give (of_monovertex m)
    ]

    unfoldable pub list_isb : Option Namespace → Io W (List IsbService)
    list_isb ns = cluster.list_isb ns >>= λ v. give (sort_by (λ a b. leb_chars a.name b.name) v)

    -- A list of workloads has each pipeline and each MonoVertex that the cluster lists exactly once,
    -- and nothing else.
    pub list_workloads-perm :
        (ns : Option Namespace) (w s : W) (found : List (Workload F))
        → list_workloads ns w ≡ (ok found, s)
        → (ps : List (Pipeline F)) × (ms : List MonoVertex) × (t : W) × (cluster.list_pipelines ns w
            ≡ (ok ps, t))
          × (cluster.list_monovertices ns t ≡ (ok ms, s))
          × Perm found (map of_pipeline ps ++ map of_monovertex ms)
    unfolding list_workloads
    list_workloads-perm ns w s found h =
        let (ps, t, e, k) = ok_of_io (cluster.list_pipelines ns) _ h in
        let (ms, u, f, l) = ok_of_io (cluster.list_monovertices ns) _ k in
        let all : List (Workload F) = map of_pipeline ps ++ map of_monovertex ms in
        (
          ps,
          ms,
          t,
          e,
          subst (λ (x : W). cluster.list_monovertices ns t ≡ (ok ms, x)) (ap (λ x. x.1) l) f,
          subst (λ x. Perm x all) (ok_injective (ap (λ x. x.0) l)) (sort_by-perm workload_le all),
        )
