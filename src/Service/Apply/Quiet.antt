-- ===== src/Service/Apply/Quiet.antt =====
-- When `check` (crates/nfctl-core/src/service/apply.rs) has nothing to warn about.
use nfctl.Common.{
  true, List, [], ◌∷◌, Option, some, ◌==◌, string_eq, option_eq, nat_eq, ◌≡◌, ◌≢◌, ◌↔◌, inl, inr,
  refl, sym, subst, ap, ◌∙◌, Memᴰ, Bool-cases, eq_of_beq, ne_of_beq,
}
use nfctl.Common.Int.{ℤ}
use nfctl.Model.Topology.{reduce, vertex_kind_eq, Vertex, vertex}
use nfctl.Model.Topology.Valid.{IsValid, vertex_of_mem}
use nfctl.Model.Topology.Diff.{diff}
use nfctl.Model.Topology.Diff.Laws.{SameShape}
use nfctl.Model.Topology.Diff.Changes.{mem-diff_changes, mem-diff_image}
use nfctl.Model.Pipeline.{Pipeline}
use nfctl.Service.Apply.Warnings.{partition_warnings-nil, check-warnings}
use nfctl.Service.Apply.{has_backlog, is_reduce, check}

no_members {ℓ} : {A : Type ℓ} (xs : List A) → ((x : A) → ¬ Memᴰ x xs) → xs ≡ []
no_members [] h = refl
no_members (x ∷ xs) h = absurd (h x (Memᴰ.head refl))

module _ {F : Type 0} (live new : Pipeline F) (b : Option ℤ) where
  -- What the operator takes over without a warning: the shape stays, a vertex that stays keeps its
  -- partitions unless it is a reduce vertex, and with a backlog it keeps its image as well.
  pub record Unnoticed : Type 0 where
    pub shape : SameShape live.spec.topology new.spec.topology
    pub partitions :
        (old v : Vertex)
        → Memᴰ v new.spec.topology.vertices
        → vertex live.spec.topology v.name ≡ some old
        → v.kind ≢ reduce
        → old.partitions ≡ v.partitions
    pub images :
        has_backlog b ≡ true
        → (old v : Vertex) → Memᴰ v new.spec.topology.vertices
        → vertex live.spec.topology v.name ≡ some old
        → old.image ≡ v.image

  module _ (valid : IsValid new.spec.topology.vertices new.spec.topology.edges) where
    Unnoticed-of_quiet : (check (some live) new b).warnings ≡ [] → Unnoticed
    Unnoticed-of_quiet h =
        let d = diff live.spec.topology new.spec.topology in
        let ((parts, shape), images) = (check-warnings live new b).0 h in
        record {
          shape = shape;
          partitions = λ old v m o k. elim (Bool-cases (old.partitions == v.partitions)) [
            | inl p ↦ eq_of_beq old.partitions v.partitions p
            | inr p ↦
                let reduces =
                  (partition_warnings-nil new.spec.topology d.partitions_changed).0 parts
                    (v.name, old.partitions, v.partitions)
                    (((mem-diff_changes live.spec.topology new.spec.topology v.name).1
                        old.partitions v.partitions).1
                      (
                        old,
                        v,
                        (m, refl, o),
                        refl,
                        refl,
                        ne_of_beq old.partitions v.partitions p,
                      )) in
                absurd (
                  k (
                    eq_of_beq v.kind reduce
                      (sym (ap is_reduce (vertex_of_mem new.spec.topology valid m)) ∙ reduces)))
          ];
          images = λ q old v m o. elim (Bool-cases (old.image == v.image)) [
            | inl p ↦ eq_of_beq old.image v.image p
            | inr p ↦
                let listed =
                  (mem-diff_image live.spec.topology new.spec.topology v.name).1
                    (old, v, (m, refl, o), ne_of_beq old.image v.image p) in
                elim (subst (λ ns. Memᴰ v.name ns) (images q) listed) [ ]
          ];
        }

    quiet_of_Unnoticed : Unnoticed → (check (some live) new b).warnings ≡ []
    quiet_of_Unnoticed u =
        let d = diff live.spec.topology new.spec.topology in
        (check-warnings live new b).1 (
          (
            (partition_warnings-nil new.spec.topology d.partitions_changed).1 (λ (n, x, y) m.
                let (old, v, (vm, vn, vo), ex, ey, ne) =
                  ((mem-diff_changes live.spec.topology new.spec.topology n).1 x y).0 m in
                rw (← vn, vertex_of_mem new.spec.topology valid vm)
                  (elim (Bool-cases (v.kind == reduce)) [
                    | inl p ↦ p
                    | inr p ↦ absurd (
                        ne (
                          sym ex
                          ∙ u.partitions old v vm (rw vn vo) (ne_of_beq v.kind reduce p)
                          ∙ ey))
                  ])),
            u.shape,
          ),
          λ q. no_members d.image_changed (λ n m.
              let (old, v, (vm, vn, vo), ne) =
                (mem-diff_image live.spec.topology new.spec.topology n).0 m in
              ne (u.images q old v vm (rw vn vo))),
        )

-- Against a live pipeline, `check` warns about nothing in a manifest whose topology is well formed
-- exactly if the shape stays, a vertex that stays keeps its partitions unless it is a reduce vertex,
-- and, where there is a backlog, a vertex that stays keeps its image.
pub quiet_iff :
    {F : Type 0} (live new : Pipeline F) (b : Option ℤ)
    → IsValid new.spec.topology.vertices new.spec.topology.edges
    → ((check (some live) new b).warnings ≡ []) ↔ Unnoticed live new b
quiet_iff live new b valid =
    (Unnoticed-of_quiet live new b valid, quiet_of_Unnoticed live new b valid)
