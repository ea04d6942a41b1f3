-- ===== src/Service/Apply/Laws.antt =====
-- What `check` (crates/nfctl-core/src/service/apply.rs) refuses and warns about.
use nfctl.Common.{
  ℕ, true, false, List, [], ◌∷◌, ◌++◌, Option, some, ◌==◌, string_eq, option_eq, option_same_law,
  nat_eq, if◌then◌else◌, is_empty, ◌≡◌, ◌↔◌, inl, inr, refl, sym, ap, ◌∙◌, arith, Memᴰ, Bool-cases,
  eq_of_beq, beq_of_eq, ne_of_beq,
}
use mathlib.Core.List.Memᴰ
use mathlib.Core.List.{append-nil, append_assoc}
use nfctl.Common.Int.{ℤ}
use nfctl.Model.Ids.{VertexName}
use nfctl.Model.Topology.{VertexKind, reduce, vertex_kind_eq, Vertex, Topology, vertex}
use nfctl.Model.Topology.Valid.{IsValid, vertex_of_mem}
use nfctl.Model.Topology.Diff.{TopologyDiff, diff}
use nfctl.Model.Topology.Diff.Changes.{mem-diff_changes}
use nfctl.Model.Pipeline.{Pipeline}
use nfctl.Service.Apply.{
  Block, kind_changed, reduce_partitions_changed, ApplyReport, no_report, report_ok, note_isb,
  note_instance, note_kinds, is_reduce, note_partitions, note_shape, note_images, check,
}

kind_blocks : List (VertexName × VertexKind × VertexKind) → List Block
kind_blocks [] = []
kind_blocks ((v, from, to) ∷ cs) = kind_changed v from to ∷ kind_blocks cs

-- What one change of a partition count adds to the two lists.
abbrev partition_block : Topology → VertexName × ℕ × ℕ → List Block
partition_block t (v, from, to) =
    if is_reduce (vertex t v) then reduce_partitions_changed v from to ∷ [] else []

partition_blocks : Topology → List (VertexName × ℕ × ℕ) → List Block
partition_blocks t [] = []
partition_blocks t (c ∷ cs) = partition_block t c ++ partition_blocks t cs

note_kinds-eq :
    (cs : List (VertexName × VertexKind × VertexKind)) (r : ApplyReport)
    → note_kinds cs r ≡ record r { blocks = r.blocks ++ kind_blocks cs }
unfolding note_kinds kind_blocks
note_kinds-eq [] r = simp append-nil
note_kinds-eq ((v, from, to) ∷ cs) r = note_kinds-eq cs _ ∙ simp append_assoc

note_partitions-blocks :
    (t : Topology) (cs : List (VertexName × ℕ × ℕ)) (r : ApplyReport)
    → (note_partitions t cs r).blocks ≡ r.blocks ++ partition_blocks t cs
unfolding note_partitions partition_blocks
note_partitions-blocks t [] r = sym (append-nil r.blocks)
note_partitions-blocks t ((v, from, to) ∷ cs) r = elim (Bool-cases (is_reduce (vertex t v))) [
  | inl p ↦
      rw (p, note_partitions)
        (note_partitions-blocks t cs _
          ∙ append_assoc r.blocks (reduce_partitions_changed v from to ∷ [])
              (partition_blocks t cs))
  | inr p ↦ rw (p, note_partitions) (note_partitions-blocks t cs _)
]

note_shape-blocks :
    (d : TopologyDiff) (b : Option ℤ) (r : ApplyReport) → (note_shape d b r).blocks ≡ r.blocks
unfolding note_shape
note_shape-blocks d b r = ground arith

note_images-blocks :
    (d : TopologyDiff) (b : Option ℤ) (r : ApplyReport) → (note_images d b r).blocks ≡ r.blocks
unfolding note_images
note_images-blocks d b r = ground arith

module _ {F : Type 0} (live new : Pipeline F) where
  first_blocks : List Block
  first_blocks = (note_instance live new (note_isb live new no_report)).blocks

  first_blocks-nil :
      (first_blocks ≡ [])
      ↔ ((live.spec.isb ≡ new.spec.isb) × (live.meta.instance_ ≡ new.meta.instance_))
  unfolding first_blocks note_instance note_isb
  first_blocks-nil = ground (
    arith,
    string_eq.eq_law live.spec.isb new.spec.isb,
    option_same_law live.meta.instance_ new.meta.instance_,
  )

  check-blocks :
      (b : Option ℤ)
      → (check (some live) new b).blocks
        ≡ (first_blocks ++ kind_blocks (diff live.spec.topology new.spec.topology).kind_changed)
          ++ partition_blocks new.spec.topology
              (diff live.spec.topology new.spec.topology).partitions_changed
  unfolding check first_blocks
  check-blocks b =
      let d = diff live.spec.topology new.spec.topology in
      note_images-blocks d b _
      ∙ note_shape-blocks d b _
      ∙ note_partitions-blocks new.spec.topology d.partitions_changed _
      ∙ ap
          (λ (r : ApplyReport). r.blocks ++ partition_blocks new.spec.topology d.partitions_changed)
          (note_kinds-eq d.kind_changed (note_instance live new (note_isb live new no_report)))

append-eq_nil {ℓ} : {A : Type ℓ} (xs ys : List A) → ((xs ++ ys) ≡ []) ↔ ((xs ≡ []) × (ys ≡ []))
append-eq_nil [] ys = (λ h. (refl, h), λ h. h.1)
append-eq_nil (x ∷ xs) ys = (λ h. cc, λ h. cc)

kind_blocks-nil :
    (cs : List (VertexName × VertexKind × VertexKind))
    → (kind_blocks cs ≡ []) ↔ ((c : VertexName × VertexKind × VertexKind) → ¬ Memᴰ c cs)
unfolding kind_blocks
kind_blocks-nil [] = (λ _ c m. elim m [ ], λ _. refl)
kind_blocks-nil ((v, from, to) ∷ cs) = (λ h. cc, λ h. absurd (h (v, from, to) (Memᴰ.head refl)))

partition_blocks-nil :
    (t : Topology) (cs : List (VertexName × ℕ × ℕ))
    → (partition_blocks t cs ≡ [])
      ↔ ((c : VertexName × ℕ × ℕ) → Memᴰ c cs → is_reduce (vertex t c.0) ≡ false)
unfolding partition_blocks
partition_blocks-nil t [] = (λ _ c m. elim m [ ], λ _. refl)
partition_blocks-nil t ((v, from, to) ∷ cs) = elim (Bool-cases (is_reduce (vertex t v))) [
  | inl p ↦ rw (p, partition_blocks) (λ h. cc, λ h. cc (p, h (v, from, to) (Memᴰ.head refl)))
  | inr p ↦
      rw (p, partition_blocks)
        (
          λ h c m. elim (Memᴰ.cases_cons m) [
            | inl e ↦ rw (ap (λ (x : VertexName × ℕ × ℕ). x.0) e) p
            | inr r ↦ (partition_blocks-nil t cs).0 h c r
          ],
          λ h. (partition_blocks-nil t cs).1 (λ c m. h c (Memᴰ.tail m)),
        )
]

-- Nothing that the operator treats as immutable changes: the buffer service, the instance
-- annotation, the kind of a vertex that stays, and the partitions of a reduce vertex that stays.
pub record KeepsImmutable {F : Type 0} (live new : Pipeline F) : Type 0 where
  pub isb : live.spec.isb ≡ new.spec.isb
  pub instance_ : live.meta.instance_ ≡ new.meta.instance_
  pub kinds :
      (old v : Vertex)
      → Memᴰ v new.spec.topology.vertices
      → vertex live.spec.topology v.name ≡ some old
      → old.kind ≡ v.kind
  pub partitions :
      (old v : Vertex)
      → Memᴰ v new.spec.topology.vertices
      → vertex live.spec.topology v.name ≡ some old
      → v.kind ≡ reduce
      → old.partitions ≡ v.partitions

module _ {F : Type 0} (live new : Pipeline F) (b : Option ℤ)
    (valid : IsValid new.spec.topology.vertices new.spec.topology.edges) where
  KeepsImmutable-of_ok : (check (some live) new b).blocks ≡ [] → KeepsImmutable live new
  KeepsImmutable-of_ok h =
      let d = diff live.spec.topology new.spec.topology in
      let (front, parts) =
        (append-eq_nil (first_blocks live new ++ kind_blocks d.kind_changed)
            (partition_blocks new.spec.topology d.partitions_changed)).0
          (sym (check-blocks live new b) ∙ h) in
      let (first, kinds) =
        (append-eq_nil (first_blocks live new) (kind_blocks d.kind_changed)).0 front in
      record {
        isb = ((first_blocks-nil live new).0 first).0;
        instance_ = ((first_blocks-nil live new).0 first).1;
        kinds = λ old v m o. elim (Bool-cases (old.kind == v.kind)) [
          | inl p ↦ eq_of_beq old.kind v.kind p
          | inr p ↦ absurd (
              (kind_blocks-nil d.kind_changed).0 kinds (v.name, old.kind, v.kind)
                (((mem-diff_changes live.spec.topology new.spec.topology v.name).0 old.kind
                    v.kind).1
                  (old, v, (m, refl, o), refl, refl, ne_of_beq old.kind v.kind p)))
        ];
        partitions = λ old v m o k. elim (Bool-cases (old.partitions == v.partitions)) [
          | inl p ↦ eq_of_beq old.partitions v.partitions p
          | inr p ↦
              let quiet =
                (partition_blocks-nil new.spec.topology d.partitions_changed).0 parts
                  (v.name, old.partitions, v.partitions)
                  (((mem-diff_changes live.spec.topology new.spec.topology v.name).1 old.partitions
                      v.partitions).1
                    (old, v, (m, refl, o), refl, refl, ne_of_beq old.partitions v.partitions p)) in
              absurd (
                cc (
                  quiet,
                  ap is_reduce (vertex_of_mem new.spec.topology valid m),
                  beq_of_eq v.kind reduce k,
                ))
        ];
      }

  ok_of_KeepsImmutable : KeepsImmutable live new → (check (some live) new b).blocks ≡ []
  ok_of_KeepsImmutable k =
      let d = diff live.spec.topology new.spec.topology in
      check-blocks live new b
      ∙ (append-eq_nil (first_blocks live new ++ kind_blocks d.kind_changed)
            (partition_blocks new.spec.topology d.partitions_changed)).1
          (
            (append-eq_nil (first_blocks live new) (kind_blocks d.kind_changed)).1 (
              (first_blocks-nil live new).1 (k.isb, k.instance_),
              (kind_blocks-nil d.kind_changed).1 (λ (n, x, y) m.
                  let (old, v, (vm, vn, vo), ex, ey, ne) =
                    ((mem-diff_changes live.spec.topology new.spec.topology n).0 x y).0 m in
                  ne (sym ex ∙ k.kinds old v vm (rw vn vo) ∙ ey)),
            ),
            (partition_blocks-nil new.spec.topology d.partitions_changed).1 (λ (n, x, y) m.
                let (old, v, (vm, vn, vo), ex, ey, ne) =
                  ((mem-diff_changes live.spec.topology new.spec.topology n).1 x y).0 m in
                rw (← vn, vertex_of_mem new.spec.topology valid vm)
                  (elim (Bool-cases (v.kind == reduce)) [
                    | inl p ↦ absurd (
                        ne (
                          sym ex
                          ∙ k.partitions old v vm (rw vn vo) (eq_of_beq v.kind reduce p)
                          ∙ ey))
                    | inr p ↦ p
                  ])),
          )

pub empty_iff {ℓ} : {A : Type ℓ} (xs : List A) → (is_empty xs ≡ true) ↔ (xs ≡ [])
empty_iff [] = (λ _. refl, λ _. refl)
empty_iff (x ∷ xs) = (λ h. cc, λ h. cc)

-- Against a live pipeline, `check` accepts a manifest whose topology is well formed exactly if it
-- changes nothing immutable, whatever the backlog.
pub check_ok_iff :
    {F : Type 0} (live new : Pipeline F) (b : Option ℤ)
    → IsValid new.spec.topology.vertices new.spec.topology.edges
    → (report_ok (check (some live) new b) ≡ true) ↔ KeepsImmutable live new
unfolding report_ok
check_ok_iff live new b valid = (
  λ h. KeepsImmutable-of_ok live new b valid ((empty_iff (check (some live) new b).blocks).0 h),
  λ k. (empty_iff (check (some live) new b).blocks).1 (ok_of_KeepsImmutable live new b valid k),
)
