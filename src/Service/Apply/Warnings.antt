-- ===== src/Service/Apply/Warnings.antt =====
-- The warnings that `check` (crates/nfctl-core/src/service/apply.rs) collects, loop by loop.
use nfctl.Common.{
  ℕ, true, false, List, [], ◌∷◌, ◌++◌, Option, some, string_eq, option_eq, nat_eq, if◌then◌else◌,
  is_empty, ◌≡◌, ◌↔◌, inl, inr, refl, sym, ap, ◌∙◌, arith, Memᴰ, Bool-cases,
}
use mathlib.Core.List.Memᴰ
use mathlib.Core.List.{append-nil, append_assoc}
use nfctl.Common.Int.{ℤ}
use nfctl.Model.Ids.{VertexName}
use nfctl.Model.Topology.{VertexKind, vertex_kind_eq, Topology, vertex}
use nfctl.Model.Topology.Diff.{TopologyDiff, diff, shape_changed}
use nfctl.Model.Topology.Diff.Laws.{SameShape, shape_changed_iff}
use nfctl.Model.Pipeline.{Pipeline}
use nfctl.Service.Apply.Laws.{empty_iff}
use nfctl.Service.Apply.{
  Warning, partitions_changed, has_backlog, ApplyReport, no_report, note_isb, note_instance,
  note_kinds, is_reduce, note_partitions, note_shape, note_images, check,
}

abbrev partition_warning : Topology → VertexName × ℕ × ℕ → List Warning
partition_warning t (v, from, to) =
    if is_reduce (vertex t v) then [] else partitions_changed v from to ∷ []

pub partition_warnings : Topology → List (VertexName × ℕ × ℕ) → List Warning
partition_warnings t [] = []
partition_warnings t (c ∷ cs) = partition_warning t c ++ partition_warnings t cs

note_partitions-warnings :
    (t : Topology) (cs : List (VertexName × ℕ × ℕ)) (r : ApplyReport)
    → (note_partitions t cs r).warnings ≡ r.warnings ++ partition_warnings t cs
unfolding note_partitions partition_warnings
note_partitions-warnings t [] r = sym (append-nil r.warnings)
note_partitions-warnings t ((v, from, to) ∷ cs) r = elim (Bool-cases (is_reduce (vertex t v))) [
  | inl p ↦ rw (p, note_partitions) (note_partitions-warnings t cs _)
  | inr p ↦
      rw (p, note_partitions)
        (note_partitions-warnings t cs _
          ∙ append_assoc r.warnings (partitions_changed v from to ∷ []) (partition_warnings t cs))
]

note_kinds-warnings :
    (cs : List (VertexName × VertexKind × VertexKind)) (r : ApplyReport)
    → (note_kinds cs r).warnings ≡ r.warnings
unfolding note_kinds
note_kinds-warnings [] r = refl
note_kinds-warnings ((v, from, to) ∷ cs) r = note_kinds-warnings cs _

first_warnings-nil :
    {F : Type 0} (live new : Pipeline F)
    → (note_instance live new (note_isb live new no_report)).warnings ≡ []
unfolding note_instance note_isb
first_warnings-nil live new = ground arith

push-ne_nil {ℓ} : {A : Type ℓ} (xs : List A) (x : A) → ¬ ((xs ++ x ∷ []) ≡ [])
push-ne_nil [] x h = cc
push-ne_nil (y ∷ xs) x h = cc

note_shape-nil :
    (d : TopologyDiff) (b : Option ℤ) (r : ApplyReport)
    → ((note_shape d b r).warnings ≡ []) ↔ ((r.warnings ≡ []) × (shape_changed d ≡ false))
unfolding note_shape
note_shape-nil d b r = elim (Bool-cases (shape_changed d)) [
  | inl p ↦ rw p (λ h. absurd (push-ne_nil r.warnings _ h), λ h. absurd (cc (h.1)))
  | inr p ↦ rw p (λ h. (h, refl), λ h. h.0)
]

-- Nothing is warned about the images.
abbrev pub ImagesQuiet : List VertexName → Option ℤ → Type 0
ImagesQuiet names b = (has_backlog b ≡ true) → names ≡ []

note_images-nil :
    (d : TopologyDiff) (b : Option ℤ) (r : ApplyReport)
    → ((note_images d b r).warnings ≡ []) ↔ ((r.warnings ≡ []) × ImagesQuiet d.image_changed b)
unfolding note_images
note_images-nil d b r = elim (Bool-cases (is_empty d.image_changed)) [
  | inl p ↦ rw p (λ h. (h, λ _. (empty_iff d.image_changed).0 p), λ h. h.0)
  | inr p ↦ elim (Bool-cases (has_backlog b)) [
    | inl q ↦
        rw (p, q)
          (
            λ h. absurd (push-ne_nil r.warnings _ h),
            λ (h, quiet). absurd (cc (p, (empty_iff d.image_changed).1 (quiet refl))),
          )
    | inr q ↦ rw (p, q) (λ h. (h, λ e. absurd (cc e)), λ h. h.0)
  ]
]

pub partition_warnings-nil :
    (t : Topology) (cs : List (VertexName × ℕ × ℕ))
    → (partition_warnings t cs ≡ [])
      ↔ ((c : VertexName × ℕ × ℕ) → Memᴰ c cs → is_reduce (vertex t c.0) ≡ true)
unfolding partition_warnings
partition_warnings-nil t [] = (λ _ c m. elim m [ ], λ _. refl)
partition_warnings-nil t ((v, from, to) ∷ cs) = elim (Bool-cases (is_reduce (vertex t v))) [
  | inr p ↦ rw (p, partition_warnings) (λ h. cc, λ h. cc (p, h (v, from, to) (Memᴰ.head refl)))
  | inl p ↦
      rw (p, partition_warnings)
        (
          λ h c m. elim (Memᴰ.cases_cons m) [
            | inl e ↦ rw (ap (λ (x : VertexName × ℕ × ℕ). x.0) e) p
            | inr r ↦ (partition_warnings-nil t cs).0 h c r
          ],
          λ h. (partition_warnings-nil t cs).1 (λ c m. h c (Memᴰ.tail m)),
        )
]

module _ {F : Type 0} (live new : Pipeline F) (b : Option ℤ) where
  pub check-warnings : ((check (some live) new b).warnings ≡ []) ↔ (
      ((partition_warnings new.spec.topology
            (diff live.spec.topology new.spec.topology).partitions_changed
          ≡ [])
        × SameShape live.spec.topology new.spec.topology)
      × ImagesQuiet (diff live.spec.topology new.spec.topology).image_changed b)
  unfolding check
  check-warnings =
      let d = diff live.spec.topology new.spec.topology in
      let parts =
        note_partitions new.spec.topology d.partitions_changed
          (note_kinds d.kind_changed (note_instance live new (note_isb live new no_report))) in
      let before : parts.warnings ≡ partition_warnings new.spec.topology d.partitions_changed =
        note_partitions-warnings new.spec.topology d.partitions_changed _
        ∙ ap (λ ws. ws ++ partition_warnings new.spec.topology d.partitions_changed)
            (note_kinds-warnings d.kind_changed _ ∙ first_warnings-nil live new) in
      let same = shape_changed_iff live.spec.topology new.spec.topology in
      (
        λ h.
            let (rest, images) = (note_images-nil d b (note_shape d b parts)).0 h in
            let (first, shape) = (note_shape-nil d b parts).0 rest in
            ((sym before ∙ first, same.0 shape), images),
        λ ((first, shape), images).
            (note_images-nil d b (note_shape d b parts)).1
              ((note_shape-nil d b parts).1 (before ∙ first, same.1 shape), images),
      )
