-- ===== src/Service/Apply.antt =====
-- crates/nfctl-core/src/service/apply.rs. A message is a constructor with the values that the code
-- formats into its text.
pub mod Laws
pub mod Warnings
pub mod Quiet
use nfctl.Common.{
  ℕ, String, Bool, true, false, not, ◌&&◌, List, [], ◌∷◌, ◌++◌, Option, none, some, PartialEq, ◌==◌,
  string_eq, option_eq, if◌then◌else◌, is_empty, length, eqb,
}
use nfctl.Common.Int.{ℤ, pos, negsuc}
use nfctl.Model.Ids.{IsbName, VertexName}
use nfctl.Model.Topology.{VertexKind, reduce, vertex_kind_eq, Vertex, Topology, vertex}
use nfctl.Model.Topology.Diff.{TopologyDiff, push, diff, shape_changed}
use nfctl.Model.Pipeline.{Pipeline}

pub data Block : Type 0 where
  isb_changed : (from to : IsbName) → Block
  instance_changed : Block
  kind_changed : (v : VertexName) (from to : VertexKind) → Block
  reduce_partitions_changed : (v : VertexName) (from to : ℕ) → Block

pub data Warning : Type 0 where
  partitions_changed : (v : VertexName) (from to : ℕ) → Warning
  topology_changes :
      (added_vertices removed_vertices added_edges removed_edges : ℕ) (backlog : Option ℤ) → Warning
  image_changes : (vertices : List VertexName) (backlog : ℤ) → Warning

pub record ApplyReport : Type 0 where
  pub blocks : List Block
  pub warnings : List Warning
  pub diff : Option TopologyDiff

abbrev pub no_report : ApplyReport
no_report = record { blocks = []; warnings = []; diff = none }

abbrev pub block : ApplyReport → Block → ApplyReport
block r b = record r { blocks = push r.blocks b }

abbrev pub warn : ApplyReport → Warning → ApplyReport
warn r w = record r { warnings = push r.warnings w }

-- `ApplyReport::ok`
pub report_ok : ApplyReport → Bool
report_ok r = is_empty r.blocks

-- `backlog.is_some_and(|n| n > 0)`
abbrev pub has_backlog : Option ℤ → Bool
has_backlog none = false
has_backlog (some (pos n)) = not (eqb n 0)
has_backlog (some (negsuc _)) = false

-- `backlog.unwrap_or(0)`
abbrev pub backlog_or_zero : Option ℤ → ℤ
backlog_or_zero none = pos 0
backlog_or_zero (some n) = n

module _ {F : Type 0} (live new : Pipeline F) where
  pub note_isb : ApplyReport → ApplyReport
  note_isb r =
      if live.spec.isb == new.spec.isb then r else block r (isb_changed live.spec.isb new.spec.isb)

  pub note_instance : ApplyReport → ApplyReport
  note_instance r =
      if live.meta.instance_ == new.meta.instance_ then r else block r instance_changed

-- The loop over `kind_changed`.
pub note_kinds : List (VertexName × VertexKind × VertexKind) → ApplyReport → ApplyReport
note_kinds [] r = r
note_kinds ((v, from, to) ∷ cs) r = note_kinds cs (block r (kind_changed v from to))

-- `new.spec.topology.vertex(v).is_some_and(|x| x.kind == Reduce)`
abbrev pub is_reduce : Option Vertex → Bool
is_reduce none = false
is_reduce (some x) = x.kind == reduce

-- The loop over `partitions_changed`.
unfoldable pub note_partitions : Topology → List (VertexName × ℕ × ℕ) → ApplyReport → ApplyReport
note_partitions t [] r = r
note_partitions t ((v, from, to) ∷ cs) r = note_partitions t cs (
    if is_reduce (vertex t v)
    then block r (reduce_partitions_changed v from to)
    else warn r (partitions_changed v from to))

pub note_shape : TopologyDiff → Option ℤ → ApplyReport → ApplyReport
note_shape d backlog r =
    if shape_changed d
    then warn r (
        topology_changes (length d.added_vertices) (length d.removed_vertices)
          (length d.added_edges) (length d.removed_edges) backlog)
    else r

pub note_images : TopologyDiff → Option ℤ → ApplyReport → ApplyReport
note_images d backlog r =
    if not (is_empty d.image_changed) && has_backlog backlog
    then warn r (image_changes d.image_changed (backlog_or_zero backlog))
    else r

-- `check`
pub check : {F : Type 0} → Option (Pipeline F) → Pipeline F → Option ℤ → ApplyReport
check none new backlog = no_report
check (some live) new backlog =
    let d = diff live.spec.topology new.spec.topology in
    let r = note_images d backlog (
      note_shape d backlog (
        note_partitions new.spec.topology d.partitions_changed
          (note_kinds d.kind_changed (note_instance live new (note_isb live new no_report))))) in
    record r { diff = some d }
