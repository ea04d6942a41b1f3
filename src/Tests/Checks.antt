-- ===== src/Tests/Checks.antt =====
-- `check` (crates/nfctl-core/src/service/apply.rs) on two versions of a small pipeline.
use nfctl.Common.{ℕ, true, List, [], ◌∷◌, none, some, ok, ◌≡◌, ◌↔◌, refl, find, contains}
use nfctl.Common.Int.{pos}
use nfctl.Model.Topology.{
  VertexKind, source, sink, Vertex, Topology, kind_of, check_vertices, check_ends_of, check_edges,
  new,
}
use nfctl.Model.Topology.Valid.{IsValid, new_iff}
use nfctl.Model.Pipeline.{Pipeline, PipelinePhase}
use nfctl.Service.Apply.{check, report_ok}
use nfctl.Service.Apply.Laws.{KeepsImmutable, check_ok_iff}
use nfctl.Service.Apply.Quiet.{Unnoticed, quiet_iff}
use nfctl.Tests.Shapes.{v, linear_edges}
use nfctl.Tests.Services.{sample_pipeline}

-- `cat` with a new image and two partitions.
abbrev retagged_vertices : List Vertex
retagged_vertices =
    v "in" source 1
    ∷ record (v "cat" VertexKind.map 2) { image = some "cat:2" }
    ∷ v "out" sink 1
    ∷ []

abbrev retagged : Topology
retagged = record { vertices = retagged_vertices; edges = linear_edges }

new-retagged : new retagged_vertices linear_edges ≡ ok retagged
unfolding new check_vertices check_edges check_ends_of kind_of find contains
new-retagged = refl

retagged-IsValid : IsValid retagged_vertices linear_edges
retagged-IsValid = ((new_iff retagged_vertices linear_edges retagged).0 new-retagged).0

abbrev before : Pipeline ℕ
before = sample_pipeline PipelinePhase.running

abbrev after : Pipeline ℕ
after = record before { spec = record before.spec { topology = retagged } }

check_ok_iff_example :
    (report_ok (check (some before) after none) ≡ true) ↔ KeepsImmutable before after
check_ok_iff_example = check_ok_iff before after none retagged-IsValid

quiet_iff_example :
    ((check (some before) after (some (pos 5))).warnings ≡ [])
    ↔ Unnoticed before after (some (pos 5))
quiet_iff_example = quiet_iff before after (some (pos 5)) retagged-IsValid
