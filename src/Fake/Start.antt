-- ===== src/Fake/Start.antt =====
-- How the fakes are made and filled (crates/nfctl-core/src/fake/mod.rs), also from a fixture file
-- (fixture.rs), which is what it was parsed to.
use nfctl.Common.{List, [], ◌++◌, map, Option, none, some}
use nfctl.Model.Ids.{PipelineName}
use nfctl.Model.Runtime.{BufferInfo, VertexMetrics, EdgeWatermark, PipelineHealth}
use nfctl.Model.Pipeline.{Pipeline}
use nfctl.Model.MonoVertex.{MonoVertex}
use nfctl.Model.Isb.{IsbService}
use nfctl.Fake.{State, PodFixture}
use nfctl.Fake.Daemons.{FakeDaemon, FakeDaemons}

pub record DaemonFixture (F : Type 0) : Type 0 where
  pub health : Option PipelineHealth
  pub buffers : List (BufferInfo F)
  pub metrics : List (VertexMetrics F)
  pub watermarks : List EdgeWatermark

pub record Fixture (F : Type 0) : Type 0 where
  pub pipelines : List (Pipeline F)
  pub monovertices : List MonoVertex
  pub isbs : List IsbService
  pub daemons : List (PipelineName × DaemonFixture F)
  pub pods : List PodFixture

module _ {F : Type 0} where
  -- `FakeCluster::default`
  abbrev empty : State F
  empty = record {
    pipelines = [];
    monovertices = [];
    isbs = [];
    manifests = [];
    scaled = [];
    pods = [];
    pod_watchers = [];
    scripts = [];
    tail_calls = [];
    hung = 0;
    fixture = none;
  }

  unfoldable pub with_pipelines : List (Pipeline F) → State F
  with_pipelines ps = record empty { pipelines = ps }

  -- `FakeCluster::from_fixture`; of the fixture that it keeps, only the pods are read later.
  unfoldable pub cluster_of : Fixture F → State F
  cluster_of f = record empty {
    pipelines = f.pipelines;
    monovertices = f.monovertices;
    isbs = f.isbs;
    pods = map (λ p. p.pod) f.pods;
    fixture = some f.pods;
  }

  unfoldable pub add_pipelines : List (Pipeline F) → State F → State F
  add_pipelines ps s = record s { pipelines = s.pipelines ++ ps }

  unfoldable pub add_monovertices : List MonoVertex → State F → State F
  add_monovertices ms s = record s { monovertices = s.monovertices ++ ms }

  unfoldable pub add_isbs : List IsbService → State F → State F
  add_isbs is s = record s { isbs = s.isbs ++ is }

  abbrev no_data : FakeDaemon F
  no_data = record { buffers = []; metrics = []; watermarks = []; health = none }

  -- `FakeDaemons::one`
  unfoldable pub one_daemon : FakeDaemon F → FakeDaemons F
  one_daemon d = record { default = d; by_name = [] }

  abbrev daemon_of : DaemonFixture F → FakeDaemon F
  daemon_of d = record {
    buffers = d.buffers;
    metrics = d.metrics;
    watermarks = d.watermarks;
    health = d.health;
  }

  -- `FakeDaemons::from_fixture`
  unfoldable pub daemons_of : Fixture F → FakeDaemons F
  daemons_of f = record { default = no_data; by_name = map (λ e. (e.0, daemon_of e.1)) f.daemons }
