-- ===== src/Ports.antt =====
-- crates/nfctl-core/src/ports.rs: the two things that vary between environments. `W` is the state
-- behind the cluster, which each call takes and gives back; a stream that a watch returns is the
-- list of what it will yield. The daemon is what it answers while a view of it is made.
use nfctl.Common.{ℕ, String, Bool, List, Option, Result, ok, err, ◌≡◌, refl, ap}
use nfctl.Error.{Error}
use nfctl.Model.Ids.{Namespace, PipelineKey, VertexName, PodName, ContainerName, BufferName}
use nfctl.Model.Topology.{Topology}
use nfctl.Model.Runtime.{BufferInfo, VertexMetrics, EdgeWatermark, PipelineHealth}
use nfctl.Model.Pipeline.{Pipeline, DesiredPhase, ResumeStrategy}
use nfctl.Model.MonoVertex.{MonoVertex, MonoVertexKey}
use nfctl.Model.Isb.{IsbService}
use nfctl.Model.Pods.{Labels, PodRef, PodEvent, LogOptions, LogLine}

abbrev pub Io : Type 0 → Type 0 → Type 0
Io W A = W → Result Error A × W

module _ {W A : Type 0} where
  abbrev pub give : A → Io W A
  give a w = (ok a, w)

  abbrev pub fail : Error → Io W A
  fail e w = (err e, w)

  -- A result that needs no call.
  abbrev pub lift : Result Error A → Io W A
  lift r w = (r, w)

-- A chain goes on after a result, and ends at an error.
abbrev pub go_on : {W A B : Type 0} → (A → Io W B) → Result Error A × W → Result Error B × W
go_on f (ok a, s) = f a s
go_on f (err e, s) = (err e, s)

infixl 5 ◌>>=◌
unfoldable pub ◌>>=◌ : {W A B : Type 0} → Io W A → (A → Io W B) → Io W B
(m >>= f) w = go_on f (m w)

pub bind_ok :
    {W A B : Type 0} (m : Io W A) (f : A → Io W B) {w s : W} {a : A}
    → m w ≡ (ok a, s)
    → (m >>= f) w ≡ f a s
unfolding ◌>>=◌
bind_ok m f h = ap (go_on f) h

pub ok_of_io :
    {W A B : Type 0} (m : Io W A) (f : A → Io W B) {w s : W} {b : B}
    → (m >>= f) w ≡ (ok b, s)
    → (a : A) × (t : W) × (m w ≡ (ok a, t)) × (f a t ≡ (ok b, s))
unfolding ◌>>=◌
ok_of_io {W} {A} {B} m f {w} {s} {b} h = reached (m w) refl h
  where
    reached :
        (x : Result Error A × W)
        → m w ≡ x
        → go_on f x ≡ (ok b, s)
        → (a : A) × (t : W) × (m w ≡ (ok a, t)) × (f a t ≡ (ok b, s))
    reached (ok a, t) p q = (a, t, p, q)
    reached (err e, t) p q = cc

-- `ClusterPort`: the calls that the services make.
pub record ClusterPort (W F : Type 0) : Type 0 where
  pub list_pipelines : Option Namespace → Io W (List (Pipeline F))
  pub get_pipeline : PipelineKey → Io W (Pipeline F)
  pub watch_pipeline : PipelineKey → Io W (List (Result Error (Pipeline F)))
  pub set_lifecycle : PipelineKey → DesiredPhase → Option ResumeStrategy → Bool → Io W (Unit {0})
  pub parse_manifest : String → Namespace → Io W (Pipeline F)
  pub apply_manifest : String → Namespace → Bool → Io W (Pipeline F)
  pub scale_vertex : PipelineKey → VertexName → ℕ → Bool → Io W (Unit {0})
  pub list_isb : Option Namespace → Io W (List IsbService)
  pub list_monovertices : Option Namespace → Io W (List MonoVertex)
  pub get_monovertex : MonoVertexKey → Io W MonoVertex
  pub set_monovertex_lifecycle : MonoVertexKey → DesiredPhase → Bool → Io W (Unit {0})
  pub list_pods : Namespace → Labels → Io W (List PodRef)
  pub watch_pods : Namespace → Labels → Io W (List (Result Error PodEvent))
  pub delete_pods : Namespace → Labels → Bool → Io W (List PodName)
  pub delete_pod : Namespace → PodName → Bool → Io W (Unit {0})
  pub tail_logs :
      Namespace → PodName → ContainerName → LogOptions → Io W (List (Result Error LogLine))

-- `DaemonPort`: the calls that the services make.
pub record DaemonPort (F : Type 0) : Type 0 where
  pub buffers : Result Error (List (BufferInfo F))
  pub buffer : BufferName → Result Error (BufferInfo F)
  pub vertex_metrics : Option VertexName → Result Error (List (VertexMetrics F))
  pub watermarks : Result Error (List EdgeWatermark)
  pub health : Result Error PipelineHealth

-- `DaemonConnector`
pub record DaemonConnector (F : Type 0) : Type 0 where
  pub connect : PipelineKey → Option Topology → Result Error (DaemonPort F)
  pub connect_monovertex : MonoVertexKey → Result Error (DaemonPort F)
