-- ===== src/Lib.antt =====
-- A model of nfctl, the command line and terminal client for Numaflow pipelines, and what holds of
-- it. The program is a workspace of crates. `nfctl-core` has the domain (crates/nfctl-core/src/model),
-- the ports to the two things outside, Kubernetes and the daemons of pipelines (ports.rs), the
-- services that the interfaces share (service/), and a cluster in memory that implements the ports
-- (fake/). The other crates adapt: `nfctl-k8s` and `nfctl-daemon` implement the ports, `nfctl-graph`
-- draws topologies, `nfctl-cli` and `nfctl-tui` are the interfaces. The model covers `nfctl-core`,
-- the wire shapes and the port of `nfctl-k8s`, the client of `nfctl-daemon`, and
-- `nfctl-graph` but for its calls of a rendering library.
--
-- Common: equality by instances, lists, results, sorting, the order of texts, arrays and `i64` over native numbers.
-- Model: crates/nfctl-core/src/model, a file for each of the source's.
--   Ids: names and their grammar (`check_dns_label`, the `name_type!` types).
--   Topology: `Topology::new`, `vertex`, `count`; Topology/Diff: `diff` and `shape_changed`;
--     Topology/Ranks: `depth` and `ranks`, the layers that a topology is drawn in.
--   Runtime, Pipeline, MonoVertex, Workload, Pods, Isb, Time: records, phases, keys and selectors.
-- Error: crates/nfctl-core/src/error.rs.
-- Ports: ports.rs. `ClusterPort` is a record of calls that take the state of the cluster and give it
--   back with their result; `DaemonPort` is what a daemon answers.
-- Service: crates/nfctl-core/src/service.
--   Apply: `check`, what a new manifest blocks and warns of against the live pipeline.
--   Status: `pipeline_view` and its parts, `monovertex_view`, pending counts, `drained`.
--   Lifecycle: `wait_for_phase`, `pause`, `resume`, `recycle`, `rolling_restart`.
--   Logs: `select_containers`, the supervisor of the tails (`on_event`, `stop_pod`, `spawn`, the joins
--     of `run`) as steps on its state, and Logs/Task the loop of one tail (`TailTask::run`);
--     Logs/Snapshot: `snapshot` and the checks of `tail`.
--   Pipelines: the lists of `PipelineService`.
-- Fake: crates/nfctl-core/src/fake, the state of `FakeCluster`, its calls as an instance of
--   `ClusterPort` (Fake/Port), its daemons (Fake/Daemons), and how both are filled, from a fixture too
--   (Fake/Start).
-- K8s: crates/nfctl-k8s/src/dto. Dto has the wire shapes, Pipeline, MonoVertex, Isb and Pods the
--   conversions `into_pipeline`, `into_monovertex`, `into_isb` and `into_pod_ref`. Cluster is
--   crates/nfctl-k8s/src/cluster.rs, the calls of the port over a record of requests to the API, and
--   `KubeCluster` as an instance of `ClusterPort` (Cluster/Calls/Port), on which the services run.
-- Daemon: crates/nfctl-daemon/src. Dto: the answers and their conversion. Client: the loop of retries
--   of `get_json`. Ends: `ends_for`. Calls: the calls of the port and the memory of metrics.
-- Graph: crates/nfctl-graph/src. Shards: `shard_split` and `norm_tags`. View: view.rs, the graph that
--   is drawn; View/Build: `ViewGraph::build` and `node_of`, View/Collapse: `ViewGraph::collapsed`; the
--   other files of View have the proofs on its nodes and its edges. Scan: the functions on strings of
--   the standard library. Mermaid: the writers mermaid.rs and dot.rs. Import: the reader
--   mermaid_in.rs, Import/Build its `build`; Import/RoundTrip reads what the writer writes, by the
--   lemmas on names, lines and links in the files beside it. The colours of text, and the drawing that a
--   library does (ascii.rs, `to_graph`), are left out.
-- Tests: the definitions and the theorems on small inputs.
--
-- Names are the strings that their constructors let through. Floats are a parameter `F`. A text that
-- the code formats for a reader is a constructor with the values in it. A hash map is the list of its
-- entries, in no order that a result depends on, or a function with a default.
--
-- Loops. `depth` walks with fuel for the number of vertices, which is enough because a vertex on the
-- path is not walked again; the loop of `ranks` has fuel for the number of vertices times the
-- greatest depth, because each round but the last raises a rank and none passes that depth. A wait
-- with a limit has, in place of time, the number of calls that come back before the limit, and any
-- number is allowed. A stream is the list of what it yields. The supervisor may take its steps in any order
-- that the code can, and the join of a task can come after other events. `get_json` recurs on the
-- retries that are left. A number is written with at most ten digits, enough for a `u32`.
--
-- Not modelled: serialization, the text of errors and warnings, tracing, the channels between tasks
-- and their back pressure; the calls of the Kubernetes and HTTP libraries (client.rs of `nfctl-k8s`,
-- the port-forwards, sockets and TLS of `nfctl-daemon`), of the layout library (ascii.rs) and of the
-- terminal library; the sample values for tests at the end of fake/mod.rs. The crates `nfctl-cli` and
-- `nfctl-tui` are left out as a whole: what they decide, maps of arguments, completions, tables and
-- the state of screens, stands between calls of those libraries, and the development is as large as
-- it is meant to be.
pub mod Common
pub mod Error
pub mod Model
pub mod K8s
pub mod Daemon
pub mod Graph
pub mod Ports
pub mod Fake
pub mod Service
mod Tests
