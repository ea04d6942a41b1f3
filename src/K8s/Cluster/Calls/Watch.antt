-- ===== src/K8s/Cluster/Calls/Watch.antt =====
-- Waiting for a phase over the watch of crates/nfctl-k8s/src/cluster.rs: `wait_for_phase` of
-- crates/nfctl-core/src/service/lifecycle.rs on the events of the API.
use nfctl.Common.{
  ◌+◌, ◌≤◌, if◌then◌else◌, ltb, String, List, [], ◌∷◌, ◌++◌, map, Option, some, Result, ok, err,
  ◌≡◌, refl, ap, ◌∙◌, length,
}
use nfctl.Error.{Error, not_found, cluster, timeout}
use nfctl.Model.Ids.{PipelineKey, key_str}
use nfctl.Model.Pipeline.{Pipeline, PipelinePhase}
use nfctl.K8s.Object.{Formats, Invalid}
use nfctl.K8s.Pipeline.{into_pipeline}
use nfctl.K8s.Cluster.{
  Event, apply, init_apply, delete, init, init_done, PipelineObject, KubeApi, Documents,
  try_filter_map,
}
use nfctl.K8s.Cluster.Calls.{converted, found, watched, watch_pipeline}
use nfctl.K8s.Cluster.Calls.Port.{kube_cluster}
use nfctl.Service.Lifecycle.{Wait, wait_for_phase}
use nfctl.Service.Lifecycle.Phase.{Other, Decides, wait_for_phase_ends}

-- The events that bring an object.
pub data Brings {A : Type 0} : Event A → A → Type 0 where
  changed : {o : A} → Brings (apply o) o
  listed : {o : A} → Brings (init_apply o) o

module _ {A B : Type 0} (f : A → Result Error (Option B)) (rest : List (Result String A)) where
  try_filter_map-some :
      {a : A} {b : B}
      → f a ≡ ok (some b)
      → try_filter_map f (ok a ∷ rest) ≡ ok b ∷ try_filter_map f rest
  unfolding try_filter_map
  try_filter_map-some q = rw (q, try_filter_map) refl

  try_filter_map-err :
      {a : A} {e : Error}
      → f a ≡ err e
      → try_filter_map f (ok a ∷ rest) ≡ err e ∷ try_filter_map f rest
  unfolding try_filter_map
  try_filter_map-err q = rw (q, try_filter_map) refl

module _ {W F J : Type 0} (k : KubeApi W J) (d : Documents J) (formats : Formats F) where
  -- The pipelines that events bring, one after the other; the marks of a new list bring none.
  pub data Shows : List (Event (PipelineObject J)) → List (Pipeline F) → Type 0 where
    nothing : Shows [] []
    begins :
        {es : List (Event (PipelineObject J))} {ps : List (Pipeline F)}
        → Shows es ps
        → Shows (init ∷ es) ps
    complete :
        {es : List (Event (PipelineObject J))} {ps : List (Pipeline F)}
        → Shows es ps
        → Shows (init_done ∷ es) ps
    brings :
        {e : Event (PipelineObject J)} {o : PipelineObject J} {p : Pipeline F}
        {es : List (Event (PipelineObject J))} {ps : List (Pipeline F)}
        → Brings e o
        → into_pipeline formats o ≡ ok p
        → Shows es ps
        → Shows (e ∷ es) (p ∷ ps)

  -- What an item of the watch says of the wait, where it ends it.
  pub data Rules (key : PipelineKey) (phase : PipelinePhase)
      : Result String (Event (PipelineObject J)) → Result Error (Pipeline F) → Type 0 where
    lost : (text : String) → Rules key phase (err text) (err (cluster text))
    gone :
        (o : PipelineObject J)
        → Rules key phase (ok (delete o)) (err (not_found "pipeline" (key_str key)))
    unreadable :
        {e : Event (PipelineObject J)} {o : PipelineObject J} {i : Invalid}
        → Brings e o
        → into_pipeline formats o ≡ err i
        → Rules key phase (ok e) (err (Error.invalid i.kind i.name (d.reason i.reason)))
    reached :
        {e : Event (PipelineObject J)} {o : PipelineObject J} {p : Pipeline F}
        → Brings e o
        → into_pipeline formats o ≡ ok p
        → p.status.phase ≡ phase
        → Rules key phase (ok e) (ok p)

  abbrev yields :
      String → List (Result String (Event (PipelineObject J))) → List (Result Error (Pipeline F))
  yields name items = try_filter_map (watched k d formats name) items

  watched_brings :
      (name : String) {e : Event (PipelineObject J)} {o : PipelineObject J} {p : Pipeline F}
      → Brings e o
      → into_pipeline formats o ≡ ok p
      → watched k d formats name e ≡ ok (some p)
  watched_brings name changed q = ap (λ r. found k d formats (converted k d formats r)) q
  watched_brings name listed q = ap (λ r. found k d formats (converted k d formats r)) q

  watched_fails :
      (name : String) {e : Event (PipelineObject J)} {o : PipelineObject J} {i : Invalid}
      → Brings e o
      → into_pipeline formats o ≡ err i
      → watched k d formats name e ≡ err (Error.invalid i.kind i.name (d.reason i.reason))
  watched_fails name changed q = ap (λ r. found k d formats (converted k d formats r)) q
  watched_fails name listed q = ap (λ r. found k d formats (converted k d formats r)) q

  yields-Shows :
      (name : String) (es : List (Event (PipelineObject J))) (ps : List (Pipeline F))
      (rest : List (Result String (Event (PipelineObject J))))
      → Shows es ps
      → yields name (map ok es ++ rest) ≡ map ok ps ++ yields name rest
  unfolding try_filter_map
  yields-Shows name _ _ rest nothing = refl
  yields-Shows name _ ps rest (begins s) = yields-Shows name _ ps rest s
  yields-Shows name _ ps rest (complete s) = yields-Shows name _ ps rest s
  yields-Shows name (_ ∷ es) (p ∷ ps) rest (brings b q s) =
      try_filter_map-some (watched k d formats name) (map ok es ++ rest) (watched_brings name b q)
      ∙ ap (λ x. ok p ∷ x) (yields-Shows name es ps rest s)

  -- The item that ends the wait decides it.
  yields-Rules :
      (key : PipelineKey) (phase : PipelinePhase) (item : Result String (Event (PipelineObject J)))
      (rest : List (Result String (Event (PipelineObject J)))) (r : Result Error (Pipeline F))
      → Rules key phase item r
      → yields (key_str key) (item ∷ rest) ≡ r ∷ yields (key_str key) rest
  unfolding try_filter_map
  yields-Rules key phase _ rest _ (lost text) = refl
  yields-Rules key phase _ rest _ (gone o) = refl
  yields-Rules key phase _ rest _ (unreadable b q) =
      try_filter_map-err (watched k d formats (key_str key)) rest (watched_fails (key_str key) b q)
  yields-Rules key phase _ rest _ (reached b q e) =
      try_filter_map-some (watched k d formats (key_str key)) rest
        (watched_brings (key_str key) b q)

  Rules-Decides :
      (key : PipelineKey) (phase : PipelinePhase) {item : Result String (Event (PipelineObject J))}
      {r : Result Error (Pipeline F)} (rest : List (Result Error (Pipeline F)))
      → Rules key phase item r
      → Decides (kube_cluster k d formats) key phase (r ∷ rest)
  Rules-Decides key phase rest (lost text) = tt
  Rules-Decides key phase rest (gone o) = tt
  Rules-Decides key phase rest (unreadable b q) = tt
  Rules-Decides key phase rest (reached b q e) = e

-- Over Kubernetes, where the watch opens in time and yields events that bring pipelines in other
-- phases, and then an item that ends the wait, the result is, if the time allows: the pipeline that
-- has the phase, not found where the pipeline is deleted, the reason of an object that cannot be
-- read, or the error of the watch. The marks of a list that begins or is complete take no time. If
-- the time is up before, the result is the timeout.
pub kube_wait_ends :
    {W F J : Type 0} (k : KubeApi W J) (d : Documents J) (formats : Formats F) (key : PipelineKey)
    (phase : PipelinePhase) (wait : Wait) (w s : W) (events : List (Event (PipelineObject J)))
    (seen : List (Pipeline F)) (item : Result String (Event (PipelineObject J)))
    (rest : List (Result String (Event (PipelineObject J)))) (r : Result Error (Pipeline F))
    → 1 ≤ wait.calls
    → k.watch_pipeline key.namespace key.name w ≡ (map ok events ++ (item ∷ rest), s)
    → Shows k d formats events seen
    → Other (kube_cluster k d formats) key phase seen
    → Rules k d formats key phase item r
    → wait_for_phase (kube_cluster k d formats) key phase wait w
      ≡ (if ltb (length seen + 1) wait.calls then (r, s) else (err (timeout wait.limit), s))
unfolding kube_cluster watch_pipeline
kube_wait_ends k d formats key phase wait w s events seen item rest r some_time opened shows other
      rules =
    let tail = yields k d formats (key_str key) rest in
    let shown =
      yields-Shows k d formats (key_str key) events seen (item ∷ rest) shows
      ∙ ap (λ x. map ok seen ++ x) (yields-Rules k d formats key phase item rest r rules) in
    wait_for_phase_ends (kube_cluster k d formats) key phase wait w s seen (r ∷ tail) some_time
      (ap (λ x. (ok (yields k d formats (key_str key) x.0), x.1)) opened
        ∙ ap (λ x. (ok x, s)) shown)
      other (Rules-Decides k d formats key phase tail rules)
