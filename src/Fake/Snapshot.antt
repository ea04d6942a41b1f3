-- ===== src/Fake/Snapshot.antt =====
-- A snapshot of the logs (crates/nfctl-core/src/service/logs.rs) of the fake cluster that a fixture
-- describes (crates/nfctl-core/src/fake).
use nfctl.Common.{
  Bool, false, not, Result, Option-cases, All, ◌↔◌, ◌++◌, subst, contains, contains_iff, find-some,
  find-none, List, [], ◌∷◌, map, Option, none, some, ok, err, ◌≡◌, ◌≢◌, refl, ap, ◌∙◌, inl, inr,
  Memᴰ, find, or_else, Bool-cases, ◌==◌, string_eq, beq_of_eq, eq_of_beq, sym,
}
use mathlib.Core.List.{flatten}
use mathlib.Core.Option
use nfctl.Error.{Error, container_not_found}
use nfctl.Ports.{Io, ◌>>=◌, bind_ok}
use nfctl.Model.Ids.{Namespace, PodName, ContainerName}
use nfctl.Model.Pods.{PodRef, ContainerState, Labels, LogLine, LogOptions, TaggedLine}
use nfctl.Fake.{State, LogScript, PodFixture}
use nfctl.Fake.Pods.{fixture_logs, get_logs, pod_logs, pop_script, script_for, list_pods, tail_logs}
use nfctl.Fake.Port.{fake_cluster}
use nfctl.Fake.Start.{Fixture, cluster_of}
use nfctl.Service.Logs.{
  default_containers, all_containers, named, available, ContainerSelect, select_containers,
  validate_named_containers,
}
use nfctl.Service.Logs.Snapshot.{
  mem-available, not-false, TailOptions, tag_lines, snapshot, snapshot_container, snapshot_pod,
  snapshot_pods,
}

-- No two pods of a fixture have one name.
abbrev pub Apart : List PodFixture → Type 0
Apart [] = Unit {0}
Apart (p ∷ ps) = ((q : PodFixture) → Memᴰ q ps → p.pod.name ≢ q.pod.name) × Apart ps

-- The lines that the fixture has for a container, each with its pod and container.
abbrev pub lines_of : PodFixture → ContainerName → List TaggedLine
lines_of p c =
    map (λ line. record { pod = p.pod.name; container = c; line = line })
      (or_else (get_logs p.logs c) [])

abbrev pub lines_in : PodFixture → List ContainerName → List TaggedLine
lines_in p cs = flatten (map (lines_of p) cs)

abbrev pub all_lines : ContainerSelect → List PodFixture → List TaggedLine
all_lines sel ps = flatten (map (λ p. lines_in p (select_containers p.pod sel)) ps)

-- The names that are asked for one by one.
abbrev pub requested : ContainerSelect → List ContainerName
requested (named names) = names
requested _ = []

-- Some pod has a container of that name.
abbrev pub Exists : List PodRef → ContainerName → Type 0
Exists pods n =
    (p : PodRef) × (c : ContainerState) × Memᴰ p pods × Memᴰ c p.containers × (c.name ≡ n)

-- What comes of a snapshot: the lines where all names exist, else an error with the first that does
-- not, and with the names that there are.
pub data Outcome (sel : ContainerSelect) (ps : List PodFixture)
    : Result Error (List TaggedLine) → Type 0 where
  complete :
      ((n : ContainerName) → Memᴰ n (requested sel) → Exists (map (λ p. p.pod) ps) n)
      → Outcome sel ps (ok (all_lines sel ps))
  missing :
      (before : List ContainerName) (n : ContainerName) (after names : List ContainerName)
      → requested sel ≡ before ++ n ∷ after
      → All (Exists (map (λ p. p.pod) ps)) before
      → (¬ Exists (map (λ p. p.pod) ps) n)
      → ((m : ContainerName) → Memᴰ m names ↔ Exists (map (λ p. p.pod) ps) m)
      → Outcome sel ps (err (container_not_found n names))

find_first {ℓ} :
    {A : Type ℓ} (p : A → Bool) (xs : List A) {a : A}
    → find p xs ≡ some a
    → (before after : List A) × (xs ≡ before ++ a ∷ after) × All (λ x. p x ≡ false) before
unfolding find
find_first p [] h = cc
find_first p (x ∷ xs) {a = a} h = elim (Bool-cases (p x)) [
  | inl t ↦ let k : some x ≡ some a = rw t at h in ([], xs, cc, tt)
  | inr f ↦
      let (before, after, e, all) = find_first p xs (rw f at h) in
      (x ∷ before, after, ap (λ ys. x ∷ ys) e, (f, all))
]

find-Apart :
    (ps : List PodFixture) (p : PodFixture)
    → Apart ps
    → Memᴰ p ps
    → find (λ q. q.pod.name == p.pod.name) ps ≡ some p
unfolding find
find-Apart [] p a m = elim m [ ]
find-Apart (q ∷ ps) p a (Memᴰ.head e) =
    rw (beq_of_eq q.pod.name p.pod.name (ap (λ x. x.pod.name) (sym e))) (ap some (sym e))
find-Apart (q ∷ ps) p a (Memᴰ.tail m) = elim (Bool-cases (q.pod.name == p.pod.name)) [
  | inl t ↦ absurd (a.0 p m (eq_of_beq q.pod.name p.pod.name t))
  | inr f ↦ rw f (find-Apart ps p a.1 m)
]

tag_lines-ok :
    (pod : PodName) (c : ContainerName) (ls : List LogLine)
    → tag_lines pod c (map ok ls)
      ≡ ok (map (λ line. record { pod = pod; container = c; line = line }) ls)
unfolding tag_lines
tag_lines-ok pod c [] = refl
tag_lines-ok pod c (l ∷ ls) = rw (tag_lines-ok pod c ls) refl

module _ {F : Type 0} (fs : List PodFixture) where
  -- The pods of the fixture are there, and no script is queued.
  record Replays (s : State F) : Type 0 where
    pub scripts : s.scripts ≡ []
    pub fixture : s.fixture ≡ some fs

  -- The call succeeds, and the cluster still replays the fixture.
  abbrev Gives : {A : Type 0} → Io (State F) A → A → State F → Type 0
  Gives call a s = (t : State F) × (call s ≡ (ok a, t)) × Replays t

  tail_logs-Gives :
      (ns : Namespace) (p : PodFixture) (c : ContainerName) (opts : LogOptions) (s : State F)
      → find (λ q. q.pod.name == p.pod.name) fs ≡ some p
      → Replays s
      → Gives (tail_logs ns p.pod.name c opts) (map ok (or_else (get_logs p.logs c) [])) s
  unfolding tail_logs pop_script pod_logs Option.bind script_for
  tail_logs-Gives ns p c opts s found r =
      let pod = p.pod.name in
      let served : Option LogScript → Option (List LogLine) → List LogLine =
        λ x ls. (script_for x ls opts.follow).lines in
      let lines =
        ap (λ q. served (pop_script q (pod, c)).0 (fixture_logs s.fixture pod c)) r.scripts
        ∙ ap (λ f. served none (fixture_logs f pod c)) r.fixture
        ∙ ap (λ f. served none (Option.bind f (λ x. get_logs x.logs c))) found
        ∙ script_for-lines opts.follow (get_logs p.logs c) in
      let (_, t) = tail_logs ns pod c opts s in
      (
        t,
        ap (λ ls. (ok (map ok ls), t)) lines,
        record { scripts = ap (λ q. (pop_script q (pod, c)).1) r.scripts; fixture = r.fixture },
      )
    where
      script_for-lines :
          (follow : Bool) (o : Option (List LogLine))
          → (script_for none o follow).lines ≡ or_else o []
      script_for-lines follow none = refl
      script_for-lines follow (some ls) = refl

  Gives-bind :
      {A B : Type 0} (m : Io (State F) A) (f : A → Io (State F) B) {a : A} {b : B} (s : State F)
      → Gives m a s
      → ((t : State F) → Replays t → Gives (f a) b t)
      → Gives (m >>= f) b s
  Gives-bind m f s (t, e, r) k = let (u, g, q) = k t r in (u, bind_ok m f e ∙ g, q)

  module _ (ns : Namespace) (opts : TailOptions) where
    snapshot_container-Gives :
        (p : PodFixture) (c : ContainerName) (s : State F)
        → find (λ q. q.pod.name == p.pod.name) fs ≡ some p
        → Replays s
        → Gives (snapshot_container fake_cluster ns opts p.pod.name c) (lines_of p c) s
    unfolding snapshot_container fake_cluster
    snapshot_container-Gives p c s found r =
        Gives-bind _ _ s (tail_logs-Gives ns p c _ s found r)
          (λ t q. (t, ap (λ x. (x, t)) (tag_lines-ok p.pod.name c _), q))

    snapshot_pod-Gives :
        (p : PodFixture) (cs : List ContainerName) (s : State F)
        → find (λ q. q.pod.name == p.pod.name) fs ≡ some p
        → Replays s
        → Gives (snapshot_pod fake_cluster ns opts p.pod.name cs) (lines_in p cs) s
    unfolding snapshot_pod flatten
    snapshot_pod-Gives p [] s found r = (s, refl, r)
    snapshot_pod-Gives p (c ∷ cs) s found r =
        Gives-bind _ _ s (snapshot_container-Gives p c s found r)
          (λ t q. Gives-bind _ _ t (snapshot_pod-Gives p cs t found q) (λ u o. (u, refl, o)))

    snapshot_pods-Gives :
        (ps : List PodFixture) (s : State F)
        → ((p : PodFixture) → Memᴰ p ps → find (λ q. q.pod.name == p.pod.name) fs ≡ some p)
        → Replays s
        → Gives
            (snapshot_pods fake_cluster ns opts (map (λ p. p.pod) ps))
            (all_lines opts.containers ps)
            s
    unfolding snapshot_pods flatten
    snapshot_pods-Gives [] s found r = (s, refl, r)
    snapshot_pods-Gives (p ∷ ps) s found r =
        Gives-bind _ _ s (snapshot_pod-Gives p _ s (found p (Memᴰ.head refl)) r) (λ t q.
          Gives-bind _ _ t (snapshot_pods-Gives ps t (λ x m. found x (Memᴰ.tail m)) q)
            (λ u o. (u, refl, o)))

All-weaken :
    {A : Type 0} {P Q : A → Type 0} (xs : List A) → ((a : A) → P a → Q a) → All P xs → All Q xs
All-weaken [] f h = tt
All-weaken (x ∷ xs) f h = (f x h.0, All-weaken xs f h.1)

-- The check passes where all names exist, and else the snapshot ends with its error.
checked-Outcome :
    (sel : ContainerSelect) (ps : List PodFixture) (r : Result Error (List TaggedLine))
    → (validate_named_containers (map (λ p. p.pod) ps) sel ≡ ok tt → r ≡ ok (all_lines sel ps))
    → ((e : Error) → validate_named_containers (map (λ p. p.pod) ps) sel ≡ err e → r ≡ err e)
    → Outcome sel ps r
unfolding validate_named_containers
checked-Outcome default_containers ps r passed failed =
    subst (Outcome default_containers ps) (sym (passed refl)) (complete (λ n m. elim m [ ]))
checked-Outcome all_containers ps r passed failed =
    subst (Outcome all_containers ps) (sym (passed refl)) (complete (λ n m. elim m [ ]))
checked-Outcome (named names) ps r passed failed =
    let pods = map (λ (p : PodFixture). p.pod) ps in
    let absent = λ (n : ContainerName). not (contains (available pods) n) in
    let there = λ (n : ContainerName) (h : absent n ≡ false).
      (mem-available pods n).0 ((contains_iff (available pods) n).0 (not-false _ h)) in
    elim (Option-cases (find absent names)) [
      | inl q ↦
          subst (Outcome (named names) ps) (sym (passed (rw (q, validate_named_containers) refl)))
            (complete (λ n m. there n (find-none absent names q m)))
      | inr (n, q) ↦
          let (before, after, e, all) = find_first absent names q in
          let (_, gone) = find-some absent names q in
          subst (Outcome (named names) ps) (sym (failed _ (rw (q, validate_named_containers) refl)))
            (missing before n after (available pods) e (All-weaken before there all)
              (λ h.
                cc
                  (gone, ap not ((contains_iff (available pods) n).1 ((mem-available pods n).1 h))))
              (mem-available pods))
    ]

-- On the cluster of a fixture whose pods have different names, a snapshot has exactly the lines that
-- the fixture has for the containers that are chosen, pod by pod and container by container, each with
-- the names of both, if each container that is asked for by name is one of some pod; else it fails with
-- the first name that is of none, and with the names that there are.
pub snapshot_fixture :
    {F : Type 0} (f : Fixture F) (ns : Namespace) (opts : TailOptions) (selector : Labels)
    → Apart f.pods
    → Outcome opts.containers f.pods (snapshot fake_cluster ns opts selector (cluster_of f)).0
unfolding snapshot fake_cluster list_pods cluster_of ◌>>=◌
snapshot_fixture f ns opts selector apart =
    checked-Outcome opts.containers f.pods _
      (λ h.
        let (t, e, _) =
          snapshot_pods-Gives f.pods ns opts f.pods (cluster_of f)
            (λ p m. find-Apart f.pods p apart m) (record { scripts = refl; fixture = refl }) in
        rw h (ap (λ x. x.0) e))
      (λ e h. rw h refl)
