-- ===== src/Service/Logs/Effects.antt =====
-- What an event of the watch does to the supervisor of crates/nfctl-core/src/service/logs.rs: to its
-- handles, its tasks, and the pods seen.
use nfctl.Common.{
  ℕ, ◌≤◌, false, not, ◌&&◌, List, [], ◌∷◌, ◌≡◌, ◌↔◌, ◌⊎◌, inl, inr, refl, sym, ap, ◌∙◌, subst,
  arith, Memᴰ, mem-keep, Bool-cases, contains, contains_iff, string_eq, pair_eq,
}
use mathlib.Core.List.Memᴰ
use nfctl.Model.Ids.{PodName, ContainerName}
use nfctl.Model.Pods.{PodRef, PodEvent, applied, deleted, resync, resync_done}
use nfctl.Service.Logs.{
  ContainerSelect, select_containers, Key, Supervisor, has_tail, insert_seen, abort_all, stop_pod,
  spawn, is_running, spawn_each, stop_each, is_over, on_event,
}
use nfctl.Service.Logs.Tails.{mem-remove}
use nfctl.Service.Logs.Events.{HasTail, After, has_tail_iff, on_event-After}

-- A container that had no tail, whose handle is that of a new task, which runs.
abbrev pub IsNew : Supervisor → Supervisor → Key → ℕ → Type 0
IsNew s t k n = (¬ HasTail k s) × (s.spawned ≤ n) × Memᴰ (k, n) t.running

abbrev pub SeenAfter : PodEvent → Supervisor → PodName → Type 0
SeenAfter (applied pod) s p = (p ≡ pod.name) ⊎ Memᴰ p s.seen
SeenAfter (deleted pod) s p = Memᴰ p s.seen
SeenAfter resync s p = ⊥
SeenAfter resync_done s p = Memᴰ p s.seen

pub record Effects (sel : ContainerSelect) (ev : PodEvent) (s t : Supervisor) : Type 0 where
  pub tails : (k : Key) → HasTail k t ↔ After sel ev s k
  pub handles : (k : Key) (n : ℕ) → Memᴰ (k, n) t.tails → Memᴰ (k, n) s.tails ⊎ IsNew s t k n
  pub tasks :
      (k : Key) (n : ℕ)
      → Memᴰ (k, n) t.running
      → Memᴰ (k, n) s.running ⊎ ((¬ HasTail k s) × Memᴰ (k, n) t.tails)
  pub seen : (p : PodName) → Memᴰ p t.seen ↔ SeenAfter ev s p

-- Tasks of containers without a tail are added, each with its handle; the rest stays.
record Adds (s t : Supervisor) : Type 0 where
  pub stay : (e : Key × ℕ) → Memᴰ e s.tails → Memᴰ e t.tails
  pub handles : (k : Key) (n : ℕ) → Memᴰ (k, n) t.tails → Memᴰ (k, n) s.tails ⊎ IsNew s t k n
  pub tasks :
      (k : Key) (n : ℕ)
      → Memᴰ (k, n) t.running
      → Memᴰ (k, n) s.running ⊎ ((¬ HasTail k s) × Memᴰ (k, n) t.tails)
  pub running : (e : Key × ℕ) → Memᴰ e s.running → Memᴰ e t.running
  pub spawned : s.spawned ≤ t.spawned
  pub seen : t.seen ≡ s.seen

Adds-refl : (s : Supervisor) → Adds s s
Adds-refl s = record {
  stay = λ e m. m;
  handles = λ k n m. inl m;
  tasks = λ k n m. inl m;
  running = λ e m. m;
  spawned = omega arith;
  seen = refl;
}

Adds-trans : (s t u : Supervisor) → Adds s t → Adds t u → Adds s u
Adds-trans s t u g h =
    let none_before =
      λ (k : Key) (out : ¬ HasTail k t) (x : HasTail k s). out (x.0, g.stay (k, x.0) x.1) in
    record {
      stay = λ e m. h.stay e (g.stay e m);
      handles = λ k n m. elim (h.handles k n m) [
        | inr (out, late, runs) ↦ inr (none_before k out, omega (arith, g.spawned, late), runs)
        | inl a ↦ elim (g.handles k n a) [
          | inl b ↦ inl b
          | inr (out, late, runs) ↦ inr (out, late, h.running (k, n) runs)
        ]
      ];
      tasks = λ k n m. elim (h.tasks k n m) [
        | inr (out, has) ↦ inr (none_before k out, has)
        | inl a ↦ elim (g.tasks k n a) [
          | inl b ↦ inl b
          | inr (out, has) ↦ inr (out, h.stay (k, n) has)
        ]
      ];
      running = λ e m. h.running e (g.running e m);
      spawned = omega (arith, g.spawned, h.spawned);
      seen = h.seen ∙ g.seen;
    }

spawn-Adds : (j : Key) (s : Supervisor) → (¬ HasTail j s) → Adds s (spawn j s)
unfolding spawn
spawn-Adds j s out =
    let fresh = λ (k : Key) (e : k ≡ j) (x : HasTail k s). out (subst (λ y. HasTail y s) e x) in
    record {
      stay = λ e m. Memᴰ.tail ((mem-remove j e.0 e.1 s.tails).1 (m, λ q. fresh e.0 q (e.1, m)));
      handles = λ k n m. elim (Memᴰ.cases_cons m) [
        | inl e ↦ inr (fresh k (ap (λ x. x.0) e), omega (arith, ap (λ x. x.1) e), Memᴰ.head e)
        | inr r ↦ inl ((mem-remove j k n s.tails).0 r).0
      ];
      tasks = λ k n m. elim (Memᴰ.cases_cons m) [
        | inl e ↦ inr (fresh k (ap (λ x. x.0) e), Memᴰ.head e)
        | inr r ↦ inl r
      ];
      running = λ e m. Memᴰ.tail m;
      spawned = omega arith;
      seen = refl;
    }

spawn_each-Adds :
    (pod : PodRef) (cs : List ContainerName) (s : Supervisor) → Adds s (spawn_each pod cs s)
unfolding spawn_each
spawn_each-Adds pod [] s = Adds-refl s
spawn_each-Adds pod (c ∷ cs) s =
    let k : Key = (pod.name, c) in
    elim (Bool-cases (is_running pod c && not (has_tail k s.tails))) [
      | inr q ↦ rw q (spawn_each-Adds pod cs s)
      | inl q ↦
          let free : has_tail k s.tails ≡ false = ground (arith, q) in
          let out : ¬ HasTail k s = λ h. cc ((has_tail_iff k s.tails).1 h, free) in
          rw q
            (Adds-trans s (spawn k s) _ (spawn-Adds k s out) (spawn_each-Adds pod cs (spawn k s)))
    ]

-- Handles and tasks only go, and the pods seen stay.
record Drops (s t : Supervisor) : Type 0 where
  pub tails : (e : Key × ℕ) → Memᴰ e t.tails → Memᴰ e s.tails
  pub running : (e : Key × ℕ) → Memᴰ e t.running → Memᴰ e s.running
  pub seen : t.seen ≡ s.seen

stop_pod-Drops : (p : PodName) (s : Supervisor) → Drops s (stop_pod p s)
unfolding stop_pod abort_all
stop_pod-Drops p s = record {
  tails = λ e m. ((mem-keep _ s.tails e).0 m).0;
  running = λ e m. ((mem-keep _ s.running e).0 m).0;
  seen = refl;
}

stop_each-Drops : (ps : List PodName) (s : Supervisor) → Drops s (stop_each ps s)
unfolding stop_each
stop_each-Drops [] s = record { tails = λ e m. m; running = λ e m. m; seen = refl }
stop_each-Drops (p ∷ ps) s =
    let first = stop_pod-Drops p s in
    let rest = stop_each-Drops ps (stop_pod p s) in
    record {
      tails = λ e m. first.tails e (rest.tails e m);
      running = λ e m. first.running e (rest.running e m);
      seen = rest.seen ∙ first.seen;
    }

insert_seen_iff :
    (p : PodName) (seen : List PodName) (q : PodName)
    → Memᴰ q (insert_seen p seen) ↔ ((q ≡ p) ⊎ Memᴰ q seen)
unfolding insert_seen
insert_seen_iff p seen q = elim (Bool-cases (contains seen p)) [
  | inl t ↦ rw t (
    λ m. inr m,
    λ h. elim h [
      | inl e ↦ subst (λ x. Memᴰ x seen) (sym e) ((contains_iff seen p).0 t)
      | inr m ↦ m
    ],
  )
  | inr f ↦ rw f (λ m. Memᴰ.cases_cons m, λ h. elim h [ inl e ↦ Memᴰ.head e | inr m ↦ Memᴰ.tail m ])
]

Drops-Effects :
    (sel : ContainerSelect) (ev : PodEvent) (s u t : Supervisor)
    → u.tails ≡ s.tails
    → u.running ≡ s.running
    → ((k : Key) → HasTail k t ↔ After sel ev s k)
    → ((p : PodName) → Memᴰ p u.seen ↔ SeenAfter ev s p)
    → Drops u t
    → Effects sel ev s t
Drops-Effects sel ev s u t et er tails seen d = record {
  tails = tails;
  handles = λ k n m. inl (subst (Memᴰ (k, n)) et (d.tails (k, n) m));
  tasks = λ k n m. inl (subst (Memᴰ (k, n)) er (d.running (k, n) m));
  seen = λ p. subst (λ x. Memᴰ p x ↔ SeenAfter ev s p) (sym d.seen) (seen p);
}

After-applied :
    (sel : ContainerSelect) (pod : PodRef) (s : Supervisor) {t : Supervisor}
    → on_event sel (applied pod) s ≡ t
    → (k : Key) → HasTail k t ↔ After sel (applied pod) s k
After-applied sel pod s same k =
    subst (λ x. HasTail k x ↔ After sel (applied pod) s k) same
      (on_event-After sel (applied pod) s k)

-- An event changes the supervisor exactly as it says. An applied pod that is over loses its tails;
-- one that is not keeps them and gains one for each selected container that runs and has none; a
-- deleted pod loses its tails; a resync that is done keeps the tails of the pods seen. A tail that is
-- kept keeps its handle, a new one has that of a new task, which runs, and no other task is started.
-- The pods seen are those before and one that is applied, and none once a resync begins.
pub on_event-Effects :
    (sel : ContainerSelect) (ev : PodEvent) (s : Supervisor) → Effects sel ev s (on_event sel ev s)
unfolding on_event
on_event-Effects sel (applied pod) s =
    let u : Supervisor = record s { seen = insert_seen pod.name s.seen } in
    elim (Bool-cases (is_over pod)) [
      | inl q ↦
          let same : on_event sel (applied pod) s ≡ stop_pod pod.name u = rw (q, on_event) refl in
          subst (Effects sel (applied pod) s) (sym same) (
            Drops-Effects sel (applied pod) s u (stop_pod pod.name u) refl refl
              (After-applied sel pod s same) (insert_seen_iff pod.name s.seen)
              (stop_pod-Drops pod.name u))
      | inr q ↦
          let t = spawn_each pod (select_containers pod sel) u in
          let same : on_event sel (applied pod) s ≡ t = rw (q, on_event) refl in
          let added = spawn_each-Adds pod (select_containers pod sel) u in
          subst (Effects sel (applied pod) s) (sym same) (record {
            tails = After-applied sel pod s same;
            handles = added.handles;
            tasks = added.tasks;
            seen = λ p.
                subst (λ x. Memᴰ p x ↔ SeenAfter (applied pod) s p) (sym added.seen)
                  (insert_seen_iff pod.name s.seen p);
          })
    ]
on_event-Effects sel (deleted pod) s =
    Drops-Effects sel (deleted pod) s s _ refl refl (on_event-After sel (deleted pod) s)
      (λ p. (λ m. m, λ m. m)) (stop_pod-Drops pod.name s)
on_event-Effects sel resync s = record {
  tails = on_event-After sel resync s;
  handles = λ k n m. inl m;
  tasks = λ k n m. inl m;
  seen = λ p. (λ m. elim m [ ], λ m. absurd m);
}
on_event-Effects sel resync_done s =
    Drops-Effects sel resync_done s s _ refl refl (on_event-After sel resync_done s)
      (λ p. (λ m. m, λ m. m)) (stop_each-Drops _ s)
