-- ===== src/Service/Logs/Owned.antt =====
-- Whose tasks the handles of the supervisor are, and which tasks an abort hits
-- (crates/nfctl-core/src/service/logs.rs).
use nfctl.Common.{
  ℕ, ◌<◌, Bool, not, ◌&&◌, List, [], ◌∷◌, ◌≡◌, ◌↔◌, subst, any-of_mem, mem_of_any, eqb_iff,
  eq_of_beq, beq_of_eq, inl, inr, refl, sym, ap, ◌∙◌, arith, Memᴰ, keep, mem-keep, Bool-cases, ◌==◌,
  string_eq, pair_eq, any, eqb,
}
use mathlib.Core.List.Memᴰ
use nfctl.Model.Ids.{PodName, ContainerName}
use nfctl.Model.Pods.{PodRef, PodEvent, applied, deleted, resync, resync_done}
use nfctl.Service.Logs.{
  ContainerSelect, Key, Supervisor, has_tail, insert_seen, abort_all, stop_pod, spawn, is_running,
  spawn_each, stop_each, is_over, on_event, finish, join_next, Step, event, missed, ends, join,
  Reachable, start, next,
}

-- The numbers of tasks: those that were given are below the next one, no two tasks that run have one
-- number, and a handle with the number of a task that runs is kept under the key of that task.
pub record Numbered (s : Supervisor) : Type 0 where
  pub handle_below : (k : Key) (n : ℕ) → Memᴰ (k, n) s.tails → n < s.spawned
  pub task_below : (k : Key) (n : ℕ) → Memᴰ (k, n) s.running → n < s.spawned
  pub one_task : (k j : Key) (n : ℕ) → Memᴰ (k, n) s.running → Memᴰ (j, n) s.running → k ≡ j
  pub own : (k j : Key) (n : ℕ) → Memᴰ (k, n) s.tails → Memᴰ (j, n) s.running → k ≡ j

-- Handles and tasks go, and none is new.
record Fewer (s t : Supervisor) : Type 0 where
  pub tails : (e : Key × ℕ) → Memᴰ e t.tails → Memᴰ e s.tails
  pub running : (e : Key × ℕ) → Memᴰ e t.running → Memᴰ e s.running
  pub spawned : t.spawned ≡ s.spawned

Fewer-Numbered : (s t : Supervisor) → Fewer s t → Numbered s → Numbered t
Fewer-Numbered s t f h = record {
  handle_below = λ k n m. let b = h.handle_below k n (f.tails _ m) in omega (arith, b, f.spawned);
  task_below = λ k n m. let b = h.task_below k n (f.running _ m) in omega (arith, b, f.spawned);
  one_task = λ k j n a b. h.one_task k j n (f.running _ a) (f.running _ b);
  own = λ k j n a b. h.own k j n (f.tails _ a) (f.running _ b);
}

stop_pod-Numbered : (p : PodName) (s : Supervisor) → Numbered s → Numbered (stop_pod p s)
unfolding stop_pod abort_all
stop_pod-Numbered p s = Fewer-Numbered s _ (record {
  tails = λ e m. ((mem-keep _ s.tails e).0 m).0;
  running = λ e m. ((mem-keep _ s.running e).0 m).0;
  spawned = refl;
})

stop_each-Numbered : (ps : List PodName) (s : Supervisor) → Numbered s → Numbered (stop_each ps s)
unfolding stop_each
stop_each-Numbered [] s h = h
stop_each-Numbered (p ∷ ps) s h = stop_each-Numbered ps _ (stop_pod-Numbered p s h)

spawn-Numbered : (k : Key) (s : Supervisor) → Numbered s → Numbered (spawn k s)
unfolding spawn
spawn-Numbered k s h = record {
  handle_below = λ j n m. elim (Memᴰ.cases_cons m) [
    | inl e ↦ omega (arith, ap (λ x. x.1) e)
    | inr r ↦ let b = h.handle_below j n ((mem-keep _ s.tails _).0 r).0 in omega (arith, b)
  ];
  task_below = λ j n m. elim (Memᴰ.cases_cons m) [
    | inl e ↦ omega (arith, ap (λ x. x.1) e)
    | inr r ↦ let b = h.task_below j n r in omega (arith, b)
  ];
  one_task = λ i j n a b. elim (Memᴰ.cases_cons a) [
    | inl e ↦ elim (Memᴰ.cases_cons b) [
      | inl f ↦ ap (λ x. x.0) (e ∙ sym f)
      | inr r ↦ let c = h.task_below j n r in absurd (omega (arith, c, ap (λ x. x.1) e))
    ]
    | inr q ↦ elim (Memᴰ.cases_cons b) [
      | inl f ↦ let c = h.task_below i n q in absurd (omega (arith, c, ap (λ x. x.1) f))
      | inr r ↦ h.one_task i j n q r
    ]
  ];
  own = λ i j n a b. elim (Memᴰ.cases_cons a) [
    | inl e ↦ elim (Memᴰ.cases_cons b) [
      | inl f ↦ ap (λ x. x.0) (e ∙ sym f)
      | inr r ↦ let c = h.task_below j n r in absurd (omega (arith, c, ap (λ x. x.1) e))
    ]
    | inr q ↦
        let old = ((mem-keep _ s.tails _).0 q).0 in
        elim (Memᴰ.cases_cons b) [
          | inl f ↦ let c = h.handle_below i n old in absurd (omega (arith, c, ap (λ x. x.1) f))
          | inr r ↦ h.own i j n old r
        ]
  ];
}

spawn_each-Numbered :
    (pod : PodRef) (cs : List ContainerName) (s : Supervisor)
    → Numbered s
    → Numbered (spawn_each pod cs s)
unfolding spawn_each
spawn_each-Numbered pod [] s h = h
spawn_each-Numbered pod (c ∷ cs) s h =
    let opens = is_running pod c && not (has_tail (pod.name, c) s.tails) in
    spawn_each-Numbered pod cs _
      (elim (Bool-cases opens) [ inl q ↦ rw q (spawn-Numbered (pod.name, c) s h) | inr q ↦ rw q h ])

-- The pods that were seen play no part.
seen-Numbered :
    (seen : List PodName) (s : Supervisor) → Numbered s → Numbered (record s { seen = seen })
seen-Numbered seen s =
    Fewer-Numbered s _ (record { tails = λ e m. m; running = λ e m. m; spawned = refl })

on_event-Numbered :
    (sel : ContainerSelect) (ev : PodEvent) (s : Supervisor)
    → Numbered s
    → Numbered (on_event sel ev s)
unfolding on_event
on_event-Numbered sel (applied pod) s h =
    let seen = seen-Numbered (insert_seen pod.name s.seen) s h in
    elim (Bool-cases (is_over pod)) [
      | inl q ↦ rw (q, on_event) (stop_pod-Numbered pod.name _ seen)
      | inr q ↦ rw (q, on_event) (spawn_each-Numbered pod _ _ seen)
    ]
on_event-Numbered sel (deleted pod) s h = stop_pod-Numbered pod.name s h
on_event-Numbered sel resync s h = seen-Numbered [] s h
on_event-Numbered sel resync_done s h = stop_each-Numbered _ s h

step-Numbered : {sel : ContainerSelect} {s t : Supervisor} → Step sel s t → Numbered s → Numbered t
unfolding finish join_next
step-Numbered (event ev) h = on_event-Numbered _ ev _ h
step-Numbered (missed e) h = h
step-Numbered (ends k n m) h =
    Fewer-Numbered _ _
      (record { tails = λ e m. m; running = λ e m. ((mem-keep _ _ e).0 m).0; spawned = refl }) h
step-Numbered (join before k after e) h =
    Fewer-Numbered _ _
      (record { tails = λ e m. ((mem-keep _ _ e).0 m).0; running = λ e m. m; spawned = refl }) h

Reachable-Numbered : (sel : ContainerSelect) (s : Supervisor) → Reachable sel s → Numbered s
Reachable-Numbered sel s start = record {
  handle_below = λ k n m. elim m [ ];
  task_below = λ k n m. elim m [ ];
  one_task = λ k j n m. elim m [ ];
  own = λ k j n m. elim m [ ];
}
Reachable-Numbered sel s (next r st) = step-Numbered st (Reachable-Numbered sel _ r)

abort_all_iff :
    (hit tasks : List (Key × ℕ)) (k : Key) (n : ℕ)
    → Memᴰ (k, n) (abort_all hit tasks) ↔ (Memᴰ (k, n) tasks × (¬ ((j : Key) × Memᴰ (j, n) hit)))
unfolding abort_all
abort_all_iff hit tasks k n =
    let same : Key × ℕ → Bool = λ h. eqb h.1 n in
    let kept = mem-keep (λ (t : Key × ℕ). not (any (λ h. eqb h.1 t.1) hit)) tasks (k, n) in
    (
      λ m.
          let (old, q) = kept.0 m in
          (
            old,
            λ (j, h). cc (q, ap not (any-of_mem same hit {a = (j, n)} h ((eqb_iff n n).1 refl))),
          ),
      λ (old, free). kept.1 (
        old,
        elim (Bool-cases (any same hit)) [
          | inr q ↦ ap not q
          | inl q ↦
              let ((j, i), h, e) = mem_of_any same hit q in
              absurd (free (j, subst (λ x. Memᴰ (j, x) hit) ((eqb_iff i n).0 e) h))
        ],
      ),
    )

-- However events, ends of tasks and joins follow each other, to stop a pod aborts exactly the tasks
-- of that pod that have a handle: no task of another pod, and none whose handle was lost.
pub stop_pod_iff :
    (sel : ContainerSelect) (s : Supervisor)
    → Reachable sel s
    → (pod : PodName) (k : Key) (n : ℕ)
    → Memᴰ (k, n) (stop_pod pod s).running
      ↔ (Memᴰ (k, n) s.running × (¬ (Memᴰ (k, n) s.tails × (k.0 ≡ pod))))
unfolding stop_pod
stop_pod_iff sel s r pod k n =
    let of_pod = λ (e : Key × ℕ). e.0.0 == pod in
    let aborted = abort_all_iff (keep of_pod s.tails) s.running k n in
    (
      λ m.
          let (old, free) = aborted.0 m in
          (old, λ (h, e). free (k, (mem-keep of_pod s.tails (k, n)).1 (h, beq_of_eq k.0 pod e))),
      λ (old, free). aborted.1 (
        old,
        λ (j, h).
            let (m, e) = (mem-keep of_pod s.tails (j, n)).0 h in
            let same = (Reachable-Numbered sel s r).own j k n m old in
            free (
              subst (λ x. Memᴰ (x, n) s.tails) same m,
              ap (λ x. x.0) (sym same) ∙ eq_of_beq j.0 pod e,
            ),
      ),
    )
