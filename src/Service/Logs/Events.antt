-- ===== src/Service/Logs/Events.antt =====
-- What each event does to the tails (`on_event` in crates/nfctl-core/src/service/logs.rs).
use nfctl.Common.{
  ℕ, true, not, ◌&&◌, List, [], ◌∷◌, map, ◌≡◌, ◌≢◌, ◌↔◌, ◌⊎◌, inl, inr, refl, sym, ap, ◌∙◌, subst,
  Memᴰ, if◌then◌else◌, keep, mem-keep, mem-keep_ne, any-of_mem, mem_of_any, contains, contains_iff,
  Bool-cases, ◌==◌, string_eq, pair_eq, eq_of_beq, beq_of_eq, ne_of_beq,
}
use mathlib.Core.List.Memᴰ
use nfctl.Model.Ids.{PodName, ContainerName}
use nfctl.Model.Pods.{PodRef, PodEvent, applied, deleted, resync, resync_done}
use nfctl.Service.Logs.{
  ContainerSelect, select_containers, Key, Supervisor, has_tail, stop_pod, spawn, is_running,
  spawn_each, stop_each, is_over, on_event,
}
use nfctl.Service.Logs.Tails.{mem-remove}

abbrev pub HasTail : Key → Supervisor → Type 0
HasTail k s = (n : ℕ) × Memᴰ (k, n) s.tails

-- Which keys have a tail after an event.
pub After : ContainerSelect → PodEvent → Supervisor → Key → Type 0
After sel (applied pod) s k =
    if is_over pod
    then HasTail k s × (k.0 ≢ pod.name)
    else (HasTail k s
        ⊎ ((k.0 ≡ pod.name) × Memᴰ k.1 (select_containers pod sel) × (is_running pod k.1 ≡ true)))
After sel (deleted pod) s k = HasTail k s × (k.0 ≢ pod.name)
After sel resync s k = HasTail k s
After sel resync_done s k = HasTail k s × Memᴰ k.0 s.seen

stop_pod-tails :
    (p : PodName) (s : Supervisor) (k : Key) → HasTail k (stop_pod p s) ↔ (HasTail k s × (k.0 ≢ p))
unfolding stop_pod
stop_pod-tails p s k =
    let kept = λ (n : ℕ). mem-keep_ne (λ (e : Key × ℕ). e.0.0) p s.tails (k, n) in
    (λ (n, m). let (a, ne) = (kept n).0 m in ((n, a), ne), λ ((n, a), ne). (n, (kept n).1 (a, ne)))

stop_each-tails :
    (ps : List PodName) (s : Supervisor) (k : Key)
    → HasTail k (stop_each ps s) ↔ (HasTail k s × (Memᴰ k.0 ps → ⊥))
unfolding stop_each
stop_each-tails [] s k = (λ h. (h, λ m. elim m [ ]), λ h. h.0)
stop_each-tails (p ∷ ps) s k =
    let first = stop_pod-tails p s k in
    let rest = stop_each-tails ps (stop_pod p s) k in
    (
      λ h.
          let (a, out) = rest.0 h in
          let (b, ne) = first.0 a in
          (b, λ m. elim (Memᴰ.cases_cons m) [ inl e ↦ ne e | inr r ↦ out r ]),
      λ (b, out). rest.1 (first.1 (b, λ e. out (Memᴰ.head e)), λ m. out (Memᴰ.tail m)),
    )

pub has_tail_iff :
    (k : Key) (tails : List (Key × ℕ)) → (has_tail k tails ≡ true) ↔ ((n : ℕ) × Memᴰ (k, n) tails)
unfolding has_tail
has_tail_iff k tails = (
  λ h.
      let ((j, n), m, q) = mem_of_any (λ (e : Key × ℕ). e.0 == k) tails h in
      (n, subst (λ (x : Key). Memᴰ (x, n) tails) (eq_of_beq j k q) m),
  λ (n, m). any-of_mem (λ (e : Key × ℕ). e.0 == k) tails m (beq_of_eq k k refl),
)

spawn-tails : (j : Key) (s : Supervisor) (k : Key) → HasTail k (spawn j s) ↔ (HasTail k s ⊎ (k ≡ j))
unfolding spawn
spawn-tails j s k = (
  λ (n, m). elim (Memᴰ.cases_cons m) [
    | inl e ↦ inr (ap (λ x. x.0) e)
    | inr r ↦ inl (n, ((mem-remove j k n s.tails).0 r).0)
  ],
  λ h. elim (Bool-cases (k == j)) [
    | inl t ↦ (s.spawned, Memᴰ.head (ap (λ (x : Key). (x, s.spawned)) (eq_of_beq k j t)))
    | inr f ↦ elim h [
      | inl (n, m) ↦ (n, Memᴰ.tail ((mem-remove j k n s.tails).1 (m, ne_of_beq k j f)))
      | inr e ↦ absurd (ne_of_beq k j f e)
    ]
  ],
)

-- Whether one container of an applied pod has a tail afterwards.
spawn_one-tails :
    (pod : PodRef) (c : ContainerName) (s : Supervisor) (k : Key)
    → HasTail k (
        if is_running pod c && not (has_tail (pod.name, c) s.tails)
        then spawn (pod.name, c) s
        else s)
      ↔ (HasTail k s ⊎ ((k ≡ (pod.name, c)) × (is_running pod c ≡ true)))
spawn_one-tails pod c s k =
    let j : Key = (pod.name, c) in
    elim (Bool-cases (is_running pod c)) [
      | inr f ↦ rw f (λ h. inl h, λ h. elim h [ inl x ↦ x | inr y ↦ cc (y.1) ])
      | inl t ↦ elim (Bool-cases (has_tail j s.tails)) [
        | inl u ↦
            rw (t, u)
              (
                λ h. inl h,
                λ h. elim h [
                  | inl x ↦ x
                  | inr y ↦ subst (λ x. HasTail x s) (sym y.0) ((has_tail_iff j s.tails).0 u)
                ],
              )
        | inr u ↦
            rw (t, u)
              (
                λ h. elim ((spawn-tails j s k).0 h) [ inl x ↦ inl x | inr e ↦ inr (e, refl) ],
                λ h. (spawn-tails j s k).1 (elim h [ inl x ↦ inl x | inr y ↦ inr y.0 ]),
              )
      ]
    ]

pub spawn_each-tails :
    (pod : PodRef) (cs : List ContainerName) (s : Supervisor) (k : Key)
    → HasTail k (spawn_each pod cs s)
      ↔ (HasTail k s ⊎ ((k.0 ≡ pod.name) × Memᴰ k.1 cs × (is_running pod k.1 ≡ true)))
unfolding spawn_each
spawn_each-tails pod [] s k = (λ h. inl h, λ h. elim h [ inl x ↦ x | inr (_, m, _) ↦ elim m [ ] ])
spawn_each-tails pod (c ∷ cs) s k =
    let one = spawn_one-tails pod c s k in
    let rest = spawn_each-tails pod cs _ k in
    (
      λ h. elim (rest.0 h) [
        | inl x ↦ elim (one.0 x) [
          | inl y ↦ inl y
          | inr (e, r) ↦
              let q = ap (λ (x : Key). x.1) e in
              inr (ap (λ (x : Key). x.0) e, Memᴰ.head q, ap (is_running pod) q ∙ r)
        ]
        | inr (e, m, r) ↦ inr (e, Memᴰ.tail m, r)
      ],
      λ h. elim h [
        | inl y ↦ rest.1 (inl (one.1 (inl y)))
        | inr (e, m, r) ↦ elim (Memᴰ.cases_cons m) [
          | inl q ↦ rest.1 (inl (one.1 (inr (λ i. (e i, q i), ap (is_running pod) (sym q) ∙ r))))
          | inr n ↦ rest.1 (inr (e, n, r))
        ]
      ],
    )

unseen_iff :
    (s : Supervisor) (k : Key)
    → HasTail k s
    → (Memᴰ k.0 (map (λ e. e.0.0) (keep (λ e. not (contains s.seen e.0.0)) s.tails)) → ⊥)
      ↔ Memᴰ k.0 s.seen
unseen_iff s k (n, m) =
    let kept = λ (e : Key × ℕ). mem-keep (λ (e : Key × ℕ). not (contains s.seen e.0.0)) s.tails e in
    (
      λ out. elim (Bool-cases (contains s.seen k.0)) [
        | inl t ↦ (contains_iff s.seen k.0).0 t
        | inr f ↦ absurd (out (Memᴰ.map (λ (e : Key × ℕ). e.0.0) ((kept (k, n)).1 (m, ap not f))))
      ],
      λ h x.
          let (e, y, p) = Memᴰ.of_map (λ (e : Key × ℕ). e.0.0) _ x in
          cc (
            ((kept e).0 y).1,
            ap not (ap (contains s.seen) p),
            ap not ((contains_iff s.seen k.0).1 h),
          ),
    )

-- A key has a tail after an event exactly as the event says: an applied pod that is over loses its
-- tails, one that is not keeps what it has and gains one for each selected container that runs; a
-- deleted pod loses its tails; a resync that is done keeps the tails of the pods seen; nothing else
-- changes.
pub on_event-After :
    (sel : ContainerSelect) (ev : PodEvent) (s : Supervisor) (k : Key)
    → HasTail k (on_event sel ev s) ↔ After sel ev s k
unfolding on_event After
on_event-After sel (applied pod) s k = elim (Bool-cases (is_over pod)) [
  | inl q ↦ rw (q, on_event, After) (stop_pod-tails pod.name _ k)
  | inr q ↦ rw (q, on_event, After) (spawn_each-tails pod _ _ k)
]
on_event-After sel (deleted pod) s k = stop_pod-tails pod.name s k
on_event-After sel resync s k = (λ h. h, λ h. h)
on_event-After sel resync_done s k =
    let all =
      stop_each-tails (map (λ e. e.0.0) (keep (λ e. not (contains s.seen e.0.0)) s.tails)) s k in
    (
      λ h. let (x, out) = all.0 h in (x, (unseen_iff s k x).0 out),
      λ (x, m). all.1 (x, (unseen_iff s k x).1 m),
    )
