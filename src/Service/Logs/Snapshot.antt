-- ===== src/Service/Logs/Snapshot.antt =====
-- The start of `tail`, and `snapshot` (crates/nfctl-core/src/service/logs.rs).
use nfctl.Common.{
  ℕ, Bool, true, false, not, List, [], ◌∷◌, ◌++◌, map, Option, Result, ok, err, ◌≡◌, ◌↔◌, refl, ap,
  subst, inl, inr, Memᴰ, is_empty, if◌then◌else◌, find, find-some, find-none, contains,
  contains_iff, Option-cases, string_eq,
}
use mathlib.Core.List.Memᴰ
use mathlib.Core.List.{flatten}
use nfctl.Error.{Error}
use nfctl.Ports.{ClusterPort, Io, ◌>>=◌, give, lift}
use nfctl.Model.Ids.{Namespace, PodName, ContainerName}
use nfctl.Model.Time.{Timestamp}
use nfctl.Model.Pods.{Labels, PodRef, PodEvent, LogLine, TaggedLine, ContainerState}
use nfctl.Service.Logs.{
  ContainerSelect, named, select_containers, available, validate_named_containers,
}

pub record TailOptions : Type 0 where
  pub containers : ContainerSelect
  pub since : Option Timestamp
  pub tail_lines : Option ℕ

abbrev pub is_named : ContainerSelect → Bool
is_named (named _) = true
is_named _ = false

-- The lines of one stream, tagged; the first error ends the snapshot.
unfoldable pub tag_lines :
    PodName → ContainerName → List (Result Error LogLine) → Result Error (List TaggedLine)
tag_lines pod c [] = ok []
tag_lines pod c (err e ∷ items) = err e
tag_lines pod c (ok line ∷ items) = elim (tag_lines pod c items) [
  | err e ↦ err e
  | ok rest ↦ ok (record { pod = pod; container = c; line = line } ∷ rest)
]

module _ {W F : Type 0} (cluster : ClusterPort W F) (ns : Namespace) (opts : TailOptions) where
  -- The checks of `tail` before its supervisor runs on the watch.
  unfoldable pub start_tail : Labels → Io W (List (Result Error PodEvent))
  start_tail selector =
      if is_named opts.containers
      then (cluster.list_pods ns selector >>= λ pods.
          (if is_empty pods then give tt else lift (validate_named_containers pods opts.containers))
          >>= λ _. cluster.watch_pods ns selector)
      else cluster.watch_pods ns selector

  unfoldable pub snapshot_container : PodName → ContainerName → Io W (List TaggedLine)
  snapshot_container pod c =
      cluster.tail_logs ns pod c
        (record { follow = false; since = opts.since; tail_lines = opts.tail_lines })
      >>= λ items. lift (tag_lines pod c items)

  unfoldable pub snapshot_pod : PodName → List ContainerName → Io W (List TaggedLine)
  snapshot_pod pod [] = give []
  snapshot_pod pod (c ∷ cs) =
      snapshot_container pod c >>= λ lines. snapshot_pod pod cs >>= λ rest. give (lines ++ rest)

  unfoldable pub snapshot_pods : List PodRef → Io W (List TaggedLine)
  snapshot_pods [] = give []
  snapshot_pods (p ∷ ps) = snapshot_pod p.name (select_containers p opts.containers) >>= λ lines.
      snapshot_pods ps >>= λ rest. give (lines ++ rest)

  unfoldable pub snapshot : Labels → Io W (List TaggedLine)
  snapshot selector = cluster.list_pods ns selector >>= λ pods.
      lift (validate_named_containers pods opts.containers) >>= λ _. snapshot_pods pods

named_in :
    (p : PodRef) (c : ContainerState) (n : ContainerName)
    → Memᴰ c p.containers
    → c.name ≡ n
    → Memᴰ n (map (λ x. x.name) p.containers)
named_in p c n m e =
    subst (λ x. Memᴰ x (map (λ (y : ContainerState). y.name) p.containers)) e
      (Memᴰ.map (λ (y : ContainerState). y.name) m)

pub mem-available :
    (pods : List PodRef) (n : ContainerName)
    → Memᴰ n (available pods)
      ↔ ((p : PodRef) × (c : ContainerState) × Memᴰ p pods × Memᴰ c p.containers × (c.name ≡ n))
unfolding available flatten
mem-available [] n = (λ m. elim m [ ], λ (p, c, m, _, _). elim m [ ])
mem-available (p ∷ ps) n = (
  λ m. elim (Memᴰ.append_cases (map (λ c. c.name) p.containers) m) [
    | inl a ↦
        let (c, k, e) = Memᴰ.of_map (λ (c : ContainerState). c.name) p.containers a in
        (p, c, Memᴰ.head refl, k, e)
    | inr b ↦ let (q, c, k, l, e) = (mem-available ps n).0 b in (q, c, Memᴰ.tail k, l, e)
  ],
  λ (q, c, k, l, e). elim (Memᴰ.cases_cons k) [
    | inl r ↦
        Memᴰ.append_left _ (named_in p c n (subst (λ (x : PodRef). Memᴰ c x.containers) r l) e)
    | inr r ↦ Memᴰ.append_right _ ((mem-available ps n).1 (q, c, r, l, e))
  ],
)

pub not-false : (b : Bool) → not b ≡ false → b ≡ true
not-false true h = refl
not-false false h = cc

-- Requested names pass exactly if each is the name of a container of some pod.
pub validate_named_iff :
    (pods : List PodRef) (requested : List ContainerName)
    → (validate_named_containers pods (named requested) ≡ ok tt) ↔ (
        (n : ContainerName)
        → Memᴰ n requested
        → (p : PodRef) × (c : ContainerState) × Memᴰ p pods × Memᴰ c p.containers × (c.name ≡ n))
unfolding validate_named_containers
validate_named_iff pods requested =
    let missing = λ (n : ContainerName). not (contains (available pods) n) in
    elim (Option-cases (find missing requested)) [
      | inl q ↦
          rw (q, validate_named_containers)
            (
              λ _ n m. (mem-available pods n).0 (
                  (contains_iff (available pods) n).0
                    (not-false _ (find-none missing requested q m))),
              λ _. refl,
            )
      | inr (n, q) ↦
          rw (q, validate_named_containers)
            (
              λ h. cc,
              λ h.
                  let (m, absent) = find-some missing requested q in
                  absurd (
                    cc (
                      absent,
                      ap not
                          ((contains_iff (available pods) n).1 ((mem-available pods n).1 (h n m))),
                    )),
            )
    ]
