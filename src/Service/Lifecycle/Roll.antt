-- ===== src/Service/Lifecycle/Roll.antt =====
-- What a rolling restart does (`rolling_restart` in crates/nfctl-core/src/service/lifecycle.rs), as
-- steps on the state of the cluster.
use nfctl.Common.{
  ℕ, zero, suc, ◌≤◌, true, false, not, ◌&&◌, List, [], ◌∷◌, ◌++◌, map, ok, ok_injective, ◌≡◌, ◌≢◌,
  inl, inr, sym, ap, ◌∙◌, subst, arith, Memᴰ, leb, all_iff, Bool-cases, ◌==◌, string_eq, beq_of_eq,
}
use mathlib.Core.List.{Perm, append_assoc, append-nil}
use nfctl.Common.Sort.{
  sort_by, sort_by-perm, sort_by-Sorted, Sorted, leb_chars_total, leb_chars_trans,
}
use nfctl.Ports.{ClusterPort, ok_of_io}
use nfctl.Model.Ids.{PodName, Namespace}
use nfctl.Model.Time.{Duration}
use nfctl.Model.Pods.{Labels, PodRef}
use nfctl.Service.Lifecycle.{Wait, running, gone, pod_le, recovered, roll, rolling_restart}

module _ {W F : Type 0} (c : ClusterPort W F) (ns : Namespace) (selector : Labels)
    (target : ℕ) where
  -- The polls until a list does not have the name any more and as many pods run as before.
  pub data Recovers (name : PodName) : W → W → Type 0 where
    up :
        {w s : W} (now : List PodRef)
        → c.list_pods ns selector w ≡ (ok now, s)
        → ((p : PodRef) → Memᴰ p now → p.name ≢ name)
        → target ≤ running now
        → Recovers name w s
    again :
        {w t s : W} (now : List PodRef)
        → c.list_pods ns selector w ≡ (ok now, t)
        → Recovers name t s
        → Recovers name w s

  -- The steps of a roll over the pods: each is deleted, and then waited for.
  pub data Rolls : W → List PodRef → W → Type 0 where
    done : {w s : W} → w ≡ s → Rolls w [] s
    step :
        {w t u s : W} {pod : PodRef} {rest : List PodRef}
        → c.delete_pod ns pod.name false w ≡ (ok tt, t)
        → Recovers pod.name t u
        → Rolls u rest s
        → Rolls w (pod ∷ rest) s

  gone-mem :
      (name : PodName) (now : List PodRef)
      → gone name now ≡ true
      → (p : PodRef) → Memᴰ p now
      → p.name ≢ name
  unfolding gone
  gone-mem name now h p m e =
      let q = (all_iff (λ (x : PodRef). not (x.name == name)) now).0 h p m in
      cc (q, ap not (beq_of_eq p.name name e))

  recovered-Recovers :
      (name : PodName) (limit : Duration) (n : ℕ) (w s : W)
      → recovered c ns selector target name limit n w ≡ (ok tt, s)
      → Recovers name w s
  unfolding recovered
  recovered-Recovers name limit zero w s h = cc
  recovered-Recovers name limit (suc n) w s h =
      let (now, t, e, k) = ok_of_io (c.list_pods ns selector) _ h in
      elim (Bool-cases (gone name now && leb target (running now))) [
        | inl p ↦
            let both : (gone name now ≡ true) × (leb target (running now) ≡ true) =
              ground (arith, p) in
            up now
              (subst (λ (x : W). c.list_pods ns selector w ≡ (ok now, x))
                (ap (λ x. x.1) (rw p at k)) e)
              (gone-mem name now both.0) (ground (arith, both.1))
        | inr p ↦ again now e (recovered-Recovers name limit n t s (rw p at k))
      ]

  roll-Rolls :
      (wait : Wait) (pods : List PodRef) (deleted names : List PodName) (w s : W)
      → roll c ns selector target wait false pods deleted w ≡ (ok names, s)
      → (names ≡ deleted ++ map (λ p. p.name) pods) × Rolls w pods s
  unfolding roll
  roll-Rolls wait [] deleted names w s h =
      (sym (ok_injective (ap (λ x. x.0) h)) ∙ sym (append-nil deleted), done (ap (λ x. x.1) h))
  roll-Rolls wait (pod ∷ pods) deleted names w s h =
      let (u, t, e, k) = ok_of_io (c.delete_pod ns pod.name false) _ h in
      let (v, r, f, l) =
        ok_of_io (recovered c ns selector target pod.name wait.limit wait.calls) _ k in
      let (q, rs) = roll-Rolls wait pods (deleted ++ (pod.name ∷ [])) names r s l in
      (
        q ∙ append_assoc deleted (pod.name ∷ []) (map (λ p. p.name) pods),
        step e (recovered-Recovers pod.name wait.limit wait.calls t r f) rs,
      )

-- A rolling restart that ends well deleted the pods that the selector matched, each once, in the
-- order of their names; after each deletion it saw a list without the pod in which as many pods run
-- as at the start.
pub rolling_restart-Rolls :
    {W F : Type 0} (c : ClusterPort W F) (ns : Namespace) (selector : Labels)
    → (wait : Wait) (w s : W) (names : List PodName)
    → rolling_restart c ns selector wait false w ≡ (ok names, s)
    → (found pods : List PodRef) × (t : W) × (c.list_pods ns selector w ≡ (ok found, t))
      × Perm pods found
      × Sorted pod_le pods
      × (names ≡ map (λ p. p.name) pods)
      × Rolls c ns selector (running pods) t pods s
unfolding rolling_restart
rolling_restart-Rolls c ns selector wait w s names h =
    let (found, t, e, k) = ok_of_io (c.list_pods ns selector) _ h in
    let pods = sort_by pod_le found in
    let (q, rs) = roll-Rolls c ns selector (running pods) wait pods [] names t s k in
    (
      found,
      pods,
      t,
      e,
      sort_by-perm pod_le found,
      sort_by-Sorted pod_le (λ x y. leb_chars_total x.name y.name)
          (λ x y z. leb_chars_trans x.name y.name z.name) found,
      q,
      rs,
    )
